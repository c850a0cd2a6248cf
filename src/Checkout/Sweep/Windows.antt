-- ===== src/Checkout/Sweep/Windows.antt =====
-- The window loop of the sweeper against its meaning: every block past the cursor is scanned once,
-- in order, up to where the cursor stops.
use tilla.Base.{
  ℕ, zero, suc, ◌+◌, ◌-◌, ◌*◌, ◌≤◌, min, ◌≡◌, refl, sym, subst, ap, ◌∙◌, none, some, List, [], ◌∷◌,
  ◌++◌, arith, leb, Result, ok, err, >>=-eq-ok, ok-injective, for_each, Bool-cases, inl, inr,
}
use tilla.Base.Text.{Text}
use tilla.Models.{Db, Env}
use tilla.Chain.{Log, ChainConfig}
use tilla.Checkout.Matching.{SweepError, process_log}
use tilla.Checkout.Sweep.Cursor.{cursor_at, cursor_at-set_cursor}
use tilla.Checkout.Sweep.{
  Tables, Rpc, window_end, sweep_window, sweep_windows, resume, getlogs_max_span,
}

-- The logs of `count` blocks from one block on.
abbrev pub block_logs : (ℕ → List Log) → ℕ → ℕ → List Log
block_logs logs from_block zero = []
block_logs logs from_block (suc count) = logs from_block ++ block_logs logs (from_block + 1) count

-- The blocks that a node serves in one call of `eth_getLogs`; it may fail on a longer window.
abbrev pub getlogs_cap : ℕ
getlogs_cap = 101

-- The node answers a window of at most so many blocks with their logs, in block order.
abbrev pub IsBlockwise : Rpc → ChainConfig → List Text → (ℕ → List Log) → Type 0
IsBlockwise rpc cfg addresses logs =
    (a b : ℕ)
    → a ≤ b
    → b + 1 ≤ a + getlogs_cap
    → rpc.get_logs cfg a b addresses ≡ ok (block_logs logs a (b + 1 - a))

for_each-append {ℓ κ μ} :
    {E : Type ℓ} {X : Type κ} {S : Type μ} (body : X → S → Result E S) (xs ys : List X) (s t u : S)
    → for_each body xs s ≡ ok t
    → for_each body ys t ≡ ok u
    → for_each body (xs ++ ys) s ≡ ok u
unfolding for_each
for_each-append body [] ys s t u h k = cc
for_each-append body (x ∷ xs) ys s t u h k =
    let (m, first, rest) = >>=-eq-ok (body x s) (for_each body xs) h in
    rw first (for_each-append body xs ys m t u rest k)

++_assoc {ℓ} : {A : Type ℓ} (xs ys zs : List A) → (xs ++ ys) ++ zs ≡ xs ++ (ys ++ zs)
++_assoc [] ys zs = refl
++_assoc (x ∷ xs) ys zs = ap (λ t. x ∷ t) (++_assoc xs ys zs)

add_zero : (b : ℕ) → b ≡ b + 0
add_zero b = omega arith

zero_add : (n : ℕ) → 0 + n ≡ n
zero_add n = omega arith

suc_add : (m n : ℕ) → suc m + n ≡ suc (m + n)
suc_add m n = omega arith

next_add : (b m : ℕ) → b + 1 + m ≡ b + suc m
next_add b m = omega arith

block_logs-append :
    (logs : ℕ → List Log) (from_block m n : ℕ)
    → block_logs logs from_block (m + n)
      ≡ block_logs logs from_block m ++ block_logs logs (from_block + m) n
block_logs-append logs b zero n =
    subst (λ k. block_logs logs b (0 + n) ≡ block_logs logs k n) (add_zero b)
      (ap (block_logs logs b) (zero_add n))
block_logs-append logs b (suc m) n =
    ap (block_logs logs b) (suc_add m n)
    ∙ ap (λ t. logs b ++ t)
        (block_logs-append logs (b + 1) m n
          ∙ ap (λ k. block_logs logs (b + 1) m ++ block_logs logs k n) (next_add b m))
    ∙ sym (++_assoc (logs b) _ _)

module _ (env : Env) (rpc : Rpc) (cfg : ChainConfig) (head safe_head : ℕ) (addresses : List Text)
    (logs : ℕ → List Log) (blockwise : IsBlockwise rpc cfg addresses logs) where
  -- How far a budget of windows reaches.
  abbrev pub reach : ℕ → ℕ → ℕ
  reach budget from_block = min (safe_head + 1 - from_block) (budget * (getlogs_max_span + 1))

  abbrev process : List Log → Db → Result SweepError Db
  process = for_each (process_log env cfg.caip2 head)

  -- `count` blocks past the cursor were processed, and the cursor stands behind them.
  pub record Scans (cursor count : ℕ) (t t' : Tables) : Type 0 where
    pub processed : process (block_logs logs (cursor + 1) count) t.db ≡ ok t'.db
    pub stands : cursor_at cfg.chain_id t'.cursors ≡ some (cursor + count)

  Scans-zero :
      (cursor : ℕ) (t : Tables)
      → cursor_at cfg.chain_id t.cursors ≡ some cursor
      → Scans cursor 0 t t
  unfolding for_each
  Scans-zero cursor t h = record { processed = refl; stands = h ∙ ap some (add_zero cursor) }

  Scans-append :
      (cursor m n : ℕ) (t u v : Tables)
      → Scans cursor m t u
      → Scans (cursor + m) n u v
      → Scans cursor (m + n) t v
  Scans-append cursor m n t u v first rest = record {
    processed =
        subst (λ l. process l t.db ≡ ok v.db) (sym (block_logs-append logs (cursor + 1) m n))
          (for_each-append (process_log env cfg.caip2 head) _ _ t.db u.db v.db first.processed (
            subst (λ k. process (block_logs logs k n) u.db ≡ ok v.db) (omega arith)
              rest.processed));
    stands = rest.stands ∙ ap some (omega arith);
  }

  abbrev window_size : ℕ → ℕ
  window_size cursor = window_end (cursor + 1) safe_head + 1 - (cursor + 1)

  window-Scans :
      (cursor : ℕ) (t t' : Tables)
      → cursor + 1 ≤ safe_head
      → sweep_window env rpc cfg head safe_head addresses (cursor + 1) t ≡ ok t'
      → Scans cursor (window_size cursor) t t'
  unfolding sweep_window
  window-Scans cursor t t' le h =
      let (db, ran, end) =
        >>=-eq-ok (process (block_logs logs (cursor + 1) (window_size cursor)) t.db) _ (
          rw
            (blockwise (cursor + 1) (window_end (cursor + 1) safe_head) (omega arith) (omega arith))
            at h) in
      subst (Scans cursor (window_size cursor) t) (ok-injective _ _ end) (record {
        processed = ran;
        stands =
            cursor_at-set_cursor cfg.chain_id (window_end (cursor + 1) safe_head) t.cursors
            ∙ ap some (omega arith);
      })

  -- One round of the loop, given what the rest of it does.
  resume-Scans :
      (budget cursor : ℕ) (t : Tables)
      → ((u : Tables)
          → window_end (cursor + 1) safe_head ≤ safe_head
          → cursor_at cfg.chain_id u.cursors ≡ some (window_end (cursor + 1) safe_head)
          → (sweep_windows env rpc cfg head safe_head addresses budget
              (window_end (cursor + 1) safe_head + 1)
              u).raised
            ≡ none
          → Scans
              (window_end (cursor + 1) safe_head)
              (reach budget (window_end (cursor + 1) safe_head + 1))
              u
              (sweep_windows env rpc cfg head safe_head addresses budget
                (window_end (cursor + 1) safe_head + 1)
                u).committed)
      → (w : Result SweepError Tables)
      → sweep_window env rpc cfg head safe_head addresses (cursor + 1) t ≡ w
      → cursor + 1 ≤ safe_head
      → (resume t
          (sweep_windows env rpc cfg head safe_head addresses budget
            (window_end (cursor + 1) safe_head + 1))
          w).raised
        ≡ none
      → Scans cursor
          (reach (suc budget) (cursor + 1))
          t
          (resume t
            (sweep_windows env rpc cfg head safe_head addresses budget
              (window_end (cursor + 1) safe_head + 1))
            w).committed
  resume-Scans budget cursor t again (err e) same more h = absurd (cc)
  resume-Scans budget cursor t again (ok t') same more h =
      let v =
        (sweep_windows env rpc cfg head safe_head addresses budget
          (window_end (cursor + 1) safe_head + 1) t').committed in
      let first = window-Scans cursor t t' more same in
      let ends : cursor + window_size cursor ≡ window_end (cursor + 1) safe_head = omega arith in
      let rest = again t' (omega arith) (first.stands ∙ ap some ends) h in
      subst (λ n. Scans cursor n t v) (omega arith)
        (Scans-append cursor (window_size cursor)
          (reach budget (window_end (cursor + 1) safe_head + 1)) t t' v first
          (subst (λ c. Scans c (reach budget (window_end (cursor + 1) safe_head + 1)) t' v)
            (sym ends) rest))

  -- With a node that answers windows of at most 101 blocks, block by block, and may fail on longer
  -- ones, and a cursor row that stands at or below the safe head, a loop of windows that ends without a failure has processed every block past the cursor
  -- once and in order, as far as its budget reaches or up to the safe head, and leaves the cursor
  -- exactly there.
  pub sweep_windows-Scans :
      (budget cursor : ℕ) (t : Tables)
      → cursor ≤ safe_head
      → cursor_at cfg.chain_id t.cursors ≡ some cursor
      → (sweep_windows env rpc cfg head safe_head addresses budget (cursor + 1) t).raised ≡ none
      → Scans cursor
          (reach budget (cursor + 1))
          t
          (sweep_windows env rpc cfg head safe_head addresses budget (cursor + 1) t).committed
  unfolding sweep_windows
  sweep_windows-Scans zero cursor t le at_cursor h =
      subst (λ n. Scans cursor n t t) (omega arith) (Scans-zero cursor t at_cursor)
  sweep_windows-Scans (suc budget) cursor t le at_cursor h =
      elim (Bool-cases (leb (cursor + 1) safe_head)) [
        | inr done ↦
            rw done (subst (λ n. Scans cursor n t t) (ground arith) (Scans-zero cursor t at_cursor))
        | inl more ↦ rw more (
            resume-Scans budget cursor t
              (sweep_windows-Scans budget (window_end (cursor + 1) safe_head))
              (sweep_window env rpc cfg head safe_head addresses (cursor + 1) t) refl (ground arith)
              (rw more at h))
      ]
