-- ===== src/Checkout/Sweep/Keeps.antt =====
-- A sweep keeps the invariant of the tables, also when it fails half-way.
use tilla.Base.{
  ℕ, zero, suc, ◌+◌, ◌-◌, ◌≡◌, refl, subst, Option, none, some, List, [], ◌∷◌, ltb, leb, Result, ok,
  err, >>=-eq-ok, ok-injective, for_each, for_each_inv, Bool-cases, Option-cases, inl, inr, Bool,
}
use tilla.Base.Text.{Text}
use tilla.Models.{Db, Env}
use tilla.Chain.{Log, ChainConfig}
use tilla.Payment.{enabled_chains}
use tilla.Checkout.Matching.{SweepError, process_log}
use tilla.Checkout.Matching.Laws.{process_log-Keeps}
use tilla.Checkout.Verify.{VerifyError}
use tilla.Checkout.Expiry.{flip_expired}
use tilla.Checkout.Expiry.Keeps.{flip_expired-Keeps, release_expired-Keeps}
use tilla.Checkout.Promote.{promote_matured}
use tilla.Checkout.Promote.Keeps.{promote_matured-Keeps}
use tilla.Checkout.Sound.{Sound, Keeps, Keeps-refl, Keeps-trans}
use tilla.Checkout.Sweep.{
  Tables, Swept, Failure, Rpc, window_end, sweep_window, resume, sweep_windows, scan_new,
  scan_chain, promote, commit_promotion, sweep_head, at_head, sweep_chain, sweep_chains, sweep_tick,
  get_or_init_cursor,
}

process_logs-Keeps :
    (env : Env) (network : Text) (head : ℕ) (logs : List Log) (db db' : Db)
    → for_each (process_log env network head) logs db ≡ ok db'
    → Sound db
    → Keeps db db'
process_logs-Keeps env network head logs db db' h s =
    for_each_inv (Keeps db) (process_log env network head)
      (λ lg a b kept step.
        Keeps-trans db a b kept (process_log-Keeps env network head lg a b step kept.sound))
      logs db db' (Keeps-refl db s) h

module _ (env : Env) (rpc : Rpc) (cfg : ChainConfig) (head safe_head : ℕ) where
  window-Keeps :
      (addresses : List Text) (from_block : ℕ) (t t' : Tables)
      → sweep_window env rpc cfg head safe_head addresses from_block t ≡ ok t'
      → Sound t.db
      → Keeps t.db t'.db
  unfolding sweep_window
  window-Keeps addresses from_block t t' h s =
      let (logs, _, h₁) =
        >>=-eq-ok (rpc.get_logs cfg from_block (window_end from_block safe_head) addresses) _ h in
      let (db, ran, end) = >>=-eq-ok (for_each (process_log env cfg.caip2 head) logs t.db) _ h₁ in
      subst (λ u. Keeps t.db u.db) (ok-injective _ _ end)
        (process_logs-Keeps env cfg.caip2 head logs t.db db ran s)

  resume-Keeps :
      (addresses : List Text) (from_block : ℕ) (t : Tables) (next : Tables → Swept)
      (w : Result SweepError Tables)
      → sweep_window env rpc cfg head safe_head addresses from_block t ≡ w
      → ((u : Tables) → Sound u.db → Keeps u.db (next u).committed.db)
      → Sound t.db
      → Keeps t.db (resume t next w).committed.db
  resume-Keeps addresses from_block t next (err e) same again s = Keeps-refl t.db s
  resume-Keeps addresses from_block t next (ok u) same again s =
      let first = window-Keeps addresses from_block t u same s in
      Keeps-trans t.db u.db _ first (again u first.sound)

  windows-Keeps :
      (addresses : List Text) (budget from_block : ℕ) (t : Tables)
      → Sound t.db
      → Keeps t.db
          (sweep_windows env rpc cfg head safe_head addresses budget from_block t).committed.db
  unfolding sweep_windows
  windows-Keeps addresses zero from_block t s = Keeps-refl t.db s
  windows-Keeps addresses (suc budget) from_block t s =
      elim (Bool-cases (leb from_block safe_head)) [
        | inr done ↦ rw done (Keeps-refl t.db s)
        | inl more ↦ rw more (
            resume-Keeps addresses from_block t _
              (sweep_window env rpc cfg head safe_head addresses from_block t) refl
              (windows-Keeps addresses budget (window_end from_block safe_head + 1)) s)
      ]

  scan_new-Keeps :
      (cursor : ℕ) (addresses : List Text) (t : Tables)
      → Sound t.db
      → Keeps t.db (scan_new env rpc cfg head safe_head cursor addresses t).committed.db
  unfolding scan_new
  scan_new-Keeps cursor [] t s = Keeps-refl t.db s
  scan_new-Keeps cursor (a ∷ addresses) t s =
      windows-Keeps (a ∷ addresses) rpc.max_windows (cursor + 1) t s

  scan_chain-Keeps :
      (cursor : ℕ) (t : Tables)
      → Sound t.db
      → Keeps t.db (scan_chain env rpc cfg head safe_head cursor t).committed.db
  unfolding scan_chain
  scan_chain-Keeps cursor t s = elim (Bool-cases (ltb cursor safe_head)) [
    | inr current ↦ rw current (Keeps-refl t.db s)
    | inl behind ↦ rw behind (scan_new-Keeps cursor _ t s)
  ]

  commit-Keeps :
      (t : Tables) (m : Result VerifyError Db)
      → promote_matured env rpc.node cfg.caip2 head t.db ≡ m
      → Sound t.db
      → Keeps t.db (commit_promotion t m).committed.db
  unfolding commit_promotion
  commit-Keeps t (err e) same s = Keeps-refl t.db s
  commit-Keeps t (ok db) same s = promote_matured-Keeps env rpc.node cfg.caip2 head t.db db s same

  promote-Keeps :
      (t : Tables) (f : Option Failure)
      → Sound t.db
      → Keeps t.db (promote env rpc cfg head t f).committed.db
  unfolding promote
  promote-Keeps t (some e) s = Keeps-refl t.db s
  promote-Keeps t none s = commit-Keeps t _ refl s

sweep_head-Keeps :
    (env : Env) (rpc : Rpc) (cfg : ChainConfig) (t : Tables) (head : ℕ)
    → Sound t.db
    → Keeps t.db (sweep_head env rpc cfg t head).committed.db
unfolding sweep_head
sweep_head-Keeps env rpc cfg t head s = elim (Bool-cases (ltb head env.confirmations)) [
  | inl young ↦ rw young (Keeps-refl t.db s)
  | inr old ↦ rw old (
      let opened = get_or_init_cursor cfg.chain_id (head - env.confirmations) t.cursors in
      let t₁ = record t { cursors = opened.1 } in
      let first = scan_chain-Keeps env rpc cfg head (head - env.confirmations) opened.0 t₁ s in
      let scanned = scan_chain env rpc cfg head (head - env.confirmations) opened.0 t₁ in
      Keeps-trans t.db scanned.committed.db _ first (
        promote-Keeps env rpc cfg head (head - env.confirmations) scanned.committed scanned.raised
          first.sound))
]

at_head-Keeps :
    (env : Env) (rpc : Rpc) (cfg : ChainConfig) (t : Tables) (m : Result VerifyError ℕ)
    → Sound t.db
    → Keeps t.db (at_head env rpc cfg t m).committed.db
unfolding at_head
at_head-Keeps env rpc cfg t (err e) s = Keeps-refl t.db s
at_head-Keeps env rpc cfg t (ok head) s = sweep_head-Keeps env rpc cfg t head s

-- One chain's slice of a tick, whatever the node answers, keeps the invariant in what it commits.
pub sweep_chain-Keeps :
    (env : Env) (rpc : Rpc) (cfg : ChainConfig) (t : Tables)
    → Sound t.db
    → Keeps t.db (sweep_chain env rpc cfg t).committed.db
unfolding sweep_chain
sweep_chain-Keeps env rpc cfg t s = at_head-Keeps env rpc cfg t (rpc.node.head cfg) s

sweep_chains-Keeps :
    (env : Env) (rpc : Rpc) (cfgs : List ChainConfig) (t : Swept)
    → Sound t.committed.db
    → Keeps t.committed.db (sweep_chains env rpc cfgs t).committed.db
unfolding sweep_chains
sweep_chains-Keeps env rpc [] t s = Keeps-refl t.committed.db s
sweep_chains-Keeps env rpc (cfg ∷ cfgs) t s = elim (Option-cases t.raised) [
  | inr (e, failed) ↦ rw failed (Keeps-refl t.committed.db s)
  | inl running ↦ rw running (
      let first = sweep_chain-Keeps env rpc cfg t.committed s in
      Keeps-trans t.committed.db _ _ first
        (sweep_chains-Keeps env rpc cfgs (sweep_chain env rpc cfg t.committed) first.sound))
]

-- On a database with the invariant, one tick over all enabled chains, whatever the node answers
-- and also when a call fails half-way, keeps the invariant in what it commits.
pub sweep_tick-Keeps :
    (env : Env) (rpc : Rpc) (chain_enabled : ChainConfig → Bool) (t : Tables)
    → Sound t.db
    → Keeps t.db (sweep_tick env rpc chain_enabled t).committed.db
unfolding sweep_tick
sweep_tick-Keeps env rpc chain_enabled t s =
    let flipped = flip_expired-Keeps env t.db s in
    let released = release_expired-Keeps env (flip_expired env t.db) flipped.sound in
    Keeps-trans t.db _ _ (Keeps-trans t.db _ _ flipped released)
      (sweep_chains-Keeps env rpc (enabled_chains chain_enabled) _ released.sound)
