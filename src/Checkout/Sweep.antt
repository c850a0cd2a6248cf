-- ===== src/Checkout/Sweep.antt =====
-- The block sweeper of app/checkout.py: `_get_or_init_cursor`, `_set_cursor`, `_sweep_chain` and
-- `sweep_tick`. Each session is one commit: a failure keeps what was committed before it.
pub mod Cursor
pub mod Windows
pub mod Keeps
use tilla.Base.{
  ℕ, zero, suc, ◌+◌, ◌-◌, min, Bool, Option, none, some, List, [], ◌∷◌, ◌++◌, ◌==◌, is_some, ltb,
  leb, if◌then◌else◌, Result, ok, err, ◌>>=◌, for_each,
}
use tilla.Base.Text.{Text}
use tilla.Base.Rows.{update}
use tilla.Base.Keyed.{get}
use tilla.Models.{Db, Env, ChainCursor}
use tilla.Chain.{Log, ChainConfig}
use tilla.Payment.{enabled_chains}
use tilla.Checkout.Matching.{SweepError, rpc_unavailable, process_log, active_addresses}
use tilla.Checkout.Verify.{VerifyError, Node}
use tilla.Checkout.Expiry.{flip_expired, release_expired}
use tilla.Checkout.Promote.{promote_matured}

abbrev pub getlogs_max_span : ℕ
getlogs_max_span = 100

-- The cursor table stands apart: only the sweeper touches it.
pub record Tables : Type 0 where
  pub db : Db
  pub cursors : List ChainCursor

pub data Failure : Type 0 where
  in_window : SweepError → Failure
  in_promotion : VerifyError → Failure

-- What is committed, and what was raised after it.
pub record Swept : Type 0 where
  pub committed : Tables
  pub raised : Option Failure

-- `eth_getLogs` on the inclusive block window, filtered by the asset and the addresses.
abbrev pub LogSource : Type 0
LogSource = ChainConfig → ℕ → ℕ → List Text → Result SweepError (List Log)

-- What one tick is given: the settings, the window budget, the node.
pub record Rpc : Type 0 where
  pub node : Node
  pub get_logs : LogSource
  pub max_windows : ℕ

abbrev pub cursor_id : ChainCursor → ℕ
cursor_id c = c.id

unfoldable pub set_cursor : ℕ → ℕ → List ChainCursor → List ChainCursor
set_cursor k block cs =
    if is_some (get cursor_id k cs)
    then update (λ x. x.id == k) (λ x. record x { last_block = block }) cs
    else cs ++ (record { id = k; last_block = block } ∷ [])

unfoldable pub get_or_init_cursor : ℕ → ℕ → List ChainCursor → ℕ × List ChainCursor
get_or_init_cursor k safe_head cs = elim (get cursor_id k cs) [
  | none ↦ (safe_head, cs ++ (record { id = k; last_block = safe_head } ∷ []))
  | some c ↦ (c.last_block, cs)
]

abbrev pub window_end : ℕ → ℕ → ℕ
window_end from_block safe_head = min (from_block + getlogs_max_span) safe_head

-- One window: the logs, then their processing and the cursor in one commit.
unfoldable pub sweep_window :
    Env → Rpc → ChainConfig → ℕ → ℕ → List Text → ℕ → Tables → Result SweepError Tables
sweep_window env rpc cfg head safe_head addresses from_block t =
    let to_block = window_end from_block safe_head in
    do
      logs ← rpc.get_logs cfg from_block to_block addresses
      db ← for_each (process_log env cfg.caip2 head) logs t.db
      ok (record { db = db; cursors = set_cursor cfg.chain_id to_block t.cursors })

abbrev pub resume : Tables → (Tables → Swept) → Result SweepError Tables → Swept
resume t next (err e) = record { committed = t; raised = some (in_window e) }
resume t next (ok t') = next t'

-- The loop over windows; the budget counts down from `SWEEP_MAX_WINDOWS`.
unfoldable pub sweep_windows : Env → Rpc → ChainConfig → ℕ → ℕ → List Text → ℕ → ℕ → Tables → Swept
sweep_windows env rpc cfg head safe_head addresses zero from_block t = record {
  committed = t;
  raised = none;
}
sweep_windows env rpc cfg head safe_head addresses (suc budget) from_block t =
    let next =
      sweep_windows env rpc cfg head safe_head addresses budget
        (window_end from_block safe_head + 1) in
    if leb from_block safe_head
    then resume t next (sweep_window env rpc cfg head safe_head addresses from_block t)
    else record { committed = t; raised = none }

-- Past the cursor: with nobody to watch for, the cursor jumps to the safe head.
scan_new : Env → Rpc → ChainConfig → ℕ → ℕ → ℕ → List Text → Tables → Swept
unfolding sweep_windows
scan_new env rpc cfg head safe_head cursor [] t = record {
  committed = record t { cursors = set_cursor cfg.chain_id safe_head t.cursors };
  raised = none;
}
scan_new env rpc cfg head safe_head cursor (a ∷ addresses) t =
    sweep_windows env rpc cfg head safe_head (a ∷ addresses) rpc.max_windows (cursor + 1) t

unfoldable pub scan_chain : Env → Rpc → ChainConfig → ℕ → ℕ → ℕ → Tables → Swept
unfolding scan_new
scan_chain env rpc cfg head safe_head cursor t =
    if ltb cursor safe_head
    then scan_new env rpc cfg head safe_head cursor (active_addresses env cfg.caip2 t.db.orders) t
    else record { committed = t; raised = none }

commit_promotion : Tables → Result VerifyError Db → Swept
commit_promotion t (err e) = record { committed = t; raised = some (in_promotion e) }
commit_promotion t (ok db) = record { committed = record t { db = db }; raised = none }

promote : Env → Rpc → ChainConfig → ℕ → Tables → Option Failure → Swept
unfolding commit_promotion
promote env rpc cfg head t (some e) = record { committed = t; raised = some e }
promote env rpc cfg head t none =
    commit_promotion t (promote_matured env rpc.node cfg.caip2 head t.db)

sweep_head : Env → Rpc → ChainConfig → Tables → ℕ → Swept
unfolding promote
sweep_head env rpc cfg t head =
    let safe_head = head - env.confirmations in
    let (cursor, cursors) = get_or_init_cursor cfg.chain_id safe_head t.cursors in
    let scanned = scan_chain env rpc cfg head safe_head cursor (record t { cursors = cursors }) in
    if ltb head env.confirmations
    then record { committed = t; raised = none }
    else promote env rpc cfg head scanned.committed scanned.raised

at_head : Env → Rpc → ChainConfig → Tables → Result VerifyError ℕ → Swept
unfolding sweep_head
at_head env rpc cfg t (err e) = record { committed = t; raised = some (in_window rpc_unavailable) }
at_head env rpc cfg t (ok head) = sweep_head env rpc cfg t head

unfoldable pub sweep_chain : Env → Rpc → ChainConfig → Tables → Swept
unfolding at_head
sweep_chain env rpc cfg t = at_head env rpc cfg t (rpc.node.head cfg)

sweep_chains : Env → Rpc → List ChainConfig → Swept → Swept
sweep_chains env rpc [] s = s
sweep_chains env rpc (cfg ∷ cfgs) s = elim s.raised [
  | some e ↦ s
  | none ↦ sweep_chains env rpc cfgs (sweep_chain env rpc cfg s.committed)
]

unfoldable pub sweep_tick : Env → Rpc → (ChainConfig → Bool) → Tables → Swept
unfolding sweep_chains
sweep_tick env rpc chain_enabled t = sweep_chains env rpc (enabled_chains chain_enabled) (record {
  committed = record t { db = release_expired env (flip_expired env t.db) };
  raised = none;
})
