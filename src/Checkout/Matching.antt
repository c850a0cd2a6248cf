-- ===== src/Checkout/Matching.antt =====
-- `_match_order`, `_is_agent_settlement`, `_process_log` and `_active_addresses` of
-- app/checkout.py: from a swept log to the order that it pays.
pub mod Laws
pub mod Replay
use tilla.Base.{
  ℕ, ◌+◌, Bool, true, false, ◌&&◌, ◌||◌, Option, none, some, List, [], ◌∷◌, ◌++◌, ◌==◌, ltb,
  is_some, or_else, if◌then◌else◌, Result, ok, err,
}
use tilla.Base.Text.{Text, text_eq, opt_text_eq, non_empty}
use tilla.Base.Rows.{find, select}
use tilla.Models.{
  Order, ProcessedTransfer, Db, Env, EventLog, Channel, web, agent, is_in, expired, pending,
  detected, underpaid, transfer_unmatched,
}
use tilla.Chain.{Log, Transfer, decode_transfer_log}
use tilla.Checkout.Transition.{in_flight}
use tilla.Checkout.Drive.{apply_transfer}

pub data SweepError : Type 0 where
  malformed_log rpc_unavailable : SweepError

-- `_naive(o.expires_at) or _naive(o.created_at)`
abbrev pub expiry : Order → ℕ
expiry o = or_else o.expires_at o.created_at

-- `exp + quarantine > now`
abbrev pub is_quarantined : Env → Order → Bool
is_quarantined env o = ltb env.now (expiry o + env.quarantine)

-- The amount, the address and the chain that a transfer must hit.
abbrev pub expects : Text → Text → ℕ → Order → Bool
expects network pay_to value o =
    text_eq o.network network && (text_eq o.pay_to pay_to && (o.expected_micro == value))

-- `.order_by(Order.created_at).limit(1)`
unfoldable pub earliest : List Order → Option Order
earliest [] = none
earliest (o ∷ os) =
    let rest = earliest os in
    elim rest [ none ↦ some o | some e ↦ if ltb e.created_at o.created_at then some e else some o ]

abbrev pub awaits_payment : Text → Text → ℕ → Order → Bool
awaits_payment network pay_to value o = expects network pay_to value o && is_in o.status in_flight

abbrev pub awaits_late : Env → Text → Text → ℕ → Order → Bool
awaits_late env network pay_to value o =
    expects network pay_to value o && (is_in o.status (expired ∷ []) && is_quarantined env o)

-- In-flight orders first, then an expired one in quarantine.
unfoldable pub match_order : Env → Text → Text → ℕ → List Order → Option Order
unfolding earliest
match_order env network pay_to value orders =
    elim (earliest (select (awaits_payment network pay_to value) orders)) [
      | some o ↦ some o
      | none ↦ find (awaits_late env network pay_to value) orders
    ]

is_agent : Channel → Bool
is_agent agent = true
is_agent web = false

unfoldable pub is_agent_settlement : Text → List Order → Bool
unfolding is_agent
is_agent_settlement tx_hash orders =
    if non_empty tx_hash
    then is_some (
        find
          (λ o.
            is_agent o.channel
            && (opt_text_eq o.tx_hash tx_hash || opt_text_eq o.settle_ref tx_hash))
          orders)
    else false

-- The row of `processed_transfers` for one log of one transaction.
abbrev pub is_recorded : Text → ℕ → ProcessedTransfer → Bool
is_recorded tx_hash index t = text_eq t.tx_hash tx_hash && (t.log_index == index)

abbrev pub find_transfer : Transfer → List ProcessedTransfer → Option ProcessedTransfer
find_transfer d = find (is_recorded d.tx_hash d.log_index)

abbrev pub unmatched_event : EventLog
unmatched_event = record { event = transfer_unmatched; store_id = none; order_id = none }

credit : Env → Option Order → Transfer → ℕ → Db → Db
credit env none d head db = record db { events = db.events ++ (unmatched_event ∷ []) }
credit env (some o) d head db = apply_transfer env o d head db

unfoldable pub process_transfer : Env → Text → Transfer → ℕ → Db → Db
unfolding credit
process_transfer env network d head db =
    if is_some (find_transfer d db.transfers)
    then db
    else if is_agent_settlement d.tx_hash db.orders
    then db
    else credit env (match_order env network d.to d.value db.orders) d head db

process_decoded : Env → Text → ℕ → Option Transfer → Db → Result SweepError Db
unfolding process_transfer
process_decoded env network head none db = err malformed_log
process_decoded env network head (some d) db = ok (process_transfer env network d head db)

unfoldable pub process_log : Env → Text → ℕ → Log → Db → Result SweepError Db
unfolding process_decoded
process_log env network head lg db = process_decoded env network head (decode_transfer_log lg) db

-- The statuses whose addresses the sweeper watches.
is_watched : Env → Text → Order → Bool
is_watched env network o =
    text_eq o.network network
    && (is_in o.status (pending ∷ detected ∷ underpaid ∷ [])
        || (is_in o.status (expired ∷ []) && is_quarantined env o))

-- The set of addresses; the source sorts it, which the node does not depend on.
unfoldable pub active_addresses : Env → Text → List Order → List Text
unfolding is_watched
active_addresses env network [] = []
active_addresses env network (o ∷ os) =
    let rest = active_addresses env network os in
    if is_watched env network o
    then (if is_some (find (text_eq o.pay_to) rest) then rest else o.pay_to ∷ rest)
    else rest
