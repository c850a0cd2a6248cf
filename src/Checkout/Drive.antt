-- ===== src/Checkout/Drive.antt =====
-- `_record_transfer`, `_drive_state` and `apply_transfer` of app/checkout.py.
pub mod Keeps
pub mod Frame
pub mod Pays
use tilla.Base.{ℕ, ◌+◌, ◌-◌, Bool, Option, none, some, List, [], ◌∷◌, ◌++◌, ltb, leb, if◌then◌else◌}
use tilla.Base.Text.{Text, lower}
use tilla.Chain.{Transfer}
use tilla.Models.{
  Status, Order, ProcessedTransfer, Db, Env, Event, log_event, is_in, pending, detected, underpaid,
  confirmed, overpaid, late_paid, expired, order_late_paid, order_underpaid, order_detected,
  order_confirmed,
}
use tilla.Checkout.Transition.{in_flight, transition}
use tilla.Checkout.Deliver.{deliver}

-- `addr.lower() if addr else None`
abbrev pub norm_addr : Text → Option Text
norm_addr [] = none
norm_addr (c ∷ cs) = some (lower (c ∷ cs))

abbrev pub text_or_empty : Option Text → Text
text_or_empty none = []
text_or_empty (some t) = t

abbrev pub transfer_row : Order → Transfer → ProcessedTransfer
transfer_row o d = record {
  tx_hash = d.tx_hash;
  log_index = d.log_index;
  order_id = o.id;
  pay_to = o.pay_to;
  from_addr = text_or_empty (norm_addr d.from);
  amount_micro = d.value;
  block_number = d.block_number;
}

unfoldable pub record_transfer : Order → Transfer → Db → Db
record_transfer o d db = record db { transfers = db.transfers ++ (transfer_row o d ∷ []) }

-- One conditional UPDATE of the order and its event.
abbrev pub move_and_log : Order → List Status → Status → Event → (Order → Order) → Db → Db
move_and_log o from_states to_state event fields db = record db {
  orders = (transition o.id from_states to_state fields db.orders).0;
  events = log_event event o db.events;
}

-- What arrived: the added value, its block, sender and hash, and the chain head.
pub record Inbound : Type 0 where
  pub added : ℕ
  pub block_number : ℕ
  pub from_addr : Text
  pub tx_hash : Text
  pub head : ℕ

-- `head - block_number >= CONFIRMATIONS`
abbrev pub depth_ok : Env → Inbound → Bool
depth_ok env i = leb (i.block_number + env.confirmations) i.head

abbrev pub inbound_fields : Order → Inbound → Order → Order
inbound_fields o i x = record x {
  paid_micro = o.paid_micro + i.added;
  block_number = some i.block_number;
  from_addr = norm_addr i.from_addr;
  tx_hash = some i.tx_hash;
}

abbrev pub with_over : ℕ → (Order → Order) → Order → Order
with_over over fields x = record (fields x) { overpaid_micro = over }

drive_late : Env → Order → Inbound → Db → Db
drive_late env o i db =
    let moved = move_and_log o (expired ∷ []) late_paid order_late_paid (inbound_fields o i) db in
    if depth_ok env i then (deliver env o.id moved).1 else moved

drive_paid : Env → Order → Inbound → ℕ → Db → Db
drive_paid env o i over db =
    let fields = with_over over (inbound_fields o i) in
    let to_state = if ltb 0 over then overpaid else confirmed in
    if depth_ok env i
    then (deliver env o.id (move_and_log o in_flight to_state order_confirmed fields db)).1
    else move_and_log o in_flight detected order_detected fields db

-- The order is the row as it was read; the UPDATEs are conditional on the table.
unfoldable pub drive_state : Env → Order → Inbound → Db → Db
unfolding drive_late drive_paid
drive_state env o i db =
    let cumulative = o.paid_micro + i.added in
    if is_in o.status (expired ∷ [])
    then drive_late env o i db
    else if ltb cumulative o.expected_micro
    then move_and_log o (pending ∷ underpaid ∷ []) underpaid order_underpaid (inbound_fields o i) db
    else drive_paid env o i (cumulative - o.expected_micro) db

abbrev pub inbound : Transfer → ℕ → Inbound
inbound d head = record {
  added = d.value;
  block_number = d.block_number;
  from_addr = d.from;
  tx_hash = d.tx_hash;
  head = head;
}

unfoldable pub apply_transfer : Env → Order → Transfer → ℕ → Db → Db
unfolding record_transfer drive_state
apply_transfer env o d head db = drive_state env o (inbound d head) (record_transfer o d db)
