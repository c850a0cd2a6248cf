-- ===== src/Checkout/Promote.antt =====
-- `_receipt_still_valid`, `_mark_reorged`, `refresh_order` and `_promote_matured` of
-- app/checkout.py: an order that waits for depth is delivered only if its receipt still stands.
pub mod Keeps
use tilla.Base.{
  ℕ, ◌+◌, Bool, true, false, ◌&&◌, Option, none, some, List, [], ◌∷◌, ◌==◌, ltb, leb, any,
  if◌then◌else◌, Result, ok, err, ◌>>=◌, or_raise, for_each,
}
use tilla.Base.Text.{Text, text_eq, lower}
use tilla.Models.{
  Order, Status, Db, Env, is_in, pending, detected, late_paid, confirmed, overpaid, expired,
  reorged, order_expired, order_confirmed, order_reorged,
}
use tilla.Chain.{Log, Receipt, ChainConfig, is_transfer, topic, pad_address, succeeded, parse_hex}
use tilla.Payment.{chain_for}
use tilla.Checkout.Transition.{get_order}
use tilla.Checkout.Deliver.{deliver}
use tilla.Checkout.Drive.{move_and_log, text_or_empty}
use tilla.Checkout.Expiry.{same, is_overdue, ids_where}
use tilla.Checkout.Verify.{Node, VerifyError, unknown_network, malformed}

pays_address : ChainConfig → Text → Log → Bool
pays_address cfg pay_to lg = is_transfer cfg lg && text_eq (topic 2 lg) (lower (pad_address pay_to))

same_block : Option ℕ → ℕ → Bool
same_block none n = false
same_block (some b) n = b == n

still_at : ChainConfig → Order → Receipt → Option ℕ → Result VerifyError Bool
unfolding pays_address same_block
still_at cfg o r none = err malformed
still_at cfg o r (some n) =
    ok (same_block o.block_number n && any (pays_address cfg o.pay_to) r.logs)

check_block : ChainConfig → Order → Receipt → Option Text → Result VerifyError Bool
unfolding still_at
check_block cfg o r none = ok false
check_block cfg o r (some hex) = still_at cfg o r (parse_hex hex)

check_receipt : ChainConfig → Order → Option Receipt → Result VerifyError Bool
unfolding check_block
check_receipt cfg o none = ok false
check_receipt cfg o (some r) = if succeeded r then check_block cfg o r r.block_number else ok false

unfoldable pub receipt_still_valid : Node → Order → Result VerifyError Bool
unfolding check_receipt
receipt_still_valid node o = do
  cfg ← or_raise (chain_for o.network) unknown_network
  found ← node.receipt cfg (text_or_empty o.tx_hash)
  check_receipt cfg o found

abbrev pub reorgable : List Status
reorgable = detected ∷ late_paid ∷ []

unfoldable pub mark_reorged : Order → Db → Db
mark_reorged o = move_and_log o reorgable reorged order_reorged same

-- `over > 0`, where `over` may be negative.
abbrev pub matured_state : Order → Status
matured_state o = if ltb o.expected_micro o.paid_micro then overpaid else confirmed

confirm : Order → Db → Db
confirm o = move_and_log o (detected ∷ []) (matured_state o) order_confirmed same

confirm_seen : Order → Db → Db
unfolding confirm
confirm_seen o db = if is_in o.status (detected ∷ []) then confirm o db else db

-- An order whose receipt stands, or not: confirmed if it was only detected, then delivered.
unfoldable pub mature : Env → Order → Bool → Db → Db
unfolding confirm_seen mark_reorged
mature env o false db = mark_reorged o db
mature env o true db = (deliver env o.id (confirm_seen o db)).1

-- `order.block_number <= head - CONFIRMATIONS`
unfoldable pub is_deep : Env → ℕ → Order → Bool
is_deep env head o = elim o.block_number [
  | none ↦ false
  | some b ↦ leb (b + env.confirmations) head
]

-- A registry gap skips the row; any other failure ends the tick.
act_on : Env → Order → Db → Result VerifyError Bool → Result VerifyError Db
act_on env o db (ok valid) = ok (mature env o valid db)
act_on env o db (err unknown_network) = ok db
act_on env o db (err e) = err e

promote_row : Env → Node → Option Order → Db → Result VerifyError Db
unfolding act_on
promote_row env node none db = ok db
promote_row env node (some o) db = act_on env o db (receipt_still_valid node o)

-- One round of a loop, on the live row.
promote_id : Env → Node → ℕ → Db → Result VerifyError Db
unfolding promote_row
promote_id env node k db = promote_row env node (get_order k db.orders) db

is_ripe : Env → Text → ℕ → Status → Order → Bool
unfolding is_deep
is_ripe env network head status o =
    text_eq o.network network && (is_in o.status (status ∷ []) && is_deep env head o)

unfoldable pub promote_matured : Env → Node → Text → ℕ → Db → Result VerifyError Db
unfolding promote_id is_ripe mature
promote_matured env node network head db = do
  db' ← for_each (promote_id env node) (ids_where (is_ripe env network head detected) db.orders) db
  for_each (promote_id env node) (ids_where (is_ripe env network head late_paid) db'.orders) db'

refresh_deep : Env → Node → Order → Result VerifyError ℕ → Db → Result VerifyError Db
unfolding is_deep
refresh_deep env node o (err e) db = ok db
refresh_deep env node o (ok head) db =
    if is_deep env head o
    then receipt_still_valid node o >>= (λ valid. ok (mature env o valid db))
    else ok db

has_block : Option ℕ → Bool
has_block none = false
has_block (some b) = true

-- What a polling buyer's GET moves between two sweeps.
unfoldable pub refresh_order : Env → Node → Order → Db → Result VerifyError Db
unfolding refresh_deep has_block mature
refresh_order env node o db =
    if is_in o.status (pending ∷ [])
    then (if is_overdue env o
        then ok (move_and_log o (pending ∷ []) expired order_expired same db)
        else ok db)
    else if is_in o.status reorgable && has_block o.block_number
    then or_raise (chain_for o.network) unknown_network
      >>= (λ cfg. refresh_deep env node o (node.head cfg) db)
    else ok db
