-- ===== src/Checkout/Transition.antt =====
-- The status groups and the conditional status UPDATE of app/checkout.py.
pub mod Laws
use tilla.Base.{
  ℕ, ◌≡◌, refl, ◌≢◌, Bool, true, false, ◌&&◌, Option, none, some, List, [], ◌∷◌, ◌++◌, arith, ◌==◌,
  if◌then◌else◌, Bool-cases, inl, inr,
}
use tilla.Base.Rows.{update, rowcount, update_none}
use tilla.Base.Keyed.{get, IsUnique, get-update, get-key, rowcount-key}
use tilla.Models.{
  Status, Order, is_in, status_eq, pending, detected, underpaid, confirmed, overpaid, late_paid,
  delivered, paid, refunded, expired, canceled, reorged,
}

abbrev pub in_flight : List Status
in_flight = pending ∷ detected ∷ underpaid ∷ []

abbrev pub ready_to_deliver : List Status
ready_to_deliver = confirmed ∷ overpaid ∷ late_paid ∷ []

abbrev pub always_hold : List Status
always_hold = in_flight ++ ready_to_deliver

abbrev pub cooldown_hold : List Status
cooldown_hold = delivered ∷ paid ∷ refunded ∷ []

abbrev pub terminal_delivered : List Status
terminal_delivered = delivered ∷ paid ∷ []

-- The WHERE clause of `transition`.
abbrev pub awaits : ℕ → List Status → Order → Bool
awaits order_id from_states o = (o.id == order_id) && is_in o.status from_states

abbrev pub moved_to : Status → (Order → Order) → Order → Order
moved_to to_state fields o = record (fields o) { status = to_state }

-- The table after the UPDATE, and whether exactly one row moved.
unfoldable pub transition :
    ℕ → List Status → Status → (Order → Order) → List Order → List Order × Bool
transition order_id from_states to_state fields orders =
    let where_ = awaits order_id from_states in
    (update where_ (moved_to to_state fields) orders, rowcount where_ orders == 1)

abbrev pub order_id : Order → ℕ
order_id o = o.id

abbrev pub get_order : ℕ → List Order → Option Order
get_order = get order_id
