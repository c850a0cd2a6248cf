-- ===== src/Checkout/Drive/Pays.antt =====
-- A payment in full that is deep enough delivers the order, at once.
use tilla.Base.{
  ℕ, ◌+◌, ◌-◌, ◌≤◌, ◌≡◌, refl, true, false, some, [], ◌∷◌, arith, ltb, if◌then◌else◌, Bool-cases,
  inl, inr,
}
use tilla.Base.Keyed.{IsUnique}
use tilla.Chain.{Transfer}
use tilla.Models.{
  Status, Order, Db, Env, is_in, status_eq, pending, detected, underpaid, confirmed, overpaid,
  expired, order_confirmed,
}
use tilla.Checkout.Transition.{in_flight, ready_to_deliver, moved_to, order_id, get_order}
use tilla.Checkout.Transition.Laws.{moved-found, moved-IsUnique}
use tilla.Checkout.Deliver.Wins.{Delivered, deliver-Delivered}
use tilla.Checkout.Drive.{
  Inbound, inbound, depth_ok, inbound_fields, with_over, move_and_log, drive_paid, drive_state,
  record_transfer, apply_transfer,
}

flight_unexpired : (s : Status) → is_in s in_flight ≡ true → is_in s (expired ∷ []) ≡ false
unfolding status_eq
flight_unexpired pending h = refl
flight_unexpired detected h = refl
flight_unexpired underpaid h = refl
flight_unexpired _ h = absurd (ground arith)

full-ready : (over : ℕ) → is_in (if ltb 0 over then overpaid else confirmed) ready_to_deliver ≡ true
unfolding status_eq
full-ready over = elim (Bool-cases (ltb 0 over)) [ inl e ↦ rw e refl | inr e ↦ rw e refl ]

module _ (env : Env) (o : Order) (db : Db) (unique : IsUnique order_id db.orders)
    (found : get_order o.id db.orders ≡ some o) (waits : is_in o.status in_flight ≡ true) where
  drive_paid-Delivered :
      (i : Inbound) (over : ℕ) → depth_ok env i ≡ true → Delivered o.id (drive_paid env o i over db)
  unfolding drive_paid
  drive_paid-Delivered i over deep =
      let fields = with_over over (inbound_fields o i) in
      let to_state = if ltb 0 over then overpaid else confirmed in
      rw deep (
        deliver-Delivered env o.id (move_and_log o in_flight to_state order_confirmed fields db)
          (moved_to to_state fields o)
          (moved-IsUnique o.id in_flight to_state fields db.orders (λ x. refl) unique)
          (moved-found o.id in_flight to_state fields db.orders o (λ x. refl) found waits)
          (full-ready over))

  drive_state-Delivered :
      (i : Inbound)
      → o.expected_micro ≤ o.paid_micro + i.added
      → depth_ok env i ≡ true
      → Delivered o.id (drive_state env o i db)
  unfolding drive_state
  drive_state-Delivered i enough deep =
      let reached : ltb (o.paid_micro + i.added) o.expected_micro ≡ false = ground arith in
      rw (flight_unexpired o.status waits, reached)
        (drive_paid-Delivered i (o.paid_micro + i.added - o.expected_micro) deep)

-- A transfer that completes the price of an order in flight, at the depth of confirmation or
-- deeper, delivers the order in the same call: its row is delivered and its delivery exists. Ids
-- are unique and the order is the row of its table.
pub apply_transfer-Delivered :
    (env : Env) (o : Order) (d : Transfer) (head : ℕ) (db : Db)
    → IsUnique order_id db.orders
    → get_order o.id db.orders ≡ some o
    → is_in o.status in_flight ≡ true
    → o.expected_micro ≤ o.paid_micro + d.value
    → depth_ok env (inbound d head) ≡ true
    → Delivered o.id (apply_transfer env o d head db)
unfolding apply_transfer record_transfer
apply_transfer-Delivered env o d head db unique found waits enough deep =
    drive_state-Delivered env o (record_transfer o d db) unique found waits (inbound d head) enough
      deep
