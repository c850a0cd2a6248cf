-- ===== src/Checkout/Machine.antt =====
-- The diagram of order statuses that app/checkout.py and app/refunds.py move along, written from
-- the `transition` calls, and what follows for a whole life of an order.
use tilla.Base.{◌≡◌, refl, true, List, [], ◌∷◌, arith}
use tilla.Models.{
  Status, is_in, status_eq, pending, detected, underpaid, confirmed, overpaid, late_paid, delivered,
  expired, canceled, reorged, refunded, paid,
}

infix 40 ◌⟶◌ ◌⟶*◌
pub data ◌⟶◌ : Status → Status → Type 0 where
  pay_short : pending ⟶ underpaid
  pay_more : underpaid ⟶ underpaid
  see_pending : pending ⟶ detected
  see_detected : detected ⟶ detected
  see_underpaid : underpaid ⟶ detected
  confirm_pending : pending ⟶ confirmed
  confirm_detected : detected ⟶ confirmed
  confirm_underpaid : underpaid ⟶ confirmed
  over_pending : pending ⟶ overpaid
  over_detected : detected ⟶ overpaid
  over_underpaid : underpaid ⟶ overpaid
  expire_pending : pending ⟶ expired
  expire_underpaid : underpaid ⟶ expired
  pay_late : expired ⟶ late_paid
  release : expired ⟶ canceled
  reorg_detected : detected ⟶ reorged
  reorg_late : late_paid ⟶ reorged
  deliver_confirmed : confirmed ⟶ delivered
  deliver_overpaid : overpaid ⟶ delivered
  deliver_late : late_paid ⟶ delivered
  refund_underpaid : underpaid ⟶ refunded
  refund_expired : expired ⟶ refunded
  refund_canceled : canceled ⟶ refunded
  refund_confirmed : confirmed ⟶ refunded
  refund_overpaid : overpaid ⟶ refunded
  refund_late : late_paid ⟶ refunded
  refund_delivered : delivered ⟶ refunded
  refund_paid : paid ⟶ refunded

pub data ◌⟶*◌ : Status → Status → Type 0 where
  here : {s : Status} → s ⟶* s
  along : {s t u : Status} → s ⟶ t → t ⟶* u → s ⟶* u

pub ruleset edges = (
  pay_short, pay_more, see_pending, see_detected, see_underpaid, confirm_pending, confirm_detected,
  confirm_underpaid, over_pending, over_detected, over_underpaid, expire_pending, expire_underpaid,
  pay_late, release, reorg_detected, reorg_late, deliver_confirmed, deliver_overpaid, deliver_late,
  refund_underpaid, refund_expired, refund_canceled, refund_confirmed, refund_overpaid, refund_late,
  refund_delivered, refund_paid,
)

pub one : {s t : Status} → s ⟶ t → s ⟶* t
one e = along e here

pub path_trans : {s t u : Status} → s ⟶* t → t ⟶* u → s ⟶* u
path_trans here q = q
path_trans (along e p) q = along e (path_trans p q)

-- The statuses of the partial unique index `ux_orders_active_amount`.
abbrev pub indexed : List Status
indexed = pending ∷ detected ∷ underpaid ∷ expired ∷ late_paid ∷ []

edge-indexed : {s t : Status} → s ⟶ t → is_in t indexed ≡ true → is_in s indexed ≡ true
unfolding status_eq
edge-indexed pay_short h = refl
edge-indexed _ h = ground arith

-- No path of the diagram re-enters the index: an amount that was given up is not taken back.
pub path-indexed : {s t : Status} → s ⟶* t → is_in t indexed ≡ true → is_in s indexed ≡ true
path-indexed here h = h
path-indexed (along e p) h = edge-indexed e (path-indexed p h)
