-- ===== src/Refunds/Once.antt =====
-- What is due after an accepted `apply_refund` of app/refunds.py.
use tilla.Base.{
  ℕ, ◌≡◌, ◌≢◌, refl, subst, true, false, some, List, [], ◌∷◌, arith, inl, inr, ◌⊎◌, ok, err, All,
  Bool-cases,
}
use tilla.Base.Text.{Text}
use tilla.Base.Keyed.{IsUnique}
use tilla.Models.{
  Status, Order, Store, RefundKind, full, overage, Db, Env, is_in, status_eq, pending, detected,
  underpaid, confirmed, overpaid, delivered, expired, canceled, late_paid, reorged, paid, refunded,
  settling,
}
use tilla.Checkout.Transition.{order_id, get_order, terminal_delivered}
use tilla.Checkout.Verify.{Node}
use tilla.Refunds.{refundable, left_over, amount_due, apply_refund, not_refundable, nothing_due}
use tilla.Refunds.Laws.{Reverses, refunded_row, apply_refund-Reverses}

-- A full refund takes back all that was paid, of an order that was paid for or given up and is not
-- refunded; it leaves nothing to refund.
record Full (o row : Order) : Type 0 where
  settled : All (λ t. o.status ≢ t) (pending ∷ detected ∷ reorged ∷ refunded ∷ settling ∷ [])
  all_back : row.refunded_micro ≡ o.paid_micro
  closed : row.status ≡ refunded
  no_more : amount_due row full ≡ err not_refundable

-- An overage refund gives back the whole surplus of a delivered order, which keeps its status.
record Surplus (o row : Order) : Type 0 where
  over : (o.status ≡ delivered) ⊎ (o.status ≡ paid)
  all_back : row.refunded_micro ≡ o.overpaid_micro
  as_before : row.status ≡ o.status
  no_more : amount_due row overage ≡ err nothing_due

pub record Exhausts (o : Order) (db' : Db) : Type 0 where
  row : Order
  found : get_order o.id db'.orders ≡ some row
  all_due : Full o row ⊎ Surplus o row

not_listed :
    (s t : Status) (listed : List Status) → is_in s listed ≡ true → is_in t listed ≡ false → s ≢ t
not_listed s t listed h out e = absurd (cc (subst (λ v. is_in v listed ≡ true) e h, out))

-- The statuses that a full refund does not take.
refundable-settled :
    (s : Status)
    → is_in s refundable ≡ true
    → All (λ t. s ≢ t) (pending ∷ detected ∷ reorged ∷ refunded ∷ settling ∷ [])
unfolding status_eq
refundable-settled s h = (
  not_listed s pending refundable h refl,
  (
    not_listed s detected refundable h refl,
    (
      not_listed s reorged refundable h refl,
      (not_listed s refunded refundable h refl, (not_listed s settling refundable h refl, tt)),
    ),
  ),
)

terminal-over : (s : Status) → is_in s terminal_delivered ≡ true → (s ≡ delivered) ⊎ (s ≡ paid)
unfolding status_eq
terminal-over pending h = absurd (cc h)
terminal-over detected h = absurd (cc h)
terminal-over underpaid h = absurd (cc h)
terminal-over confirmed h = absurd (cc h)
terminal-over overpaid h = absurd (cc h)
terminal-over late_paid h = absurd (cc h)
terminal-over delivered h = inl refl
terminal-over paid h = inr refl
terminal-over refunded h = absurd (cc h)
terminal-over expired h = absurd (cc h)
terminal-over canceled h = absurd (cc h)
terminal-over reorged h = absurd (cc h)
terminal-over settling h = absurd (cc h)

full-Full : (o : Order) (due : ℕ) → amount_due o full ≡ ok due → Full o (refunded_row full due o)
unfolding amount_due left_over status_eq
full-Full o due h = elim (Bool-cases (is_in o.status refundable)) [
  | inr out ↦ absurd (cc (rw out at h))
  | inl fits ↦ record {
    settled = refundable-settled o.status fits;
    all_back = ground (arith, rw fits at h);
    closed = refl;
    no_more = refl;
  }
]

overage-Surplus :
    (o : Order) (due : ℕ) → amount_due o overage ≡ ok due → Surplus o (refunded_row overage due o)
unfolding amount_due left_over
overage-Surplus o due h = elim (Bool-cases (is_in o.status terminal_delivered)) [
  | inr out ↦ absurd (cc (rw out at h))
  | inl fits ↦ record {
    over = terminal-over o.status fits;
    all_back = ground (arith, rw fits at h);
    as_before = refl;
    no_more = rw fits (ground (arith, rw fits at h));
  }
]

reversed-Exhausts :
    (o : Order) (kind : RefundKind) (applied : ℕ) (db db' : Db)
    → Reverses o kind applied db db'
    → Exhausts o db'
reversed-Exhausts o full applied db db' r = record {
  row = refunded_row full applied o;
  found = r.row;
  all_due = inl (full-Full o applied r.due);
}
reversed-Exhausts o overage applied db db' r = record {
  row = refunded_row overage applied o;
  found = r.row;
  all_due = inr (overage-Surplus o applied r.due);
}

-- An accepted refund changes nothing or gives back all that is due, so that no second refund of the
-- kind is due on the row it leaves. A full refund brings the amount refunded to what was paid and
-- closes the order, which was neither waiting for payment, reorged, settling nor refunded before; an
-- overage refund brings it to the surplus of a delivered order. The order is the row of its table,
-- and ids are unique.
pub apply_refund-Exhausts :
    (env : Env) (o : Order) (store : Store) (db : Db) (node : Node) (tx_hash kind_text : Text)
    (r : ℕ × Db)
    → get_order o.id db.orders ≡ some o
    → IsUnique order_id db.orders
    → apply_refund env node o store tx_hash kind_text db ≡ ok r
    → (r.1 ≡ db) ⊎ Exhausts o r.1
apply_refund-Exhausts env o store db node tx_hash kind_text r found unique h =
    elim (apply_refund-Reverses env o store db found unique node tx_hash kind_text r h) [
      | inl same ↦ inl same.1
      | inr reversed ↦ inr (reversed-Exhausts o reversed.0 r.0 db r.1 reversed.2)
    ]
