-- ===== src/Refunds/Keeps.antt =====
-- A refund keeps the invariant of the order, transfer and delivery tables.
use tilla.Base.{
  ℕ, ◌+◌, ◌≡◌, refl, sym, subst, true, false, not, Option, none, some, List, [], ◌∷◌, arith, ◌==◌,
  Bool-cases, Option-cases, inl, inr, All-intro, ok, >>=-eq-ok, raise_if-eq-ok, or_raise-eq-ok,
  ok-injective, for_each, for_each_inv,
}
use tilla.Base.Text.{Text}
use tilla.Base.Rows.{rowcount, update-All}
use tilla.Base.Keyed.{get-All}
use tilla.Base.Zip.{update-Zip}
use tilla.Models.{
  Status, Order, Store, RefundKind, full, overage, Db, Env, is_in, status_eq, underpaid, expired,
  canceled, confirmed, overpaid, late_paid, delivered, paid, refunded, ProcessedTransfer,
}
use tilla.Chain.{Transfer}
use tilla.Payment.{chain_for}
use tilla.Checkout.Machine.{
  ◌⟶*◌, one, here, refund_underpaid, refund_expired, refund_canceled, refund_confirmed,
  refund_overpaid, refund_late, refund_delivered, refund_paid,
}
use tilla.Checkout.Transition.{moved_to, transition, order_id, get_order}
use tilla.Checkout.Verify.{Node, Scan, no_scan}
use tilla.Checkout.Sound.{
  Sound, Keeps, Keeps-refl, Keeps-trans, Evolves, Evolves-refl, IsCovered, funded,
}
use tilla.Checkout.Sound.Steps.{IsFit, transition-Zip, transition-IsSound, evolve-IsSound}
use tilla.Refunds.{
  refundable, find_refund, insert_refund, take_back, set_refunded, full_refund, overage_row,
  overage_refund, settle_refund, notify, claim_refund, apply_refund, scan_refund, amount_due,
  parse_kind, receipt_of,
}

refundable-refunded : (t : Status) → is_in t refundable ≡ true → t ⟶* refunded
unfolding status_eq
refundable-refunded underpaid h = one refund_underpaid
refundable-refunded expired h = one refund_expired
refundable-refunded canceled h = one refund_canceled
refundable-refunded confirmed h = one refund_confirmed
refundable-refunded overpaid h = one refund_overpaid
refundable-refunded late_paid h = one refund_late
refundable-refunded delivered h = one refund_delivered
refundable-refunded paid h = one refund_paid
refundable-refunded _ h = absurd (ground arith)

refunded_unfunded : is_in refunded funded ≡ false
unfolding status_eq
refunded_unfunded = refl

refunded-IsFit :
    (o : Order) (amount : ℕ) (ts : List ProcessedTransfer)
    → IsCovered ts o
    → is_in o.status refundable ≡ true
    → IsFit ts o (moved_to refunded (set_refunded amount) o)
refunded-IsFit o amount ts c h = record {
  evolves = record {
    same_id = refl;
    same_channel = refl;
    same_pay_to = refl;
    same_network = refl;
    same_expected = refl;
    paid_grows = omega arith;
    path = refundable-refunded o.status h;
  };
  covers = record { credit_le = c.credit_le; enough = λ w f. absurd (cc (refunded_unfunded, f)) };
}

set_refunded-Evolves : (amount : ℕ) (x : Order) → Evolves x (set_refunded amount x)
set_refunded-Evolves amount x =
    let e = Evolves-refl x in
    record {
      same_id = refl;
      same_channel = refl;
      same_pay_to = refl;
      same_network = refl;
      same_expected = refl;
      paid_grows = e.paid_grows;
      path = here;
    }

full_refund-Keeps :
    (env : Env) (o : Order) (total : ℕ) (db db' : Db)
    → get_order o.id db.orders ≡ some o
    → Sound db
    → full_refund env o total db ≡ ok db'
    → Keeps db db'
unfolding full_refund take_back
full_refund-Keeps env o total db db' found s h =
    let fields = set_refunded (o.refunded_micro + total) in
    let fit =
      refunded-IsFit o (o.refunded_micro + total) db.transfers
        (get-All order_id (IsCovered db.transfers) o.id db.orders o found s.covered) in
    elim (Bool-cases (transition o.id refundable refunded fields db.orders).1) [
      | inr lost ↦ absurd (cc (rw lost at h))
      | inl won ↦ subst (Keeps db) (ok-injective _ _ (rw won at h)) (record {
        sound =
            transition-IsSound o.id refundable refunded fields db.orders db.transfers db.deliveries
              o found fit s;
        evolves =
            transition-Zip o.id refundable refunded fields db.orders db.transfers db.deliveries o
              found fit s;
      })
    ]

overage_refund-Keeps :
    (o : Order) (total : ℕ) (db db' : Db)
    → Sound db
    → overage_refund o total db ≡ ok db'
    → Keeps db db'
unfolding overage_refund
overage_refund-Keeps o total db db' s h =
    let new = o.refunded_micro + total in
    let zip =
      update-Zip Evolves Evolves-refl (overage_row o) (set_refunded new) db.orders
        (All-intro _ (λ x _. set_refunded-Evolves new x) db.orders) in
    elim (Bool-cases (rowcount (overage_row o) db.orders == 1)) [
      | inr lost ↦ absurd (cc (rw lost at h))
      | inl won ↦ subst (Keeps db) (ok-injective _ _ (rw won at h)) (record {
        sound =
            evolve-IsSound db.orders _ db.transfers db.deliveries zip
              (update-All (IsCovered db.transfers) (overage_row o) (set_refunded new)
                (λ x _ c. record { credit_le = c.credit_le; enough = c.enough }) db.orders
                s.covered)
              s;
        evolves = zip;
      })
    ]

settle_refund-Keeps :
    (env : Env) (o : Order) (kind : RefundKind) (total : ℕ) (db db' : Db)
    → get_order o.id db.orders ≡ some o
    → Sound db
    → settle_refund env o kind total db ≡ ok db'
    → Keeps db db'
unfolding settle_refund
settle_refund-Keeps env o full total db db' found s h =
    full_refund-Keeps env o total db db' found s h
settle_refund-Keeps env o overage total db db' found s h = overage_refund-Keeps o total db db' s h

-- The inserts into `refunds` leave the orders, the transfers and the deliveries.
record SameTables (db db' : Db) : Type 0 where
  orders : db'.orders ≡ db.orders
  kept : Sound db → Keeps db db'

insert_refund-SameTables :
    (o : Order) (kind : RefundKind) (d : Transfer) (start db db' : Db)
    → SameTables start db
    → insert_refund o kind d db ≡ ok db'
    → SameTables start db'
unfolding insert_refund
insert_refund-SameTables o kind d start db db' t h =
    elim (Option-cases (find_refund d db.refunds)) [
      | inr (r, old) ↦ absurd (cc (rw old at h))
      | inl new ↦ subst (SameTables start) (ok-injective _ _ (rw new at h)) (record {
        orders = t.orders;
        kept = λ s. let k = t.kept s in record { sound = k.sound; evolves = k.evolves };
      })
    ]

notify-Keeps :
    (env : Env) (store : Store) (kind : RefundKind) (row : Option Order) (db : Db)
    → Sound db
    → Keeps db (notify env store kind row db)
notify-Keeps env store kind none db s = Keeps-refl db s
notify-Keeps env store kind (some o) db s =
    let k = Keeps-refl db s in record { sound = k.sound; evolves = k.evolves }

module _ (env : Env) (o : Order) (store : Store) (db : Db)
    (found : get_order o.id db.orders ≡ some o) (s : Sound db) where
  claim_refund-Keeps :
      (kind : RefundKind) (scan : Scan) (ds : List Transfer) (r : ℕ × Db)
      → claim_refund env o store kind scan ds db ≡ ok r
      → Keeps db r.1
  unfolding claim_refund
  claim_refund-Keeps kind scan [] r h = elim (Bool-cases scan.matched_any) [
    | inl counted ↦
        subst (λ (v : ℕ × Db). Keeps db v.1) (ok-injective _ _ (rw counted at h)) (Keeps-refl db s)
    | inr unmatched ↦ absurd (cc (rw unmatched at h))
  ]
  claim_refund-Keeps kind scan (first ∷ others) r h =
      let (_, h₁) = raise_if-eq-ok (not scan.matched_any) _ _ h in
      let (due, _, h₂) = >>=-eq-ok (amount_due o kind) _ h₁ in
      let (_, h₃) = raise_if-eq-ok (not (scan.total == due)) _ _ h₂ in
      let (db₁, inserted, h₄) =
        >>=-eq-ok (for_each (insert_refund o kind) (first ∷ others) db) _ h₃ in
      let (db₂, settled, h₅) = >>=-eq-ok (settle_refund env o kind scan.total db₁) _ h₄ in
      let same =
        for_each_inv (SameTables db) (insert_refund o kind)
          (λ d a b t e. insert_refund-SameTables o kind d db a b t e) (first ∷ others) db db₁
          (record { orders = refl; kept = Keeps-refl db }) inserted in
      let first_kept = same.kept s in
      let kept =
        settle_refund-Keeps env o kind scan.total db₁ db₂
          (subst (λ os. get_order o.id os ≡ some o) (sym same.orders) found) first_kept.sound
          settled in
      subst (λ (v : ℕ × Db). Keeps db v.1) (ok-injective _ _ h₅)
        (Keeps-trans db db₂ _ (Keeps-trans db db₁ db₂ first_kept kept)
          (notify-Keeps env store kind (get_order o.id db₂.orders) db₂ kept.sound))

  -- An accepted refund keeps the invariant of the tables, if the order is the row of its table.
  pub apply_refund-Keeps :
      (node : Node) (tx_hash kind_text : Text) (r : ℕ × Db)
      → apply_refund env node o store tx_hash kind_text db ≡ ok r
      → Keeps db r.1
  unfolding apply_refund
  apply_refund-Keeps node tx_hash kind_text r h =
      let (kind, _, h₁) = or_raise-eq-ok (parse_kind kind_text) _ _ h in
      let (_, h₂) = raise_if-eq-ok _ _ _ h₁ in
      let (cfg, _, h₃) = or_raise-eq-ok (chain_for o.network) _ _ h₂ in
      let (answer, _, h₄) = >>=-eq-ok (receipt_of (node.receipt cfg tx_hash)) _ h₃ in
      let (rec, _, h₅) = or_raise-eq-ok answer _ _ h₄ in
      let (_, h₆) = raise_if-eq-ok _ _ _ h₅ in
      let (scan, _, h₇) = >>=-eq-ok (for_each (scan_refund cfg store o db) rec.logs no_scan) _ h₆ in
      claim_refund-Keeps kind scan scan.new_logs r h₇
