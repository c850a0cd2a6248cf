-- ===== src/Refunds/Laws.antt =====
-- What an accepted refund did: new transfers that add up to exactly the amount due, all of them put
-- on record, and the row of the order credited with them.
use tilla.Base.{
  ℕ, ◌+◌, ◌≡◌, refl, sym, ap, ◌∙◌, subst, true, not, ◌&&◌, Option, none, some, List, [], ◌∷◌, ◌++◌,
  map, arith, ◌==◌, Bool-cases, inl, inr, All, ◌⊎◌, ok, >>=-eq-ok, raise_if-eq-ok, or_raise-eq-ok,
  ok-injective, for_each, for_each_inv, if◌then◌else◌, Bool,
}
use mathlib.Core.Option
use tilla.Base.Text.{Text}
use tilla.Base.Keyed.{IsUnique, get-update, rowcount-key}
use tilla.Models.{Status, Order, Store, RefundKind, full, overage, Db, Env, is_in}
use tilla.Chain.{Transfer}
use tilla.Payment.{chain_for}
use tilla.Checkout.Transition.{moved_to, transition, order_id, get_order, terminal_delivered}
use tilla.Checkout.Transition.Laws.{transition-wins, get-transition, stands}
use tilla.Checkout.Verify.{Node, Scan, no_scan}
use tilla.Checkout.Verify.Laws.{value_sum}
use tilla.Refunds.{
  refundable, refund_row, scan_refund, insert_refund, take_back, set_refunded, full_refund,
  overage_row, overage_refund, settle_refund, notify, claim_refund, apply_refund, amount_due,
  parse_kind, receipt_of,
}
use tilla.Refunds.Count.{IsRefund, IsScan, scan_refund-IsScan, inserts-Inserted}

-- The row after a refund: a full refund closes the order, an overage leaves its status.
abbrev pub refunded_row : RefundKind → ℕ → Order → Order
refunded_row full total o = moved_to Status.refunded (set_refunded (o.refunded_micro + total)) o
refunded_row overage total o = set_refunded (o.refunded_micro + total) o

-- What a refund settled: the row, and no row of `refunds`.
record Settled (o : Order) (kind : RefundKind) (total : ℕ) (db db' : Db) : Type 0 where
  row : get_order o.id db'.orders ≡ some (refunded_row kind total o)
  same_refunds : db'.refunds ≡ db.refunds

pick-true {ℓ} :
    {A : Type ℓ} (t : Option A) (p : A → Bool) (f : A → A) (a : A)
    → t ≡ some a
    → p a ≡ true
    → Option.map (λ x. if p x then f x else x) t ≡ some (f a)
pick-true t p f a e h = rw e (cc h)

self_row : (o : Order) (q : Order → Bool) → q o ≡ true → ((o.id == o.id) && q o) ≡ true
self_row o q h = ground arith

full_refund-Settled :
    (env : Env) (o : Order) (total : ℕ) (db db' : Db)
    → get_order o.id db.orders ≡ some o
    → IsUnique order_id db.orders
    → full_refund env o total db ≡ ok db'
    → Settled o full total db db'
unfolding full_refund take_back transition
full_refund-Settled env o total db db' found unique h =
    let fields = set_refunded (o.refunded_micro + total) in
    let wins =
      transition-wins o.id refundable Status.refunded fields db.orders unique
      ∙ ap (stands o.id refundable Status.refunded fields) found in
    elim (Bool-cases (is_in o.status refundable)) [
      | inr out ↦ absurd (cc (rw (wins ∙ out) at h))
      | inl fits ↦
          subst (Settled o full total db) (ok-injective _ _ (rw (wins ∙ fits) at h)) (record {
            row =
                get-transition o.id refundable Status.refunded fields (λ x. refl) o.id db.orders
                ∙ pick-true (get_order o.id db.orders) _ (moved_to Status.refunded fields) o found
                    (self_row o (λ x. is_in x.status refundable) fits);
            same_refunds = refl;
          })
    ]

overage_refund-Settled :
    (o : Order) (total : ℕ) (db db' : Db)
    → get_order o.id db.orders ≡ some o
    → IsUnique order_id db.orders
    → overage_refund o total db ≡ ok db'
    → Settled o overage total db db'
unfolding overage_refund
overage_refund-Settled o total db db' found unique h =
    let q =
      λ (x : Order). is_in x.status terminal_delivered && (x.refunded_micro == o.refunded_micro) in
    let count =
      rowcount-key order_id o.id q db.orders unique
      ∙ ap (λ (m : Option Order). elim m [ none ↦ 0 | some x ↦ if q x then 1 else 0 ]) found in
    elim (Bool-cases (q o)) [
      | inr out ↦ absurd (cc (rw (count ∙ ap (λ (b : Bool). if b then 1 else 0) out) at h))
      | inl fits ↦
          subst (Settled o overage total db)
            (ok-injective _ _ (rw (count ∙ ap (λ (b : Bool). if b then 1 else 0) fits) at h))
            (record {
              row =
                  get-update order_id (overage_row o) (set_refunded (o.refunded_micro + total))
                    (λ x. refl) o.id db.orders
                  ∙ pick-true (get_order o.id db.orders) _ (set_refunded (o.refunded_micro + total))
                      o found (self_row o q fits);
              same_refunds = refl;
            })
    ]

settle_refund-Settled :
    (env : Env) (o : Order) (kind : RefundKind) (total : ℕ) (db db' : Db)
    → get_order o.id db.orders ≡ some o
    → IsUnique order_id db.orders
    → settle_refund env o kind total db ≡ ok db'
    → Settled o kind total db db'
unfolding settle_refund
settle_refund-Settled env o full total db db' found u h =
    full_refund-Settled env o total db db' found u h
settle_refund-Settled env o overage total db db' found u h =
    overage_refund-Settled o total db db' found u h

notify-Settled :
    (env : Env) (store : Store) (o : Order) (kind : RefundKind) (total : ℕ) (row : Option Order)
    (start db : Db)
    → Settled o kind total start db
    → Settled o kind total start (notify env store kind row db)
notify-Settled env store o kind total none start db t = t
notify-Settled env store o kind total (some x) start db t = record {
  row = t.row;
  same_refunds = t.same_refunds;
}

-- A refund: new transfers whose sum is exactly the amount due, each put on record and none claimed
-- before or older than the payment; and the row of the order credited with the sum.
pub record Reverses (o : Order) (kind : RefundKind) (applied : ℕ) (db db' : Db) : Type 0 where
  pub new : List Transfer
  pub each : All (IsRefund o db) new
  pub exact : value_sum new ≡ applied
  pub due : amount_due o kind ≡ ok applied
  pub recorded : db'.refunds ≡ db.refunds ++ map (refund_row o kind) new
  pub row : get_order o.id db'.orders ≡ some (refunded_row kind applied o)

-- What an accepted refund did: nothing at all, or a refund of one of the kinds.
abbrev pub Reversed : Order → Text → ℕ → Db → Db → Type 0
Reversed o kind_text applied db db' =
    ((applied ≡ 0) × (db' ≡ db))
    ⊎ ((kind : RefundKind) × (parse_kind kind_text ≡ some kind) × Reverses o kind applied db db')

module _ (env : Env) (o : Order) (store : Store) (db : Db)
    (found : get_order o.id db.orders ≡ some o) (unique : IsUnique order_id db.orders) where
  claim_refund-Reverses :
      (kind : RefundKind) (scan : Scan) (ds : List Transfer) (r : ℕ × Db)
      → scan.new_logs ≡ ds
      → IsScan o db scan
      → claim_refund env o store kind scan ds db ≡ ok r
      → ((r.0 ≡ 0) × (r.1 ≡ db)) ⊎ Reverses o kind r.0 db r.1
  unfolding claim_refund
  claim_refund-Reverses kind scan [] r e i h = elim (Bool-cases scan.matched_any) [
    | inl counted ↦
        let same : (0, db) ≡ r = ok-injective _ _ (rw counted at h) in
        inl (ap (λ (v : ℕ × Db). v.0) (sym same), ap (λ (v : ℕ × Db). v.1) (sym same))
    | inr unmatched ↦ absurd (cc (rw unmatched at h))
  ]
  claim_refund-Reverses kind scan (first ∷ others) r e i h =
      let (_, h₁) = raise_if-eq-ok (not scan.matched_any) _ _ h in
      let (due, owed, h₂) = >>=-eq-ok (amount_due o kind) _ h₁ in
      let (exact, h₃) = raise_if-eq-ok (not (scan.total == due)) _ _ h₂ in
      let (db₁, inserted, h₄) =
        >>=-eq-ok (for_each (insert_refund o kind) (first ∷ others) db) _ h₃ in
      let (db₂, settled, h₅) = >>=-eq-ok (settle_refund env o kind scan.total db₁) _ h₄ in
      let ins = inserts-Inserted o kind (first ∷ others) db db₁ inserted in
      let done = notify-Settled env store o kind scan.total (get_order o.id db₂.orders) db₁ db₂ (
        settle_refund-Settled env o kind scan.total db₁ db₂
          (subst (λ os. get_order o.id os ≡ some o) (sym ins.same_orders) found)
          (subst (IsUnique order_id) (sym ins.same_orders) unique) settled) in
      let is_due : due ≡ scan.total = ground arith in
      inr (
        subst (λ (v : ℕ × Db). Reverses o kind v.0 db v.1) (ok-injective _ _ h₅)
          (record {
            new = first ∷ others;
            each = subst (All (IsRefund o db)) e i.each;
            exact = ap value_sum (sym e) ∙ sym i.adds_up;
            due = owed ∙ ap ok is_due;
            recorded = done.same_refunds ∙ ins.appended;
            row = done.row;
          }))

  -- An accepted refund changes nothing, or its kind is known and it reverses the order: new
  -- transfers of exactly the amount due are put on record and the order is credited with them.
  -- The order is the row of its table, and ids are unique.
  pub apply_refund-Reverses :
      (node : Node) (tx_hash kind_text : Text) (r : ℕ × Db)
      → apply_refund env node o store tx_hash kind_text db ≡ ok r
      → Reversed o kind_text r.0 db r.1
  unfolding apply_refund
  apply_refund-Reverses node tx_hash kind_text r h =
      let (kind, known, h₁) = or_raise-eq-ok (parse_kind kind_text) _ _ h in
      let (_, h₂) = raise_if-eq-ok _ _ _ h₁ in
      let (cfg, _, h₃) = or_raise-eq-ok (chain_for o.network) _ _ h₂ in
      let (answer, _, h₄) = >>=-eq-ok (receipt_of (node.receipt cfg tx_hash)) _ h₃ in
      let (rec, _, h₅) = or_raise-eq-ok answer _ _ h₄ in
      let (_, h₆) = raise_if-eq-ok _ _ _ h₅ in
      let (scan, scanned, h₇) =
        >>=-eq-ok (for_each (scan_refund cfg store o db) rec.logs no_scan) _ h₆ in
      let i =
        for_each_inv (IsScan o db) (scan_refund cfg store o db) (scan_refund-IsScan cfg store o db)
          rec.logs no_scan scan (record { adds_up = refl; each = tt }) scanned in
      elim (claim_refund-Reverses kind scan scan.new_logs r refl i h₇) [
        | inl same ↦ inl same
        | inr reversed ↦ inr (kind, known, reversed)
      ]
