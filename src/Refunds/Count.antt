-- ===== src/Refunds/Count.antt =====
-- The loop of `apply_refund` over the receipt, and its inserts: what they count and write.
use tilla.Base.{
  ◌≡◌, refl, sym, ◌∙◌, subst, false, Option, none, some, List, [], ◌∷◌, ◌++◌, map, arith, ◌==◌,
  Bool-cases, Option-cases, inl, inr, All, All-append, ok, ok-injective, for_each,
}
use mathlib.Core.List.{append-nil, append_assoc}
use tilla.Models.{Order, Store, Refund, RefundKind, Db}
use tilla.Chain.{Log, Transfer, ChainConfig, decode_transfer_log}
use tilla.Checkout.Verify.{Scan, below_floor}
use tilla.Checkout.Verify.Laws.{value_sum, value_sum-append}
use tilla.Refunds.{
  find_refund, refund_row, count_refund, take_refund, scan_refund, pays_back, insert_refund,
}

-- A transfer that the loop counts: not claimed before, not older than the payment.
pub record IsRefund (o : Order) (db : Db) (d : Transfer) : Type 0 where
  pub unclaimed : find_refund d db.refunds ≡ none
  pub after_payment : below_floor o.block_number d.block_number ≡ false

pub record IsScan (o : Order) (db : Db) (s : Scan) : Type 0 where
  pub adds_up : s.total ≡ value_sum s.new_logs
  pub each : All (IsRefund o db) s.new_logs

count_refund-IsScan :
    (o : Order) (db : Db) (s s' : Scan) (d : Transfer) (r : Option Refund)
    → find_refund d db.refunds ≡ r
    → below_floor o.block_number d.block_number ≡ false
    → IsScan o db s
    → count_refund o s d r ≡ ok s'
    → IsScan o db s'
unfolding count_refund
count_refund-IsScan o db s s' d (some r) found floor i h = elim (Bool-cases (r.order_id == o.id)) [
  | inl mine ↦
      subst (IsScan o db) (ok-injective _ _ (rw mine at h))
        (record { adds_up = i.adds_up; each = i.each })
  | inr other ↦ absurd (ground arith)
]
count_refund-IsScan o db s s' d none found floor i h =
    subst (IsScan o db) (ok-injective _ _ h) (record {
      adds_up = omega (arith, i.adds_up, value_sum-append s.new_logs (d ∷ []));
      each =
          All-append (IsRefund o db) s.new_logs (d ∷ []) i.each
            (record { unclaimed = found; after_payment = floor }, tt);
    })

take_refund-IsScan :
    (o : Order) (db : Db) (s s' : Scan) (d : Option Transfer)
    → IsScan o db s
    → take_refund o db s d ≡ ok s'
    → IsScan o db s'
unfolding take_refund
take_refund-IsScan o db s s' none i h = absurd (ground arith)
take_refund-IsScan o db s s' (some d) i h =
    elim (Bool-cases (below_floor o.block_number d.block_number)) [
      | inl below ↦ absurd (ground arith)
      | inr floor ↦
          count_refund-IsScan o db s s' d (find_refund d db.refunds) refl floor i (rw floor at h)
    ]

pub scan_refund-IsScan :
    (cfg : ChainConfig) (store : Store) (o : Order) (db : Db) (lg : Log) (s s' : Scan)
    → IsScan o db s
    → scan_refund cfg store o db lg s ≡ ok s'
    → IsScan o db s'
unfolding scan_refund
scan_refund-IsScan cfg store o db lg s s' i h = elim (Bool-cases (pays_back cfg store o lg)) [
  | inr other ↦ subst (IsScan o db) (ok-injective _ _ (rw other at h)) i
  | inl back ↦ take_refund-IsScan o db s s' (decode_transfer_log lg) i (rw back at h)
]

pub record Inserted (o : Order) (kind : RefundKind) (ds : List Transfer) (db db' : Db)
    : Type 0 where
  pub same_orders : db'.orders ≡ db.orders
  pub appended : db'.refunds ≡ db.refunds ++ map (refund_row o kind) ds

pub inserts-Inserted :
    (o : Order) (kind : RefundKind) (ds : List Transfer) (db db' : Db)
    → for_each (insert_refund o kind) ds db ≡ ok db'
    → Inserted o kind ds db db'
unfolding for_each insert_refund
inserts-Inserted o kind [] db db' h =
    subst (Inserted o kind [] db) (ok-injective db db' h)
      (record { same_orders = refl; appended = sym (append-nil db.refunds) })
inserts-Inserted o kind (d ∷ ds) db db' h = elim (Option-cases (find_refund d db.refunds)) [
  | inr (r, old) ↦ absurd (cc (rw old at h))
  | inl new ↦
      let i = inserts-Inserted o kind ds _ db' (rw new at h) in
      record {
        same_orders = i.same_orders;
        appended =
            i.appended
            ∙ append_assoc db.refunds (refund_row o kind d ∷ []) (map (refund_row o kind) ds);
      }
]
