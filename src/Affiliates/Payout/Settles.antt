-- ===== src/Affiliates/Payout/Settles.antt =====
-- What a payout of app/affiliates.py records and covers.
use tilla.Base.{
  ℕ, ◌+◌, ◌-◌, ◌≤◌, ◌<◌, ◌≡◌, refl, ap, subst, not, Option, some, none, List, [], ◌∷◌, ◌++◌, arith,
  ◌==◌, ltb, Bool-cases, Option-cases, inl, inr, ok, ok-injective, >>=-eq-ok, raise_if-eq-ok,
  or_raise-eq-ok, for_each, for_each_inv,
}
use tilla.Base.Text.{Text, lower, text_eq}
use tilla.Models.{AffiliateAccrual, AffiliatePayout}
use tilla.Chain.{Log, Transfer, is_transfer, topic, pad_address, decode_transfer_log, succeeded}
use tilla.Payment.{canonical_chain}
use tilla.Checkout.Verify.{Node, Scan, no_scan}
use tilla.Checkout.Verify.Laws.{value_sum, value_sum-append}
use tilla.Affiliates.Payout.{
  Ledger, Answer, is_accrued, owed_micro, find_payout, take_payout, scan_payout, next_payout,
  payout_row, insert_payout, cover, cover_payout, settle_payout, receipt_or_fail,
  verify_and_record_payout,
}

-- All that is on record as paid out.
unfoldable pub paid_out : List AffiliatePayout → ℕ
paid_out [] = 0
paid_out (p ∷ rows) = p.amount_micro + paid_out rows

paid_out-append_one :
    (rows : List AffiliatePayout) (p : AffiliatePayout)
    → paid_out (rows ++ (p ∷ [])) ≡ paid_out rows + p.amount_micro
unfolding paid_out
paid_out-append_one [] p = omega arith
paid_out-append_one (x ∷ rows) p = omega (arith, paid_out-append_one rows p)

inserts_add :
    (m : ℕ) (r : Text) (ds : List Transfer) (rows rows' : List AffiliatePayout)
    → for_each (insert_payout m r) ds rows ≡ ok rows'
    → paid_out rows' ≡ paid_out rows + value_sum ds
unfolding for_each insert_payout
inserts_add m r [] rows rows' h = omega (arith, ap paid_out (ok-injective _ _ h))
inserts_add m r (d ∷ ds) rows rows' h = elim (Option-cases (find_payout d rows)) [
  | inr (x, old) ↦ absurd (cc (rw old at h))
  | inl new ↦ omega (
    arith,
    inserts_add m r ds _ rows' (rw new at h),
    paid_out-append_one rows (payout_row m r d rows),
  )
]

take_payout-adds :
    (rows : List AffiliatePayout) (s s' : Scan) (d : Option Transfer)
    → s.total ≡ value_sum s.new_logs
    → take_payout rows s d ≡ ok s'
    → s'.total ≡ value_sum s'.new_logs
unfolding take_payout
take_payout-adds rows s s' none i h = absurd (cc h)
take_payout-adds rows s s' (some d) i h = elim (Option-cases (find_payout d rows)) [
  | inr (x, old) ↦ absurd (cc (rw old at h))
  | inl new ↦
      subst (λ (v : Scan). v.total ≡ value_sum v.new_logs) (ok-injective _ _ (rw new at h))
        (omega (arith, i, value_sum-append s.new_logs (d ∷ [])))
]

scan_payout-adds :
    (r : Text) (rows : List AffiliatePayout) (lg : Log) (s s' : Scan)
    → s.total ≡ value_sum s.new_logs
    → scan_payout r rows lg s ≡ ok s'
    → s'.total ≡ value_sum s'.new_logs
unfolding scan_payout
scan_payout-adds r rows lg s s' i h = elim (Bool-cases (is_transfer canonical_chain lg)) [
  | inr other ↦
      subst (λ (v : Scan). v.total ≡ value_sum v.new_logs) (ok-injective _ _ (rw other at h)) i
  | inl moves ↦ elim (Bool-cases (text_eq (topic 2 lg) (lower (pad_address r)))) [
    | inr elsewhere ↦
        subst (λ (v : Scan). v.total ≡ value_sum v.new_logs)
          (ok-injective _ _ (rw (moves, elsewhere) at h)) i
    | inl here ↦ take_payout-adds rows s s' (decode_transfer_log lg) i (rw (moves, here) at h)
  ]
]

cover_exact :
    (m : ℕ) (r : Text) (payout remaining : ℕ) (rows : List AffiliateAccrual)
    → owed_micro m r (cover m r payout remaining rows).0 + (cover m r payout remaining rows).1
      ≡ owed_micro m r rows
unfolding owed_micro cover is_accrued
cover_exact m r payout remaining [] = refl
cover_exact m r payout remaining (a ∷ rows) = ground (
  arith,
  cover_exact m r payout (remaining - a.accrued_micro) rows,
  cover_exact m r payout remaining rows,
)

cover_within :
    (m : ℕ) (r : Text) (payout remaining : ℕ) (rows : List AffiliateAccrual)
    → (cover m r payout remaining rows).1 ≤ remaining
unfolding cover
cover_within m r payout remaining [] = omega arith
cover_within m r payout remaining (a ∷ rows) = ground (
  arith,
  cover_within m r payout (remaining - a.accrued_micro) rows,
  cover_within m r payout remaining rows,
)

-- What a payout leaves behind it.
pub record Settled (m : ℕ) (r : Text) (l l' : Ledger) (a : Answer) : Type 0 where
  pub something : 0 < a.recorded_micro
  pub capped : a.recorded_micro ≤ owed_micro m r l.accruals
  pub on_record : paid_out l'.payouts ≡ paid_out l.payouts + a.recorded_micro
  pub covers : a.covered_micro ≤ a.recorded_micro
  pub before : a.owed_before_micro ≡ owed_micro m r l.accruals
  pub after : a.owed_after_micro ≡ owed_micro m r l'.accruals
  pub balance : owed_micro m r l'.accruals + a.covered_micro ≡ owed_micro m r l.accruals

cover_payout-Settled :
    (m : ℕ) (r : Text) (payout total : ℕ) (l : Ledger) (rows : List AffiliatePayout)
    → 0 < total
    → total ≤ owed_micro m r l.accruals
    → paid_out rows ≡ paid_out l.payouts + total
    → Settled m r l
        (cover_payout m r payout total (owed_micro m r l.accruals) (record l { payouts = rows })).0
        (cover_payout m r payout total (owed_micro m r l.accruals) (record l { payouts = rows })).1
unfolding cover_payout
cover_payout-Settled m r payout total l rows some_total within adds =
    let exact = cover_exact m r payout total l.accruals in
    record {
      something = some_total;
      capped = within;
      on_record = adds;
      covers = cover_within m r payout total l.accruals;
      before = refl;
      after = omega (arith, exact);
      balance = exact;
    }

settle_payout-Settled :
    (m : ℕ) (r : Text) (s : Scan) (l l' : Ledger) (a : Answer)
    → s.total ≡ value_sum s.new_logs
    → settle_payout m r (owed_micro m r l.accruals) s l ≡ ok (l', a)
    → Settled m r l l' a
unfolding settle_payout
settle_payout-Settled m r s l l' a adds h =
    let (_, h₁) = raise_if-eq-ok (not s.matched_any) _ _ h in
    let (nonzero, h₂) = raise_if-eq-ok (s.total == 0) _ _ h₁ in
    let (within, h₃) = raise_if-eq-ok (ltb (owed_micro m r l.accruals) s.total) _ _ h₂ in
    let (rows, written, h₄) = >>=-eq-ok (for_each (insert_payout m r) s.new_logs l.payouts) _ h₃ in
    subst (λ (v : Ledger × Answer). Settled m r l v.0 v.1) (ok-injective _ _ h₄)
      (cover_payout-Settled m r (next_payout l.payouts) s.total l rows (ground arith) (ground arith)
        (omega (arith, inserts_add m r s.new_logs l.payouts rows written, adds)))

-- An accepted payout records a positive sum of transfers, at most what was owed; it covers accruals
-- of at most that sum; and the balance it answers is what the ledger then owes, less by what it
-- covered.
pub verify_and_record_payout-Settled :
    (node : Node) (merchant_id : ℕ) (referrer tx_hash : Text) (l l' : Ledger) (a : Answer)
    → verify_and_record_payout node merchant_id referrer tx_hash l ≡ ok (l', a)
    → Settled merchant_id referrer l l' a
unfolding verify_and_record_payout
verify_and_record_payout-Settled node m r tx_hash l l' a h =
    let (_, h₁) = raise_if-eq-ok (owed_micro m r l.accruals == 0) _ _ h in
    let (found, _, h₂) = >>=-eq-ok (receipt_or_fail (node.receipt canonical_chain tx_hash)) _ h₁ in
    let (receipt, _, h₃) = or_raise-eq-ok found _ _ h₂ in
    let (_, h₄) = raise_if-eq-ok (not (succeeded receipt)) _ _ h₃ in
    let (s, scanned, h₅) =
      >>=-eq-ok (for_each (scan_payout r l.payouts) receipt.logs no_scan) _ h₄ in
    settle_payout-Settled m r s l l' a
      (for_each_inv (λ (v : Scan). v.total ≡ value_sum v.new_logs) (scan_payout r l.payouts)
        (λ lg v v' i e. scan_payout-adds r l.payouts lg v v' i e) receipt.logs no_scan s refl
        scanned)
      h₅
