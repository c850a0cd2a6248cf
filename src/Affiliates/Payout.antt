-- ===== src/Affiliates/Payout.antt =====
-- app/affiliates.py, `owed_micro` and `verify_and_record_payout`.
pub mod Settles
use tilla.Base.{
  ℕ, suc, ◌+◌, ◌-◌, Bool, true, false, not, ◌&&◌, max, Option, none, some, List, [], ◌∷◌, ◌++◌,
  ◌==◌, leb, ltb, is_some, if◌then◌else◌, Result, ok, err, ◌>>=◌, ◌>>◌, raise_if, or_raise,
  for_each,
}
use tilla.Base.Text.{Text, text_eq, lower}
use tilla.Base.Rows.{find}
use tilla.Models.{AffiliateAccrual, AffiliatePayout, AccrualStatus, accrued, void, accrual_paid}
use tilla.Chain.{
  Log, Receipt, Transfer, decode_transfer_log, is_transfer, topic, pad_address, succeeded,
}
use tilla.Payment.{canonical_chain}
use tilla.Checkout.Verify.{VerifyError, Node, Scan, no_scan}

pub data PayoutError : Type 0 where
  nothing_owed tx_not_found tx_failed unreadable recorded no_payout_in_tx zero_payout too_much :
      PayoutError
  node_failed : VerifyError → PayoutError

-- The data of the logged event.
pub record PayoutLog : Type 0 where
  pub referrer : Text
  pub merchant_id : ℕ
  pub recorded_micro : ℕ
  pub covered_micro : ℕ

pub record Ledger : Type 0 where
  pub accruals : List AffiliateAccrual
  pub payouts : List AffiliatePayout
  pub events : List PayoutLog

unfoldable pub is_accrued : AccrualStatus → Bool
is_accrued accrued = true
is_accrued void = false
is_accrued accrual_paid = false

abbrev pub is_owed : ℕ → Text → AffiliateAccrual → Bool
is_owed merchant_id referrer a =
    (a.merchant_id == merchant_id) && (text_eq a.referrer_addr referrer && is_accrued a.status)

unfoldable pub owed_micro : ℕ → Text → List AffiliateAccrual → ℕ
owed_micro merchant_id referrer [] = 0
owed_micro merchant_id referrer (a ∷ rows) =
    (if is_owed merchant_id referrer a then a.accrued_micro else 0)
    + owed_micro merchant_id referrer rows

abbrev pub find_payout : Transfer → List AffiliatePayout → Option AffiliatePayout
find_payout d = find (λ p. text_eq p.tx_hash d.tx_hash && (p.log_index == d.log_index))

-- A decoded log that pays the referrer.
unfoldable pub take_payout : List AffiliatePayout → Scan → Option Transfer → Result PayoutError Scan
take_payout payouts s none = err unreadable
take_payout payouts s (some d) =
    if is_some (find_payout d payouts)
    then err recorded
    else ok (record {
      matched_any = true;
      new_logs = s.new_logs ++ (d ∷ []);
      total = s.total + d.value;
    })

-- The body of the loop over the receipt's logs.
unfoldable pub scan_payout : Text → List AffiliatePayout → Log → Scan → Result PayoutError Scan
scan_payout referrer payouts lg s =
    if not (is_transfer canonical_chain lg)
    then ok s
    else if not (text_eq (topic 2 lg) (lower (pad_address referrer)))
    then ok s
    else take_payout payouts s (decode_transfer_log lg)

-- The ids of the table are handed out in order.
unfoldable pub next_payout : List AffiliatePayout → ℕ
next_payout [] = 1
next_payout (p ∷ rows) = max (suc p.id) (next_payout rows)

abbrev pub payout_row : ℕ → Text → Transfer → List AffiliatePayout → AffiliatePayout
payout_row merchant_id referrer d payouts = record {
  id = next_payout payouts;
  merchant_id = merchant_id;
  referrer_addr = referrer;
  tx_hash = d.tx_hash;
  log_index = d.log_index;
  amount_micro = d.value;
  block_number = d.block_number;
}

-- UNIQUE(tx_hash, log_index).
unfoldable pub insert_payout :
    ℕ → Text → Transfer → List AffiliatePayout → Result PayoutError (List AffiliatePayout)
insert_payout merchant_id referrer d payouts =
    if is_some (find_payout d payouts)
    then err recorded
    else ok (payouts ++ (payout_row merchant_id referrer d payouts ∷ []))

-- The loop over the accruals, oldest first: each that fits into what remains is paid. The rows
-- after it, and what they cover.
unfoldable pub cover : ℕ → Text → ℕ → ℕ → List AffiliateAccrual → List AffiliateAccrual × ℕ
cover merchant_id referrer payout remaining [] = ([], 0)
cover merchant_id referrer payout remaining (a ∷ rows) =
    let pays = is_owed merchant_id referrer a && leb a.accrued_micro remaining in
    let rest =
      cover merchant_id referrer payout (if pays then remaining - a.accrued_micro else remaining)
        rows in
    if pays
    then (
      record a { status = accrual_paid; payout_id = some payout } ∷ rest.0,
      a.accrued_micro + rest.1,
    )
    else (a ∷ rest.0, rest.1)

pub record Answer : Type 0 where
  pub recorded_micro : ℕ
  pub covered_micro : ℕ
  pub owed_before_micro : ℕ
  pub owed_after_micro : ℕ

unfoldable pub cover_payout : ℕ → Text → ℕ → ℕ → ℕ → Ledger → Ledger × Answer
cover_payout merchant_id referrer payout total owed l =
    let (accruals, covered) = cover merchant_id referrer payout total l.accruals in
    (
      record l {
        accruals = accruals;
        events =
            l.events
            ++ (record {
              referrer = referrer;
              merchant_id = merchant_id;
              recorded_micro = total;
              covered_micro = covered;
            }
                ∷ []);
      },
      record {
        recorded_micro = total;
        covered_micro = covered;
        owed_before_micro = owed;
        owed_after_micro = owed - covered;
      },
    )

-- After the loop over the receipt.
unfoldable pub settle_payout : ℕ → Text → ℕ → Scan → Ledger → Result PayoutError (Ledger × Answer)
settle_payout merchant_id referrer owed s l =
    raise_if (not s.matched_any) no_payout_in_tx
    >> raise_if (s.total == 0) zero_payout
    >> raise_if (ltb owed s.total) too_much
    >> for_each (insert_payout merchant_id referrer) s.new_logs l.payouts
    >>= λ payouts. ok (
        cover_payout merchant_id referrer (next_payout l.payouts) s.total owed
          (record l { payouts = payouts }))

unfoldable pub receipt_or_fail :
    Result VerifyError (Option Receipt) → Result PayoutError (Option Receipt)
receipt_or_fail (ok r) = ok r
receipt_or_fail (err e) = err (node_failed e)

unfoldable pub verify_and_record_payout :
    Node → ℕ → Text → Text → Ledger → Result PayoutError (Ledger × Answer)
verify_and_record_payout node merchant_id referrer tx_hash l =
    raise_if (owed_micro merchant_id referrer l.accruals == 0) nothing_owed
    >> receipt_or_fail (node.receipt canonical_chain tx_hash)
    >>= λ found. or_raise found tx_not_found >>= λ r.
        raise_if (not (succeeded r)) tx_failed
        >> for_each (scan_payout referrer l.payouts) r.logs no_scan
        >>= λ s. settle_payout merchant_id referrer (owed_micro merchant_id referrer l.accruals) s l
