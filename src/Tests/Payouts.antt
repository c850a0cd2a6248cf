-- ===== src/Tests/Payouts.antt =====
-- One payout to a referrer that covers the first of two accruals.
use tilla.Base.{ℕ, ◌*◌, ◌≡◌, refl, none, some, [], ◌∷◌, ok, for_each}
use tilla.Base.Text.{text_eq, lower, lower_char}
use tilla.Base.Rows.{find}
use tilla.Models.{AffiliateAccrual, accrued, accrual_paid}
use tilla.Chain.{
  is_transfer, topic_at, pad_address, decode_transfer_log, parse_hex, hex_value, parse_digits,
  remove_prefixes, succeeded, topic_address,
}
use tilla.Affiliates.Payout.{
  Ledger, Answer, is_accrued, owed_micro, take_payout, scan_payout, next_payout, insert_payout,
  cover, cover_payout, settle_payout, receipt_or_fail, verify_and_record_payout,
}
use tilla.Affiliates.Payout.Settles.{Settled, verify_and_record_payout-Settled}
use tilla.Tests.World

abbrev accrual : ℕ → ℕ → AffiliateAccrual
accrual order_id amount = record {
  order_id = order_id;
  store_id = 3;
  merchant_id = 4;
  referrer_addr = World.shop_address;
  basis_micro = 10 * amount;
  rate_bps = 1000;
  accrued_micro = amount;
  status = accrued;
  payout_id = none;
}

abbrev owing : Ledger
owing = record { accruals = accrual 7 600000 ∷ accrual 8 500000 ∷ []; payouts = []; events = [] }

abbrev settled : Ledger
settled = record {
  accruals =
      record (accrual 7 600000) { status = accrual_paid; payout_id = some 1 }
      ∷ accrual 8 500000
      ∷ [];
  payouts =
      record {
        id = 1;
        merchant_id = 4;
        referrer_addr = World.shop_address;
        tx_hash = World.payment_hash;
        log_index = World.payment.log_index;
        amount_micro = 1000001;
        block_number = World.payment.block_number;
      }
      ∷ [];
  events =
      record {
        referrer = World.shop_address;
        merchant_id = 4;
        recorded_micro = 1000001;
        covered_micro = 600000;
      }
      ∷ [];
}

abbrev answer : Answer
answer = record {
  recorded_micro = 1000001;
  covered_micro = 600000;
  owed_before_micro = 1100000;
  owed_after_micro = 500000;
}

accepted :
    verify_and_record_payout World.payment_node 4 World.shop_address World.payment_hash owing
    ≡ ok (settled, answer)
unfolding verify_and_record_payout owed_micro is_accrued receipt_or_fail succeeded for_each
    scan_payout take_payout find text_eq is_transfer topic_at pad_address decode_transfer_log
    parse_hex hex_value parse_digits remove_prefixes topic_address lower lower_char settle_payout
    insert_payout next_payout cover_payout cover
accepted = refl

verify_and_record_payout-Settled_example : Settled 4 World.shop_address owing settled answer
verify_and_record_payout-Settled_example =
    verify_and_record_payout-Settled World.payment_node 4 World.shop_address World.payment_hash
      owing settled answer accepted
