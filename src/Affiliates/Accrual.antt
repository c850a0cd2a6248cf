-- ===== src/Affiliates/Accrual.antt =====
-- app/affiliates.py, `accrue` and `void_accrual`.
pub mod Laws
use tilla.Base.{
  ℕ, ◌*◌, ◌/◌, Bool, true, false, Option, none, some, List, [], ◌∷◌, ◌++◌, ◌&&◌, ◌||◌, ◌==◌,
  is_some, if◌then◌else◌,
}
use tilla.Base.Text.{Text, lower, text_eq}
use tilla.Base.Rows.{find, update}
use tilla.Models.{
  Order, Store, AffiliateAccrual, AccrualStatus, accrued, void, accrual_paid, EventLog,
  affiliate_accrued, affiliate_self_referral_rejected, affiliate_voided, log_event,
}

-- `(text or "").lower()`
abbrev lower_or_empty : Option Text → Text
lower_or_empty none = lower []
lower_or_empty (some t) = lower t

-- The wallet named as referrer is the buyer's or the store's own.
unfoldable pub is_self_referral : Order → Store → Text → Bool
is_self_referral order store referrer =
    text_eq referrer (lower_or_empty order.from_addr) || text_eq referrer (lower store.pay_to)

unfoldable pub accrued_micro : ℕ → Order → ℕ
accrued_micro bps order = order.expected_micro * bps / 10_000

abbrev new_accrual : ℕ → Order → Store → Text → AffiliateAccrual
new_accrual bps order store referrer = record {
  order_id = order.id;
  store_id = store.id;
  merchant_id = store.merchant_id;
  referrer_addr = referrer;
  basis_micro = order.expected_micro;
  rate_bps = bps;
  accrued_micro = accrued_micro bps order;
  status = accrued;
  payout_id = none;
}

abbrev has_accrual : ℕ → List AffiliateAccrual → Bool
has_accrual order_id rows = is_some (find (λ r. r.order_id == order_id) rows)

-- The accruals and the log after `accrue`; UNIQUE(order_id) makes a second row a no-op.
accrue_for :
    ℕ
    → Order
    → Store
    → Text
    → List AffiliateAccrual
    → List EventLog
    → List AffiliateAccrual × List EventLog
unfolding is_self_referral accrued_micro
accrue_for bps order store referrer rows events =
    if is_self_referral order store referrer
    then (rows, log_event affiliate_self_referral_rejected order events)
    else if accrued_micro bps order == 0
    then (rows, events)
    else if has_accrual order.id rows
    then (rows, events)
    else (
      rows ++ (new_accrual bps order store referrer ∷ []),
      log_event affiliate_accrued order events,
    )

-- `if not referrer: return None`
accrue_ref :
    ℕ
    → Order
    → Store
    → Option Text
    → List AffiliateAccrual
    → List EventLog
    → List AffiliateAccrual × List EventLog
unfolding accrue_for
accrue_ref bps order store none rows events = (rows, events)
accrue_ref bps order store (some []) rows events = (rows, events)
accrue_ref bps order store (some (c ∷ cs)) rows events =
    accrue_for bps order store (c ∷ cs) rows events

unfoldable pub accrue :
    ℕ
    → Order
    → Store
    → List AffiliateAccrual
    → List EventLog
    → List AffiliateAccrual × List EventLog
unfolding accrue_ref
accrue bps order store rows events = accrue_ref bps order store order.referrer_addr rows events

is_accrued : AccrualStatus → Bool
is_accrued accrued = true
is_accrued void = false
is_accrued accrual_paid = false

-- The row that `void_accrual` selects.
owes : ℕ → AffiliateAccrual → Bool
unfolding is_accrued
owes order_id r = (r.order_id == order_id) && is_accrued r.status

-- A 'paid' accrual stays: that money has left the operator's wallet.
unfoldable pub void_accrual :
    Order → List AffiliateAccrual → List EventLog → List AffiliateAccrual × List EventLog
unfolding owes
void_accrual order rows events = elim (find (owes order.id) rows) [
  | none ↦ (rows, events)
  | some r ↦ (
    update (owes order.id) (λ r. record r { status = void }) rows,
    log_event affiliate_voided order events,
  )
]
