-- ===== src/Models.antt =====
-- The tables of app/models.py that orders, payments and delivery read and write. A record holds the
-- columns that this code uses. Times are naive UTC seconds, amounts micro-USDT; order ids (uuid
-- hex) are only compared and stand as numbers, addresses and hashes are texts.
use tilla.Base.{ℕ, Bool, true, false, Option, some, List, [], ◌∷◌, ◌++◌, ◌==◌, any}
use tilla.Base.Text.{Text}

pub data Status : Type 0 where
  pending detected underpaid confirmed overpaid late_paid delivered paid refunded expired canceled
        reorged settling :
      Status

status_code : Status → ℕ
status_code pending = 0
status_code detected = 1
status_code underpaid = 2
status_code confirmed = 3
status_code overpaid = 4
status_code late_paid = 5
status_code delivered = 6
status_code paid = 7
status_code refunded = 8
status_code expired = 9
status_code canceled = 10
status_code reorged = 11
status_code settling = 12

-- `status == other`
unfoldable pub status_eq : Status → Status → Bool
unfolding status_code
status_eq s t = status_code s == status_code t

-- `status in states`
abbrev pub is_in : Status → List Status → Bool
is_in s = any (status_eq s)

pub data Channel : Type 0 where
  web agent : Channel

unfoldable pub is_web : Channel → Bool
is_web web = true
is_web agent = false

pub data EvalStatus : Type 0 where
  eval_none eval_pending eval_confirmed eval_rejected : EvalStatus

pub data AttestStatus : Type 0 where
  attest_none attest_pending attest_sending attest_sent attested attest_failed : AttestStatus

pub record Order : Type 0 where
  pub id : ℕ
  pub store_id : ℕ
  pub product_id : Option ℕ
  pub pay_to : Text
  pub network : Text
  pub amount_micro : ℕ
  pub expected_micro : ℕ
  pub paid_micro : ℕ
  pub overpaid_micro : ℕ
  pub refunded_micro : ℕ
  pub status : Status
  pub channel : Channel
  pub tx_hash : Option Text
  pub settle_ref : Option Text
  pub from_addr : Option Text
  pub referrer_addr : Option Text
  pub block_number : Option ℕ
  pub created_block : Option ℕ
  pub expires_at : Option ℕ
  pub buyer_inputs : Option (List (Text × Text))
  pub created_at : ℕ
  pub paid_at : Option ℕ
  pub eval_status : EvalStatus
  pub attest_status : AttestStatus

pub data Kind : Type 0 where
  file text license : Kind

pub record Delivery : Type 0 where
  pub order_id : ℕ
  pub kind : Kind
  pub payload : Text

pub record Deliverable : Type 0 where
  pub id : ℕ
  pub store_id : ℕ
  pub product_id : Option ℕ
  pub kind : Kind
  pub payload : Option Text
  pub active : Bool

pub record Entitlement : Type 0 where
  pub id : ℕ
  pub order_id : ℕ
  pub deliverable_id : ℕ
  pub buyer_addr : Option Text
  pub download_count : ℕ
  pub activations_used : ℕ
  pub license_key : Option Text
  pub revoked_at : Option ℕ

pub record ProcessedTransfer : Type 0 where
  pub tx_hash : Text
  pub log_index : ℕ
  pub order_id : ℕ
  pub pay_to : Text
  pub from_addr : Text
  pub amount_micro : ℕ
  pub block_number : ℕ

pub data RefundKind : Type 0 where
  full overage : RefundKind

pub record Refund : Type 0 where
  pub order_id : ℕ
  pub kind : RefundKind
  pub tx_hash : Text
  pub log_index : ℕ
  pub amount_micro : ℕ
  pub block_number : ℕ

pub data Visibility : Type 0 where
  public hidden : Visibility

pub data StoreStatus : Type 0 where
  live pending_screening blocked : StoreStatus

pub record Store : Type 0 where
  pub id : ℕ
  pub slug : Text
  pub merchant_id : ℕ
  pub status : StoreStatus
  pub pay_to : Text
  pub visibility : Visibility
  pub delivery : Option Text

pub record Merchant : Type 0 where
  pub id : ℕ
  pub webhook_url : Option Text
  pub webhook_secret : Option Text

pub data WebhookEvent : Type 0 where
  order_paid order_delivered order_refunded order_overage_refunded order_voided : WebhookEvent

pub data HookStatus : Type 0 where
  hook_pending hook_delivered hook_dead : HookStatus

-- The payload is the order as it stood when the event was queued.
pub record WebhookDelivery : Type 0 where
  pub id : ℕ
  pub merchant_id : ℕ
  pub event : WebhookEvent
  pub payload : Order
  pub status : HookStatus
  pub attempts : ℕ
  pub next_attempt_at : ℕ
  pub last_status_code : Option ℕ
  pub delivered_at : Option ℕ

pub data AccrualStatus : Type 0 where
  accrued void accrual_paid : AccrualStatus

pub record AffiliateAccrual : Type 0 where
  pub order_id : ℕ
  pub store_id : ℕ
  pub merchant_id : ℕ
  pub referrer_addr : Text
  pub basis_micro : ℕ
  pub rate_bps : ℕ
  pub accrued_micro : ℕ
  pub status : AccrualStatus
  pub payout_id : Option ℕ

pub record AffiliatePayout : Type 0 where
  pub id : ℕ
  pub merchant_id : ℕ
  pub referrer_addr : Text
  pub tx_hash : Text
  pub log_index : ℕ
  pub amount_micro : ℕ
  pub block_number : ℕ

pub record ChainCursor : Type 0 where
  pub id : ℕ
  pub last_block : ℕ

-- The names that `log_event` writes. The columns `source` and `data` are left out.
pub data Event : Type 0 where
  order_late_paid order_underpaid order_detected order_confirmed order_delivered order_reorged
        order_expired order_released order_refunded order_overage_refunded transfer_unmatched
        entitlement_revoked affiliate_accrued affiliate_self_referral_rejected affiliate_voided :
      Event

pub record EventLog : Type 0 where
  pub event : Event
  pub store_id : Option ℕ
  pub order_id : Option ℕ

pub record Db : Type 0 where
  pub orders : List Order
  pub transfers : List ProcessedTransfer
  pub refunds : List Refund
  pub deliverables : List Deliverable
  pub deliveries : List Delivery
  pub entitlements : List Entitlement
  pub stores : List Store
  pub merchants : List Merchant
  pub outbox : List WebhookDelivery
  pub accruals : List AffiliateAccrual
  pub events : List EventLog

-- `log_event(session, …, store_id=order.store_id, order_id=order.id)`
abbrev pub log_event : Event → Order → List EventLog → List EventLog
log_event e o es =
    es ++ (record { event = e; store_id = some o.store_id; order_id = some o.id } ∷ [])

-- The settings of app/config.py that the environment can change, and the clock and the random key
-- of one call: `now` is every `_now()` of the call, `license_key` its `mint_license_key()`.
pub record Env : Type 0 where
  pub now : ℕ
  pub license_key : Text
  pub confirmations : ℕ
  pub quarantine : ℕ
  pub order_ttl : ℕ
  pub attest_enabled : Bool
  pub affiliate_bps : ℕ
