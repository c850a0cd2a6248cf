-- ===== src/Webhooks.antt =====
-- app/webhooks.py: the outbox row of an event, written in the transaction that it reports. Dispatch
-- sends the rows.
pub mod Dispatch
pub mod Idle
pub mod Rest
pub mod Due
pub mod Passes
pub mod Bound
use tilla.Base.{
  ℕ, suc, max, Bool, false, Option, none, some, List, [], ◌∷◌, ◌++◌, ◌&&◌, if◌then◌else◌,
}
use tilla.Base.Text.{Text, non_empty}
use tilla.Base.Keyed.{get}
use tilla.Models.{Order, Merchant, WebhookEvent, WebhookDelivery, hook_pending}

unfoldable pub configured : Option Text → Bool
configured none = false
configured (some t) = non_empty t

-- The ids of the table are handed out in order.
unfoldable pub next_delivery : List WebhookDelivery → ℕ
next_delivery [] = 1
next_delivery (d ∷ ds) = max (suc d.id) (next_delivery ds)

abbrev pub new_delivery : ℕ → ℕ → WebhookEvent → Order → List WebhookDelivery → WebhookDelivery
new_delivery now merchant_id event order outbox = record {
  id = next_delivery outbox;
  merchant_id = merchant_id;
  event = event;
  payload = order;
  status = hook_pending;
  attempts = 0;
  next_attempt_at = now;
  last_status_code = none;
  delivered_at = none;
}

-- No row unless the merchant has both a webhook URL and a secret.
unfoldable pub enqueue :
    List Merchant → ℕ → ℕ → WebhookEvent → Order → List WebhookDelivery → List WebhookDelivery
unfolding configured get next_delivery
enqueue merchants now merchant_id event order outbox =
    elim (get (λ m. m.id) merchant_id merchants) [
      | none ↦ outbox
      | some m ↦
          if configured m.webhook_url && configured m.webhook_secret
          then outbox ++ (new_delivery now merchant_id event order outbox ∷ [])
          else outbox
    ]
