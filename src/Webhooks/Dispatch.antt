-- ===== src/Webhooks/Dispatch.antt =====
-- `dispatch_once` of app/webhooks.py: one pass over the outbox. What the POST answers is given.
use tilla.Base.{
  ℕ, zero, suc, ◌+◌, ◌-◌, ◌*◌, Bool, true, false, ◌&&◌, Option, none, some, List, [], ◌∷◌, ◌++◌,
  ◌==◌, leb, ltb, length, not, if◌then◌else◌,
}
use tilla.Base.Rows.{select, update, rowcount}
use tilla.Base.Keyed.{get}
use tilla.Models.{Merchant, WebhookDelivery, HookStatus, hook_pending, hook_delivered, hook_dead}
use tilla.Webhooks.{configured}

abbrev pub batch : ℕ
batch = 50

abbrev pub backoff_base : ℕ
backoff_base = 60

unfoldable pub is_pending : HookStatus → Bool
is_pending hook_pending = true
is_pending hook_delivered = false
is_pending hook_dead = false

pub record Claim : Type 0 where
  pub row_id : ℕ
  pub attempts : ℕ

abbrev pub take : {A : Type 0} → ℕ → List A → List A
take zero xs = []
take (suc n) [] = []
take (suc n) (x ∷ xs) = x ∷ take n xs

-- The batch of a pass. Ids are handed out in order, so the table stands in the order of its ids.
unfoldable pub due : ℕ → List WebhookDelivery → List WebhookDelivery
due now outbox = take batch (select (λ d. is_pending d.status && leb d.next_attempt_at now) outbox)

abbrev pub is_claimable : ℕ → WebhookDelivery → Bool
is_claimable k d = (d.id == k) && is_pending d.status

abbrev pub kill : WebhookDelivery → WebhookDelivery
kill d = record d { status = hook_dead }

abbrev pub bump : WebhookDelivery → WebhookDelivery
bump d = record d { attempts = d.attempts + 1 }

unfoldable pub reachable : Option Merchant → Bool
reachable none = false
reachable (some m) = configured m.webhook_url && configured m.webhook_secret

abbrev pub Claims : Type 0
Claims = List WebhookDelivery × List Claim

-- The body of the loop over the batch: a row whose merchant has no webhook any more is dead.
unfoldable pub claim_row : List Merchant → WebhookDelivery → Claims → Claims
claim_row merchants d s =
    if not (reachable (get (λ (m : Merchant). m.id) d.merchant_id merchants))
    then (update (is_claimable d.id) kill s.0, s.1)
    else (
      update (is_claimable d.id) bump s.0,
      if rowcount (is_claimable d.id) s.0 == 1
          then s.1 ++ (record { row_id = d.id; attempts = d.attempts + 1 } ∷ [])
          else s.1,
    )

unfoldable pub claim_rows : List Merchant → List WebhookDelivery → Claims → Claims
claim_rows merchants [] s = s
claim_rows merchants (d ∷ ds) s = claim_rows merchants ds (claim_row merchants d s)

unfoldable pub power : ℕ → ℕ → ℕ
power b zero = 1
power b (suc n) = b * power b n

-- `status_code is not None and 200 <= status_code < 300`
unfoldable pub accepted : Option ℕ → Bool
accepted none = false
accepted (some code) = leb 200 code && ltb code 300

-- The columns that a result writes.
unfoldable pub set_result : ℕ → ℕ → ℕ → Option ℕ → WebhookDelivery → WebhookDelivery
set_result max_attempts now attempts code d =
    if accepted code
    then record d { status = hook_delivered; delivered_at = some now; last_status_code = code }
    else if leb max_attempts attempts
    then record d { status = hook_dead; last_status_code = code }
    else record d {
      next_attempt_at = now + backoff_base * power 4 (attempts - 1);
      last_status_code = code;
    }

unfoldable pub record_result :
    ℕ → ℕ → Claim → Option ℕ → List WebhookDelivery → List WebhookDelivery
record_result max_attempts now c code outbox =
    update (λ d. d.id == c.row_id) (set_result max_attempts now c.attempts code) outbox

-- What comes of a POST: a status, none where `_deliver` catches the failure, or an exception that it
-- does not catch.
pub data Posted : Type 0 where
  answered : Option ℕ → Posted
  escapes : Posted

-- The rest of the loop runs only where the POST did not raise.
abbrev pub after_post :
    ℕ
    → ℕ
    → Claim
    → (List WebhookDelivery → List WebhookDelivery × Bool)
    → List WebhookDelivery
    → Posted
    → List WebhookDelivery × Bool
after_post max_attempts now c next outbox escapes = (outbox, true)
after_post max_attempts now c next outbox (answered code) =
    next (record_result max_attempts now c code outbox)

-- The outbox after the loop over the claims, and whether an exception ended it.
unfoldable pub deliver_all :
    ℕ → ℕ → (Claim → Posted) → List Claim → List WebhookDelivery → List WebhookDelivery × Bool
deliver_all max_attempts now post [] outbox = (outbox, false)
deliver_all max_attempts now post (c ∷ cs) outbox =
    after_post max_attempts now c (deliver_all max_attempts now post cs) outbox (post c)

-- What a pass leaves: the outbox, the deliveries that it claimed, which it returns unless it raises,
-- and whether it raised.
pub record Dispatched : Type 0 where
  pub outbox : List WebhookDelivery
  pub claimed : ℕ
  pub raised : Bool

unfoldable pub dispatch_once :
    ℕ → ℕ → (Claim → Posted) → List Merchant → List WebhookDelivery → Dispatched
dispatch_once max_attempts now post merchants outbox =
    let s = claim_rows merchants (due now outbox) (outbox, []) in
    let (left, raised) = deliver_all max_attempts now post s.1 s.0 in
    record { outbox = left; claimed = length s.1; raised = raised }
