-- ===== src/Tests/Hooks.antt =====
-- One event that a merchant's server refuses until it is dead, and one whose POST raises.
use tilla.Base.{◌+◌, ℕ, ◌≡◌, ◌≤◌, ◌*◌, refl, none, some, List, [], ◌∷◌, arith}
use tilla.Base.Text.{codes}
use tilla.Base.Rows.{find, select, update, rowcount}
use tilla.Base.Keyed.{get}
use tilla.Models.{hook_pending, Merchant, WebhookDelivery, order_paid, hook_dead}
use tilla.Webhooks.{enqueue, configured, next_delivery}
use tilla.Webhooks.Dispatch.{
  answered, escapes, is_pending, due, reachable, claim_row, claim_rows, power, accepted, set_result,
  record_result, deliver_all, dispatch_once,
}
use tilla.Webhooks.Bound.{Act, enqueues, dispatches, act, run, enqueued, attempts_bounded}
use tilla.Tests.World

abbrev hooked : List Merchant
hooked =
    record { id = 4; webhook_url = some (codes "https://shop"); webhook_secret = some (codes "s") }
    ∷ []

abbrev paid_event : Act
paid_event = enqueues (record {
  merchants = hooked;
  now = 1000;
  merchant_id = 4;
  event = order_paid;
  order = World.order;
})

-- A pass at a time, to a server that answers 503.
abbrev refused : ℕ → Act
refused now = dispatches (record { merchants = hooked; now = now; post = λ c. answered (some 503) })

abbrev acts : List Act
acts = paid_event ∷ refused 1000 ∷ refused 1010 ∷ refused 1060 ∷ refused 9000 ∷ []

abbrev dead_row : WebhookDelivery
dead_row = record {
  id = 1;
  merchant_id = 4;
  event = order_paid;
  payload = World.order;
  status = hook_dead;
  attempts = 2;
  next_attempt_at = 1060;
  last_status_code = some 503;
  delivered_at = none;
}

-- Two attempts are allowed: the second comes after a minute, and no third.
run-acts : run 2 acts [] ≡ record { outbox = dead_row ∷ []; claimed = 2; raised = 0 }
unfolding run act enqueue get find configured next_delivery dispatch_once due select is_pending
    reachable claim_rows claim_row update rowcount deliver_all record_result set_result accepted
    power
run-acts = refl

-- A POST that raises leaves the row due at once, and at its attempts past the limit.
abbrev raising : ℕ → Act
raising now = dispatches (record { merchants = hooked; now = now; post = λ c. escapes })

raising_acts :
    (run 2 (paid_event ∷ raising 1000 ∷ raising 1005 ∷ raising 1010 ∷ []) []).outbox
    ≡ record dead_row {
      status = hook_pending;
      attempts = 3;
      next_attempt_at = 1000;
      last_status_code = none;
    }
      ∷ []
unfolding run act enqueue get find configured next_delivery dispatch_once due select is_pending
    reachable claim_rows claim_row update rowcount deliver_all record_result set_result accepted
    power
raising_acts = refl

-- A refusal, a pass that raises, and the refusal that ends it.
abbrev mixed : List Act
mixed = paid_event ∷ refused 1000 ∷ raising 2000 ∷ refused 2010 ∷ []

attempts_bounded_example :
    (run 2 mixed []).claimed ≤ 2 * enqueued mixed + 50 * (run 2 mixed []).raised
attempts_bounded_example = attempts_bounded 2 mixed (omega arith)
