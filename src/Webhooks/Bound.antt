-- ===== src/Webhooks/Bound.antt =====
-- Events and passes of app/webhooks.py in any order, with the deliveries that are attempted.
use tilla.Base.{
  ℕ, ◌+◌, ◌*◌, ◌≤◌, ◌<◌, ◌≡◌, refl, sym, ap, subst, Bool, true, false, ◌&&◌, List, [], ◌∷◌, ◌++◌,
  arith, if◌then◌else◌, Option-cases, ◌⊎◌, Bool-cases, inl, inr, All, All-mono, Pairs-append_one,
}
use tilla.Base.Keyed.{get, IsUnique}
use tilla.Models.{Merchant, Order, WebhookEvent, WebhookDelivery}
use tilla.Webhooks.{enqueue, next_delivery, new_delivery, configured}
use tilla.Webhooks.Dispatch.{Claim, Posted, Dispatched, batch, dispatch_once}
use tilla.Webhooks.Idle.{hook_id, left, all_left}
use tilla.Webhooks.Passes.{loss, dispatch_once-IsUnique, dispatch_once_spends}

new_id : (outbox : List WebhookDelivery) → All (λ d. hook_id d < next_delivery outbox) outbox
unfolding next_delivery
new_id [] = tt
new_id (d ∷ ds) = (ground arith, All-mono _ _ (λ x h. ground (arith, h)) ds (new_id ds))

all_left-append_one :
    (n : ℕ) (ds : List WebhookDelivery) (d : WebhookDelivery)
    → all_left n [] (ds ++ (d ∷ [])) ≡ all_left n [] ds + left n [] d
unfolding all_left
all_left-append_one n [] d = omega arith
all_left-append_one n (x ∷ ds) d = omega (arith, all_left-append_one n ds d)

pub record Event : Type 0 where
  pub merchants : List Merchant
  pub now : ℕ
  pub merchant_id : ℕ
  pub event : WebhookEvent
  pub order : Order

pub record Pass : Type 0 where
  pub merchants : List Merchant
  pub now : ℕ
  pub post : Claim → Posted

-- What the program does to the outbox.
pub data Act : Type 0 where
  enqueues : Event → Act
  dispatches : Pass → Act

-- The outbox, the deliveries claimed on the way to it, and the passes that raised.
pub record Ran : Type 0 where
  pub outbox : List WebhookDelivery
  pub claimed : ℕ
  pub raised : ℕ

unfoldable pub act : ℕ → Act → List WebhookDelivery → Dispatched
act n (enqueues e) outbox = record {
  outbox = enqueue e.merchants e.now e.merchant_id e.event e.order outbox;
  claimed = 0;
  raised = false;
}
act n (dispatches p) outbox = dispatch_once n p.now p.post p.merchants outbox

-- `webhook_loop` goes on after a pass that raised.
unfoldable pub run : ℕ → List Act → List WebhookDelivery → Ran
run n [] outbox = record { outbox = outbox; claimed = 0; raised = 0 }
run n (a ∷ acts) outbox =
    let here = act n a outbox in
    let rest = run n acts here.outbox in
    record {
      outbox = rest.outbox;
      claimed = here.claimed + rest.claimed;
      raised = (if here.raised then 1 else 0) + rest.raised;
    }

-- The events that are enqueued.
unfoldable pub enqueued : List Act → ℕ
enqueued [] = 0
enqueued (enqueues _ ∷ acts) = 1 + enqueued acts
enqueued (dispatches _ ∷ acts) = enqueued acts

fresh_row-IsUnique :
    (outbox : List WebhookDelivery) (d : WebhookDelivery)
    → d.id ≡ next_delivery outbox
    → IsUnique hook_id outbox
    → IsUnique hook_id (outbox ++ (d ∷ []))
fresh_row-IsUnique outbox d at u =
    Pairs-append_one _ outbox d u
      (All-mono _ _ (λ x h e. ground (arith, h, e, at)) outbox (new_id outbox))

-- What an event adds to the outbox.
record Added (outbox after : List WebhookDelivery) : Type 0 where
  row : WebhookDelivery
  numbered : row.id ≡ next_delivery outbox
  untried : row.attempts ≡ 0
  appended : after ≡ outbox ++ (row ∷ [])

enqueue-cases :
    (e : Event) (outbox : List WebhookDelivery)
    → (enqueue e.merchants e.now e.merchant_id e.event e.order outbox ≡ outbox)
      ⊎ Added outbox (enqueue e.merchants e.now e.merchant_id e.event e.order outbox)
unfolding enqueue
enqueue-cases e outbox =
    elim (Option-cases (get (λ (m : Merchant). m.id) e.merchant_id e.merchants)) [
      | inl off ↦ inl (rw (enqueue, off) refl)
      | inr (m, there) ↦
          elim (Bool-cases (configured m.webhook_url && configured m.webhook_secret)) [
            | inl on ↦ inr (record {
              row = new_delivery e.now e.merchant_id e.event e.order outbox;
              numbered = refl;
              untried = refl;
              appended = rw (enqueue, there, on) refl;
            })
            | inr off ↦ inl (rw (enqueue, there, off) refl)
          ]
    ]

enqueue-IsUnique :
    (e : Event) (outbox : List WebhookDelivery)
    → IsUnique hook_id outbox
    → IsUnique hook_id (enqueue e.merchants e.now e.merchant_id e.event e.order outbox)
enqueue-IsUnique e outbox u = elim (enqueue-cases e outbox) [
  | inl same ↦ subst (IsUnique hook_id) (sym same) u
  | inr a ↦ subst (IsUnique hook_id) (sym a.appended) (fresh_row-IsUnique outbox a.row a.numbered u)
]

new_left : (n : ℕ) (d : WebhookDelivery) → 1 ≤ n → left n [] d ≤ n
unfolding left
new_left n d some_try = ground arith

enqueue_adds :
    (n : ℕ) (e : Event) (outbox : List WebhookDelivery)
    → 1 ≤ n
    → all_left n [] (enqueue e.merchants e.now e.merchant_id e.event e.order outbox)
      ≤ all_left n [] outbox + n
enqueue_adds n e outbox some_try = elim (enqueue-cases e outbox) [
  | inl same ↦ omega (arith, ap (all_left n []) same)
  | inr a ↦ omega (
    arith,
    ap (all_left n []) a.appended,
    all_left-append_one n outbox a.row,
    new_left n a.row some_try,
  )
]

loss-batch : (b : Bool) → loss b batch ≡ batch * (if b then 1 else 0)
loss-batch false = omega arith
loss-batch true = omega arith

run_spends :
    (n : ℕ) (acts : List Act) (outbox : List WebhookDelivery)
    → 1 ≤ n
    → IsUnique hook_id outbox
    → all_left n [] (run n acts outbox).outbox + (run n acts outbox).claimed
      ≤ all_left n [] outbox + n * enqueued acts + batch * (run n acts outbox).raised
unfolding run act enqueued
run_spends n [] outbox some_try u = omega arith
run_spends n (enqueues e ∷ acts) outbox some_try u = omega (
  arith,
  enqueue_adds n e outbox some_try,
  run_spends n acts (enqueue e.merchants e.now e.merchant_id e.event e.order outbox) some_try
      (enqueue-IsUnique e outbox u),
)
run_spends n (dispatches p ∷ acts) outbox some_try u = omega (
  arith,
  dispatch_once_spends n p.now p.post p.merchants outbox u,
  loss-batch (dispatch_once n p.now p.post p.merchants outbox).raised,
  run_spends n acts (dispatch_once n p.now p.post p.merchants outbox).outbox some_try
      (dispatch_once-IsUnique n p.now p.post p.merchants outbox u),
)

-- Where passes run one after the other, whatever the merchants answer, the deliveries claimed from
-- an empty outbox are at most WEBHOOK_MAX_ATTEMPTS for each event enqueued and a batch of 50 for
-- each pass that raised, if that setting is positive.
pub attempts_bounded :
    (max_attempts : ℕ) (acts : List Act)
    → 1 ≤ max_attempts
    → (run max_attempts acts []).claimed
      ≤ max_attempts * enqueued acts + 50 * (run max_attempts acts []).raised
unfolding all_left
attempts_bounded max_attempts acts some_try =
    omega (arith, run_spends max_attempts acts [] some_try tt)
