-- ===== src/Webhooks/Due.antt =====
-- The batch of a pass of app/webhooks.py: rows as the table has them, each once, 50 at most.
use tilla.Base.{
  ℕ, zero, suc, ◌≤◌, refl, Bool, ◌&&◌, List, [], ◌∷◌, arith, leb, length, Bool-cases, inl, inr, All,
  All-mono, All-both, Pairs,
}
use tilla.Base.Rows.{select, select-All, select_sound}
use tilla.Base.Keyed.{get_self, IsUnique}
use tilla.Models.{WebhookDelivery}
use tilla.Webhooks.Dispatch.{is_pending, take, batch, due}
use tilla.Webhooks.Idle.{hook_id, is_claimed}
use tilla.Webhooks.Rest.{Ready}

module _ {A : Type 0} where
  take-All : (P : A → Type 0) (n : ℕ) (xs : List A) → All P xs → All P (take n xs)
  take-All P zero xs h = tt
  take-All P (suc n) [] h = tt
  take-All P (suc n) (x ∷ xs) h = (h.0, take-All P n xs h.1)

  take-Pairs : (R : A → A → Type 0) (n : ℕ) (xs : List A) → Pairs R xs → Pairs R (take n xs)
  take-Pairs R zero xs h = tt
  take-Pairs R (suc n) [] h = tt
  take-Pairs R (suc n) (x ∷ xs) h = (take-All (R x) n xs h.0, take-Pairs R n xs h.1)

  select-Pairs :
      (R : A → A → Type 0) (p : A → Bool) (xs : List A) → Pairs R xs → Pairs R (select p xs)
  unfolding select
  select-Pairs R p [] h = tt
  select-Pairs R p (x ∷ xs) h = elim (Bool-cases (p x)) [
    | inl e ↦ rw e (select-All (R x) p xs h.0, select-Pairs R p xs h.1)
    | inr e ↦ rw e (select-Pairs R p xs h.1)
  ]

  take-length : (n : ℕ) (xs : List A) → length (take n xs) ≤ n
  take-length zero xs = omega arith
  take-length (suc n) [] = omega arith
  take-length (suc n) (x ∷ xs) = omega (arith, take-length n xs)

pub due-length : (now : ℕ) (outbox : List WebhookDelivery) → length (due now outbox) ≤ batch
unfolding due
due-length now outbox = take-length batch _

pub due-IsUnique :
    (now : ℕ) (outbox : List WebhookDelivery)
    → IsUnique hook_id outbox
    → IsUnique hook_id (due now outbox)
unfolding due
due-IsUnique now outbox u = take-Pairs _ batch _ (select-Pairs _ _ outbox u)

pub due-Ready :
    (now : ℕ) (outbox : List WebhookDelivery)
    → IsUnique hook_id outbox
    → All (Ready (outbox, [])) (due now outbox)
unfolding due is_claimed
due-Ready now outbox u =
    let picked : WebhookDelivery → Bool = λ d. is_pending d.status && leb d.next_attempt_at now in
    take-All _ batch _ (
      All-mono _ _
        (λ (d : WebhookDelivery) h. record {
          pending = ground (arith, h.0);
          there = h.1;
          free = refl;
        })
        (select picked outbox)
        (All-both _ _ (select picked outbox) (select_sound picked outbox)
          (select-All _ picked outbox (get_self hook_id outbox u))))
