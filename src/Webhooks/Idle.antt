-- ===== src/Webhooks/Idle.antt =====
-- The attempts that a row of the outbox has left, as app/webhooks.py counts them.
use tilla.Base.{
  ℕ, ◌+◌, ◌-◌, ◌≤◌, ◌≡◌, ◌≢◌, refl, sym, subst, Bool, true, false, not, ◌&&◌, ◌||◌, Option, some,
  List, [], ◌∷◌, ◌++◌, arith, ◌==◌, leb, ltb, any, all, if◌then◌else◌, Bool-cases, inl, inr, All,
  All-mono, length,
}
use tilla.Base.Rows.{update}
use tilla.Base.Keyed.{get, get-cons, get-nil, IsUnique}
use tilla.Models.{WebhookDelivery}
use tilla.Webhooks.Dispatch.{is_pending, Claim, kill, bump, set_result}

abbrev pub hook_id : WebhookDelivery → ℕ
hook_id d = d.id

-- A claim of the row is still to be recorded.
unfoldable pub is_claimed : List Claim → WebhookDelivery → Bool
is_claimed cs d = any (λ c. c.row_id == d.id) cs

-- The claims that a pending row may still meet: those up to the limit, or one past it.
unfoldable pub left : ℕ → List Claim → WebhookDelivery → ℕ
left n cs d =
    if is_pending d.status
    then (if ltb d.attempts n then n - d.attempts else if is_claimed cs d then 0 else 1)
    else 0

unfoldable pub all_left : ℕ → List Claim → List WebhookDelivery → ℕ
all_left n cs [] = 0
all_left n cs (d ∷ ds) = left n cs d + all_left n cs ds

-- No claim of the row is behind its attempts.
unfoldable pub is_abreast : List Claim → WebhookDelivery → Bool
is_abreast cs d = all (λ c. not (c.row_id == d.id) || leb d.attempts c.attempts) cs

module _ (n : ℕ) (cs cs' : List Claim) (w : WebhookDelivery → Bool)
    (f : WebhookDelivery → WebhookDelivery) where
  -- The row after the UPDATE has no more left, with the claims after it.
  abbrev pub Shrinks : WebhookDelivery → Type 0
  Shrinks d = left n cs' (if w d then f d else d) ≤ left n cs d

  pub left_less :
      (ds : List WebhookDelivery)
      → All Shrinks ds
      → all_left n cs' (update w f ds) ≤ all_left n cs ds
  unfolding update all_left
  left_less [] h = omega arith
  left_less (d ∷ ds) h = omega (arith, h.0, left_less ds h.1)

  pub left_drop :
      (k : ℕ) (ds : List WebhookDelivery) (x : WebhookDelivery)
      → get hook_id k ds ≡ some x
      → All Shrinks ds
      → left n cs' (if w x then f x else x) + 1 ≤ left n cs x
      → all_left n cs' (update w f ds) + 1 ≤ all_left n cs ds
  unfolding update all_left
  left_drop k [] x found h drops = absurd (cc (found, get-nil hook_id k))
  left_drop k (d ∷ ds) x found h drops = elim (Bool-cases (d.id == k)) [
    | inl e ↦
        let same : d ≡ x = ground (arith, get-cons hook_id k d ds) in
        omega (
          arith,
          left_less ds h.1,
          subst (λ v. left n cs' (if w v then f v else v) + 1 ≤ left n cs v) (sym same) drops,
        )
    | inr e ↦
        omega (arith, h.0, left_drop k ds x (ground (arith, get-cons hook_id k d ds)) h.1 drops)
  ]

any-append_one :
    (p : Claim → Bool) (cs : List Claim) (c : Claim) → any p (cs ++ (c ∷ [])) ≡ any p cs || p c
any-append_one p [] c = ground arith
any-append_one p (x ∷ xs) c = ground (arith, any-append_one p xs c)

all-append_one :
    (p : Claim → Bool) (cs : List Claim) (c : Claim) → all p (cs ++ (c ∷ [])) ≡ all p cs && p c
all-append_one p [] c = ground arith
all-append_one p (x ∷ xs) c = ground (arith, all-append_one p xs c)

pub is_claimed-append_one :
    (cs : List Claim) (c : Claim) (d : WebhookDelivery)
    → is_claimed (cs ++ (c ∷ [])) d ≡ is_claimed cs d || (c.row_id == d.id)
unfolding is_claimed
is_claimed-append_one cs c d = any-append_one (λ x. x.row_id == d.id) cs c

pub is_abreast-append_one :
    (cs : List Claim) (c : Claim) (d : WebhookDelivery)
    → is_abreast (cs ++ (c ∷ [])) d
      ≡ is_abreast cs d && (not (c.row_id == d.id) || leb d.attempts c.attempts)
unfolding is_abreast
is_abreast-append_one cs c d =
    all-append_one (λ x. not (x.row_id == d.id) || leb d.attempts x.attempts) cs c

-- A row that nothing claims is abreast, whatever its attempts.
pub unclaimed-is_abreast :
    (cs : List Claim) (d : WebhookDelivery) → is_claimed cs d ≡ false → is_abreast cs d ≡ true
unfolding is_claimed is_abreast
unclaimed-is_abreast [] d h = refl
unclaimed-is_abreast (c ∷ cs) d h = ground (arith, unclaimed-is_abreast cs d)

-- A claim past the others is one row's at most, so that dropping it frees one claim.
fresh_drop :
    (n : ℕ) (c : Claim) (cs : List Claim) (ds : List WebhookDelivery)
    → All (λ d. c.row_id ≢ d.id) ds
    → all_left n cs ds ≡ all_left n (c ∷ cs) ds
unfolding all_left left is_claimed
fresh_drop n c cs [] h = refl
fresh_drop n c cs (d ∷ ds) h = ground (arith, h.0, fresh_drop n c cs ds h.1)

one_drop :
    (n : ℕ) (c : Claim) (cs : List Claim) (ds : List WebhookDelivery)
    → IsUnique hook_id ds
    → all_left n cs ds ≤ all_left n (c ∷ cs) ds + 1
unfolding all_left left is_claimed
one_drop n c cs [] u = omega arith
one_drop n c cs (d ∷ ds) u = elim (Bool-cases (c.row_id == d.id)) [
  | inl mine ↦
      let rest = fresh_drop n c cs ds (
        All-mono (λ x. hook_id d ≢ hook_id x) (λ x. c.row_id ≢ x.id)
          (λ x h e. absurd (ground (arith, h, e))) ds u.0) in
      ground (arith, rest)
  | inr other ↦ let rest = one_drop n c cs ds u.1 in ground (arith, rest)
]

-- What an exception in the loop costs: the claims that it leaves unrecorded.
pub all_drop :
    (n : ℕ) (cs : List Claim) (ds : List WebhookDelivery)
    → IsUnique hook_id ds
    → all_left n [] ds ≤ all_left n cs ds + length cs
all_drop n [] ds u = omega arith
all_drop n (c ∷ cs) ds u = omega (arith, all_drop n cs ds u, one_drop n c cs ds u)

-- The UPDATEs of the dispatcher, on one row.
pub kill_less : (n : ℕ) (cs : List Claim) (d : WebhookDelivery) → left n cs (kill d) ≤ left n cs d
unfolding left is_pending
kill_less n cs d = omega arith

pub bump_less :
    (n : ℕ) (cs : List Claim) (c : Claim) (d : WebhookDelivery)
    → (c.row_id == d.id) ≡ true
    → left n (cs ++ (c ∷ [])) (bump d) ≤ left n cs d
unfolding left
bump_less n cs c d e = ground (arith, is_claimed-append_one cs c (bump d), e)

pub other_less :
    (n : ℕ) (cs : List Claim) (c : Claim) (d : WebhookDelivery)
    → left n (cs ++ (c ∷ [])) d ≤ left n cs d
unfolding left
other_less n cs c d = ground (arith, is_claimed-append_one cs c d)

pub bump_drops :
    (n : ℕ) (cs : List Claim) (c : Claim) (d : WebhookDelivery)
    → (c.row_id == d.id) ≡ true
    → is_pending d.status ≡ true
    → is_claimed cs d ≡ false
    → left n (cs ++ (c ∷ [])) (bump d) + 1 ≤ left n cs d
unfolding left
bump_drops n cs c d e p free = ground (arith, is_claimed-append_one cs c (bump d), e, p, free)

pub result_less :
    (n now : ℕ) (c : Claim) (cs : List Claim) (code : Option ℕ) (d : WebhookDelivery)
    → (d.id == c.row_id) ≡ true
    → is_abreast (c ∷ cs) d ≡ true
    → left n cs (set_result n now c.attempts code d) ≤ left n (c ∷ cs) d
unfolding set_result left is_pending is_abreast is_claimed
result_less n now c cs code d e h = ground arith

pub passed_less :
    (n : ℕ) (c : Claim) (cs : List Claim) (d : WebhookDelivery)
    → (d.id == c.row_id) ≡ false
    → left n cs d ≤ left n (c ∷ cs) d
unfolding left is_claimed
passed_less n c cs d e = ground arith
