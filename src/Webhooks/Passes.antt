-- ===== src/Webhooks/Passes.antt =====
-- One pass of `dispatch_once` of app/webhooks.py: what it spends, and what it leaves settled.
use tilla.Base.{
  ℕ, suc, ◌+◌, ◌≤◌, ◌≡◌, refl, sym, Bool, true, false, Option, List, [], ◌∷◌, arith, ◌==◌, length,
  if◌then◌else◌, ◌⊎◌, Bool-cases, inl, inr, All-mono, All-intro,
}
use tilla.Base.Rows.{update-All}
use tilla.Base.Keyed.{update-IsUnique, IsUnique}
use tilla.Models.{Merchant, WebhookDelivery}
use tilla.Webhooks.Dispatch.{
  Claim, Posted, answered, escapes, batch, due, claim_rows, set_result, record_result, deliver_all,
  dispatch_once,
}
use tilla.Webhooks.Idle.{
  hook_id, left, all_left, left_less, is_claimed, is_abreast, unclaimed-is_abreast, all_drop,
  result_less, passed_less,
}
use tilla.Webhooks.Rest.{Held, Step, same_rows, claim_rows-Step}
use tilla.Webhooks.Due.{due-IsUnique, due-Ready, due-length}

set_result_same :
    (n now attempts : ℕ) (code : Option ℕ) (d : WebhookDelivery)
    → hook_id (set_result n now attempts code d) ≡ hook_id d
unfolding set_result
set_result_same n now attempts code d = ground arith

none_claimed : (d : WebhookDelivery) → is_claimed [] d ≡ false
unfolding is_claimed
none_claimed d = refl

set_result_counts :
    (n now attempts : ℕ) (code : Option ℕ) (d : WebhookDelivery)
    → (set_result n now attempts code d).attempts ≡ d.attempts
unfolding set_result
set_result_counts n now attempts code d = ground arith

row_less :
    (n now : ℕ) (c : Claim) (cs : List Claim) (code : Option ℕ) (d : WebhookDelivery)
    → is_abreast (c ∷ cs) d ≡ true
    → left n cs (if d.id == c.row_id then set_result n now c.attempts code d else d)
      ≤ left n (c ∷ cs) d
row_less n now c cs code d h = elim (Bool-cases (d.id == c.row_id)) [
  | inl e ↦ rw e (result_less n now c cs code d e h)
  | inr e ↦ rw e (passed_less n c cs d e)
]

rest-is_abreast :
    (c : Claim) (cs : List Claim) (d : WebhookDelivery)
    → is_abreast (c ∷ cs) d ≡ true
    → is_abreast cs d ≡ true
unfolding is_abreast
rest-is_abreast c cs d h = ground arith

record_result-Held :
    (n now : ℕ) (c : Claim) (cs : List Claim) (code : Option ℕ) (outbox : List WebhookDelivery)
    → Held (outbox, c ∷ cs)
    → Held (record_result n now c code outbox, cs)
unfolding record_result
record_result-Held n now c cs code outbox inv = record {
  unique = update-IsUnique hook_id _ _ (set_result_same n now c.attempts code) outbox inv.unique;
  rows =
      update-All _ _ _
        (λ d _ h.
          same_rows cs d _ (sym (set_result_same n now c.attempts code d))
            (sym (set_result_counts n now c.attempts code d)) h)
        outbox (All-mono _ _ (λ d h. rest-is_abreast c cs d h) outbox inv.rows);
}

Posted-cases : (p : Posted) → (p ≡ escapes) ⊎ ((code : Option ℕ) × (p ≡ answered code))
Posted-cases escapes = inl refl
Posted-cases (answered code) = inr (code, refl)

-- The claims that a pass which raised may have left unrecorded.
abbrev pub loss : Bool → ℕ → ℕ
loss false size = 0
loss true size = size

loss_more : (raised : Bool) (size : ℕ) → loss raised size ≤ loss raised (suc size)
loss_more false size = omega arith
loss_more true size = omega arith

loss_most : (raised : Bool) (size most : ℕ) → size ≤ most → loss raised size ≤ loss raised most
loss_most false size most h = omega arith
loss_most true size most h = h

-- The loop over the claims frees none, but for those that an exception leaves unrecorded.
deliver_all-spends :
    (n now : ℕ) (post : Claim → Posted) (cs : List Claim) (outbox : List WebhookDelivery)
    → Held (outbox, cs)
    → IsUnique hook_id (deliver_all n now post cs outbox).0
      × (all_left n [] (deliver_all n now post cs outbox).0
          ≤ all_left n cs outbox + loss (deliver_all n now post cs outbox).1 (length cs))
unfolding deliver_all record_result
deliver_all-spends n now post [] outbox inv = (inv.unique, omega arith)
deliver_all-spends n now post (c ∷ cs) outbox inv = elim (Posted-cases (post c)) [
  | inl e ↦ rw e (inv.unique, all_drop n (c ∷ cs) outbox inv.unique)
  | inr (code, e) ↦
      let next = record_result n now c code outbox in
      let held = record_result-Held n now c cs code outbox inv in
      let rest = deliver_all-spends n now post cs next held in
      let less = spent code in
      rw e (
        rest.0,
        omega (arith, rest.1, less, loss_more (deliver_all n now post cs next).1 (length cs)),
      )
]
  where
    spent :
        (code : Option ℕ)
        → all_left n cs (record_result n now c code outbox) ≤ all_left n (c ∷ cs) outbox
    spent code =
        left_less n (c ∷ cs) cs _ _ outbox
          (All-mono _ _ (λ d h. row_less n now c cs code d h) outbox inv.rows)

module _ (n now : ℕ) (post : Claim → Posted) (merchants : List Merchant)
    (outbox : List WebhookDelivery) (u : IsUnique hook_id outbox) where
  claims-Step :
      Step n
        (length (due now outbox))
        (outbox, [])
        (claim_rows merchants (due now outbox) (outbox, []))
  claims-Step =
      claim_rows-Step n merchants (due now outbox) (outbox, [])
        (record { unique = u; rows = All-intro _ (λ d. no_claims d) outbox })
        (due-IsUnique now outbox u) (due-Ready now outbox u)
    where
      no_claims : (d : WebhookDelivery) → is_abreast [] d ≡ true
      no_claims d = unclaimed-is_abreast [] d (none_claimed d)

  pub dispatch_once-IsUnique : IsUnique hook_id (dispatch_once n now post merchants outbox).outbox
  unfolding dispatch_once
  dispatch_once-IsUnique = (deliver_all-spends n now post _ _ claims-Step.holds).0

  -- A pass claims no more than the rows had left, with a batch on top where it raises.
  pub dispatch_once_spends :
      all_left n [] (dispatch_once n now post merchants outbox).outbox
        + (dispatch_once n now post merchants outbox).claimed
      ≤ all_left n [] outbox + loss (dispatch_once n now post merchants outbox).raised batch
  unfolding dispatch_once
  dispatch_once_spends =
      let s = claim_rows merchants (due now outbox) (outbox, []) in
      omega (
        arith,
        (deliver_all-spends n now post s.1 s.0 claims-Step.holds).1,
        claims-Step.fewer,
        loss_most (deliver_all n now post s.1 s.0).1 (length s.1) batch
            (omega (arith, claims-Step.at_most, due-length now outbox)),
      )
