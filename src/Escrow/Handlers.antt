-- ===== src/Escrow/Handlers.antt =====
-- Each handler of app/escrow.py keeps the invariant of the job table.
use tilla.Base.{
  ℕ, ◌==◌, if◌then◌else◌, or_raise, ◌≡◌, refl, sym, ap, ◌∙◌, subst, Bool, true, false, not, Option,
  none, some, [], ◌∷◌, arith, ok, ok-injective, >>=-eq-ok, raise_if-eq-ok,
}
use tilla.Base.Text.{Text}
use tilla.Base.Keyed.{get, get-key, get-All}
use tilla.Models.{Store}
use tilla.Payment.{canonical_chain}
use tilla.Checkout.Verify.{Node}
use tilla.Escrow.{
  JobStatus, CommissionJob, Desk, Desktop, job_id, job_in, job_eq, job_code, EscrowError, get_job,
  store_of, reject_reused_tx, is_used, require_party, screen_or_raise, unique_tx, job_open,
  budget_set, funded, submitted, completed, cancelled, disputed,
}
use tilla.Escrow.Cores.{
  budget_core, fund_core, submit_core, release_core, cancel_core, dispute_core, require_status,
  releaser, set_budget, set_funded, set_submitted, set_completed,
}
use tilla.Escrow.Transfer.{verify_transfer}
use tilla.Escrow.Transfer.Sums.{verify_transfer-Moved}
use tilla.Escrow.Sound.{Sound, IsFit, Evidence, is_budget, store_key}
use tilla.Escrow.Keeps.{Keeps, advance-Keeps}
use tilla.Escrow.Ends.{release-Change, cancel-Change, dispute-Change}
use tilla.Escrow.Changes.{budget-Change, fund-Change, submit-Change, reused_none}

status_of : ℕ → JobStatus
status_of n =
    if n == 0
    then job_open
    else if n == 1
    then budget_set
    else if n == 2
    then funded
    else if n == 3
    then submitted
    else if n == 4
    then completed
    else if n == 5
    then cancelled
    else disputed

status_of-job_code : (s : JobStatus) → status_of (job_code s) ≡ s
unfolding job_code status_of
status_of-job_code job_open = refl
status_of-job_code budget_set = refl
status_of-job_code funded = refl
status_of-job_code submitted = refl
status_of-job_code completed = refl
status_of-job_code cancelled = refl
status_of-job_code disputed = refl

stands_in : (s t : JobStatus) → job_in s (t ∷ []) ≡ true → s ≡ t
unfolding job_eq
stands_in s t h = sym (status_of-job_code s) ∙ ap status_of (ground arith) ∙ status_of-job_code t

not-false : (b : Bool) → not b ≡ false → b ≡ true
not-false b h = ground arith

raised_not {ℓ} :
    {A : Type ℓ} (o : Option A) (e : EscrowError) (a : A) → or_raise o e ≡ ok a → o ≡ some a
raised_not none e a h = absurd (cc)
raised_not (some x) e a h = ap some (ok-injective _ _ h)

-- A handler reads the job that its path names, and the job's store.
pub get_job-found :
    (k : ℕ) (desk : Desk) (j : CommissionJob)
    → get_job k desk ≡ ok j
    → get job_id j.id desk.jobs ≡ some j
unfolding get_job
get_job-found k desk j h =
    let found = raised_not (get job_id k desk.jobs) _ j h in
    subst (λ n. get job_id n desk.jobs ≡ some j) (sym (get-key job_id k desk.jobs j found)) found

store_of-found :
    (j : CommissionJob) (desk : Desk) (s : Store)
    → store_of j desk ≡ ok s
    → get store_key j.store_id desk.stores ≡ some s
unfolding store_of
store_of-found j desk s h = raised_not (get store_key j.store_id desk.stores) _ s h

module _ (Answers : Node → Type 0) (desk desk' : Desk) (sound : Sound Answers desk) where
  IsFit-at : (j : CommissionJob) → get job_id j.id desk.jobs ≡ some j → IsFit j
  IsFit-at j found = get-All job_id IsFit j.id desk.jobs j found sound.fit

  proof_at :
      (j : CommissionJob) → get job_id j.id desk.jobs ≡ some j → Evidence Answers desk.stores j
  proof_at j found =
      get-All job_id (Evidence Answers desk.stores) j.id desk.jobs j found sound.evidence

  pub budget_core-Keeps :
      (buyer : Text) (k n : ℕ) (escrow : Text)
      → is_budget (some n) ≡ true
      → budget_core buyer k n escrow desk ≡ ok desk'
      → Keeps Answers desk desk'
  unfolding budget_core require_status
  budget_core-Keeps buyer k n escrow range h =
      let (j, got, h₁) = >>=-eq-ok (get_job k desk) _ h in
      let (s, _, h₂) = >>=-eq-ok (store_of j desk) _ h₁ in
      let (_, _, h₃) = >>=-eq-ok (require_party buyer (some j.buyer_addr)) _ h₂ in
      let (at, h₄) = raise_if-eq-ok (not (job_in j.status (job_open ∷ []))) _ _ h₃ in
      let found = get_job-found k desk j got in
      advance-Keeps Answers j s _ budget_set (set_budget n escrow) _ desk desk' (λ x. refl) found
        sound
        (budget-Change Answers desk j sound (IsFit-at j found) (proof_at j found) n escrow range
          (stands_in j.status job_open (not-false _ at)))
        h₄

  pub fund_core-Keeps :
      (at : Desktop) (node : Node) (buyer : Text) (k : ℕ) (tx : Text)
      → Answers node
      → fund_core at node buyer k tx desk ≡ ok desk'
      → Keeps Answers desk desk'
  unfolding fund_core require_status reject_reused_tx
  fund_core-Keeps at node buyer k tx asked h =
      let (j, got, h₁) = >>=-eq-ok (get_job k desk) _ h in
      let (s, _, h₂) = >>=-eq-ok (store_of j desk) _ h₁ in
      let (_, _, h₃) = >>=-eq-ok (require_party buyer (some j.buyer_addr)) _ h₂ in
      let (in_state, h₄) = raise_if-eq-ok (not (job_in j.status (budget_set ∷ []))) _ _ h₃ in
      let (unused, h₅) = raise_if-eq-ok (is_used (λ x. x.funded_tx) tx desk.jobs) _ _ h₄ in
      let (block, verified, h₆) =
        >>=-eq-ok
          (verify_transfer node canonical_chain tx (some j.buyer_addr) j.escrow_addr j.budget_micro
            none)
          _ h₅ in
      let (_, _, h₇) = >>=-eq-ok (unique_tx (λ x. x.funded_tx) tx desk) _ h₆ in
      let found = get_job-found k desk j got in
      advance-Keeps Answers j s _ funded (set_funded at tx block) _ desk desk' (λ x. refl) found
        sound
        (fund-Change Answers desk j sound (IsFit-at j found) (proof_at j found) node tx block _
          asked (stands_in j.status budget_set (not-false _ in_state))
          (reused_none (λ x. x.funded_tx) tx desk.jobs unused)
          (verify_transfer-Moved node _ tx _ _ _ none block verified))
        h₇

  pub submit_core-Keeps :
      (at : Desktop) (provider : Text) (k : ℕ) (text : Text)
      → submit_core at provider k text desk ≡ ok desk'
      → Keeps Answers desk desk'
  unfolding submit_core require_status
  submit_core-Keeps at provider k text h =
      let (j, got, h₁) = >>=-eq-ok (get_job k desk) _ h in
      let (s, _, h₂) = >>=-eq-ok (store_of j desk) _ h₁ in
      let (_, _, h₃) = >>=-eq-ok (require_party provider (some s.pay_to)) _ h₂ in
      let (in_state, h₄) = raise_if-eq-ok (not (job_in j.status (funded ∷ []))) _ _ h₃ in
      let (_, _, h₅) = >>=-eq-ok (screen_or_raise at text) _ h₄ in
      let found = get_job-found k desk j got in
      advance-Keeps Answers j s _ submitted (set_submitted at text) _ desk desk' (λ x. refl) found
        sound
        (submit-Change Answers desk j sound (IsFit-at j found) (proof_at j found) text _
          (stands_in j.status funded (not-false _ in_state)))
        h₅

  pub release_core-Keeps :
      (at : Desktop) (node : Node) (caller : Text) (k : ℕ) (tx : Text)
      → Answers node
      → release_core at node caller k tx desk ≡ ok desk'
      → Keeps Answers desk desk'
  unfolding release_core require_status reject_reused_tx
  release_core-Keeps at node caller k tx asked h =
      let (j, got, h₁) = >>=-eq-ok (get_job k desk) _ h in
      let (s, known, h₂) = >>=-eq-ok (store_of j desk) _ h₁ in
      let (_, _, h₃) = >>=-eq-ok (require_party caller (some (releaser j j.evaluator_addr))) _ h₂ in
      let (in_state, h₄) = raise_if-eq-ok (not (job_in j.status (submitted ∷ []))) _ _ h₃ in
      let (unused, h₅) = raise_if-eq-ok (is_used (λ x. x.released_tx) tx desk.jobs) _ _ h₄ in
      let (block, verified, h₆) =
        >>=-eq-ok
          (verify_transfer node canonical_chain tx j.escrow_addr (some s.pay_to) j.budget_micro
            j.funded_block)
          _ h₅ in
      let (_, _, h₇) = >>=-eq-ok (unique_tx (λ x. x.released_tx) tx desk) _ h₆ in
      let found = get_job-found k desk j got in
      advance-Keeps Answers j s _ completed (set_completed at tx) _ desk desk' (λ x. refl) found
        sound
        (release-Change Answers desk j sound (IsFit-at j found) (proof_at j found) node s tx block _
          asked (stands_in j.status submitted (not-false _ in_state))
          (store_of-found j desk s known) (reused_none (λ x. x.released_tx) tx desk.jobs unused)
          (verify_transfer-Moved node _ tx _ _ _ j.funded_block block verified))
        h₇

  pub cancel_core-Keeps :
      (buyer : Text) (k : ℕ) → cancel_core buyer k desk ≡ ok desk' → Keeps Answers desk desk'
  unfolding cancel_core require_status
  cancel_core-Keeps buyer k h =
      let (j, got, h₁) = >>=-eq-ok (get_job k desk) _ h in
      let (s, _, h₂) = >>=-eq-ok (store_of j desk) _ h₁ in
      let (_, _, h₃) = >>=-eq-ok (require_party buyer (some j.buyer_addr)) _ h₂ in
      let (in_state, h₄) =
        raise_if-eq-ok (not (job_in j.status (job_open ∷ budget_set ∷ []))) _ _ h₃ in
      let found = get_job-found k desk j got in
      advance-Keeps Answers j s _ cancelled (λ x. x) _ desk desk' (λ x. refl) found sound
        (cancel-Change Answers desk j sound (IsFit-at j found) (proof_at j found)
          (not-false _ in_state))
        h₄

  pub dispute_core-Keeps :
      (caller : Text) (k : ℕ) → dispute_core caller k desk ≡ ok desk' → Keeps Answers desk desk'
  unfolding dispute_core require_status
  dispute_core-Keeps caller k h =
      let (j, got, h₁) = >>=-eq-ok (get_job k desk) _ h in
      let (s, _, h₂) = >>=-eq-ok (store_of j desk) _ h₁ in
      let (_, h₃) = raise_if-eq-ok _ _ _ h₂ in
      let (in_state, h₄) =
        raise_if-eq-ok (not (job_in j.status (funded ∷ submitted ∷ []))) _ _ h₃ in
      let found = get_job-found k desk j got in
      advance-Keeps Answers j s _ disputed (λ x. x) _ desk desk' (λ x. refl) found sound
        (dispute-Change Answers desk j sound (IsFit-at j found) (proof_at j found)
          (not-false _ in_state))
        h₄
