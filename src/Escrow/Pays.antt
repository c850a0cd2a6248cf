-- ===== src/Escrow/Pays.antt =====
-- When the request of app/escrow.py that records a deposit succeeds.
use tilla.Base.{
  ℕ, ◌≡◌, ◌≢◌, refl, ap, ◌∙◌, inl, inr, Bool-cases, true, false, Option, none, some, List, [], ◌∷◌,
  arith, ok, if◌then◌else◌, All,
}
use mathlib.Core.Option
use tilla.Base.Text.{Text, lower, text_eq_sound, text_eq_refl, opt_text_eq}
use tilla.Base.Rows.{find}
use tilla.Base.Keyed.{get, get-update, rowcount-key, IsUnique}
use tilla.Models.{Store}
use tilla.Payment.{canonical_chain}
use tilla.Checkout.Verify.{Node}
use tilla.Escrow.{
  JobStatus, JobEvent, CommissionJob, Desk, Desktop, job_id, job_in, get_job, store_of, is_party,
  require_party, is_used, reject_reused_tx, unique_tx, log_job, job_eq, budget_set, funded,
  job_funded,
}
use tilla.Escrow.Transition.{transition_job, job_awaits, job_moved}
use tilla.Escrow.Cores.{advance, fund_core, require_status, set_funded}
use tilla.Escrow.Handlers.{get_job-found}
use tilla.Escrow.Transfer.Sums.{Moved}
use tilla.Escrow.Transfer.Complete.{verify_transfer_iff}

-- The UPDATE wins when the row of the id stands in one of the statuses that it starts from, and
-- then the row is the moved one.
pub advance_wins :
    (j : CommissionJob) (s : Store) (from_states : List JobStatus) (to_state : JobStatus)
    (fields : CommissionJob → CommissionJob) (e : JobEvent) (desk : Desk)
    → ((x : CommissionJob) → (fields x).id ≡ x.id)
    → IsUnique job_id desk.jobs
    → get job_id j.id desk.jobs ≡ some j
    → job_in j.status from_states ≡ true
    → (desk' : Desk) × (advance j s from_states to_state fields e desk ≡ ok desk')
      × (get job_id j.id desk'.jobs ≡ some (job_moved to_state fields j))
unfolding advance transition_job
advance_wins j s from_states to_state fields e desk keep u found stands =
    let moved : (transition_job j.id from_states to_state fields desk.jobs).1 ≡ true =
      rw (rowcount-key job_id j.id (λ x. job_in x.status from_states) desk.jobs u, found, stands)
        refl in
    (
      log_job e j s
          (record desk { jobs = (transition_job j.id from_states to_state fields desk.jobs).0 }),
      rw moved refl,
      get-update job_id (job_awaits j.id from_states) (job_moved to_state fields) keep j.id
            desk.jobs
          ∙ ap
              (Option.map
                (λ x. if job_awaits j.id from_states x then job_moved to_state fields x else x))
              found
          ∙ ap some (ground arith),
    )

-- No row has the hash in the column.
abbrev pub IsNew : (CommissionJob → Option Text) → Text → Desk → Type 0
IsNew column tx desk = All (λ j. column j ≢ some tx) desk.jobs

opt_text_eq-some : (a : Option Text) (t : Text) → opt_text_eq a t ≡ true → a ≡ some t
opt_text_eq-some none t h = absurd (cc h)
opt_text_eq-some (some s) t h = ap some (text_eq_sound s t h)

opt_text_eq_self : (t : Text) → opt_text_eq (some t) t ≡ true
opt_text_eq_self t = text_eq_refl t

pub new-unused :
    (column : CommissionJob → Option Text) (tx : Text) (jobs : List CommissionJob)
    → All (λ j. column j ≢ some tx) jobs
    → is_used column tx jobs ≡ false
unfolding find
new-unused column tx [] new = refl
new-unused column tx (j ∷ jobs) new = elim (Bool-cases (opt_text_eq (column j) tx)) [
  | inl same ↦ absurd (new.0 (opt_text_eq-some (column j) tx same))
  | inr other ↦ rw other (new-unused column tx jobs new.1)
]

pub unused-new :
    (column : CommissionJob → Option Text) (tx : Text) (jobs : List CommissionJob)
    → is_used column tx jobs ≡ false
    → All (λ j. column j ≢ some tx) jobs
unfolding find
unused-new column tx [] h = tt
unused-new column tx (j ∷ jobs) h = elim (Bool-cases (opt_text_eq (column j) tx)) [
  | inl same ↦ absurd (cc (rw same at h))
  | inr other ↦ (
    (λ e. absurd (cc (other, ap (λ c. opt_text_eq c tx) e, opt_text_eq_self tx))),
    unused-new column tx jobs (rw other at h),
  )
]

-- What must stand on record before a deposit.
pub record IsFundable (k : ℕ) (tx : Text) (desk : Desk) (j : CommissionJob) : Type 0 where
  pub found : get_job k desk ≡ ok j
  pub store : Store
  pub known : store_of j desk ≡ ok store
  pub agreed : j.status ≡ budget_set
  pub unused : IsNew (λ x. x.funded_tx) tx desk

-- The request of the buyer, in any case of its letters, to record a new hash for a job whose budget
-- is agreed succeeds where the transaction moved exactly the budget from the buyer to the escrow:
-- the job is then funded, with the hash, the block of the deposit and the time, and is otherwise
-- as it was.
pub fund_core-Funds :
    (at : Desktop) (node : Node) (buyer : Text) (k : ℕ) (tx : Text) (desk : Desk)
    (j : CommissionJob) (block : Option ℕ)
    → IsUnique job_id desk.jobs
    → IsFundable k tx desk j
    → lower buyer ≡ lower j.buyer_addr
    → Moved node canonical_chain tx (some j.buyer_addr) j.escrow_addr j.budget_micro none block
    → (desk' : Desk) × (fund_core at node buyer k tx desk ≡ ok desk')
      × (get job_id j.id desk'.jobs
          ≡ some (record j {
            status = funded;
            funded_tx = some tx;
            funded_block = block;
            funded_at = some at.now;
          }))
unfolding fund_core require_party require_status reject_reused_tx unique_tx job_eq
fund_core-Funds at node buyer k tx desk j block u may party moved =
    let stands : job_in j.status (budget_set ∷ []) ≡ true = rw may.agreed refl in
    let is_buyer : is_party buyer (some j.buyer_addr) ≡ true = rw party (text_eq_refl _) in
    let verified =
      (verify_transfer_iff node canonical_chain tx (some j.buyer_addr) j.escrow_addr j.budget_micro
          none block).1
        moved in
    let (desk', done, row) =
      advance_wins j may.store (budget_set ∷ []) funded (set_funded at tx block) job_funded desk
        (λ x. refl) u (get_job-found k desk j may.found) stands in
    (
      desk',
      rw
          (
            may.found,
            may.known,
            is_buyer,
            stands,
            new-unused (λ x. x.funded_tx) tx desk.jobs may.unused,
            verified,
          )
          done,
      row,
    )
