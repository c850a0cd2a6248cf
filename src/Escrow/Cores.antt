-- ===== src/Escrow/Cores.antt =====
-- The request handlers of app/escrow.py, from the party check to the commit. A result is the
-- committed tables; an error leaves them as they were.
use tilla.Base.{
  ℕ, Bool, false, not, ◌||◌, Option, none, some, List, [], ◌∷◌, ◌++◌, is_some, if◌then◌else◌,
  Result, ok, err, ◌>>=◌, ◌>>◌, raise_if,
}
use tilla.Base.Text.{Text}
use tilla.Base.Keyed.{get}
use tilla.Models.{Store}
use tilla.Payment.{canonical_chain}
use tilla.Checkout.Verify.{Node}
use tilla.Escrow.{
  JobStatus, job_open, budget_set, funded, submitted, completed, cancelled, disputed, job_in,
  CommissionJob, Desk, Desktop, JobEvent, job_created, job_budget_set, job_funded, job_submitted,
  job_completed, job_cancelled, job_disputed, EscrowError, wrong_party, wrong_status, lost_race,
  duplicate_id, job_not_found, job_id, get_job, store_of, require_live_store, require_party,
  is_party, screen_or_raise, reject_reused_tx, unique_tx, log_job,
}
use tilla.Escrow.Transition.{transition_job}
use tilla.Escrow.Transfer.{verify_transfer}

unfoldable pub new_job : Desktop → Text → Store → Text → Text → Option Text → CommissionJob
new_job at buyer s title brief evaluator_addr = record {
  id = at.fresh_id;
  buyer_addr = buyer;
  store_id = s.id;
  title = title;
  brief = brief;
  budget_micro = none;
  escrow_addr = none;
  evaluator_addr = evaluator_addr;
  status = job_open;
  funded_tx = none;
  funded_block = none;
  released_tx = none;
  deliverable = none;
  created_at = at.now;
  funded_at = none;
  submitted_at = none;
  completed_at = none;
}

-- The insert meets the PRIMARY KEY constraint.
unfoldable pub insert_job : CommissionJob → Desk → Result EscrowError Desk
insert_job j desk =
    if is_some (get job_id j.id desk.jobs)
    then err duplicate_id
    else ok (record desk { jobs = desk.jobs ++ (j ∷ []) })

unfoldable pub create_core :
    Desktop → Text → Text → Text → Text → Option Text → Desk → Result EscrowError Desk
unfolding new_job insert_job
create_core at buyer slug title brief evaluator_addr desk = require_live_store slug desk >>= λ s.
    screen_or_raise at (title ++ (10 ∷ 10 ∷ brief))
    >> (let j = new_job at buyer s title brief evaluator_addr in
        insert_job j desk >>= λ after. ok (log_job job_created j s after))

-- The conditional UPDATE, its 409 for a lost race, the log and the commit.
unfoldable pub advance :
    CommissionJob
    → Store
    → List JobStatus
    → JobStatus
    → (CommissionJob → CommissionJob)
    → JobEvent
    → Desk
    → Result EscrowError Desk
advance j s from_states to_state fields e desk =
    let (jobs, moved) = transition_job j.id from_states to_state fields desk.jobs in
    if moved then ok (log_job e j s (record desk { jobs = jobs })) else err lost_race

unfoldable pub require_status : List JobStatus → CommissionJob → Result EscrowError (Unit {0})
require_status states j = raise_if (not (job_in j.status states)) wrong_status

abbrev pub set_budget : ℕ → Text → CommissionJob → CommissionJob
set_budget budget_micro escrow_addr x = record x {
  budget_micro = some budget_micro;
  escrow_addr = some escrow_addr;
}

unfoldable pub budget_core : Text → ℕ → ℕ → Text → Desk → Result EscrowError Desk
budget_core buyer k budget_micro escrow_addr desk = get_job k desk >>= λ j. store_of j desk >>= λ s.
    require_party buyer (some j.buyer_addr)
    >> require_status (job_open ∷ []) j
    >> advance j s (job_open ∷ []) budget_set (set_budget budget_micro escrow_addr) job_budget_set
        desk

abbrev pub set_funded : Desktop → Text → Option ℕ → CommissionJob → CommissionJob
set_funded at tx_hash block x = record x {
  funded_tx = some tx_hash;
  funded_block = block;
  funded_at = some at.now;
}

unfoldable pub fund_core : Desktop → Node → Text → ℕ → Text → Desk → Result EscrowError Desk
fund_core at node buyer k tx_hash desk = get_job k desk >>= λ j. store_of j desk >>= λ s.
    require_party buyer (some j.buyer_addr)
    >> require_status (budget_set ∷ []) j
    >> reject_reused_tx (λ x. x.funded_tx) tx_hash desk
    >> verify_transfer node canonical_chain tx_hash (some j.buyer_addr) j.escrow_addr j.budget_micro
        none
    >>= λ block.
        unique_tx (λ x. x.funded_tx) tx_hash desk
        >> advance j s (budget_set ∷ []) funded (set_funded at tx_hash block) job_funded desk

abbrev pub set_submitted : Desktop → Text → CommissionJob → CommissionJob
set_submitted at deliverable x = record x {
  deliverable = some deliverable;
  submitted_at = some at.now;
}

unfoldable pub submit_core : Desktop → Text → ℕ → Text → Desk → Result EscrowError Desk
submit_core at provider k deliverable desk = get_job k desk >>= λ j. store_of j desk >>= λ s.
    require_party provider (some s.pay_to)
    >> require_status (funded ∷ []) j
    >> screen_or_raise at deliverable
    >> advance j s (funded ∷ []) submitted (set_submitted at deliverable) job_submitted desk

-- Who may release: the evaluator of a job that has one, else the buyer.
unfoldable pub releaser : CommissionJob → Option Text → Text
releaser j none = j.buyer_addr
releaser j (some []) = j.buyer_addr
releaser j (some (c ∷ cs)) = c ∷ cs

abbrev pub set_completed : Desktop → Text → CommissionJob → CommissionJob
set_completed at tx_hash x = record x { released_tx = some tx_hash; completed_at = some at.now }

unfoldable pub release_core : Desktop → Node → Text → ℕ → Text → Desk → Result EscrowError Desk
release_core at node caller k tx_hash desk = get_job k desk >>= λ j. store_of j desk >>= λ s.
    require_party caller (some (releaser j j.evaluator_addr))
    >> require_status (submitted ∷ []) j
    >> reject_reused_tx (λ x. x.released_tx) tx_hash desk
    >> verify_transfer node canonical_chain tx_hash j.escrow_addr (some s.pay_to) j.budget_micro
        j.funded_block
    >>= λ block.
        unique_tx (λ x. x.released_tx) tx_hash desk
        >> advance j s (submitted ∷ []) completed (set_completed at tx_hash) job_completed desk

unfoldable pub cancel_core : Text → ℕ → Desk → Result EscrowError Desk
cancel_core buyer k desk = get_job k desk >>= λ j. store_of j desk >>= λ s.
    require_party buyer (some j.buyer_addr)
    >> require_status (job_open ∷ budget_set ∷ []) j
    >> advance j s (job_open ∷ budget_set ∷ []) cancelled (λ x. x) job_cancelled desk

unfoldable pub dispute_core : Text → ℕ → Desk → Result EscrowError Desk
dispute_core caller k desk = get_job k desk >>= λ j. store_of j desk >>= λ s.
    raise_if (not (is_party caller (some j.buyer_addr) || is_party caller (some s.pay_to)))
      wrong_party
    >> require_status (funded ∷ submitted ∷ []) j
    >> advance j s (funded ∷ submitted ∷ []) disputed (λ x. x) job_disputed desk

-- The parties who see a job; `_get_core` answers "not found" to the others.
is_evaluator : Text → Option Text → Bool
is_evaluator caller none = false
is_evaluator caller (some []) = false
is_evaluator caller (some (c ∷ cs)) = is_party caller (some (c ∷ cs))

unfoldable pub get_core : Text → ℕ → Desk → Result EscrowError CommissionJob
unfolding is_evaluator
get_core caller k desk = get_job k desk >>= λ j. store_of j desk >>= λ s.
    raise_if
      (not (
        is_party caller (some j.buyer_addr)
        || (is_party caller (some s.pay_to) || is_evaluator caller j.evaluator_addr)))
      job_not_found
    >> ok j
