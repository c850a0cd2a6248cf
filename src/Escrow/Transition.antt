-- ===== src/Escrow/Transition.antt =====
-- The conditional status UPDATE of app/escrow.py, with the UNIQUE constraints that it meets.
use tilla.Base.{ℕ, Bool, ◌&&◌, List, ◌==◌}
use tilla.Base.Rows.{update, rowcount}
use tilla.Escrow.{JobStatus, CommissionJob, job_in}

-- The WHERE clause of `transition`.
abbrev pub job_awaits : ℕ → List JobStatus → CommissionJob → Bool
job_awaits k from_states j = (j.id == k) && job_in j.status from_states

abbrev pub job_moved : JobStatus → (CommissionJob → CommissionJob) → CommissionJob → CommissionJob
job_moved to_state fields j = record (fields j) { status = to_state }

-- The table after the UPDATE, and whether exactly one row moved.
unfoldable pub transition_job :
    ℕ
    → List JobStatus
    → JobStatus
    → (CommissionJob → CommissionJob)
    → List CommissionJob
    → List CommissionJob × Bool
transition_job k from_states to_state fields jobs =
    let where_ = job_awaits k from_states in
    (update where_ (job_moved to_state fields) jobs, rowcount where_ jobs == 1)
