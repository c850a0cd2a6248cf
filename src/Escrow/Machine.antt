-- ===== src/Escrow/Machine.antt =====
-- The life of a commissioned job: the diagram at the head of app/escrow.py.
use tilla.Escrow.{
  JobStatus, job_open, budget_set, funded, submitted, completed, cancelled, disputed,
}

infix 40 ◌⟶◌ ◌⟶*◌
pub data ◌⟶◌ : JobStatus → JobStatus → Type 0 where
  agrees : job_open ⟶ budget_set
  deposits : budget_set ⟶ funded
  hands_in : funded ⟶ submitted
  pays_out : submitted ⟶ completed
  cancels_open : job_open ⟶ cancelled
  cancels_budget : budget_set ⟶ cancelled
  disputes_funded : funded ⟶ disputed
  disputes_submitted : submitted ⟶ disputed

pub data ◌⟶*◌ : JobStatus → JobStatus → Type 0 where
  here : {s : JobStatus} → s ⟶* s
  along : {s t u : JobStatus} → s ⟶ t → t ⟶* u → s ⟶* u

pub ruleset job_edges = (
  agrees, deposits, hands_in, pays_out, cancels_open, cancels_budget, disputes_funded,
  disputes_submitted,
)

pub path_trans : {s t u : JobStatus} → s ⟶* t → t ⟶* u → s ⟶* u
path_trans here q = q
path_trans (along e p) q = along e (path_trans p q)
