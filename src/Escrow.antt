-- ===== src/Escrow.antt =====
-- app/escrow.py: commissioned jobs. The parties move the money; the code verifies each transfer
-- and records its hash. This file has the rows, the errors and the guards that the requests share.
pub mod Transition
pub mod Transfer
pub mod Cores
pub mod Routes
pub mod Machine
pub mod Sound
pub mod Keeps
pub mod Changes
pub mod Ends
pub mod Handlers
pub mod Safe
pub mod History
pub mod Pays
pub mod Releases
use tilla.Base.{
  ℕ, Bool, true, false, not, ◌||◌, Option, none, some, List, ◌∷◌, [], ◌++◌, ◌==◌, any, is_some,
  if◌then◌else◌, Result, ok, err, raise_if, or_raise, ◌>>=◌,
}
use tilla.Base.Text.{Text, text_eq, opt_text_eq, lower}
use tilla.Base.Rows.{find}
use tilla.Base.Keyed.{get}
use tilla.Models.{Store, StoreStatus, live, pending_screening, blocked}

pub data JobStatus : Type 0 where
  job_open budget_set funded submitted completed cancelled disputed : JobStatus

job_code : JobStatus → ℕ
job_code job_open = 0
job_code budget_set = 1
job_code funded = 2
job_code submitted = 3
job_code completed = 4
job_code cancelled = 5
job_code disputed = 6

-- `status == other`
unfoldable pub job_eq : JobStatus → JobStatus → Bool
unfolding job_code
job_eq s t = job_code s == job_code t

-- `status in states`
abbrev pub job_in : JobStatus → List JobStatus → Bool
job_in s = any (job_eq s)

pub record CommissionJob : Type 0 where
  pub id : ℕ
  pub buyer_addr : Text
  pub store_id : ℕ
  pub title : Text
  pub brief : Text
  pub budget_micro : Option ℕ
  pub escrow_addr : Option Text
  pub evaluator_addr : Option Text
  pub status : JobStatus
  pub funded_tx : Option Text
  pub funded_block : Option ℕ
  pub released_tx : Option Text
  pub deliverable : Option Text
  pub created_at : ℕ
  pub funded_at : Option ℕ
  pub submitted_at : Option ℕ
  pub completed_at : Option ℕ

pub data JobEvent : Type 0 where
  job_created job_budget_set job_funded job_submitted job_completed job_cancelled job_disputed :
      JobEvent

pub record JobLog : Type 0 where
  pub event : JobEvent
  pub store_id : ℕ
  pub job : ℕ

-- The tables that the requests read and write.
pub record Desk : Type 0 where
  pub stores : List Store
  pub jobs : List CommissionJob
  pub events : List JobLog

-- The HTTP errors of the file, and the exceptions that no handler catches (the last four).
pub data EscrowError : Type 0 where
  job_not_found store_not_found store_not_live wrong_party wrong_status lost_race tx_reused
        tx_recorded tx_not_found tx_failed predates_deposit no_transfer wrong_amount unsafe_content
        screening_down chain_down not_enabled no_signing_key session_expired invalid_session
        invalid_json not_an_object bad_address bad_tx bad_text bad_slug bad_budget no_address
        unreadable no_store duplicate_id :
      EscrowError

-- The verdict of `screen` on a text.
pub data Verdict : Type 0 where
  allow block unavailable : Verdict

-- What a request draws from outside: the clock, a fresh id, and the screening service.
pub record Desktop : Type 0 where
  pub now : ℕ
  pub fresh_id : ℕ
  pub screen : Text → Verdict

screened : Verdict → Result EscrowError (Unit {0})
screened allow = ok tt
screened block = err unsafe_content
screened unavailable = err screening_down

unfoldable pub screen_or_raise : Desktop → Text → Result EscrowError (Unit {0})
unfolding screened
screen_or_raise at text = screened (at.screen text)

-- `(required or "").lower()`
abbrev pub lower_or_empty : Option Text → Text
lower_or_empty none = lower []
lower_or_empty (some t) = lower t

abbrev pub is_party : Text → Option Text → Bool
is_party caller required = text_eq (lower caller) (lower_or_empty required)

unfoldable pub require_party : Text → Option Text → Result EscrowError (Unit {0})
require_party caller required = raise_if (not (is_party caller required)) wrong_party

abbrev pub job_id : CommissionJob → ℕ
job_id j = j.id

unfoldable pub get_job : ℕ → Desk → Result EscrowError CommissionJob
get_job k desk = or_raise (get job_id k desk.jobs) job_not_found

-- `session.get(Store, job.store_id)`: `store_id` is a foreign key, so the row is there.
unfoldable pub store_of : CommissionJob → Desk → Result EscrowError Store
store_of j desk = or_raise (get (λ (s : Store). s.id) j.store_id desk.stores) no_store

require_live : Store → StoreStatus → Result EscrowError Store
require_live s live = ok s
require_live s pending_screening = err store_not_live
require_live s blocked = err store_not_found

unfoldable pub require_live_store : Text → Desk → Result EscrowError Store
unfolding require_live
require_live_store slug desk =
    or_raise (find (λ s. text_eq s.slug slug) desk.stores) store_not_found >>= λ s.
    require_live s s.status

abbrev pub log_job : JobEvent → CommissionJob → Store → Desk → Desk
log_job e j s desk = record desk {
  events = desk.events ++ (record { event = e; store_id = s.id; job = j.id } ∷ []);
}

-- `select(CommissionJob.id).where(col == tx_hash)` finds a row.
abbrev pub is_used : (CommissionJob → Option Text) → Text → List CommissionJob → Bool
is_used column tx_hash jobs = is_some (find (λ j. opt_text_eq (column j) tx_hash) jobs)

unfoldable pub reject_reused_tx :
    (CommissionJob → Option Text) → Text → Desk → Result EscrowError (Unit {0})
reject_reused_tx column tx_hash desk = raise_if (is_used column tx_hash desk.jobs) tx_reused

-- The UNIQUE constraint on the column, which the UPDATE of a request meets (IntegrityError).
unfoldable pub unique_tx :
    (CommissionJob → Option Text) → Text → Desk → Result EscrowError (Unit {0})
unique_tx column tx_hash desk = raise_if (is_used column tx_hash desk.jobs) tx_recorded
