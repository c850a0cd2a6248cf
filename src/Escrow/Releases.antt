-- ===== src/Escrow/Releases.antt =====
-- Who may release a commissioned job of app/escrow.py, and what a release leaves.
use tilla.Base.{
  ℕ, ◌≡◌, ◌≢◌, refl, sym, ap, ◌∙◌, ◌⊎◌, inl, inr, true, not, Option, none, some, [], ◌∷◌, arith, ok,
  ok-injective, >>=-eq-ok, raise_if-eq-ok,
}
use tilla.Base.Text.{Text, lower, text_eq_sound}
use tilla.Base.Keyed.{get, IsUnique}
use tilla.Models.{Store}
use tilla.Payment.{canonical_chain}
use tilla.Checkout.Verify.{Node}
use tilla.Escrow.{
  JobStatus, CommissionJob, Desk, Desktop, job_id, job_in, get_job, store_of, is_party,
  require_party, is_used, reject_reused_tx, unique_tx, job_eq, job_open, budget_set, funded,
  submitted, completed, cancelled, disputed, job_completed,
}
use tilla.Escrow.Cores.{release_core, require_status, releaser, set_completed}
use tilla.Escrow.Handlers.{get_job-found}
use tilla.Escrow.Transfer.{verify_transfer}
use tilla.Escrow.Transfer.Sums.{Moved}
use tilla.Escrow.Transfer.Complete.{verify_transfer_iff}
use tilla.Escrow.Pays.{IsNew, advance_wins, unused-new}

-- The evaluator of a job that has one, else the buyer.
abbrev pub IsEntitled : Text → CommissionJob → Type 0
IsEntitled caller j =
    ((e : Text) × (j.evaluator_addr ≡ some e) × (e ≢ []) × (lower caller ≡ lower e))
    ⊎ (((j.evaluator_addr ≡ none) ⊎ (j.evaluator_addr ≡ some []))
        × (lower caller ≡ lower j.buyer_addr))

releaser-IsEntitled :
    (caller : Text) (j : CommissionJob) (evaluator : Option Text)
    → j.evaluator_addr ≡ evaluator
    → lower caller ≡ lower (releaser j evaluator)
    → IsEntitled caller j
unfolding releaser
releaser-IsEntitled caller j none e h = inr (inl e, h)
releaser-IsEntitled caller j (some []) e h = inr (inr e, h)
releaser-IsEntitled caller j (some (c ∷ cs)) e h = inl (c ∷ cs, e, (λ n. absurd (cc n)), h)

-- A release: who asked, for what job, what the node showed, and the row after it.
pub record Released (at : Desktop) (node : Node) (caller : Text) (k : ℕ) (tx : Text)
    (desk desk' : Desk) : Type 0 where
  pub job : CommissionJob
  pub found : get_job k desk ≡ ok job
  pub entitled : IsEntitled caller job
  pub handed_in : job.status ≡ submitted
  pub unused : IsNew (λ x. x.released_tx) tx desk
  pub store : Store
  pub known : store_of job desk ≡ ok store
  pub block : Option ℕ
  pub moved :
      Moved node canonical_chain tx job.escrow_addr
        (some store.pay_to)
        job.budget_micro
        job.funded_block
        block
  pub row :
      get job_id job.id desk'.jobs
      ≡ some (record job { status = completed; released_tx = some tx; completed_at = some at.now })

is_submitted : (s : JobStatus) → job_in s (submitted ∷ []) ≡ true → s ≡ submitted
unfolding job_eq
is_submitted job_open h = absurd (cc h)
is_submitted budget_set h = absurd (cc h)
is_submitted funded h = absurd (cc h)
is_submitted submitted h = refl
is_submitted completed h = absurd (cc h)
is_submitted cancelled h = absurd (cc h)
is_submitted disputed h = absurd (cc h)

-- An accepted release was asked for by the evaluator of a job that has one, else by the buyer, for
-- a submitted job and with a new hash, whose transaction moved exactly the budget from the escrow
-- to the store, no earlier than the deposit; the job is then completed, with the hash and the time,
-- and is otherwise as it was.
pub release_core-Released :
    (at : Desktop) (node : Node) (caller : Text) (k : ℕ) (tx : Text) (desk desk' : Desk)
    → IsUnique job_id desk.jobs
    → release_core at node caller k tx desk ≡ ok desk'
    → Released at node caller k tx desk desk'
unfolding release_core require_party require_status reject_reused_tx
release_core-Released at node caller k tx desk desk' u h =
    let (j, got, h₁) = >>=-eq-ok (get_job k desk) _ h in
    let (s, known, h₂) = >>=-eq-ok (store_of j desk) _ h₁ in
    let (party, h₃) =
      raise_if-eq-ok (not (is_party caller (some (releaser j j.evaluator_addr)))) _ _ h₂ in
    let (in_state, h₄) = raise_if-eq-ok (not (job_in j.status (submitted ∷ []))) _ _ h₃ in
    let (new, h₅) = raise_if-eq-ok (is_used (λ x. x.released_tx) tx desk.jobs) _ _ h₄ in
    let (block, verified, h₆) =
      >>=-eq-ok
        (verify_transfer node canonical_chain tx j.escrow_addr (some s.pay_to) j.budget_micro
          j.funded_block)
        _ h₅ in
    let (_, _, h₇) = >>=-eq-ok (unique_tx (λ x. x.released_tx) tx desk) _ h₆ in
    let (end, done, row) =
      advance_wins j s (submitted ∷ []) completed (set_completed at tx) job_completed desk
        (λ x. refl) u (get_job-found k desk j got) (ground arith) in
    let same : end ≡ desk' = ok-injective _ _ (sym done ∙ h₇) in
    record {
      job = j;
      found = got;
      entitled =
          releaser-IsEntitled caller j j.evaluator_addr refl (text_eq_sound _ _ (ground arith));
      handed_in = is_submitted j.status (ground arith);
      unused = unused-new (λ x. x.released_tx) tx desk.jobs new;
      store = s;
      known = known;
      block = block;
      moved =
          (verify_transfer_iff node canonical_chain tx j.escrow_addr (some s.pay_to) j.budget_micro
              j.funded_block block).0
            verified;
      row = ap (λ (d : Desk). get job_id j.id d.jobs) (sym same) ∙ row;
    }
