-- ===== src/Escrow/History.antt =====
-- The routes of app/escrow.py as steps on the job table, in any order and by any callers. A request
-- that is refused leaves the tables as they were and is no step.
use tilla.Base.{
  ℕ, ◌≡◌, sym, subst, true, some, List, [], arith, All, not, Pairs, ok, >>=-eq-ok, raise_if-eq-ok,
}
use tilla.Base.Text.{Text}
use tilla.Base.Keyed.{get, get-All, IsUnique}
use tilla.Models.{Store}
use tilla.Checkout.Verify.{Node}
use tilla.Escrow.{CommissionJob, Desk, Desktop, job_id, completed}
use tilla.Escrow.Routes.{
  Route, Call, serve, create, budget, fund, submit, release, cancel, dispute, require_budget,
  session_wallet, parse_json, require_addr, require_tx, require_text, require_slug, optional_addr,
  max_description_len, run_route, run_create, run_budget,
}
use tilla.Escrow.Sound.{
  Sound, IsFit, stage, Evidence, Deposit, Release, Apart, Progress-refl, Progress-trans,
}
use tilla.Escrow.Handlers.{
  budget_core-Keeps, fund_core-Keeps, submit_core-Keeps, release_core-Keeps, cancel_core-Keeps,
  dispute_core-Keeps,
}
use tilla.Escrow.Safe.{Persists, Safe, Keeps-Safe, budget_range, present, create-Safe}

-- `Answers` holds of the nodes that the service asks.
module _ (Answers : Node → Type 0) where
  infix 40 ◌⇒◌ ◌⇒*◌
  pub data ◌⇒◌ : Desk → Desk → Type 0 where
    serves :
        {desk desk' : Desk} (at : Desktop) (node : Node) (route : Route) (call : Call)
        → Answers node
        → serve at node route call desk ≡ ok desk'
        → desk ⇒ desk'

  pub data ◌⇒*◌ : Desk → Desk → Type 0 where
    start : {a : Desk} → a ⇒* a
    step : {a b c : Desk} → a ⇒ b → b ⇒* c → a ⇒* c

module _ (Answers : Node → Type 0) (desk desk' : Desk) (sound : Sound Answers desk) where
  route-Safe :
      (at : Desktop) (node : Node) (caller : Text) (route : Route) (call : Call)
      → Answers node
      → run_route at node caller route call desk ≡ ok desk'
      → Safe Answers desk desk'
  unfolding run_route run_create run_budget
  route-Safe at node caller create call asked h =
      let (body, _, h₁) = >>=-eq-ok (parse_json call.body) _ h in
      let (slug, _, h₂) = >>=-eq-ok (require_slug _) _ h₁ in
      let (title, _, h₃) = >>=-eq-ok (require_text 200 _) _ h₂ in
      let (brief, _, h₄) = >>=-eq-ok (require_text max_description_len _) _ h₃ in
      let (evaluator, _, h₅) = >>=-eq-ok (optional_addr _) _ h₄ in
      create-Safe Answers desk desk' sound at caller slug title brief evaluator h₅
  route-Safe at node caller (budget k) call asked h =
      let (body, _, h₁) = >>=-eq-ok (parse_json call.body) _ h in
      let (n, range, h₂) = >>=-eq-ok (require_budget _) _ h₁ in
      let (escrow, _, h₃) = >>=-eq-ok (require_addr _) _ h₂ in
      Keeps-Safe Answers desk desk'
        (budget_core-Keeps Answers desk desk' sound caller k n escrow (budget_range _ n range) h₃)
  route-Safe at node caller (fund k) call asked h =
      let (body, _, h₁) = >>=-eq-ok (parse_json call.body) _ h in
      let (tx, _, h₂) = >>=-eq-ok (require_tx _) _ h₁ in
      Keeps-Safe Answers desk desk'
        (fund_core-Keeps Answers desk desk' sound at node caller k tx asked h₂)
  route-Safe at node caller (submit k) call asked h =
      let (body, _, h₁) = >>=-eq-ok (parse_json call.body) _ h in
      let (text, _, h₂) = >>=-eq-ok (require_text max_description_len _) _ h₁ in
      Keeps-Safe Answers desk desk' (submit_core-Keeps Answers desk desk' sound at caller k text h₂)
  route-Safe at node caller (release k) call asked h =
      let (body, _, h₁) = >>=-eq-ok (parse_json call.body) _ h in
      let (tx, _, h₂) = >>=-eq-ok (require_tx _) _ h₁ in
      Keeps-Safe Answers desk desk'
        (release_core-Keeps Answers desk desk' sound at node caller k tx asked h₂)
  route-Safe at node caller (cancel k) call asked h =
      Keeps-Safe Answers desk desk' (cancel_core-Keeps Answers desk desk' sound caller k h)
  route-Safe at node caller (dispute k) call asked h =
      Keeps-Safe Answers desk desk' (dispute_core-Keeps Answers desk desk' sound caller k h)

module _ (Answers : Node → Type 0) where
  step-Safe : {a b : Desk} → ◌⇒◌ Answers a b → Sound Answers a → Safe Answers a b
  unfolding serve
  step-Safe (serves {desk} {desk'} at node route call asked h) sound =
      let (_, h₁) = raise_if-eq-ok (not call.enabled) _ _ h in
      let (caller, _, h₂) = >>=-eq-ok (session_wallet call) _ h₁ in
      route-Safe Answers desk desk' sound at node caller route call asked h₂

  history-Safe : {a b : Desk} → ◌⇒*◌ Answers a b → Sound Answers a → Safe Answers a b
  history-Safe {a} start sound = record {
    sound = sound;
    persists = λ k x found. record { row = x; found = found; progress = Progress-refl x };
  }
  history-Safe (step first rest) sound =
      let before = step-Safe first sound in
      let after = history-Safe rest before.sound in
      record {
        sound = after.sound;
        persists = λ k x found.
            let p = before.persists k x found in
            let q = after.persists k p.row p.found in
            record {
              row = q.row;
              found = q.found;
              progress = Progress-trans x p.row q.row p.progress q.progress;
            };
      }

  fresh-Sound : (desk : Desk) → desk.jobs ≡ [] → Sound Answers desk
  fresh-Sound desk e = record {
    unique = subst (IsUnique job_id) (sym e) tt;
    fit = subst (All IsFit) (sym e) tt;
    deposits = subst (Pairs (Apart λ x. x.funded_tx)) (sym e) tt;
    releases = subst (Pairs (Apart λ x. x.released_tx)) (sym e) tt;
    evidence = subst (All (Evidence Answers desk.stores)) (sym e) tt;
  }

  -- Every history of requests on a table without jobs keeps the invariant: ids are unique, each job
  -- has filled exactly the columns of its status with a budget in range, no two jobs have one
  -- deposit hash and no two have one release hash, and each hash was shown by a node that was asked
  -- to move exactly the budget between the wallets of the job.
  pub jobs-Sound : (a b : Desk) → a.jobs ≡ [] → ◌⇒*◌ Answers a b → Sound Answers b
  jobs-Sound a b fresh h = (history-Safe h (fresh-Sound a fresh)).sound

  -- No history loses a job, changes its buyer, its store or its evaluator, alters a budget, an
  -- escrow wallet or a hash once written, or moves its status off the diagram.
  pub jobs_persist :
      (a b : Desk)
      → Sound Answers a
      → ◌⇒*◌ Answers a b
      → (k : ℕ) (x : CommissionJob) → get job_id k a.jobs ≡ some x
      → Persists k x b
  jobs_persist a b sound h k x found = (history-Safe h sound).persists k x found

  -- Both payments of a completed job.
  pub record BothPaid (stores : List Store) (j : CommissionJob) : Type 0 where
    pub deposit_tx : Text
    pub deposit_recorded : j.funded_tx ≡ some deposit_tx
    pub deposit : Deposit Answers j deposit_tx
    pub release_tx : Text
    pub release_recorded : j.released_tx ≡ some release_tx
    pub release : Release Answers stores j release_tx

  completed_both :
      (stores : List Store) (j : CommissionJob)
      → IsFit j
      → Evidence Answers stores j
      → j.status ≡ completed
      → BothPaid stores j
  unfolding stage
  completed_both stores j fit proof e =
      let full = subst (λ s. stage s j ≡ true) e fit in
      let (d, funded_by) = present j.funded_tx (ground arith) in
      let (r, released_by) = present j.released_tx (ground arith) in
      record {
        deposit_tx = d;
        deposit_recorded = funded_by;
        deposit = proof.deposit d funded_by;
        release_tx = r;
        release_recorded = released_by;
        release = proof.release r released_by;
      }

  -- A job that any history completed was paid twice on the chain, as some node that was asked
  -- showed: the budget from the buyer to the escrow, and the budget from the escrow to the store,
  -- the latter in no earlier block than the deposit.
  pub completed_paid :
      (a b : Desk)
      → a.jobs ≡ []
      → ◌⇒*◌ Answers a b
      → (k : ℕ) (j : CommissionJob) → get job_id k b.jobs ≡ some j
      → j.status ≡ completed
      → BothPaid b.stores j
  completed_paid a b fresh h k j found e =
      let sound = jobs-Sound a b fresh h in
      completed_both b.stores j (get-All job_id IsFit k b.jobs j found sound.fit)
        (get-All job_id (Evidence Answers b.stores) k b.jobs j found sound.evidence) e
