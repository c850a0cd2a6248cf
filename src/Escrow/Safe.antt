-- ===== src/Escrow/Safe.antt =====
-- The version of a job that a request leaves behind, and the request that adds one.
use tilla.Base.{
  ℕ, ◌≡◌, refl, ◌≢◌, sym, ap, ◌∙◌, subst, true, Option, none, some, List, [], ◌∷◌, ◌++◌, arith,
  ◌==◌, Bool-cases, inl, inr, All, All-append, All-intro, All-mono, ltb, ◌||◌, Pairs,
  Pairs-append_one, is_some, ok, ok-injective, >>=-eq-ok, Option-cases,
}
use tilla.Base.Text.{Text}
use tilla.Base.Rows.{find-none}
use tilla.Base.Json.{Json, int, pos}
use tilla.Base.Keyed.{get, get-append, IsUnique}
use tilla.Base.Zip.{get-Zip}
use tilla.Checkout.Verify.{Node}
use tilla.Escrow.{CommissionJob, Desk, Desktop, job_id, require_live_store, screen_or_raise}
use tilla.Escrow.Cores.{create_core, new_job, insert_job}
use tilla.Escrow.Routes.{require_budget, max_budget_micro}
use tilla.Escrow.Sound.{Sound, IsFit, stage, Evidence, Apart, Progress, Progress-refl, is_budget}
use tilla.Escrow.Keeps.{Keeps}

-- The job is still there, further along.
pub record Persists (k : ℕ) (x : CommissionJob) (desk : Desk) : Type 0 where
  pub row : CommissionJob
  pub found : get job_id k desk.jobs ≡ some row
  pub progress : Progress x row

pub record Safe (Answers : Node → Type 0) (a b : Desk) : Type 0 where
  pub sound : Sound Answers b
  pub persists : (k : ℕ) (x : CommissionJob) → get job_id k a.jobs ≡ some x → Persists k x b

pub Keeps-Safe : (Answers : Node → Type 0) (a b : Desk) → Keeps Answers a b → Safe Answers a b
Keeps-Safe Answers a b keeps = record {
  sound = keeps.sound;
  persists = λ k x found.
      let (y, there, p) =
        get-Zip job_id Progress (λ u v q. q.same_id) k a.jobs b.jobs x keeps.progress found in
      record { row = y; found = there; progress = p };
}

pub present {ℓ} : {A : Type ℓ} (o : Option A) → is_some o ≡ true → (a : A) × (o ≡ some a)
present none h = absurd (cc)
present (some a) h = (a, refl)

pub budget_range : (value : Json) (n : ℕ) → require_budget value ≡ ok n → is_budget (some n) ≡ true
unfolding require_budget
budget_range (int (pos m)) n h = elim (Bool-cases ((m == 0) || ltb max_budget_micro m)) [
  | inl off ↦ absurd (cc (rw off at h))
  | inr on ↦ let e = ok-injective _ _ (rw on at h) in ground arith
]
budget_range _ n h = absurd (cc)

ids_differ :
    (n : ℕ) (jobs : List CommissionJob) → get job_id n jobs ≡ none → All (λ x. x.id ≢ n) jobs
unfolding get
ids_differ n jobs h =
    All-mono _ _ (λ x off e. ground arith) jobs (find-none (λ x. x.id == n) jobs h)

-- A job with nothing agreed joins the table.
insert-Safe :
    (Answers : Node → Type 0) (desk desk' : Desk) (j : CommissionJob)
    → Sound Answers desk
    → IsFit j
    → j.funded_tx ≡ none
    → j.released_tx ≡ none
    → desk'.jobs ≡ desk.jobs ++ (j ∷ [])
    → desk'.stores ≡ desk.stores
    → get job_id j.id desk.jobs ≡ none
    → Safe Answers desk desk'
insert-Safe Answers desk desk' j sound fit unfunded unreleased added stores new = record {
  sound = record {
    unique =
        subst (IsUnique job_id) (sym added)
          (Pairs-append_one _ desk.jobs j sound.unique (ids_differ j.id desk.jobs new));
    fit = subst (All IsFit) (sym added) (All-append IsFit desk.jobs (j ∷ []) sound.fit (fit, tt));
    deposits = subst (Pairs (Apart λ x. x.funded_tx)) (sym added) (
        Pairs-append_one _ desk.jobs j sound.deposits
          (All-intro _ (λ x t h h'. absurd (cc (unfunded, h'))) desk.jobs));
    releases = subst (Pairs (Apart λ x. x.released_tx)) (sym added) (
        Pairs-append_one _ desk.jobs j sound.releases
          (All-intro _ (λ x t h h'. absurd (cc (unreleased, h'))) desk.jobs));
    evidence =
        subst (λ ss. All (Evidence Answers ss) desk'.jobs) (sym stores)
          (subst (All (Evidence Answers desk.stores)) (sym added) (
            All-append _ desk.jobs (j ∷ []) sound.evidence (
              record {
                deposit = λ t e. absurd (cc (unfunded, e));
                release = λ t e. absurd (cc (unreleased, e));
              },
              tt,
            )));
  };
  persists = λ k x found. record {
    row = x;
    found = ap (get job_id k) added ∙ get-append job_id k desk.jobs (j ∷ []) ∙ rw found refl;
    progress = Progress-refl x;
  };
}

record Inserted (j : CommissionJob) (desk after : Desk) : Type 0 where
  new : get job_id j.id desk.jobs ≡ none
  jobs : after.jobs ≡ desk.jobs ++ (j ∷ [])
  stores : after.stores ≡ desk.stores

insert_job-Inserted :
    (j : CommissionJob) (desk after : Desk) → insert_job j desk ≡ ok after → Inserted j desk after
unfolding insert_job
insert_job-Inserted j desk after h = elim (Option-cases (get job_id j.id desk.jobs)) [
  | inl e ↦
      subst (Inserted j desk) (ok-injective _ _ (rw e at h))
        (record { new = e; jobs = refl; stores = refl })
  | inr (x, e) ↦ absurd (cc (rw e at h))
]

module _ (Answers : Node → Type 0) (desk desk' : Desk) (sound : Sound Answers desk) where
  pub create-Safe :
      (at : Desktop) (buyer slug title brief : Text) (evaluator : Option Text)
      → create_core at buyer slug title brief evaluator desk ≡ ok desk'
      → Safe Answers desk desk'
  unfolding create_core new_job stage
  create-Safe at buyer slug title brief evaluator h =
      let (s, _, h₁) = >>=-eq-ok (require_live_store slug desk) _ h in
      let (_, _, h₂) = >>=-eq-ok (screen_or_raise at _) _ h₁ in
      let j = new_job at buyer s title brief evaluator in
      let (after, inserted, h₃) = >>=-eq-ok (insert_job j desk) _ h₂ in
      let i = insert_job-Inserted j desk after inserted in
      subst (Safe Answers desk) (ok-injective _ _ h₃)
        (insert-Safe Answers desk _ j sound refl refl refl i.jobs i.stores i.new)
