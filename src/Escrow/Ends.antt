-- ===== src/Escrow/Ends.antt =====
-- The same for the handlers that end a job.
use tilla.Base.{
  ℕ, ◌≡◌, refl, ◌≢◌, ap, subst, true, false, Option, some, [], ◌∷◌, arith, inl, inr, All, is_some,
}
use tilla.Base.Text.{Text}
use tilla.Base.Keyed.{get}
use tilla.Models.{Store}
use tilla.Payment.{canonical_chain}
use tilla.Checkout.Verify.{Node}
use tilla.Escrow.Transfer.Sums.{Moved}
use tilla.Escrow.{
  JobStatus, CommissionJob, Desk, job_in, job_open, budget_set, funded, submitted, completed,
  cancelled, disputed,
}
use tilla.Escrow.Machine.{
  ◌⟶*◌, pays_out, cancels_open, cancels_budget, disputes_funded, disputes_submitted,
}
use tilla.Escrow.Sound.{Sound, IsFit, stage, Evidence, store_key}
use tilla.Escrow.Keeps.{Change, unchanged, new_hash}
use tilla.Escrow.Changes.{absent, early_cases, running_cases, standing, moved_path}

module _ (Answers : Node → Type 0) (desk : Desk) (j : CommissionJob) (sound : Sound Answers desk)
    (fit : IsFit j) (proof : Evidence Answers desk.stores j) where
  abbrev paid_out : Text → Option ℕ → CommissionJob
  paid_out tx at = record j { released_tx = some tx; completed_at = at; status = completed }

  pub release-Change :
      (node : Node) (store : Store) (tx : Text) (block at : Option ℕ)
      → Answers node
      → j.status ≡ submitted
      → get store_key j.store_id desk.stores ≡ some store
      → All (λ y. y.released_tx ≢ some tx) desk.jobs
      → Moved node canonical_chain tx j.escrow_addr
          (some store.pay_to)
          j.budget_micro
          j.funded_block
          block
      → Change Answers desk j (paid_out tx at)
  unfolding stage
  release-Change node store tx block at asked is_submitted known unused moved =
      let old = standing Answers desk j sound fit proof submitted is_submitted in
      record {
        progress = record {
          same_id = refl;
          same_buyer = refl;
          same_store = refl;
          same_evaluator = refl;
          path =
              moved_path Answers desk j sound fit proof submitted completed is_submitted pays_out;
          budget = inr refl;
          escrow = inr refl;
          deposit = inr refl;
          depth = inr refl;
          release = inl (absent j.released_tx (ground arith));
        };
        fit = ground arith;
        deposit = unchanged refl;
        release = new_hash tx refl unused;
        evidence = record {
          deposit = λ t e.
              let d = proof.deposit t e in
              record { node = d.node; asked = d.asked; moved = d.moved };
          release = λ t e. record {
            node = node;
            asked = asked;
            store = store;
            known = known;
            block = block;
            moved =
                subst
                  (λ v.
                    Moved node canonical_chain v j.escrow_addr (some store.pay_to) j.budget_micro
                      j.funded_block block)
                  (cc e) moved;
          };
        };
      }

  -- A request that only ends the job.
  end-Change :
      (t : JobStatus)
      → j.status ⟶* t
      → stage t (record j { status = t }) ≡ true
      → is_some j.released_tx ≡ false
      → Change Answers desk j (record j { status = t })
  end-Change t path fits unreleased = record {
    progress = record {
      same_id = refl;
      same_buyer = refl;
      same_store = refl;
      same_evaluator = refl;
      path = path;
      budget = inr refl;
      escrow = inr refl;
      deposit = inr refl;
      depth = inr refl;
      release = inr refl;
    };
    fit = fits;
    deposit = unchanged refl;
    release = unchanged refl;
    evidence = record {
      deposit = λ tx e.
          let d = proof.deposit tx e in record { node = d.node; asked = d.asked; moved = d.moved };
      release = λ tx e. absurd (cc (unreleased, ap is_some e));
    };
  }

  pub cancel-Change :
      job_in j.status (job_open ∷ budget_set ∷ []) ≡ true
      → Change Answers desk j (record j { status = cancelled })
  unfolding stage
  cancel-Change early = elim (early_cases j.status early) [
    | inl e ↦
        let old = standing Answers desk j sound fit proof job_open e in
        end-Change cancelled
          (moved_path Answers desk j sound fit proof job_open cancelled e cancels_open)
          (ground arith) (ground arith)
    | inr e ↦
        let old = standing Answers desk j sound fit proof budget_set e in
        end-Change cancelled
          (moved_path Answers desk j sound fit proof budget_set cancelled e cancels_budget)
          (ground arith) (ground arith)
  ]

  pub dispute-Change :
      job_in j.status (funded ∷ submitted ∷ []) ≡ true
      → Change Answers desk j (record j { status = disputed })
  unfolding stage
  dispute-Change running = elim (running_cases j.status running) [
    | inl e ↦
        let old = standing Answers desk j sound fit proof funded e in
        end-Change disputed
          (moved_path Answers desk j sound fit proof funded disputed e disputes_funded)
          (ground arith) (ground arith)
    | inr e ↦
        let old = standing Answers desk j sound fit proof submitted e in
        end-Change disputed
          (moved_path Answers desk j sound fit proof submitted disputed e disputes_submitted)
          (ground arith) (ground arith)
  ]
