-- ===== src/Escrow/Changes.antt =====
-- The rows that the handlers of app/escrow.py write are fit and backed by evidence.
use tilla.Base.{
  ℕ, ◌≡◌, refl, ◌≢◌, ◌⊎◌, sym, ap, subst, true, false, Option, none, some, List, [], ◌∷◌, arith,
  inl, inr, All, All-mono, is_some,
}
use tilla.Base.Text.{Text, opt_text_eq, text_eq_refl}
use tilla.Base.Rows.{find-none}
use tilla.Payment.{canonical_chain}
use tilla.Checkout.Verify.{Node}
use tilla.Escrow.Transfer.Sums.{Moved, Moved-block}
use tilla.Escrow.{
  JobStatus, CommissionJob, Desk, job_in, job_eq, job_code, is_used, job_open, budget_set, funded,
  submitted, completed, cancelled, disputed,
}
use tilla.Escrow.Machine.{◌⟶◌, ◌⟶*◌, here, along, agrees, deposits, hands_in}
use tilla.Escrow.Sound.{Sound, IsFit, stage, Evidence, is_budget}
use tilla.Escrow.Keeps.{Change, unchanged, new_hash}

pub absent {ℓ} : {A : Type ℓ} (o : Option A) → is_some o ≡ false → o ≡ none
absent none h = refl
absent (some a) h = absurd (cc)

-- A text that the pre-check lets through is in no row.
pub reused_none :
    (column : CommissionJob → Option Text) (t : Text) (jobs : List CommissionJob)
    → is_used column t jobs ≡ false
    → All (λ y. column y ≢ some t) jobs
reused_none column t jobs h =
    All-mono _ _ (λ y off e. unequal (column y) off e) jobs
      (find-none (λ y. opt_text_eq (column y) t) jobs (absent _ h))
  where
    unequal : (o : Option Text) → opt_text_eq o t ≡ false → o ≢ some t
    unequal o off e = absurd (cc (text_eq_refl t, ap (λ x. opt_text_eq x t) e))

pub early_cases :
    (s : JobStatus)
    → job_in s (job_open ∷ budget_set ∷ []) ≡ true
    → (s ≡ job_open) ⊎ (s ≡ budget_set)
unfolding job_eq job_code
early_cases job_open h = inl refl
early_cases budget_set h = inr refl
early_cases funded h = absurd (ground arith)
early_cases submitted h = absurd (ground arith)
early_cases completed h = absurd (ground arith)
early_cases cancelled h = absurd (ground arith)
early_cases disputed h = absurd (ground arith)

pub running_cases :
    (s : JobStatus) → job_in s (funded ∷ submitted ∷ []) ≡ true → (s ≡ funded) ⊎ (s ≡ submitted)
unfolding job_eq job_code
running_cases job_open h = absurd (ground arith)
running_cases budget_set h = absurd (ground arith)
running_cases funded h = inl refl
running_cases submitted h = inr refl
running_cases completed h = absurd (ground arith)
running_cases cancelled h = absurd (ground arith)
running_cases disputed h = absurd (ground arith)

module _ (Answers : Node → Type 0) (desk : Desk) (j : CommissionJob) (sound : Sound Answers desk)
    (fit : IsFit j) (proof : Evidence Answers desk.stores j) where
  pub standing : (s : JobStatus) → j.status ≡ s → stage s j ≡ true
  standing s e = subst (λ v. stage v j ≡ true) e fit

  pub moved_path : (s t : JobStatus) → j.status ≡ s → s ⟶ t → j.status ⟶* t
  moved_path s t e edge = subst (λ v. v ⟶* t) (sym e) (along edge here)

  abbrev budgeted : ℕ → Text → CommissionJob
  budgeted n escrow = record j {
    budget_micro = some n;
    escrow_addr = some escrow;
    status = budget_set;
  }

  pub budget-Change :
      (n : ℕ) (escrow : Text)
      → is_budget (some n) ≡ true
      → j.status ≡ job_open
      → Change Answers desk j (budgeted n escrow)
  unfolding stage
  budget-Change n escrow range is_open =
      let old = standing job_open is_open in
      record {
        progress = record {
          same_id = refl;
          same_buyer = refl;
          same_store = refl;
          same_evaluator = refl;
          path = moved_path job_open budget_set is_open agrees;
          budget = inl (absent j.budget_micro (ground arith));
          escrow = inl (absent j.escrow_addr (ground arith));
          deposit = inr refl;
          depth = inr refl;
          release = inr refl;
        };
        fit = ground arith;
        deposit = unchanged refl;
        release = unchanged refl;
        evidence = record {
          deposit = λ tx e. absurd (ground arith);
          release = λ tx e. absurd (ground arith);
        };
      }

  abbrev paid_in : Text → Option ℕ → Option ℕ → CommissionJob
  paid_in tx block at = record j {
    funded_tx = some tx;
    funded_block = block;
    funded_at = at;
    status = funded;
  }

  pub fund-Change :
      (node : Node) (tx : Text) (block at : Option ℕ)
      → Answers node
      → j.status ≡ budget_set
      → All (λ y. y.funded_tx ≢ some tx) desk.jobs
      → Moved node canonical_chain tx (some j.buyer_addr) j.escrow_addr j.budget_micro none block
      → Change Answers desk j (paid_in tx block at)
  unfolding stage
  fund-Change node tx block at asked is_agreed unused moved =
      let old = standing budget_set is_agreed in
      let deep = Moved-block _ _ _ _ _ _ _ _ moved in
      record {
        progress = record {
          same_id = refl;
          same_buyer = refl;
          same_store = refl;
          same_evaluator = refl;
          path = moved_path budget_set funded is_agreed deposits;
          budget = inr refl;
          escrow = inr refl;
          deposit = inl (absent j.funded_tx (ground arith));
          depth = inl (absent j.funded_block (ground arith));
          release = inr refl;
        };
        fit = ground arith;
        deposit = new_hash tx refl unused;
        release = unchanged refl;
        evidence = record {
          deposit = λ t e. record {
            node = node;
            asked = asked;
            moved =
                subst
                  (λ v.
                    Moved node canonical_chain v (some j.buyer_addr) j.escrow_addr j.budget_micro
                      none block)
                  (cc e) moved;
          };
          release = λ t e. absurd (ground arith);
        };
      }

  abbrev handed_in : Text → Option ℕ → CommissionJob
  handed_in text at = record j { deliverable = some text; submitted_at = at; status = submitted }

  pub submit-Change :
      (text : Text) (at : Option ℕ) → j.status ≡ funded → Change Answers desk j (handed_in text at)
  unfolding stage
  submit-Change text at is_funded =
      let old = standing funded is_funded in
      record {
        progress = record {
          same_id = refl;
          same_buyer = refl;
          same_store = refl;
          same_evaluator = refl;
          path = moved_path funded submitted is_funded hands_in;
          budget = inr refl;
          escrow = inr refl;
          deposit = inr refl;
          depth = inr refl;
          release = inr refl;
        };
        fit = ground arith;
        deposit = unchanged refl;
        release = unchanged refl;
        evidence = record {
          deposit = λ t e.
              let d = proof.deposit t e in
              record { node = d.node; asked = d.asked; moved = d.moved };
          release = λ t e. absurd (ground arith);
        };
      }
