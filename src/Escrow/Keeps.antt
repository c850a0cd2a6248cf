-- ===== src/Escrow/Keeps.antt =====
-- The step that every handler of app/escrow.py ends with keeps the invariant of the job table, if
-- the row that it writes is fit.
use tilla.Base.{
  ℕ, ◌≡◌, refl, ◌≢◌, sym, ◌∙◌, subst, Bool, true, false, Option, some, List, [], ◌∷◌, arith,
  Bool-cases, inl, inr, All, Pairs, All-mono, All-both, ok, ok-injective,
}
use tilla.Base.Text.{Text}
use tilla.Base.Rows.{update}
use tilla.Base.Keyed.{get, IsUnique, update-IsUnique}
use tilla.Base.Zip.{Zip, update-Zip, Pairs-Zip, update-All_dep, get-only}
use tilla.Models.{Store}
use tilla.Checkout.Verify.{Node}
use tilla.Escrow.{JobStatus, JobEvent, CommissionJob, Desk, job_id}
use tilla.Escrow.Transition.{transition_job, job_awaits, job_moved}
use tilla.Escrow.Cores.{advance}
use tilla.Escrow.Sound.{Sound, IsFit, Evidence, Apart, Progress, Progress-refl}

-- A column of the new row: as it was, or a hash that no row has.
pub data Column (column : CommissionJob → Option Text) (jobs : List CommissionJob)
    (x y : CommissionJob) : Type 0 where
  unchanged : column y ≡ column x → Column column jobs x y
  new_hash :
      (t : Text) → column y ≡ some t → All (λ z. column z ≢ some t) jobs → Column column jobs x y

module _ (column : CommissionJob → Option Text) where
  Apart-same :
      (x y x' y' : CommissionJob)
      → column x' ≡ column x
      → column y' ≡ column y
      → Apart column x y
      → Apart column x' y'
  Apart-same x y x' y' p q apart t h = λ h'. apart t (sym p ∙ h) (sym q ∙ h')

  -- What the UPDATE asks of a row: a written row gets the hash, which no row has.
  abbrev Gets :
      (CommissionJob → Bool) → (CommissionJob → CommissionJob) → Text → CommissionJob → Type 0
  Gets w f t x = (w x ≡ true → column (f x) ≡ some t) × (column x ≢ some t)

  hit :
      (w : CommissionJob → Bool) (f : CommissionJob → CommissionJob) (t : Text)
      (x y : CommissionJob)
      → w x ≡ true
      → Gets w f t x
      → Gets w f t y × (w x ≡ true → w y ≡ false)
      → (w y ≡ true → Apart column (f x) (f y)) × (w y ≡ false → Apart column (f x) y)
  hit w f t x y e gx (gy, one) =
      (λ e'. absurd (ground (arith, one e)), λ _ u h h'. gy.1 (h' ∙ sym h ∙ gx.0 e))

  miss :
      (w : CommissionJob → Bool) (f : CommissionJob → CommissionJob) (t : Text)
      (x y : CommissionJob)
      → Gets w f t x
      → Gets w f t y × Apart column x y
      → (w y ≡ true → Apart column x (f y)) × (w y ≡ false → Apart column x y)
  miss w f t x y gx (gy, apart) = (λ e' u h h'. gx.1 (h ∙ sym h' ∙ gy.0 e'), λ _. apart)

  update_fresh :
      (w : CommissionJob → Bool) (f : CommissionJob → CommissionJob) (t : Text)
      (xs : List CommissionJob)
      → All (Gets w f t) xs
      → Pairs (λ x y. w x ≡ true → w y ≡ false) xs
      → Pairs (Apart column) xs
      → Pairs (Apart column) (update w f xs)
  unfolding update
  update_fresh w f t [] new one p = tt
  update_fresh w f t (x ∷ xs) new one p = elim (Bool-cases (w x)) [
    | inl e ↦ rw e (
      update-All_dep (Apart column (f x)) w f xs
          (All-mono _ _ (λ y. hit w f t x y e new.0) xs (All-both _ _ xs new.1 one.0)),
      update_fresh w f t xs new.1 one.1 p.1,
    )
    | inr e ↦ rw e (
      update-All_dep (Apart column x) w f xs
          (All-mono _ _ (λ y. miss w f t x y new.0) xs (All-both _ _ xs new.1 p.0)),
      update_fresh w f t xs new.1 one.1 p.1,
    )
  ]

  -- Under the primary key the UPDATE of one job writes one row at most.
  one_row :
      (k : ℕ) (states : List JobStatus) (xs : List CommissionJob)
      → IsUnique job_id xs
      → Pairs (λ x y. job_awaits k states x ≡ true → job_awaits k states y ≡ false) xs
  one_row k states [] u = tt
  one_row k states (x ∷ xs) u =
      (All-mono _ _ (λ y ne e. ground arith) xs u.0, one_row k states xs u.1)

-- What a handler owes for the row that it writes.
pub record Change (Answers : Node → Type 0) (desk : Desk) (x y : CommissionJob) : Type 0 where
  pub progress : Progress x y
  pub fit : IsFit y
  pub deposit : Column (λ j. j.funded_tx) desk.jobs x y
  pub release : Column (λ j. j.released_tx) desk.jobs x y
  pub evidence : Evidence Answers desk.stores y

-- The new tables: the invariant, and each job further along.
pub record Keeps (Answers : Node → Type 0) (a b : Desk) : Type 0 where
  pub sound : Sound Answers b
  pub progress : Zip Progress a.jobs b.jobs
  pub stores : b.stores ≡ a.stores

module _ (j : CommissionJob) (from_states : List JobStatus) (to_state : JobStatus)
    (fields : CommissionJob → CommissionJob) (xs : List CommissionJob) where
  abbrev awaiting : CommissionJob → Bool
  awaiting = job_awaits j.id from_states

  abbrev written : CommissionJob → CommissionJob
  written = job_moved to_state fields

  abbrev Only : CommissionJob → Type 0
  Only x = x.id ≡ j.id → x ≡ j

  awaits-Only : (x : CommissionJob) → Only x → awaiting x ≡ true → x ≡ j
  awaits-Only x only e = only (ground arith)

  -- A property of the new row and of all the old ones.
  update_row {κ} :
      (Q : CommissionJob → Type κ)
      → Q (written j)
      → All Only xs
      → All Q xs
      → All Q (update awaiting written xs)
  update_row Q new only q = update-All_dep Q awaiting written xs (
      All-mono _ _
        (λ x both.
          ((λ e. subst (λ v. Q (written v)) (sym (awaits-Only x both.0 e)) new), (λ _. both.1)))
        xs (All-both _ _ xs only q))

  update-Zipped :
      (R : CommissionJob → CommissionJob → Type 0)
      → ((x : CommissionJob) → R x x)
      → R j (written j)
      → All Only xs
      → Zip R xs (update awaiting written xs)
  update-Zipped R same related only = update-Zip R same awaiting written xs (
      All-mono _ _ (λ x o e. subst (λ v. R v (written v)) (sym (awaits-Only x o e)) related) xs
        only)

  update-Column :
      (column : CommissionJob → Option Text)
      → Column column xs j (written j)
      → All Only xs
      → IsUnique job_id xs
      → Pairs (Apart column) xs
      → Pairs (Apart column) (update awaiting written xs)
  update-Column column (unchanged e) only u p =
      Pairs-Zip (λ x y. column y ≡ column x) (Apart column)
        (λ x y x' y' r s. Apart-same column x y x' y' r s) xs _
        (update-Zipped (λ x y. column y ≡ column x) (λ x. refl) e only) p
  update-Column column (new_hash t e none_has) only u p =
      update_fresh column awaiting written t xs
        (All-mono _ _
          (λ x both. (
            (λ w. subst (λ v. column (written v) ≡ some t) (sym (awaits-Only x both.0 w)) e),
            both.1,
          ))
          xs (All-both _ _ xs only none_has))
        (one_row column j.id from_states xs u) p

-- The UPDATE that ends a handler keeps the invariant, and moves the jobs along.
pub advance-Keeps :
    (Answers : Node → Type 0) (j : CommissionJob) (s : Store) (from_states : List JobStatus)
    (to_state : JobStatus) (fields : CommissionJob → CommissionJob) (e : JobEvent)
    (desk desk' : Desk)
    → ((x : CommissionJob) → (fields x).id ≡ x.id)
    → get job_id j.id desk.jobs ≡ some j
    → Sound Answers desk
    → Change Answers desk j (job_moved to_state fields j)
    → advance j s from_states to_state fields e desk ≡ ok desk'
    → Keeps Answers desk desk'
unfolding advance transition_job
advance-Keeps Answers j s from_states to_state fields e desk desk' keep found sound change h =
    elim (Bool-cases (transition_job j.id from_states to_state fields desk.jobs).1) [
      | inr lost ↦ absurd (cc (rw lost at h))
      | inl won ↦
          let only = get-only job_id j.id desk.jobs j sound.unique found in
          subst (Keeps Answers desk) (ok-injective _ _ (rw won at h)) (record {
            sound = record {
              unique = update-IsUnique job_id _ _ keep desk.jobs sound.unique;
              fit =
                  update_row j from_states to_state fields desk.jobs IsFit change.fit only
                    sound.fit;
              deposits =
                  update-Column j from_states to_state fields desk.jobs (λ x. x.funded_tx)
                    change.deposit only sound.unique sound.deposits;
              releases =
                  update-Column j from_states to_state fields desk.jobs (λ x. x.released_tx)
                    change.release only sound.unique sound.releases;
              evidence =
                  update_row j from_states to_state fields desk.jobs (Evidence Answers desk.stores)
                    change.evidence only sound.evidence;
            };
            progress =
                update-Zipped j from_states to_state fields desk.jobs Progress Progress-refl
                  change.progress only;
            stores = refl;
          })
    ]
