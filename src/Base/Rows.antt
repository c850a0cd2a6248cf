-- ===== src/Base/Rows.antt =====
-- Database tables as lists of rows: SELECT, conditional UPDATE and its rowcount.
use Prim.Native.Nat.{ℕ, ◌+◌}
use mathlib.Core.Path.{◌≡◌, refl, subst}
use mathlib.Core.Logic.{inl, inr}
use mathlib.Core.Bool.{Bool, true, false}
use mathlib.Core.List.{List, [], ◌∷◌, ◌++◌}
use mathlib.Core.Option.{Option, none, some}
use native.Mathlib.Omega.{arith}
use tilla.Base.Tests.{if◌then◌else◌, is_some, Bool-cases}
use tilla.Base.Lists.{All}

module _ {ℓ} {A : Type ℓ} where
  -- `session.scalar(select(A).where(p))`: the first row, in table order.
  unfoldable pub find : (A → Bool) → List A → Option A
  find p [] = none
  find p (x ∷ xs) = if p x then some x else find p xs

  -- The rows of `select(A).where(p)`.
  unfoldable pub select : (A → Bool) → List A → List A
  select p [] = []
  select p (x ∷ xs) = let rest = select p xs in if p x then x ∷ rest else rest

  -- `update(A).where(p).values(…)`, and its `rowcount`.
  unfoldable pub update : (A → Bool) → (A → A) → List A → List A
  update p f [] = []
  update p f (x ∷ xs) = (if p x then f x else x) ∷ update p f xs

  unfoldable pub rowcount : (A → Bool) → List A → ℕ
  rowcount p [] = 0
  rowcount p (x ∷ xs) = (if p x then 1 else 0) + rowcount p xs

module _ {ℓ} {A : Type ℓ} where
  pub find_sound : (p : A → Bool) (xs : List A) (x : A) → find p xs ≡ some x → p x ≡ true
  unfolding find
  find_sound p [] x h = cc
  find_sound p (y ∷ xs) x h = elim (Bool-cases (p y)) [
    | inl e ↦ ground arith
    | inr e ↦ find_sound p xs x (ground arith)
  ]

  pub find-All {κ} :
      (P : A → Type κ) (p : A → Bool) (xs : List A) (x : A) → find p xs ≡ some x → All P xs → P x
  unfolding find
  find-All P p [] x h a = absurd (cc)
  find-All P p (y ∷ xs) x h a = elim (Bool-cases (p y)) [
    | inl e ↦ subst P (ground arith) a.0
    | inr e ↦ find-All P p xs x (ground arith) a.1
  ]

  -- What every row satisfies before and the new rows satisfy, every row satisfies after.
  pub update-All {κ} :
      (P : A → Type κ) (p : A → Bool) (f : A → A)
      → ((x : A) → p x ≡ true → P x → P (f x))
      → (xs : List A) → All P xs
      → All P (update p f xs)
  unfolding update
  update-All P p f keep [] h = tt
  update-All P p f keep (x ∷ xs) h = elim (Bool-cases (p x)) [
    | inl e ↦ rw e (keep x e h.0, update-All P p f keep xs h.1)
    | inr e ↦ rw e (h.0, update-All P p f keep xs h.1)
  ]

  pub select-All {κ} :
      (P : A → Type κ) (p : A → Bool) (xs : List A) → All P xs → All P (select p xs)
  unfolding select
  select-All P p [] h = tt
  select-All P p (x ∷ xs) h = elim (Bool-cases (p x)) [
    | inl e ↦ rw e (h.0, select-All P p xs h.1)
    | inr e ↦ rw e (select-All P p xs h.1)
  ]

  pub select_sound : (p : A → Bool) (xs : List A) → All (λ x. p x ≡ true) (select p xs)
  unfolding select
  select_sound p [] = tt
  select_sound p (x ∷ xs) = elim (Bool-cases (p x)) [
    | inl e ↦ rw e (e, select_sound p xs)
    | inr e ↦ rw e (select_sound p xs)
  ]

  -- Nothing moves where no row fits.
  pub update_none :
      (p : A → Bool) (f : A → A) (xs : List A) → rowcount p xs ≡ 0 → update p f xs ≡ xs
  unfolding update rowcount
  update_none p f [] h = refl
  update_none p f (x ∷ xs) h = ground (arith, update_none p f xs)

  pub find-none : (p : A → Bool) (xs : List A) → find p xs ≡ none → All (λ x. p x ≡ false) xs
  unfolding find
  find-none p [] h = tt
  find-none p (x ∷ xs) h = elim (Bool-cases (p x)) [
    | inl e ↦ absurd (ground arith)
    | inr e ↦ (e, find-none p xs (ground arith))
  ]

  -- A row at the end that fits is found, or one before it.
  pub find-append :
      (p : A → Bool) (xs : List A) (x : A) → p x ≡ true → is_some (find p (xs ++ (x ∷ []))) ≡ true
  unfolding find
  find-append p [] x h = rw h refl
  find-append p (y ∷ ys) x h = elim (Bool-cases (p y)) [
    | inl e ↦ rw e refl
    | inr e ↦ rw e (find-append p ys x h)
  ]
