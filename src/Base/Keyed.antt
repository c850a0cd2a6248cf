-- ===== src/Base/Keyed.antt =====
-- Tables with a numeric primary key: `session.get`, and the effect of an UPDATE on one key.
use Prim.Native.Nat.{ℕ}
use mathlib.Core.Path.{◌≡◌, refl}
use mathlib.Core.Logic.{◌≢◌, inl, inr}
use mathlib.Core.Bool.{Bool, ◌&&◌}
use mathlib.Core.List.{List, [], ◌∷◌, ◌++◌}
use mathlib.Core.Option
use mathlib.Core.Option.{Option, none, some}
use native.Mathlib.Omega.{arith}
use tilla.Base.Tests.{◌==◌, if◌then◌else◌, is_some, Bool-cases}
use tilla.Base.Lists.{All, Pairs, All-mono, All-both}
use tilla.Base.Rows.{find, find-All, update, rowcount}

module _ {ℓ} {A : Type ℓ} (key : A → ℕ) where
  -- `session.get(A, k)`
  unfoldable pub get : ℕ → List A → Option A
  unfolding find
  get k = find (λ x. key x == k)

  -- The PRIMARY KEY constraint.
  abbrev pub IsUnique : List A → Type 0
  IsUnique = Pairs λ x y. key x ≢ key y

  pub get-nil : (k : ℕ) → get k [] ≡ none
  unfolding get
  get-nil k = refl

  pub get-key : (k : ℕ) (xs : List A) (x : A) → get k xs ≡ some x → key x ≡ k
  unfolding get
  get-key k [] x h = absurd (cc)
  get-key k (y ∷ xs) x h = elim (Bool-cases (key y == k)) [
    | inl e ↦ ground arith
    | inr e ↦ get-key k xs x (ground arith)
  ]

  pub get-All {κ} :
      (P : A → Type κ) (k : ℕ) (xs : List A) (x : A) → get k xs ≡ some x → All P xs → P x
  unfolding get
  get-All P k xs x h = find-All P (λ y. key y == k) xs x h

  pub get-cons :
      (k : ℕ) (x : A) (xs : List A) → get k (x ∷ xs) ≡ (if key x == k then some x else get k xs)
  unfolding get
  get-cons k x xs = refl

  -- An UPDATE that keeps keys is seen by each `get` on its own row.
  pub get-update :
      (p : A → Bool) (f : A → A)
      → ((x : A) → key (f x) ≡ key x)
      → (k : ℕ) (xs : List A)
      → get k (update p f xs) ≡ Option.map (λ x. if p x then f x else x) (get k xs)
  unfolding get update
  get-update p f keep k [] = refl
  get-update p f keep k (x ∷ xs) = ground (arith, keep x, get-update p f keep k xs)

  pub get-append :
      (k : ℕ) (xs ys : List A)
      → get k (xs ++ ys) ≡ (if is_some (get k xs) then get k xs else get k ys)
  unfolding get
  get-append k [] ys = refl
  get-append k (x ∷ xs) ys = ground (arith, get-append k xs ys)

  fresh-rowcount :
      (k : ℕ) (q : A → Bool) (x : A) (xs : List A)
      → key x ≡ k
      → All (λ y. key x ≢ key y) xs
      → rowcount (λ y. (key y == k) && q y) xs ≡ 0
  unfolding rowcount
  fresh-rowcount k q x [] e h = refl
  fresh-rowcount k q x (y ∷ ys) e h = ground (arith, fresh-rowcount k q x ys e h.1)

  -- Under the constraint an UPDATE on one key moves one row or none.
  pub rowcount-key :
      (k : ℕ) (q : A → Bool) (xs : List A)
      → IsUnique xs
      → rowcount (λ y. (key y == k) && q y) xs
        ≡ elim (get k xs) [ none ↦ 0 | some x ↦ if q x then 1 else 0 ]
  unfolding rowcount get
  rowcount-key k q [] u = refl
  rowcount-key k q (x ∷ xs) u = ground (arith, fresh-rowcount k q x xs, rowcount-key k q xs u.1)

  update-fresh :
      (p : A → Bool) (f : A → A)
      → ((x : A) → key (f x) ≡ key x)
      → (n : ℕ) (xs : List A) → All (λ y. n ≢ key y) xs
      → All (λ y. n ≢ key y) (update p f xs)
  unfolding update
  update-fresh p f keep n [] h = tt
  update-fresh p f keep n (x ∷ xs) h = ground (arith, keep x, update-fresh p f keep n xs h.1)

  pub update-IsUnique :
      (p : A → Bool) (f : A → A)
      → ((x : A) → key (f x) ≡ key x)
      → (xs : List A) → IsUnique xs
      → IsUnique (update p f xs)
  unfolding update
  update-IsUnique p f keep [] u = tt
  update-IsUnique p f keep (x ∷ xs) u = elim (Bool-cases (p x)) [
    | inl e ↦
        rw e (rw (keep x) (update-fresh p f keep (key x) xs u.0), update-IsUnique p f keep xs u.1)
    | inr e ↦ rw e (update-fresh p f keep (key x) xs u.0, update-IsUnique p f keep xs u.1)
  ]

  weaken :
      (x : A) (xs : List A)
      → (y : A) → (key x ≢ key y) × (get (key y) xs ≡ some y)
      → get (key y) (x ∷ xs) ≡ some y
  weaken x xs y h = ground (arith, get-cons (key y) x xs)

  -- Under the constraint every row is the one that its key finds.
  pub get_self : (xs : List A) → IsUnique xs → All (λ x. get (key x) xs ≡ some x) xs
  get_self [] u = tt
  get_self (x ∷ xs) u = (
    ground (arith, get-cons (key x) x xs),
    All-mono _ _ (weaken x xs) xs (All-both _ _ xs u.0 (get_self xs u.1)),
  )
