-- ===== src/Base/Zip.antt =====
-- Two versions of one table, row by row, and the UPDATE that leads from one to the other.
use mathlib.Core.Path.{◌≡◌, sym, ◌∙◌, subst}
use mathlib.Core.Logic.{◌≢◌, inl, inr}
use mathlib.Core.Bool.{Bool, true, false}
use mathlib.Core.List.{List, [], ◌∷◌}
use mathlib.Core.Option.{some}
use Prim.Native.Nat.{ℕ}
use native.Mathlib.Omega.{arith}
use tilla.Base.Tests.{◌==◌, Bool-cases}
use tilla.Base.Lists.{All, Pairs}
use tilla.Base.Rows.{update}
use tilla.Base.Keyed.{get, get-nil, get-cons, IsUnique}

module _ {ℓ} {A : Type ℓ} where
  -- Every row of the second list is related to the row of the first that it replaces.
  abbrev pub Zip : (A → A → Type 0) → List A → List A → Type 0
  Zip R [] [] = Unit
  Zip R [] (_ ∷ _) = ⊥
  Zip R (_ ∷ _) [] = ⊥
  Zip R (x ∷ xs) (y ∷ ys) = R x y × Zip R xs ys

module _ {ℓ} {A : Type ℓ} where
  pub Zip-refl : (R : A → A → Type 0) → ((x : A) → R x x) → (xs : List A) → Zip R xs xs
  Zip-refl R same [] = tt
  Zip-refl R same (x ∷ xs) = (same x, Zip-refl R same xs)

  pub Zip-trans :
      (R : A → A → Type 0)
      → ((x y z : A) → R x y → R y z → R x z)
      → (xs ys zs : List A) → Zip R xs ys
      → Zip R ys zs
      → Zip R xs zs
  Zip-trans R step [] [] [] p q = tt
  Zip-trans R step [] [] (_ ∷ _) p q = q
  Zip-trans R step [] (_ ∷ _) zs p q = absurd p
  Zip-trans R step (_ ∷ _) [] zs p q = absurd p
  Zip-trans R step (_ ∷ _) (_ ∷ _) [] p q = q
  Zip-trans R step (x ∷ xs) (y ∷ ys) (z ∷ zs) p q =
      (step x y z p.0 q.0, Zip-trans R step xs ys zs p.1 q.1)

  -- An UPDATE relates the versions if it relates each row that it touches.
  pub update-Zip :
      (R : A → A → Type 0)
      → ((x : A) → R x x)
      → (p : A → Bool) (f : A → A) (xs : List A) → All (λ x. p x ≡ true → R x (f x)) xs
      → Zip R xs (update p f xs)
  unfolding update
  update-Zip R same p f [] h = tt
  update-Zip R same p f (x ∷ xs) h = elim (Bool-cases (p x)) [
    | inl e ↦ rw e (h.0 e, update-Zip R same p f xs h.1)
    | inr e ↦ rw e (same x, update-Zip R same p f xs h.1)
  ]

  -- A property of the new table from one of the old table.
  pub All-Zip {μ ν} :
      (R : A → A → Type 0) (P : A → Type μ) (Q : A → Type ν)
      → ((x y : A) → R x y → P x → Q y)
      → (xs ys : List A) → Zip R xs ys
      → All P xs
      → All Q ys
  All-Zip R P Q f [] [] z h = tt
  All-Zip R P Q f [] (_ ∷ _) z h = absurd z
  All-Zip R P Q f (_ ∷ _) [] z h = absurd z
  All-Zip R P Q f (x ∷ xs) (y ∷ ys) z h = (f x y z.0 h.0, All-Zip R P Q f xs ys z.1 h.1)

  -- A relation between the rows of one table carries over, if `R` reflects it.
  pub Pairs-Zip {μ} :
      (R : A → A → Type 0) (S : A → A → Type μ)
      → ((x y x' y' : A) → R x x' → R y y' → S x y → S x' y')
      → (xs ys : List A) → Zip R xs ys
      → Pairs S xs
      → Pairs S ys
  Pairs-Zip R S f [] [] z h = tt
  Pairs-Zip R S f [] (_ ∷ _) z h = absurd z
  Pairs-Zip R S f (_ ∷ _) [] z h = absurd z
  Pairs-Zip R S f (x ∷ xs) (y ∷ ys) z h = (
    All-Zip R (S x) (S y) (λ a b r s. f x a y b z.0 r s) xs ys z.1 h.0,
    Pairs-Zip R S f xs ys z.1 h.1,
  )

  -- Updated rows satisfy `Q` where the UPDATE makes it so, the others where they did before.
  pub update-All_dep {κ} :
      (Q : A → Type κ) (p : A → Bool) (f : A → A) (xs : List A)
      → All (λ x. (p x ≡ true → Q (f x)) × (p x ≡ false → Q x)) xs
      → All Q (update p f xs)
  unfolding update
  update-All_dep Q p f [] h = tt
  update-All_dep Q p f (x ∷ xs) h = elim (Bool-cases (p x)) [
    | inl e ↦ rw e (h.0.0 e, update-All_dep Q p f xs h.1)
    | inr e ↦ rw e (h.0.1 e, update-All_dep Q p f xs h.1)
  ]

module _ {ℓ} {A : Type ℓ} (key : A → ℕ) where
  others-fresh :
      (k : ℕ) (x : A) (xs : List A)
      → key x ≡ k
      → All (λ y. key x ≢ key y) xs
      → All (λ y. key y ≡ k → y ≡ x) xs
  others-fresh k x [] e h = tt
  others-fresh k x (y ∷ ys) e h = (λ e'. absurd (h.0 (e ∙ sym e')), others-fresh k x ys e h.1)

  -- Under the primary key a row with the key of `o` is `o`.
  pub get-only :
      (k : ℕ) (xs : List A) (o : A)
      → IsUnique key xs
      → get key k xs ≡ some o
      → All (λ x. key x ≡ k → x ≡ o) xs
  get-only k [] o u h = tt
  get-only k (x ∷ xs) o u h = elim (Bool-cases (key x == k)) [
    | inl e ↦
        let same : x ≡ o = ground (arith, get-cons key k x xs) in
        (
          (λ _. same),
          subst (λ v. All (λ y. key y ≡ k → y ≡ v) xs) same
              (others-fresh k x xs (ground arith) u.0),
        )
    | inr e ↦
        ((λ e'. absurd (ground arith)), get-only k xs o u.1 (ground (arith, get-cons key k x xs)))
  ]

  -- The row of one key in both versions.
  pub get-Zip :
      (R : A → A → Type 0)
      → ((x y : A) → R x y → key y ≡ key x)
      → (k : ℕ) (xs ys : List A) (x : A) → Zip R xs ys
      → get key k xs ≡ some x
      → (y : A) × (get key k ys ≡ some y) × R x y
  get-Zip R keep k [] [] x z h = absurd (cc (get-nil key k))
  get-Zip R keep k [] (_ ∷ _) x z h = absurd z
  get-Zip R keep k (_ ∷ _) [] x z h = absurd z
  get-Zip R keep k (a ∷ rest) (b ∷ bs) x z h = elim (Bool-cases (key a == k)) [
    | inl e ↦
        let same : a ≡ x = ground (arith, get-cons key k a rest) in
        (b, ground (arith, get-cons key k b bs, keep a b z.0), subst (λ v. R v b) same z.0)
    | inr e ↦
        let (y, found, related) =
          get-Zip R keep k rest bs x z.1 (ground (arith, get-cons key k a rest)) in
        (y, ground (arith, get-cons key k b bs, keep a b z.0), related)
  ]
