-- ===== src/Delivery/Count.antt =====
-- How many rows of a table fit, before and after an UPDATE or an INSERT of one row.
use tilla.Base.{
  ℕ, ◌+◌, ◌≤◌, ◌≡◌, refl, ◌≢◌, sym, ap, subst, Bool, true, false, some, List, [], ◌∷◌, ◌++◌, arith,
  ◌==◌, ltb, is_some, if◌then◌else◌, Bool-cases, inl, inr, All, All-mono, Pairs,
}
use tilla.Base.Rows.{find, update, rowcount}
use tilla.Base.Keyed.{get, get-nil, get-cons, IsUnique}

-- 1 where a row fits.
abbrev pub one_if : Bool → ℕ
one_if b = if b then 1 else 0

module _ {A : Type 0} (q : A → Bool) where
  pub rowcount-append :
      (xs : List A) (y : A) → rowcount q (xs ++ (y ∷ [])) ≡ rowcount q xs + one_if (q y)
  unfolding rowcount
  rowcount-append [] y = omega arith
  rowcount-append (x ∷ xs) y = omega (arith, rowcount-append xs y)

  pub is_some-find : (xs : List A) → is_some (find q xs) ≡ ltb 0 (rowcount q xs)
  unfolding rowcount find
  is_some-find [] = refl
  is_some-find (x ∷ xs) = elim (Bool-cases (q x)) [
    | inl e ↦ rw e (ground arith)
    | inr e ↦ rw e (ground (arith, is_some-find xs))
  ]

  pub rowcount-none : (xs : List A) → All (λ x. q x ≡ false) xs → rowcount q xs ≡ 0
  unfolding rowcount
  rowcount-none [] h = refl
  rowcount-none (x ∷ xs) h = ground (arith, h.0, rowcount-none xs h.1)

  -- Where no two rows fit, one fits at most.
  pub rowcount_most : (xs : List A) → Pairs (λ x y. q x ≡ true → q y ≡ false) xs → rowcount q xs ≤ 1
  unfolding rowcount
  rowcount_most [] p = ground arith
  rowcount_most (x ∷ xs) p = elim (Bool-cases (q x)) [
    | inl e ↦ ground (arith, e, rowcount-none xs (All-mono _ _ (λ y fits. fits e) xs p.0))
    | inr e ↦ ground (arith, e, rowcount_most xs p.1)
  ]

module _ {A : Type 0} (key : A → ℕ) (k : ℕ) (w : A → Bool) (f : A → A)
    (only_k : (x : A) → w x ≡ true → key x ≡ k) where
  update_fresh : (xs : List A) → All (λ y. k ≢ key y) xs → update w f xs ≡ xs
  unfolding update
  update_fresh [] h = refl
  update_fresh (x ∷ xs) h = elim (Bool-cases (w x)) [
    | inl e ↦ absurd (h.0 (sym (only_k x e)))
    | inr e ↦ rw e (ap (◌∷◌ x) (update_fresh xs h.1))
  ]

  -- An UPDATE of the row `k` moves the count by that row.
  pub rowcount-update :
      (q : A → Bool) (xs : List A) (x : A)
      → IsUnique key xs
      → get key k xs ≡ some x
      → w x ≡ true
      → rowcount q (update w f xs) + one_if (q x) ≡ rowcount q xs + one_if (q (f x))
  unfolding rowcount update
  rowcount-update q [] x u found hit = absurd (cc (found, get-nil key k))
  rowcount-update q (y ∷ ys) x u found hit = elim (Bool-cases (key y == k)) [
    | inl e ↦
        let same : y ≡ x = ground (arith, get-cons key k y ys) in
        let hit_y : w y ≡ true = subst (λ v. w v ≡ true) (sym same) hit in
        let others : All (λ z. k ≢ key z) ys =
          subst (λ n. All (λ z. n ≢ key z) ys) (ground arith) u.0 in
        rw (hit_y, update_fresh ys others)
          (omega (arith, ap (λ v. one_if (q v)) same, ap (λ v. one_if (q (f v))) same))
    | inr e ↦ elim (Bool-cases (w y)) [
      | inl e' ↦ absurd (ground (arith, only_k y e'))
      | inr e' ↦
          rw e'
            (omega (arith, rowcount-update q ys x u.1 (ground (arith, get-cons key k y ys)) hit))
    ]
  ]
