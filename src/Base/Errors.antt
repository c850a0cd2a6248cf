-- ===== src/Base/Errors.antt =====
-- A call that may raise: `err e` is the exception.
use mathlib.Core.Path.{◌≡◌, refl, subst}
use mathlib.Core.Bool.{Bool, true, false}
use mathlib.Core.Option.{Option, none, some}
use mathlib.Core.List.{List, [], ◌∷◌}

pub data Result {ℓ κ} (E : Type ℓ) (A : Type κ) : Type (ℓ ⊔ κ) where
  err : E → Result E A
  ok : A → Result E A

-- What runs after a call that may raise; an exception skips it.
infixr 5 ◌>>=◌ ◌>>◌
abbrev pub ◌>>=◌ {ℓ κ μ} :
    {E : Type ℓ} {A : Type κ} {B : Type μ} → Result E A → (A → Result E B) → Result E B
err raised >>= rest = err raised
ok value >>= rest = rest value

-- The same where the value is not used.
abbrev pub ◌>>◌ {ℓ κ} : {E : Type ℓ} {B : Type κ} → Result E (Unit {0}) → Result E B → Result E B
check >> rest = check >>= (λ _. rest)

-- `if c: raise e`
abbrev pub raise_if {ℓ} : {E : Type ℓ} → Bool → E → Result E (Unit {0})
raise_if true e = err e
raise_if false e = ok tt

abbrev pub or_raise {ℓ κ} : {E : Type ℓ} {A : Type κ} → Option A → E → Result E A
or_raise none e = err e
or_raise (some a) e = ok a

-- A chain that succeeds has a first call that succeeds, and a rest that does.
pub >>=-eq-ok {ℓ κ μ} :
    {E : Type ℓ} {A : Type κ} {B : Type μ} (call : Result E A) (rest : A → Result E B) {result : B}
    → (call >>= rest) ≡ ok result
    → (value : A) × (call ≡ ok value) × (rest value ≡ ok result)
>>=-eq-ok (err raised) rest h = cc
>>=-eq-ok (ok value) rest h = (value, refl, h)

pub raise_if-eq-ok {ℓ κ} :
    {E : Type ℓ} {B : Type κ} (c : Bool) (e : E) (k : Result E B) {b : B}
    → (raise_if c e >> k) ≡ ok b
    → (c ≡ false) × (k ≡ ok b)
raise_if-eq-ok true e k h = absurd (cc)
raise_if-eq-ok false e k h = (refl, h)

pub or_raise-eq-ok {ℓ κ μ} :
    {E : Type ℓ} {A : Type κ} {B : Type μ} (m : Option A) (e : E) (f : A → Result E B) {b : B}
    → (or_raise m e >>= f) ≡ ok b
    → (a : A) × (m ≡ some a) × (f a ≡ ok b)
or_raise-eq-ok none e f h = cc
or_raise-eq-ok (some a) e f h = (a, refl, h)

pub ok-injective {ℓ κ} :
    {E : Type ℓ} {A : Type κ} (a b : A) → ◌≡◌ {A = Result E A} (ok a) (ok b) → a ≡ b
ok-injective a b h = cc

module _ {ℓ κ μ} {E : Type ℓ} {X : Type κ} {S : Type μ} where
  -- `for x in xs: body` where the body may raise.
  unfoldable pub for_each : (X → S → Result E S) → List X → S → Result E S
  for_each body [] s = ok s
  for_each body (x ∷ xs) s = body x s >>= for_each body xs

  -- The loop rule: what the body keeps holds when the loop ends.
  pub for_each_inv {ν} :
      (P : S → Type ν) (body : X → S → Result E S)
      → ((x : X) (s s' : S) → P s → body x s ≡ ok s' → P s')
      → (xs : List X) (s s' : S) → P s
      → for_each body xs s ≡ ok s'
      → P s'
  unfolding for_each
  for_each_inv P body keep [] s s' h e = subst P (cc) h
  for_each_inv P body keep (x ∷ xs) s s' h e =
      let (t, first, rest) = >>=-eq-ok (body x s) (for_each body xs) e in
      for_each_inv P body keep xs t s' (keep x s t h first) rest
