-- ===== src/Checkout/Sweep/Cursor.antt =====
-- The cursor table: a write is read back, and leaves the other chains alone.
use mathlib.Core.Option
use tilla.Base.{
  ℕ, ◌≡◌, ◌≢◌, refl, ap, Option, none, some, List, [], ◌∷◌, arith, ◌==◌, Option-cases, inl, inr,
  if◌then◌else◌,
}
use tilla.Base.Keyed.{get, get-append, get-update, get-cons, get-nil, get-key}
use tilla.Models.{ChainCursor}
use tilla.Checkout.Sweep.{cursor_id, set_cursor}

last_of : Option ChainCursor → Option ℕ
last_of none = none
last_of (some c) = some c.last_block

-- The block that the row of a chain stands at.
unfoldable pub cursor_at : ℕ → List ChainCursor → Option ℕ
unfolding last_of
cursor_at k cs = last_of (get cursor_id k cs)

pub cursor_at-set_cursor :
    (k block : ℕ) (cs : List ChainCursor) → cursor_at k (set_cursor k block cs) ≡ some block
unfolding cursor_at set_cursor
cursor_at-set_cursor k block cs = elim (Option-cases (get cursor_id k cs)) [
  | inl e ↦ ground (
    arith,
    get-append cursor_id k cs (record { id = k; last_block = block } ∷ []),
    get-cons cursor_id k (record { id = k; last_block = block }) [],
    get-nil cursor_id k,
  )
  | inr (c, e) ↦ ground (
    arith,
    get-key cursor_id k cs c e,
    get-update cursor_id (λ x. x.id == k) (λ x. record x { last_block = block }) (λ x. refl) k cs,
  )
]

other_row :
    (j k block : ℕ) (c : ChainCursor)
    → j ≢ k
    → c.id ≡ j
    → (if c.id == k then record c { last_block = block } else c) ≡ c
other_row j k block c other e = ground arith

-- A write to the cursor of one chain leaves the cursor of every other chain where it was.
cursor_at-other :
    (j k block : ℕ) (cs : List ChainCursor)
    → j ≢ k
    → cursor_at j (set_cursor k block cs) ≡ cursor_at j cs
unfolding cursor_at set_cursor
cursor_at-other j k block cs other = elim (Option-cases (get cursor_id k cs)) [
  | inl e ↦ ground (
    arith,
    get-append cursor_id j cs (record { id = k; last_block = block } ∷ []),
    get-cons cursor_id j (record { id = k; last_block = block }) [],
    get-nil cursor_id j,
  )
  | inr (c, e) ↦ rw e (
      rw
        (get-update cursor_id (λ x. x.id == k) (λ x. record x { last_block = block }) (λ x. refl) j
          cs)
        (unchanged (get cursor_id j cs) refl))
]
  where
    unchanged :
        (m : Option ChainCursor)
        → get cursor_id j cs ≡ m
        → last_of (Option.map (λ x. if x.id == k then record x { last_block = block } else x) m)
          ≡ last_of m
    unchanged none e = refl
    unchanged (some c) e =
        ap (λ x. last_of (some x)) (other_row j k block c other (get-key cursor_id j cs c e))
