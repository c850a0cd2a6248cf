-- ===== src/Checkout/Allocation/Laws.antt =====
-- A new order's amount: how far above the price, and that nobody else holds it.
use tilla.Base.{
  ℕ, zero, suc, ◌+◌, ◌*◌, ◌≤◌, ◌≡◌, refl, subst, false, List, [], ◌∷◌, ◌++◌, max, arith, Bool-cases,
  inl, inr, ok, ok-injective,
}
use tilla.Models.{Order, Env}
use tilla.Checkout.Allocation.{
  amount_offset_min, amount_offset_max, amount_offset_floor, amount_taken, offset_span, Draws,
  Basket, base_price, new_order, violates, allocate, create_order,
}

-- The span is at least the floor of 50 and at most 4999, and above the floor at most one percent of
-- the price.
pub offset_span_bounds :
    (base : ℕ)
    → (amount_offset_floor ≤ offset_span base)
      × (offset_span base ≤ amount_offset_max)
      × (offset_span base * 100 ≤ max 5000 base)
unfolding offset_span
offset_span_bounds base = omega arith

-- `random.randint(a, b)` returns a number from a to b.
abbrev pub IsRandint : Draws → Type 0
IsRandint d = (i lo hi : ℕ) → lo ≤ hi → (lo ≤ d.randint i lo hi) × (d.randint i lo hi ≤ hi)

-- What a successful allocation made of the table.
pub record IsAllocated (env : Env) (b : Basket) (orders : List Order) (r : Order × List Order)
    : Type 0 where
  pub id : ℕ
  pub offset : ℕ
  pub made : r.0 ≡ new_order env b id (base_price b + offset)
  pub appended : r.1 ≡ orders ++ (r.0 ∷ [])
  pub above : amount_offset_min ≤ offset
  pub below : offset ≤ offset_span (base_price b)
  pub free : amount_taken env b.store.pay_to r.0.expected_micro orders ≡ false
  pub allowed : violates r.0 orders ≡ false

allocate-IsAllocated :
    (env : Env) (draws : Draws) (b : Basket)
    → IsRandint draws
    → (rounds i : ℕ) (orders : List Order) (r : Order × List Order)
    → allocate env draws b rounds i orders ≡ ok r
    → IsAllocated env b orders r
unfolding allocate
allocate-IsAllocated env draws b rand zero i orders r h = absurd (cc)
allocate-IsAllocated env draws b rand (suc rounds) i orders r h =
    let offset = draws.randint i amount_offset_min (offset_span (base_price b)) in
    let o = new_order env b (draws.fresh_id i) (base_price b + offset) in
    let again = λ (e : allocate env draws b rounds (i + 1) orders ≡ ok r).
      allocate-IsAllocated env draws b rand rounds (i + 1) orders r e in
    let (above, below) =
      rand i amount_offset_min (offset_span (base_price b))
        (omega (arith, offset_span_bounds (base_price b))) in
    elim (Bool-cases (amount_taken env b.store.pay_to (base_price b + offset) orders)) [
      | inl taken ↦ again (rw taken at h)
      | inr free ↦ elim (Bool-cases (violates o orders)) [
        | inl clash ↦ again (rw (free, clash) at h)
        | inr allowed ↦
            subst (IsAllocated env b orders) (ok-injective _ _ (rw (free, allowed) at h)) (record {
              id = draws.fresh_id i;
              offset = offset;
              made = refl;
              appended = refl;
              above = above;
              below = below;
              free = free;
              allowed = allowed;
            })
      ]
    ]

-- With a `randint` in its range, a created order asks for its price plus an offset from 1 to the
-- span, an amount that no row of its address holds at that moment.
pub create_order-IsAllocated :
    (env : Env) (draws : Draws) (b : Basket) (orders : List Order) (r : Order × List Order)
    → IsRandint draws
    → create_order env draws b orders ≡ ok r
    → IsAllocated env b orders r
unfolding create_order
create_order-IsAllocated env draws b orders r rand h =
    allocate-IsAllocated env draws b rand 10 0 orders r h
