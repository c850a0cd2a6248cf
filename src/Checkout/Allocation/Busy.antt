-- ===== src/Checkout/Allocation/Busy.antt =====
-- When `create_order` gives up: each of its draws hit an amount that is spoken for.
use tilla.Base.{
  ℕ, zero, suc, ◌+◌, ◌<◌, ◌≡◌, subst, true, List, arith, ◌⊎◌, inl, inr, Bool-cases, err,
}
use tilla.Models.{Order, Env}
use tilla.Checkout.Allocation.{
  amount_offset_min, amount_taken, offset_span, Draws, Basket, base_price, new_order, violates,
  checkout_busy, allocate, create_order,
}

-- The amount of the draw `i`.
abbrev pub drawn : Draws → Basket → ℕ → ℕ
drawn draws b i = base_price b + draws.randint i amount_offset_min (offset_span (base_price b))

-- A draw that the code passes over: its amount is held, or a constraint refuses the row.
abbrev pub IsRefused : Env → Draws → Basket → List Order → ℕ → Type 0
IsRefused env draws b orders i =
    (amount_taken env b.store.pay_to (drawn draws b i) orders ≡ true)
    ⊎ (violates (new_order env b (draws.fresh_id i) (drawn draws b i)) orders ≡ true)

allocate-busy :
    (env : Env) (draws : Draws) (b : Basket) (rounds i : ℕ) (orders : List Order)
    → allocate env draws b rounds i orders ≡ err checkout_busy
    → (j : ℕ) → j < rounds
    → IsRefused env draws b orders (i + j)
unfolding allocate
allocate-busy env draws b zero i orders h j lt = absurd (omega arith)
allocate-busy env draws b (suc rounds) i orders h j lt =
    elim (Bool-cases (amount_taken env b.store.pay_to (drawn draws b i) orders)) [
      | inl taken ↦
          at_draw (inl taken) (allocate-busy env draws b rounds (i + 1) orders (rw taken at h)) j lt
      | inr free ↦
          elim (Bool-cases
            (violates (new_order env b (draws.fresh_id i) (drawn draws b i)) orders)) [
              | inl clash ↦
                  at_draw (inr clash)
                    (allocate-busy env draws b rounds (i + 1) orders (rw (free, clash) at h)) j lt
              | inr allowed ↦ absurd (cc (rw (free, allowed) at h))
            ]
    ]
  where
    at_draw :
        IsRefused env draws b orders i
        → ((n : ℕ) → n < rounds → IsRefused env draws b orders (i + 1 + n))
        → (n : ℕ) → n < suc rounds
        → IsRefused env draws b orders (i + n)
    at_draw here later zero le = subst (IsRefused env draws b orders) (omega arith) here
    at_draw here later (suc n) le =
        subst (IsRefused env draws b orders) (omega arith) (later n (omega arith))

-- `create_order` gives up only where every one of its ten draws is refused.
pub create_order-busy :
    (env : Env) (draws : Draws) (b : Basket) (orders : List Order)
    → create_order env draws b orders ≡ err checkout_busy
    → (i : ℕ) → i < 10
    → IsRefused env draws b orders i
unfolding create_order
create_order-busy env draws b orders h i lt =
    subst (IsRefused env draws b orders) (omega arith)
      (allocate-busy env draws b 10 0 orders h i lt)
