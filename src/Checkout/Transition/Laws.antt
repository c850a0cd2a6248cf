-- ===== src/Checkout/Transition/Laws.antt =====
-- What the conditional UPDATE of app/checkout.py promises: it wins exactly when the row stands in
-- one of the named statuses, moves that row alone, and never wins twice.
use mathlib.Core.Option
use tilla.Base.{
  ℕ, ◌≡◌, refl, ap, ◌∙◌, Bool, true, false, Option, none, some, List, [], ◌∷◌, arith, if◌then◌else◌,
  Bool-cases, inl, inr,
}
use tilla.Base.Rows.{update, rowcount, update_none}
use tilla.Base.Keyed.{IsUnique, get-key, get-update, rowcount-key, update-IsUnique}
use tilla.Models.{Status, Order, is_in}
use tilla.Checkout.Transition.{awaits, moved_to, transition, order_id, get_order}

module _ (k : ℕ) (from_states : List Status) (to_state : Status) (fields : Order → Order) where
  -- Whether the row `k` stands in one of the statuses.
  abbrev pub stands : Option Order → Bool
  stands none = false
  stands (some o) = is_in o.status from_states

  -- Under the primary key the UPDATE wins exactly when the order exists and stands in one of the
  -- statuses that it starts from.
  pub transition-wins :
      (orders : List Order)
      → IsUnique order_id orders
      → (transition k from_states to_state fields orders).1 ≡ stands (get_order k orders)
  unfolding transition
  transition-wins orders u =
      rw (rowcount-key order_id k (λ o. is_in o.status from_states) orders u) (ground arith)

  -- The UPDATE changes the named row, if it stands in one of the statuses, and no other row.
  pub get-transition :
      ((o : Order) → (fields o).id ≡ o.id)
      → (j : ℕ) (orders : List Order)
      → get_order j (transition k from_states to_state fields orders).0
        ≡ Option.map
            (λ o. if awaits k from_states o then moved_to to_state fields o else o)
            (get_order j orders)
  unfolding transition
  get-transition keep j orders =
      get-update order_id (awaits k from_states) (moved_to to_state fields) keep j orders

  -- A lost race changes nothing.
  pub transition_lost :
      (orders : List Order)
      → IsUnique order_id orders
      → (transition k from_states to_state fields orders).1 ≡ false
      → (transition k from_states to_state fields orders).0 ≡ orders
  unfolding transition
  transition_lost orders u lost =
      update_none (awaits k from_states) (moved_to to_state fields) orders
        (ground (arith, rowcount-key order_id k (λ o. is_in o.status from_states) orders u))

spent :
    (k : ℕ) (from_states : List Status) (to_state : Status) (fields : Order → Order)
    → ((o : Order) → (fields o).id ≡ o.id)
    → is_in to_state from_states ≡ false
    → (orders : List Order)
    → rowcount
        (awaits k from_states)
        (update (awaits k from_states) (moved_to to_state fields) orders)
      ≡ 0
unfolding rowcount update
spent k from_states to_state fields keep out [] = refl
spent k from_states to_state fields keep out (o ∷ os) = elim (Bool-cases (awaits k from_states o)) [
  | inl e ↦ rw (e, out) (ground (arith, spent k from_states to_state fields keep out os))
  | inr e ↦ rw (e, e) (omega (arith, spent k from_states to_state fields keep out os))
]

-- A transition that keeps the id, and whose target is none of its sources, never wins twice for
-- one order: whatever the second call would write, it moves no row.
pub transition_once :
    (k : ℕ) (from_states : List Status) (to_state : Status) (fields again : Order → Order)
    → ((o : Order) → (fields o).id ≡ o.id)
    → is_in to_state from_states ≡ false
    → (orders : List Order)
    → let after = (transition k from_states to_state fields orders).0 in
      transition k from_states to_state again after ≡ (after, false)
unfolding transition
transition_once k from_states to_state fields again keep out orders =
    let none_left = spent k from_states to_state fields keep out orders in
    rw (none_left, update_none (awaits k from_states) (moved_to to_state again) _ none_left)

-- The row after an UPDATE that finds it in one of its source statuses.
pub moved-found :
    (k : ℕ) (from_states : List Status) (to_state : Status) (fields : Order → Order)
    (xs : List Order) (x : Order)
    → ((o : Order) → (fields o).id ≡ o.id)
    → get_order k xs ≡ some x
    → is_in x.status from_states ≡ true
    → get_order k (transition k from_states to_state fields xs).0
      ≡ some (moved_to to_state fields x)
moved-found k from_states to_state fields xs x keep found stands =
    get-transition k from_states to_state fields keep k xs
    ∙ ap (Option.map (λ o. if awaits k from_states o then moved_to to_state fields o else o)) found
    ∙ ap some (cc (awaiting (get-key order_id k xs x found)))
  where
    awaiting : x.id ≡ k → awaits k from_states x ≡ true
    awaiting e = ground arith

pub moved-IsUnique :
    (k : ℕ) (from_states : List Status) (to_state : Status) (fields : Order → Order)
    (xs : List Order)
    → ((o : Order) → (fields o).id ≡ o.id)
    → IsUnique order_id xs
    → IsUnique order_id (transition k from_states to_state fields xs).0
unfolding transition
moved-IsUnique k from_states to_state fields xs keep u =
    update-IsUnique order_id (awaits k from_states) (moved_to to_state fields) keep xs u
