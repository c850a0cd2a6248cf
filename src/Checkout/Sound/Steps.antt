-- ===== src/Checkout/Sound/Steps.antt =====
-- The three steps that every operation of app/checkout.py is made of, a conditional UPDATE, the
-- record of a transfer and the insert of a delivery, keep the invariant.
use tilla.Base.{ℕ, ◌≡◌, sym, ◌∙◌, subst, true, some, List, arith, All, All-mono, All-both}
use tilla.Base.Zip.{Zip, update-Zip, Pairs-Zip, update-All_dep, get-only, get-Zip}
use tilla.Models.{Order, Status, is_in, ProcessedTransfer, Delivery}
use tilla.Checkout.Transition.{awaits, moved_to, transition, order_id, get_order}
use tilla.Checkout.Sound.{Evolves, Evolves-refl, Apart-Evolves, IsCovered, IsEarned, IsSound}

IsEarned-Zip :
    (xs ys : List Order) → Zip Evolves xs ys → (d : Delivery) → IsEarned xs d → IsEarned ys d
IsEarned-Zip xs ys z d h =
    let (y, found, e) =
      get-Zip order_id Evolves (λ a b r. r.same_id) d.order_id xs ys h.order z h.found in
    record {
      order = y;
      found = found;
      covers = λ w. omega (arith, h.covers (sym e.same_channel ∙ w), e.paid_grows, e.same_expected);
    }

-- Rows that evolve and stay covered keep the invariant.
pub evolve-IsSound :
    (xs ys : List Order) (ts : List ProcessedTransfer) (ds : List Delivery)
    → Zip Evolves xs ys
    → All (IsCovered ts) ys
    → IsSound xs ts ds
    → IsSound ys ts ds
evolve-IsSound xs ys ts ds z cov s = record {
  orders_unique =
      Pairs-Zip Evolves (λ a b. order_id a ≡ order_id b → ⊥)
        (λ a b a' b' p q ne e. ne (sym p.same_id ∙ e ∙ q.same_id)) xs ys z s.orders_unique;
  amounts_apart = Pairs-Zip Evolves _ Apart-Evolves xs ys z s.amounts_apart;
  transfers_distinct = s.transfers_distinct;
  covered = cov;
  earned = All-mono _ _ (IsEarned-Zip xs ys z) ds s.earned;
  delivered_once = s.delivered_once;
}

-- What an UPDATE of the one row `o` needs of it: that the new row evolves from it and is covered.
pub record IsFit (ts : List ProcessedTransfer) (o o' : Order) : Type 0 where
  pub evolves : Evolves o o'
  pub covers : IsCovered ts o'

module _ (k : ℕ) (from_states : List Status) (to_state : Status) (fields : Order → Order)
    (xs : List Order) (ts : List ProcessedTransfer) (ds : List Delivery) (o : Order)
    (found : get_order k xs ≡ some o)
    (fit : is_in o.status from_states ≡ true → IsFit ts o (moved_to to_state fields o)) where
  abbrev after : List Order
  after = (transition k from_states to_state fields xs).0

  the_row : IsSound xs ts ds → All (λ x. x.id ≡ k → x ≡ o) xs
  the_row s = get-only order_id k xs o s.orders_unique found

  IsFit-at :
      (x : Order)
      → (x.id ≡ k → x ≡ o)
      → awaits k from_states x ≡ true
      → IsFit ts x (moved_to to_state fields x)
  IsFit-at x only h =
      let same : x ≡ o = only (ground arith) in
      subst (λ v. IsFit ts v (moved_to to_state fields v)) (sym same)
        (fit (subst (λ v. is_in v.status from_states ≡ true) same (ground arith)))

  pub transition-Zip : IsSound xs ts ds → Zip Evolves xs after
  unfolding transition
  transition-Zip s =
      update-Zip Evolves Evolves-refl (awaits k from_states) (moved_to to_state fields) xs
        (All-mono _ _ (λ x only h. (IsFit-at x only h).evolves) xs (the_row s))

  both : (s : IsSound xs ts ds) → All (λ x. (x.id ≡ k → x ≡ o) × IsCovered ts x) xs
  both s = All-both _ _ xs (the_row s) s.covered

  pub transition-IsSound : IsSound xs ts ds → IsSound after ts ds
  unfolding transition
  transition-IsSound s =
      evolve-IsSound xs after ts ds (transition-Zip s)
        (update-All_dep (IsCovered ts) (awaits k from_states) (moved_to to_state fields) xs
          (All-mono _ _ (λ x h. ((λ e. (IsFit-at x h.0 e).covers), (λ e. h.1))) xs (both s)))
        s
