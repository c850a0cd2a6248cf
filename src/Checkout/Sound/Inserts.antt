-- ===== src/Checkout/Sound/Inserts.antt =====
-- The two inserts keep the invariant: a transfer that is not on record yet, and a delivery for an
-- order whose credit covers its price.
use tilla.Base.{
  ℕ, ◌+◌, ◌≤◌, ◌≡◌, some, List, [], ◌∷◌, ◌++◌, arith, Option-cases, inl, inr, All, All-append,
  All-mono, Pairs-append_one,
}
use tilla.Base.Rows.{find-none}
use tilla.Models.{Order, web, ProcessedTransfer, Delivery}
use tilla.Checkout.Transition.{get_order}
use tilla.Checkout.Deliver.{Goods, delivery_of, insert_delivery}
use tilla.Checkout.Sound.{IsCovered, IsEarned, IsSound, credited, delivery_order, Distinct}

pub credited-append :
    (k : ℕ) (ts us : List ProcessedTransfer) → credited k (ts ++ us) ≡ credited k ts + credited k us
credited-append k [] us = omega arith
credited-append k (t ∷ ts) us = omega (arith, credited-append k ts us)

pub IsCovered-append :
    (ts us : List ProcessedTransfer) (o : Order) → IsCovered ts o → IsCovered (ts ++ us) o
IsCovered-append ts us o c = record {
  credit_le = λ w. omega (arith, c.credit_le w, credited-append o.id ts us);
  enough = c.enough;
}

pub record_IsSound :
    (xs : List Order) (ts : List ProcessedTransfer) (ds : List Delivery) (t : ProcessedTransfer)
    → All (λ u. Distinct u t) ts
    → IsSound xs ts ds
    → IsSound xs (ts ++ (t ∷ [])) ds
record_IsSound xs ts ds t fresh s = record {
  orders_unique = s.orders_unique;
  amounts_apart = s.amounts_apart;
  transfers_distinct = Pairs-append_one Distinct ts t s.transfers_distinct fresh;
  covered = All-mono _ _ (IsCovered-append ts (t ∷ [])) xs s.covered;
  earned = s.earned;
  delivered_once = s.delivered_once;
}

pub insert_delivery-IsSound :
    (xs : List Order) (ts : List ProcessedTransfer) (ds : List Delivery) (o : Order) (g : Goods)
    → get_order o.id xs ≡ some o
    → (o.channel ≡ web → o.expected_micro ≤ o.paid_micro)
    → IsSound xs ts ds
    → IsSound xs ts (insert_delivery o g ds)
unfolding insert_delivery
insert_delivery-IsSound xs ts ds o g found covers s = elim (Option-cases (delivery_of o.id ds)) [
  | inr (d, e) ↦ rw e s
  | inl e ↦ rw e (record {
    orders_unique = s.orders_unique;
    amounts_apart = s.amounts_apart;
    transfers_distinct = s.transfers_distinct;
    covered = s.covered;
    earned =
        All-append (IsEarned xs) ds _ s.earned
          (record { order = o; found = found; covers = covers }, tt);
    delivered_once =
        Pairs-append_one (λ x y. delivery_order x ≡ delivery_order y → ⊥) ds _ s.delivered_once
          (All-mono _ _ (λ d miss same. ground arith) ds (find-none _ ds e));
  })
]
