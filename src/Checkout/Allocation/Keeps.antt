-- ===== src/Checkout/Allocation/Keeps.antt =====
-- A new order keeps the invariant of the tables.
use tilla.Base.{
  ℕ, ◌+◌, ◌≡◌, ◌≢◌, refl, sym, subst, ◌||◌, none, Option, true, false, ◌&&◌, some, List, [], ◌∷◌,
  ◌++◌, arith, ◌==◌, any, is_some, All, All-mono, All-append, Pairs-append_one, ok, Bool,
}
use tilla.Base.Text.{text_eq_iff}
use tilla.Base.Keyed.{get, get-append}
use tilla.Base.Rows.{find-none}
use tilla.Models.{Order, Env, is_in, status_eq, ProcessedTransfer, Delivery}
use tilla.Checkout.Machine.{indexed}
use tilla.Checkout.Transition.{order_id, get_order}
use tilla.Checkout.Allocation.{
  has_amount, Draws, Basket, base_price, new_order, violates, create_order,
}
use tilla.Checkout.Allocation.Laws.{IsRandint, create_order-IsAllocated}
use tilla.Checkout.Sound.{IsSound, IsCovered, IsEarned, Apart}

any-none {ℓ} :
    {A : Type ℓ} → (p : A → Bool) (xs : List A) → any p xs ≡ false → All (λ x. p x ≡ false) xs
any-none p [] h = tt
any-none p (x ∷ xs) h = (ground arith, any-none p xs (ground arith))

has_amount_lem :
    (x o : Order)
    → x.pay_to ≡ o.pay_to
    → x.expected_micro ≡ o.expected_micro
    → has_amount o.pay_to o.expected_micro x ≡ true
has_amount_lem x o p e = ground (arith, (text_eq_iff x.pay_to o.pay_to).1 p)

IsEarned-append :
    (os : List Order) (o : Order) (d : Delivery) → IsEarned os d → IsEarned (os ++ (o ∷ [])) d
IsEarned-append os o d e = record {
  order = e.order;
  found = ground (arith, e.found, get-append order_id d.order_id os (o ∷ []));
  covers = e.covers;
}

new_order-IsCovered :
    (env : Env) (b : Basket) (id expected : ℕ) (ts : List ProcessedTransfer)
    → IsCovered ts (new_order env b id expected)
unfolding status_eq
new_order-IsCovered env b id expected ts = record {
  credit_le = λ w. omega arith;
  enough = λ w f. absurd (cc f);
}

not_some {ℓ} : {A : Type ℓ} → (m : Option A) → is_some m ≡ false → m ≡ none
not_some none h = refl
not_some (some a) h = absurd (cc)

or_false : (a b : Bool) → (a || b) ≡ false → (a ≡ false) × (b ≡ false)
or_false a b h = ground arith

Apart-new :
    (o x : Order)
    → (is_in x.status indexed && has_amount o.pay_to o.expected_micro x) ≡ false
    → Apart x o
Apart-new o x miss hx _ same_address same_amount =
    absurd (ground (arith, has_amount_lem x o same_address same_amount))

-- A row that the constraints admit keeps the invariant.
insert_order-IsSound :
    (os : List Order) (ts : List ProcessedTransfer) (ds : List Delivery) (o : Order)
    → violates o os ≡ false
    → IsCovered ts o
    → IsSound os ts ds
    → IsSound (os ++ (o ∷ [])) ts ds
unfolding violates get
insert_order-IsSound os ts ds o h c s =
    let (unknown, free) = or_false (is_some (get_order o.id os)) _ h in
    let missing = find-none (λ x. order_id x == o.id) os (not_some _ unknown) in
    let held =
      any-none (λ x. is_in x.status indexed && has_amount o.pay_to o.expected_micro x) os free in
    record {
      orders_unique =
          Pairs-append_one (λ x y. order_id x ≢ order_id y) os o s.orders_unique
            (All-mono (λ x. (order_id x == o.id) ≡ false) (λ x. order_id x ≢ o.id)
              (λ x miss same. ground arith) os missing);
      amounts_apart =
          Pairs-append_one Apart os o s.amounts_apart (All-mono _ _ (Apart-new o) os held);
      transfers_distinct = s.transfers_distinct;
      covered = All-append _ os (o ∷ []) s.covered (c, tt);
      earned = All-mono _ _ (IsEarned-append os o) ds s.earned;
      delivered_once = s.delivered_once;
    }

-- With a `randint` in its range, a creation that succeeds keeps the invariant of the tables.
pub create_order-IsSound :
    (env : Env) (draws : Draws) (b : Basket) (os : List Order) (ts : List ProcessedTransfer)
    (ds : List Delivery) (r : Order × List Order)
    → IsRandint draws
    → create_order env draws b os ≡ ok r
    → IsSound os ts ds
    → IsSound r.1 ts ds
create_order-IsSound env draws b os ts ds r rand h s =
    let a = create_order-IsAllocated env draws b os r rand h in
    subst (λ os'. IsSound os' ts ds) (sym a.appended)
      (insert_order-IsSound os ts ds r.0 a.allowed
        (subst (IsCovered ts) (sym a.made)
          (new_order-IsCovered env b a.id (base_price b + a.offset) ts))
        s)
