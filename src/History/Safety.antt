-- ===== src/History/Safety.antt =====
-- What holds in every database that a history of steps reaches.
use tilla.Base.{
  ℕ, ◌≤◌, ◌≡◌, refl, sym, subst, true, some, List, [], ◌∷◌, ◌++◌, arith, All, All-mono, ◌⊎◌, inl,
  inr,
}
use tilla.Base.Keyed.{get-All, get-append}
use tilla.Base.Zip.{get-Zip}
use tilla.Models.{Status, Order, Db, Delivery, web, delivered, refunded, is_in, status_eq}
use tilla.Checkout.Machine.{◌⟶*◌, ◌⟶◌, here, along, refund_delivered}
use tilla.Checkout.Transition.{order_id, get_order}
use tilla.Checkout.Sound.{
  IsSound, Sound, Keeps, Evolves, Evolves-refl, Evolves-trans, IsCovered, IsEarned, credited,
}
use tilla.Checkout.Allocation.Keeps.{create_order-IsSound}
use tilla.Checkout.Allocation.Laws.{create_order-IsAllocated}
use tilla.Checkout.Verify.Keeps.{verify_txhash-Keeps}
use tilla.Checkout.Promote.Keeps.{refresh_order-Keeps}
use tilla.Checkout.Sweep.Keeps.{sweep_tick-Keeps}
use tilla.Refunds.Keeps.{apply_refund-Keeps}
use tilla.History.{
  ◌⇒◌, ◌⇒*◌, creates, submits, polls, sweeps, refunds, start, step, IsFresh, with_orders,
}

-- The row of an order in a later database.
pub record Persists (k : ℕ) (x : Order) (db : Db) : Type 0 where
  pub row : Order
  pub found : get_order k db.orders ≡ some row
  pub evolved : Evolves x row

-- A step keeps the invariant, and every order is still there, evolved.
record Safe (a b : Db) : Type 0 where
  sound : Sound b
  persists : (k : ℕ) (x : Order) → get_order k a.orders ≡ some x → Persists k x b

Keeps-Safe : (a b : Db) → Keeps a b → Safe a b
Keeps-Safe a b k = record {
  sound = k.sound;
  persists = λ n x found.
      let (y, there, evolved) =
        get-Zip order_id Evolves (λ p q r. r.same_id) n a.orders b.orders x k.evolves found in
      record { row = y; found = there; evolved = evolved };
}

appended-Persists :
    (db : Db) (os : List Order) (o : Order) (k : ℕ) (x : Order)
    → os ≡ db.orders ++ (o ∷ [])
    → get_order k db.orders ≡ some x
    → Persists k x (with_orders db os)
appended-Persists db os o k x e found = record {
  row = x;
  found =
      subst (λ l. get_order k l ≡ some x) (sym e)
        (ground (arith, get-append order_id k db.orders (o ∷ [])));
  evolved = Evolves-refl x;
}

step-Safe : {a b : Db} → a ⇒ b → Sound a → Safe a b
step-Safe (creates {db} env draws b r rand made) s = record {
  sound = create_order-IsSound env draws b db.orders db.transfers db.deliveries r rand made s;
  persists = λ k x found.
      appended-Persists db r.1 r.0 k x
        (create_order-IsAllocated env draws b db.orders r rand made).appended found;
}
step-Safe (submits {db} {db'} env node o tx_hash found h) s =
    Keeps-Safe db db' (verify_txhash-Keeps env node o tx_hash db db' found s h)
step-Safe (polls {db} {db'} env node o found h) s =
    Keeps-Safe db db' (refresh_order-Keeps env o db found s node db' h)
step-Safe (sweeps env rpc chain_enabled t) s =
    Keeps-Safe t.db _ (sweep_tick-Keeps env rpc chain_enabled t s)
step-Safe (refunds {db} env node o store tx_hash kind r found h) s =
    Keeps-Safe db r.1 (apply_refund-Keeps env o store db found s node tx_hash kind r h)

history-Safe : {a b : Db} → a ⇒* b → Sound a → Safe a b
history-Safe {a} start s = record {
  sound = s;
  persists = λ k x found. record { row = x; found = found; evolved = Evolves-refl x };
}
history-Safe (step one_step rest) s =
    let first = step-Safe one_step s in
    let later = history-Safe rest first.sound in
    record {
      sound = later.sound;
      persists = λ k x found.
          let p = first.persists k x found in
          let q = later.persists k p.row p.found in
          record {
            row = q.row;
            found = q.found;
            evolved = Evolves-trans x p.row q.row p.evolved q.evolved;
          };
    }

IsFresh-Sound : (db : Db) → IsFresh db → Sound db
IsFresh-Sound db f =
    subst (λ os. IsSound os db.transfers db.deliveries) (sym f.no_orders)
      (subst (λ ts. IsSound [] ts db.deliveries) (sym f.no_transfers)
        (subst (λ ds. IsSound [] [] ds) (sym f.no_deliveries)
          (record {
            orders_unique = tt;
            amounts_apart = tt;
            transfers_distinct = tt;
            covered = tt;
            earned = tt;
            delivered_once = tt;
          })))

-- Every history from a fresh database ends in a database with the invariant: unique orders, no two
-- orders on one amount at one address, no transfer twice, no order delivered twice.
pub history-Sound : {a b : Db} → IsFresh a → a ⇒* b → Sound b
history-Sound {a} fresh h = (history-Safe h (IsFresh-Sound a fresh)).sound

-- A delivery of a web order that recorded transfers of the order pay in full.
pub record IsPaid (db : Db) (d : Delivery) : Type 0 where
  pub order : Order
  pub found : get_order d.order_id db.orders ≡ some order
  pub paid : order.channel ≡ web → order.expected_micro ≤ credited order.id db.transfers

earned-IsPaid : (db : Db) → Sound db → (d : Delivery) → IsEarned db.orders d → IsPaid db d
earned-IsPaid db s d e = record {
  order = e.order;
  found = e.found;
  paid = λ w.
      let c =
        get-All order_id (IsCovered db.transfers) d.order_id db.orders e.order e.found s.covered in
      omega (arith, e.covers w, c.credit_le w);
}

-- In every history from a fresh database all goods that were delivered for web orders are paid in
-- full by transfers on record.
pub no_free_goods : {a b : Db} → IsFresh a → a ⇒* b → All (IsPaid b) b.deliveries
no_free_goods {a} {b} fresh h =
    let s = history-Sound fresh h in
    All-mono (IsEarned b.orders) (IsPaid b) (earned-IsPaid b s) b.deliveries s.earned

pub orders_persist :
    {a b : Db}
    → Sound a
    → a ⇒* b
    → (k : ℕ) (x : Order) → get_order k a.orders ≡ some x
    → Persists k x b
orders_persist s h k x found = (history-Safe h s).persists k x found

abbrev fulfilled : List Status
fulfilled = delivered ∷ refunded ∷ []

edge-fulfilled : {s t : Status} → s ⟶ t → is_in s fulfilled ≡ true → is_in t fulfilled ≡ true
unfolding status_eq
edge-fulfilled refund_delivered h = refl
edge-fulfilled _ h = absurd (ground arith)

path-fulfilled : {s t : Status} → s ⟶* t → is_in s fulfilled ≡ true → is_in t fulfilled ≡ true
path-fulfilled here h = h
path-fulfilled (along e p) h = path-fulfilled p (edge-fulfilled e h)

fulfilled-cases : (s : Status) → is_in s fulfilled ≡ true → (s ≡ delivered) ⊎ (s ≡ refunded)
unfolding status_eq
fulfilled-cases delivered h = inl refl
fulfilled-cases refunded h = inr refl
fulfilled-cases _ h = absurd (ground arith)

delivered_fulfilled : is_in delivered fulfilled ≡ true
unfolding status_eq
delivered_fulfilled = refl

-- From a database with the invariant, no history takes a delivered order back: it stays delivered,
-- unless it is refunded.
pub delivered_stays :
    {a b : Db}
    → Sound a
    → a ⇒* b
    → (k : ℕ) (x : Order) → get_order k a.orders ≡ some x
    → x.status ≡ delivered
    → (y : Order) → get_order k b.orders ≡ some y
    → (y.status ≡ delivered) ⊎ (y.status ≡ refunded)
delivered_stays s h k x found e y there =
    let p = orders_persist s h k x found in
    let same : p.row ≡ y = cc (p.found, there) in
    fulfilled-cases y.status (
      path-fulfilled (subst (λ (v : Order). x.status ⟶* v.status) same p.evolved.path)
        (subst (λ st. is_in st fulfilled ≡ true) (sym e) delivered_fulfilled))
