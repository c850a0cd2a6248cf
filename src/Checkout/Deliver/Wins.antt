-- ===== src/Checkout/Deliver/Wins.antt =====
-- The branch of `deliver` that wins: the order ends up delivered, with its delivery row.
use tilla.Base.{
  ℕ, ◌≡◌, refl, sym, ap, ◌∙◌, subst, true, Option, none, some, List, ◌==◌, ==_iff, is_some,
  if◌then◌else◌, Bool-cases, inl, inr,
}
use mathlib.Core.Option
use tilla.Base.Rows.{find-append}
use tilla.Base.Keyed.{get, IsUnique, get-update, get-key}
use tilla.Models
use tilla.Models.{Order, Store, Db, Env, Delivery, is_in, is_web}
use tilla.Checkout.Transition.{ready_to_deliver, moved_to, transition, order_id, get_order}
use tilla.Checkout.Transition.Laws.{transition-wins, stands, moved-found}
use tilla.Checkout.Deliver.{
  Goods, delivery_of, insert_delivery, queue_attest, announce_web, announce, stocked, fulfil,
  delivered_now, deliver,
}

same_number : (k : ℕ) → (k == k) ≡ true
same_number k = (==_iff k k).1 refl

-- After the insert the order has a delivery.
insert_delivery-finds :
    (o : Order) (g : Goods) (ds : List Delivery)
    → is_some (delivery_of o.id (insert_delivery o g ds)) ≡ true
unfolding insert_delivery
insert_delivery-finds o g ds = elim (Bool-cases (is_some (delivery_of o.id ds))) [
  | inl old ↦ rw old old
  | inr new ↦ rw new (
      find-append (λ d. d.order_id == o.id) ds
        (record { order_id = o.id; kind = g.kind; payload = g.payload }) (same_number o.id))
]

-- What the winner leaves: the row is still delivered, and the order has its delivery.
pub record Delivered (k : ℕ) (db : Db) : Type 0 where
  pub row : Order
  pub found : get_order k db.orders ≡ some row
  pub status : row.status ≡ Models.Status.delivered
  pub has_delivery : is_some (delivery_of k db.deliveries) ≡ true

queue_attest-status : (env : Env) (o : Order) → (queue_attest env o).status ≡ o.status
queue_attest-status env o = elim (Bool-cases env.attest_enabled) [
  | inl e ↦ rw e refl
  | inr e ↦ rw e refl
]

queue_attest-id : (env : Env) (o : Order) → (queue_attest env o).id ≡ o.id
queue_attest-id env o = elim (Bool-cases env.attest_enabled) [
  | inl e ↦ rw e refl
  | inr e ↦ rw e refl
]

picked :
    (env : Env) (k : ℕ) (x : Order)
    → (if x.id == k then queue_attest env x else x).status ≡ x.status
picked env k x = elim (Bool-cases (x.id == k)) [
  | inl e ↦ rw e (queue_attest-status env x)
  | inr e ↦ rw e refl
]

announce-Delivered :
    (env : Env) (o : Order) (store : Option Store) (k : ℕ) (db : Db)
    → Delivered k db
    → Delivered k (announce env o store db)
unfolding announce announce_web
announce-Delivered env o none k db d = d
announce-Delivered env o (some s) k db d = elim (Bool-cases (is_web o.channel)) [
  | inr agent ↦ rw agent d
  | inl web ↦ rw web (record {
    row = if d.row.id == o.id then queue_attest env d.row else d.row;
    found =
        get-update order_id (λ x. x.id == o.id) (queue_attest env) (queue_attest-id env) k db.orders
        ∙ ap (Option.map (λ x. if x.id == o.id then queue_attest env x else x)) d.found;
    status = picked env o.id d.row ∙ d.status;
    has_delivery = d.has_delivery;
  })
]

fulfil-Delivered :
    (env : Env) (o : Order) (db : Db)
    → get_order o.id db.orders ≡ some o
    → o.status ≡ Models.Status.delivered
    → Delivered o.id (fulfil env o db)
unfolding fulfil stocked
fulfil-Delivered env o db found done =
    announce-Delivered env o (get (λ s. s.id) o.store_id db.stores) o.id (stocked env o db)
      (record {
        row = o;
        found = found;
        status = done;
        has_delivery = insert_delivery-finds o _ db.deliveries;
      })

-- A call of `deliver` for an order that is ready makes it delivered and leaves it with a delivery,
-- if ids are unique.
pub deliver-Delivered :
    (env : Env) (k : ℕ) (db : Db) (x : Order)
    → IsUnique order_id db.orders
    → get_order k db.orders ≡ some x
    → is_in x.status ready_to_deliver ≡ true
    → Delivered k (deliver env k db).1
unfolding deliver transition
deliver-Delivered env k db x unique found ready =
    let fields = delivered_now env.now in
    let moved = moved_to Models.Status.delivered fields x in
    let is_k : x.id ≡ k = get-key order_id k db.orders x found in
    let wins : (transition k ready_to_deliver Models.Status.delivered fields db.orders).1 ≡ true =
      transition-wins k ready_to_deliver Models.Status.delivered fields db.orders unique
      ∙ ap (stands k ready_to_deliver Models.Status.delivered fields) found
      ∙ ready in
    let row : get_order k (transition k ready_to_deliver Models.Status.delivered fields db.orders).0
        ≡ some moved =
      moved-found k ready_to_deliver Models.Status.delivered fields db.orders x (λ o. refl) found
        ready in
    let after = record db {
      orders = (transition k ready_to_deliver Models.Status.delivered fields db.orders).0;
    } in
    rw (wins, row)
      (subst (λ n. Delivered n (fulfil env moved after)) is_k
        (fulfil-Delivered env moved after
          (subst (λ n. get_order n after.orders ≡ some moved) (sym is_k) row) refl))
