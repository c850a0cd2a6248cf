-- ===== src/Checkout/Deliver.antt =====
-- `deliver` of app/checkout.py and `_active_deliverable`, with the inserts, the events, the
-- webhooks and the accrual of the winning branch.
pub mod Keeps
pub mod Frame
pub mod Wins
use tilla.Base.{
  ℕ, suc, max, Bool, true, false, ◌&&◌, ◌||◌, Option, none, some, List, [], ◌∷◌, ◌++◌, ◌==◌, ltb,
  is_some, if◌then◌else◌,
}
use tilla.Base.Text.{Text, codes, opt_text_eq}
use tilla.Base.Rows.{find, select, update}
use tilla.Base.Keyed.{get}
use tilla.Models
use tilla.Models.{
  is_web, Order, Store, Deliverable, Delivery, Entitlement, Kind, file, text, license, Channel, web,
  agent, Visibility, public, hidden, Db, Env, log_event, eval_pending, attest_pending, order_paid,
}
use tilla.Webhooks.{enqueue}
use tilla.Affiliates.Accrual.{accrue}
use tilla.Checkout.Transition.{ready_to_deliver, transition, order_id, get_order}

-- DEFAULT_DELIVERY, and delivery.FILE_READY_MESSAGE.
abbrev pub default_delivery : Text
default_delivery = codes "Payment received — thank you!"

abbrev pub file_ready_message : Text
file_ready_message = codes "Your download is ready."

-- `.order_by(Deliverable.id.desc()).limit(1)`
unfoldable pub newest : List Deliverable → Option Deliverable
newest [] = none
newest (d ∷ ds) =
    let rest = newest ds in
    elim rest [ none ↦ some d | some e ↦ if ltb d.id e.id then some e else some d ]

abbrev same_product : Option ℕ → Option ℕ → Bool
same_product none none = true
same_product (some a) (some b) = a == b
same_product _ _ = false

abbrev serves : ℕ → Option ℕ → Deliverable → Bool
serves store_id product_id d =
    (d.store_id == store_id) && (same_product d.product_id product_id && d.active)

-- A deliverable of the product wins; else the store's own.
unfoldable pub active_deliverable : List Deliverable → ℕ → Option ℕ → Option Deliverable
unfolding newest
active_deliverable ds store_id none = newest (select (serves store_id none) ds)
active_deliverable ds store_id (some p) = elim (newest (select (serves store_id (some p)) ds)) [
  | none ↦ newest (select (serves store_id none) ds)
  | some d ↦ some d
]

pub record Goods : Type 0 where
  pub kind : Kind
  pub payload : Text
  pub license_key : Option Text

-- Python's `text or default`, where the empty text counts as none.
abbrev pub text_or : Option Text → Text → Text
text_or none d = d
text_or (some []) d = d
text_or (some (c ∷ cs)) d = c ∷ cs

legacy_text : Option Store → Text
legacy_text none = default_delivery
legacy_text (some s) = text_or s.delivery default_delivery

goods_of : Kind → Text → Deliverable → Goods
goods_of license key d = record { kind = license; payload = key; license_key = some key }
goods_of file key d = record { kind = file; payload = file_ready_message; license_key = none }
goods_of text key d = record {
  kind = text;
  payload = text_or d.payload default_delivery;
  license_key = none;
}

unfoldable pub goods : Text → Option Store → Option Deliverable → Goods
unfolding legacy_text goods_of
goods key store none = record { kind = text; payload = legacy_text store; license_key = none }
goods key store (some d) = goods_of d.kind key d

max_id : List Entitlement → ℕ
max_id [] = 0
max_id (e ∷ es) = max e.id (max_id es)

same_key : Option Text → Option Text → Bool
same_key none k = false
same_key (some t) k = opt_text_eq k t

-- The two UNIQUE constraints of `entitlements`: one row for an order, one for a licence key.
clashes : ℕ → Option Text → Entitlement → Bool
unfolding same_key
clashes order_id key e = (e.order_id == order_id) || same_key e.license_key key

-- `begin_nested` with an insert: a clash rolls back the insert alone.
unfoldable pub entitle :
    Order → Option Deliverable → Option Text → List Entitlement → List Entitlement
unfolding max_id clashes
entitle o none key es = es
entitle o (some d) key es =
    if is_some (find (clashes o.id key) es)
    then es
    else es
      ++ (record {
        id = suc (max_id es);
        order_id = o.id;
        deliverable_id = d.id;
        buyer_addr = o.from_addr;
        download_count = 0;
        activations_used = 0;
        license_key = key;
        revoked_at = none;
      }
          ∷ [])

abbrev pub delivery_of : ℕ → List Delivery → Option Delivery
delivery_of k = find λ d. d.order_id == k

unfoldable pub insert_delivery : Order → Goods → List Delivery → List Delivery
insert_delivery o g ds =
    if is_some (delivery_of o.id ds)
    then ds
    else ds ++ (record { order_id = o.id; kind = g.kind; payload = g.payload } ∷ [])

is_hidden : Visibility → Bool
is_hidden public = false
is_hidden hidden = true

-- A hidden store becomes public on its first sale.
unfoldable pub graduate : ℕ → List Store → List Store
unfolding is_hidden
graduate k =
    update (λ s. (s.id == k) && is_hidden s.visibility) λ s. record s { visibility = public }

-- `if config.ATTEST_ENABLED: order.attest_status = "pending"`
abbrev pub queue_attest : Env → Order → Order
queue_attest env o = if env.attest_enabled then record o { attest_status = attest_pending } else o

announce_web : Env → Order → Store → Db → Db
announce_web env o s db =
    let o' = queue_attest env o in
    let (rows, events) = accrue env.affiliate_bps o' s db.accruals db.events in
    record db {
      orders = update (λ x. x.id == o.id) (queue_attest env) db.orders;
      outbox =
          enqueue db.merchants env.now s.merchant_id Models.WebhookEvent.order_delivered o'
            (enqueue db.merchants env.now s.merchant_id order_paid o' db.outbox);
      accruals = rows;
      events = events;
    }

-- What the winner queues: attestation, the two webhooks and the affiliate accrual of a web order.
unfoldable pub announce : Env → Order → Option Store → Db → Db
unfolding announce_web is_web
announce env o none db = db
announce env o (some s) db = if is_web o.channel then announce_web env o s db else db

-- The inserts of the winning branch: the store, the entitlement, the delivery and the event.
stocked : Env → Order → Db → Db
stocked env o db =
    let store = get (λ s. s.id) o.store_id db.stores in
    let deliverable = active_deliverable db.deliverables o.store_id o.product_id in
    let g = goods env.license_key store deliverable in
    record db {
      stores = graduate o.store_id db.stores;
      entitlements = entitle o deliverable g.license_key db.entitlements;
      deliveries = insert_delivery o g db.deliveries;
      events = log_event Models.Event.order_delivered o db.events;
    }

-- The branch of the call that won the transition, on the row as it now stands.
unfoldable pub fulfil : Env → Order → Db → Db
unfolding stocked
fulfil env o db = announce env o (get (λ s. s.id) o.store_id db.stores) (stocked env o db)

abbrev pub delivered_now : ℕ → Order → Order
delivered_now now o = record o { paid_at = some now; eval_status = eval_pending }

abbrev pub fulfil_row : Env → Option Order → Db → Db
fulfil_row env none db = db
fulfil_row env (some o) db = fulfil env o db

-- The delivery row of the order, and the database.
unfoldable pub deliver : Env → ℕ → Db → Option Delivery × Db
unfolding fulfil
deliver env k db =
    let (orders, won) =
      transition k ready_to_deliver Models.Status.delivered (delivered_now env.now) db.orders in
    let db' = record db { orders = orders } in
    let after = if won then fulfil_row env (get_order k orders) db' else db' in
    (delivery_of k after.deliveries, after)
