-- ===== src/Checkout/Allocation.antt =====
-- `_amount_taken` and `create_order` of app/checkout.py: the unique amount of a new order. The
-- checked inputs, the chain head and the fresh ids come from the caller.
pub mod Laws
pub mod Busy
pub mod Keeps
use tilla.Base.{
  ℕ, zero, suc, ◌+◌, ◌*◌, ◌/◌, min, max, Bool, true, false, ◌&&◌, ◌||◌, Option, none, some, List,
  [], ◌∷◌, ◌++◌, ◌==◌, ltb, is_some, or_else, any, if◌then◌else◌, Result, ok, err,
}
use tilla.Base.Text.{Text, text_eq}
use tilla.Models.{
  Order, Store, Db, Env, is_in, status_eq, pending, expired, web, eval_none, attest_none,
}
use tilla.Payment.{canonical_chain}
use tilla.Checkout.Machine.{indexed}
use tilla.Checkout.Transition.{always_hold, cooldown_hold, order_id, get_order}
use tilla.Checkout.Matching.{is_quarantined}

abbrev pub amount_offset_min : ℕ
amount_offset_min = 1

abbrev pub amount_offset_max : ℕ
amount_offset_max = 4999

abbrev pub amount_offset_max_pct : ℕ
amount_offset_max_pct = 1

abbrev pub amount_offset_floor : ℕ
amount_offset_floor = 50

abbrev pub amount_alloc_retries : ℕ
amount_alloc_retries = 10

abbrev pub has_amount : Text → ℕ → Order → Bool
has_amount pay_to candidate o = text_eq o.pay_to pay_to && (o.expected_micro == candidate)

-- Whether a row still speaks for its amount.
abbrev pub holds : Env → Order → Bool
holds env o =
    if is_in o.status always_hold
    then true
    else if is_in o.status (expired ∷ [])
    then is_quarantined env o
    else if is_in o.status cooldown_hold
    then ltb env.now (or_else o.paid_at o.created_at + env.quarantine)
    else false

unfoldable pub amount_taken : Env → Text → ℕ → List Order → Bool
amount_taken env pay_to candidate = any (λ o. has_amount pay_to candidate o && holds env o)

-- The span of the offset, scaled to the price.
unfoldable pub offset_span : ℕ → ℕ
offset_span base =
    min amount_offset_max (max amount_offset_floor (base * amount_offset_max_pct / 100))

-- What the caller brings: the price, the order ids of the draws, and `random.randint`.
pub record Draws : Type 0 where
  pub fresh_id : ℕ → ℕ
  pub randint : ℕ → ℕ → ℕ → ℕ

pub record Basket : Type 0 where
  pub store : Store
  pub product_id : ℕ
  pub price_micro : ℕ
  pub price_override : Option ℕ
  pub referrer_addr : Option Text
  pub buyer_inputs : Option (List (Text × Text))
  pub created_block : Option ℕ

abbrev pub base_price : Basket → ℕ
base_price b = or_else b.price_override b.price_micro

abbrev pub new_order : Env → Basket → ℕ → ℕ → Order
new_order env b id expected = record {
  id = id;
  store_id = b.store.id;
  product_id = some b.product_id;
  pay_to = b.store.pay_to;
  network = canonical_chain.caip2;
  amount_micro = base_price b;
  expected_micro = expected;
  paid_micro = 0;
  overpaid_micro = 0;
  refunded_micro = 0;
  status = pending;
  channel = web;
  tx_hash = none;
  settle_ref = none;
  from_addr = none;
  referrer_addr = b.referrer_addr;
  block_number = none;
  created_block = b.created_block;
  expires_at = some (env.now + env.order_ttl);
  buyer_inputs = b.buyer_inputs;
  created_at = env.now;
  paid_at = none;
  eval_status = eval_none;
  attest_status = attest_none;
}

-- The primary key and the partial unique index `ux_orders_active_amount`.
unfoldable pub violates : Order → List Order → Bool
violates o orders =
    is_some (get_order o.id orders)
    || any (λ x. is_in x.status indexed && has_amount o.pay_to o.expected_micro x) orders

pub data AmountUnavailable : Type 0 where
  checkout_busy : AmountUnavailable

-- The loop, `rounds` draws before it gives up; `i` numbers the draw.
unfoldable pub allocate :
    Env → Draws → Basket → ℕ → ℕ → List Order → Result AmountUnavailable (Order × List Order)
allocate env draws b zero i orders = err checkout_busy
allocate env draws b (suc rounds) i orders =
    let offset = draws.randint i amount_offset_min (offset_span (base_price b)) in
    let o = new_order env b (draws.fresh_id i) (base_price b + offset) in
    let rest = allocate env draws b rounds (i + 1) orders in
    if amount_taken env b.store.pay_to (base_price b + offset) orders
    then rest
    else if violates o orders
    then rest
    else ok (o, orders ++ (o ∷ []))

unfoldable pub create_order :
    Env → Draws → Basket → List Order → Result AmountUnavailable (Order × List Order)
unfolding allocate
create_order env draws b orders = allocate env draws b amount_alloc_retries 0 orders
