-- ===== src/Tests/World.antt =====
-- One store, one order and one payment, for the runs of the tests.
use tilla.Base.{false, none, some, [], ◌∷◌, ◌+◌, ok}
use tilla.Base.Text.{Text, codes}
use tilla.Chain.{Log, Receipt, Transfer, transfer_topic}
use tilla.Payment.{canonical_chain}
use tilla.Models
use tilla.Models.{
  Env, Db, Store, Order, public, delivered, refunded, eval_pending, text, full, log_event,
  order_confirmed, live,
}
use tilla.Checkout.Allocation.{Draws, Basket, new_order}
use tilla.Checkout.Verify.{Node}

abbrev pub shop_address : Text
shop_address = codes "0x1111111111111111111111111111111111111111"

abbrev pub buyer_address : Text
buyer_address = codes "0x2222222222222222222222222222222222222222"

abbrev pub env : Env
env = record {
  now = 1000;
  license_key = codes "KEY";
  confirmations = 6;
  quarantine = 86400;
  order_ttl = 1800;
  attest_enabled = false;
  affiliate_bps = 0;
}

abbrev pub shop : Store
shop = record {
  id = 3;
  slug = codes "shop";
  merchant_id = 4;
  status = live;
  pay_to = shop_address;
  visibility = public;
  delivery = some (codes "thanks");
}

abbrev pub blank_db : Db
blank_db = record {
  orders = [];
  transfers = [];
  refunds = [];
  deliverables = [];
  deliveries = [];
  entitlements = [];
  stores = shop ∷ [];
  merchants = [];
  outbox = [];
  accruals = [];
  events = [];
}

-- A `randint` that draws the least number.
abbrev pub draws : Draws
draws = record { fresh_id = λ i. i + 7; randint = λ i lo hi. lo }

abbrev pub basket : Basket
basket = record {
  store = shop;
  product_id = 5;
  price_micro = 1000000;
  price_override = none;
  referrer_addr = none;
  buyer_inputs = none;
  created_block = none;
}

abbrev pub order : Order
order = new_order env basket 7 1000001

abbrev pub order_db : Db
order_db = record blank_db { orders = order ∷ [] }

abbrev pub shop_topic : Text
shop_topic = codes "0x0000000000000000000000001111111111111111111111111111111111111111"

abbrev pub buyer_topic : Text
buyer_topic = codes "0x0000000000000000000000002222222222222222222222222222222222222222"

abbrev pub transfer_log : Text → Text → Text → Log
transfer_log sender recipient hash = record {
  address = canonical_chain.asset;
  topics = transfer_topic ∷ sender ∷ recipient ∷ [];
  word = codes "0xf4241";
  transaction_hash = hash;
  log_index = codes "0x0";
  block_number = codes "0xa";
}

abbrev pub receipt : Text → Text → Text → Receipt
receipt sender recipient hash = record {
  status = codes "0x1";
  block_number = some (codes "0xa");
  logs = transfer_log sender recipient hash ∷ [];
}

abbrev pub payment_hash : Text
payment_hash = codes "0xaa"

abbrev pub refund_hash : Text
refund_hash = codes "0xbb"

-- A node that knows one transfer of 1000001, in block 10, and a head of 100.
abbrev pub payment_node : Node
payment_node = record {
  receipt = λ cfg hash. ok (some (receipt buyer_topic shop_topic payment_hash));
  head = λ cfg. ok 100;
}

abbrev pub refund_node : Node
refund_node = record {
  receipt = λ cfg hash. ok (some (receipt shop_topic buyer_topic refund_hash));
  head = λ cfg. ok 100;
}

abbrev pub payment : Transfer
payment = record {
  from = buyer_address;
  to = shop_address;
  value = 1000001;
  tx_hash = payment_hash;
  log_index = 0;
  block_number = 10;
}

abbrev pub sold_row : Order
sold_row = record order {
  status = delivered;
  paid_micro = 1000001;
  tx_hash = some payment_hash;
  from_addr = some buyer_address;
  block_number = some 10;
  paid_at = some 1000;
  eval_status = eval_pending;
}

-- After the sale.
abbrev pub sold_db : Db
sold_db = record blank_db {
  orders = sold_row ∷ [];
  transfers =
      record {
        tx_hash = payment_hash;
        log_index = 0;
        order_id = 7;
        pay_to = shop_address;
        from_addr = buyer_address;
        amount_micro = 1000001;
        block_number = 10;
      }
      ∷ [];
  deliveries = record { order_id = 7; kind = text; payload = codes "thanks" } ∷ [];
  events = log_event Models.Event.order_delivered sold_row (log_event order_confirmed order []);
}

abbrev pub refunded_row : Order
refunded_row = record sold_row { status = refunded; refunded_micro = 1000001 }

-- After its refund.
abbrev pub refunded_db : Db
refunded_db = record sold_db {
  orders = refunded_row ∷ [];
  refunds =
      record {
        order_id = 7;
        kind = full;
        tx_hash = refund_hash;
        log_index = 0;
        amount_micro = 1000001;
        block_number = 10;
      }
      ∷ [];
  events = log_event Models.Event.order_refunded sold_row sold_db.events;
}
