-- ===== src/History.antt =====
-- The routes of app/main.py and the sweeper as steps on one database, in any order: a store creates
-- an order, a buyer submits a hash or polls, the sweeper ticks, a merchant refunds. SQLite runs one
-- write transaction at a time.
pub mod Safety
use tilla.Base.{ℕ, ◌≡◌, some, List, [], Bool, ok}
use tilla.Base.Text.{Text}
use tilla.Models.{Order, Store, Db, Env}
use tilla.Chain.{ChainConfig}
use tilla.Checkout.Transition.{get_order}
use tilla.Checkout.Allocation.{Draws, Basket, create_order}
use tilla.Checkout.Allocation.Laws.{IsRandint}
use tilla.Checkout.Verify.{Node, verify_txhash}
use tilla.Checkout.Promote.{refresh_order}
use tilla.Checkout.Sweep.{Tables, Rpc, sweep_tick}
use tilla.Refunds.{apply_refund}

abbrev pub with_orders : Db → List Order → Db
with_orders db orders = record db { orders = orders }

infix 40 ◌⇒◌ ◌⇒*◌
pub data ◌⇒◌ : Db → Db → Type 0 where
  creates :
      {db : Db} (env : Env) (draws : Draws) (b : Basket) (r : Order × List Order)
      → IsRandint draws
      → create_order env draws b db.orders ≡ ok r
      → db ⇒ with_orders db r.1
  submits :
      {db db' : Db} (env : Env) (node : Node) (o : Order) (tx_hash : Text)
      → get_order o.id db.orders ≡ some o
      → verify_txhash env node o tx_hash db ≡ ok db'
      → db ⇒ db'
  polls :
      {db db' : Db} (env : Env) (node : Node) (o : Order)
      → get_order o.id db.orders ≡ some o
      → refresh_order env node o db ≡ ok db'
      → db ⇒ db'
  sweeps :
      (env : Env) (rpc : Rpc) (chain_enabled : ChainConfig → Bool) (t : Tables)
      → t.db ⇒ (sweep_tick env rpc chain_enabled t).committed.db
  refunds :
      {db : Db} (env : Env) (node : Node) (o : Order) (store : Store) (tx_hash kind : Text)
      (r : ℕ × Db)
      → get_order o.id db.orders ≡ some o
      → apply_refund env node o store tx_hash kind db ≡ ok r
      → db ⇒ r.1

pub data ◌⇒*◌ : Db → Db → Type 0 where
  start : {a : Db} → a ⇒* a
  step : {a b c : Db} → a ⇒ b → b ⇒* c → a ⇒* c

-- A database before its first order.
pub record IsFresh (db : Db) : Type 0 where
  pub no_orders : db.orders ≡ []
  pub no_transfers : db.transfers ≡ []
  pub no_deliveries : db.deliveries ≡ []
