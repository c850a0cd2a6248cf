-- ===== src/Checkout/Deliver/Frame.antt =====
-- What `deliver` leaves alone.
use tilla.Base.{ℕ, ◌≡◌, refl, Option, none, some, arith, Bool-cases, inl, inr}
use tilla.Models.{delivered, Order, Store, Db, Env}
use tilla.Checkout.Transition.{transition, get_order, ready_to_deliver}
use tilla.Checkout.Deliver.{delivered_now, announce, fulfil, fulfil_row, deliver}

-- The transfers and the refunds.
pub record SameLedger (db db' : Db) : Type 0 where
  pub transfers : db'.transfers ≡ db.transfers
  pub refunds : db'.refunds ≡ db.refunds

announce-SameLedger :
    (env : Env) (o : Order) (s : Option Store) (db : Db) → SameLedger db (announce env o s db)
unfolding announce
announce-SameLedger env o none db = record { transfers = refl; refunds = refl }
announce-SameLedger env o (some st) db = ground arith

fulfil_row-SameLedger :
    (env : Env) (row : Option Order) (db : Db) → SameLedger db (fulfil_row env row db)
unfolding fulfil
fulfil_row-SameLedger env none db = record { transfers = refl; refunds = refl }
fulfil_row-SameLedger env (some o) db =
    let a = announce-SameLedger env o _ _ in record { transfers = a.transfers; refunds = a.refunds }

pub deliver-SameLedger : (env : Env) (k : ℕ) (db : Db) → SameLedger db (deliver env k db).1
unfolding deliver
deliver-SameLedger env k db =
    let table = transition k ready_to_deliver delivered (delivered_now env.now) db.orders in
    let f = fulfil_row-SameLedger env (get_order k table.0) (record db { orders = table.0 }) in
    elim (Bool-cases table.1) [
      | inl won ↦ rw won (record { transfers = f.transfers; refunds = f.refunds })
      | inr lost ↦ rw lost (record { transfers = refl; refunds = refl })
    ]
