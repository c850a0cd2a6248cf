-- ===== src/Checkout/Sound.antt =====
-- The invariant of the order, transfer and delivery tables that app/checkout.py maintains, and how
-- one order row may evolve.
pub mod Steps
pub mod Inserts
use tilla.Base.{
  ℕ, ◌+◌, ◌≤◌, ◌≡◌, refl, true, some, List, [], ◌∷◌, arith, ◌==◌, if◌then◌else◌, All, Pairs,
}
use tilla.Base.Keyed.{IsUnique}
use tilla.Base.Zip.{Zip, Zip-refl, Zip-trans}
use tilla.Models.{
  Db, Order, Status, is_in, web, ProcessedTransfer, Delivery, detected, confirmed, overpaid,
  late_paid, delivered,
}
use tilla.Checkout.Machine.{◌⟶*◌, here, path_trans, indexed, path-indexed}
use tilla.Checkout.Transition.{order_id, get_order}

-- The micro-USDT of the recorded transfers of one order.
abbrev pub credited : ℕ → List ProcessedTransfer → ℕ
credited k [] = 0
credited k (t ∷ ts) = (if t.order_id == k then t.amount_micro else 0) + credited k ts

-- The statuses that stand for a full payment.
abbrev pub funded : List Status
funded = detected ∷ confirmed ∷ overpaid ∷ late_paid ∷ delivered ∷ []

-- What an operation may make of one row: its terms stay, its credit grows, and its status follows
-- the diagram.
pub record Evolves (x y : Order) : Type 0 where
  pub same_id : y.id ≡ x.id
  pub same_channel : y.channel ≡ x.channel
  pub same_pay_to : y.pay_to ≡ x.pay_to
  pub same_network : y.network ≡ x.network
  pub same_expected : y.expected_micro ≡ x.expected_micro
  pub paid_grows : x.paid_micro ≤ y.paid_micro
  pub path : x.status ⟶* y.status

-- A web order is credited no more than its recorded transfers, and a full payment is one.
pub record IsCovered (transfers : List ProcessedTransfer) (o : Order) : Type 0 where
  pub credit_le : o.channel ≡ web → o.paid_micro ≤ credited o.id transfers
  pub enough : o.channel ≡ web → is_in o.status funded ≡ true → o.expected_micro ≤ o.paid_micro

-- Two orders do not hold one amount at one address.
abbrev pub Apart : Order → Order → Type 0
Apart x y =
    is_in x.status indexed ≡ true
    → is_in y.status indexed ≡ true
    → x.pay_to ≡ y.pay_to
    → x.expected_micro ≡ y.expected_micro
    → ⊥

abbrev pub Distinct : ProcessedTransfer → ProcessedTransfer → Type 0
Distinct s t = s.tx_hash ≡ t.tx_hash → s.log_index ≡ t.log_index → ⊥

abbrev pub delivery_order : Delivery → ℕ
delivery_order d = d.order_id

-- A delivery belongs to an order whose price its credit covers.
pub record IsEarned (orders : List Order) (d : Delivery) : Type 0 where
  pub order : Order
  pub found : get_order d.order_id orders ≡ some order
  pub covers : order.channel ≡ web → order.expected_micro ≤ order.paid_micro

pub record IsSound (orders : List Order) (transfers : List ProcessedTransfer)
    (deliveries : List Delivery) : Type 0 where
  pub orders_unique : IsUnique order_id orders
  pub amounts_apart : Pairs Apart orders
  pub transfers_distinct : Pairs Distinct transfers
  pub covered : All (IsCovered transfers) orders
  pub earned : All (IsEarned orders) deliveries
  pub delivered_once : IsUnique delivery_order deliveries

pub Evolves-refl : (x : Order) → Evolves x x
Evolves-refl x = record {
  same_id = refl;
  same_channel = refl;
  same_pay_to = refl;
  same_network = refl;
  same_expected = refl;
  paid_grows = omega arith;
  path = here;
}

pub Evolves-trans : (x y z : Order) → Evolves x y → Evolves y z → Evolves x z
Evolves-trans x y z p q = record {
  same_id = cc;
  same_channel = cc;
  same_pay_to = cc;
  same_network = cc;
  same_expected = cc;
  paid_grows = omega arith;
  path = path_trans p.path q.path;
}

pub Apart-Evolves : (x y x' y' : Order) → Evolves x x' → Evolves y y' → Apart x y → Apart x' y'
Apart-Evolves x y x' y' p q apart hx hy same_address same_amount =
    apart (path-indexed p.path hx) (path-indexed q.path hy) (cc) (omega arith)

-- The invariant of a database.
abbrev pub Sound : Db → Type 0
Sound db = IsSound db.orders db.transfers db.deliveries

-- What an operation promises: the invariant is kept and every order evolves.
pub record Keeps (db db' : Db) : Type 0 where
  pub sound : Sound db'
  pub evolves : Zip Evolves db.orders db'.orders

pub Keeps-refl : (db : Db) → Sound db → Keeps db db
Keeps-refl db s = record { sound = s; evolves = Zip-refl Evolves Evolves-refl db.orders }

pub Keeps-trans : (a b c : Db) → Keeps a b → Keeps b c → Keeps a c
Keeps-trans a b c p q = record {
  sound = q.sound;
  evolves = Zip-trans Evolves Evolves-trans a.orders b.orders c.orders p.evolves q.evolves;
}
