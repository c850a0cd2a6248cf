-- ===== src/Checkout/Matching/Laws.antt =====
-- What the sweeper credits: only the exact amount, at the address, on the chain of an order that
-- still waits for it; and nothing twice.
use tilla.Base.{
  ℕ, ◌≡◌, refl, ap, subst, Bool, true, ◌&&◌, Option, none, some, List, [], ◌∷◌, arith, ◌==◌, ==_iff,
  ltb, Bool-cases, Option-cases, inl, inr, All, All-mono, ◌⊎◌, ok, ok-injective,
}
use tilla.Base.Text.{Text, text_eq_iff}
use tilla.Base.Rows.{select, find_sound, find-All, find-none, select_sound, select-All}
use tilla.Base.Keyed.{get_self}
use tilla.Models.{Order, ProcessedTransfer, Db, Env, is_in, expired}
use tilla.Chain.{Log, Transfer, decode_transfer_log}
use tilla.Checkout.Transition.{in_flight, order_id}
use tilla.Checkout.Drive.{transfer_row}
use tilla.Checkout.Drive.Keeps.{apply_transfer-Keeps}
use tilla.Checkout.Matching.{
  awaits_payment, awaits_late, is_quarantined, earliest, match_order, find_transfer, credit,
  process_transfer, process_decoded, process_log, is_agent_settlement,
}
use tilla.Checkout.Sound.{Sound, Keeps, Keeps-refl, Distinct}

earliest-All {κ} :
    (P : Order → Type κ) (os : List Order) (o : Order) → earliest os ≡ some o → All P os → P o
unfolding earliest
earliest-All P [] o h a = absurd (ground arith)
earliest-All P (x ∷ xs) o h a = elim (Option-cases (earliest xs)) [
  | inl e ↦ subst P (ground arith) a.0
  | inr (y, e) ↦ elim (Bool-cases (ltb y.created_at x.created_at)) [
    | inl newer ↦ earliest-All P xs o (ground arith) a.1
    | inr older ↦ subst P (ground arith) a.0
  ]
]

-- A matched order is on the chain that was swept, at the address that was paid, priced at exactly
-- the value, and either in flight or expired and still in quarantine.
pub record IsMatch (env : Env) (network pay_to : Text) (value : ℕ) (o : Order) : Type 0 where
  pub on_chain : o.network ≡ network
  pub at_address : o.pay_to ≡ pay_to
  pub exactly : o.expected_micro ≡ value
  pub waits :
      (is_in o.status in_flight ≡ true)
      ⊎ ((is_in o.status (expired ∷ []) ≡ true) × (is_quarantined env o ≡ true))

in_flight-IsMatch :
    (env : Env) (network pay_to : Text) (value : ℕ) (o : Order)
    → awaits_payment network pay_to value o ≡ true
    → IsMatch env network pay_to value o
in_flight-IsMatch env network pay_to value o h = record {
  on_chain = (text_eq_iff o.network network).0 (ground arith);
  at_address = (text_eq_iff o.pay_to pay_to).0 (ground arith);
  exactly = ground arith;
  waits = inl (ground arith);
}

late-IsMatch :
    (env : Env) (network pay_to : Text) (value : ℕ) (o : Order)
    → awaits_late env network pay_to value o ≡ true
    → IsMatch env network pay_to value o
late-IsMatch env network pay_to value o h = record {
  on_chain = (text_eq_iff o.network network).0 (ground arith);
  at_address = (text_eq_iff o.pay_to pay_to).0 (ground arith);
  exactly = ground arith;
  waits = inr (ground arith, ground arith);
}

-- Whatever order `_match_order` returns is on the chain that was swept and at the address that was
-- paid, asks for exactly the value in full, whatever was credited to it before, and is either in
-- flight or expired and still in quarantine.
pub match_order-IsMatch :
    (env : Env) (network pay_to : Text) (value : ℕ) (orders : List Order) (o : Order)
    → match_order env network pay_to value orders ≡ some o
    → IsMatch env network pay_to value o
unfolding match_order
match_order-IsMatch env network pay_to value orders o h =
    elim (Option-cases (earliest (select (awaits_payment network pay_to value) orders))) [
      | inr (x, e) ↦ in_flight-IsMatch env network pay_to value o (
          earliest-All (λ y. awaits_payment network pay_to value y ≡ true) _ o (ground arith)
            (select_sound (awaits_payment network pay_to value) orders))
      | inl e ↦
          late-IsMatch env network pay_to value o
            (find_sound (awaits_late env network pay_to value) orders o (ground arith))
    ]

match_order-All {κ} :
    (P : Order → Type κ) (env : Env) (network pay_to : Text) (value : ℕ) (orders : List Order)
    (o : Order)
    → match_order env network pay_to value orders ≡ some o
    → All P orders
    → P o
unfolding match_order
match_order-All P env network pay_to value orders o h a =
    elim (Option-cases (earliest (select (awaits_payment network pay_to value) orders))) [
      | inr (x, e) ↦
          let waiting = select (awaits_payment network pay_to value) orders in
          earliest-All P waiting o (ground arith) (select-All P _ orders a)
      | inl e ↦ find-All P (awaits_late env network pay_to value) orders o (ground arith) a
    ]

pub unrecorded-Distinct :
    (d : Transfer) (o : Order) (ts : List ProcessedTransfer)
    → find_transfer d ts ≡ none
    → All (λ u. Distinct u (transfer_row o d)) ts
unrecorded-Distinct d o ts h =
    All-mono _ _
      (λ u miss same_hash same_index. cc (
        miss,
        (==_iff u.log_index d.log_index).1 same_index,
        ap (λ (b : Bool). b && (u.log_index == d.log_index))
            ((text_eq_iff u.tx_hash d.tx_hash).1 same_hash),
      ))
      ts (find-none _ ts h)

-- A swept transfer, whether it matches an order or not, keeps the invariant of a database.
pub process_transfer-Keeps :
    (env : Env) (network : Text) (d : Transfer) (head : ℕ) (db : Db)
    → Sound db
    → Keeps db (process_transfer env network d head db)
unfolding process_transfer
process_transfer-Keeps env network d head db s =
    elim (Option-cases (find_transfer d db.transfers)) [
      | inr (t, seen) ↦ rw seen (Keeps-refl db s)
      | inl new ↦ elim (Bool-cases (is_agent_settlement d.tx_hash db.orders)) [
        | inl settled ↦ rw (new, settled) (Keeps-refl db s)
        | inr unsettled ↦
            rw (new, unsettled)
              (credit-Keeps (match_order env network d.to d.value db.orders) refl new)
      ]
    ]
  where
    credit-Keeps :
        (m : Option Order)
        → match_order env network d.to d.value db.orders ≡ m
        → find_transfer d db.transfers ≡ none
        → Keeps db (credit env m d head db)
    credit-Keeps none e new =
        let k = Keeps-refl db s in record { sound = k.sound; evolves = k.evolves }
    credit-Keeps (some o) e new =
        apply_transfer-Keeps env o d head db
          (match_order-All _ env network d.to d.value db.orders o e
            (get_self order_id db.orders s.orders_unique))
          (unrecorded-Distinct d o db.transfers new)
          (λ late.
            omega (arith, (match_order-IsMatch env network d.to d.value db.orders o e).exactly))
          s

process_decoded-Keeps :
    (env : Env) (network : Text) (head : ℕ) (m : Option Transfer) (db db' : Db)
    → process_decoded env network head m db ≡ ok db'
    → Sound db
    → Keeps db db'
unfolding process_decoded
process_decoded-Keeps env network head none db db' h s = absurd (cc)
process_decoded-Keeps env network head (some d) db db' h s =
    subst (Keeps db) (ok-injective _ _ h) (process_transfer-Keeps env network d head db s)

-- A processed log keeps the invariant, if it decodes.
pub process_log-Keeps :
    (env : Env) (network : Text) (head : ℕ) (lg : Log) (db db' : Db)
    → process_log env network head lg db ≡ ok db'
    → Sound db
    → Keeps db db'
unfolding process_log
process_log-Keeps env network head lg db db' h s =
    process_decoded-Keeps env network head (decode_transfer_log lg) db db' h s
