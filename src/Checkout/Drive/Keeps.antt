-- ===== src/Checkout/Drive/Keeps.antt =====
-- `_drive_state` and `apply_transfer` keep the invariant of the tables.
use tilla.Base.{
  ℕ, ◌+◌, ◌-◌, ◌≤◌, ◌≡◌, refl, true, some, List, [], ◌∷◌, arith, Bool-cases, inl, inr, ltb, All,
}
use tilla.Base.Keyed.{get-All}
use tilla.Chain.{Transfer}
use tilla.Models.{
  Status, Order, Db, Env, Event, is_in, status_eq, web, pending, detected, underpaid, confirmed,
  overpaid, late_paid, expired, ProcessedTransfer,
}
use tilla.Checkout.Machine.{
  ◌⟶*◌, one, pay_short, pay_more, see_pending, see_detected, see_underpaid, confirm_pending,
  confirm_detected, confirm_underpaid, over_pending, over_detected, over_underpaid, pay_late,
}
use tilla.Checkout.Transition.{in_flight, moved_to, order_id, get_order}
use tilla.Checkout.Deliver.{deliver}
use tilla.Checkout.Deliver.Keeps.{deliver-Keeps}
use tilla.Checkout.Drive.{
  Inbound, depth_ok, inbound_fields, with_over, move_and_log, drive_late, drive_paid, drive_state,
  record_transfer, apply_transfer, transfer_row, inbound,
}
use tilla.Checkout.Sound.{Sound, Keeps, Keeps-trans, funded, credited, Distinct}
use tilla.Checkout.Sound.Steps.{IsFit, transition-Zip, transition-IsSound}
use tilla.Checkout.Sound.Inserts.{record_IsSound, credited-append}

-- An UPDATE of a row as it stands keeps the invariant, if the new row is fit.
pub move-Keeps :
    (o : Order) (from_states : List Status) (to_state : Status) (event : Event)
    (fields : Order → Order) (db : Db)
    → get_order o.id db.orders ≡ some o
    → (is_in o.status from_states ≡ true → IsFit db.transfers o (moved_to to_state fields o))
    → Sound db
    → Keeps db (move_and_log o from_states to_state event fields db)
move-Keeps o from_states to_state event fields db found fit s = record {
  sound =
      transition-IsSound o.id from_states to_state fields db.orders db.transfers db.deliveries o
        found fit s;
  evolves =
      transition-Zip o.id from_states to_state fields db.orders db.transfers db.deliveries o found
        fit s;
}

flight-detected : (t : Status) → is_in t in_flight ≡ true → t ⟶* detected
unfolding status_eq
flight-detected pending h = one see_pending
flight-detected detected h = one see_detected
flight-detected underpaid h = one see_underpaid
flight-detected _ h = absurd (ground arith)

flight-confirmed : (t : Status) → is_in t in_flight ≡ true → t ⟶* confirmed
unfolding status_eq
flight-confirmed pending h = one confirm_pending
flight-confirmed detected h = one confirm_detected
flight-confirmed underpaid h = one confirm_underpaid
flight-confirmed _ h = absurd (ground arith)

flight-overpaid : (t : Status) → is_in t in_flight ≡ true → t ⟶* overpaid
unfolding status_eq
flight-overpaid pending h = one over_pending
flight-overpaid detected h = one over_detected
flight-overpaid underpaid h = one over_underpaid
flight-overpaid _ h = absurd (ground arith)

short-underpaid : (t : Status) → is_in t (pending ∷ underpaid ∷ []) ≡ true → t ⟶* underpaid
unfolding status_eq
short-underpaid pending h = one pay_short
short-underpaid underpaid h = one pay_more
short-underpaid _ h = absurd (ground arith)

expired-late : (t : Status) → is_in t (expired ∷ []) ≡ true → t ⟶* late_paid
unfolding status_eq
expired-late expired h = one pay_late
expired-late _ h = absurd (ground arith)

-- The transfers on record cover what the row held and what has arrived, and the sum is the price
-- or more, unless the row stands in flight short of it.
pub record Funds (o : Order) (i : Inbound) (ts : List ProcessedTransfer) : Type 0 where
  pub on_record : o.channel ≡ web → o.paid_micro + i.added ≤ credited o.id ts
  pub exact : is_in o.status (expired ∷ []) ≡ true → o.expected_micro ≤ o.paid_micro + i.added

module _ (o : Order) (i : Inbound) (db : Db) (money : Funds o i db.transfers) where
  IsFit-to :
      (to_state : Status) (over : ℕ)
      → o.status ⟶* to_state
      → (is_in to_state funded ≡ true → o.expected_micro ≤ o.paid_micro + i.added)
      → IsFit db.transfers o (moved_to to_state (with_over over (inbound_fields o i)) o)
  IsFit-to to_state over path enough = record {
    evolves = record {
      same_id = refl;
      same_channel = refl;
      same_pay_to = refl;
      same_network = refl;
      same_expected = refl;
      paid_grows = omega arith;
      path = path;
    };
    covers = record { credit_le = money.on_record; enough = λ _ h. enough h };
  }

  IsFit-plain :
      (to_state : Status)
      → o.status ⟶* to_state
      → (is_in to_state funded ≡ true → o.expected_micro ≤ o.paid_micro + i.added)
      → IsFit db.transfers o (moved_to to_state (inbound_fields o i) o)
  IsFit-plain to_state path enough = record {
    evolves = record {
      same_id = refl;
      same_channel = refl;
      same_pay_to = refl;
      same_network = refl;
      same_expected = refl;
      paid_grows = omega arith;
      path = path;
    };
    covers = record { credit_le = money.on_record; enough = λ _ h. enough h };
  }

  module _ (env : Env) (found : get_order o.id db.orders ≡ some o) (s : Sound db) where
    then_deliver : (moved : Db) → Keeps db moved → Keeps db (deliver env o.id moved).1
    then_deliver moved k = Keeps-trans db moved _ k (deliver-Keeps env o.id moved k.sound)

    drive_late-Keeps : is_in o.status (expired ∷ []) ≡ true → Keeps db (drive_late env o i db)
    unfolding drive_late
    drive_late-Keeps late =
        let k =
          move-Keeps o (expired ∷ []) late_paid _ (inbound_fields o i) db found
            (λ h. IsFit-plain late_paid (expired-late o.status h) (λ _. money.exact late)) s in
        elim (Bool-cases (depth_ok env i)) [
          | inl deep ↦ rw deep (then_deliver _ k)
          | inr shallow ↦ rw shallow k
        ]

    drive_paid-Keeps :
        (over : ℕ)
        → o.expected_micro ≤ o.paid_micro + i.added
        → Keeps db (drive_paid env o i over db)
    unfolding drive_paid
    drive_paid-Keeps over enough =
        let seen =
          move-Keeps o in_flight detected _ (with_over over (inbound_fields o i)) db found
            (λ h. IsFit-to detected over (flight-detected o.status h) (λ _. enough)) s in
        let paid_exactly =
          move-Keeps o in_flight confirmed _ (with_over over (inbound_fields o i)) db found
            (λ h. IsFit-to confirmed over (flight-confirmed o.status h) (λ _. enough)) s in
        let paid_over =
          move-Keeps o in_flight overpaid _ (with_over over (inbound_fields o i)) db found
            (λ h. IsFit-to overpaid over (flight-overpaid o.status h) (λ _. enough)) s in
        elim (Bool-cases (depth_ok env i)) [
          | inr shallow ↦ rw shallow seen
          | inl deep ↦ elim (Bool-cases (ltb 0 over)) [
            | inl more ↦ rw (deep, more) (then_deliver _ paid_over)
            | inr no_more ↦ rw (deep, no_more) (then_deliver _ paid_exactly)
          ]
        ]

    pub drive_state-Keeps : Keeps db (drive_state env o i db)
    unfolding drive_state
    drive_state-Keeps =
        let short =
          move-Keeps o (pending ∷ underpaid ∷ []) underpaid _ (inbound_fields o i) db found
            (λ h.
              IsFit-plain underpaid (short-underpaid o.status h)
                (unfold status_eq in λ absurd_. absurd (cc)))
            s in
        elim (Bool-cases (is_in o.status (expired ∷ []))) [
          | inl late ↦ rw late (drive_late-Keeps late)
          | inr timely ↦ elim (Bool-cases (ltb (o.paid_micro + i.added) o.expected_micro)) [
            | inl less ↦ rw (timely, less) short
            | inr enough ↦
                rw (timely, enough)
                  (drive_paid-Keeps (o.paid_micro + i.added - o.expected_micro) (ground arith))
          ]
        ]

own : (o : Order) (d : Transfer) → credited o.id (transfer_row o d ∷ []) ≡ d.value
own o d = ground arith

-- One verified transfer, not yet on record, applied to an order as it stands: the invariant is
-- kept if an expired order is paid its price in full.
pub apply_transfer-Keeps :
    (env : Env) (o : Order) (d : Transfer) (head : ℕ) (db : Db)
    → get_order o.id db.orders ≡ some o
    → All (λ u. Distinct u (transfer_row o d)) db.transfers
    → (is_in o.status (expired ∷ []) ≡ true → o.expected_micro ≤ o.paid_micro + d.value)
    → Sound db
    → Keeps db (apply_transfer env o d head db)
unfolding apply_transfer
apply_transfer-Keeps env o d head db found is_fresh exact s =
    let s' = record_IsSound db.orders db.transfers db.deliveries (transfer_row o d) is_fresh s in
    let c = get-All order_id _ o.id db.orders o found s.covered in
    let money : Funds o (inbound d head) (record_transfer o d db).transfers = record {
      on_record = λ w. omega (
        arith,
        c.credit_le w,
        credited-append o.id db.transfers (transfer_row o d ∷ []),
        own o d,
      );
      exact = exact;
    } in
    let k = drive_state-Keeps o (inbound d head) (record_transfer o d db) money env found s' in
    record { sound = k.sound; evolves = k.evolves }
