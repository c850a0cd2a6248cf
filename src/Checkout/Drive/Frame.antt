-- ===== src/Checkout/Drive/Frame.antt =====
-- What `_drive_state` leaves alone.
use tilla.Base.{ℕ, ◌+◌, ◌≡◌, refl, Bool-cases, inl, inr, ltb, [], ◌∷◌, ◌++◌}
use tilla.Models.{Order, Db, Env, is_in, expired}
use tilla.Chain.{Transfer}
use tilla.Checkout.Deliver.Frame.{SameLedger, deliver-SameLedger}
use tilla.Checkout.Drive.{
  Inbound, depth_ok, drive_late, drive_paid, drive_state, apply_transfer, record_transfer,
  transfer_row, inbound,
}

drive_late-SameLedger :
    (env : Env) (o : Order) (i : Inbound) (db : Db) → SameLedger db (drive_late env o i db)
unfolding drive_late
drive_late-SameLedger env o i db = elim (Bool-cases (depth_ok env i)) [
  | inl deep ↦
      let f = deliver-SameLedger env o.id _ in
      rw deep (record { transfers = f.transfers; refunds = f.refunds })
  | inr shallow ↦ rw shallow (record { transfers = refl; refunds = refl })
]

drive_paid-SameLedger :
    (env : Env) (o : Order) (i : Inbound) (over : ℕ) (db : Db)
    → SameLedger db (drive_paid env o i over db)
unfolding drive_paid
drive_paid-SameLedger env o i over db = elim (Bool-cases (depth_ok env i)) [
  | inl deep ↦
      let f = deliver-SameLedger env o.id _ in
      rw deep (record { transfers = f.transfers; refunds = f.refunds })
  | inr shallow ↦ rw shallow (record { transfers = refl; refunds = refl })
]

pub drive_state-SameLedger :
    (env : Env) (o : Order) (i : Inbound) (db : Db) → SameLedger db (drive_state env o i db)
unfolding drive_state
drive_state-SameLedger env o i db = elim (Bool-cases (is_in o.status (expired ∷ []))) [
  | inl late ↦ rw late (drive_late-SameLedger env o i db)
  | inr timely ↦ elim (Bool-cases (ltb (o.paid_micro + i.added) o.expected_micro)) [
    | inl less ↦ rw (timely, less) (record { transfers = refl; refunds = refl })
    | inr enough ↦ rw (timely, enough) (drive_paid-SameLedger env o i _ db)
  ]
]

-- Applying a transfer records it, and no other.
pub apply_transfer-transfers :
    (env : Env) (o : Order) (d : Transfer) (head : ℕ) (db : Db)
    → (apply_transfer env o d head db).transfers ≡ db.transfers ++ (transfer_row o d ∷ [])
unfolding apply_transfer
apply_transfer-transfers env o d head db =
    (drive_state-SameLedger env o (inbound d head) (record_transfer o d db)).transfers
