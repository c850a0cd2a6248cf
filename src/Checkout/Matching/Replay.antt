-- ===== src/Checkout/Matching/Replay.antt =====
-- A window that is swept again: the same log credits nothing a second time.
use tilla.Base.{ℕ, ◌≡◌, refl, ap, ◌∙◌, true, false, some, arith, is_some, Bool-cases, inl, inr}
use tilla.Base.Text.{Text, text_eq_refl}
use tilla.Base.Rows.{find-append}
use tilla.Chain.{Transfer}
use tilla.Models.{Order, Db, Env}
use tilla.Checkout.Drive.{transfer_row, apply_transfer}
use tilla.Checkout.Drive.Frame.{apply_transfer-transfers}
use tilla.Checkout.Matching.{
  is_recorded, find_transfer, is_agent_settlement, match_order, credit, process_transfer,
}

own_row : (d : Transfer) (o : Order) → is_recorded d.tx_hash d.log_index (transfer_row o d) ≡ true
own_row d o = ground (arith, text_eq_refl d.tx_hash)

-- A swept transfer that matches an order, and that settled no agent order, changes nothing when it
-- is swept again, at whatever time and head.
pub process_transfer_once :
    (env later : Env) (network : Text) (d : Transfer) (head head' : ℕ) (db : Db) (o : Order)
    → is_agent_settlement d.tx_hash db.orders ≡ false
    → match_order env network d.to d.value db.orders ≡ some o
    → process_transfer later network d head' (process_transfer env network d head db)
      ≡ process_transfer env network d head db
unfolding process_transfer credit
process_transfer_once env later network d head head' db o unsettled matched =
    elim (Bool-cases (is_some (find_transfer d db.transfers))) [
      | inl seen ↦ rw (seen, seen) refl
      | inr new ↦
          let there : is_some (find_transfer d (apply_transfer env o d head db).transfers) ≡ true =
            ap (λ ts. is_some (find_transfer d ts)) (apply_transfer-transfers env o d head db)
            ∙ find-append (is_recorded d.tx_hash d.log_index) db.transfers (transfer_row o d)
                (own_row d o) in
          rw (new, unsettled, matched, there) refl
    ]
