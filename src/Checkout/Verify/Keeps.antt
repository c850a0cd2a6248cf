-- ===== src/Checkout/Verify/Keeps.antt =====
-- `verify_txhash` keeps the invariant of the tables.
use tilla.Base.{
  ℕ, ◌+◌, ◌≡◌, refl, sym, ap, ◌∙◌, subst, not, some, List, [], ◌∷◌, map, arith, ◌==◌, Bool-cases,
  inl, inr, ok, >>=-eq-ok, for_each, for_each_inv, ok-injective, raise_if-eq-ok, or_raise-eq-ok,
}
use tilla.Base.Text.{Text}
use tilla.Base.Keyed.{get-All}
use tilla.Models.{Order, Db, Env, is_in, delivered, paid, refunded}
use tilla.Chain.{Transfer, ChainConfig, Receipt, succeeded}
use tilla.Payment.{chain_for}
use tilla.Checkout.Transition.{order_id, get_order}
use tilla.Base.Zip.{Zip}
use tilla.Checkout.Drive.{Inbound, drive_state, transfer_row}
use tilla.Checkout.Drive.Keeps.{Funds, drive_state-Keeps}
use tilla.Checkout.Sound.{Sound, Keeps, Keeps-refl, credited, Evolves}
use tilla.Checkout.Sound.Inserts.{credited-append}
use tilla.Checkout.Verify.{
  Scan, no_scan, Node, no_longer_active, window_closed, scan_log, insert_transfer, settle_scan,
  verify_receipt, verify_txhash, inbound_of,
}
use tilla.Checkout.Verify.Laws.{IsScan, scan_log-IsScan, value_sum, inserts-Inserted, Inserted}

credited-rows :
    (o : Order) (ds : List Transfer) → credited o.id (map (transfer_row o) ds) ≡ value_sum ds
credited-rows o [] = refl
credited-rows o (d ∷ ds) = ground (arith, credited-rows o ds)

module _ (env : Env) (node : Node) (o : Order) (tx_hash : Text) (db db' : Db)
    (found : get_order o.id db.orders ≡ some o) (sound : Sound db) where
  drive-Keeps :
      (ds : List Transfer) (mid : Db) (i : Inbound)
      → i.added ≡ value_sum ds
      → i.added ≡ o.expected_micro
      → Inserted o ds db mid
      → Keeps db (drive_state env o i mid)
  drive-Keeps ds mid i sums due ins =
      let covered = get-All order_id _ o.id db.orders o found sound.covered in
      let rows = map (transfer_row o) ds in
      let recorded : credited o.id mid.transfers ≡ credited o.id db.transfers + value_sum ds =
        ap (credited o.id) ins.appended
        ∙ credited-append o.id db.transfers rows
        ∙ ap (λ (n : ℕ). credited o.id db.transfers + n) (credited-rows o ds) in
      let money : Funds o i mid.transfers = record {
        on_record = λ w. omega (arith, covered.credit_le w, recorded, sums);
        exact = λ late. omega (arith, due);
      } in
      let k =
        drive_state-Keeps o i mid money env
          (subst (λ os. get_order o.id os ≡ some o) (sym ins.same_orders) found) (ins.kept sound) in
      record {
        sound = k.sound;
        evolves =
            subst (λ os. Zip Evolves os (drive_state env o i mid).orders) ins.same_orders k.evolves;
      }

  settle_scan-Keeps :
      (cfg : ChainConfig) (s : Scan) (ds : List Transfer)
      → s.new_logs ≡ ds
      → IsScan o db s
      → settle_scan env node cfg o tx_hash s ds db ≡ ok db'
      → Keeps db db'
  unfolding settle_scan
  settle_scan-Keeps cfg s [] e i h = elim (Bool-cases s.matched_any) [
    | inl counted ↦ subst (Keeps db) (ok-injective _ _ (rw counted at h)) (Keeps-refl db sound)
    | inr unmatched ↦ absurd (cc (rw unmatched at h))
  ]
  settle_scan-Keeps cfg s (first ∷ others) e i h =
      let (_, h₁) = raise_if-eq-ok (not s.matched_any) _ _ h in
      let (due, h₂) = raise_if-eq-ok (not (s.total == o.expected_micro)) _ _ h₁ in
      let (head, _, h₃) = >>=-eq-ok (node.head cfg) _ h₂ in
      let (mid, recorded, h₄) = >>=-eq-ok (for_each (insert_transfer o) (first ∷ others) db) _ h₃ in
      subst (Keeps db) (ok-injective _ _ h₄) (
        drive-Keeps (first ∷ others) mid (inbound_of first s.total tx_hash head)
          (i.adds_up ∙ ap value_sum e) (ground arith)
          (inserts-Inserted o (first ∷ others) db mid recorded))

  receipt-Keeps :
      (cfg : ChainConfig) (r : Receipt)
      → verify_receipt env node cfg o tx_hash r db ≡ ok db'
      → Keeps db db'
  unfolding verify_receipt
  receipt-Keeps cfg r h =
      let (_, h₁) = raise_if-eq-ok (not (succeeded r)) _ _ h in
      let (s, scanned, h₂) = >>=-eq-ok (for_each (scan_log cfg o db) r.logs no_scan) _ h₁ in
      let i =
        for_each_inv (IsScan o db) (scan_log cfg o db) (scan_log-IsScan cfg o db) r.logs no_scan s
          (record { adds_up = refl; each = tt }) scanned in
      settle_scan-Keeps cfg s s.new_logs refl i h₂

  pub verify_txhash-Keeps : verify_txhash env node o tx_hash db ≡ ok db' → Keeps db db'
  unfolding verify_txhash
  verify_txhash-Keeps h = elim (Bool-cases (is_in o.status (delivered ∷ paid ∷ refunded ∷ []))) [
    | inl over ↦ subst (Keeps db) (ok-injective _ _ (rw over at h)) (Keeps-refl db sound)
    | inr open_ ↦
        let (_, h₁) = raise_if-eq-ok _ no_longer_active _ (rw open_ at h) in
        let (_, h₂) = raise_if-eq-ok _ window_closed _ h₁ in
        let (cfg, _, h₃) = or_raise-eq-ok (chain_for o.network) _ _ h₂ in
        let (found_, _, h₄) = >>=-eq-ok (node.receipt cfg tx_hash) _ h₃ in
        let (r, _, h₅) = or_raise-eq-ok found_ _ _ h₄ in receipt-Keeps cfg r h₅
  ]
