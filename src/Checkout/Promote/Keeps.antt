-- ===== src/Checkout/Promote/Keeps.antt =====
-- Maturing orders keeps the invariant of the tables.
use tilla.Base.{
  ℕ, ◌≡◌, refl, sym, subst, Bool, true, false, ◌&&◌, Option, none, some, List, [], ◌∷◌, arith, ltb,
  Bool-cases, inl, inr, Result, ok, err, >>=-eq-ok, ok-injective, or_raise-eq-ok, for_each,
  for_each_inv,
}
use tilla.Base.Text.{Text}
use tilla.Base.Keyed.{get-key}
use tilla.Models.{
  Order, Status, Db, Env, is_in, status_eq, pending, detected, late_paid, confirmed, overpaid,
  expired, reorged,
}
use tilla.Payment.{chain_for}
use tilla.Checkout.Machine.{
  ◌⟶*◌, one, expire_pending, reorg_detected, reorg_late, confirm_detected, over_detected,
}
use tilla.Checkout.Transition.{order_id, get_order}
use tilla.Checkout.Deliver.Keeps.{deliver-Keeps}
use tilla.Checkout.Expiry.{is_overdue, ids_where}
use tilla.Checkout.Expiry.Keeps.{relabel-Keeps}
use tilla.Checkout.Verify.{Node, VerifyError, unknown_network}
use tilla.Checkout.Promote.{
  reorgable, mark_reorged, confirm, confirm_seen, mature, is_deep, receipt_still_valid, act_on,
  promote_row, promote_id, is_ripe, promote_matured, refresh_deep, has_block, refresh_order,
}
use tilla.Checkout.Sound.{Sound, Keeps, Keeps-refl, Keeps-trans, funded}

reorgable-reorged : (t : Status) → is_in t reorgable ≡ true → t ⟶* reorged
unfolding status_eq
reorgable-reorged detected h = one reorg_detected
reorgable-reorged late_paid h = one reorg_late
reorgable-reorged _ h = absurd (ground arith)

not_funded : (is_in expired funded ≡ false) × (is_in reorged funded ≡ false)
unfolding status_eq
not_funded = (refl, refl)

detected-funded : (t : Status) → is_in t (detected ∷ []) ≡ true → is_in t funded ≡ true
unfolding status_eq
detected-funded detected h = refl
detected-funded _ h = absurd (ground arith)

detected-confirmed : (t : Status) → is_in t (detected ∷ []) ≡ true → t ⟶* confirmed
unfolding status_eq
detected-confirmed detected h = one confirm_detected
detected-confirmed _ h = absurd (ground arith)

detected-overpaid : (t : Status) → is_in t (detected ∷ []) ≡ true → t ⟶* overpaid
unfolding status_eq
detected-overpaid detected h = one over_detected
detected-overpaid _ h = absurd (ground arith)

pending-expired : (t : Status) → is_in t (pending ∷ []) ≡ true → t ⟶* expired
unfolding status_eq
pending-expired pending h = one expire_pending
pending-expired _ h = absurd (ground arith)

module _ (env : Env) (o : Order) (db : Db) (found : get_order o.id db.orders ≡ some o)
    (s : Sound db) where
  confirm-Keeps : Keeps db (confirm o db)
  unfolding confirm
  confirm-Keeps = elim (Bool-cases (ltb o.expected_micro o.paid_micro)) [
    | inl over ↦ rw over (
        relabel-Keeps o (detected ∷ []) overpaid _ db found (detected-overpaid o.status)
          (λ h _. detected-funded o.status h) s)
    | inr exact ↦ rw exact (
        relabel-Keeps o (detected ∷ []) confirmed _ db found (detected-confirmed o.status)
          (λ h _. detected-funded o.status h) s)
  ]

  confirm_seen-Keeps : Keeps db (confirm_seen o db)
  unfolding confirm_seen
  confirm_seen-Keeps = elim (Bool-cases (is_in o.status (detected ∷ []))) [
    | inl seen ↦ rw seen confirm-Keeps
    | inr late ↦ rw late (Keeps-refl db s)
  ]

  pub mature-Keeps : (valid : Bool) → Keeps db (mature env o valid db)
  unfolding mature mark_reorged
  mature-Keeps false =
      relabel-Keeps o reorgable reorged _ db found (reorgable-reorged o.status)
        (λ _ f. absurd (cc (not_funded.1))) s
  mature-Keeps true =
      let first = confirm_seen-Keeps in
      Keeps-trans db (confirm_seen o db) _ first (deliver-Keeps env o.id _ first.sound)

  act_on-Keeps :
      (r : Result VerifyError Bool) (db' : Db) → act_on env o db r ≡ ok db' → Keeps db db'
  unfolding act_on
  act_on-Keeps (ok valid) db' h = subst (Keeps db) (ok-injective _ _ h) (mature-Keeps valid)
  act_on-Keeps (err unknown_network) db' h = subst (Keeps db) (ok-injective _ _ h) (Keeps-refl db s)
  act_on-Keeps (err _) db' h = absurd (cc)

  refresh_deep-Keeps :
      (node : Node) (head : Result VerifyError ℕ) (db' : Db)
      → refresh_deep env node o head db ≡ ok db'
      → Keeps db db'
  unfolding refresh_deep
  refresh_deep-Keeps node (err e) db' h = subst (Keeps db) (ok-injective _ _ h) (Keeps-refl db s)
  refresh_deep-Keeps node (ok head) db' h = elim (Bool-cases (is_deep env head o)) [
    | inr shallow ↦ subst (Keeps db) (ok-injective _ _ (rw shallow at h)) (Keeps-refl db s)
    | inl deep ↦
        let (valid, _, h₁) = >>=-eq-ok (receipt_still_valid node o) _ (rw deep at h) in
        subst (Keeps db) (ok-injective _ _ h₁) (mature-Keeps valid)
  ]

  -- A buyer's poll keeps the invariant.
  pub refresh_order-Keeps :
      (node : Node) (db' : Db) → refresh_order env node o db ≡ ok db' → Keeps db db'
  unfolding refresh_order
  refresh_order-Keeps node db' h = elim (Bool-cases (is_in o.status (pending ∷ []))) [
    | inl waits ↦ elim (Bool-cases (is_overdue env o)) [
      | inr early ↦ subst (Keeps db) (ok-injective _ _ (rw (waits, early) at h)) (Keeps-refl db s)
      | inl late ↦ subst (Keeps db) (ok-injective _ _ (rw (waits, late) at h)) (
          relabel-Keeps o (pending ∷ []) expired _ db found (pending-expired o.status)
            (λ _ f. absurd (cc (not_funded.0))) s)
    ]
    | inr moved ↦ elim (Bool-cases (is_in o.status reorgable && has_block o.block_number)) [
      | inr settled ↦
          subst (Keeps db) (ok-injective _ _ (rw (moved, settled) at h)) (Keeps-refl db s)
      | inl seen ↦
          let (cfg, _, h₁) = or_raise-eq-ok (chain_for o.network) _ _ (rw (moved, seen) at h) in
          refresh_deep-Keeps node (node.head cfg) db' h₁
    ]
  ]

promote_row-Keeps :
    (env : Env) (node : Node) (k : ℕ) (row : Option Order) (db db' : Db)
    → get_order k db.orders ≡ row
    → Sound db
    → promote_row env node row db ≡ ok db'
    → Keeps db db'
unfolding promote_row
promote_row-Keeps env node k none db db' e s h =
    subst (Keeps db) (ok-injective _ _ h) (Keeps-refl db s)
promote_row-Keeps env node k (some o) db db' e s h =
    act_on-Keeps env o db
      (subst (λ n. get_order n db.orders ≡ some o) (sym (get-key order_id k db.orders o e)) e) s
      (receipt_still_valid node o) db' h

promote_id-Keeps :
    (env : Env) (node : Node) (k : ℕ) (db db' : Db)
    → Sound db
    → promote_id env node k db ≡ ok db'
    → Keeps db db'
unfolding promote_id
promote_id-Keeps env node k db db' s h =
    promote_row-Keeps env node k (get_order k db.orders) db db' refl s h

promote_ids-Keeps :
    (env : Env) (node : Node) (ks : List ℕ) (start db' : Db)
    → Sound start
    → for_each (promote_id env node) ks start ≡ ok db'
    → Keeps start db'
promote_ids-Keeps env node ks start db' s h =
    for_each_inv (Keeps start) (promote_id env node)
      (λ k a b kept step.
        Keeps-trans start a b kept (promote_id-Keeps env node k a b kept.sound step))
      ks start db' (Keeps-refl start s) h

-- The promotion of matured orders keeps the invariant.
pub promote_matured-Keeps :
    (env : Env) (node : Node) (network : Text) (head : ℕ) (db db' : Db)
    → Sound db
    → promote_matured env node network head db ≡ ok db'
    → Keeps db db'
unfolding promote_matured
promote_matured-Keeps env node network head db db' s h =
    let (mid, h₁, h₂) =
      >>=-eq-ok
        (for_each (promote_id env node) (ids_where (is_ripe env network head detected) db.orders)
          db)
        _ h in
    let first = promote_ids-Keeps env node _ db mid s h₁ in
    Keeps-trans db mid db' first (promote_ids-Keeps env node _ mid db' first.sound h₂)
