-- ===== src/Checkout/Expiry/Keeps.antt =====
-- The expiry loops keep the invariant of the tables.
use tilla.Base.{
  ℕ, ◌≡◌, refl, sym, subst, true, false, Option, none, some, List, [], ◌∷◌, arith, Bool-cases, inl,
  inr,
}
use tilla.Base.Keyed.{get-All, get-key}
use tilla.Models.{
  Order, Status, Db, Env, Event, is_in, status_eq, pending, underpaid, expired, canceled,
}
use tilla.Checkout.Machine.{◌⟶*◌, one, expire_pending, expire_underpaid, release}
use tilla.Checkout.Transition.{order_id, get_order}
use tilla.Checkout.Drive.{move_and_log}
use tilla.Checkout.Drive.Keeps.{move-Keeps}
use tilla.Checkout.Expiry.{
  same, on_row, for_rows, unpaid, is_overdue, expire_row, flip_expired, is_released, release_row,
  release_expired, ids_where,
}
use tilla.Checkout.Sound.{Sound, Keeps, Keeps-refl, Keeps-trans, IsCovered, funded}

-- A change of status alone keeps the invariant, if the diagram has the path and the new status
-- stands for no payment that the old one did not stand for.
pub relabel-Keeps :
    (o : Order) (from_states : List Status) (to_state : Status) (event : Event) (db : Db)
    → get_order o.id db.orders ≡ some o
    → (is_in o.status from_states ≡ true → o.status ⟶* to_state)
    → (is_in o.status from_states ≡ true
        → is_in to_state funded ≡ true
        → is_in o.status funded ≡ true)
    → Sound db
    → Keeps db (move_and_log o from_states to_state event same db)
relabel-Keeps o from_states to_state event db found path money s =
    let c = get-All order_id (IsCovered db.transfers) o.id db.orders o found s.covered in
    move-Keeps o from_states to_state event same db found
      (λ h. record {
        evolves = record {
          same_id = refl;
          same_channel = refl;
          same_pay_to = refl;
          same_network = refl;
          same_expected = refl;
          paid_grows = omega arith;
          path = path h;
        };
        covers = record { credit_le = c.credit_le; enough = λ w f. c.enough w (money h f) };
      })
      s

module _ (body : Order → Db → Db)
    (keep : (o : Order) (db : Db)
      → get_order o.id db.orders ≡ some o
      → Sound db
      → Keeps db (body o db)) where
  on_row-Keeps :
      (k : ℕ) (row : Option Order) (db : Db)
      → get_order k db.orders ≡ row
      → Sound db
      → Keeps db (on_row body row db)
  on_row-Keeps k none db e s = Keeps-refl db s
  on_row-Keeps k (some o) db e s =
      keep o db
        (subst (λ n. get_order n db.orders ≡ some o) (sym (get-key order_id k db.orders o e)) e) s

  -- The loop rule for rows.
  pub for_rows-Keeps : (ks : List ℕ) (db : Db) → Sound db → Keeps db (for_rows body ks db)
  unfolding for_rows
  for_rows-Keeps [] db s = Keeps-refl db s
  for_rows-Keeps (k ∷ ks) db s =
      let first = on_row-Keeps k (get_order k db.orders) db refl s in
      Keeps-trans db _ _ first (for_rows-Keeps ks _ first.sound)

unpaid-expired : (t : Status) → is_in t unpaid ≡ true → t ⟶* expired
unfolding status_eq
unpaid-expired pending h = one expire_pending
unpaid-expired underpaid h = one expire_underpaid
unpaid-expired _ h = absurd (ground arith)

expired-canceled : (t : Status) → is_in t (expired ∷ []) ≡ true → t ⟶* canceled
unfolding status_eq
expired-canceled expired h = one release
expired-canceled _ h = absurd (ground arith)

not_funded : (is_in expired funded ≡ false) × (is_in canceled funded ≡ false)
unfolding status_eq
not_funded = (refl, refl)

expire_row-Keeps :
    (env : Env) (o : Order) (db : Db)
    → get_order o.id db.orders ≡ some o
    → Sound db
    → Keeps db (expire_row env o db)
unfolding expire_row
expire_row-Keeps env o db found s = elim (Bool-cases (is_overdue env o)) [
  | inr early ↦ rw early (Keeps-refl db s)
  | inl late ↦ rw late (
      relabel-Keeps o unpaid expired _ db found (unpaid-expired o.status)
        (λ _ f. absurd (cc (not_funded.0))) s)
]

release_row-Keeps :
    (env : Env) (o : Order) (db : Db)
    → get_order o.id db.orders ≡ some o
    → Sound db
    → Keeps db (release_row env o db)
unfolding release_row
release_row-Keeps env o db found s = elim (Bool-cases (is_released env o)) [
  | inr early ↦ rw early (Keeps-refl db s)
  | inl late ↦ rw late (
      relabel-Keeps o (expired ∷ []) canceled _ db found (expired-canceled o.status)
        (λ _ f. absurd (cc (not_funded.1))) s)
]

pub flip_expired-Keeps : (env : Env) (db : Db) → Sound db → Keeps db (flip_expired env db)
unfolding flip_expired
flip_expired-Keeps env db s =
    for_rows-Keeps (expire_row env) (expire_row-Keeps env)
      (ids_where (λ o. is_in o.status unpaid) db.orders) db s

pub release_expired-Keeps : (env : Env) (db : Db) → Sound db → Keeps db (release_expired env db)
unfolding release_expired
release_expired-Keeps env db s =
    for_rows-Keeps (release_row env) (release_row-Keeps env)
      (ids_where (λ o. is_in o.status (expired ∷ [])) db.orders) db s
