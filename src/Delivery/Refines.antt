-- ===== src/Delivery/Refines.antt =====
-- The tables of a licence implement the pool of its devices.
use mathlib.Core.Option
use tilla.Base.{
  ℕ, ◌+◌, ◌≡◌, refl, ◌≢◌, sym, ap, ◌∙◌, Bool, true, false, not, ◌&&◌, Option, none, some, List, [],
  ◌∷◌, ◌++◌, arith, ◌==◌, ltb, is_some, if◌then◌else◌, Bool-cases, Option-cases, inl, inr, Pairs,
}
use tilla.Base.Text.{Text, text_eq, text_eq_sound}
use tilla.Base.Rows.{find, update, rowcount, find_sound, find-All}
use tilla.Base.Keyed.{get, get_self, get-update, rowcount-key}
use tilla.Models.{Entitlement}
use tilla.Delivery.{
  LicenseActivation, Licences, activated, is_null, entitlement_id, is_slot, is_live, has_slot,
  add_use, is_used, drop_use, reactivates, set_live, next_id, take_slot, free_slot, holds_slot,
  activate_found, activate_license, deactivate_license, device_active,
}
use tilla.Delivery.Count.{one_if, rowcount-append, rowcount-update, rowcount_most, is_some-find}
use tilla.Delivery.Licence.{row_id, in_use, Sound}
use tilla.Delivery.Pool.{
  Pool, take, give_back, pool_activate, pool_deactivate, is_open_at, Shows, holds-slot_live,
  live_once, room,
}

-- A row that a search finds stands under its id.
find_self :
    (q : LicenseActivation → Bool) (rs : List LicenseActivation) (x : LicenseActivation)
    → Pairs (λ a b. row_id a ≢ row_id b) rs
    → find q rs ≡ some x
    → get row_id x.id rs ≡ some x
find_self q rs x ids there =
    find-All (λ r. get row_id r.id rs ≡ some r) q rs x there (get_self row_id rs ids)

-- An UPDATE of counters opens and closes nothing.
opened_same :
    (k : ℕ) (w : Entitlement → Bool) (f : Entitlement → Entitlement)
    → ((x : Entitlement) → (f x).id ≡ x.id)
    → ((x : Entitlement) → (f x).revoked_at ≡ x.revoked_at)
    → (es : List Entitlement)
    → is_open_at (get entitlement_id k (update w f es)) ≡ is_open_at (get entitlement_id k es)
unfolding is_open_at
opened_same k w f keep same es =
    ap is_open_at (get-update entitlement_id w f keep k es) ∙ by_cases (get entitlement_id k es)
  where
    by_cases :
        (o : Option Entitlement)
        → is_open_at (Option.map (λ x. if w x then f x else x) o) ≡ is_open_at o
    by_cases none = refl
    by_cases (some x) = elim (Bool-cases (w x)) [
      | inl e ↦ rw e (ap is_null (same x))
      | inr e ↦ rw e refl
    ]

module _ (now k cap : ℕ) (device : Text) (es : List Entitlement) (rs : List LicenseActivation)
    (p : Pool) (sound : Sound es rs)
    (shows : Shows k (record { entitlements = es; activations = rs }) p) where
  abbrev bumped : List Entitlement
  bumped = update (has_slot k cap) add_use es

  -- The rows after a slot was taken: one more live row, that of the device.
  record Taken (rs' : List LicenseActivation) : Type 0 where
    live :
        (d : Text)
        → rowcount (is_live k d) rs' ≡ rowcount (is_live k d) rs + one_if (text_eq device d)
    used : rowcount (in_use k) rs' ≡ rowcount (in_use k) rs + 1

  Taken-Shows :
      (rs' : List LicenseActivation)
      → Taken rs'
      → Shows k (record { entitlements = bumped; activations = rs' }) (take device p)
  unfolding device_active
  Taken-Shows rs' t = record {
    holds = λ d. ground (
      arith,
      is_some-find (is_live k d) rs',
      is_some-find (is_live k d) rs,
      t.live d,
      shows.holds d,
    );
    size = omega (arith, t.used, shows.size);
    opened = opened_same k (has_slot k cap) add_use (λ x. refl) (λ x. refl) es ∙ shows.opened;
  }

  abbrev inserted : LicenseActivation
  inserted = record {
    id = next_id rs;
    entitlement_id = k;
    device_id = device;
    activated_at = now;
    deactivated_at = none;
  }

  inserted-Taken : Taken (rs ++ (inserted ∷ []))
  unfolding is_null
  inserted-Taken = record {
    live = λ d. ground (arith, rowcount-append (is_live k d) rs inserted);
    used = ground (arith, rowcount-append (in_use k) rs inserted);
  }

  reactivated-Taken :
      (x : LicenseActivation)
      → find (is_slot k device) rs ≡ some x
      → is_null x.deactivated_at ≡ false
      → (rowcount (reactivates x.id) rs == 1) ≡ true
        × Taken (update (reactivates x.id) (set_live now) rs)
  unfolding is_null
  reactivated-Taken x there idle =
      let here = find_self (is_slot k device) rs x sound.ids there in
      let slot = find_sound (is_slot k device) rs x there in
      let named : x.device_id ≡ device = text_eq_sound _ _ (ground arith) in
      let moves = λ (q : LicenseActivation → Bool).
        rowcount-update row_id x.id (reactivates x.id) (set_live now) (λ r h. ground arith) q rs x
          sound.ids here (ground arith) in
      (
        ground (
          arith,
          rw here at (rowcount-key row_id x.id (λ r. not (is_null r.deactivated_at)) rs sound.ids),
        ),
        record {
          live = λ d. ground (arith, moves (is_live k d), ap (λ t. text_eq t d) named);
          used = ground (arith, moves (in_use k));
        },
      )

  -- A won activation: the slot is taken in the tables as in the pool.
  taken :
      is_some (find (is_live k device) rs) ≡ false
      → let after = take_slot now k device (find (is_slot k device) rs) bumped rs in
        Shows k after.0 (take device p) × (after.1 ≡ activated)
  unfolding take_slot holds_slot
  taken idle = elim (Option-cases (find (is_slot k device) rs)) [
    | inl new ↦ rw (new, new) (Taken-Shows (rs ++ (inserted ∷ [])) inserted-Taken, refl)
    | inr (x, there) ↦
        let (one, t) =
          reactivated-Taken x there
            (ground (arith, rw there at (holds-slot_live k device rs sound.slots))) in
        rw (there, one) (Taken-Shows _ t, refl)
  ]

  -- A freed slot: one live row less, that of the device.
  freed-Shows :
      (x : LicenseActivation)
      → find (is_live k device) rs ≡ some x
      → Shows k
          (record {
            entitlements = update (is_used k) drop_use es;
            activations =
                update (λ r. r.id == x.id) (λ r. record r { deactivated_at = some now }) rs;
          })
          (give_back device p)
  unfolding device_active is_null
  freed-Shows x there =
      let here = find_self (is_live k device) rs x sound.ids there in
      let fits = find_sound (is_live k device) rs x there in
      let named : x.device_id ≡ device = text_eq_sound _ _ (ground arith) in
      let w = λ (r : LicenseActivation). r.id == x.id in
      let off = λ (r : LicenseActivation). record r { deactivated_at = some now } in
      let moves = λ (q : LicenseActivation → Bool).
        rowcount-update row_id x.id w off (λ r h. ground arith) q rs x sound.ids here
          (ground arith) in
      record {
        holds = λ d. ground (
          arith,
          is_some-find (is_live k d) (update w off rs),
          is_some-find (is_live k d) rs,
          moves (is_live k d),
          ap (λ t. text_eq t d) named,
          shows.holds d,
          rowcount_most (is_live k d) rs (live_once k d rs sound.slots),
        );
        size = ground (arith, moves (in_use k), shows.size);
        opened = opened_same k (is_used k) drop_use (λ v. refl) (λ v. refl) es ∙ shows.opened;
      }

-- `activate_license` answers and does what the pool does.
pub activate-Shows :
    (now k cap : ℕ) (device : Text) (l : Licences) (p : Pool)
    → Sound l.entitlements l.activations
    → Shows k l p
    → let after = activate_license now k device cap l in
      let spec = pool_activate cap device p in Shows k after.0 spec.0 × (after.1 ≡ spec.1)
unfolding activate_license activate_found pool_activate device_active
activate-Shows now k cap device l p sound shows =
    let held : holds_slot (find (is_slot k device) l.activations) ≡ p.holds device =
      holds-slot_live k device l.activations sound.slots ∙ shows.holds device in
    elim (Bool-cases (p.holds device)) [
      | inl yes_held ↦ rw (held ∙ yes_held, yes_held) (shows, refl)
      | inr idle ↦ elim (Bool-cases (p.is_open && ltb p.size cap)) [
        | inr full ↦ rw (held ∙ idle, idle, room k cap l p sound shows ∙ full, full) (shows, refl)
        | inl free ↦
            rw (held ∙ idle, idle, room k cap l p sound shows ∙ free, free)
              (taken now k cap device l.entitlements l.activations p sound shows
                (shows.holds device ∙ idle))
      ]
    ]

pub deactivate-Shows :
    (now k : ℕ) (device : Text) (l : Licences) (p : Pool)
    → Sound l.entitlements l.activations
    → Shows k l p
    → let after = deactivate_license now k device l in
      let spec = pool_deactivate device p in Shows k after.0 spec.0 × (after.1 ≡ spec.1)
unfolding deactivate_license free_slot pool_deactivate device_active
deactivate-Shows now k device l p sound shows =
    elim (Option-cases (find (is_live k device) l.activations)) [
      | inl nothing ↦
          let idle = sym (shows.holds device) ∙ ap is_some nothing in
          rw (nothing, idle) (shows, refl)
      | inr (x, there) ↦
          let held = sym (shows.holds device) ∙ ap is_some there in
          rw (there, held)
            (freed-Shows now k 0 device l.entitlements l.activations p sound shows x there, refl)
    ]
