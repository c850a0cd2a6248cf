-- ===== src/Delivery/Activate.antt =====
-- Activations and deactivations of app/delivery.py and the tables of the licences; an activation
-- may go by a row that another request has outdated.
use tilla.Base.{
  ℕ, ◌+◌, ◌≡◌, refl, ◌≢◌, sym, ap, ◌∙◌, subst, Bool, true, false, not, Option, none, some, List, [],
  ◌∷◌, ◌++◌, arith, ◌==◌, Bool-cases, Option-cases, inl, inr, All, All-mono, All-intro, Pairs,
  Pairs-append_one,
}
use tilla.Base.Text.{Text, text_eq, text_eq_sound, text_eq_refl}
use tilla.Base.Rows.{find, update, rowcount, find_sound, find-none, find-All}
use tilla.Base.Keyed.{get, get-key, get-All, get_self, rowcount-key, update-IsUnique, IsUnique}
use tilla.Base.Zip.{update-Zip, Pairs-Zip, get-only}
use tilla.Models.{Entitlement}
use tilla.Delivery.{
  LicenseActivation, Licences, is_null, entitlement_id, is_slot, is_live, has_slot, add_use,
  is_used, drop_use, next_id, reactivates, set_live, take_slot, free_slot, holds_slot,
  activate_found, activate_license, deactivate_license,
}
use tilla.Delivery.Count.{rowcount-append, rowcount-update}
use tilla.Delivery.Licence.{
  row_id, in_use, IsCounted, Apart, Sound, IsCounted-move, slot_won, undo_add, next_id_above,
}

slot_sym :
    (x y : LicenseActivation)
    → is_slot y.entitlement_id y.device_id x ≡ false
    → is_slot x.entitlement_id x.device_id y ≡ false
slot_sym x y h = elim (Bool-cases (text_eq y.device_id x.device_id)) [
  | inr off ↦ ground arith
  | inl same ↦
      let back : text_eq x.device_id y.device_id ≡ true =
        rw (text_eq_sound y.device_id x.device_id same) (text_eq_refl x.device_id) in
      ground arith
]

-- A row that a request read, at any time: the table still has it, for the same device.
pub record Genuine (k : ℕ) (device : Text) (rs : List LicenseActivation) (x : LicenseActivation)
    : Type 0 where
  pub row : LicenseActivation
  pub found : get row_id x.id rs ≡ some row
  pub slot : is_slot k device row ≡ true

SameSlot : LicenseActivation → LicenseActivation → Type 0
SameSlot x y = (y.entitlement_id ≡ x.entitlement_id) × (y.device_id ≡ x.device_id)

slots_kept :
    (w : LicenseActivation → Bool) (f : LicenseActivation → LicenseActivation)
    (rs : List LicenseActivation)
    → ((x : LicenseActivation) → SameSlot x (f x))
    → Pairs Apart rs
    → Pairs Apart (update w f rs)
unfolding SameSlot
slots_kept w f rs keep p =
    Pairs-Zip SameSlot Apart (λ x y x' y' r s apart. cc (apart, r.0, r.1, s.0, s.1)) rs _
      (update-Zip SameSlot (λ x. (refl, refl)) w f rs (All-intro _ (λ x _. keep x) rs)) p

module _ (now k cap : ℕ) (device : Text) (es : List Entitlement) (rs : List LicenseActivation)
    (sound : Sound es rs) (won : (rowcount (has_slot k cap) es == 1) ≡ true) where
  abbrev bumped : List Entitlement
  bumped = update (has_slot k cap) add_use es

  only_one : (e : Entitlement) → get entitlement_id k es ≡ some e → All (λ x. x.id ≡ k → x ≡ e) es
  only_one e found = get-only entitlement_id k es e sound.keys found

  -- The counter goes with one more row in use.
  bumped-Sound :
      (rs' : List LicenseActivation)
      → IsUnique row_id rs'
      → Pairs Apart rs'
      → ((n : ℕ) → n ≢ k → rowcount (in_use n) rs' ≡ rowcount (in_use n) rs)
      → rowcount (in_use k) rs' ≡ rowcount (in_use k) rs + 1
      → Sound bumped rs'
  bumped-Sound rs' ids slots others one =
      let (e, found, hit) = slot_won k cap es sound.keys won in
      let at = get-key entitlement_id k es e found in
      let old = get-All entitlement_id (IsCounted rs) k es e found sound.counted in
      record {
        keys = update-IsUnique entitlement_id _ add_use (λ x. refl) es sound.keys;
        ids = ids;
        slots = slots;
        counted =
            IsCounted-move (has_slot k cap) add_use rs rs' k e es (λ x h. ground arith) (λ x. refl)
              hit others (ap (λ n. n + 1) (old ∙ ap (λ n. rowcount (in_use n) rs) at) ∙ sym one) at
              (only_one e found) sound.counted;
      }

  undone-Sound : Sound (update (is_used k) drop_use bumped) rs
  undone-Sound =
      let (e, found, hit) = slot_won k cap es sound.keys won in
      subst (λ v. Sound v rs)
        (sym (
          undo_add k cap es (
            All-mono _ _ (λ x only at. subst (λ v. has_slot k cap v ≡ true) (sym (only at)) hit) es
              (only_one e found))))
        sound

  abbrev inserted : LicenseActivation
  inserted = record {
    id = next_id rs;
    entitlement_id = k;
    device_id = device;
    activated_at = now;
    deactivated_at = none;
  }

  inserted-Sound : find (is_slot k device) rs ≡ none → Sound bumped (rs ++ (inserted ∷ []))
  unfolding is_null
  inserted-Sound new =
      bumped-Sound (rs ++ (inserted ∷ []))
        (Pairs-append_one _ rs inserted sound.ids
          (All-mono _ _ (λ x h e. ground arith) rs (next_id_above rs)))
        (Pairs-append_one Apart rs inserted sound.slots (
          All-mono _ _ (λ x off. slot_sym x inserted off) rs (find-none (is_slot k device) rs new)))
        (λ n ne. ground (arith, rowcount-append (in_use n) rs inserted))
        (ground (arith, rowcount-append (in_use k) rs inserted))

  reactivated-Sound :
      (x : LicenseActivation)
      → Genuine k device rs x
      → (rowcount (reactivates x.id) rs == 1) ≡ true
      → Sound bumped (update (reactivates x.id) (set_live now) rs)
  unfolding SameSlot is_null
  reactivated-Sound x g one =
      let w = reactivates x.id in
      let off : not (is_null g.row.deactivated_at) ≡ true = ground (
        arith,
        rw g.found at (rowcount-key row_id x.id (λ r. not (is_null r.deactivated_at)) rs sound.ids),
      ) in
      let at = get-key row_id x.id rs g.row g.found in
      let slot = g.slot in
      let moves = λ (q : LicenseActivation → Bool).
        rowcount-update row_id x.id w (set_live now) (λ r h. ground arith) q rs g.row sound.ids
          g.found (ground arith) in
      bumped-Sound (update w (set_live now) rs)
        (update-IsUnique row_id w (set_live now) (λ r. refl) rs sound.ids)
        (slots_kept w (set_live now) rs (λ r. (refl, refl)) sound.slots)
        (λ n ne. ground (arith, moves (in_use n))) (ground (arith, moves (in_use k)))

  take_slot-Sound :
      (existing : Option LicenseActivation)
      → ((x : LicenseActivation) → existing ≡ some x → Genuine k device rs x)
      → let l = (take_slot now k device existing bumped rs).0 in Sound l.entitlements l.activations
  unfolding take_slot
  take_slot-Sound none genuine = elim (Option-cases (find (is_slot k device) rs)) [
    | inl new ↦ rw new (inserted-Sound new)
    | inr (x, there) ↦ rw there undone-Sound
  ]
  take_slot-Sound (some x) genuine = elim (Bool-cases (rowcount (reactivates x.id) rs == 1)) [
    | inl one ↦ rw one (reactivated-Sound x (genuine x refl) one)
    | inr lost ↦ rw lost undone-Sound
  ]

-- An activation keeps the tables sound whatever its SELECT answered, if each row of that answer is
-- still in the table for the same device: the counter of each entitlement stays the number of its
-- devices in use, and no device has two rows.
pub activate_found-Sound :
    (now k cap : ℕ) (device : Text) (existing : Option LicenseActivation) (l : Licences)
    → Sound l.entitlements l.activations
    → ((x : LicenseActivation) → existing ≡ some x → Genuine k device l.activations x)
    → let after = (activate_found now k device cap existing l).0 in
      Sound after.entitlements after.activations
unfolding activate_found
activate_found-Sound now k cap device existing l sound genuine =
    elim (Bool-cases (holds_slot existing)) [
      | inl holds ↦ rw holds sound
      | inr free ↦ elim (Bool-cases (rowcount (has_slot k cap) l.entitlements == 1)) [
        | inr full ↦ rw (free, full) sound
        | inl won ↦
            rw (free, won)
              (take_slot-Sound now k cap device l.entitlements l.activations sound won existing
                genuine)
      ]
    ]

deactivated : ℕ → LicenseActivation → LicenseActivation
deactivated now r = record r { deactivated_at = some now }

freed-Sound :
    (now k : ℕ) (device : Text) (es : List Entitlement) (rs : List LicenseActivation)
    (e : Entitlement) (x : LicenseActivation)
    → Sound es rs
    → get entitlement_id k es ≡ some e
    → find (is_live k device) rs ≡ some x
    → Sound (update (is_used k) drop_use es) (update (λ r. r.id == x.id) (deactivated now) rs)
unfolding SameSlot is_null deactivated
freed-Sound now k device es rs e x sound found there =
    let w = λ (r : LicenseActivation). r.id == x.id in
    let live = find_sound (is_live k device) rs x there in
    let here =
      find-All (λ r. get row_id r.id rs ≡ some r) (is_live k device) rs x there
        (get_self row_id rs sound.ids) in
    let at = get-key entitlement_id k es e found in
    let old = get-All entitlement_id (IsCounted rs) k es e found sound.counted in
    let moves = λ (q : LicenseActivation → Bool).
      rowcount-update row_id x.id w (deactivated now) (λ r h. ground arith) q rs x sound.ids here
        (ground arith) in
    let used : e.activations_used ≡ rowcount (in_use k) (update w (deactivated now) rs) + 1 =
      old ∙ ap (λ n. rowcount (in_use n) rs) at ∙ ground (arith, moves (in_use k)) in
    record {
      keys = update-IsUnique entitlement_id _ drop_use (λ v. refl) es sound.keys;
      ids = update-IsUnique row_id w (deactivated now) (λ r. refl) rs sound.ids;
      slots = slots_kept w (deactivated now) rs (λ r. (refl, refl)) sound.slots;
      counted =
          IsCounted-move (is_used k) drop_use rs _ k e es (λ v h. ground arith) (λ v. refl)
            (ground (arith, used)) (λ n ne. ground (arith, moves (in_use n))) (omega (arith, used))
            at (get-only entitlement_id k es e sound.keys found) sound.counted;
    }

-- A deactivation for an entitlement in the table keeps the tables sound.
pub deactivate_license-Sound :
    (now k : ℕ) (device : Text) (l : Licences) (e : Entitlement)
    → Sound l.entitlements l.activations
    → get entitlement_id k l.entitlements ≡ some e
    → let after = (deactivate_license now k device l).0 in
      Sound after.entitlements after.activations
unfolding deactivate_license free_slot deactivated
deactivate_license-Sound now k device l e sound found =
    elim (Option-cases (find (is_live k device) l.activations)) [
      | inl none_there ↦ rw none_there sound
      | inr (x, there) ↦
          rw there (freed-Sound now k device l.entitlements l.activations e x sound found there)
    ]

-- An activation keeps the tables sound.
pub activate_license-Sound :
    (now k cap : ℕ) (device : Text) (l : Licences)
    → Sound l.entitlements l.activations
    → let after = (activate_license now k device cap l).0 in
      Sound after.entitlements after.activations
unfolding activate_license
activate_license-Sound now k cap device l sound =
    activate_found-Sound now k cap device (find (is_slot k device) l.activations) l sound λ x there.
      record {
        row = x;
        found =
            find-All (λ r. get row_id r.id l.activations ≡ some r) (is_slot k device) l.activations
              x there (get_self row_id l.activations sound.ids);
        slot = find_sound (is_slot k device) l.activations x there;
      }
