-- ===== src/Delivery/Pool.antt =====
-- What a licence promises, without tables: a set of devices, of which so many may be in use.
use tilla.Base.{
  ℕ, ◌+◌, ◌-◌, ◌≡◌, refl, sym, ap, ◌∙◌, Bool, true, false, not, ◌&&◌, ◌||◌, Option, none, some,
  List, [], ◌∷◌, arith, ◌==◌, ltb, is_some, if◌then◌else◌, Bool-cases, Option-cases, inl, inr, All,
  All-mono, Pairs,
}
use tilla.Base.Text.{Text, text_eq, text_eq_sound}
use tilla.Base.Rows.{find, rowcount}
use tilla.Base.Keyed.{get, get-key, get-All, rowcount-key}
use tilla.Models.{Entitlement}
use tilla.Delivery.{
  LicenseActivation, Licences, Outcome, already_active, activated, at_limit, is_null,
  entitlement_id, is_slot, is_live, has_slot, holds_slot, device_active,
}
use tilla.Delivery.Count.{is_some-find, rowcount-none}
use tilla.Delivery.Licence.{in_use, IsCounted, Apart, Sound}

pub record Pool : Type 0 where
  pub holds : Text → Bool
  pub size : ℕ
  pub is_open : Bool

abbrev pub take : Text → Pool → Pool
take device p = record p { holds = λ d. text_eq device d || p.holds d; size = p.size + 1 }

abbrev pub give_back : Text → Pool → Pool
give_back device p = record p {
  holds = λ d. not (text_eq device d) && p.holds d;
  size = p.size - 1;
}

-- A device that is held stays held; another is taken while the pool is open and not full.
unfoldable pub pool_activate : ℕ → Text → Pool → Pool × Outcome
pool_activate cap device p =
    if p.holds device
    then (p, already_active)
    else if p.is_open && ltb p.size cap
    then (take device p, activated)
    else (p, at_limit)

unfoldable pub pool_deactivate : Text → Pool → Pool × Bool
pool_deactivate device p = if p.holds device then (give_back device p, true) else (p, false)

unfoldable pub is_open_at : Option Entitlement → Bool
is_open_at none = false
is_open_at (some e) = is_null e.revoked_at

-- The pool that the tables show for one entitlement.
pub record Shows (k : ℕ) (l : Licences) (p : Pool) : Type 0 where
  pub holds : (d : Text) → device_active k d l ≡ p.holds d
  pub size : rowcount (in_use k) l.activations ≡ p.size
  pub opened : is_open_at (get entitlement_id k l.entitlements) ≡ p.is_open

slot_same :
    (k : ℕ) (device : Text) (r y : LicenseActivation)
    → is_slot k device r ≡ true
    → is_slot r.entitlement_id r.device_id y ≡ is_slot k device y
slot_same k device r y on =
    let device_same : r.device_id ≡ device = text_eq_sound _ _ (ground arith) in
    let key_same : r.entitlement_id ≡ k = ground arith in cc (device_same, key_same)

others_idle :
    (k : ℕ) (device : Text) (r : LicenseActivation) (rs : List LicenseActivation)
    → is_slot k device r ≡ true
    → All (Apart r) rs
    → All (λ y. is_live k device y ≡ false) rs
others_idle k device r rs on apart =
    All-mono _ _ (λ y off. ground (arith, slot_same k device r y on)) rs apart

-- The one row of a device tells whether the device is in use.
pub holds-slot_live :
    (k : ℕ) (device : Text) (rs : List LicenseActivation)
    → Pairs Apart rs
    → holds_slot (find (is_slot k device) rs) ≡ is_some (find (is_live k device) rs)
unfolding find holds_slot
holds-slot_live k device [] p = refl
holds-slot_live k device (r ∷ rs) p = elim (Bool-cases (is_slot k device r)) [
  | inr off ↦ ground (arith, holds-slot_live k device rs p.1)
  | inl on ↦ elim (Bool-cases (is_null r.deactivated_at)) [
    | inl live ↦ ground arith
    | inr idle ↦ ground (
      arith,
      is_some-find (is_live k device) rs,
      rowcount-none (is_live k device) rs (others_idle k device r rs on p.0),
    )
  ]
]

pub live_once :
    (k : ℕ) (device : Text) (rs : List LicenseActivation)
    → Pairs Apart rs
    → Pairs (λ x y. is_live k device x ≡ true → is_live k device y ≡ false) rs
live_once k device [] p = tt
live_once k device (r ∷ rs) p = (
  All-mono _ _ (λ y off live. ground (arith, slot_same k device r y (ground arith))) rs p.0,
  live_once k device rs p.1,
)

-- The counter has room exactly where the pool does.
pub room :
    (k cap : ℕ) (l : Licences) (p : Pool)
    → Sound l.entitlements l.activations
    → Shows k l p
    → (rowcount (has_slot k cap) l.entitlements == 1) ≡ (p.is_open && ltb p.size cap)
unfolding is_open_at
room k cap l p sound shows = elim (Option-cases (get entitlement_id k l.entitlements)) [
  | inl e ↦ ground (
    arith,
    shows.opened,
    rowcount-key entitlement_id k (λ x. ltb x.activations_used cap && is_null x.revoked_at)
        l.entitlements sound.keys,
    e,
    ap is_open_at e,
  )
  | inr (x, found) ↦
      let counted : x.activations_used ≡ p.size =
        get-All entitlement_id (IsCounted l.activations) k l.entitlements x found sound.counted
        ∙ ap (λ n. rowcount (in_use n) l.activations)
            (get-key entitlement_id k l.entitlements x found)
        ∙ shows.size in
      let opened : is_null x.revoked_at ≡ p.is_open = sym (ap is_open_at found) ∙ shows.opened in
      ground (
        arith,
        rw found at (
            rowcount-key entitlement_id k (λ y. ltb y.activations_used cap && is_null y.revoked_at)
              l.entitlements sound.keys),
      )
]
