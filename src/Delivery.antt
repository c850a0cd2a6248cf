-- ===== src/Delivery.antt =====
-- app/delivery.py: what a buyer does with a delivered order. This file has the download claims and
-- the device activations of a licence.
pub mod Count
pub mod Licence
pub mod Activate
pub mod Pool
pub mod Refines
pub mod Runs
pub mod Claims
pub mod Signin
use tilla.Base.{
  ℕ, suc, ◌+◌, ◌-◌, max, Bool, true, false, not, ◌&&◌, Option, none, some, List, [], ◌∷◌, ◌++◌,
  ◌==◌, ltb, is_some, if◌then◌else◌,
}
use tilla.Base.Text.{Text, text_eq}
use tilla.Base.Rows.{find, update, rowcount}
use tilla.Models.{Entitlement}

pub record LicenseActivation : Type 0 where
  pub id : ℕ
  pub entitlement_id : ℕ
  pub device_id : Text
  pub activated_at : ℕ
  pub deactivated_at : Option ℕ

pub record Licences : Type 0 where
  pub entitlements : List Entitlement
  pub activations : List LicenseActivation

-- `column.is_(None)`
unfoldable pub is_null {ℓ} : {A : Type ℓ} → Option A → Bool
is_null none = true
is_null (some a) = false

abbrev pub entitlement_id : Entitlement → ℕ
entitlement_id e = e.id

abbrev pub has_download : ℕ → ℕ → Entitlement → Bool
has_download k max_downloads e =
    (e.id == k) && (ltb e.download_count max_downloads && is_null e.revoked_at)

-- The table after the UPDATE, and whether the slot was won.
unfoldable pub claim_download : ℕ → ℕ → List Entitlement → List Entitlement × Bool
claim_download k max_downloads es = (
  update (has_download k max_downloads) (λ e. record e { download_count = e.download_count + 1 })
      es,
  rowcount (has_download k max_downloads) es == 1,
)

pub data Outcome : Type 0 where
  already_active activated at_limit : Outcome

abbrev pub is_slot : ℕ → Text → LicenseActivation → Bool
is_slot k device r = (r.entitlement_id == k) && text_eq r.device_id device

-- The row of one device that holds a slot.
abbrev pub is_live : ℕ → Text → LicenseActivation → Bool
is_live k device r = is_slot k device r && is_null r.deactivated_at

abbrev pub has_slot : ℕ → ℕ → Entitlement → Bool
has_slot k max_activations e =
    (e.id == k) && (ltb e.activations_used max_activations && is_null e.revoked_at)

abbrev pub add_use : Entitlement → Entitlement
add_use e = record e { activations_used = e.activations_used + 1 }

abbrev pub is_used : ℕ → Entitlement → Bool
is_used k e = (e.id == k) && ltb 0 e.activations_used

-- `Entitlement.activations_used - 1` on a row that is above 0.
abbrev pub drop_use : Entitlement → Entitlement
drop_use e = record e { activations_used = e.activations_used - 1 }

-- The ids of the table are handed out in order.
unfoldable pub next_id : List LicenseActivation → ℕ
next_id [] = 1
next_id (r ∷ rs) = max (suc r.id) (next_id rs)

abbrev pub reactivates : ℕ → LicenseActivation → Bool
reactivates i r = (r.id == i) && not (is_null r.deactivated_at)

abbrev pub set_live : ℕ → LicenseActivation → LicenseActivation
set_live now r = record r { deactivated_at = none; activated_at = now }

-- The counter is given back where another request took the device in between.
abbrev undo : ℕ → List Entitlement → List LicenseActivation → Licences × Outcome
undo k es rs =
    (record { entitlements = update (is_used k) drop_use es; activations = rs }, already_active)

-- A row that is there is switched on again; else one is inserted, which meets
-- UNIQUE(entitlement_id, device_id).
unfoldable pub take_slot :
    ℕ
    → ℕ
    → Text
    → Option LicenseActivation
    → List Entitlement
    → List LicenseActivation
    → Licences × Outcome
take_slot now k device (some x) es rs =
    if not (rowcount (reactivates x.id) rs == 1) then undo k es rs else (
      record { entitlements = es; activations = update (reactivates x.id) (set_live now) rs },
      activated,
    )
take_slot now k device none es rs = if is_some (find (is_slot k device) rs) then undo k es rs else (
  record {
    entitlements = es;
    activations =
        rs
        ++ (record {
          id = next_id rs;
          entitlement_id = k;
          device_id = device;
          activated_at = now;
          deactivated_at = none;
        }
            ∷ []);
  },
  activated,
)

unfoldable pub holds_slot : Option LicenseActivation → Bool
holds_slot none = false
holds_slot (some x) = is_null x.deactivated_at

-- `activate_license` after its SELECT, whose answer another request may have outdated.
unfoldable pub activate_found :
    ℕ → ℕ → Text → ℕ → Option LicenseActivation → Licences → Licences × Outcome
activate_found now k device max_activations existing l =
    if holds_slot existing
    then (l, already_active)
    else if not (rowcount (has_slot k max_activations) l.entitlements == 1)
    then (l, at_limit)
    else take_slot now k device existing
        (update (has_slot k max_activations) add_use l.entitlements) l.activations

unfoldable pub activate_license : ℕ → ℕ → Text → ℕ → Licences → Licences × Outcome
activate_license now k device max_activations l =
    activate_found now k device max_activations (find (is_slot k device) l.activations) l

free_slot : ℕ → ℕ → Option LicenseActivation → Licences → Licences × Bool
free_slot now k none l = (l, false)
free_slot now k (some x) l = (
  record {
    entitlements = update (is_used k) drop_use l.entitlements;
    activations =
        update (λ r. r.id == x.id) (λ r. record r { deactivated_at = some now }) l.activations;
  },
  true,
)

unfoldable pub deactivate_license : ℕ → ℕ → Text → Licences → Licences × Bool
unfolding free_slot
deactivate_license now k device l = free_slot now k (find (is_live k device) l.activations) l

unfoldable pub device_active : ℕ → Text → Licences → Bool
device_active k device l = is_some (find (is_live k device) l.activations)
