-- ===== src/Delivery/Runs.antt =====
-- Whole runs of requests on one licence, against the pool of its devices.
use mathlib.Core.Option
use tilla.Base.{
  ℕ, ◌≤◌, ◌≡◌, refl, ap, ◌∙◌, Bool, ◌&&◌, Option, none, some, is_some, ◌==◌, Option-cases, List, [],
  ◌∷◌, arith, ltb, if◌then◌else◌, Bool-cases, inl, inr,
}
use tilla.Base.Text.{Text}
use tilla.Base.Rows.{find, update, rowcount}
use tilla.Base.Keyed.{get, get-key, get-All, get-update}
use tilla.Models.{Entitlement}
use tilla.Delivery.{
  Licences, Outcome, entitlement_id, is_slot, is_live, has_slot, add_use, is_used, drop_use,
  free_slot, holds_slot, take_slot, activate_found, activate_license, deactivate_license,
  LicenseActivation, reactivates,
}
use tilla.Delivery.Licence.{Sound, in_use, IsCounted}
use tilla.Delivery.Activate.{activate_license-Sound, deactivate_license-Sound}
use tilla.Delivery.Pool.{Pool, Shows, pool_activate, pool_deactivate}
use tilla.Delivery.Refines.{activate-Shows, deactivate-Shows}

-- The requests of the holders of one licence, each with its clock.
pub data Request : Type 0 where
  activates deactivates : ℕ → Text → Request

pub data Answer : Type 0 where
  outcome : Outcome → Answer
  freed : Bool → Answer

abbrev pub serve : ℕ → ℕ → Request → Licences → Licences × Answer
serve k cap (activates now device) l =
    let after = activate_license now k device cap l in (after.0, outcome after.1)
serve k cap (deactivates now device) l =
    let after = deactivate_license now k device l in (after.0, freed after.1)

abbrev pub serve_pool : ℕ → Request → Pool → Pool × Answer
serve_pool cap (activates now device) p =
    let after = pool_activate cap device p in (after.0, outcome after.1)
serve_pool cap (deactivates now device) p =
    let after = pool_deactivate device p in (after.0, freed after.1)

abbrev pub run : ℕ → ℕ → List Request → Licences → Licences × List Answer
run k cap [] l = (l, [])
run k cap (r ∷ rs) l =
    let first = serve k cap r l in let rest = run k cap rs first.0 in (rest.0, first.1 ∷ rest.1)

abbrev pub run_pool : ℕ → List Request → Pool → Pool × List Answer
run_pool cap [] p = (p, [])
run_pool cap (r ∷ rs) p =
    let first = serve_pool cap r p in
    let rest = run_pool cap rs first.0 in (rest.0, first.1 ∷ rest.1)

-- Tables that show a pool.
pub record Fits (k : ℕ) (l : Licences) (p : Pool) : Type 0 where
  pub entitlement : Entitlement
  pub known : get entitlement_id k l.entitlements ≡ some entitlement
  pub sound : Sound l.entitlements l.activations
  pub shows : Shows k l p

moved_on :
    (k : ℕ) (w : Entitlement → Bool) (f : Entitlement → Entitlement)
    → ((x : Entitlement) → (f x).id ≡ x.id)
    → (es : List Entitlement) (e : Entitlement) → get entitlement_id k es ≡ some e
    → (e' : Entitlement) × (get entitlement_id k (update w f es) ≡ some e')
moved_on k w f keep es e found =
    (_, get-update entitlement_id w f keep k es ∙ ap (Option.map λ x. if w x then f x else x) found)

module _ (k cap : ℕ) where
  -- An entitlement that a licence call finds is there after it.
  take-known :
      (now : ℕ) (device : Text) (x : Option LicenseActivation) (es : List Entitlement)
      (rs : List LicenseActivation) (e : Entitlement)
      → get entitlement_id k es ≡ some e
      → (e' : Entitlement) × (get entitlement_id k (take_slot now k device x es rs).0.entitlements
          ≡ some e')
  unfolding take_slot
  take-known now device none es rs e found =
      elim (Bool-cases (is_some (find (is_slot k device) rs))) [
        | inl there ↦ rw there (moved_on k (is_used k) drop_use (λ x. refl) es e found)
        | inr new ↦ rw new (e, found)
      ]
  take-known now device (some x) es rs e found =
      elim (Bool-cases (rowcount (reactivates x.id) rs == 1)) [
        | inl one ↦ rw one (e, found)
        | inr lost ↦ rw lost (moved_on k (is_used k) drop_use (λ v. refl) es e found)
      ]

  activate-known :
      (now : ℕ) (device : Text) (l : Licences) (e : Entitlement)
      → get entitlement_id k l.entitlements ≡ some e
      → (e' : Entitlement) × (get entitlement_id k
            (activate_license now k device cap l).0.entitlements
          ≡ some e')
  unfolding activate_license activate_found
  activate-known now device l e found =
      elim (Bool-cases (holds_slot (find (is_slot k device) l.activations))) [
        | inl held ↦ rw held (e, found)
        | inr idle ↦ elim (Bool-cases (rowcount (has_slot k cap) l.entitlements == 1)) [
          | inr full ↦ rw (idle, full) (e, found)
          | inl won ↦
              let (e', found') =
                moved_on k (has_slot k cap) add_use (λ x. refl) l.entitlements e found in
              rw (idle, won)
                (take-known now device (find (is_slot k device) l.activations)
                  (update (has_slot k cap) add_use l.entitlements) l.activations e' found')
        ]
      ]

  deactivate-known :
      (now : ℕ) (device : Text) (l : Licences) (e : Entitlement)
      → get entitlement_id k l.entitlements ≡ some e
      → (e' : Entitlement) × (get entitlement_id k
            (deactivate_license now k device l).0.entitlements
          ≡ some e')
  unfolding deactivate_license free_slot
  deactivate-known now device l e found =
      elim (Option-cases (find (is_live k device) l.activations)) [
        | inl nothing ↦ rw nothing (e, found)
        | inr (x, there) ↦
            rw there (moved_on k (is_used k) drop_use (λ v. refl) l.entitlements e found)
      ]

  serve-Fits :
      (r : Request) (l : Licences) (p : Pool)
      → Fits k l p
      → Fits k (serve k cap r l).0 (serve_pool cap r p).0
        × ((serve k cap r l).1 ≡ (serve_pool cap r p).1)
  serve-Fits (activates now device) l p fits =
      let (shows, same) = activate-Shows now k cap device l p fits.sound fits.shows in
      let (e, known) = activate-known now device l fits.entitlement fits.known in
      (
        record {
          entitlement = e;
          known = known;
          sound = activate_license-Sound now k cap device l fits.sound;
          shows = shows;
        },
        ap outcome same,
      )
  serve-Fits (deactivates now device) l p fits =
      let (shows, same) = deactivate-Shows now k device l p fits.sound fits.shows in
      let (e, known) = deactivate-known now device l fits.entitlement fits.known in
      (
        record {
          entitlement = e;
          known = known;
          sound = deactivate_license-Sound now k device l fits.entitlement fits.sound fits.known;
          shows = shows;
        },
        ap freed same,
      )

  -- Whatever devices ask for, in whatever order, the tables of a licence answer as the pool of its
  -- devices does, request by request, and end up showing that pool.
  pub run_refines :
      (rs : List Request) (l : Licences) (p : Pool)
      → Fits k l p
      → Fits k (run k cap rs l).0 (run_pool cap rs p).0
        × ((run k cap rs l).1 ≡ (run_pool cap rs p).1)
  run_refines [] l p fits = (fits, refl)
  run_refines (r ∷ rs) l p fits =
      let (first, same) = serve-Fits r l p fits in
      let (rest, others) = run_refines rs _ _ first in (rest, cc (same, others))

pool_bounded : (cap : ℕ) (r : Request) (p : Pool) → p.size ≤ cap → (serve_pool cap r p).0.size ≤ cap
unfolding pool_activate pool_deactivate
pool_bounded cap (activates now device) p h = elim (Bool-cases (p.holds device)) [
  | inl held ↦ rw held h
  | inr idle ↦ elim (Bool-cases (p.is_open && ltb p.size cap)) [
    | inl free ↦ rw (idle, free) (ground arith)
    | inr full ↦ rw (idle, full) h
  ]
]
pool_bounded cap (deactivates now device) p h = elim (Bool-cases (p.holds device)) [
  | inl held ↦ rw held (omega arith)
  | inr idle ↦ rw idle h
]

run_pool_bounded :
    (cap : ℕ) (rs : List Request) (p : Pool) → p.size ≤ cap → (run_pool cap rs p).0.size ≤ cap
run_pool_bounded cap [] p h = h
run_pool_bounded cap (r ∷ rs) p h = run_pool_bounded cap rs _ (pool_bounded cap r p h)

-- No run of requests pushes the counter of a licence, which is the number of its devices in use,
-- past the cap, if it is not past it before.
pub run_bounded :
    (k cap : ℕ) (rs : List Request) (l : Licences) (p : Pool)
    → Fits k l p
    → p.size ≤ cap
    → (e : Entitlement) → get entitlement_id k (run k cap rs l).0.entitlements ≡ some e
    → (e.activations_used ≡ rowcount (in_use k) (run k cap rs l).0.activations)
      × (e.activations_used ≤ cap)
run_bounded k cap rs l p fits below e found =
    let (after, _) = run_refines k cap rs l p fits in
    let counted =
      get-All entitlement_id (IsCounted (run k cap rs l).0.activations) k _ e found
        after.sound.counted
      ∙ ap (λ n. rowcount (in_use n) (run k cap rs l).0.activations)
          (get-key entitlement_id k _ e found) in
    (counted, omega (arith, counted, after.shows.size, run_pool_bounded cap rs p below))
