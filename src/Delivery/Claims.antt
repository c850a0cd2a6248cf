-- ===== src/Delivery/Claims.antt =====
-- Any number of download claims on one entitlement, by `claim_download` of app/delivery.py.
use mathlib.Core.Option
use tilla.Base.{
  ℕ, zero, suc, ◌+◌, ◌-◌, min, ◌≡◌, refl, sym, ap, ◌∙◌, true, false, ◌&&◌, some, List, arith, ltb,
  if◌then◌else◌, Bool-cases, inl, inr,
}
use tilla.Base.Keyed.{get, get-key, get-update, rowcount-key, update-IsUnique, IsUnique}
use tilla.Models.{Entitlement}
use tilla.Delivery.{claim_download, has_download, entitlement_id, is_null}

-- The table after n claims, and how many were granted.
abbrev pub claim_times : ℕ → ℕ → ℕ → List Entitlement → List Entitlement × ℕ
claim_times k cap zero es = (es, 0)
claim_times k cap (suc n) es =
    let first = claim_download k cap es in
    let rest = claim_times k cap n first.0 in (rest.0, (if first.1 then 1 else 0) + rest.1)

-- What n claims on a row are granted: what is left under the cap, and nothing on a revoked row.
abbrev pub grants : ℕ → ℕ → Entitlement → ℕ
grants cap n e = if is_null e.revoked_at then min n (cap - e.download_count) else 0

abbrev downloaded : ℕ → Entitlement → Entitlement
downloaded n e = record e { download_count = e.download_count + n }

zero_more : (m : ℕ) → 0 + m ≡ m
zero_more m = omega arith

downloaded_none : (e : Entitlement) → e ≡ downloaded 0 e
downloaded_none e = ap (λ n. record e { download_count = n }) (omega arith)

downloaded_more : (n : ℕ) (e : Entitlement) → downloaded n (downloaded 1 e) ≡ downloaded (1 + n) e
downloaded_more n e = ap (λ m. record e { download_count = m }) (omega arith)

module _ (k cap : ℕ) where
  -- One claim is granted exactly where the row is not revoked and below the cap.
  claim_wins :
      (es : List Entitlement) (e : Entitlement)
      → IsUnique entitlement_id es
      → get entitlement_id k es ≡ some e
      → (claim_download k cap es).1 ≡ (ltb e.download_count cap && is_null e.revoked_at)
  unfolding claim_download
  claim_wins es e u found = ground (
    arith,
    rw found at (
        rowcount-key entitlement_id k (λ x. ltb x.download_count cap && is_null x.revoked_at) es u),
  )

  claim_row :
      (es : List Entitlement) (e : Entitlement)
      → get entitlement_id k es ≡ some e
      → get entitlement_id k (claim_download k cap es).0
        ≡ some (if ltb e.download_count cap && is_null e.revoked_at then downloaded 1 e else e)
  unfolding claim_download
  claim_row es e found =
      get-update entitlement_id (has_download k cap) (downloaded 1) (λ x. refl) k es
      ∙ ap (Option.map λ x. if has_download k cap x then downloaded 1 x else x) found
      ∙ ap some (at_key (get-key entitlement_id k es e found))
    where
      at_key :
          e.id ≡ k
          → (if has_download k cap e then downloaded 1 e else e)
            ≡ (if ltb e.download_count cap && is_null e.revoked_at then downloaded 1 e else e)
      at_key e_at = (ground (arith, e_at))

  claim_keys :
      (es : List Entitlement)
      → IsUnique entitlement_id es
      → IsUnique entitlement_id (claim_download k cap es).0
  unfolding claim_download
  claim_keys es u =
      update-IsUnique entitlement_id (has_download k cap) (downloaded 1) (λ x. refl) es u

  -- Of n claims on one entitlement exactly those are granted that fit under the cap, none once it is
  -- revoked, and the count of downloads grows by just as many.
  pub claims_exact :
      (n : ℕ) (es : List Entitlement) (e : Entitlement)
      → IsUnique entitlement_id es
      → get entitlement_id k es ≡ some e
      → let after = claim_times k cap n es in
        (after.1 ≡ grants cap n e)
        × (get entitlement_id k after.0 ≡ some (downloaded (grants cap n e) e))
  claims_exact zero es e u found =
      (ground arith, found ∙ ap some (downloaded_none e ∙ ap (λ m. downloaded m e) (ground arith)))
  claims_exact (suc n) es e u found =
      elim (Bool-cases (ltb e.download_count cap && is_null e.revoked_at)) [
        | inl free ↦
            let more : grants cap (suc n) e ≡ 1 + grants cap n (downloaded 1 e) = ground arith in
            let one : (claim_download k cap es).1 ≡ true = claim_wins es e u found ∙ free in
            let row = claim_row es e found ∙ ap some (rw free refl) in
            let (count, after) =
              claims_exact n (claim_download k cap es).0 (downloaded 1 e) (claim_keys es u) row in
            (
              rw one (ap (λ m. 1 + m) count ∙ sym more),
              after
                  ∙ ap some (
                      downloaded_more (grants cap n (downloaded 1 e)) e
                      ∙ ap (λ m. downloaded m e) (sym more)),
            )
        | inr full ↦
            let same : grants cap (suc n) e ≡ grants cap n e = ground arith in
            let lost : (claim_download k cap es).1 ≡ false = claim_wins es e u found ∙ full in
            let row = claim_row es e found ∙ ap some (rw full refl) in
            let (count, after) =
              claims_exact n (claim_download k cap es).0 e (claim_keys es u) row in
            (
              rw lost (ap (λ m. 0 + m) count ∙ zero_more (grants cap n e) ∙ sym same),
              after ∙ ap some (ap (λ m. downloaded m e) (sym same)),
            )
      ]
