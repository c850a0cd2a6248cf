-- ===== src/Delivery/Licence.antt =====
-- The tables of the licences: the counter of an entitlement is the number of devices that hold a
-- slot, and every activation and deactivation keeps it so.
use tilla.Base.{
  ℕ, ◌<◌, ◌≡◌, refl, ◌≢◌, sym, ap, ◌∙◌, subst, Bool, true, false, ◌&&◌, some, List, [], ◌∷◌, arith,
  ◌==◌, ltb, if◌then◌else◌, Bool-cases, Option-cases, inl, inr, All, All-mono, All-both, Pairs,
}
use tilla.Base.Rows.{update, rowcount}
use tilla.Base.Keyed.{get, get-key, rowcount-key, IsUnique}
use tilla.Base.Zip.{update-All_dep}
use tilla.Models.{Entitlement}
use tilla.Delivery.{
  LicenseActivation, is_null, entitlement_id, is_slot, has_slot, add_use, is_used, drop_use,
  next_id,
}

abbrev pub row_id : LicenseActivation → ℕ
row_id r = r.id

-- The rows that use up a slot of one entitlement.
abbrev pub in_use : ℕ → LicenseActivation → Bool
in_use k r = (r.entitlement_id == k) && is_null r.deactivated_at

abbrev pub IsCounted : List LicenseActivation → Entitlement → Type 0
IsCounted rs e = e.activations_used ≡ rowcount (in_use e.id) rs

-- UNIQUE(entitlement_id, device_id)
abbrev pub Apart : LicenseActivation → LicenseActivation → Type 0
Apart x y = is_slot x.entitlement_id x.device_id y ≡ false

pub record Sound (es : List Entitlement) (rs : List LicenseActivation) : Type 0 where
  pub keys : IsUnique entitlement_id es
  pub ids : IsUnique row_id rs
  pub slots : Pairs Apart rs
  pub counted : All (IsCounted rs) es

-- The counters follow the rows where the UPDATE of the entitlement `k` does.
pub IsCounted-move :
    (w : Entitlement → Bool) (f : Entitlement → Entitlement) (rs rs' : List LicenseActivation)
    (k : ℕ) (e : Entitlement) (es : List Entitlement)
    → ((x : Entitlement) → w x ≡ true → x.id ≡ k)
    → ((x : Entitlement) → (f x).id ≡ x.id)
    → w e ≡ true
    → ((n : ℕ) → n ≢ k → rowcount (in_use n) rs' ≡ rowcount (in_use n) rs)
    → (f e).activations_used ≡ rowcount (in_use k) rs'
    → e.id ≡ k
    → All (λ x. x.id ≡ k → x ≡ e) es
    → All (IsCounted rs) es
    → All (IsCounted rs') (update w f es)
IsCounted-move w f rs rs' k e es only_k keep hit others new same_key only old =
    update-All_dep (IsCounted rs') w f es (
      All-mono _ _
        (λ x both. (
          (λ wx. subst (λ v. IsCounted rs' (f v)) (sym (both.0 (only_k x wx))) (moved)),
          (λ off. unmoved x both.0 both.1 off),
        ))
        es (All-both _ _ es only old))
  where
    moved : IsCounted rs' (f e)
    moved = new ∙ ap (λ n. rowcount (in_use n) rs') (sym (keep e ∙ same_key))

    unmoved :
        (x : Entitlement) → (x.id ≡ k → x ≡ e) → IsCounted rs x → w x ≡ false → IsCounted rs' x
    unmoved x only c off = elim (Bool-cases (x.id == k)) [
      | inl at ↦ absurd (cc (hit, off, only (ground arith)))
      | inr away ↦ c ∙ sym (others x.id (λ at. ground arith))
    ]

-- The row that a won UPDATE moved.
pub slot_won :
    (k cap : ℕ) (es : List Entitlement)
    → IsUnique entitlement_id es
    → (rowcount (has_slot k cap) es == 1) ≡ true
    → (e : Entitlement) × (get entitlement_id k es ≡ some e) × (has_slot k cap e ≡ true)
slot_won k cap es u won = elim (Option-cases (get entitlement_id k es)) [
  | inl e ↦ absurd (
      ground (
        arith,
        rowcount-key entitlement_id k (λ x. ltb x.activations_used cap && is_null x.revoked_at) es
            u,
      ))
  | inr (x, found) ↦ (
    x,
    found,
    ground (
      arith,
      get-key entitlement_id k es x found,
      rw found at (
          rowcount-key entitlement_id k (λ y. ltb y.activations_used cap && is_null y.revoked_at) es
            u),
    ),
  )
]

drop_add : (e : Entitlement) → drop_use (add_use e) ≡ e
drop_add e = ap (λ n. record e { activations_used = n }) (omega arith)

undo_one :
    (k : ℕ) (x : Entitlement)
    → (x.id == k) ≡ true
    → (if is_used k (add_use x) then drop_use (add_use x) else add_use x) ≡ x
undo_one k x at = let used : is_used k (add_use x) ≡ true = ground arith in rw used (drop_add x)

-- The counter that is given back is the counter as it was.
pub undo_add :
    (k cap : ℕ) (es : List Entitlement)
    → All (λ x. x.id ≡ k → has_slot k cap x ≡ true) es
    → update (is_used k) drop_use (update (has_slot k cap) add_use es) ≡ es
unfolding update
undo_add k cap [] h = refl
undo_add k cap (x ∷ xs) h = elim (Bool-cases (x.id == k)) [
  | inl at ↦ rw (h.0 (ground arith)) (cc (undo_one k x at, undo_add k cap xs h.1))
  | inr away ↦ rw (away, away) (ap (◌∷◌ x) (undo_add k cap xs h.1))
]

-- A fresh id is above the ids of the table.
pub next_id_above : (rs : List LicenseActivation) → All (λ r. r.id < next_id rs) rs
unfolding next_id
next_id_above [] = tt
next_id_above (r ∷ rs) = (ground arith, All-mono _ _ (λ x h. ground arith) rs (next_id_above rs))
