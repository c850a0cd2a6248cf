-- ===== src/Delivery/Signin/Laws.antt =====
-- A sign-in uses up one nonce, which the wallet of the address signed.
use tilla.Base.{
  ℕ, ◌+◌, ◌≡◌, refl, sym, ap, ◌∙◌, Bool, true, false, Option, none, some, List, [], ◌∷◌, arith,
  ◌==◌, is_some, if◌then◌else◌, Bool-cases, Option-cases, inl, inr, All, All-both, ltb,
}
use tilla.Base.Text.{Text, text_eq_sound, lower}
use tilla.Base.Rows.{select_sound, select-All, update, update_none, rowcount}
use tilla.Base.Keyed.{get, get_self, rowcount-key, update-IsUnique, IsUnique, get-update, get-key}
use mathlib.Core.Option
use tilla.Delivery.{is_null}
use tilla.Delivery.Count.{one_if, rowcount-update}
use tilla.Delivery.Signin.{
  AuthNonce, Purpose, Signing, build_message, is_usable, insert_desc, by_id_desc, signed_by,
  is_unused, set_used, try_rows, verify_signin,
}

abbrev pub nonce_id : AuthNonce → ℕ
nonce_id r = r.id

abbrev pub is_fresh : AuthNonce → Bool
is_fresh r = is_null r.used_at

insert_desc-All {κ} :
    (P : AuthNonce → Type κ) (r : AuthNonce) (rs : List AuthNonce)
    → P r
    → All P rs
    → All P (insert_desc r rs)
unfolding insert_desc
insert_desc-All P r [] p h = (p, tt)
insert_desc-All P r (x ∷ xs) p h = elim (Bool-cases (ltb r.id x.id)) [
  | inl below ↦ rw below (h.0, insert_desc-All P r xs p h.1)
  | inr above ↦ rw above (p, h)
]

by_id_desc-All {κ} :
    (P : AuthNonce → Type κ) (rs : List AuthNonce) → All P rs → All P (by_id_desc rs)
unfolding by_id_desc
by_id_desc-All P [] h = tt
by_id_desc-All P (r ∷ rs) h = insert_desc-All P r (by_id_desc rs) h.0 (by_id_desc-All P rs h.1)

-- The UPDATE of one nonce wins for an unused row, and else it changes nothing.
consume :
    (now i : ℕ) (table : List AuthNonce)
    → IsUnique nonce_id table
    → (rowcount (is_unused i) table == 1) ≡ true
    → rowcount is_fresh (update (is_unused i) (set_used now) table) + 1 ≡ rowcount is_fresh table
unfolding is_null
consume now i table u won = elim (Option-cases (get nonce_id i table)) [
  | inl e ↦
      absurd (ground (arith, rw e at (rowcount-key nonce_id i (λ r. is_null r.used_at) table u)))
  | inr (x, found) ↦
      let unused : is_null x.used_at ≡ true =
        ground (arith, rw found at (rowcount-key nonce_id i (λ r. is_null r.used_at) table u)) in
      ground (
        arith,
        get-key nonce_id i table x found,
        rowcount-update nonce_id i (is_unused i) (set_used now) (λ r h. ground arith) is_fresh table
            x u found (ground (arith, get-key nonce_id i table x found)),
      )
]

lose :
    (now i : ℕ) (table : List AuthNonce)
    → IsUnique nonce_id table
    → (rowcount (is_unused i) table == 1) ≡ false
    → update (is_unused i) (set_used now) table ≡ table
lose now i table u lost =
    update_none (is_unused i) (set_used now) table
      (ground (arith, rowcount-key nonce_id i (λ r. is_null r.used_at) table u))

-- A successful loop, by the row that it consumed.
pub record Signed (s : Signing) (purpose : Purpose) (now : ℕ) (addr signature : Text)
    (table after : List AuthNonce) (token : Text) : Type 0 where
  pub row : AuthNonce
  pub there : get nonce_id row.id table ≡ some row
  pub usable : is_usable now addr row ≡ true
  pub signer : Text
  pub recovered : s.recover (build_message s purpose addr row) signature ≡ some signer
  pub own : lower signer ≡ addr
  pub used : get nonce_id row.id after ≡ some (set_used now row)
  pub minted : token ≡ s.mint purpose addr

some_injective : (a b : Text) → ◌≡◌ {A = Option Text} (some a) (some b) → a ≡ b
some_injective a b h = cc h

signer_of :
    (addr : Text) (found : Option Text)
    → signed_by addr found ≡ true
    → (signer : Text) × (found ≡ some signer) × (lower signer ≡ addr)
unfolding signed_by
signer_of addr none h = absurd (cc)
signer_of addr (some signer) h = (signer, refl, text_eq_sound _ _ h)

module _ (s : Signing) (purpose : Purpose) (now : ℕ) (addr signature : Text) where
  abbrev Ready : List AuthNonce → AuthNonce → Type 0
  Ready table r = (get nonce_id r.id table ≡ some r) × (is_usable now addr r ≡ true)

  try_rows-Signed :
      (rs table : List AuthNonce) (token : Text)
      → IsUnique nonce_id table
      → All (Ready table) rs
      → (try_rows s purpose now addr signature rs table).1 ≡ some token
      → Signed s purpose now addr signature table
          (try_rows s purpose now addr signature rs table).0
          token
  unfolding try_rows
  try_rows-Signed [] table token u ready h = absurd (cc)
  try_rows-Signed (r ∷ rs) table token u ready h =
      elim (Bool-cases (signed_by addr (s.recover (build_message s purpose addr r) signature))) [
        | inr other ↦ rw other (try_rows-Signed rs table token u ready.1 (rw other at h))
        | inl mine ↦ elim (Bool-cases (rowcount (is_unused r.id) table == 1)) [
          | inr lost ↦
              rw (mine, lost, lose now r.id table u lost)
                (try_rows-Signed rs table token u ready.1
                  (rw (mine, lost, lose now r.id table u lost) at h))
          | inl won ↦
              let (signer, recovered, own) = signer_of addr _ mine in
              rw (mine, won)
                (record {
                  row = r;
                  there = ready.0.0;
                  usable = ready.0.1;
                  signer = signer;
                  recovered = recovered;
                  own = own;
                  used =
                      get-update nonce_id (is_unused r.id) (set_used now) (λ x. refl) r.id table
                      ∙ ap (Option.map λ x. if is_unused r.id x then set_used now x else x)
                          ready.0.0
                      ∙ ap some (ground (arith, ready.0.1));
                  minted = sym (some_injective _ _ (rw (mine, won) at h));
                })
        ]
      ]

  -- Each row that is consumed was unused.
  try_rows-counts :
      (rs table : List AuthNonce)
      → IsUnique nonce_id table
      → let after = try_rows s purpose now addr signature rs table in
        (rowcount is_fresh after.0 + one_if (is_some after.1) ≡ rowcount is_fresh table)
        × IsUnique nonce_id after.0
  unfolding try_rows
  try_rows-counts [] table u = (omega arith, u)
  try_rows-counts (r ∷ rs) table u =
      elim (Bool-cases (signed_by addr (s.recover (build_message s purpose addr r) signature))) [
        | inr other ↦ rw other (try_rows-counts rs table u)
        | inl mine ↦ elim (Bool-cases (rowcount (is_unused r.id) table == 1)) [
          | inr lost ↦ rw (mine, lost, lose now r.id table u lost) (try_rows-counts rs table u)
          | inl won ↦
              rw (mine, won)
                (
                  consume now r.id table u won,
                  update-IsUnique nonce_id (is_unused r.id) (set_used now) (λ x. refl) table u,
                )
        ]
      ]

-- A sign-in that answers a token consumed one usable nonce of the address, whose message, rebuilt
-- for the purpose, the address signed; the token is that of the purpose and the address.
pub verify_signin-Signed :
    (s : Signing) (purpose : Purpose) (now : ℕ) (address signature : Text) (table : List AuthNonce)
    (token : Text)
    → IsUnique nonce_id table
    → (verify_signin s purpose now address signature table).1 ≡ some token
    → Signed s purpose now
        (lower address)
        signature
        table
        (verify_signin s purpose now address signature table).0
        token
unfolding verify_signin
verify_signin-Signed s purpose now address signature table token u h =
    try_rows-Signed s purpose now (lower address) signature _ table token u
      (by_id_desc-All (Ready s purpose now (lower address) signature table) _ (
        All-both _ _ _
          (select-All _ (is_usable now (lower address)) table (get_self nonce_id table u))
          (select_sound (is_usable now (lower address)) table)))
      h

pub record Attempt : Type 0 where
  pub purpose : Purpose
  pub now : ℕ
  pub address : Text
  pub signature : Text

-- The nonces after a row of attempts, and how many signed in.
abbrev pub attempt_all : Signing → List Attempt → List AuthNonce → List AuthNonce × ℕ
attempt_all s [] table = (table, 0)
attempt_all s (a ∷ rest) table =
    let first = verify_signin s a.purpose a.now a.address a.signature table in
    let others = attempt_all s rest first.0 in (others.0, one_if (is_some first.1) + others.1)

verify_signin-counts :
    (s : Signing) (purpose : Purpose) (now : ℕ) (address signature : Text) (table : List AuthNonce)
    → IsUnique nonce_id table
    → let after = verify_signin s purpose now address signature table in
      (rowcount is_fresh after.0 + one_if (is_some after.1) ≡ rowcount is_fresh table)
      × IsUnique nonce_id after.0
unfolding verify_signin
verify_signin-counts s purpose now address signature table u =
    try_rows-counts s purpose now (lower address) signature _ table u

-- However often signatures are tried, for either purpose, and whichever addresses they recover to,
-- each sign-in uses up one nonce: the sign-ins and the nonces that are left unused add up to the
-- nonces that were unused before.
pub signins_exact :
    (s : Signing) (attempts : List Attempt) (table : List AuthNonce)
    → IsUnique nonce_id table
    → let after = attempt_all s attempts table in
      rowcount is_fresh after.0 + after.1 ≡ rowcount is_fresh table
signins_exact s [] table u = omega arith
signins_exact s (a ∷ rest) table u =
    let (count, keys) = verify_signin-counts s a.purpose a.now a.address a.signature table u in
    omega (
      arith,
      count,
      signins_exact s rest (verify_signin s a.purpose a.now a.address a.signature table).0 keys,
    )
