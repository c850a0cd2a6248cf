-- ===== src/Delivery/Signin.antt =====
-- The sign-in of app/delivery.py: a wallet signs a message that the server rebuilds from a stored
-- nonce, and each nonce admits one sign-in.
pub mod Laws
use Prim.Native.String.{String}
use tilla.Base.{
  ℕ, suc, ◌+◌, ◌≡◌, refl, sym, ap, ◌∙◌, subst, Bool, true, false, not, ◌&&◌, Option, none, some,
  List, [], ◌∷◌, ◌++◌, arith, ◌==◌, ltb, leb, max, is_some, if◌then◌else◌, Bool-cases, Option-cases,
  inl, inr, All,
}
use tilla.Base.Text.{Text, codes, text_eq, lower}
use tilla.Base.Rows.{select, update, rowcount}
use tilla.Delivery.{is_null}

pub record AuthNonce : Type 0 where
  pub id : ℕ
  pub address : Text
  pub nonce : Text
  pub issued_at : ℕ
  pub expires_at : ℕ
  pub used_at : Option ℕ

pub data Purpose : Type 0 where
  buyer merchant : Purpose

-- What the sign-in takes from outside: the recovery of a signer, which fails on a bad signature,
-- the token that is minted for a purpose and an address, and `datetime.isoformat`.
pub record Signing : Type 0 where
  pub recover : Text → Text → Option Text
  pub mint : Purpose → Text → Text
  pub isoformat : ℕ → Text
  pub domain : Text

abbrev pub nonce_ttl : ℕ
nonce_ttl = 300

title : Purpose → Text
title buyer = codes "Tilla sign-in"
title merchant = codes "Tilla merchant sign-in"

line : String → Text → Text
line label value = 10 ∷ (codes label ++ value)

-- The message of `build_signin_message` and `build_merchant_signin_message`.
unfoldable pub build_message : Signing → Purpose → Text → AuthNonce → Text
unfolding title line
build_message s purpose address row =
    title purpose
    ++ (line "domain: " s.domain
        ++ (line "address: " address
            ++ (line "nonce: " row.nonce
                ++ (line "issued: " (s.isoformat row.issued_at)
                    ++ line "expires: " (s.isoformat row.expires_at)))))

-- The rows that stay when a new nonce is issued, and the new row.
unfoldable pub next_nonce : List AuthNonce → ℕ
next_nonce [] = 1
next_nonce (r ∷ rs) = max (suc r.id) (next_nonce rs)

unfoldable pub issue_nonce : ℕ → Text → Text → List AuthNonce → List AuthNonce
issue_nonce now token address rows =
    let addr = lower address in
    let kept = select (λ r. not (text_eq r.address addr && leb r.expires_at now)) rows in
    kept
    ++ (record {
      id = next_nonce kept;
      address = addr;
      nonce = token;
      issued_at = now;
      expires_at = now + nonce_ttl;
      used_at = none;
    }
        ∷ [])

abbrev pub is_usable : ℕ → Text → AuthNonce → Bool
is_usable now addr r = text_eq r.address addr && (is_null r.used_at && ltb now r.expires_at)

-- `order_by(AuthNonce.id.desc())`
insert_desc : AuthNonce → List AuthNonce → List AuthNonce
insert_desc r [] = r ∷ []
insert_desc r (x ∷ xs) =
    let rest = insert_desc r xs in if ltb r.id x.id then x ∷ rest else r ∷ x ∷ xs

unfoldable pub by_id_desc : List AuthNonce → List AuthNonce
unfolding insert_desc
by_id_desc [] = []
by_id_desc (r ∷ rs) = insert_desc r (by_id_desc rs)

-- Whether the recovered signer is the address.
signed_by : Text → Option Text → Bool
signed_by addr none = false
signed_by addr (some signer) = text_eq (lower signer) addr

abbrev pub is_unused : ℕ → AuthNonce → Bool
is_unused i r = (r.id == i) && is_null r.used_at

abbrev pub set_used : ℕ → AuthNonce → AuthNonce
set_used now r = record r { used_at = some now }

-- The loop over the usable rows.
unfoldable pub try_rows :
    Signing
    → Purpose
    → ℕ
    → Text
    → Text
    → List AuthNonce
    → List AuthNonce
    → List AuthNonce × Option Text
unfolding signed_by
try_rows s purpose now addr signature [] table = (table, none)
try_rows s purpose now addr signature (r ∷ rs) table =
    let skip = try_rows s purpose now addr signature rs table in
    let lost =
      try_rows s purpose now addr signature rs (update (is_unused r.id) (set_used now) table) in
    if not (signed_by addr (s.recover (build_message s purpose addr r) signature))
    then skip
    else if rowcount (is_unused r.id) table == 1
    then (update (is_unused r.id) (set_used now) table, some (s.mint purpose addr))
    else lost

unfoldable pub verify_signin :
    Signing → Purpose → ℕ → Text → Text → List AuthNonce → List AuthNonce × Option Text
verify_signin s purpose now address signature table =
    let addr = lower address in
    try_rows s purpose now addr signature (by_id_desc (select (is_usable now addr) table)) table
