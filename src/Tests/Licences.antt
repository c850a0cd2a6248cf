-- ===== src/Tests/Licences.antt =====
-- Two devices on a licence for one, three claims on two downloads, and one sign-in.
use tilla.Base.{◌+◌, ◌≤◌, ◌≡◌, refl, true, false, none, some, List, [], ◌∷◌, arith}
use tilla.Base.Text.{Text, codes, text_eq, lower, lower_char}
use tilla.Base.Rows.{find, update, rowcount, select}
use tilla.Base.Keyed.{get}
use tilla.Models.{Entitlement}
use tilla.Delivery.{
  Licences, activated, at_limit, is_null, entitlement_id, activate_found, activate_license,
  device_active, take_slot, holds_slot,
}
use tilla.Delivery.Licence.{Sound, in_use}
use tilla.Delivery.Activate.{activate_found-Sound}
use tilla.Delivery.Pool.{Pool, is_open_at, pool_activate, pool_deactivate}
use tilla.Delivery.Runs.{
  Request, activates, deactivates, outcome, freed, run, run_pool, Fits, run_refines, run_bounded,
}
use tilla.Delivery.Claims.{claim_times, claims_exact}
use tilla.Delivery.Signin.{AuthNonce, buyer, Signing, try_rows, by_id_desc, verify_signin}
use tilla.Delivery.Signin.Laws.{
  is_fresh, Signed, verify_signin-Signed, Attempt, attempt_all, signins_exact,
}
use tilla.Tests.World.{buyer_address}

abbrev bought : Entitlement
bought = record {
  id = 1;
  order_id = 7;
  deliverable_id = 2;
  buyer_addr = some buyer_address;
  download_count = 0;
  activations_used = 0;
  license_key = some (codes "KEY");
  revoked_at = none;
}

abbrev laptop : Text
laptop = codes "laptop"

abbrev phone : Text
phone = codes "phone"

abbrev unused_licence : Licences
unused_licence = record { entitlements = bought ∷ []; activations = [] }

abbrev empty_pool : Pool
empty_pool = record { holds = λ d. false; size = 0; is_open = true }

abbrev requests : List Request
requests = activates 5 laptop ∷ activates 6 phone ∷ deactivates 7 laptop ∷ activates 8 phone ∷ []

unused_Sound : Sound unused_licence.entitlements unused_licence.activations
unfolding rowcount
unused_Sound = record { keys = (tt, tt); ids = tt; slots = tt; counted = (refl, tt) }

unused_Fits : Fits 1 unused_licence empty_pool
unfolding get find rowcount device_active is_open_at is_null
unused_Fits = record {
  entitlement = bought;
  known = refl;
  sound = unused_Sound;
  shows = record { holds = λ d. refl; size = refl; opened = refl };
}

-- The phone waits until the laptop is off.
answers :
    (run_pool 1 requests empty_pool).1
    ≡ outcome activated ∷ outcome at_limit ∷ freed true ∷ outcome activated ∷ []
unfolding pool_activate pool_deactivate text_eq
answers = refl

run_refines_example :
    Fits 1 (run 1 1 requests unused_licence).0 (run_pool 1 requests empty_pool).0
    × ((run 1 1 requests unused_licence).1 ≡ (run_pool 1 requests empty_pool).1)
run_refines_example = run_refines 1 1 requests unused_licence empty_pool unused_Fits

abbrev used_once : Entitlement
used_once = record bought { activations_used = 1 }

run_bounded_example :
    (used_once.activations_used
      ≡ rowcount (in_use 1) (run 1 1 (activates 5 laptop ∷ []) unused_licence).0.activations)
    × (used_once.activations_used ≤ 1)
unfolding get find activate_license activate_found take_slot holds_slot update rowcount is_null
run_bounded_example =
    run_bounded 1 1 (activates 5 laptop ∷ []) unused_licence empty_pool unused_Fits (omega arith)
      used_once refl

-- A request that read no row, while another one has activated the same device.
abbrev taken_licence : Licences
taken_licence = record {
  entitlements = used_once ∷ [];
  activations =
      record {
        id = 1;
        entitlement_id = 1;
        device_id = laptop;
        activated_at = 5;
        deactivated_at = none;
      }
      ∷ [];
}

taken_Sound : Sound taken_licence.entitlements taken_licence.activations
unfolding rowcount is_null
taken_Sound = record { keys = (tt, tt); ids = (tt, tt); slots = (tt, tt); counted = (refl, tt) }

activate_found-Sound_example :
    Sound
      (activate_found 6 1 laptop 3 none taken_licence).0.entitlements
      (activate_found 6 1 laptop 3 none taken_licence).0.activations
activate_found-Sound_example =
    activate_found-Sound 6 1 3 laptop none taken_licence taken_Sound (λ x e. absurd (cc))

claims_exact_example :
    ((claim_times 1 2 3 (bought ∷ [])).1 ≡ 2)
    × (get entitlement_id 1 (claim_times 1 2 3 (bought ∷ [])).0
        ≡ some (record bought { download_count = 2 }))
unfolding get find is_null
claims_exact_example = claims_exact 1 2 3 (bought ∷ []) bought (tt, tt) refl

abbrev nonce : AuthNonce
nonce = record {
  id = 4;
  address = buyer_address;
  nonce = codes "n";
  issued_at = 100;
  expires_at = 400;
  used_at = none;
}

-- Every signature recovers to the buyer.
abbrev signing : Signing
signing = record {
  recover = λ message signature. some buyer_address;
  mint = λ purpose address. codes "token";
  isoformat = λ t. codes "t";
  domain = codes "d";
}

verify_signin-Signed_example :
    Signed signing buyer 200
      (lower buyer_address)
      []
      (nonce ∷ [])
      (verify_signin signing buyer 200 buyer_address [] (nonce ∷ [])).0
      (codes "token")
unfolding verify_signin try_rows by_id_desc select text_eq lower lower_char is_null rowcount
verify_signin-Signed_example =
    verify_signin-Signed signing buyer 200 buyer_address [] (nonce ∷ []) (codes "token") (tt, tt)
      refl

abbrev attempt : Attempt
attempt = record { purpose = buyer; now = 200; address = buyer_address; signature = [] }

signins_exact_example :
    rowcount is_fresh (attempt_all signing (attempt ∷ attempt ∷ []) (nonce ∷ [])).0
      + (attempt_all signing (attempt ∷ attempt ∷ []) (nonce ∷ [])).1
    ≡ 1
unfolding rowcount is_null
signins_exact_example = signins_exact signing (attempt ∷ attempt ∷ []) (nonce ∷ []) (tt, tt)
