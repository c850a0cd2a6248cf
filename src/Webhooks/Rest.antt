-- ===== src/Webhooks/Rest.antt =====
-- The claims of one pass of `dispatch_once` of app/webhooks.py, against the attempts left.
use tilla.Base.{
  ℕ, suc, ◌+◌, ◌≤◌, ◌≡◌, refl, ◌≢◌, sym, ap, ◌∙◌, subst, true, false, some, List, [], ◌∷◌, ◌++◌,
  arith, ◌==◌, length, length-append, Bool-cases, inl, inr, All, All-mono, All-both, All-intro,
  if◌then◌else◌,
}
use tilla.Base.Rows.{update, update-All, rowcount}
use tilla.Base.Keyed.{get, get-update, rowcount-key, update-IsUnique, IsUnique}
use tilla.Base.Zip.{update-All_dep, get-only}
use tilla.Models.{Merchant, WebhookDelivery}
use tilla.Webhooks.Dispatch.{
  is_pending, Claim, Claims, is_claimable, kill, bump, reachable, claim_row, claim_rows,
}
use tilla.Webhooks.Idle.{
  hook_id, is_claimed, is_abreast, left, all_left, left_less, left_drop, is_claimed-append_one,
  is_abreast-append_one, unclaimed-is_abreast, kill_less, bump_less, other_less, bump_drops,
}

-- The ids of the table are unique, and no open claim of a row is behind its attempts.
pub record Held (s : Claims) : Type 0 where
  pub unique : IsUnique hook_id s.0
  pub rows : All (λ d. is_abreast s.1 d ≡ true) s.0

-- A row of the batch as the table has it, with no claim yet.
pub record Ready (s : Claims) (d : WebhookDelivery) : Type 0 where
  pub pending : is_pending d.status ≡ true
  pub there : get hook_id d.id s.0 ≡ some d
  pub free : is_claimed s.1 d ≡ false

-- What a step of the claiming loop owes: the invariant, one claim left less for each claim made, and
-- as many claims as rows at most.
pub record Step (n size : ℕ) (s s' : Claims) : Type 0 where
  pub holds : Held s'
  pub fewer : all_left n s'.1 s'.0 + length s'.1 ≤ all_left n s.1 s.0 + length s.1
  pub at_most : length s'.1 ≤ length s.1 + size

Step-trans : (n l m k : ℕ) (a b c : Claims) → l + m ≡ k → Step n l a b → Step n m b c → Step n k a c
Step-trans n l m k a b c e p q = record {
  holds = q.holds;
  fewer = omega (arith, p.fewer, q.fewer);
  at_most = omega (arith, p.at_most, q.at_most);
}

abbrev claim_of : WebhookDelivery → Claim
claim_of d = record { row_id = d.id; attempts = d.attempts + 1 }

pub same_rows :
    (cs : List Claim) (x y : WebhookDelivery)
    → x.id ≡ y.id
    → x.attempts ≡ y.attempts
    → is_abreast cs x ≡ true
    → is_abreast cs y ≡ true
unfolding is_abreast
same_rows [] x y e a h = refl
same_rows (c ∷ cs) x y e a h = ground (arith, same_rows cs x y)

pick_less :
    (n : ℕ) (cs : List Claim) (d x : WebhookDelivery)
    → left n cs (if is_claimable d.id x then kill x else x) ≤ left n cs x
pick_less n cs d x = elim (Bool-cases (is_claimable d.id x)) [
  | inl e ↦ rw e (kill_less n cs x)
  | inr e ↦ rw e (omega arith)
]

kill-Step :
    (n : ℕ) (s : Claims) (d : WebhookDelivery)
    → Held s
    → Step n 1 s (update (is_claimable d.id) kill s.0, s.1)
kill-Step n s d inv = record {
  holds = record {
    unique = update-IsUnique hook_id (is_claimable d.id) kill (λ x. refl) s.0 inv.unique;
    rows =
        update-All _ (is_claimable d.id) kill (λ x _ h. same_rows s.1 x (kill x) refl refl h) s.0
          inv.rows;
  };
  fewer = omega (
    arith,
    left_less n s.1 s.1 (is_claimable d.id) kill s.0 (All-intro _ (λ x. pick_less n s.1 d x) s.0),
  );
  at_most = omega arith;
}

bump_row_less :
    (n : ℕ) (cs : List Claim) (d x : WebhookDelivery)
    → left n (cs ++ (claim_of d ∷ [])) (if is_claimable d.id x then bump x else x) ≤ left n cs x
bump_row_less n cs d x = elim (Bool-cases (is_claimable d.id x)) [
  | inl e ↦ rw e (bump_less n cs (claim_of d) x (ground arith))
  | inr e ↦ rw e (other_less n cs (claim_of d) x)
]

same_claimed :
    (cs : List Claim) (x y : WebhookDelivery) → x.id ≡ y.id → is_claimed cs x ≡ is_claimed cs y
unfolding is_claimed
same_claimed [] x y e = refl
same_claimed (c ∷ cs) x y e = ground (arith, same_claimed cs x y e)

bumped-is_abreast :
    (cs : List Claim) (d x : WebhookDelivery)
    → is_claimed cs d ≡ false
    → x ≡ d
    → is_abreast (cs ++ (claim_of d ∷ [])) (bump x) ≡ true
bumped-is_abreast cs d x free same =
    subst (λ v. is_abreast (cs ++ (claim_of d ∷ [])) (bump v) ≡ true) (sym same)
      (ground (
        arith,
        is_abreast-append_one cs (claim_of d) (bump d),
        unclaimed-is_abreast cs (bump d) (same_claimed cs (bump d) d refl ∙ free),
      ))

-- A row that is not bumped: another id, or not pending. The claim is not behind it.
passed-is_abreast :
    (cs : List Claim) (d x : WebhookDelivery)
    → (x.id ≡ d.id → x ≡ d)
    → is_abreast cs x ≡ true
    → is_abreast (cs ++ (claim_of d ∷ [])) x ≡ true
passed-is_abreast cs d x only h = elim (Bool-cases (d.id == x.id)) [
  | inl e ↦
      let same = only (ground arith) in
      ground (
        arith,
        is_abreast-append_one cs (claim_of d) x,
        h,
        ap (λ (v : WebhookDelivery). v.attempts) same,
      )
  | inr e ↦ ground (arith, is_abreast-append_one cs (claim_of d) x, h)
]

bump-Step :
    (n : ℕ) (s : Claims) (d : WebhookDelivery)
    → Held s
    → Ready s d
    → Step n 1 s (update (is_claimable d.id) bump s.0, s.1 ++ (claim_of d ∷ []))
bump-Step n s d inv r = record {
  holds = record {
    unique = update-IsUnique hook_id (is_claimable d.id) bump (λ x. refl) s.0 inv.unique;
    rows = update-All_dep _ (is_claimable d.id) bump s.0 (
        All-mono _ _
          (λ (x : WebhookDelivery) h. (
            (λ hit. bumped-is_abreast s.1 d x r.free (h.0 (ground arith))),
            (λ _. passed-is_abreast s.1 d x h.0 h.1),
          ))
          s.0 (All-both _ _ s.0 (get-only hook_id d.id s.0 d inv.unique r.there) inv.rows));
  };
  fewer = omega (
    arith,
    length-append s.1 (claim_of d ∷ []),
    left_drop n s.1 (s.1 ++ (claim_of d ∷ [])) (is_claimable d.id) bump d.id s.0 d r.there
        (All-intro _ (λ x. bump_row_less n s.1 d x) s.0) (dropped n s d r),
  );
  at_most = omega (arith, length-append s.1 (claim_of d ∷ []));
}
  where
    dropped :
        (n : ℕ) (s : Claims) (d : WebhookDelivery)
        → Ready s d
        → left n (s.1 ++ (claim_of d ∷ [])) (if is_claimable d.id d then bump d else d) + 1
          ≤ left n s.1 d
    dropped n s d r =
        let hit : is_claimable d.id d ≡ true = ground (arith, r.pending) in
        rw hit (bump_drops n s.1 (claim_of d) d (ground arith) r.pending r.free)

claimed :
    (s : Claims) (d : WebhookDelivery)
    → Held s
    → Ready s d
    → (rowcount (is_claimable d.id) s.0 == 1) ≡ true
claimed s d inv r =
    ground (
      arith,
      rowcount-key hook_id d.id (λ x. is_pending x.status) s.0 inv.unique,
      r.there,
      r.pending,
    )

claim_row-Step :
    (n : ℕ) (merchants : List Merchant) (s : Claims) (d : WebhookDelivery)
    → Held s
    → Ready s d
    → Step n 1 s (claim_row merchants d s)
unfolding claim_row
claim_row-Step n merchants s d inv r =
    elim (Bool-cases (reachable (get (λ (m : Merchant). m.id) d.merchant_id merchants))) [
      | inl e ↦ rw (e, claimed s d inv r) (bump-Step n s d inv r)
      | inr e ↦ rw e (kill-Step n s d inv)
    ]

others-there :
    (outbox : List WebhookDelivery) (f : WebhookDelivery → WebhookDelivery)
    → ((d : WebhookDelivery) → hook_id (f d) ≡ hook_id d)
    → (x y : WebhookDelivery) → x.id ≢ y.id
    → get hook_id y.id outbox ≡ some y
    → get hook_id y.id (update (is_claimable x.id) f outbox) ≡ some y
others-there outbox f keep x y apart there =
    ground (arith, get-update hook_id (is_claimable x.id) f keep y.id outbox, there)

claim_row-Ready :
    (merchants : List Merchant) (s : Claims) (x y : WebhookDelivery)
    → x.id ≢ y.id
    → Held s
    → Ready s x
    → Ready s y
    → Ready (claim_row merchants x s) y
unfolding claim_row
claim_row-Ready merchants s x y apart inv rx r =
    elim (Bool-cases (reachable (get (λ (m : Merchant). m.id) x.merchant_id merchants))) [
      | inl e ↦
          rw (e, claimed s x inv rx)
            (record {
              pending = r.pending;
              there = others-there s.0 bump (λ d. refl) x y apart r.there;
              free = ground (arith, is_claimed-append_one s.1 (claim_of x) y, r.free, apart);
            })
      | inr e ↦ rw e (record {
        pending = r.pending;
        there = others-there s.0 kill (λ d. refl) x y apart r.there;
        free = r.free;
      })
    ]

pub claim_rows-Step :
    (n : ℕ) (merchants : List Merchant) (ds : List WebhookDelivery) (s : Claims)
    → Held s
    → IsUnique hook_id ds
    → All (Ready s) ds
    → Step n (length ds) s (claim_rows merchants ds s)
unfolding claim_rows
claim_rows-Step n merchants [] s inv u ready = record {
  holds = inv;
  fewer = omega arith;
  at_most = omega arith;
}
claim_rows-Step n merchants (d ∷ ds) s inv u ready =
    let first = claim_row-Step n merchants s d inv ready.0 in
    Step-trans n 1 (length ds) (suc (length ds)) s (claim_row merchants d s) _ (omega arith) first (
      claim_rows-Step n merchants ds (claim_row merchants d s) first.holds u.1 (
        All-mono _ _ (λ y h. claim_row-Ready merchants s d y h.0 inv ready.0 h.1) ds
          (All-both _ _ ds u.0 ready.1)))
