-- ===== src/Escrow/Transfer/Sums.antt =====
-- What an accepted `_verify_transfer` of app/escrow.py says of the receipt.
use tilla.Base.{
  ℕ, ◌+◌, is_some, ◌≡◌, refl, sym, ap, subst, Bool, true, false, not, ◌||◌, Option, none, some,
  List, [], ◌∷◌, map, arith, Bool-cases, inl, inr, All, ◌∙◌, ok, err, ok-injective, for_each,
  Result, >>=-eq-ok, raise_if-eq-ok, or_raise-eq-ok,
}
use tilla.Base.Text.{Text}
use tilla.Base.Rows.{select}
use tilla.Chain
use tilla.Chain.{Log, Receipt, ChainConfig, decode_transfer_log, succeeded}
use tilla.Checkout.Verify.{Node, below_floor, VerifyError}
use tilla.Checkout.Verify.Laws.{value_sum}
use tilla.Escrow.Transfer.{
  Tally, no_tally, moves, tally_decoded, tally_log, is_amount, settle_tally, receipt_or_raise,
  verify_transfer,
}

-- The block of the last transfer.
unfoldable pub last_block : Option ℕ → List Chain.Transfer → Option ℕ
last_block b [] = b
last_block b (d ∷ ds) = last_block (some d.block_number) ds

unfoldable pub non_none : List Chain.Transfer → Bool
non_none [] = false
non_none (d ∷ ds) = true

module _ (cfg : ChainConfig) (want_from want_to : Text) (min_block : Option ℕ) where
  -- The decoded logs between the two wallets, from a tally to a tally.
  record Counted (logs : List Log) (t t' : Tally) : Type 0 where
    parts : List Chain.Transfer
    decoded : map decode_transfer_log (select (moves cfg want_from want_to) logs) ≡ map some parts
    adds_up : t'.total ≡ t.total + value_sum parts
    floor : All (λ d. below_floor min_block d.block_number ≡ false) parts
    matched : t'.matched_any ≡ (t.matched_any || non_none parts)
    ends : t'.block ≡ last_block t.block parts

  decoded-Counted :
      (lg : Log) (logs : List Log) (t mid t' : Tally) (d : Option Chain.Transfer)
      → moves cfg want_from want_to lg ≡ true
      → decode_transfer_log lg ≡ d
      → tally_decoded min_block t d ≡ ok mid
      → Counted logs mid t'
      → Counted (lg ∷ logs) t t'
  unfolding tally_decoded select non_none last_block
  decoded-Counted lg logs t mid t' none moving read h c = absurd (ground arith)
  decoded-Counted lg logs t mid t' (some d) moving read h c =
      elim (Bool-cases (below_floor min_block d.block_number)) [
        | inl below ↦ absurd (ground arith)
        | inr above ↦
            let e = subst (λ m. Counted logs m t') (sym (ok-injective _ _ (rw above at h))) c in
            record {
              parts = d ∷ e.parts;
              decoded = rw moving (cc (read, e.decoded));
              adds_up = omega (arith, e.adds_up);
              floor = (above, e.floor);
              matched = ground (arith, e.matched);
              ends = e.ends;
            }
      ]

  logs-Counted :
      (logs : List Log) (t t' : Tally)
      → for_each (tally_log cfg want_from want_to min_block) logs t ≡ ok t'
      → Counted logs t t'
  unfolding for_each tally_log select non_none last_block
  logs-Counted [] t t' h = subst (Counted [] t) (ok-injective _ _ h) (record {
    parts = [];
    decoded = refl;
    adds_up = omega arith;
    floor = tt;
    matched = ground arith;
    ends = refl;
  })
  logs-Counted (lg ∷ logs) t t' h = elim (Bool-cases (moves cfg want_from want_to lg)) [
    | inl moving ↦
        let (mid, first, rest) =
          >>=-eq-ok (tally_decoded min_block t (decode_transfer_log lg)) _ (rw moving at h) in
        decoded-Counted lg logs t mid t' (decode_transfer_log lg) moving refl first
          (logs-Counted logs mid t' rest)
    | inr other ↦
        let c = logs-Counted logs t t' (rw other at h) in
        record {
          parts = c.parts;
          decoded = rw other c.decoded;
          adds_up = c.adds_up;
          floor = c.floor;
          matched = c.matched;
          ends = c.ends;
        }
  ]

-- A verified transaction: the node has its receipt, which succeeded; it has Transfer logs of the
-- asset between the two wallets, at least one, all of them readable and none below the floor; they
-- add up to exactly the amount; and the block is that of the last one.
pub record Moved (node : Node) (cfg : ChainConfig) (tx_hash : Text)
    (want_from want_to : Option Text) (amount min_block block : Option ℕ) : Type 0 where
  pub receipt : Receipt
  pub answered : node.receipt cfg tx_hash ≡ ok (some receipt)
  pub success : succeeded receipt ≡ true
  pub from : Text
  pub sender : want_from ≡ some from
  pub to : Text
  pub recipient : want_to ≡ some to
  pub parts : List Chain.Transfer
  pub decoded : map decode_transfer_log (select (moves cfg from to) receipt.logs) ≡ map some parts
  pub any_part : non_none parts ≡ true
  pub floor : All (λ d. below_floor min_block d.block_number ≡ false) parts
  pub exact : amount ≡ some (value_sum parts)
  pub last : block ≡ last_block none parts

is_amount_sound :
    (total : ℕ) (amount : Option ℕ) → is_amount total amount ≡ true → amount ≡ some total
unfolding is_amount
is_amount_sound total none h = absurd (ground arith)
is_amount_sound total (some amount) h = ap some (ground arith)

receipt_sound :
    (answer : Result VerifyError (Option Receipt)) (r : Receipt)
    → receipt_or_raise answer ≡ ok r
    → answer ≡ ok (some r)
unfolding receipt_or_raise
receipt_sound (err e) r h = absurd (cc)
receipt_sound (ok none) r h = absurd (cc)
receipt_sound (ok (some found)) r h = cc (ok-injective _ _ h)

not-false : (b : Bool) → not b ≡ false → b ≡ true
not-false b h = ground arith

settled :
    (t : Tally) (amount block : Option ℕ)
    → settle_tally amount t ≡ ok block
    → (t.matched_any ≡ true) × (amount ≡ some t.total) × (block ≡ t.block)
unfolding settle_tally
settled t amount block h = elim (Bool-cases t.matched_any) [
  | inr unmatched ↦ absurd (cc (rw unmatched at h))
  | inl matched ↦ elim (Bool-cases (is_amount t.total amount)) [
    | inr off ↦ absurd (cc (rw (matched, off) at h))
    | inl exact ↦ (
      matched,
      is_amount_sound t.total amount exact,
      sym (ok-injective _ _ (rw (matched, exact) at h)),
    )
  ]
]

tally-Moved :
    (node : Node) (cfg : ChainConfig) (tx_hash from to : Text) (amount min_block block : Option ℕ)
    (r : Receipt) (t : Tally)
    → node.receipt cfg tx_hash ≡ ok (some r)
    → succeeded r ≡ true
    → Counted cfg from to min_block r.logs no_tally t
    → settle_tally amount t ≡ ok block
    → Moved node cfg tx_hash (some from) (some to) amount min_block block
tally-Moved node cfg tx_hash from to amount min_block block r t found success c h =
    let (matched, exact, last) = settled t amount block h in
    record {
      receipt = r;
      answered = found;
      success = success;
      from = from;
      sender = refl;
      to = to;
      recipient = refl;
      parts = c.parts;
      decoded = c.decoded;
      any_part = ground (arith, c.matched);
      floor = c.floor;
      exact = exact ∙ ap some (omega (arith, c.adds_up));
      last = last ∙ c.ends;
    }

-- An accepted check describes the receipt: success, the transfers between the wallets, and their
-- exact sum.
pub verify_transfer-Moved :
    (node : Node) (cfg : ChainConfig) (tx_hash : Text) (want_from want_to : Option Text)
    (amount min_block block : Option ℕ)
    → verify_transfer node cfg tx_hash want_from want_to amount min_block ≡ ok block
    → Moved node cfg tx_hash want_from want_to amount min_block block
unfolding verify_transfer
verify_transfer-Moved node cfg tx_hash want_from want_to amount min_block block h =
    let (r, found, h₁) = >>=-eq-ok (receipt_or_raise (node.receipt cfg tx_hash)) _ h in
    let (success, h₂) = raise_if-eq-ok (not (succeeded r)) _ _ h₁ in
    let (from, sender, h₃) = or_raise-eq-ok want_from _ _ h₂ in
    let (to, recipient, h₄) = or_raise-eq-ok want_to _ _ h₃ in
    let (t, tallied, h₅) =
      >>=-eq-ok (for_each (tally_log cfg from to min_block) r.logs no_tally) _ h₄ in
    subst (λ a. Moved node cfg tx_hash a want_to amount min_block block) (sym sender)
      (subst (λ b. Moved node cfg tx_hash (some from) b amount min_block block) (sym recipient)
        (tally-Moved node cfg tx_hash from to amount min_block block r t
          (receipt_sound (node.receipt cfg tx_hash) r found) (not-false (succeeded r) success)
          (logs-Counted cfg from to min_block r.logs no_tally t tallied) h₅))

last_block_some :
    (b : Option ℕ) (parts : List Chain.Transfer)
    → (is_some b || non_none parts) ≡ true
    → is_some (last_block b parts) ≡ true
unfolding last_block non_none
last_block_some b [] h = ground arith
last_block_some b (d ∷ ds) h = last_block_some (some d.block_number) ds refl

-- A verified transaction has a block.
pub Moved-block :
    (node : Node) (cfg : ChainConfig) (tx_hash : Text) (want_from want_to : Option Text)
    (amount min_block block : Option ℕ)
    → Moved node cfg tx_hash want_from want_to amount min_block block
    → is_some block ≡ true
Moved-block node cfg tx_hash want_from want_to amount min_block block m =
    ap is_some m.last ∙ last_block_some none m.parts m.any_part
