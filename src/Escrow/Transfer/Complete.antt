-- ===== src/Escrow/Transfer/Complete.antt =====
-- `_verify_transfer` of app/escrow.py accepts every transaction that fits its description.
use tilla.Base.{
  ℕ, ◌+◌, ◌≡◌, refl, sym, ap, ◌∙◌, subst, ◌↔◌, Bool, false, ◌||◌, Option, none, some, List, [], ◌∷◌,
  map, arith, Bool-cases, inl, inr, All, ok, for_each,
}
use tilla.Base.Text.{Text}
use tilla.Base.Rows.{select}
use tilla.Chain
use tilla.Chain.{Log, Receipt, ChainConfig, decode_transfer_log, succeeded}
use tilla.Checkout.Verify.{Node, below_floor}
use tilla.Checkout.Verify.Laws.{value_sum}
use tilla.Escrow.Transfer.{
  Tally, no_tally, moves, tally_decoded, tally_log, settle_tally, is_amount, receipt_or_raise,
  verify_transfer,
}
use tilla.Escrow.Transfer.Sums.{Moved, verify_transfer-Moved, last_block, non_none}

-- The tally after some more transfers.
abbrev tallied : Tally → List Chain.Transfer → Tally
unfolding last_block non_none
tallied t parts = record {
  matched_any = t.matched_any || non_none parts;
  total = t.total + value_sum parts;
  block = last_block t.block parts;
}

tail_of :
    {A : Type 0} (a b : A) (us vs : List A)
    → ◌≡◌ {A = List A} (a ∷ us) (b ∷ vs)
    → (a ≡ b) × (us ≡ vs)
tail_of a b us vs h = (cc, cc)

same_tally :
    (m m' : Bool) (n n' : ℕ) (b b' : Option ℕ)
    → m ≡ m'
    → n ≡ n'
    → b ≡ b'
    → ◌≡◌ {A = Tally}
        (record { matched_any = m; total = n; block = b })
        (record { matched_any = m'; total = n'; block = b' })
same_tally m m' n n' b b' p q r = cc (p, q, r)

tally_nil : (t : Tally) → tallied t [] ≡ t
unfolding last_block non_none
tally_nil t = same_tally _ _ _ _ _ _ (ground arith) (omega arith) refl

tally_cons :
    (t : Tally) (d : Chain.Transfer) (ds : List Chain.Transfer)
    → tallied (tallied t (d ∷ [])) ds ≡ tallied t (d ∷ ds)
unfolding last_block non_none
tally_cons t d ds = same_tally _ _ _ _ _ _ (ground arith) (omega arith) refl

module _ (cfg : ChainConfig) (want_from want_to : Text) (min_block : Option ℕ) where
  decoded_complete :
      (t : Tally) (d : Chain.Transfer) (read : Option Chain.Transfer)
      → read ≡ some d
      → below_floor min_block d.block_number ≡ false
      → tally_decoded min_block t read ≡ ok (tallied t (d ∷ []))
  unfolding tally_decoded last_block non_none
  decoded_complete t d none e floor = absurd (cc)
  decoded_complete t d (some d') e floor =
      let same : d' ≡ d = cc e in
      subst (λ x. tally_decoded min_block t (some x) ≡ ok (tallied t (d ∷ []))) (sym same)
        (rw floor (ap ok (same_tally _ _ _ _ _ _ (ground arith) (omega arith) refl)))

  logs_complete :
      (logs : List Log) (t : Tally) (parts : List Chain.Transfer)
      → map decode_transfer_log (select (moves cfg want_from want_to) logs) ≡ map some parts
      → All (λ d. below_floor min_block d.block_number ≡ false) parts
      → for_each (tally_log cfg want_from want_to min_block) logs t ≡ ok (tallied t parts)
  unfolding for_each tally_log select last_block non_none
  logs_complete [] t [] e floor = ap ok (sym (tally_nil t))
  logs_complete [] t (d ∷ ds) e floor = absurd (cc)
  logs_complete (lg ∷ logs) t [] e floor = elim (Bool-cases (moves cfg want_from want_to lg)) [
    | inr other ↦ rw other (logs_complete logs t [] (rw other at e) floor)
    | inl moving ↦ absurd (cc (rw moving at e))
  ]
  logs_complete (lg ∷ logs) t (d ∷ ds) e floor =
      elim (Bool-cases (moves cfg want_from want_to lg)) [
        | inr other ↦ rw other (logs_complete logs t (d ∷ ds) (rw other at e) floor)
        | inl moving ↦
            let (first, others) = tail_of (decode_transfer_log lg) (some d) _ _ (rw moving at e) in
            rw (moving, decoded_complete t d (decode_transfer_log lg) first floor.0)
              (logs_complete logs (tallied t (d ∷ [])) ds others floor.1
                ∙ ap ok (tally_cons t d ds))
      ]

-- `_verify_transfer` answers a block exactly where the transaction fits the description: it
-- succeeded, its transfers of the asset between the two wallets are readable and not below the
-- floor, there is one or more, they add up to exactly the amount, and the last stands in the block.
pub verify_transfer_iff :
    (node : Node) (cfg : ChainConfig) (tx_hash : Text) (want_from want_to : Option Text)
    (amount min_block block : Option ℕ)
    → (verify_transfer node cfg tx_hash want_from want_to amount min_block ≡ ok block)
      ↔ Moved node cfg tx_hash want_from want_to amount min_block block
unfolding verify_transfer settle_tally receipt_or_raise is_amount tallied
verify_transfer_iff node cfg tx_hash want_from want_to amount min_block block = (
  verify_transfer-Moved node cfg tx_hash want_from want_to amount min_block block,
  λ m.
      rw
        (
          m.answered,
          m.success,
          m.sender,
          m.recipient,
          logs_complete cfg m.from m.to min_block m.receipt.logs no_tally m.parts m.decoded m.floor,
          m.any_part,
          m.exact,
        )
        (ground (arith, m.last)),
)
