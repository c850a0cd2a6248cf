-- ===== src/Escrow/Transfer.antt =====
-- `_verify_transfer` of app/escrow.py: does a transaction move exactly an amount from one wallet to
-- another.
pub mod Sums
pub mod Complete
use tilla.Base.{
  ℕ, ◌+◌, Bool, true, false, not, ◌&&◌, Option, none, some, ◌==◌, if◌then◌else◌, Result, ok, err,
  ◌>>=◌, ◌>>◌, raise_if, or_raise, for_each,
}
use tilla.Base.Text.{Text, text_eq, lower}
use tilla.Chain
use tilla.Chain.{
  Log, Receipt, ChainConfig, decode_transfer_log, is_transfer, topic, pad_address, succeeded,
}
use tilla.Checkout.Verify.{Node, VerifyError, below_floor}
use tilla.Escrow.{
  EscrowError, tx_not_found, tx_failed, predates_deposit, no_transfer, wrong_amount, chain_down,
  no_address, unreadable,
}

-- The three variables of the loop.
pub record Tally : Type 0 where
  pub matched_any : Bool
  pub total : ℕ
  pub block : Option ℕ

abbrev pub no_tally : Tally
no_tally = record { matched_any = false; total = 0; block = none }

-- The asset's Transfer log between the two wallets.
abbrev pub moves : ChainConfig → Text → Text → Log → Bool
moves cfg want_from want_to lg =
    is_transfer cfg lg
    && (text_eq (topic 1 lg) (lower (pad_address want_from))
        && text_eq (topic 2 lg) (lower (pad_address want_to)))

tally_decoded : Option ℕ → Tally → Option Chain.Transfer → Result EscrowError Tally
unfolding below_floor
tally_decoded min_block t none = err unreadable
tally_decoded min_block t (some d) =
    if below_floor min_block d.block_number
    then err predates_deposit
    else ok (record { matched_any = true; total = t.total + d.value; block = some d.block_number })

-- The body of the loop over the receipt's logs.
unfoldable pub tally_log :
    ChainConfig → Text → Text → Option ℕ → Log → Tally → Result EscrowError Tally
unfolding tally_decoded
tally_log cfg want_from want_to min_block lg t =
    if not (moves cfg want_from want_to lg)
    then ok t
    else tally_decoded min_block t (decode_transfer_log lg)

-- `total != amount`, where a job without a budget has `None`.
is_amount : ℕ → Option ℕ → Bool
is_amount total none = false
is_amount total (some amount) = total == amount

settle_tally : Option ℕ → Tally → Result EscrowError (Option ℕ)
unfolding is_amount
settle_tally amount t =
    if not t.matched_any
    then err no_transfer
    else if not (is_amount t.total amount)
    then err wrong_amount
    else ok t.block

-- The answer of the node; a failure of the call is the 502 of the callers.
receipt_or_raise : Result VerifyError (Option Receipt) → Result EscrowError Receipt
receipt_or_raise (err e) = err chain_down
receipt_or_raise (ok r) = or_raise r tx_not_found

unfoldable pub verify_transfer :
    Node
    → ChainConfig
    → Text
    → Option Text
    → Option Text
    → Option ℕ
    → Option ℕ
    → Result EscrowError (Option ℕ)
unfolding receipt_or_raise settle_tally
verify_transfer node cfg tx_hash want_from want_to amount min_block =
    receipt_or_raise (node.receipt cfg tx_hash) >>= λ r.
    raise_if (not (succeeded r)) tx_failed >> or_raise want_from no_address >>= λ from.
    or_raise want_to no_address >>= λ to.
    for_each (tally_log cfg from to min_block) r.logs no_tally >>= settle_tally amount
