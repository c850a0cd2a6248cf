-- ===== src/Checkout/Verify.antt =====
-- `verify_txhash` of app/checkout.py: a hash that a buyer submitted.
pub mod Sources
pub mod Laws
pub mod Keeps
use tilla.Base.{
  ℕ, ◌+◌, Bool, true, false, not, ◌&&◌, Option, none, some, List, [], ◌∷◌, ◌++◌, ◌==◌, ltb, is_some,
  if◌then◌else◌, Result, ok, err, ◌>>=◌, ◌>>◌, raise_if, or_raise, for_each,
}
use tilla.Base.Text.{Text, text_eq, lower}
use tilla.Models.{
  is_web, Order, ProcessedTransfer, Db, Env, Channel, web, agent, is_in, expired, refunded,
  canceled, reorged, delivered, paid,
}
use tilla.Chain.{
  Log, Receipt, ChainConfig, Transfer, decode_transfer_log, is_transfer, topic, pad_address,
  succeeded,
}
use tilla.Payment.{chain_for}
use tilla.Checkout.Drive.{Inbound, record_transfer, drive_state}
use tilla.Checkout.Matching.{is_quarantined, find_transfer, is_agent_settlement}

pub data VerifyError : Type 0 where
  no_longer_active window_closed unknown_network rpc_failed not_found not_succeeded malformed
        predates already_used no_transfer amount_mismatch integrity :
      VerifyError

-- What the node answers in one call: the receipt of a hash and the head, or a failure.
pub record Node : Type 0 where
  pub receipt : ChainConfig → Text → Result VerifyError (Option Receipt)
  pub head : ChainConfig → Result VerifyError ℕ

pub record Scan : Type 0 where
  pub matched_any : Bool
  pub new_logs : List Transfer
  pub total : ℕ

abbrev pub no_scan : Scan
no_scan = record { matched_any = false; new_logs = []; total = 0 }

unfoldable pub below_floor : Option ℕ → ℕ → Bool
below_floor none b = false
below_floor (some floor) b = ltb b floor

-- A decoded log that pays the address: refused, counted before, or new.
count_log : Order → Db → Scan → Transfer → Option ProcessedTransfer → Result VerifyError Scan
count_log o db s d (some t) =
    if t.order_id == o.id then ok (record s { matched_any = true }) else err already_used
count_log o db s d none =
    if is_web o.channel && is_agent_settlement d.tx_hash db.orders
    then err already_used
    else ok (record {
      matched_any = true;
      new_logs = s.new_logs ++ (d ∷ []);
      total = s.total + d.value;
    })

take_log : Order → Db → Scan → Option Transfer → Result VerifyError Scan
unfolding below_floor count_log is_web
take_log o db s none = err malformed
take_log o db s (some d) =
    if below_floor o.created_block d.block_number
    then err predates
    else count_log o db s d (find_transfer d db.transfers)

-- The body of the loop over the receipt's logs.
unfoldable pub scan_log : ChainConfig → Order → Db → Log → Scan → Result VerifyError Scan
unfolding take_log
scan_log cfg o db lg s =
    if not (is_transfer cfg lg)
    then ok s
    else if not (text_eq (topic 2 lg) (lower (pad_address o.pay_to)))
    then ok s
    else take_log o db s (decode_transfer_log lg)

-- An insert into `processed_transfers`: UNIQUE(tx_hash, log_index).
unfoldable pub insert_transfer : Order → Transfer → Db → Result VerifyError Db
insert_transfer o d db =
    if is_some (find_transfer d db.transfers) then err integrity else ok (record_transfer o d db)

abbrev pub inbound_of : Transfer → ℕ → Text → ℕ → Inbound
inbound_of first total tx_hash head = record {
  added = total;
  block_number = first.block_number;
  from_addr = first.from;
  tx_hash = tx_hash;
  head = head;
}

-- After the loop.
settle_scan :
    Env → Node → ChainConfig → Order → Text → Scan → List Transfer → Db → Result VerifyError Db
unfolding insert_transfer
settle_scan env node cfg o tx_hash s [] db = if s.matched_any then ok db else err no_transfer
settle_scan env node cfg o tx_hash s (first ∷ others) db = do
  raise_if (not s.matched_any) no_transfer
  raise_if (not (s.total == o.expected_micro)) amount_mismatch
  head ← node.head cfg
  db' ← for_each (insert_transfer o) (first ∷ others) db
  ok (drive_state env o (inbound_of first s.total tx_hash head) db')

unfoldable pub verify_receipt :
    Env → Node → ChainConfig → Order → Text → Receipt → Db → Result VerifyError Db
unfolding scan_log settle_scan
verify_receipt env node cfg o tx_hash r db = do
  raise_if (not (succeeded r)) not_succeeded
  s ← for_each (scan_log cfg o db) r.logs no_scan
  settle_scan env node cfg o tx_hash s s.new_logs db

unfoldable pub verify_txhash : Env → Node → Order → Text → Db → Result VerifyError Db
unfolding verify_receipt
verify_txhash env node o tx_hash db =
    if is_in o.status (delivered ∷ paid ∷ refunded ∷ []) then ok db else do
      raise_if (is_in o.status (canceled ∷ reorged ∷ [])) no_longer_active
      raise_if (is_in o.status (expired ∷ []) && not (is_quarantined env o)) window_closed
      cfg ← or_raise (chain_for o.network) unknown_network
      found ← node.receipt cfg tx_hash
      r ← or_raise found not_found
      verify_receipt env node cfg o tx_hash r db
