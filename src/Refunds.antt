-- ===== src/Refunds.antt =====
-- app/refunds.py: `_amount_due` and `apply_refund`, with `revoke_entitlement` of app/delivery.py.
pub mod Count
pub mod Laws
pub mod Keeps
pub mod Once
use tilla.Base.{
  ℕ, ◌+◌, ◌-◌, Bool, true, false, not, ◌&&◌, ◌||◌, Option, none, some, List, [], ◌∷◌, ◌++◌, ◌==◌,
  leb, is_some, if◌then◌else◌, Result, ok, err, ◌>>=◌, ◌>>◌, raise_if, or_raise, for_each,
}
use tilla.Base.Text.{Text, codes, text_eq, lower, non_empty}
use tilla.Base.Rows.{find, update, rowcount}
use tilla.Models
use tilla.Models.{
  Status, Order, Store, Refund, RefundKind, full, overage, Entitlement, WebhookEvent, Db, Env,
  EventLog, log_event, is_in, underpaid, expired, canceled, confirmed, overpaid, late_paid,
  delivered, paid, refunded, entitlement_revoked,
}
use tilla.Chain.{
  Log, Receipt, ChainConfig, Transfer, decode_transfer_log, is_transfer, topic, pad_address,
  succeeded,
}
use tilla.Payment.{chain_for}
use tilla.Webhooks.{enqueue}
use tilla.Affiliates.Accrual.{void_accrual}
use tilla.Checkout.Transition.{terminal_delivered, transition, get_order}
use tilla.Checkout.Drive.{text_or_empty}
use tilla.Checkout.Verify.{VerifyError, Node, Scan, no_scan, below_floor}

abbrev pub refundable : List Status
refundable =
    underpaid ∷ expired ∷ canceled ∷ confirmed ∷ overpaid ∷ late_paid ∷ delivered ∷ paid ∷ []

pub data RefundError : Type 0 where
  bad_kind no_buyer tx_not_found tx_failed unreadable predates_payment claimed no_refund_in_tx
        not_refundable nothing_due wrong_amount lost_race unknown_chain :
      RefundError
  node_failed : VerifyError → RefundError

abbrev pub parse_kind : Text → Option RefundKind
parse_kind kind =
    if text_eq kind (codes "full")
    then some full
    else if text_eq kind (codes "overage")
    then some overage
    else none

-- What is left of `total` after `refunded`, which may exceed it; no refund of nothing.
left_over : ℕ → ℕ → Result RefundError ℕ
left_over total refunded_micro =
    if leb total refunded_micro then err nothing_due else ok (total - refunded_micro)

unfoldable pub amount_due : Order → RefundKind → Result RefundError ℕ
unfolding left_over
amount_due o overage =
    if not (is_in o.status terminal_delivered)
    then err not_refundable
    else if o.overpaid_micro == 0
    then err nothing_due
    else left_over o.overpaid_micro o.refunded_micro
amount_due o full =
    if not (is_in o.status refundable)
    then err not_refundable
    else left_over o.paid_micro o.refunded_micro

abbrev pub find_refund : Transfer → List Refund → Option Refund
find_refund d = find (λ r. text_eq r.tx_hash d.tx_hash && (r.log_index == d.log_index))

-- From the store's wallet to the buyer.
abbrev pub pays_back : ChainConfig → Store → Order → Log → Bool
pays_back cfg store o lg =
    is_transfer cfg lg
    && (text_eq (topic 1 lg) (lower (pad_address store.pay_to))
        && text_eq (topic 2 lg) (lower (pad_address (text_or_empty o.from_addr))))

count_refund : Order → Scan → Transfer → Option Refund → Result RefundError Scan
count_refund o s d (some r) =
    if r.order_id == o.id then ok (record s { matched_any = true }) else err claimed
count_refund o s d none =
    ok (record { matched_any = true; new_logs = s.new_logs ++ (d ∷ []); total = s.total + d.value })

take_refund : Order → Db → Scan → Option Transfer → Result RefundError Scan
unfolding below_floor count_refund
take_refund o db s none = err unreadable
take_refund o db s (some d) =
    if below_floor o.block_number d.block_number
    then err predates_payment
    else count_refund o s d (find_refund d db.refunds)

-- The body of the loop over the receipt's logs.
unfoldable pub scan_refund : ChainConfig → Store → Order → Db → Log → Scan → Result RefundError Scan
unfolding take_refund
scan_refund cfg store o db lg s =
    if not (pays_back cfg store o lg) then ok s else take_refund o db s (decode_transfer_log lg)

abbrev pub refund_row : Order → RefundKind → Transfer → Refund
refund_row o kind d = record {
  order_id = o.id;
  kind = kind;
  tx_hash = d.tx_hash;
  log_index = d.log_index;
  amount_micro = d.value;
  block_number = d.block_number;
}

-- An insert into `refunds`: UNIQUE(tx_hash, log_index).
unfoldable pub insert_refund : Order → RefundKind → Transfer → Db → Result RefundError Db
insert_refund o kind d db =
    if is_some (find_refund d db.refunds)
    then err claimed
    else ok (record db { refunds = db.refunds ++ (refund_row o kind d ∷ []) })

is_active : Option ℕ → Bool
is_active none = true
is_active (some t) = false

revoke_found :
    ℕ
    → Order
    → Option Entitlement
    → List Entitlement
    → List EventLog
    → List Entitlement × List EventLog
unfolding is_active
revoke_found now o none es events = (es, events)
revoke_found now o (some e) es events =
    if is_active e.revoked_at
    then (
      update (λ x. x.id == e.id) (λ x. record x { revoked_at = some now }) es,
      log_event entitlement_revoked o events,
    )
    else (es, events)

unfoldable pub revoke_entitlement :
    ℕ → Order → List Entitlement → List EventLog → List Entitlement × List EventLog
unfolding revoke_found
revoke_entitlement now o es events =
    revoke_found now o (find (λ e. e.order_id == o.id) es) es events

-- What a full refund takes back with it.
unfoldable pub take_back : Env → Order → Db → Db
take_back env o db =
    let (entitlements, revoked) = revoke_entitlement env.now o db.entitlements db.events in
    let (accruals, voided) = void_accrual o db.accruals revoked in
    record db {
      entitlements = entitlements;
      accruals = accruals;
      events = log_event Models.Event.order_refunded o voided;
    }

abbrev pub set_refunded : ℕ → Order → Order
set_refunded amount x = record x { refunded_micro = amount }

full_refund : Env → Order → ℕ → Db → Result RefundError Db
full_refund env o total db =
    let (orders, moved) =
      transition o.id refundable refunded (set_refunded (o.refunded_micro + total)) db.orders in
    if moved then ok (take_back env o (record db { orders = orders })) else err lost_race

-- The compare-and-set of an overage refund.
abbrev pub overage_row : Order → Order → Bool
overage_row o x =
    (x.id == o.id) && (is_in x.status terminal_delivered && (x.refunded_micro == o.refunded_micro))

overage_refund : Order → ℕ → Db → Result RefundError Db
overage_refund o total db =
    let orders = update (overage_row o) (set_refunded (o.refunded_micro + total)) db.orders in
    if rowcount (overage_row o) db.orders == 1
    then ok (record db {
      orders = orders;
      events = log_event Models.Event.order_overage_refunded o db.events;
    })
    else err lost_race

unfoldable pub settle_refund : Env → Order → RefundKind → ℕ → Db → Result RefundError Db
unfolding full_refund overage_refund
settle_refund env o full total db = full_refund env o total db
settle_refund env o overage total db = overage_refund o total db

abbrev pub refund_event : RefundKind → WebhookEvent
refund_event full = Models.WebhookEvent.order_refunded
refund_event overage = Models.WebhookEvent.order_overage_refunded

-- `session.refresh(order)` and the webhook.
abbrev pub notify : Env → Store → RefundKind → Option Order → Db → Db
notify env store kind none db = db
notify env store kind (some o) db = record db {
  outbox = enqueue db.merchants env.now store.merchant_id (refund_event kind) o db.outbox;
}

-- After the loop: the micro-USDT applied, and the database.
unfoldable pub claim_refund :
    Env → Order → Store → RefundKind → Scan → List Transfer → Db → Result RefundError (ℕ × Db)
claim_refund env o store kind s [] db = if s.matched_any then ok (0, db) else err no_refund_in_tx
claim_refund env o store kind s (first ∷ others) db = do
  raise_if (not s.matched_any) no_refund_in_tx
  due ← amount_due o kind
  raise_if (not (s.total == due)) wrong_amount
  db₁ ← for_each (insert_refund o kind) (first ∷ others) db
  db₂ ← settle_refund env o kind s.total db₁
  ok (s.total, notify env store kind (get_order o.id db₂.orders) db₂)

unfoldable pub receipt_of :
    Result VerifyError (Option Receipt) → Result RefundError (Option Receipt)
receipt_of (ok r) = ok r
receipt_of (err e) = err (node_failed e)

unfoldable pub apply_refund :
    Env → Node → Order → Store → Text → Text → Db → Result RefundError (ℕ × Db)
unfolding claim_refund receipt_of
apply_refund env node o store tx_hash kind_text db = do
  kind ← or_raise (parse_kind kind_text) bad_kind
  raise_if (not (non_empty (text_or_empty o.from_addr))) no_buyer
  cfg ← or_raise (chain_for o.network) unknown_chain
  found ← receipt_of (node.receipt cfg tx_hash)
  r ← or_raise found tx_not_found
  raise_if (not (succeeded r)) tx_failed
  s ← for_each (scan_refund cfg store o db) r.logs no_scan
  claim_refund env o store kind s s.new_logs db
