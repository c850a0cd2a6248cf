-- ===== src/Checkout/Verify/Laws.antt =====
-- What `verify_txhash` of app/checkout.py credits.
use tilla.Base.{
  ℕ, ◌+◌, ◌≡◌, refl, sym, ap, ◌∙◌, subst, true, false, not, ◌&&◌, Option, none, some, List, [], ◌∷◌,
  ◌++◌, map, arith, ◌==◌, Bool-cases, Option-cases, inl, inr, All, All-append, ◌⊎◌, ok, >>=-eq-ok,
  for_each, ok-injective, raise_if-eq-ok, or_raise-eq-ok, for_each_inv,
}
use mathlib.Core.List.{append-nil, append_assoc}
use tilla.Base.Text.{Text, text_eq, lower}
use tilla.Models.{is_web, Order, ProcessedTransfer, Db, Env, is_in, delivered, paid, refunded}
use tilla.Chain.{
  Log, Transfer, ChainConfig, Receipt, decode_transfer_log, is_transfer, topic, pad_address,
  succeeded,
}
use tilla.Payment.{chain_for}
use tilla.Checkout.Drive.{record_transfer, drive_state, transfer_row}
use tilla.Checkout.Drive.Frame.{drive_state-SameLedger}
use tilla.Checkout.Matching.{find_transfer, is_agent_settlement}
use tilla.Checkout.Matching.Laws.{unrecorded-Distinct}
use tilla.Checkout.Sound.{Sound}
use tilla.Checkout.Sound.Inserts.{record_IsSound}
use tilla.Checkout.Verify.Sources.{IsPayment, scan-IsPayment}
use tilla.Checkout.Verify.{
  no_longer_active, window_closed, Scan, no_scan, Node, below_floor, count_log, take_log, scan_log,
  insert_transfer, settle_scan, verify_receipt, verify_txhash, inbound_of,
}

-- A transfer that the loop may count for the order.
pub record IsCreditable (o : Order) (db : Db) (d : Transfer) : Type 0 where
  pub unrecorded : find_transfer d db.transfers ≡ none
  pub after_floor : below_floor o.created_block d.block_number ≡ false
  pub unsettled : (is_web o.channel && is_agent_settlement d.tx_hash db.orders) ≡ false

abbrev pub value_sum : List Transfer → ℕ
value_sum [] = 0
value_sum (d ∷ ds) = d.value + value_sum ds

pub value_sum-append : (xs ys : List Transfer) → value_sum (xs ++ ys) ≡ value_sum xs + value_sum ys
value_sum-append [] ys = omega arith
value_sum-append (x ∷ xs) ys = omega (arith, value_sum-append xs ys)

-- The accumulators of the loop: the total is that of the new logs, and each is creditable.
pub record IsScan (o : Order) (db : Db) (s : Scan) : Type 0 where
  pub adds_up : s.total ≡ value_sum s.new_logs
  pub each : All (IsCreditable o db) s.new_logs

IsScan-add :
    (o : Order) (db : Db) (s : Scan) (d : Transfer)
    → IsCreditable o db d
    → IsScan o db s
    → IsScan o db (record {
      matched_any = true;
      new_logs = s.new_logs ++ (d ∷ []);
      total = s.total + d.value;
    })
IsScan-add o db s d c i = record {
  adds_up = omega (arith, i.adds_up, value_sum-append s.new_logs (d ∷ []));
  each = All-append _ s.new_logs (d ∷ []) i.each (c, tt);
}

count_log-IsScan :
    (o : Order) (db : Db) (s s' : Scan) (d : Transfer) (t : Option ProcessedTransfer)
    → find_transfer d db.transfers ≡ t
    → below_floor o.created_block d.block_number ≡ false
    → IsScan o db s
    → count_log o db s d t ≡ ok s'
    → IsScan o db s'
unfolding count_log
count_log-IsScan o db s s' d (some t) found floor i h = elim (Bool-cases (t.order_id == o.id)) [
  | inl mine ↦
      subst (IsScan o db) (ok-injective _ _ (rw mine at h))
        (record { adds_up = i.adds_up; each = i.each })
  | inr other ↦ absurd (ground arith)
]
count_log-IsScan o db s s' d none found floor i h =
    elim (Bool-cases (is_web o.channel && is_agent_settlement d.tx_hash db.orders)) [
      | inl settled ↦ absurd (ground arith)
      | inr unsettled ↦ subst (IsScan o db) (ok-injective _ _ (rw unsettled at h)) (
          IsScan-add o db s d
            (record { unrecorded = found; after_floor = floor; unsettled = unsettled }) i)
    ]

take_log-IsScan :
    (o : Order) (db : Db) (s s' : Scan) (d : Option Transfer)
    → IsScan o db s
    → take_log o db s d ≡ ok s'
    → IsScan o db s'
unfolding take_log
take_log-IsScan o db s s' none i h = absurd (ground arith)
take_log-IsScan o db s s' (some d) i h =
    elim (Bool-cases (below_floor o.created_block d.block_number)) [
      | inl below ↦ absurd (ground arith)
      | inr floor ↦
          count_log-IsScan o db s s' d (find_transfer d db.transfers) refl floor i (rw floor at h)
    ]

pub scan_log-IsScan :
    (cfg : ChainConfig) (o : Order) (db : Db) (lg : Log) (s s' : Scan)
    → IsScan o db s
    → scan_log cfg o db lg s ≡ ok s'
    → IsScan o db s'
unfolding scan_log
scan_log-IsScan cfg o db lg s s' i h = elim (Bool-cases (is_transfer cfg lg)) [
  | inr other ↦ subst (IsScan o db) (ground arith) i
  | inl ours ↦ elim (Bool-cases (text_eq (topic 2 lg) (lower (pad_address o.pay_to)))) [
    | inr elsewhere ↦ subst (IsScan o db) (ground arith) i
    | inl here ↦ take_log-IsScan o db s s' (decode_transfer_log lg) i (rw (ours, here) at h)
  ]
]

-- What the loop of inserts did: the rows stand at the end of the table, and nothing else moved.
pub record Inserted (o : Order) (ds : List Transfer) (db db' : Db) : Type 0 where
  pub same_orders : db'.orders ≡ db.orders
  pub same_deliveries : db'.deliveries ≡ db.deliveries
  pub appended : db'.transfers ≡ db.transfers ++ map (transfer_row o) ds
  pub kept : Sound db → Sound db'

pub inserts-Inserted :
    (o : Order) (ds : List Transfer) (db db' : Db)
    → for_each (insert_transfer o) ds db ≡ ok db'
    → Inserted o ds db db'
unfolding for_each insert_transfer record_transfer
inserts-Inserted o [] db db' h =
    let same : db ≡ db' = ok-injective db db' h in
    subst (Inserted o [] db) same (record {
      same_orders = refl;
      same_deliveries = refl;
      appended = sym (append-nil db.transfers);
      kept = λ s. s;
    })
inserts-Inserted o (d ∷ ds) db db' h = elim (Option-cases (find_transfer d db.transfers)) [
  | inr (t, old) ↦ absurd (cc (rw old at h))
  | inl new ↦
      let next = record_transfer o d db in
      let i = inserts-Inserted o ds next db' (rw new at h) in
      record {
        same_orders = i.same_orders;
        same_deliveries = i.same_deliveries;
        appended =
            i.appended
            ∙ append_assoc db.transfers (transfer_row o d ∷ []) (map (transfer_row o) ds);
        kept = λ s. i.kept (
            record_IsSound db.orders db.transfers db.deliveries (transfer_row o d)
              (unrecorded-Distinct d o db.transfers new) s);
      }
]

-- A credit: transfers of the receipt that the node answers for the hash, on the order's chain.
pub record Credits (node : Node) (tx_hash : Text) (o : Order) (db db' : Db) : Type 0 where
  pub cfg : ChainConfig
  pub on_chain : chain_for o.network ≡ some cfg
  pub receipt : Receipt
  pub answered : node.receipt cfg tx_hash ≡ ok (some receipt)
  pub success : succeeded receipt ≡ true
  pub new : List Transfer
  pub paid : All (IsPayment cfg o receipt) new
  pub each : All (IsCreditable o db) new
  pub exact : value_sum new ≡ o.expected_micro
  pub recorded : db'.transfers ≡ db.transfers ++ map (transfer_row o) new

module _ (env : Env) (node : Node) (o : Order) (tx_hash : Text) (db db' : Db) where
  -- What the loop over a receipt counted.
  record Counts (cfg : ChainConfig) (r : Receipt) (s : Scan) : Type 0 where
    on_chain : chain_for o.network ≡ some cfg
    answered : node.receipt cfg tx_hash ≡ ok (some r)
    success : succeeded r ≡ true
    counted : IsScan o db s
    paid : All (IsPayment cfg o r) s.new_logs

  settle_scan-Credits :
      (cfg : ChainConfig) (r : Receipt) (s : Scan) (ds : List Transfer)
      → s.new_logs ≡ ds
      → Counts cfg r s
      → settle_scan env node cfg o tx_hash s ds db ≡ ok db'
      → (db' ≡ db) ⊎ Credits node tx_hash o db db'
  unfolding settle_scan
  settle_scan-Credits cfg r s [] e i h = elim (Bool-cases s.matched_any) [
    | inl counted ↦ inl (sym (ok-injective _ _ (rw counted at h)))
    | inr unmatched ↦ absurd (cc (rw unmatched at h))
  ]
  settle_scan-Credits cfg r s (first ∷ others) e i h =
      let (_, h₁) = raise_if-eq-ok (not s.matched_any) _ _ h in
      let (due, h₂) = raise_if-eq-ok (not (s.total == o.expected_micro)) _ _ h₁ in
      let (head, _, h₃) = >>=-eq-ok (node.head cfg) _ h₂ in
      let (mid, recorded, h₄) = >>=-eq-ok (for_each (insert_transfer o) (first ∷ others) db) _ h₃ in
      let done : drive_state env o (inbound_of first s.total tx_hash head) mid ≡ db' =
        ok-injective _ _ h₄ in
      inr (record {
        cfg = cfg;
        on_chain = i.on_chain;
        receipt = r;
        answered = i.answered;
        success = i.success;
        new = first ∷ others;
        paid = subst (All (IsPayment cfg o r)) e i.paid;
        each = subst (All (IsCreditable o db)) e i.counted.each;
        exact = ap value_sum (sym e) ∙ sym i.counted.adds_up ∙ ground arith;
        recorded =
            ap (λ (x : Db). x.transfers) (sym done)
            ∙ (drive_state-SameLedger env o (inbound_of first s.total tx_hash head) mid).transfers
            ∙ (inserts-Inserted o (first ∷ others) db mid recorded).appended;
      })

  receipt-Credits :
      (cfg : ChainConfig) (r : Receipt)
      → chain_for o.network ≡ some cfg
      → node.receipt cfg tx_hash ≡ ok (some r)
      → verify_receipt env node cfg o tx_hash r db ≡ ok db'
      → (db' ≡ db) ⊎ Credits node tx_hash o db db'
  unfolding verify_receipt
  receipt-Credits cfg r on_chain answered h =
      let (fine, h₁) = raise_if-eq-ok (not (succeeded r)) _ _ h in
      let (s, scanned, h₂) = >>=-eq-ok (for_each (scan_log cfg o db) r.logs no_scan) _ h₁ in
      settle_scan-Credits cfg r s s.new_logs refl
        (record {
          on_chain = on_chain;
          answered = answered;
          success = ground arith;
          counted =
              for_each_inv (IsScan o db) (scan_log cfg o db) (scan_log-IsScan cfg o db) r.logs
                no_scan s (record { adds_up = refl; each = tt }) scanned;
          paid = scan-IsPayment cfg o db r no_scan s refl scanned;
        })
        h₂

  -- An accepted hash changes nothing, or the node answers a receipt of success for it on the
  -- order's chain, and new transfers of the receipt are put on record, each an event of the chain's
  -- asset to the address of the order. Their sum is exactly the whole amount that the order asks
  -- for, also where a part of it was credited before. None of them was on record before, none was
  -- mined below the order's floor and, for a web order, none settled an agent order.
  pub verify_txhash-Credits :
      verify_txhash env node o tx_hash db ≡ ok db' → (db' ≡ db) ⊎ Credits node tx_hash o db db'
  unfolding verify_txhash
  verify_txhash-Credits h = elim (Bool-cases (is_in o.status (delivered ∷ paid ∷ refunded ∷ []))) [
    | inl over ↦ inl (sym (ok-injective _ _ (rw over at h)))
    | inr open_ ↦
        let (_, h₁) = raise_if-eq-ok _ no_longer_active _ (rw open_ at h) in
        let (_, h₂) = raise_if-eq-ok _ window_closed _ h₁ in
        let (cfg, on_chain, h₃) = or_raise-eq-ok (chain_for o.network) _ _ h₂ in
        let (found, answered, h₄) = >>=-eq-ok (node.receipt cfg tx_hash) _ h₃ in
        let (r, present, h₅) = or_raise-eq-ok found _ _ h₄ in
        receipt-Credits cfg r on_chain (answered ∙ ap ok present) h₅
  ]
