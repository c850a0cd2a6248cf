-- ===== src/Checkout/Verify/Sources.antt =====
-- Where the transfers that `verify_txhash` of app/checkout.py counts come from: the receipt's logs of
-- the asset of the chain, to the address of the order.
use tilla.Base.{
  ◌≡◌, refl, sym, subst, true, ◌&&◌, Option, none, some, List, [], ◌∷◌, arith, ◌==◌, Bool-cases,
  inl, inr, ◌⊎◌, All, All-append, All-mono, ok, >>=-eq-ok, for_each, ok-injective,
}
use tilla.Base.Text.{text_eq, text_eq_sound, lower}
use tilla.Models.{is_web, Order, ProcessedTransfer, Db}
use tilla.Chain.{
  Log, Receipt, Transfer, ChainConfig, decode_transfer_log, is_transfer, topic, pad_address,
}
use tilla.Checkout.Matching.{find_transfer, is_agent_settlement}
use tilla.Checkout.Verify.{Scan, below_floor, count_log, take_log, scan_log}

abbrev pub In : Log → List Log → Type 0
In lg [] = ⊥
In lg (x ∷ xs) = (lg ≡ x) ⊎ In lg xs

-- A transfer of the receipt: what the log is and whom it pays.
pub record IsPayment (cfg : ChainConfig) (o : Order) (r : Receipt) (d : Transfer) : Type 0 where
  pub log : Log
  pub there : In log r.logs
  pub decoded : decode_transfer_log log ≡ some d
  pub is_event : is_transfer cfg log ≡ true
  pub asset : lower log.address ≡ cfg.asset
  pub recipient : topic 2 log ≡ lower (pad_address o.pay_to)

all-In : (xs : List Log) → All (λ x. In x xs) xs
all-In [] = tt
all-In (x ∷ xs) = (inl refl, All-mono _ _ (λ y h. inr h) xs (all-In xs))

asset_of : (cfg : ChainConfig) (lg : Log) → is_transfer cfg lg ≡ true → lower lg.address ≡ cfg.asset
unfolding is_transfer
asset_of cfg lg h = text_eq_sound _ _ (ground arith)

module _ (cfg : ChainConfig) (o : Order) (db : Db) (r : Receipt) where
  abbrev Paid : Scan → Type 0
  Paid s = All (IsPayment cfg o r) s.new_logs

  count_log-Paid :
      (s s' : Scan) (d : Transfer) (t : Option ProcessedTransfer)
      → IsPayment cfg o r d
      → Paid s
      → count_log o db s d t ≡ ok s'
      → Paid s'
  unfolding count_log
  count_log-Paid s s' d (some t) pays i h = elim (Bool-cases (t.order_id == o.id)) [
    | inl mine ↦ subst Paid (ok-injective _ _ (rw mine at h)) i
    | inr other ↦ absurd (cc (rw other at h))
  ]
  count_log-Paid s s' d none pays i h =
      elim (Bool-cases (is_web o.channel && is_agent_settlement d.tx_hash db.orders)) [
        | inl settled ↦ absurd (cc (rw settled at h))
        | inr fresh ↦
            subst Paid (ok-injective _ _ (rw fresh at h))
              (All-append _ s.new_logs (d ∷ []) i (pays, tt))
      ]

  take_log-Paid :
      (s s' : Scan) (read : Option Transfer)
      → ((d : Transfer) → read ≡ some d → IsPayment cfg o r d)
      → Paid s
      → take_log o db s read ≡ ok s'
      → Paid s'
  unfolding take_log
  take_log-Paid s s' none pays i h = absurd (cc h)
  take_log-Paid s s' (some d) pays i h =
      elim (Bool-cases (below_floor o.created_block d.block_number)) [
        | inl below ↦ absurd (cc (rw below at h))
        | inr floor ↦
            count_log-Paid s s' d (find_transfer d db.transfers) (pays d refl) i (rw floor at h)
      ]

  scan_log-Paid :
      (lg : Log) (s s' : Scan) → In lg r.logs → Paid s → scan_log cfg o db lg s ≡ ok s' → Paid s'
  unfolding scan_log
  scan_log-Paid lg s s' there i h = elim (Bool-cases (is_transfer cfg lg)) [
    | inr other ↦ subst Paid (ok-injective _ _ (rw other at h)) i
    | inl ours ↦ elim (Bool-cases (text_eq (topic 2 lg) (lower (pad_address o.pay_to)))) [
      | inr elsewhere ↦ subst Paid (ok-injective _ _ (rw (ours, elsewhere) at h)) i
      | inl here ↦
          take_log-Paid s s' (decode_transfer_log lg)
            (λ d e. record {
              log = lg;
              there = there;
              decoded = e;
              is_event = ours;
              asset = asset_of cfg lg ours;
              recipient = text_eq_sound _ _ here;
            })
            i (rw (ours, here) at h)
    ]
  ]

  scan_logs-Paid :
      (logs : List Log) (s s' : Scan)
      → All (λ lg. In lg r.logs) logs
      → Paid s
      → for_each (scan_log cfg o db) logs s ≡ ok s'
      → Paid s'
  unfolding for_each
  scan_logs-Paid [] s s' there i h = subst Paid (ok-injective _ _ h) i
  scan_logs-Paid (lg ∷ logs) s s' there i h =
      let (mid, first, rest) =
        >>=-eq-ok (scan_log cfg o db lg s) (for_each (scan_log cfg o db) logs) h in
      scan_logs-Paid logs mid s' there.1 (scan_log-Paid lg s mid there.0 i first) rest

  -- All that the loop over the receipt counts are payments to the order.
  pub scan-IsPayment :
      (s s' : Scan)
      → s.new_logs ≡ []
      → for_each (scan_log cfg o db) r.logs s ≡ ok s'
      → All (IsPayment cfg o r) s'.new_logs
  scan-IsPayment s s' none_yet h =
      scan_logs-Paid r.logs s s' (all-In r.logs) (subst (All (IsPayment cfg o r)) (sym none_yet) tt)
        h
