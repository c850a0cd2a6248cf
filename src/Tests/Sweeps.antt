-- ===== src/Tests/Sweeps.antt =====
-- A window of a sweep over four blocks, and the smaller laws at concrete data.
use tilla.Base.{
  ℕ, ◌+◌, ◌-◌, ◌*◌, ◌≤◌, max, ◌≡◌, refl, true, false, none, some, List, [], ◌∷◌, arith, ok, ◌==◌,
  leb, if◌then◌else◌, for_each,
}
use tilla.Base.Text.{Text, codes, lower, text_eq}
use tilla.Base.Rows.{select}
use tilla.Base.Keyed.{get}
use tilla.Models.{Db, Order, confirmed, delivered, is_in, status_eq, overpaid, late_paid}
use tilla.Chain.{Log, topic_address, pad_address, decode_transfer_log, parse_hex}
use tilla.Chain.Address.{IsAddress, topic_address-pad_address}
use tilla.Payment.{canonical_chain}
use tilla.Checkout.Transition.{transition, get_order}
use tilla.Checkout.Transition.Laws.{transition_once, transition-wins, stands}
use tilla.Checkout.Allocation.{offset_span, amount_offset_floor, amount_offset_max}
use tilla.Checkout.Allocation.Laws.{offset_span_bounds}
use tilla.Checkout.Matching.{rpc_unavailable, match_order, process_transfer, process_log}
use tilla.Checkout.Matching.Laws.{IsMatch, match_order-IsMatch, process_transfer-Keeps}
use tilla.Checkout.Deliver.{deliver}
use tilla.Checkout.Deliver.Wins.{Delivered, deliver-Delivered}
use tilla.Checkout.Drive.{apply_transfer}
use tilla.Checkout.Drive.Pays.{apply_transfer-Delivered}
use tilla.Checkout.Matching.{is_agent_settlement}
use tilla.Checkout.Matching.Replay.{process_transfer_once}
use tilla.Checkout.Allocation.{Draws, create_order, checkout_busy, amount_taken, violates}
use tilla.Checkout.Allocation.Busy.{IsRefused, create_order-busy}
use tilla.Checkout.Transition.{in_flight, ready_to_deliver}
use tilla.Base.Text.{text_eq, lower_char}
use tilla.Base.Rows.{find}
use tilla.Base.{err}
use tilla.Base.{◌↔◌}
use tilla.Affiliates.Accrual.{accrue, is_self_referral, accrued_micro}
use tilla.Affiliates.Accrual.Laws.{IsEarned, accrual_row, accrue_iff}
use tilla.Checkout.Deliver.Keeps.{deliver-Keeps}
use tilla.Checkout.Sound.{Sound, Keeps}
use tilla.Checkout.Sweep.{Tables, Rpc, sweep_windows, sweep_window, sweep_tick}
use tilla.Checkout.Sweep.Cursor.{cursor_at}
use tilla.Checkout.Sweep.Windows.{
  block_logs, getlogs_cap, IsBlockwise, Scans, reach, sweep_windows-Scans,
}
use tilla.Checkout.Sweep.Keeps.{sweep_tick-Keeps}
use tilla.Tests.World

-- Block 10 has the payment. The node refuses a window of more than 101 blocks.
abbrev block : ℕ → List Log
block n =
    if n == 10
    then World.transfer_log World.buyer_topic World.shop_topic World.payment_hash ∷ []
    else []

abbrev rpc : Rpc
rpc = record {
  node = World.payment_node;
  get_logs = λ cfg a b addresses.
      if leb (b + 1) (a + getlogs_cap)
      then ok (block_logs block a (b + 1 - a))
      else err rpc_unavailable;
  max_windows = 2;
}

abbrev tables : Tables
tables = record { db = World.order_db; cursors = record { id = 196; last_block = 8 } ∷ [] }

rpc-IsBlockwise : IsBlockwise rpc canonical_chain (World.shop_address ∷ []) block
rpc-IsBlockwise = λ a b le cap. ground arith

at_eight : cursor_at 196 tables.cursors ≡ some 8
unfolding cursor_at get
at_eight = refl

ran :
    (sweep_windows World.env rpc canonical_chain 18 12
      (World.shop_address ∷ [])
      2
      (8 + 1)
      tables).raised
    ≡ none
unfolding sweep_windows sweep_window for_each process_log decode_transfer_log parse_hex
ran = refl

false-true : false ≡ true → ⊥
false-true e = ground arith

order_db-Sound : Sound World.order_db
unfolding status_eq
order_db-Sound = record {
  orders_unique = (tt, tt);
  amounts_apart = (tt, tt);
  transfers_distinct = tt;
  covered = (record { credit_le = λ w. omega arith; enough = λ w f. absurd (false-true f) }, tt);
  earned = tt;
  delivered_once = tt;
}

sweep_windows-Scans_example :
    Scans World.env rpc canonical_chain 18 12
      (World.shop_address ∷ [])
      block
      rpc-IsBlockwise
      8
      (reach World.env rpc canonical_chain 18 12
        (World.shop_address ∷ [])
        block
        rpc-IsBlockwise
        2
        (8 + 1))
      tables
      (sweep_windows World.env rpc canonical_chain 18 12
        (World.shop_address ∷ [])
        2
        (8 + 1)
        tables).committed
sweep_windows-Scans_example =
    sweep_windows-Scans World.env rpc canonical_chain 18 12 (World.shop_address ∷ []) block
      rpc-IsBlockwise 2 8 tables (omega arith) at_eight ran

sweep_tick-Keeps_example :
    Keeps World.order_db (sweep_tick World.env rpc (λ cfg. true) tables).committed.db
sweep_tick-Keeps_example = sweep_tick-Keeps World.env rpc (λ cfg. true) tables order_db-Sound

matched :
    match_order World.env canonical_chain.caip2 World.shop_address 1000001 World.order_db.orders
    ≡ some World.order
unfolding match_order select text_eq status_eq
matched = refl

match_order-IsMatch_example :
    IsMatch World.env canonical_chain.caip2 World.shop_address 1000001 World.order
match_order-IsMatch_example =
    match_order-IsMatch World.env canonical_chain.caip2 World.shop_address 1000001
      World.order_db.orders World.order matched

process_transfer-Keeps_example :
    Keeps World.order_db
      (process_transfer World.env canonical_chain.caip2 World.payment 100 World.order_db)
process_transfer-Keeps_example =
    process_transfer-Keeps World.env canonical_chain.caip2 World.payment 100 World.order_db
      order_db-Sound

offset_span_bounds_example :
    (amount_offset_floor ≤ offset_span 1000000)
    × (offset_span 1000000 ≤ amount_offset_max)
    × (offset_span 1000000 * 100 ≤ max 5000 1000000)
offset_span_bounds_example = offset_span_bounds 1000000

abbrev paid_orders : List Order
paid_orders = record World.order { status = confirmed } ∷ []

delivered_new : is_in delivered (confirmed ∷ overpaid ∷ late_paid ∷ []) ≡ false
unfolding status_eq
delivered_new = refl

transition_once_example :
    transition 7
      (confirmed ∷ overpaid ∷ late_paid ∷ [])
      delivered
      (λ o. o)
      (transition 7 (confirmed ∷ overpaid ∷ late_paid ∷ []) delivered (λ o. o) paid_orders).0
    ≡ (
      (transition 7 (confirmed ∷ overpaid ∷ late_paid ∷ []) delivered (λ o. o) paid_orders).0,
      false,
    )
transition_once_example =
    transition_once 7 (confirmed ∷ overpaid ∷ late_paid ∷ []) delivered (λ o. o) (λ o. o)
      (λ o. refl) delivered_new paid_orders

transition-wins_example :
    (transition 7 (confirmed ∷ []) delivered (λ o. o) paid_orders).1
    ≡ stands 7 (confirmed ∷ []) delivered (λ o. o) (get_order 7 paid_orders)
transition-wins_example = transition-wins 7 (confirmed ∷ []) delivered (λ o. o) paid_orders (tt, tt)

abbrev shop_digits : Text
shop_digits = codes "1111111111111111111111111111111111111111"

shop-IsAddress : IsAddress World.shop_address shop_digits
shop-IsAddress = record { shape = refl; size = refl; hex = refl }

topic_address-pad_address_example :
    topic_address (pad_address World.shop_address) ≡ lower World.shop_address
topic_address-pad_address_example =
    topic_address-pad_address World.shop_address shop_digits shop-IsAddress

abbrev confirmed_db : Db
confirmed_db = record World.sold_db {
  orders = record World.sold_row { status = confirmed; paid_at = none } ∷ [];
  deliveries = [];
}

confirmed_db-Sound : Sound confirmed_db
confirmed_db-Sound = record {
  orders_unique = (tt, tt);
  amounts_apart = (tt, tt);
  transfers_distinct = (tt, tt);
  covered = (record { credit_le = λ w. omega arith; enough = λ w f. omega arith }, tt);
  earned = tt;
  delivered_once = tt;
}

deliver-Keeps_example : Keeps confirmed_db (deliver World.env 7 confirmed_db).1
deliver-Keeps_example = deliver-Keeps World.env 7 confirmed_db confirmed_db-Sound

confirmed_found :
    get_order 7 confirmed_db.orders
    ≡ some (record World.sold_row { status = confirmed; paid_at = none })
unfolding get
confirmed_found = refl

confirmed_ready : is_in confirmed ready_to_deliver ≡ true
unfolding status_eq
confirmed_ready = refl

deliver-Delivered_example : Delivered 7 (deliver World.env 7 confirmed_db).1
deliver-Delivered_example =
    deliver-Delivered World.env 7 confirmed_db
      (record World.sold_row { status = confirmed; paid_at = none }) (tt, tt) confirmed_found
      confirmed_ready

pending_found : get_order 7 World.order_db.orders ≡ some World.order
unfolding get
pending_found = refl

pending_waits : is_in World.order.status in_flight ≡ true
unfolding status_eq
pending_waits = refl

apply_transfer-Delivered_example :
    Delivered 7 (apply_transfer World.env World.order World.payment 100 World.order_db)
apply_transfer-Delivered_example =
    apply_transfer-Delivered World.env World.order World.payment 100 World.order_db (tt, tt)
      pending_found pending_waits (omega arith) refl

payment_unsettled : is_agent_settlement World.payment.tx_hash World.order_db.orders ≡ false
unfolding is_agent_settlement find
payment_unsettled = refl

process_transfer_once_example :
    process_transfer World.env canonical_chain.caip2 World.payment 101
      (process_transfer World.env canonical_chain.caip2 World.payment 100 World.order_db)
    ≡ process_transfer World.env canonical_chain.caip2 World.payment 100 World.order_db
process_transfer_once_example =
    process_transfer_once World.env World.env canonical_chain.caip2 World.payment 100 101
      World.order_db World.order payment_unsettled matched

-- A generator that draws one id for ever, which the table has.
abbrev stuck : Draws
stuck = record { fresh_id = λ i. 7; randint = λ i lo hi. lo + i }

busy : create_order World.env stuck World.basket (World.order ∷ []) ≡ err checkout_busy
unfolding create_order amount_taken violates get text_eq status_eq
busy = refl

create_order-busy_example : IsRefused World.env stuck World.basket (World.order ∷ []) 4
create_order-busy_example =
    create_order-busy World.env stuck World.basket (World.order ∷ []) busy 4 (omega arith)

-- A sale that another agent referred.
abbrev referred : Order
referred = record World.sold_row { referrer_addr = some (codes "0x3333") }

accrue_iff_example :
    ((accrue 250 referred World.shop [] []).0
      ≡ accrual_row 250 referred World.shop (codes "0x3333") 25000 ∷ [])
    ↔ IsEarned 250 referred World.shop [] (codes "0x3333") 25000
accrue_iff_example = accrue_iff 250 referred World.shop [] [] (codes "0x3333") 25000

-- 250 basis points of 1000001, rounded down.
referrer_earns :
    (accrue 250 referred World.shop [] []).0
    ≡ accrual_row 250 referred World.shop (codes "0x3333") 25000 ∷ []
unfolding accrue is_self_referral accrued_micro text_eq lower lower_char find
referrer_earns = refl

-- The buyer earns nothing, in whatever case the order has its address.
buyer_earns_nothing :
    (accrue 250 (record referred { from_addr = some (codes "0X3333") }) World.shop [] []).0 ≡ []
unfolding accrue is_self_referral text_eq lower lower_char
buyer_earns_nothing = refl
