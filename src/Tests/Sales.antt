-- ===== src/Tests/Sales.antt =====
-- A sale from the first order to its refund, and the theorems on histories at it.
use tilla.Base.{◌≡◌, refl, some, [], ◌∷◌, arith, ok, All, ◌⊎◌, for_each}
use tilla.Base.Text.{codes, text_eq, lower, lower_char}
use tilla.Base.Rows.{find, select, update, rowcount}
use tilla.Base.Keyed.{get}
use tilla.Chain.{
  succeeded, is_transfer, topic_at, pad_address, decode_transfer_log, parse_hex, hex_value,
  parse_digits, remove_prefixes, topic_address,
}
use tilla.Payment.{chain_for}
use tilla.Models.{delivered, refunded, status_eq, is_web}
use tilla.Checkout.Transition.{get_order, transition}
use tilla.Checkout.Sound.{Sound, IsSound, Keeps}
use tilla.Checkout.Allocation.{create_order, amount_taken, violates}
use tilla.Checkout.Allocation.Laws.{IsRandint, IsAllocated, create_order-IsAllocated}
use tilla.Checkout.Matching.{is_agent_settlement}
use tilla.Checkout.Verify.{verify_txhash, below_floor, insert_transfer, scan_log, verify_receipt}
use tilla.Checkout.Deliver.{
  deliver, active_deliverable, announce, entitle, fulfil, goods, graduate, insert_delivery,
}
use tilla.Checkout.Drive.{drive_state, record_transfer}
use tilla.Affiliates.Accrual.{accrue, void_accrual}
use tilla.Webhooks.{enqueue}
use tilla.Checkout.Verify.Laws.{Credits, verify_txhash-Credits}
use tilla.Refunds.{
  apply_refund, amount_due, claim_refund, insert_refund, receipt_of, revoke_entitlement,
  scan_refund, settle_refund, take_back,
}
use tilla.Refunds.Laws.{Reversed, apply_refund-Reverses}
use tilla.Refunds.Once.{Exhausts, apply_refund-Exhausts}
use tilla.Refunds.Keeps.{apply_refund-Keeps}
use tilla.Checkout.Allocation.Keeps.{create_order-IsSound}
use tilla.History.{◌⇒*◌, creates, submits, refunds, start, step, IsFresh}
use tilla.History.Safety.{IsPaid, history-Sound, no_free_goods, delivered_stays}
use tilla.Tests.World

draws-IsRandint : IsRandint World.draws
draws-IsRandint = λ i lo hi h. (omega arith, h)

created : create_order World.env World.draws World.basket [] ≡ ok (World.order, World.order ∷ [])
unfolding create_order amount_taken violates get
created = refl

submitted :
    verify_txhash World.env World.payment_node World.order World.payment_hash World.order_db
    ≡ ok World.sold_db
unfolding verify_txhash status_eq chain_for find text_eq succeeded lower lower_char for_each
    is_transfer topic_at pad_address decode_transfer_log parse_hex is_agent_settlement drive_state
    deliver accrue get rowcount select update hex_value parse_digits remove_prefixes topic_address
    active_deliverable announce entitle fulfil goods graduate insert_delivery record_transfer
    transition below_floor insert_transfer scan_log verify_receipt is_web enqueue
submitted = refl

order_found : get_order 7 World.order_db.orders ≡ some World.order
unfolding get
order_found = refl

sale : World.blank_db ⇒* World.sold_db
sale =
    step
      (creates World.env World.draws World.basket (World.order, World.order ∷ []) draws-IsRandint
        created)
      (step
        (submits World.env World.payment_node World.order World.payment_hash order_found submitted)
        start)

blank-IsFresh : IsFresh World.blank_db
blank-IsFresh = record { no_orders = refl; no_transfers = refl; no_deliveries = refl }

history-Sound_example : Sound World.sold_db
history-Sound_example = history-Sound blank-IsFresh sale

no_free_goods_example : All (IsPaid World.sold_db) World.sold_db.deliveries
no_free_goods_example = no_free_goods blank-IsFresh sale

sold_found : get_order 7 World.sold_db.orders ≡ some World.sold_row
unfolding get
sold_found = refl

-- The merchant sends the amount back.
refunded_run :
    apply_refund World.env World.refund_node World.sold_row World.shop World.refund_hash
      (codes "full")
      World.sold_db
    ≡ ok (1000001, World.refunded_db)
unfolding apply_refund status_eq chain_for find text_eq succeeded lower lower_char for_each
    is_transfer topic_at pad_address decode_transfer_log parse_hex get rowcount update hex_value
    parse_digits remove_prefixes topic_address transition below_floor amount_due claim_refund
    insert_refund receipt_of revoke_entitlement scan_refund settle_refund take_back void_accrual
    enqueue
refunded_run = refl

refunded_found : get_order 7 World.refunded_db.orders ≡ some World.refunded_row
unfolding get
refunded_found = refl

delivered_stays_example :
    (World.refunded_row.status ≡ delivered) ⊎ (World.refunded_row.status ≡ refunded)
delivered_stays_example =
    delivered_stays (history-Sound blank-IsFresh sale)
      (step
        (refunds World.env World.refund_node World.sold_row World.shop World.refund_hash
          (codes "full") (1000001, World.refunded_db) sold_found refunded_run)
        start)
      7 World.sold_row sold_found refl World.refunded_row refunded_found

create_order-IsAllocated_example :
    IsAllocated World.env World.basket [] (World.order, World.order ∷ [])
create_order-IsAllocated_example =
    create_order-IsAllocated World.env World.draws World.basket [] (World.order, World.order ∷ [])
      draws-IsRandint created

create_order-IsSound_example : IsSound (World.order ∷ []) [] []
create_order-IsSound_example =
    create_order-IsSound World.env World.draws World.basket [] [] [] (World.order, World.order ∷ [])
      draws-IsRandint created (history-Sound blank-IsFresh start)

verify_txhash-Credits_example :
    (World.sold_db ≡ World.order_db)
    ⊎ Credits World.payment_node World.payment_hash World.order World.order_db World.sold_db
verify_txhash-Credits_example =
    verify_txhash-Credits World.env World.payment_node World.order World.payment_hash World.order_db
      World.sold_db submitted

sold-Sound : Sound World.sold_db
sold-Sound = history-Sound blank-IsFresh sale

apply_refund-Keeps_example : Keeps World.sold_db World.refunded_db
apply_refund-Keeps_example =
    apply_refund-Keeps World.env World.sold_row World.shop World.sold_db sold_found sold-Sound
      World.refund_node World.refund_hash (codes "full") (1000001, World.refunded_db) refunded_run

apply_refund-Reverses_example :
    Reversed World.sold_row (codes "full") 1000001 World.sold_db World.refunded_db
apply_refund-Reverses_example =
    apply_refund-Reverses World.env World.sold_row World.shop World.sold_db sold_found
      sold-Sound.orders_unique World.refund_node World.refund_hash (codes "full")
      (1000001, World.refunded_db) refunded_run

apply_refund-Exhausts_example :
    (World.refunded_db ≡ World.sold_db) ⊎ Exhausts World.sold_row World.refunded_db
apply_refund-Exhausts_example =
    apply_refund-Exhausts World.env World.sold_row World.shop World.sold_db World.refund_node
      World.refund_hash (codes "full") (1000001, World.refunded_db) sold_found
      sold-Sound.orders_unique refunded_run
