-- ===== src/Tests/Vouchers.antt =====
-- One channel that is opened, spent, topped up and closed.
use tilla.Base.{ℕ, ◌≡◌, refl, none, some, List, [], ◌∷◌, ok, Option, inl}
use tilla.Base.Text.{Text, codes, text_eq, lower, lower_char}
use tilla.Base.Json.{Json, string, body_get}
use tilla.Base.Rows.{find, update, rowcount}
use tilla.Channels
use tilla.Channels.{
  MppChannel, opened, closed, Channels, Opening, names, open_channel, apply_voucher, voucher_found,
  topup_found, close_found, topup_channel, close_channel, voucher_message, digits, decimal,
  find_channel, is_open, is_closable, new_channel, verify_voucher_signature, set_closed,
  final_spent,
}
use tilla.Channels.Sound.{Sound, Keeps}
use tilla.Channels.History.{
  ◌⇒*◌, Live, opens, selects, spends, tops_up, closes, start, step, channels-Keeps,
}
use tilla.Channels.Message.{voucher_message-injective}
use tilla.Tests.World.{shop_address, buyer_address}

abbrev opening : Opening
opening = record {
  store_id = 3;
  product_id = 5;
  pay_to = shop_address;
  channel_id = codes "c1";
  buyer_addr = some buyer_address;
  deposit_micro = 100;
  unit_price_micro = 10;
}

-- Every signature recovers to the buyer.
abbrev recover : Text → Text → Option Text
recover message signature = some buyer_address

abbrev voucher : List (Text × Json)
voucher = (codes "signature", string (codes "0x1")) ∷ []

abbrev no_channels : Channels
no_channels = record { channels = []; events = [] }

abbrev open_row : MppChannel
open_row = record {
  store_id = 3;
  product_id = 5;
  channel_id = codes "c1";
  buyer_addr = some buyer_address;
  pay_to = shop_address;
  deposit_micro = 100;
  spent_micro = 0;
  unit_price_micro = 10;
  status = opened;
  last_voucher = none;
  closed_at = none;
}

abbrev spent_row : MppChannel
spent_row = record open_row { spent_micro = 30; last_voucher = some voucher }

abbrev logged : Channels.ChannelEvent → Channels.ChannelLog
logged e = record { event = e; store_id = 3; channel_id = codes "c1" }

abbrev open_channels : Channels
open_channels = record { channels = open_row ∷ []; events = logged Channels.channel_opened ∷ [] }

abbrev spent_channels : Channels
spent_channels = record {
  channels = spent_row ∷ [];
  events = logged Channels.channel_opened ∷ logged Channels.channel_voucher ∷ [];
}

opens_channel : open_channel opening no_channels ≡ open_channels
unfolding open_channel find_channel find new_channel
opens_channel = refl

spends_voucher : apply_voucher recover (codes "c1") 30 voucher open_channels ≡ ok spent_channels
unfolding apply_voucher find_channel find text_eq voucher_found is_open verify_voucher_signature
    body_get lower lower_char rowcount update
spends_voucher = refl

abbrev topped_row : MppChannel
topped_row = record spent_row { deposit_micro = 150 }

abbrev topped_channels : Channels
topped_channels = record {
  channels = topped_row ∷ [];
  events =
      logged Channels.channel_opened
      ∷ logged Channels.channel_voucher
      ∷ logged Channels.channel_topped_up
      ∷ [];
}

-- The close asks for less than the vouchers spent.
abbrev closed_channels : Channels
closed_channels = record {
  channels = record topped_row { status = closed; closed_at = some 2000 } ∷ [];
  events =
      logged Channels.channel_opened
      ∷ logged Channels.channel_voucher
      ∷ logged Channels.channel_topped_up
      ∷ logged Channels.channel_closed
      ∷ [];
}

tops_up_channel : topup_channel (codes "c1") 50 spent_channels ≡ ok topped_channels
unfolding topup_channel topup_found find_channel find text_eq is_open rowcount update
tops_up_channel = refl

closes_channel : close_channel 2000 (codes "c1") (some 20) topped_channels ≡ ok closed_channels
unfolding close_channel close_found find_channel find text_eq is_closable rowcount update set_closed
    final_spent
closes_channel = refl

no_channels_Sound : Sound no_channels.channels
no_channels_Sound = record { unique = tt; within = tt }

-- The voucher, the top-up and the close all go by the row as it was when the channel was opened.
abbrev history_end : Live
history_end = record { table = closed_channels; reads = open_row ∷ [] }

channel_history : record { table = no_channels; reads = [] } ⇒* history_end
unfolding open_channel find_channel find new_channel text_eq voucher_found topup_found close_found
    is_open is_closable verify_voucher_signature body_get lower lower_char rowcount update
    set_closed final_spent
channel_history = step {b = record { table = open_channels; reads = [] }} (opens opening) (
    step (selects (codes "c1") open_row refl) (
      step (spends {l' = spent_channels} recover open_row 30 voucher (inl refl) refl) (
        step (tops_up {l' = topped_channels} open_row 50 (inl refl) refl)
          (step {c = history_end} (closes 2000 open_row none (inl refl)) start))))

channels-Keeps_example : Keeps no_channels.channels closed_channels.channels
channels-Keeps_example = channels-Keeps no_channels history_end no_channels_Sound channel_history

voucher_message-injective_example : ◌≡◌ {A = ℕ} 12 12
voucher_message-injective_example = voucher_message-injective (codes "c1") 12 12 refl
