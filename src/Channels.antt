-- ===== src/Channels.antt =====
-- app/mpp.py: pay-as-you-go channels. The settlement agent moves the money; this is the state
-- machine over one row of `mpp_channels`, with the signed vouchers that spend it.

pub mod Sound
pub mod Keeps
pub mod History
pub mod Message
use tilla.Base.{
  ℕ, zero, suc, ◌+◌, ◌/◌, ◌%◌, Bool, true, false, not, ◌&&◌, max, Option, none, some, List, [], ◌∷◌,
  ◌++◌, ◌==◌, ltb, leb, is_some, if◌then◌else◌, Result, ok, err, ◌>>=◌, ◌>>◌, raise_if, or_raise,
}
use tilla.Base.Text.{Text, codes, text_eq, lower, non_empty}
use tilla.Base.Json.{Json, string, body_get}
use tilla.Base.Rows.{find, update, rowcount}

pub data ChannelStatus : Type 0 where
  opened closing closed failed : ChannelStatus

unfoldable pub is_open : ChannelStatus → Bool
is_open opened = true
is_open closing = false
is_open closed = false
is_open failed = false

-- `status IN ('open', 'closing')`
unfoldable pub is_closable : ChannelStatus → Bool
is_closable opened = true
is_closable closing = true
is_closable closed = false
is_closable failed = false

pub record MppChannel : Type 0 where
  pub store_id : ℕ
  pub product_id : ℕ
  pub channel_id : Text
  pub buyer_addr : Option Text
  pub pay_to : Text
  pub deposit_micro : ℕ
  pub spent_micro : ℕ
  pub unit_price_micro : ℕ
  pub status : ChannelStatus
  pub last_voucher : Option (List (Text × Json))
  pub closed_at : Option ℕ

pub data ChannelEvent : Type 0 where
  channel_opened channel_voucher channel_topped_up channel_closed : ChannelEvent

pub record ChannelLog : Type 0 where
  pub event : ChannelEvent
  pub store_id : ℕ
  pub channel_id : Text

pub record Channels : Type 0 where
  pub channels : List MppChannel
  pub events : List ChannelLog

-- ChannelNotFound and the reasons of MppStateError.
pub data ChannelError : Type 0 where
  channel_not_found not_open regression overspend no_buyer no_signature wrong_signer voucher_race
        not_positive top_up_race :
      ChannelError

abbrev pub names : Text → MppChannel → Bool
names id c = text_eq c.channel_id id

unfoldable pub find_channel : Text → List MppChannel → Option MppChannel
find_channel id channels = find (names id) channels

abbrev pub log_channel : ChannelEvent → MppChannel → Channels → Channels
log_channel e c l = record l {
  events =
      l.events ++ (record { event = e; store_id = c.store_id; channel_id = c.channel_id } ∷ []);
}

-- What `open_channel` is given once the agent has confirmed the deposit.
pub record Opening : Type 0 where
  pub store_id : ℕ
  pub product_id : ℕ
  pub pay_to : Text
  pub channel_id : Text
  pub buyer_addr : Option Text
  pub deposit_micro : ℕ
  pub unit_price_micro : ℕ

unfoldable pub new_channel : Opening → MppChannel
new_channel o = record {
  store_id = o.store_id;
  product_id = o.product_id;
  channel_id = o.channel_id;
  buyer_addr = o.buyer_addr;
  pay_to = o.pay_to;
  deposit_micro = o.deposit_micro;
  spent_micro = 0;
  unit_price_micro = o.unit_price_micro;
  status = opened;
  last_voucher = none;
  closed_at = none;
}

-- UNIQUE(channel_id) turns a second opening into a look at the row that is there.
unfoldable pub open_channel : Opening → Channels → Channels
open_channel o l =
    if is_some (find_channel o.channel_id l.channels)
    then l
    else log_channel channel_opened (new_channel o)
        (record l { channels = l.channels ++ (new_channel o ∷ []) })

-- `str(n)`, on fuel: each digit divides what is left by ten.
unfoldable pub digits : ℕ → ℕ → Text → Text
digits zero n rest = rest
digits (suc fuel) n rest =
    let more = digits fuel (n / 10) ((b'0' + n % 10) ∷ rest) in
    if ltb n 10 then (b'0' + n) ∷ rest else more

unfoldable pub decimal : ℕ → Text
decimal n = digits (suc n) n []

unfoldable pub voucher_message : Text → ℕ → Text
voucher_message channel_id cumulative_micro =
    codes "tilla:mpp-voucher"
    ++ (10
        ∷ (codes "channel:"
            ++ (channel_id ++ (10 ∷ (codes "cumulative_micro:" ++ decimal cumulative_micro)))))

signature_of : Json → Result ChannelError Text
signature_of (string t) = if non_empty t then ok t else err no_signature
signature_of _ = err no_signature

buyer_of : Option Text → Result ChannelError Text
buyer_of none = err no_buyer
buyer_of (some t) = if non_empty t then ok t else err no_buyer

is_signer : Text → Option Text → Bool
is_signer buyer none = false
is_signer buyer (some signer) = text_eq (lower signer) (lower buyer)

-- `recover` is `_recover_signer` of app/delivery.py.
unfoldable pub verify_voucher_signature :
    (Text → Text → Option Text)
    → Option Text
    → Text
    → ℕ
    → List (Text × Json)
    → Result ChannelError (Unit {0})
unfolding signature_of buyer_of is_signer
verify_voucher_signature recover buyer_addr channel_id cumulative_micro voucher =
    buyer_of buyer_addr >>= λ buyer.
    signature_of (body_get (codes "signature") voucher) >>= λ signature.
    raise_if
      (not (is_signer buyer (recover (voucher_message channel_id cumulative_micro) signature)))
      wrong_signer

-- The UPDATE is keyed on the spent amount that the call has read.
abbrev pub at_spent : Text → ℕ → MppChannel → Bool
at_spent id spent c = names id c && (is_open c.status && (c.spent_micro == spent))

abbrev pub set_spent : ℕ → List (Text × Json) → MppChannel → MppChannel
set_spent cumulative_micro voucher c = record c {
  spent_micro = cumulative_micro;
  last_voucher = some voucher;
}

-- `apply_voucher` after its SELECT, which another request may have outdated.
unfoldable pub voucher_found :
    (Text → Text → Option Text)
    → MppChannel
    → Text
    → ℕ
    → List (Text × Json)
    → Channels
    → Result ChannelError Channels
voucher_found recover ch channel_id cumulative_micro voucher l =
    raise_if (not (is_open ch.status)) not_open
    >> raise_if (leb cumulative_micro ch.spent_micro) regression
    >> raise_if (ltb ch.deposit_micro cumulative_micro) overspend
    >> verify_voucher_signature recover ch.buyer_addr channel_id cumulative_micro voucher
    >> raise_if (not (rowcount (at_spent channel_id ch.spent_micro) l.channels == 1)) voucher_race
    >> ok (
        log_channel channel_voucher ch (record l {
          channels =
              update (at_spent channel_id ch.spent_micro) (set_spent cumulative_micro voucher)
                l.channels;
        }))

unfoldable pub apply_voucher :
    (Text → Text → Option Text)
    → Text
    → ℕ
    → List (Text × Json)
    → Channels
    → Result ChannelError Channels
apply_voucher recover channel_id cumulative_micro voucher l =
    or_raise (find_channel channel_id l.channels) channel_not_found >>= λ ch.
    voucher_found recover ch channel_id cumulative_micro voucher l

abbrev pub at_deposit : Text → ℕ → MppChannel → Bool
at_deposit id deposit c = names id c && (is_open c.status && (c.deposit_micro == deposit))

-- `topup_channel` after its SELECT.
unfoldable pub topup_found : MppChannel → Text → ℕ → Channels → Result ChannelError Channels
topup_found ch channel_id add_micro l =
    raise_if (not (is_open ch.status)) not_open
    >> raise_if (not (rowcount (at_deposit channel_id ch.deposit_micro) l.channels == 1))
        top_up_race
    >> ok (
        log_channel channel_topped_up ch (record l {
          channels =
              update (at_deposit channel_id ch.deposit_micro)
                (λ c. record c { deposit_micro = ch.deposit_micro + add_micro }) l.channels;
        }))

unfoldable pub topup_channel : Text → ℕ → Channels → Result ChannelError Channels
topup_channel channel_id add_micro l =
    raise_if (add_micro == 0) not_positive
    >> or_raise (find_channel channel_id l.channels) channel_not_found
    >>= λ ch. topup_found ch channel_id add_micro l

-- The spent amount of a closing request: at least what the vouchers have spent.
unfoldable pub final_spent : MppChannel → Option ℕ → MppChannel → ℕ
final_spent ch none c = c.spent_micro
final_spent ch (some n) c = max n ch.spent_micro

abbrev pub can_close : Text → MppChannel → Bool
can_close id c = names id c && is_closable c.status

unfoldable pub set_closed : ℕ → MppChannel → Option ℕ → MppChannel → MppChannel
unfolding final_spent
set_closed now ch final_spent_micro c = record c {
  status = closed;
  closed_at = some now;
  spent_micro = final_spent ch final_spent_micro c;
}

-- `close_channel` after its SELECT. The UPDATE is not keyed on what was read, so the spent amount may
-- be another by now. A channel that is closed already stays as it is.
unfoldable pub close_found : ℕ → MppChannel → Text → Option ℕ → Channels → Channels
close_found now ch channel_id final_spent_micro l =
    if rowcount (can_close channel_id) l.channels == 1
    then log_channel channel_closed ch (record l {
      channels = update (can_close channel_id) (set_closed now ch final_spent_micro) l.channels;
    })
    else l

unfoldable pub close_channel : ℕ → Text → Option ℕ → Channels → Result ChannelError Channels
close_channel now channel_id final_spent_micro l =
    or_raise (find_channel channel_id l.channels) channel_not_found >>= λ ch.
    ok (close_found now ch channel_id final_spent_micro l)
