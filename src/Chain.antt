-- ===== src/Chain.antt =====
-- app/chain.py: the words of an ERC-20 Transfer log. The JSON-RPC calls themselves are not modelled;
-- a receipt or a list of logs is what the node answered.
pub mod Address
use Prim.Native.String.{String}
use tilla.Base.{
  ℕ, zero, suc, ◌||◌, ◌+◌, ◌-◌, ◌*◌, ◌≡◌, Bool, true, false, ◌&&◌, Option, none, some, List, [],
  ◌∷◌, ◌++◌, ◌==◌, leb, ltb, if◌then◌else◌, replicate, length,
}
use tilla.Base.Text.{Text, codes, text_eq, lower, last}

pub record Log : Type 0 where
  pub address : Text
  pub topics : List Text
  pub word : Text
  pub transaction_hash : Text
  pub log_index : Text
  pub block_number : Text

pub record Receipt : Type 0 where
  pub status : Text
  pub block_number : Option Text
  pub logs : List Log

-- A settlement chain of app/payment.py, by the constants that verification reads.
pub record ChainConfig : Type 0 where
  pub chain_id : ℕ
  pub caip2 : Text
  pub asset : Text

-- A decoded `Transfer` log.
pub record Transfer : Type 0 where
  pub from : Text
  pub to : Text
  pub value : ℕ
  pub tx_hash : Text
  pub log_index : ℕ
  pub block_number : ℕ

abbrev pub transfer_topic : Text
transfer_topic = codes "0xddf252ad1be2c89b69c2b068fc378daa952ba7f163c4a11628f55a4df523b3ef"

unfoldable pub hex_value : ℕ → Option ℕ
hex_value c =
    if leb b'0' c && leb c b'9'
    then some (c - b'0')
    else if leb b'a' c && leb c b'f'
    then some (c - b'a' + 10)
    else if leb b'A' c && leb c b'F'
    then some (c - b'A' + 10)
    else none

unfoldable pub parse_digits : Text → ℕ → Option ℕ
parse_digits [] n = some n
parse_digits (c ∷ cs) n = elim (hex_value c) [ none ↦ none | some v ↦ parse_digits cs (n * 16 + v) ]

some_digits : Text → Option ℕ
some_digits [] = none
some_digits (c ∷ cs) = parse_digits (c ∷ cs) 0

-- `int(s, 16)` on what a node answers: an optional `0x`, then digits. `none` is `ValueError`.
-- The signs, blanks and underscores that Python also reads are refused here.
unfoldable pub parse_hex : Text → Option ℕ
unfolding some_digits parse_digits hex_value
parse_hex (a ∷ b ∷ cs) =
    if (a == b'0') && ((b == b'x') || (b == b'X')) then some_digits cs else some_digits (a ∷ b ∷ cs)
parse_hex cs = some_digits cs

-- `s.replace("0x", "")`
unfoldable pub remove_prefixes : Text → Text
remove_prefixes [] = []
remove_prefixes (a ∷ []) = a ∷ []
remove_prefixes (a ∷ b ∷ cs) =
    let rest = remove_prefixes cs in
    let other = remove_prefixes (b ∷ cs) in if (a == b'0') && (b == b'x') then rest else a ∷ other

abbrev pub prefix : Text
prefix = codes "0x"

unfoldable pub pad_address : Text → Text
unfolding remove_prefixes lower
pad_address addr = prefix ++ (replicate 24 b'0' ++ remove_prefixes (lower addr))

-- `"0x" + topic[-40:].lower()`
unfoldable pub topic_address : Text → Text
unfolding lower
topic_address topic = prefix ++ lower (last 40 topic)

decode_words : Text → Text → Log → Option ℕ → Option ℕ → Option ℕ → Option Transfer
decode_words t1 t2 lg (some value) (some index) (some block) = some (record {
  from = topic_address t1;
  to = topic_address t2;
  value = value;
  tx_hash = lower lg.transaction_hash;
  log_index = index;
  block_number = block;
})
decode_words t1 t2 lg _ _ _ = none

decode_topics : List Text → Log → Option Transfer
unfolding decode_words
decode_topics (t0 ∷ t1 ∷ t2 ∷ ts) lg =
    decode_words t1 t2 lg (parse_hex lg.word) (parse_hex lg.log_index) (parse_hex lg.block_number)
decode_topics _ lg = none

-- `none` is the `IndexError` or `ValueError` of a malformed log.
unfoldable pub decode_transfer_log : Log → Option Transfer
unfolding decode_topics
decode_transfer_log lg = decode_topics lg.topics lg

-- The filter that every verification loop applies: the chain's asset, three topics or more, and the
-- Transfer signature.
has_transfer_topic : List Text → Bool
has_transfer_topic (t0 ∷ t1 ∷ t2 ∷ ts) = text_eq (lower t0) transfer_topic
has_transfer_topic _ = false

unfoldable pub is_transfer : ChainConfig → Log → Bool
unfolding has_transfer_topic
is_transfer cfg lg = text_eq (lower lg.address) cfg.asset && has_transfer_topic lg.topics

unfoldable pub topic_at : ℕ → List Text → Text
topic_at i [] = []
topic_at zero (t ∷ ts) = lower t
topic_at (suc i) (t ∷ ts) = topic_at i ts

-- `topics[i].lower()`, on a log that `is_transfer` let through.
abbrev pub topic : ℕ → Log → Text
topic i lg = topic_at i lg.topics

-- `str(receipt.get("status", "")).lower() == "0x1"`
unfoldable pub succeeded : Receipt → Bool
succeeded r = text_eq (lower r.status) (codes "0x1")
