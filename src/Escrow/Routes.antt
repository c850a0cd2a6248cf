-- ===== src/Escrow/Routes.antt =====
-- The HTTP routes of app/escrow.py: the switch, the session, the validation of the body, and the
-- core that each one calls.
use tilla.Base.{
  ℕ, Bool, false, not, ◌&&◌, ◌||◌, Option, none, some, List, [], ◌∷◌, ◌==◌, leb, ltb, all, length,
  if◌then◌else◌, Result, ok, err, ◌>>=◌, ◌>>◌, raise_if,
}
use Prim.Native.String.{String}
use tilla.Base.Text.{Text, codes, lower, non_empty}
use tilla.Base.Json.{
  pos, Json, int, string, Body, no_body, malformed, not_dict, fields, body_get, strip, truthy,
}
use tilla.Chain.Address.{is_hex}
use tilla.Checkout.Verify.{Node}
use tilla.Escrow.{
  Desk, Desktop, EscrowError, not_enabled, no_signing_key, session_expired, invalid_session,
  invalid_json, not_an_object, bad_address, bad_tx, bad_text, bad_slug, bad_budget,
}
use tilla.Escrow.Cores.{
  create_core, budget_core, fund_core, submit_core, release_core, cancel_core, dispute_core,
}

abbrev pub max_budget_micro : ℕ
max_budget_micro = 10_000_000_000

abbrev pub max_description_len : ℕ
max_description_len = 2000

-- What `load_session_token` makes of the caller's bearer token.
pub data Session : Type 0 where
  expired forged : Session
  wallet : Text → Session

pub record Call : Type 0 where
  pub enabled : Bool
  pub signing_key : Bool
  pub session : Session
  pub body : Body

token_wallet : Session → Result EscrowError Text
token_wallet expired = err session_expired
token_wallet forged = err invalid_session
token_wallet (wallet address) = ok (lower address)

unfoldable pub session_wallet : Call → Result EscrowError Text
unfolding token_wallet
session_wallet call = raise_if (not call.signing_key) no_signing_key >> token_wallet call.session

unfoldable pub parse_json : Body → Result EscrowError (List (Text × Json))
parse_json no_body = ok []
parse_json malformed = err invalid_json
parse_json not_dict = err not_an_object
parse_json (fields entries) = ok entries

-- `^0x[0-9a-fA-F]{n}$`
abbrev pub is_hex_word : ℕ → Text → Bool
is_hex_word n (a ∷ b ∷ digits) =
    (a == b'0') && ((b == b'x') && ((length digits == n) && all is_hex digits))
is_hex_word n _ = false

unfoldable pub require_addr : Json → Result EscrowError Text
require_addr (string value) = if is_hex_word 40 value then ok (lower value) else err bad_address
require_addr _ = err bad_address

unfoldable pub require_tx : Json → Result EscrowError Text
require_tx (string value) = if is_hex_word 64 value then ok (lower value) else err bad_tx
require_tx _ = err bad_tx

unfoldable pub require_text : ℕ → Json → Result EscrowError Text
unfolding strip
require_text maxlen (string value) =
    let text = strip value in
    if not (non_empty text)
    then err bad_text
    else if ltb maxlen (length text)
    then err bad_text
    else ok text
require_text maxlen _ = err bad_text

-- The characters of `config.SLUG_PATTERN`, `^[a-z0-9][a-z0-9-]{0,39}$`.
is_slug_start : ℕ → Bool
is_slug_start c = (leb b'a' c && leb c b'z') || (leb b'0' c && leb c b'9')

is_slug_char : ℕ → Bool
unfolding is_slug_start
is_slug_char c = is_slug_start c || (c == b'-')

unfoldable pub is_slug : Text → Bool
unfolding is_slug_start is_slug_char
is_slug [] = false
is_slug (c ∷ cs) = is_slug_start c && (leb (length cs) 39 && all is_slug_char cs)

unfoldable pub require_slug : Json → Result EscrowError Text
require_slug (string value) = if is_slug value then ok value else err bad_slug
require_slug _ = err bad_slug

-- An integer from 1 to the cap; a Boolean is refused.
unfoldable pub require_budget : Json → Result EscrowError ℕ
require_budget (int (pos n)) = if (n == 0) || ltb max_budget_micro n then err bad_budget else ok n
require_budget _ = err bad_budget

-- `_require_addr(raw_eval, "evaluator_addr") if raw_eval else None`
unfoldable pub optional_addr : Json → Result EscrowError (Option Text)
optional_addr value = if truthy value then (require_addr value >>= λ a. ok (some a)) else ok none

-- The routes that change a job, each with the id in its path.
pub data Route : Type 0 where
  create : Route
  budget fund submit release cancel dispute : ℕ → Route

text_field : String → List (Text × Json) → Json
text_field key body = body_get (codes key) body

-- `budget_micro` and `escrow_addr`, `tx_hash`, `deliverable`: the fields of a body.
unfoldable pub run_create : Desktop → Text → List (Text × Json) → Desk → Result EscrowError Desk
unfolding text_field
run_create at caller body desk = require_slug (text_field "store" body) >>= λ slug.
    require_text 200 (text_field "title" body) >>= λ title.
    require_text max_description_len (text_field "brief" body) >>= λ brief.
    optional_addr (text_field "evaluator_addr" body) >>= λ evaluator.
    create_core at caller slug title brief evaluator desk

unfoldable pub run_budget : Text → ℕ → List (Text × Json) → Desk → Result EscrowError Desk
unfolding text_field
run_budget caller k body desk = require_budget (text_field "budget_micro" body) >>= λ amount.
    require_addr (text_field "escrow_addr" body) >>= λ escrow_addr.
    budget_core caller k amount escrow_addr desk

unfoldable pub run_route : Desktop → Node → Text → Route → Call → Desk → Result EscrowError Desk
unfolding text_field run_create run_budget
run_route at node caller create call desk =
    parse_json call.body >>= λ body. run_create at caller body desk
run_route at node caller (budget k) call desk =
    parse_json call.body >>= λ body. run_budget caller k body desk
run_route at node caller (fund k) call desk = parse_json call.body >>= λ body.
    require_tx (text_field "tx_hash" body) >>= λ tx_hash. fund_core at node caller k tx_hash desk
run_route at node caller (submit k) call desk = parse_json call.body >>= λ body.
    require_text max_description_len (text_field "deliverable" body) >>= λ deliverable.
    submit_core at caller k deliverable desk
run_route at node caller (release k) call desk = parse_json call.body >>= λ body.
    require_tx (text_field "tx_hash" body) >>= λ tx_hash. release_core at node caller k tx_hash desk
run_route at node caller (cancel k) call desk = cancel_core caller k desk
run_route at node caller (dispute k) call desk = dispute_core caller k desk

-- One request.
unfoldable pub serve : Desktop → Node → Route → Call → Desk → Result EscrowError Desk
unfolding run_route
serve at node route call desk =
    raise_if (not call.enabled) not_enabled >> session_wallet call >>= λ caller.
    run_route at node caller route call desk
