-- ===== src/Tests/Jobs.antt =====
-- One commissioned job from the order to the release, by its routes.
use tilla.Base.{◌≡◌, refl, true, none, some, [], ◌∷◌, List, ok, err, ◌↔◌, for_each, if◌then◌else◌}
use tilla.Base.Text.{Text, codes, text_eq, lower, lower_char}
use tilla.Base.Rows.{find, update, rowcount}
use tilla.Base.Keyed.{get}
use tilla.Payment.{canonical_chain}
use tilla.Base.Json.{
  Json, int, pos, string, fields, body_get, truthy, is_empty, is_space, lstrip, rstrip, strip,
}
use tilla.Chain.{
  decode_transfer_log, hex_value, is_transfer, pad_address, parse_digits, parse_hex,
  remove_prefixes, succeeded, topic_address, topic_at,
}
use tilla.Checkout.Verify.{Node, below_floor}
use tilla.Escrow
use tilla.Escrow.{
  Desk, Desktop, CommissionJob, JobLog, JobEvent, job_id, wrong_party, allow, job_open, budget_set,
  funded, submitted, completed, job_created, job_budget_set, job_funded, job_submitted,
  job_completed,
}
use tilla.Escrow.Routes
use tilla.Escrow.Transition.{transition_job}
use tilla.Escrow.Transfer.{tally_log, verify_transfer}
use tilla.Escrow.Transfer.Sums.{Moved, verify_transfer-Moved}
use tilla.Escrow.Transfer.Complete.{verify_transfer_iff}
use tilla.Escrow.Pays.{fund_core-Funds}
use tilla.Escrow.Releases.{Released, release_core-Released}
use tilla.Escrow.Cores.{
  create_core, advance, budget_core, fund_core, insert_job, new_job, release_core, releaser,
  require_status, submit_core,
}
use tilla.Escrow.Routes.{Call, wallet, serve, create, budget, fund, submit, release}
use tilla.Escrow.Sound.{Sound}
use tilla.Escrow.Safe.{Persists}
use tilla.Escrow.History.{
  ◌⇒*◌, serves, start, step, jobs-Sound, jobs_persist, BothPaid, completed_paid,
}
use tilla.Tests.World.{shop, shop_address, buyer_address, shop_topic, buyer_topic, receipt}

abbrev escrow_address : Text
escrow_address = codes "0x3333333333333333333333333333333333333333"

abbrev escrow_topic : Text
escrow_topic = codes "0x0000000000000000000000003333333333333333333333333333333333333333"

abbrev deposit_hash : Text
deposit_hash = codes "0xaaaaaaaaaaaaaaaaaaaaaaaaaaaaaaaaaaaaaaaaaaaaaaaaaaaaaaaaaaaaaaaa"

abbrev release_hash : Text
release_hash = codes "0xbbbbbbbbbbbbbbbbbbbbbbbbbbbbbbbbbbbbbbbbbbbbbbbbbbbbbbbbbbbbbbbb"

-- A node that knows a deposit and a release of 1000001, both in block 10.
abbrev job_node : Node
job_node = record {
  receipt = λ cfg hash.
      if text_eq hash deposit_hash
      then ok (some (receipt buyer_topic escrow_topic deposit_hash))
      else ok (some (receipt escrow_topic shop_topic release_hash));
  head = λ cfg. ok 100;
}

abbrev Asked : Node → Type 0
Asked n = n ≡ job_node

abbrev desktop : Desktop
desktop = record { now = 50; fresh_id = 7; screen = λ t. allow }

abbrev call : Text → List (Text × Json) → Call
call caller body = record {
  enabled = true;
  signing_key = true;
  session = wallet caller;
  body = fields body;
}

abbrev first_job : CommissionJob
first_job = record {
  id = 7;
  buyer_addr = buyer_address;
  store_id = 3;
  title = codes "Logo";
  brief = codes "A logo";
  budget_micro = none;
  escrow_addr = none;
  evaluator_addr = none;
  status = job_open;
  funded_tx = none;
  funded_block = none;
  released_tx = none;
  deliverable = none;
  created_at = 50;
  funded_at = none;
  submitted_at = none;
  completed_at = none;
}

abbrev agreed_job : CommissionJob
agreed_job = record first_job {
  budget_micro = some 1000001;
  escrow_addr = some escrow_address;
  status = budget_set;
}

abbrev funded_job : CommissionJob
funded_job = record agreed_job {
  funded_tx = some deposit_hash;
  funded_block = some 10;
  funded_at = some 50;
  status = funded;
}

abbrev submitted_job : CommissionJob
submitted_job = record funded_job {
  deliverable = some (codes "done");
  submitted_at = some 50;
  status = submitted;
}

abbrev completed_job : CommissionJob
completed_job = record submitted_job {
  released_tx = some release_hash;
  completed_at = some 50;
  status = completed;
}

abbrev logged : JobEvent → JobLog
logged e = record { event = e; store_id = 3; job = 7 }

abbrev create_call : Call
create_call = call buyer_address (
    (codes "store", string (codes "shop"))
    ∷ (codes "title", string (codes " Logo "))
    ∷ (codes "brief", string (codes "A logo"))
    ∷ [])

abbrev budget_call : Call
budget_call =
    call buyer_address (
      (codes "budget_micro", int (pos 1000001)) ∷ (codes "escrow_addr", string escrow_address) ∷ [])

abbrev fund_call : Call
fund_call = call buyer_address ((codes "tx_hash", string deposit_hash) ∷ [])

abbrev submit_call : Call
submit_call = call shop_address ((codes "deliverable", string (codes "done")) ∷ [])

abbrev release_call : Call
release_call = call buyer_address ((codes "tx_hash", string release_hash) ∷ [])

abbrev desk_with : List CommissionJob → List JobLog → Desk
desk_with jobs events = record { stores = shop ∷ []; jobs = jobs; events = events }

abbrev empty_desk : Desk
empty_desk = desk_with [] []

abbrev created_desk : Desk
created_desk = desk_with (first_job ∷ []) (logged job_created ∷ [])

abbrev agreed_desk : Desk
agreed_desk = desk_with (agreed_job ∷ []) (logged job_created ∷ logged job_budget_set ∷ [])

abbrev funded_desk : Desk
funded_desk =
    desk_with (funded_job ∷ [])
      (logged job_created ∷ logged job_budget_set ∷ logged job_funded ∷ [])

abbrev submitted_desk : Desk
submitted_desk =
    desk_with (submitted_job ∷ [])
      (logged job_created ∷ logged job_budget_set ∷ logged job_funded ∷ logged job_submitted ∷ [])

abbrev completed_desk : Desk
completed_desk = desk_with (completed_job ∷ []) (
    logged job_created
    ∷ logged job_budget_set
    ∷ logged job_funded
    ∷ logged job_submitted
    ∷ logged job_completed
    ∷ [])

creates_job : serve desktop job_node create create_call empty_desk ≡ ok created_desk
unfolding serve Routes.session_wallet Routes.parse_json Routes.require_slug body_get text_eq
    Routes.is_slug Routes.require_text is_empty Routes.optional_addr truthy create_core
    Escrow.require_live_store find Escrow.screen_or_raise get lower for_each is_space lstrip rstrip
    strip rowcount update lower_char decode_transfer_log hex_value is_transfer pad_address
    parse_digits parse_hex remove_prefixes succeeded topic_address topic_at below_floor advance
    budget_core fund_core insert_job new_job release_core releaser require_status submit_core
    Routes.require_addr Routes.require_budget Routes.require_tx Routes.run_budget Routes.run_create
    Routes.run_route tally_log verify_transfer transition_job Escrow.get_job Escrow.job_eq
    Escrow.reject_reused_tx Escrow.require_party Escrow.store_of Escrow.unique_tx
creates_job = refl

agrees_budget : serve desktop job_node (budget 7) budget_call created_desk ≡ ok agreed_desk
unfolding serve Routes.session_wallet Routes.parse_json Routes.require_slug body_get text_eq
    Routes.is_slug Routes.require_text is_empty Routes.optional_addr truthy create_core
    Escrow.require_live_store find Escrow.screen_or_raise get lower for_each is_space lstrip rstrip
    strip rowcount update lower_char decode_transfer_log hex_value is_transfer pad_address
    parse_digits parse_hex remove_prefixes succeeded topic_address topic_at below_floor advance
    budget_core fund_core insert_job new_job release_core releaser require_status submit_core
    Routes.require_addr Routes.require_budget Routes.require_tx Routes.run_budget Routes.run_create
    Routes.run_route tally_log verify_transfer transition_job Escrow.get_job Escrow.job_eq
    Escrow.reject_reused_tx Escrow.require_party Escrow.store_of Escrow.unique_tx
agrees_budget = refl

funds_job : serve desktop job_node (fund 7) fund_call agreed_desk ≡ ok funded_desk
unfolding serve Routes.session_wallet Routes.parse_json Routes.require_slug body_get text_eq
    Routes.is_slug Routes.require_text is_empty Routes.optional_addr truthy create_core
    Escrow.require_live_store find Escrow.screen_or_raise get lower for_each is_space lstrip rstrip
    strip rowcount update lower_char decode_transfer_log hex_value is_transfer pad_address
    parse_digits parse_hex remove_prefixes succeeded topic_address topic_at below_floor advance
    budget_core fund_core insert_job new_job release_core releaser require_status submit_core
    Routes.require_addr Routes.require_budget Routes.require_tx Routes.run_budget Routes.run_create
    Routes.run_route tally_log verify_transfer transition_job Escrow.get_job Escrow.job_eq
    Escrow.reject_reused_tx Escrow.require_party Escrow.store_of Escrow.unique_tx
funds_job = refl

submits_job : serve desktop job_node (submit 7) submit_call funded_desk ≡ ok submitted_desk
unfolding serve Routes.session_wallet Routes.parse_json Routes.require_slug body_get text_eq
    Routes.is_slug Routes.require_text is_empty Routes.optional_addr truthy create_core
    Escrow.require_live_store find Escrow.screen_or_raise get lower for_each is_space lstrip rstrip
    strip rowcount update lower_char decode_transfer_log hex_value is_transfer pad_address
    parse_digits parse_hex remove_prefixes succeeded topic_address topic_at below_floor advance
    budget_core fund_core insert_job new_job release_core releaser require_status submit_core
    Routes.require_addr Routes.require_budget Routes.require_tx Routes.run_budget Routes.run_create
    Routes.run_route tally_log verify_transfer transition_job Escrow.get_job Escrow.job_eq
    Escrow.reject_reused_tx Escrow.require_party Escrow.store_of Escrow.unique_tx
submits_job = refl

releases_job : serve desktop job_node (release 7) release_call submitted_desk ≡ ok completed_desk
unfolding serve Routes.session_wallet Routes.parse_json Routes.require_slug body_get text_eq
    Routes.is_slug Routes.require_text is_empty Routes.optional_addr truthy create_core
    Escrow.require_live_store find Escrow.screen_or_raise get lower for_each is_space lstrip rstrip
    strip rowcount update lower_char decode_transfer_log hex_value is_transfer pad_address
    parse_digits parse_hex remove_prefixes succeeded topic_address topic_at below_floor advance
    budget_core fund_core insert_job new_job release_core releaser require_status submit_core
    Routes.require_addr Routes.require_budget Routes.require_tx Routes.run_budget Routes.run_create
    Routes.run_route tally_log verify_transfer transition_job Escrow.get_job Escrow.job_eq
    Escrow.reject_reused_tx Escrow.require_party Escrow.store_of Escrow.unique_tx
releases_job = refl

-- The provider cannot release the money to itself.
refuses_provider :
    serve desktop job_node
      (release 7)
      (call shop_address ((codes "tx_hash", string release_hash) ∷ []))
      submitted_desk
    ≡ err wrong_party
unfolding serve Routes.session_wallet Routes.parse_json Routes.require_slug body_get text_eq
    Routes.is_slug Routes.require_text is_empty Routes.optional_addr truthy create_core
    Escrow.require_live_store find Escrow.screen_or_raise get lower for_each is_space lstrip rstrip
    strip rowcount update lower_char decode_transfer_log hex_value is_transfer pad_address
    parse_digits parse_hex remove_prefixes succeeded topic_address topic_at below_floor advance
    budget_core fund_core insert_job new_job release_core releaser require_status submit_core
    Routes.require_addr Routes.require_budget Routes.require_tx Routes.run_budget Routes.run_create
    Routes.run_route tally_log verify_transfer transition_job Escrow.get_job Escrow.job_eq
    Escrow.reject_reused_tx Escrow.require_party Escrow.store_of Escrow.unique_tx
refuses_provider = refl

job_history : ◌⇒*◌ Asked empty_desk completed_desk
job_history = step (serves desktop job_node create create_call refl creates_job) (
    step (serves desktop job_node (budget 7) budget_call refl agrees_budget) (
      step (serves desktop job_node (fund 7) fund_call refl funds_job) (
        step (serves desktop job_node (submit 7) submit_call refl submits_job)
          (step (serves desktop job_node (release 7) release_call refl releases_job) start))))

jobs-Sound_example : Sound Asked completed_desk
jobs-Sound_example = jobs-Sound Asked empty_desk completed_desk refl job_history

created_Sound : Sound Asked created_desk
created_Sound =
    jobs-Sound Asked empty_desk created_desk refl
      (step (serves desktop job_node create create_call refl creates_job) start)

later_history : ◌⇒*◌ Asked created_desk completed_desk
later_history = step (serves desktop job_node (budget 7) budget_call refl agrees_budget) (
    step (serves desktop job_node (fund 7) fund_call refl funds_job) (
      step (serves desktop job_node (submit 7) submit_call refl submits_job)
        (step (serves desktop job_node (release 7) release_call refl releases_job) start)))

jobs_persist_example : Persists 7 first_job completed_desk
unfolding get find
jobs_persist_example =
    jobs_persist Asked created_desk completed_desk created_Sound later_history 7 first_job refl

completed_paid_example : BothPaid Asked completed_desk.stores completed_job
unfolding get find
completed_paid_example =
    completed_paid Asked empty_desk completed_desk refl job_history 7 completed_job refl refl

-- The deposit, as the node shows it.
deposit_verified :
    verify_transfer job_node canonical_chain deposit_hash
      (some buyer_address)
      (some escrow_address)
      (some 1000001)
      none
    ≡ ok (some 10)
unfolding serve Routes.session_wallet Routes.parse_json Routes.require_slug body_get text_eq
    Routes.is_slug Routes.require_text is_empty Routes.optional_addr truthy create_core
    Escrow.require_live_store find Escrow.screen_or_raise get lower for_each is_space lstrip rstrip
    strip rowcount update lower_char decode_transfer_log hex_value is_transfer pad_address
    parse_digits parse_hex remove_prefixes succeeded topic_address topic_at below_floor advance
    budget_core fund_core insert_job new_job release_core releaser require_status submit_core
    Routes.require_addr Routes.require_budget Routes.require_tx Routes.run_budget Routes.run_create
    Routes.run_route tally_log verify_transfer transition_job Escrow.get_job Escrow.job_eq
    Escrow.reject_reused_tx Escrow.require_party Escrow.store_of Escrow.unique_tx
deposit_verified = refl

verify_transfer_iff_example :
    (verify_transfer job_node canonical_chain deposit_hash
        (some buyer_address)
        (some escrow_address)
        (some 1000001)
        none
      ≡ ok (some 10))
    ↔ Moved job_node canonical_chain deposit_hash
        (some buyer_address)
        (some escrow_address)
        (some 1000001)
        none
        (some 10)
verify_transfer_iff_example =
    verify_transfer_iff job_node canonical_chain deposit_hash (some buyer_address)
      (some escrow_address) (some 1000001) none (some 10)

fund_core-Funds_example :
    (desk' : Desk) × (fund_core desktop job_node buyer_address 7 deposit_hash agreed_desk
      ≡ ok desk')
    × (get job_id 7 desk'.jobs ≡ some funded_job)
unfolding serve Routes.session_wallet Routes.parse_json Routes.require_slug body_get text_eq
    Routes.is_slug Routes.require_text is_empty Routes.optional_addr truthy create_core
    Escrow.require_live_store find Escrow.screen_or_raise get lower for_each is_space lstrip rstrip
    strip rowcount update lower_char decode_transfer_log hex_value is_transfer pad_address
    parse_digits parse_hex remove_prefixes succeeded topic_address topic_at below_floor advance
    budget_core fund_core insert_job new_job release_core releaser require_status submit_core
    Routes.require_addr Routes.require_budget Routes.require_tx Routes.run_budget Routes.run_create
    Routes.run_route tally_log verify_transfer transition_job Escrow.get_job Escrow.job_eq
    Escrow.reject_reused_tx Escrow.require_party Escrow.store_of Escrow.unique_tx
fund_core-Funds_example =
    fund_core-Funds desktop job_node buyer_address 7 deposit_hash agreed_desk agreed_job (some 10)
      (tt, tt)
      (record {
        found = refl;
        store = shop;
        known = refl;
        agreed = refl;
        unused = ((λ e. absurd (cc e)), tt);
      })
      refl
      (verify_transfer-Moved job_node canonical_chain deposit_hash (some buyer_address)
        (some escrow_address) (some 1000001) none (some 10) deposit_verified)

-- A third wallet gates this job.
abbrev gated : CommissionJob → CommissionJob
gated j = record j { evaluator_addr = some escrow_address }

abbrev gated_desk : Desk
gated_desk = desk_with (gated submitted_job ∷ []) []

abbrev gated_end : Desk
gated_end = desk_with (gated completed_job ∷ []) (logged job_completed ∷ [])

evaluator_releases :
    release_core desktop job_node escrow_address 7 release_hash gated_desk ≡ ok gated_end
unfolding serve Routes.session_wallet Routes.parse_json Routes.require_slug body_get text_eq
    Routes.is_slug Routes.require_text is_empty Routes.optional_addr truthy create_core
    Escrow.require_live_store find Escrow.screen_or_raise get lower for_each is_space lstrip rstrip
    strip rowcount update lower_char decode_transfer_log hex_value is_transfer pad_address
    parse_digits parse_hex remove_prefixes succeeded topic_address topic_at below_floor advance
    budget_core fund_core insert_job new_job release_core releaser require_status submit_core
    Routes.require_addr Routes.require_budget Routes.require_tx Routes.run_budget Routes.run_create
    Routes.run_route tally_log verify_transfer transition_job Escrow.get_job Escrow.job_eq
    Escrow.reject_reused_tx Escrow.require_party Escrow.store_of Escrow.unique_tx
evaluator_releases = refl

buyer_refused :
    release_core desktop job_node buyer_address 7 release_hash gated_desk ≡ err wrong_party
unfolding serve Routes.session_wallet Routes.parse_json Routes.require_slug body_get text_eq
    Routes.is_slug Routes.require_text is_empty Routes.optional_addr truthy create_core
    Escrow.require_live_store find Escrow.screen_or_raise get lower for_each is_space lstrip rstrip
    strip rowcount update lower_char decode_transfer_log hex_value is_transfer pad_address
    parse_digits parse_hex remove_prefixes succeeded topic_address topic_at below_floor advance
    budget_core fund_core insert_job new_job release_core releaser require_status submit_core
    Routes.require_addr Routes.require_budget Routes.require_tx Routes.run_budget Routes.run_create
    Routes.run_route tally_log verify_transfer transition_job Escrow.get_job Escrow.job_eq
    Escrow.reject_reused_tx Escrow.require_party Escrow.store_of Escrow.unique_tx
buyer_refused = refl

release_core-Released_example :
    Released desktop job_node escrow_address 7 release_hash gated_desk gated_end
release_core-Released_example =
    release_core-Released desktop job_node escrow_address 7 release_hash gated_desk gated_end
      (tt, tt) evaluator_releases
