-- ===== src/Lib.antt =====
-- A model of the order, payment, delivery and refund core of Tilla, a storefront that takes USDT0 on
-- X Layer without custody, and the theorems that make it correct.
--
-- The program: app/checkout.py keeps the state machine of an order. A new order asks for its price plus
-- a small random offset, so that the amount alone tells the orders of one address apart. A payment
-- comes in by the sweeper, which scans blocks behind a confirmation depth, or by a transaction hash
-- that the buyer submits. Each change of a status is one conditional UPDATE; the caller that wins the
-- one to `delivered` also writes the delivery, the entitlement, the webhooks and the affiliate accrual.
-- app/refunds.py verifies what a merchant sent back. app/escrow.py keeps commissioned jobs, whose
-- deposit and release it verifies in the same way, app/delivery.py hands out downloads, device
-- activations and sign-ins, app/mpp.py keeps the pay-as-you-go channels, and app/webhooks.py tells a
-- merchant of each event.
--
-- The files:
--   Base         lists, texts, results, and tables as lists of rows: SELECT, UPDATE, rowcount, keys.
--   Models       app/models.py: the columns that this code uses, `log_event`, and the settings.
--   Chain        app/chain.py: decode_transfer_log, pad_address and the filter on Transfer logs.
--   Payment      app/payment.py: CHAINS, chain_for, enabled_chains.
--   Webhooks     app/webhooks.py: enqueue; Dispatch is `dispatch_once`; Idle, Rest,
--                Due, Passes and Bound count the attempts of its passes, one pass at a time.
--   Affiliates   app/affiliates.py: accrue and void_accrual (Accrual), owed_micro and
--                verify_and_record_payout (Payout).
--   Checkout     app/checkout.py. Transition is `transition` and the groups of statuses; Machine the
--                diagram of statuses that the code walks; Deliver is `deliver`; Drive `_drive_state`
--                and `apply_transfer`; Allocation `create_order`; Matching `_match_order`,
--                `_process_log`, `_is_agent_settlement` and `_active_addresses`; Verify
--                `verify_txhash`; Expiry `flip_expired` and `release_expired`; Promote
--                `refresh_order`, `_receipt_still_valid`, `_mark_reorged` and `_promote_matured`;
--                Sweep `_sweep_chain` and `sweep_tick`. Sound is the invariant of the tables, and each
--                child called Keeps shows that its operation keeps it.
--   Refunds      app/refunds.py: apply_refund, with revoke_entitlement of app/delivery.py.
--   History      the operations above as steps on one database, in any order.
--   Escrow       app/escrow.py. Transition is `transition`, Transfer `_verify_transfer`, Cores the
--                request handlers and Routes the routes with their validation; Machine is the diagram
--                of a job, Sound its invariant, History the requests as steps.
--   Delivery     app/delivery.py: the download claims and the licence activations; Signin the nonces
--                and the sign-in. Licence is the invariant of the licence tables, Pool what a licence
--                promises, Runs any row of requests.
--   Channels     app/mpp.py: `open_channel`, `apply_voucher`, `topup_channel` and `close_channel`, each
--                also from the row that its SELECT read (`_found`). Sound is the invariant of the
--                channel table, Keeps what each write owes to it, Message the text that a voucher
--                signs, History the SELECTs and the writes as steps, in any order.
--   Tests        one sale from order to refund, one sweep, one commissioned job, one licence and one
--                sign-in, one channel, one webhook and one payout, computed.
--
-- State: `Db` has a list of rows for each table; an operation takes it and returns the next one, or an
-- error, which stands for the exception and the rollback. The cursors stand apart in `Tables`, since
-- only the sweeper writes them. Amounts are micro-USDT and times are seconds, both native naturals;
-- SQLite integers and Python integers do not wrap here. Where the source subtracts, the model adds on
-- the other side of the comparison or subtracts under a test that keeps the difference positive. An
-- order row that a function is given is the row that its caller read.
--
-- Loops: the draws of `create_order` are bounded by AMOUNT_ALLOC_RETRIES and the windows of a sweep by
-- SWEEP_MAX_WINDOWS, as in the source, so no fuel is added; the other loops run over a list. Only
-- `digits`, which writes a number in decimal, runs on fuel: a number has at most as many digits as its
-- successor, and `read_digits-decimal` of Channels/Message reads the number back.
--
-- Parameters: what a node answers (`Node`, `LogSource`), `random.randint` and the fresh ids (`Draws`),
-- the clock and the random licence key of one call (`Env`), the screening verdict and the outcome of
-- a bearer token (`Desktop`, `Session`), the recovery of a signer and the minting of tokens
-- (`Signing`), what comes of a webhook's POST (`Posted`). `IsRandint` and `IsBlockwise` state what the
-- code relies on. One call reads the clock once in the model. The hexadecimal reader takes what a node
-- writes (an optional 0x and digits) and refuses the blanks, signs and underscores of Python's `int`.
--
-- Not modelled: HTTP, JSON-RPC and HTML; agent checkout, subscriptions,
-- files and tokens, attestation, reconciliation and the generation of stores; of the channels the
-- routes and the settlement agent, of the webhooks the check of a URL and the signature. Requests of one
-- licence run one after the other, but for the activation from an outdated read. An agent order
-- appears only as rows that the modelled code reads. `create_order` takes the buyer inputs as already
-- validated and the chain head as already read.
pub mod Base
pub mod Models
pub mod Chain
pub mod Payment
pub mod Webhooks
pub mod Affiliates
pub mod Checkout
pub mod Refunds
pub mod History
pub mod Escrow
pub mod Delivery
pub mod Channels
pub mod Tests
