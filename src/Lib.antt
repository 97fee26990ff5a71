-- ===== src/Lib.antt =====
-- A verification library of the pool: the arithmetic and the state machines that decide what a
-- miner works on, which nonces it may use, how hard its shares are and what it is paid.
--
-- Accounting and Accounting/ model crates/wcash-pool-store/src/accounting.rs: `target_work` and
-- `allocate_pplns`, the division of a block's reward over a window of accepted shares. A share, a
-- provisional entry and a plan are records, the `BTreeMap` of work by account is a list in the
-- order of the accounts, and each `?` is a step of the result monad of Base/Results. Account and
-- share identifiers are the numbers of their bytes, most significant first.
-- Target and Target/ model crates/wcash-pool-core/src/target.rs with the two target types of
-- crates/wcash-pool-protocol/src/fixed_hex.rs: a `ShareTarget` is the number its 32 bytes spell,
-- `from_zip301` and `from_backend` read the two byte orders, `new_bounds` and `new_binding` are
-- `TargetBounds::new` and `TargetBinding::new`.
-- Limbs and Limbs/ model the limb arithmetic of crates/wcash-pool-core/src/vardiff.rs, from
-- `scale_target` down: lists of 64-bit limbs, and the 320 rounds of `divide_320_by_128` on 128-bit
-- words that wrap.
-- Vardiff and Vardiff/ model the policy and the controller of the same file: `new_config`,
-- `new_controller`, `observe_share`, `tick` and `update_network_targets`, each a function from a
-- controller to a reply and a controller. The controller's targets are those of Target, and it is
-- rescaled by Limbs.
-- Nonce and Nonce/ model crates/wcash-pool-core/src/nonce.rs with the nonce types of
-- crates/wcash-pool-protocol/src/zip301.rs: leases, cursors, the allocator with its reserved
-- range, and `join_nonce`. The allocator's mutex makes each call atomic, so that an interleaving of
-- threads is a list of calls.
-- Jobs models the job descriptor of crates/wcash-pool-protocol/src/backend.rs with its validation,
-- and the generations and assignments of crates/wcash-pool-core/src/jobs.rs. Registry and Registry/
-- model the `GenerationRegistry` of the same file: Registry its state and clock, Registry/Snapshot
-- `apply_snapshot`, Registry/Events `apply_event_at`, Registry/Admission the admissions, the winner
-- recovery and the retirement. Every method is a function from a registry to a reply and a
-- registry, errors included. SHA-256 is a parameter. Registry/History runs any list of the methods
-- that change a registry, and of drops of its guards.
-- Session and Session/ model crates/wcash-pool-core/src/session.rs: Session/Worker the authenticated
-- worker, the states and the errors, Session the calls of a `MiningSession`, each a function from a
-- session to a reply and a session, and Session/Submission `prepare_submission_mode` and
-- `refilter_zcash_candidate` over the registry. A session takes its nonce prefix from the allocator
-- of Nonce, and is admitted by Registry/Admission.
-- WecSigner and WecSigner/ model crates/wcash-wec-payout-signer, with the payout batch of
-- crates/wcash-pool-portal/src/signer.rs: WecSigner/Batch the batch, WecSigner/Wallet the boundary
-- to the wallet, WecSigner/Config the policy, WecSigner/Journal the records and their stages,
-- WecSigner/Requests and WecSigner/Verify the checks, WecSigner/Machine the world that the signer
-- acts on, WecSigner/Asking and WecSigner/Artifacts the questions to the wallet, WecSigner/Pipeline
-- `execute`, `prepare`, `recover_prepared` and `inspect_prepared`, WecSigner/Portal the portal's
-- view. What the wallet, the node and the file system answer, and where the signer is interrupted,
-- is a record of functions that each call is given; SHA-256 and the hexadecimal decoder are
-- parameters too. The state is the journal, and what has been asked of the wallet's signer and of
-- the node; it outlives an error. The loops of the pipeline go on with the stage just stored, so
-- that an arm ends in the arm of that stage.
-- Router and Router/ model crates/wcash-pool-edge/src/router.rs, with the timeline, the bindings and
-- the delivered values of crates/wcash-pool-backend-client/src/unix.rs: Router the state, the
-- updates and the suspensions, Router/Journal the events, the snapshots and the subscriptions,
-- Router/Health the health pause, the queries and the submissions, Router/Calls any sequence of
-- calls. A call is a function from a router to a reply and a router, since it holds the lock. An
-- event or a recovery that fails releases the lock before it suspends or warns: what is left to be
-- done is a call of its own, so that other calls may come in between. The router hands the registry
-- to Registry and the submissions to Session.
-- RateLimit and RateLimit/ model crates/wcash-pool-edge/src/rate_limit.rs: the policy, and the
-- fixed-window counter of a connection.
-- Base holds what the others share: tests, lists, results, the moduli of the words, byte strings.
--
-- A machine integer is a number below its modulus, with the wrap or the overflow check written out
-- where the code has it. The loop of `divide_320_by_128` runs for its 320 bits; every other loop
-- goes down a list, so that no definition needs fuel.
--
-- Not modelled: the asynchronous connection actors and sockets of crates/wcash-pool-edge and
-- crates/wcash-pool-backend-client, the SQL of crates/wcash-pool-store, the web pages of
-- crates/wcash-pool-portal, the external wallets and nodes, which are input and output around
-- libraries. Nor are the submission queue of crates/wcash-pool-edge, the JSON text of the
-- protocol, the address formats, crates/wcash-zec-payout-signer and the settlement runs of
-- crates/wcash-poold.
pub mod Base
pub mod Accounting
pub mod Target
pub mod Limbs
pub mod Vardiff
pub mod Nonce
pub mod Jobs
pub mod Registry
pub mod Session
pub mod Router
pub mod WecSigner
pub mod RateLimit
