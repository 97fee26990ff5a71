-- ===== src/WecSigner/Tests.antt =====
-- Runs of the signer, and instances of its theorems.
use pool.Base.{
  ℕ, zero, suc, ◌+◌, ◌-◌, ◌*◌, ◌≡◌, refl, true, false, List, [], ◌∷◌, Option, none, some, ltb,
  if◌then◌else◌, Result, ok, err, get_elem?,
}
use pool.WecSigner.{Libraries, broadcast_ambiguous}
use pool.WecSigner.Batch.{
  wec, testnet, transparent_receiver, PayoutOutput, validate_batch, validate_outputs,
  batch_commitment,
}
use pool.WecSigner.Wallet.{
  wallet_testnet, from_ironwood, WalletIdentity, WalletOutput, WalletSignedTransaction,
  PersistedIntent, WalletBroadcastCall, BroadcastOutcome, BroadcastFailure, accepted, node_timeout,
  testnet_genesis_hash, testnet_branch_id,
}
use pool.WecSigner.Config.{WecSignerConfig, validate_config, validate_limits, normal}
use pool.WecSigner.Journal.{
  StoredArtifact, JournalRecord, broadcast_unresolved, find_record, put_record, check_record,
  validate_stage, validate_artifact,
}
use pool.WecSigner.Requests.{
  WecPayoutRequest, ValidatedRequest, validate_request, wallet_outputs, pipeline_commitment,
}
use pool.WecSigner.Verify.{
  WecPayoutExecution, verify_identity, verify_signed, verify_inspection, prepared_from_record,
  execution_from_record,
}
use pool.WecSigner.Machine.{
  Surroundings, World, file_replaced, load, store, persist, sign_exact, broadcast_exact, reach,
}
use pool.WecSigner.Asking.{
  ask_identity, ask_recovery, take_signed, inspect, recover_existing, inspect_recovered,
}
use pool.WecSigner.Artifacts.{sign_unless, create_or_recover}
use pool.WecSigner.Pipeline.{
  load_or_reserve, take_record, reserve, resolve, attempt, publish, execute_from, execute_locked,
  guarded, execute, prepare, recover_prepared, inspect_prepared, inspect_found, compare_inspected,
}
use pool.WecSigner.Steps.{Carries, IsSent}
use pool.WecSigner.Conflicts.{IsRefused, execute-IsRefused}
use pool.WecSigner.Executed.{IsExecuted}
use pool.WecSigner.History.{
  Call, executing, inspecting, perform, run, run-Carries, run-one_transaction, run-IsSent,
}
use pool.WecSigner.Lasting.{execute-lasts}

abbrev repeat : ℕ → ℕ → List ℕ
repeat zero b = []
repeat (suc n) b = b ∷ repeat n b

-- The value of a hexadecimal digit.
abbrev digit : ℕ → ℕ
digit b = if ltb b 58 then b - 48 else b - 87

abbrev decode : List ℕ → Option (List ℕ)
decode [] = some []
decode (a ∷ []) = none
decode (a ∷ b ∷ text) = elim (decode text) [
  | none ↦ none
  | some bytes ↦ some ((digit a * 16 + digit b) ∷ bytes)
]

abbrev digest : List ℕ
digest = repeat 32 7

abbrev libraries : Libraries
libraries = record {
  sha256 = λ bytes. digest;
  hex_decode = decode;
  has_whitespace = λ bytes. false;
}

abbrev config : WecSignerConfig
config = record {
  network = testnet;
  journal_directory = record { is_absolute = true; components = normal (repeat 3 97) ∷ [] };
  source_account = 9;
  expected_payout_commitment = repeat 32 1;
  confirmations = 100;
  max_outputs = 50;
  max_fee_zat = 5_000_000;
  limits = record {
    recovery_timeout = 15_000;
    sign_timeout = 300_000;
    inspection_timeout = 30_000;
    broadcast_timeout = 15_000;
    max_response_bytes = 8_388_608;
  };
  transparent_payouts_enabled = true;
}

abbrev output : PayoutOutput
output = record {
  allocation_id = 11;
  canonical_address = repeat 10 98;
  receiver_kind = transparent_receiver;
  amount_zat = 700;
}

abbrev request : WecPayoutRequest
request = record {
  batch = record {
    batch_id = 5;
    asset = wec;
    network = testnet;
    ledger_root = repeat 32 2;
    reconciliation_id = 6;
    maximum_network_fee_zat = 90;
    outputs = output ∷ [];
  };
  source_account = 9;
  fund_source = from_ironwood;
}

abbrev identity : WalletIdentity
identity = record {
  network = wallet_testnet;
  genesis_hash = testnet_genesis_hash;
  branch_id = testnet_branch_id;
  account_id = 9;
  collector_payout_commitment = repeat 32 1;
  fund_source = from_ironwood;
  synchronized = true;
}

abbrev sent_output : WalletOutput
sent_output = record {
  allocation_id = 11;
  canonical_address = repeat 10 98;
  receiver_kind = transparent_receiver;
  amount_zat = 700;
  memo = [];
}

-- Hexadecimal text of 32 bytes, and of one.
abbrev transaction_id : List ℕ
transaction_id = repeat 64 97

abbrev raw : List ℕ
raw = 97 ∷ 98 ∷ []

abbrev transaction : WalletSignedTransaction
transaction = record {
  batch_id = 5;
  request_commitment = digest;
  transaction_id = transaction_id;
  raw_transaction_hex = raw;
  unsigned_digest = repeat 32 3;
  fee_zat = 80;
  target_height = 1_000;
  expiry_height = 1_040;
  stored = true;
  internal_change_receiver_verified = true;
}

abbrev intent : PersistedIntent
intent = record {
  identity = identity;
  batch_id = 5;
  request_commitment = digest;
  ordered_outputs = sent_output ∷ [];
  unsigned_digest = repeat 32 3;
  transaction_id = transaction_id;
  raw_transaction_sha256 = digest;
  fee_zat = 80;
  target_height = 1_000;
  expiry_height = 1_040;
  stored = true;
  internal_change_receiver_verified = true;
}

-- A wallet that has no transaction yet and signs one, and a node that answers.
abbrev answering : Result BroadcastFailure BroadcastOutcome → Surroundings
answering answer = record {
  identity = λ timeout bytes. ok identity;
  recover_exact = λ call. ok none;
  sign_exact = λ call seed. ok transaction;
  inspect_persisted = λ call. ok intent;
  broadcast_exact = λ call. answer;
  seed_metadata = ok tt;
  read_seed = ok (repeat 32 4);
  should_interrupt = λ point. false;
  lock = ok tt;
  read_fault = λ id. none;
  write = λ held. file_replaced;
}

abbrev late : Surroundings
late = answering (err node_timeout)

abbrev good : Surroundings
good = answering (ok (record { transaction_id = transaction_id; disposition = accepted }))

abbrev empty : World
empty = record { journal = []; signings = []; broadcasts = [] }

-- A broadcast that times out, and a retry.
abbrev calls : List Call
calls =
    record { operation = executing; config = config; env = late; request = request }
    ∷ record { operation = executing; config = config; env = good; request = request }
    ∷ record { operation = inspecting; config = config; env = late; request = request }
    ∷ []

abbrev broadcast : WalletBroadcastCall
broadcast = record {
  batch_id = 5;
  request_commitment = digest;
  transaction_id = transaction_id;
  raw_transaction_hex = raw;
  timeout = 15_000;
  max_response_bytes = 8_388_608;
}

timed_out_first : (execute libraries config late request empty).0 ≡ err broadcast_ambiguous
unfolding execute guarded validate_config validate_limits validate_request validate_batch
    validate_outputs batch_commitment wallet_outputs pipeline_commitment execute_locked
    load_or_reserve load find_record take_record reserve persist store validate_stage
    validate_artifact put_record reach execute_from create_or_recover ask_identity verify_identity
    ask_recovery sign_unless sign_exact take_signed inspect verify_signed verify_inspection publish
    attempt broadcast_exact resolve check_record
timed_out_first = refl

abbrev artifact : StoredArtifact
artifact = record {
  raw_transaction_hex = raw;
  transaction_id = transaction_id;
  unsigned_digest = repeat 32 3;
  fee_zat = 80;
  target_height = 1_000;
  expiry_height = 1_040;
}

-- The batch of the request, after the broadcast that timed out.
abbrev held : JournalRecord
held = record {
  batch_id = 5;
  pipeline_commitment = digest;
  portal_commitment = digest;
  output_total_zat = 700;
  stage = broadcast_unresolved artifact;
}

abbrev unresolved : World
unresolved = record { journal = (5, held) ∷ []; signings = []; broadcasts = broadcast ∷ [] }

abbrev executed : WecPayoutExecution
executed = record {
  receipt = record {
    batch_id = 5;
    request_commitment = digest;
    asset = wec;
    transaction_id = transaction_id;
    output_total_zat = 700;
  };
  unsigned_digest = repeat 32 3;
  transaction_id_bytes = repeat 32 170;
  signed_transaction = 171 ∷ [];
  network_fee_zat = 80;
  disposition = accepted;
}

retried : (execute libraries config good request unresolved).0 ≡ ok executed
unfolding execute guarded validate_config validate_limits validate_request validate_batch
    validate_outputs batch_commitment wallet_outputs pipeline_commitment execute_locked
    load_or_reserve load find_record take_record reserve persist store validate_stage
    validate_artifact put_record reach execute_from create_or_recover ask_identity verify_identity
    ask_recovery sign_unless sign_exact take_signed inspect verify_signed verify_inspection publish
    attempt broadcast_exact resolve check_record prepared_from_record execution_from_record
retried = refl

first_broadcast : get_elem? (run libraries empty calls).broadcasts 0 ≡ some broadcast
unfolding execute guarded validate_config validate_limits validate_request validate_batch
    validate_outputs batch_commitment wallet_outputs pipeline_commitment execute_locked
    load_or_reserve load find_record take_record reserve persist store validate_stage
    validate_artifact put_record reach execute_from create_or_recover ask_identity verify_identity
    ask_recovery sign_unless sign_exact take_signed inspect verify_signed verify_inspection publish
    attempt broadcast_exact resolve check_record prepared_from_record execution_from_record run
    perform inspect_prepared inspect_found recover_existing inspect_recovered compare_inspected
first_broadcast = refl

second_broadcast : get_elem? (run libraries empty calls).broadcasts 1 ≡ some broadcast
unfolding execute guarded validate_config validate_limits validate_request validate_batch
    validate_outputs batch_commitment wallet_outputs pipeline_commitment execute_locked
    load_or_reserve load find_record take_record reserve persist store validate_stage
    validate_artifact put_record reach execute_from create_or_recover ask_identity verify_identity
    ask_recovery sign_unless sign_exact take_signed inspect verify_signed verify_inspection publish
    attempt broadcast_exact resolve check_record prepared_from_record execution_from_record run
    perform inspect_prepared inspect_found recover_existing inspect_recovered compare_inspected
second_broadcast = refl

run-one_transaction_example :
    (broadcast.transaction_id ≡ broadcast.transaction_id)
    × (broadcast.raw_transaction_hex ≡ broadcast.raw_transaction_hex)
    × (broadcast.request_commitment ≡ broadcast.request_commitment)
run-one_transaction_example =
    run-one_transaction libraries empty calls 0 1 tt first_broadcast second_broadcast refl

run-IsSent_example : IsSent (run libraries empty calls).journal broadcast
run-IsSent_example = run-IsSent libraries empty calls 1 tt second_broadcast

found_unresolved : find_record 5 unresolved.journal ≡ some held
unfolding find_record
found_unresolved = refl

run-Carries_example :
    (later : JournalRecord) × (find_record 5 (run libraries unresolved calls).journal ≡ some later)
    × Carries held later
run-Carries_example = run-Carries libraries unresolved calls 5 held found_unresolved

execute-lasts_example :
    IsExecuted libraries
      (run libraries (execute libraries config good request unresolved).1 calls).journal
      5
      executed
execute-lasts_example = execute-lasts libraries config good request unresolved calls retried

-- The same batch with another amount.
abbrev changed : WecPayoutRequest
changed = record request {
  batch = record request.batch { outputs = record output { amount_zat = 800 } ∷ [] };
}

abbrev changed_facts : ValidatedRequest
changed_facts = record {
  portal_commitment = digest;
  pipeline_commitment = digest;
  output_total_zat = 800;
  outputs = record sent_output { amount_zat = 800 } ∷ [];
}

changed_valid : validate_request libraries config changed ≡ ok changed_facts
unfolding validate_request validate_batch validate_outputs batch_commitment wallet_outputs
    pipeline_commitment
changed_valid = refl

execute-IsRefused_example :
    IsRefused unresolved (execute libraries config good changed unresolved)
    × IsRefused unresolved (prepare libraries config good changed unresolved)
    × IsRefused unresolved (recover_prepared libraries config good changed unresolved)
    × IsRefused unresolved (inspect_prepared libraries config good changed unresolved)
execute-IsRefused_example =
    execute-IsRefused libraries config good changed unresolved found_unresolved changed_valid refl
