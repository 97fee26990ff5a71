-- ===== src/WecSigner/Verify.antt =====
-- The checks of the wallet's answers, and the results made of a record, of
-- crates/wcash-wec-payout-signer/src/pipeline.rs.
use pool.Base.{
  ℕ, ◌-◌, ◌%◌, Bool, true, false, not, ◌&&◌, ◌||◌, List, [], ◌∷◌, ltb, leb, ◌==◌, Result, ok, err,
  ◌>>=◌, ◌>>◌, fail_if, ok_or, length,
}
use pool.Jobs.{all_zero, same_bytes}
use pool.WecSigner.{
  Libraries, WecPayoutError, wrong_network, wrong_account, wrong_fund_source, wallet_unavailable,
  wallet_protocol_violation, journal_corrupt,
}
use pool.WecSigner.Batch.{BroadcastReceipt, wec, same_kind}
use pool.WecSigner.Wallet.{
  WalletIdentity, WalletOutput, WalletSignedTransaction, PersistedIntent, BroadcastDisposition,
  same_network, is_ironwood,
}
use pool.WecSigner.Config.{WecSignerConfig, wallet_network, genesis_hash, branch_id}
use pool.WecSigner.Journal.{
  JournalRecord, artifact_of, all_lower_hex, max_raw_transaction_hex_bytes,
}
use pool.WecSigner.Requests.{WecPayoutRequest, ValidatedRequest}

abbrev pub max_expiry_delta : ℕ
max_expiry_delta = 100

unfoldable pub verify_identity : WecSignerConfig → WalletIdentity → Result WecPayoutError (Unit {0})
verify_identity config identity = do
  fail_if
      (not (same_network identity.network (wallet_network config.network))
        || not (same_bytes identity.genesis_hash (genesis_hash config.network))
        || not (same_bytes identity.branch_id (branch_id config.network)))
      wrong_network
  fail_if (not (identity.account_id == config.source_account)) wrong_account
  fail_if (not (same_bytes identity.collector_payout_commitment config.expected_payout_commitment))
      wrong_account
  fail_if (not (is_ironwood identity.fund_source)) wrong_fund_source
  fail_if (not identity.synchronized) wallet_unavailable

abbrev pub valid_transaction_id : List ℕ → Bool
valid_transaction_id value = length value == 64 && all_lower_hex value

abbrev pub valid_raw_transaction : List ℕ → Bool
valid_raw_transaction value =
    not (length value == 0)
    && leb (length value) max_raw_transaction_hex_bytes
    && length value % 2 == 0
    && all_lower_hex value

-- `checked_sub` and the range of the delta.
abbrev pub valid_expiry : WalletSignedTransaction → Bool
valid_expiry s =
    leb s.target_height s.expiry_height
    && leb 1 (s.expiry_height - s.target_height)
    && leb (s.expiry_height - s.target_height) max_expiry_delta

unfoldable pub verify_signed :
    WalletSignedTransaction → WecPayoutRequest → ValidatedRequest → Result WecPayoutError (Unit {0})
verify_signed s request validated =
    fail_if
      (not (s.batch_id == request.batch.batch_id)
        || not (same_bytes s.request_commitment validated.pipeline_commitment)
        || not (valid_transaction_id s.transaction_id)
        || not (valid_raw_transaction s.raw_transaction_hex)
        || all_zero s.unsigned_digest
        || s.fee_zat == 0
        || ltb request.batch.maximum_network_fee_zat s.fee_zat
        || s.target_height == 0
        || not (valid_expiry s)
        || not s.stored
        || not s.internal_change_receiver_verified)
      wallet_protocol_violation

-- The derived equality of outputs.
abbrev pub same_output : WalletOutput → WalletOutput → Bool
same_output a b =
    a.allocation_id == b.allocation_id
    && same_bytes a.canonical_address b.canonical_address
    && same_kind a.receiver_kind b.receiver_kind
    && a.amount_zat == b.amount_zat
    && same_bytes a.memo b.memo

abbrev pub same_outputs : List WalletOutput → List WalletOutput → Bool
same_outputs [] [] = true
same_outputs [] (b ∷ bs) = false
same_outputs (a ∷ as_) [] = false
same_outputs (a ∷ as_) (b ∷ bs) = same_output a b && same_outputs as_ bs

-- `map_err(|_| error)`.
abbrev pub or_error {ℓ κ} :
    {E : Type ℓ} {A : Type κ} → Result E A → WecPayoutError → Result WecPayoutError A
or_error (ok a) e = ok a
or_error (err x) e = err e

unfoldable pub verify_inspection :
    Libraries
    → WecSignerConfig
    → PersistedIntent
    → WalletSignedTransaction
    → WecPayoutRequest
    → ValidatedRequest
    → Result WecPayoutError (Unit {0})
verify_inspection lib config inspected s request validated = do
  or_error (verify_identity config inspected.identity) wallet_protocol_violation
  raw ← ok_or (lib.hex_decode s.raw_transaction_hex) wallet_protocol_violation
  fail_if
      (not (inspected.batch_id == request.batch.batch_id)
        || not (same_bytes inspected.request_commitment validated.pipeline_commitment)
        || not (same_outputs inspected.ordered_outputs validated.outputs)
        || not (same_bytes inspected.unsigned_digest s.unsigned_digest)
        || not (same_bytes inspected.transaction_id s.transaction_id)
        || not (same_bytes inspected.raw_transaction_sha256 (lib.sha256 raw))
        || not (inspected.fee_zat == s.fee_zat)
        || not (inspected.target_height == s.target_height)
        || not (inspected.expiry_height == s.expiry_height)
        || not inspected.stored
        || not inspected.internal_change_receiver_verified)
      wallet_protocol_violation

pub record WecPreparedPayout : Type 0 where
  pub receipt : BroadcastReceipt
  pub unsigned_digest : List ℕ
  pub transaction_id_bytes : List ℕ
  pub signed_transaction : List ℕ
  pub network_fee_zat : ℕ
  pub target_height : ℕ
  pub expiry_height : ℕ

pub record WecPayoutExecution : Type 0 where
  pub receipt : BroadcastReceipt
  pub unsigned_digest : List ℕ
  pub transaction_id_bytes : List ℕ
  pub signed_transaction : List ℕ
  pub network_fee_zat : ℕ
  pub disposition : BroadcastDisposition

unfoldable pub prepared_from_record :
    Libraries → JournalRecord → Result WecPayoutError WecPreparedPayout
prepared_from_record lib held = do
  a ← ok_or (artifact_of held.stage) journal_corrupt
  signed_transaction ← ok_or (lib.hex_decode a.raw_transaction_hex) journal_corrupt
  transaction_id ← ok_or (lib.hex_decode a.transaction_id) journal_corrupt
  fail_if (not (length transaction_id == 32)) journal_corrupt
  ok (record {
    receipt = record {
      batch_id = held.batch_id;
      request_commitment = held.portal_commitment;
      asset = wec;
      transaction_id = a.transaction_id;
      output_total_zat = held.output_total_zat;
    };
    unsigned_digest = a.unsigned_digest;
    transaction_id_bytes = transaction_id;
    signed_transaction = signed_transaction;
    network_fee_zat = a.fee_zat;
    target_height = a.target_height;
    expiry_height = a.expiry_height;
  })

unfoldable pub execution_from_record :
    Libraries → JournalRecord → BroadcastDisposition → Result WecPayoutError WecPayoutExecution
execution_from_record lib held disposition = do
  payout ← prepared_from_record lib held
  ok (record {
    receipt = payout.receipt;
    unsigned_digest = payout.unsigned_digest;
    transaction_id_bytes = payout.transaction_id_bytes;
    signed_transaction = payout.signed_transaction;
    network_fee_zat = payout.network_fee_zat;
    disposition = disposition;
  })
