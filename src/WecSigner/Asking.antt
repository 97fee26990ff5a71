-- ===== src/WecSigner/Asking.antt =====
-- The steps of crates/wcash-wec-payout-signer/src/pipeline.rs that only ask the wallet: what they
-- return, given its answers and the interruptions.
use pool.Base.{Option, none, some, Result, ok, ◌>>=◌, ◌>>◌}
use pool.WecSigner.{
  Libraries, WecPayoutError, NativeWalletError, map_readonly_wallet_error, map_recovery_error,
  map_signing_error, map_inspection_error,
}
use pool.WecSigner.Wallet.{WalletIdentity, WalletSignedTransaction}
use pool.WecSigner.Config.{WecSignerConfig}
use pool.WecSigner.Journal.{StoredArtifact}
use pool.WecSigner.Requests.{WecPayoutRequest, ValidatedRequest}
use pool.WecSigner.Verify.{verify_identity, verify_signed, verify_inspection}
use pool.WecSigner.Machine.{
  Surroundings, map_error, reach, identity_returned, recovery_returned, signing_returned,
  inspection_returned,
}

abbrev pub to_artifact : WalletSignedTransaction → StoredArtifact
to_artifact s = record {
  raw_transaction_hex = s.raw_transaction_hex;
  transaction_id = s.transaction_id;
  unsigned_digest = s.unsigned_digest;
  fee_zat = s.fee_zat;
  target_height = s.target_height;
  expiry_height = s.expiry_height;
}

-- The wallet's identity, verified.
unfoldable pub ask_identity : WecSignerConfig → Surroundings → Result WecPayoutError WalletIdentity
ask_identity config env = do
  identity ←
      map_error (env.identity config.limits.recovery_timeout config.limits.max_response_bytes)
        map_readonly_wallet_error
  verify_identity config identity
  reach env identity_returned
  ok identity

-- The answer to a request to sign.
unfoldable pub take_signed :
    Surroundings
    → Result NativeWalletError WalletSignedTransaction
    → Result WecPayoutError WalletSignedTransaction
take_signed env answer = do s ← map_error answer map_signing_error; reach env signing_returned; ok s

module _ (lib : Libraries) (config : WecSignerConfig) (env : Surroundings)
    (request : WecPayoutRequest) (validated : ValidatedRequest) where
  unfoldable pub ask_recovery : Result WecPayoutError (Option WalletSignedTransaction)
  ask_recovery = do
    recovered ←
        map_error
          (env.recover_exact (record {
            batch_id = request.batch.batch_id;
            request_commitment = validated.pipeline_commitment;
            timeout = config.limits.recovery_timeout;
            max_response_bytes = config.limits.max_response_bytes;
          }))
          map_recovery_error
    reach env recovery_returned
    ok recovered

  -- The verification of a signed transaction, against the wallet's own record of it.
  unfoldable pub inspect : WalletSignedTransaction → Result WecPayoutError StoredArtifact
  inspect s = do
    verify_signed s request validated
    inspected ←
        map_error
          (env.inspect_persisted (record {
            batch_id = request.batch.batch_id;
            request_commitment = validated.pipeline_commitment;
            transaction_id = s.transaction_id;
            raw_transaction_hex = s.raw_transaction_hex;
            timeout = config.limits.inspection_timeout;
            max_response_bytes = config.limits.max_response_bytes;
          }))
          map_inspection_error
    verify_inspection lib config inspected s request validated
    reach env inspection_returned
    ok (to_artifact s)

  -- The end of `recover_existing`: nothing to inspect where nothing is recovered.
  unfoldable pub inspect_recovered :
      Option WalletSignedTransaction → Result WecPayoutError (Option StoredArtifact)
  inspect_recovered none = ok none
  inspect_recovered (some s) = do a ← inspect s; ok (some a)

  unfoldable pub recover_existing : Result WecPayoutError (Option StoredArtifact)
  recover_existing = do
    _ ← ask_identity config env
    recovered ← ask_recovery
    inspect_recovered recovered
