-- ===== src/WecSigner/Artifacts.antt =====
-- `create_or_recover` of crates/wcash-wec-payout-signer/src/pipeline.rs: the transaction of a batch,
-- which the wallet has or is asked to sign.
use pool.Base.{Option, none, some, ok}
use pool.WecSigner.{Libraries}
use pool.WecSigner.Wallet.{WalletIdentity, WalletSignedTransaction, WalletSignCall}
use pool.WecSigner.Config.{WecSignerConfig}
use pool.WecSigner.Journal.{StoredArtifact}
use pool.WecSigner.Requests.{WecPayoutRequest, ValidatedRequest}
use pool.WecSigner.Machine.{Surroundings, Run, ◌>>=◌, lift, sign_exact}
use pool.WecSigner.Asking.{ask_identity, ask_recovery, take_signed, inspect}

module _ (lib : Libraries) (config : WecSignerConfig) (env : Surroundings)
    (request : WecPayoutRequest) (validated : ValidatedRequest) where
  abbrev pub sign_call : WalletIdentity → WalletSignCall
  sign_call identity = record {
    batch_id = request.batch.batch_id;
    request_commitment = validated.pipeline_commitment;
    identity = identity;
    outputs = validated.outputs;
    confirmations = config.confirmations;
    max_fee_zat = request.batch.maximum_network_fee_zat;
    timeout = config.limits.sign_timeout;
    max_response_bytes = config.limits.max_response_bytes;
  }

  -- The transaction that was recovered, or a new one.
  unfoldable pub sign_unless :
      WalletIdentity → Option WalletSignedTransaction → Run WalletSignedTransaction
  sign_unless identity (some s) = lift (ok s)
  sign_unless identity none = do
    seed ← lift env.read_seed
    answer ← sign_exact env (sign_call identity) seed
    lift (take_signed env answer)

  unfoldable pub create_or_recover : Run StoredArtifact
  create_or_recover = do
    identity ← lift (ask_identity config env)
    recovered ← lift (ask_recovery lib config env request validated)
    s ← sign_unless identity recovered
    lift (inspect lib config env request validated s)
