-- ===== src/WecSigner/Portal.antt =====
-- The portal's view of the signer: `readiness`, `map_portal_error` and the implementation of
-- `IsolatedPayoutSigner` of crates/wcash-wec-payout-signer/src/pipeline.rs.
use pool.Base.{Result, ok, err, ◌>>=◌, ◌>>◌}
use pool.WecSigner.{
  Libraries, WecPayoutError, map_readonly_wallet_error, invalid_request, wrong_asset, wrong_network,
  wrong_account, wrong_fund_source, unsafe_credential, idempotency_conflict, journal_unavailable,
  journal_corrupt, wallet_unavailable, wallet_rejected, wallet_protocol_violation, wallet_ambiguous,
  broadcast_rejected, broadcast_ambiguous, interrupted,
}
use pool.WecSigner.Batch.{
  PayoutBatchRequest, BroadcastReceipt, SignerError, network_refused, batch_conflict,
  ambiguous_broadcast, payout_refused,
}
use pool.WecSigner.Wallet.{from_ironwood}
use pool.WecSigner.Config.{WecSignerConfig, validate_config}
use pool.WecSigner.Verify.{WecPayoutExecution, verify_identity}
use pool.WecSigner.Machine.{Surroundings, World, map_error}
use pool.WecSigner.Pipeline.{execute}

-- `WecPayoutSigner::readiness`.
pub readiness : WecSignerConfig → Surroundings → Result WecPayoutError (Unit {0})
readiness config env = do
  validate_config config
  env.seed_metadata
  identity ←
      map_error (env.identity config.limits.recovery_timeout config.limits.max_response_bytes)
        map_readonly_wallet_error
  verify_identity config identity

abbrev pub map_portal_error : WecPayoutError → SignerError
map_portal_error wrong_network = network_refused
map_portal_error idempotency_conflict = batch_conflict
map_portal_error broadcast_ambiguous = ambiguous_broadcast
map_portal_error wallet_ambiguous = ambiguous_broadcast
map_portal_error broadcast_rejected = payout_refused
map_portal_error wallet_rejected = payout_refused
map_portal_error invalid_request = payout_refused
map_portal_error wrong_asset = payout_refused
map_portal_error wrong_account = payout_refused
map_portal_error wrong_fund_source = payout_refused
map_portal_error unsafe_credential = payout_refused
map_portal_error journal_unavailable = payout_refused
map_portal_error journal_corrupt = payout_refused
map_portal_error wallet_unavailable = payout_refused
map_portal_error wallet_protocol_violation = payout_refused
map_portal_error interrupted = payout_refused

abbrev pub receipt_of :
    Result WecPayoutError WecPayoutExecution × World → Result SignerError BroadcastReceipt × World
receipt_of (ok x, w) = (ok x.receipt, w)
receipt_of (err e, w) = (err (map_portal_error e), w)

unfoldable pub sign_and_broadcast :
    Libraries
    → WecSignerConfig
    → Surroundings
    → PayoutBatchRequest
    → World
    → Result SignerError BroadcastReceipt × World
sign_and_broadcast lib config env batch w = receipt_of (
    execute lib config env
      (record {
        batch = batch;
        source_account = config.source_account;
        fund_source = from_ironwood;
      })
      w)
