-- ===== src/WecSigner.antt =====
-- The signer of WEC payouts, crates/wcash-wec-payout-signer: the error types and the code that is
-- not under src. A [u8; 32] and a string are lists of bytes, a `Uuid` is the number of its bytes, a
-- `Duration` is its milliseconds. The regtest feature is off.
pub mod Batch
pub mod Wallet
pub mod Config
pub mod Journal
pub mod Requests
pub mod Verify
pub mod Machine
pub mod Asking
pub mod Artifacts
pub mod Pipeline
pub mod Steps
pub mod Writes
pub mod Quiet
pub mod Attempts
pub mod Operations
pub mod Batches
pub mod Conflicts
pub mod Executed
pub mod History
pub mod Lasting
pub mod Portal
mod Tests
use pool.Base.{ℕ, Bool, List, Option}

pub data WecPipelineStage : Type 0 where
  stage_reserved stage_signed stage_broadcast_unresolved : WecPipelineStage
  stage_rejected stage_completed : WecPipelineStage

pub data WecPayoutError : Type 0 where
  invalid_request wrong_asset wrong_network wrong_account wrong_fund_source : WecPayoutError
  unsafe_credential idempotency_conflict journal_unavailable journal_corrupt : WecPayoutError
  wallet_unavailable wallet_rejected wallet_protocol_violation wallet_ambiguous : WecPayoutError
  broadcast_rejected broadcast_ambiguous interrupted : WecPayoutError

pub data NativeWalletError : Type 0 where
  timed_out unavailable refused conflicting ambiguous violation : NativeWalletError

abbrev pub map_readonly_wallet_error : NativeWalletError → WecPayoutError
map_readonly_wallet_error conflicting = idempotency_conflict
map_readonly_wallet_error refused = wallet_protocol_violation
map_readonly_wallet_error violation = wallet_protocol_violation
map_readonly_wallet_error timed_out = wallet_unavailable
map_readonly_wallet_error unavailable = wallet_unavailable
map_readonly_wallet_error ambiguous = wallet_unavailable

abbrev pub map_recovery_error : NativeWalletError → WecPayoutError
map_recovery_error conflicting = idempotency_conflict
map_recovery_error violation = wallet_protocol_violation
map_recovery_error refused = wallet_protocol_violation
map_recovery_error timed_out = wallet_ambiguous
map_recovery_error unavailable = wallet_ambiguous
map_recovery_error ambiguous = wallet_ambiguous

abbrev pub map_signing_error : NativeWalletError → WecPayoutError
map_signing_error conflicting = idempotency_conflict
map_signing_error refused = wallet_rejected
map_signing_error violation = wallet_protocol_violation
map_signing_error timed_out = wallet_ambiguous
map_signing_error unavailable = wallet_ambiguous
map_signing_error ambiguous = wallet_ambiguous

abbrev pub map_inspection_error : NativeWalletError → WecPayoutError
map_inspection_error conflicting = idempotency_conflict
map_inspection_error violation = wallet_protocol_violation
map_inspection_error refused = wallet_protocol_violation
map_inspection_error timed_out = wallet_unavailable
map_inspection_error unavailable = wallet_unavailable
map_inspection_error ambiguous = wallet_unavailable

-- What the signer calls of other packages: SHA-256, the decoding of hexadecimal text, and whether a
-- string has a white-space character.
pub record Libraries : Type 0 where
  pub sha256 : List ℕ → List ℕ
  pub hex_decode : List ℕ → Option (List ℕ)
  pub has_whitespace : List ℕ → Bool
