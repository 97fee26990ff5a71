-- ===== src/WecSigner/Config.antt =====
-- The policy of one signer, crates/wcash-wec-payout-signer/src/config.rs. The journal's directory is
-- what `std::path` says of it.
use pool.Base.{
  ℕ, Bool, true, false, not, ◌&&◌, ◌||◌, List, [], ◌∷◌, ltb, leb, ◌==◌, Result, ◌>>◌, fail_if,
}
use pool.Jobs.{all_zero}
use pool.WecSigner.{WecPayoutError, invalid_request}
use pool.WecSigner.Batch.{ChainNetwork, testnet, mainnet}
use pool.WecSigner.Wallet.{
  WalletNetwork, wallet_testnet, wallet_mainnet, testnet_genesis_hash, mainnet_genesis_hash,
  testnet_branch_id, mainnet_branch_id,
}

abbrev pub min_confirmations : ℕ
min_confirmations = 100

abbrev pub max_native_outputs : ℕ
max_native_outputs = 100

abbrev pub max_fee_limit_zat : ℕ
max_fee_limit_zat = 100_000_000

pub record NativeCallLimits : Type 0 where
  pub recovery_timeout : ℕ
  pub sign_timeout : ℕ
  pub inspection_timeout : ℕ
  pub broadcast_timeout : ℕ
  pub max_response_bytes : ℕ

-- `NativeCallLimits::validate`.
unfoldable pub validate_limits : NativeCallLimits → Result WecPayoutError (Unit {0})
validate_limits l =
    fail_if
      (l.recovery_timeout == 0
        || ltb 60_000 l.recovery_timeout
        || l.sign_timeout == 0
        || ltb 600_000 l.sign_timeout
        || l.inspection_timeout == 0
        || ltb 60_000 l.inspection_timeout
        || l.broadcast_timeout == 0
        || ltb 60_000 l.broadcast_timeout
        || not (leb 1_024 l.max_response_bytes && leb l.max_response_bytes 16_777_216))
      invalid_request

pub data PathComponent : Type 0 where
  cur_dir parent_dir : PathComponent
  normal : List ℕ → PathComponent

pub record JournalPath : Type 0 where
  pub is_absolute : Bool
  pub components : List PathComponent

-- `components().any(|component| matches!(component, CurDir | ParentDir))`.
abbrev pub has_relative : List PathComponent → Bool
has_relative [] = false
has_relative (cur_dir ∷ components) = true
has_relative (parent_dir ∷ components) = true
has_relative (normal name ∷ components) = has_relative components

pub record WecSignerConfig : Type 0 where
  pub network : ChainNetwork
  pub journal_directory : JournalPath
  pub source_account : ℕ
  pub expected_payout_commitment : List ℕ
  pub confirmations : ℕ
  pub max_outputs : ℕ
  pub max_fee_zat : ℕ
  pub limits : NativeCallLimits
  pub transparent_payouts_enabled : Bool

-- `WecSignerConfig::validate`.
unfoldable pub validate_config : WecSignerConfig → Result WecPayoutError (Unit {0})
validate_config c = do
  validate_limits c.limits
  fail_if
      (not c.journal_directory.is_absolute
        || has_relative c.journal_directory.components
        || c.source_account == 0
        || all_zero c.expected_payout_commitment
        || ltb c.confirmations min_confirmations
        || not (leb 1 c.max_outputs && leb c.max_outputs max_native_outputs)
        || c.max_fee_zat == 0
        || ltb max_fee_limit_zat c.max_fee_zat)
      invalid_request

abbrev pub wallet_network : ChainNetwork → WalletNetwork
wallet_network mainnet = wallet_mainnet
wallet_network testnet = wallet_testnet

abbrev pub genesis_hash : ChainNetwork → List ℕ
genesis_hash mainnet = mainnet_genesis_hash
genesis_hash testnet = testnet_genesis_hash

abbrev pub branch_id : ChainNetwork → List ℕ
branch_id mainnet = mainnet_branch_id
branch_id testnet = testnet_branch_id
