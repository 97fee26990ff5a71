-- ===== src/WecSigner/Wallet.antt =====
-- The boundary to the native wallet, crates/wcash-wec-payout-signer/src/transport.rs.
use pool.Base.{ℕ, List, ◌∷◌, [], Bool, true, false}
use pool.WecSigner.Batch.{ReceiverKind}

pub data WalletNetwork : Type 0 where
  wallet_testnet wallet_regtest wallet_mainnet : WalletNetwork

pub data WalletFundSource : Type 0 where
  from_ironwood from_sapling from_transparent : WalletFundSource

pub record WalletIdentity : Type 0 where
  pub network : WalletNetwork
  pub genesis_hash : List ℕ
  pub branch_id : List ℕ
  pub account_id : ℕ
  pub collector_payout_commitment : List ℕ
  pub fund_source : WalletFundSource
  pub synchronized : Bool

pub record WalletOutput : Type 0 where
  pub allocation_id : ℕ
  pub canonical_address : List ℕ
  pub receiver_kind : ReceiverKind
  pub amount_zat : ℕ
  pub memo : List ℕ

pub record WalletRecoveryCall : Type 0 where
  pub batch_id : ℕ
  pub request_commitment : List ℕ
  pub timeout : ℕ
  pub max_response_bytes : ℕ

pub record WalletSignCall : Type 0 where
  pub batch_id : ℕ
  pub request_commitment : List ℕ
  pub identity : WalletIdentity
  pub outputs : List WalletOutput
  pub confirmations : ℕ
  pub max_fee_zat : ℕ
  pub timeout : ℕ
  pub max_response_bytes : ℕ

pub record WalletSignedTransaction : Type 0 where
  pub batch_id : ℕ
  pub request_commitment : List ℕ
  pub transaction_id : List ℕ
  pub raw_transaction_hex : List ℕ
  pub unsigned_digest : List ℕ
  pub fee_zat : ℕ
  pub target_height : ℕ
  pub expiry_height : ℕ
  pub stored : Bool
  pub internal_change_receiver_verified : Bool

pub record WalletInspectionCall : Type 0 where
  pub batch_id : ℕ
  pub request_commitment : List ℕ
  pub transaction_id : List ℕ
  pub raw_transaction_hex : List ℕ
  pub timeout : ℕ
  pub max_response_bytes : ℕ

pub record PersistedIntent : Type 0 where
  pub identity : WalletIdentity
  pub batch_id : ℕ
  pub request_commitment : List ℕ
  pub ordered_outputs : List WalletOutput
  pub unsigned_digest : List ℕ
  pub transaction_id : List ℕ
  pub raw_transaction_sha256 : List ℕ
  pub fee_zat : ℕ
  pub target_height : ℕ
  pub expiry_height : ℕ
  pub stored : Bool
  pub internal_change_receiver_verified : Bool

pub record WalletBroadcastCall : Type 0 where
  pub batch_id : ℕ
  pub request_commitment : List ℕ
  pub transaction_id : List ℕ
  pub raw_transaction_hex : List ℕ
  pub timeout : ℕ
  pub max_response_bytes : ℕ

pub data BroadcastDisposition : Type 0 where
  accepted already_known : BroadcastDisposition

pub record BroadcastOutcome : Type 0 where
  pub transaction_id : List ℕ
  pub disposition : BroadcastDisposition

pub data BroadcastFailure : Type 0 where
  node_rejected node_timeout node_unavailable node_ambiguous node_violation : BroadcastFailure

abbrev pub testnet_genesis_hash : List ℕ
testnet_genesis_hash =
    54 ∷ 98 ∷ 54 ∷ 54 ∷ 102 ∷ 102 ∷ 102 ∷ 49 ∷ 49 ∷ 57 ∷ 57 ∷ 55 ∷ 55 ∷ 100 ∷ 51 ∷ 54 ∷ 100 ∷ 57
    ∷ 99 ∷ 57 ∷ 56 ∷ 57 ∷ 48 ∷ 57 ∷ 51 ∷ 98 ∷ 53 ∷ 49 ∷ 54 ∷ 97 ∷ 56 ∷ 55 ∷ 54 ∷ 100 ∷ 98 ∷ 102 ∷ 54
    ∷ 53 ∷ 57 ∷ 54 ∷ 53 ∷ 51 ∷ 54 ∷ 55 ∷ 57 ∷ 49 ∷ 102 ∷ 102 ∷ 51 ∷ 53 ∷ 98 ∷ 98 ∷ 52 ∷ 99 ∷ 53 ∷ 56
    ∷ 49 ∷ 101 ∷ 51 ∷ 102 ∷ 100 ∷ 97 ∷ 57 ∷ 56 ∷ []

abbrev pub testnet_branch_id : List ℕ
testnet_branch_id = 53 ∷ 52 ∷ 98 ∷ 97 ∷ 50 ∷ 98 ∷ 102 ∷ 98 ∷ []

abbrev pub mainnet_genesis_hash : List ℕ
mainnet_genesis_hash =
    53 ∷ 98 ∷ 97 ∷ 101 ∷ 49 ∷ 50 ∷ 99 ∷ 56 ∷ 54 ∷ 54 ∷ 50 ∷ 97 ∷ 53 ∷ 55 ∷ 55 ∷ 98 ∷ 48 ∷ 52 ∷ 99
    ∷ 101 ∷ 49 ∷ 53 ∷ 57 ∷ 49 ∷ 97 ∷ 102 ∷ 49 ∷ 97 ∷ 49 ∷ 51 ∷ 55 ∷ 99 ∷ 49 ∷ 50 ∷ 56 ∷ 102 ∷ 48
    ∷ 99 ∷ 98 ∷ 53 ∷ 49 ∷ 48 ∷ 49 ∷ 56 ∷ 97 ∷ 53 ∷ 102 ∷ 49 ∷ 54 ∷ 50 ∷ 50 ∷ 100 ∷ 56 ∷ 54 ∷ 49
    ∷ 100 ∷ 49 ∷ 98 ∷ 98 ∷ 54 ∷ 102 ∷ 99 ∷ 52 ∷ 56 ∷ []

abbrev pub mainnet_branch_id : List ℕ
mainnet_branch_id = 100 ∷ 57 ∷ 99 ∷ 54 ∷ 97 ∷ 55 ∷ 101 ∷ 101 ∷ []

-- The derived equalities.
abbrev pub same_network : WalletNetwork → WalletNetwork → Bool
same_network wallet_testnet wallet_testnet = true
same_network wallet_testnet wallet_regtest = false
same_network wallet_testnet wallet_mainnet = false
same_network wallet_regtest wallet_testnet = false
same_network wallet_regtest wallet_regtest = true
same_network wallet_regtest wallet_mainnet = false
same_network wallet_mainnet wallet_testnet = false
same_network wallet_mainnet wallet_regtest = false
same_network wallet_mainnet wallet_mainnet = true

abbrev pub is_ironwood : WalletFundSource → Bool
is_ironwood from_ironwood = true
is_ironwood from_sapling = false
is_ironwood from_transparent = false
