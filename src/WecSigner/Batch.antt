-- ===== src/WecSigner/Batch.antt =====
-- The payout batch of crates/wcash-pool-portal/src/signer.rs, with the enumerations of
-- crates/wcash-pool-portal/src/model.rs.
use pool.Base.{
  ℕ, ◌+◌, Bool, true, false, ◌||◌, List, [], ◌∷◌, ◌++◌, ltb, leb, ◌==◌, if◌then◌else◌, Result, ok,
  err, ◌>>=◌, ◌>>◌, fail_if, length, contains, u64_mod,
}
use pool.Base.Bytes.{to_be_bytes}
use pool.Jobs.{all_zero}
use pool.WecSigner.{Libraries}

pub data Asset : Type 0 where
  wec zec : Asset

pub data ChainNetwork : Type 0 where
  testnet mainnet : ChainNetwork

pub data ReceiverKind : Type 0 where
  transparent_receiver ironwood_receiver : ReceiverKind

abbrev pub same_kind : ReceiverKind → ReceiverKind → Bool
same_kind transparent_receiver transparent_receiver = true
same_kind transparent_receiver ironwood_receiver = false
same_kind ironwood_receiver transparent_receiver = false
same_kind ironwood_receiver ironwood_receiver = true

pub record PayoutOutput : Type 0 where
  pub allocation_id : ℕ
  pub canonical_address : List ℕ
  pub receiver_kind : ReceiverKind
  pub amount_zat : ℕ

pub record PayoutBatchRequest : Type 0 where
  pub batch_id : ℕ
  pub asset : Asset
  pub network : ChainNetwork
  pub ledger_root : List ℕ
  pub reconciliation_id : ℕ
  pub maximum_network_fee_zat : ℕ
  pub outputs : List PayoutOutput

pub data SignerError : Type 0 where
  not_configured invalid_batch network_refused batch_conflict : SignerError
  ambiguous_broadcast payout_refused readiness_timeout : SignerError

abbrev pub max_payout_outputs : ℕ
max_payout_outputs = 200

-- "zecwec/payout-batch/v2".
abbrev pub payout_commitment_domain : List ℕ
payout_commitment_domain =
    122 ∷ 101 ∷ 99 ∷ 119 ∷ 101 ∷ 99 ∷ 47 ∷ 112 ∷ 97 ∷ 121 ∷ 111 ∷ 117 ∷ 116 ∷ 45 ∷ 98 ∷ 97 ∷ 116
    ∷ 99 ∷ 104 ∷ 47 ∷ 118 ∷ 50 ∷ []

-- The bytes of a `Uuid`.
abbrev pub uuid_bytes : ℕ → List ℕ
uuid_bytes id = to_be_bytes 16 id

module _ (lib : Libraries) where
  abbrev pub output_refused : List ℕ → PayoutOutput → Bool
  output_refused allocation_ids output =
      output.allocation_id == 0
      || contains output.allocation_id allocation_ids
      || output.amount_zat == 0
      || ltb (length output.canonical_address) 8
      || ltb 512 (length output.canonical_address)
      || lib.has_whitespace output.canonical_address

  -- The loop of `validate`, with the identifiers seen and the total so far.
  unfoldable pub validate_outputs : List ℕ → ℕ → List PayoutOutput → Result SignerError ℕ
  validate_outputs allocation_ids total [] = ok total
  validate_outputs allocation_ids total (output ∷ outputs) =
      let rest =
        validate_outputs (output.allocation_id ∷ allocation_ids) (total + output.amount_zat)
          outputs in
      if output_refused allocation_ids output || leb u64_mod (total + output.amount_zat)
      then err invalid_batch
      else rest

  -- `PayoutBatchRequest::validate`.
  unfoldable pub validate_batch : PayoutBatchRequest → Result SignerError ℕ
  validate_batch batch = do
    fail_if
        (batch.batch_id == 0
          || batch.reconciliation_id == 0
          || all_zero batch.ledger_root
          || batch.maximum_network_fee_zat == 0)
        invalid_batch
    fail_if (length batch.outputs == 0 || ltb max_payout_outputs (length batch.outputs))
        invalid_batch
    validate_outputs [] 0 batch.outputs

abbrev pub asset_tag : Asset → ℕ
asset_tag wec = 1
asset_tag zec = 2

abbrev pub network_tag : ChainNetwork → ℕ
network_tag testnet = 1
network_tag mainnet = 2

abbrev pub kind_tag : ReceiverKind → ℕ
kind_tag transparent_receiver = 1
kind_tag ironwood_receiver = 2

-- What a loop of `commitment` hashes of an output. An address has at most 512 bytes, which fits in
-- a u16.
abbrev pub output_bytes : PayoutOutput → List ℕ
output_bytes output =
    uuid_bytes output.allocation_id
    ++ kind_tag output.receiver_kind ∷ to_be_bytes 8 output.amount_zat
    ++ to_be_bytes 2 (length output.canonical_address)
    ++ output.canonical_address

abbrev pub outputs_bytes : List PayoutOutput → List ℕ
outputs_bytes [] = []
outputs_bytes (output ∷ outputs) = output_bytes output ++ outputs_bytes outputs

-- What `commitment` hashes of a batch, whose outputs are at most 200.
abbrev pub batch_bytes : PayoutBatchRequest → List ℕ
batch_bytes batch =
    payout_commitment_domain
    ++ uuid_bytes batch.batch_id
    ++ asset_tag batch.asset ∷ network_tag batch.network ∷ batch.ledger_root
    ++ uuid_bytes batch.reconciliation_id
    ++ to_be_bytes 8 batch.maximum_network_fee_zat
    ++ to_be_bytes 2 (length batch.outputs)
    ++ outputs_bytes batch.outputs

-- `PayoutBatchRequest::commitment`.
unfoldable pub batch_commitment : Libraries → PayoutBatchRequest → Result SignerError (List ℕ)
batch_commitment lib batch = do _ ← validate_batch lib batch; ok (lib.sha256 (batch_bytes batch))

pub record BroadcastReceipt : Type 0 where
  pub batch_id : ℕ
  pub request_commitment : List ℕ
  pub asset : Asset
  pub transaction_id : List ℕ
  pub output_total_zat : ℕ
