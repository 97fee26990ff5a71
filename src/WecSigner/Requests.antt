-- ===== src/WecSigner/Requests.antt =====
-- `validate_request` of crates/wcash-wec-payout-signer/src/pipeline.rs, with the commitment and the
-- memos that bind a batch.
use pool.Base.{
  ℕ, ◌+◌, Bool, true, false, not, ◌||◌, List, [], ◌∷◌, ◌++◌, ltb, leb, ◌==◌, if◌then◌else◌, Result,
  ok, err, ◌>>=◌, ◌>>◌, fail_if, length, u64_mod,
}
use pool.Base.Bytes.{to_be_bytes}
use pool.WecSigner.{
  Libraries, WecPayoutError, invalid_request, wrong_asset, wrong_network, wrong_account,
  wrong_fund_source,
}
use pool.WecSigner.Batch.{
  Asset, wec, zec, ChainNetwork, testnet, mainnet, ReceiverKind, transparent_receiver,
  ironwood_receiver, PayoutOutput, PayoutBatchRequest, SignerError, same_kind, uuid_bytes,
  validate_batch, batch_commitment,
}
use pool.WecSigner.Wallet.{
  WalletFundSource, from_ironwood, from_sapling, from_transparent, WalletOutput, is_ironwood,
}
use pool.WecSigner.Config.{WecSignerConfig, genesis_hash, branch_id}

pub record WecPayoutRequest : Type 0 where
  pub batch : PayoutBatchRequest
  pub source_account : ℕ
  pub fund_source : WalletFundSource

pub record ValidatedRequest : Type 0 where
  pub portal_commitment : List ℕ
  pub pipeline_commitment : List ℕ
  pub output_total_zat : ℕ
  pub outputs : List WalletOutput

abbrev pub max_wec_zat : ℕ
max_wec_zat = 2_100_000_000_000_000

-- "zecwec/wec-payout-pipeline/v2".
abbrev pub pipeline_commitment_domain : List ℕ
pipeline_commitment_domain =
    122 ∷ 101 ∷ 99 ∷ 119 ∷ 101 ∷ 99 ∷ 47 ∷ 119 ∷ 101 ∷ 99 ∷ 45 ∷ 112 ∷ 97 ∷ 121 ∷ 111 ∷ 117 ∷ 116
    ∷ 45 ∷ 112 ∷ 105 ∷ 112 ∷ 101 ∷ 108 ∷ 105 ∷ 110 ∷ 101 ∷ 47 ∷ 118 ∷ 50 ∷ []

-- "ZECWEC-WEC-PAYOUT-V1".
abbrev pub output_memo_domain : List ℕ
output_memo_domain =
    90 ∷ 69 ∷ 67 ∷ 87 ∷ 69 ∷ 67 ∷ 45 ∷ 87 ∷ 69 ∷ 67 ∷ 45 ∷ 80 ∷ 65 ∷ 89 ∷ 79 ∷ 85 ∷ 84 ∷ 45 ∷ 86
    ∷ 49 ∷ []

abbrev pub is_wec : Asset → Bool
is_wec wec = true
is_wec zec = false

abbrev pub same_chain : ChainNetwork → ChainNetwork → Bool
same_chain testnet testnet = true
same_chain testnet mainnet = false
same_chain mainnet testnet = false
same_chain mainnet mainnet = true

abbrev pub is_transparent : ReceiverKind → Bool
is_transparent transparent_receiver = true
is_transparent ironwood_receiver = false

abbrev pub fund_source_tag : WalletFundSource → ℕ
fund_source_tag from_ironwood = 1
fund_source_tag from_sapling = 2
fund_source_tag from_transparent = 3

unfoldable pub pipeline_commitment :
    Libraries → WecPayoutRequest → List ℕ → WecSignerConfig → List ℕ
pipeline_commitment lib request portal_commitment config = lib.sha256 (
    pipeline_commitment_domain
    ++ portal_commitment
    ++ uuid_bytes request.source_account
    ++ config.expected_payout_commitment
    ++ fund_source_tag request.fund_source ∷ to_be_bytes 4 config.confirmations
    ++ to_be_bytes 8 config.max_fee_zat
    ++ genesis_hash config.network
    ++ branch_id config.network)

unfoldable pub output_memo : ℕ → List ℕ → ℕ → ℕ → Result WecPayoutError (List ℕ)
output_memo batch_id portal_commitment allocation_id ordinal =
    if leb 65_536 ordinal
    then err invalid_request
    else ok (
        output_memo_domain
        ++ 0 ∷ uuid_bytes batch_id
        ++ portal_commitment
        ++ uuid_bytes allocation_id
        ++ to_be_bytes 2 ordinal)

abbrev pub memo_for : ℕ → List ℕ → PayoutOutput → ℕ → Result WecPayoutError (List ℕ)
memo_for batch_id portal_commitment output ordinal =
    if is_transparent output.receiver_kind
    then ok []
    else output_memo batch_id portal_commitment output.allocation_id ordinal

-- The outputs handed to the wallet, from an ordinal on.
unfoldable pub wallet_outputs :
    ℕ → List ℕ → ℕ → List PayoutOutput → Result WecPayoutError (List WalletOutput)
wallet_outputs batch_id portal_commitment ordinal [] = ok []
wallet_outputs batch_id portal_commitment ordinal (output ∷ outputs) =
    let rest = wallet_outputs batch_id portal_commitment (ordinal + 1) outputs in
    do
      memo ← memo_for batch_id portal_commitment output ordinal
      others ← rest
      ok (
          record {
            allocation_id = output.allocation_id;
            canonical_address = output.canonical_address;
            receiver_kind = output.receiver_kind;
            amount_zat = output.amount_zat;
            memo = memo;
          }
          ∷ others)

-- `any(|output| output.receiver_kind != kind)`.
abbrev pub any_other_kind : ReceiverKind → List PayoutOutput → Bool
any_other_kind kind [] = false
any_other_kind kind (output ∷ outputs) =
    not (same_kind output.receiver_kind kind) || any_other_kind kind outputs

abbrev pub mixed_kinds : List PayoutOutput → Bool
mixed_kinds [] = false
mixed_kinds (output ∷ outputs) = any_other_kind output.receiver_kind (output ∷ outputs)

-- `map_err(|_| InvalidRequest)`.
abbrev pub or_invalid_request {ℓ} : {A : Type ℓ} → Result SignerError A → Result WecPayoutError A
or_invalid_request (ok a) = ok a
or_invalid_request (err e) = err invalid_request

abbrev pub over_limits : WecSignerConfig → PayoutBatchRequest → ℕ → Bool
over_limits config batch output_total_zat =
    ltb config.max_outputs (length batch.outputs)
    || ltb config.max_fee_zat batch.maximum_network_fee_zat
    || ltb max_wec_zat output_total_zat
    || leb u64_mod (output_total_zat + batch.maximum_network_fee_zat)
    || ltb max_wec_zat (output_total_zat + batch.maximum_network_fee_zat)
    || mixed_kinds batch.outputs

unfoldable pub validate_request :
    Libraries → WecSignerConfig → WecPayoutRequest → Result WecPayoutError ValidatedRequest
validate_request lib config request = do
  fail_if (not (is_wec request.batch.asset)) wrong_asset
  fail_if (not (same_chain request.batch.network config.network)) wrong_network
  fail_if (not (request.source_account == config.source_account)) wrong_account
  fail_if (not (is_ironwood request.fund_source)) wrong_fund_source
  output_total_zat ← or_invalid_request (validate_batch lib request.batch)
  fail_if (over_limits config request.batch output_total_zat) invalid_request
  portal_commitment ← or_invalid_request (batch_commitment lib request.batch)
  outputs ← wallet_outputs request.batch.batch_id portal_commitment 0 request.batch.outputs
  ok (record {
    portal_commitment = portal_commitment;
    pipeline_commitment = pipeline_commitment lib request portal_commitment config;
    output_total_zat = output_total_zat;
    outputs = outputs;
  })
