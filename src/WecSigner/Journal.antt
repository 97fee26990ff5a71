-- ===== src/WecSigner/Journal.antt =====
-- The records of crates/wcash-wec-payout-signer/src/journal.rs and their checks.
use pool.Base.{
  ℕ, ◌%◌, Bool, true, not, ◌&&◌, ◌||◌, List, [], ◌∷◌, Option, none, some, ltb, leb, ◌==◌,
  if◌then◌else◌, Result, ok, ◌>>◌, fail_if, length,
}
use pool.Jobs.{all_zero}
use pool.WecSigner.{
  WecPayoutError, journal_corrupt, WecPipelineStage, stage_reserved, stage_signed,
  stage_broadcast_unresolved, stage_rejected, stage_completed,
}
use pool.WecSigner.Wallet.{BroadcastDisposition}

abbrev pub max_raw_transaction_hex_bytes : ℕ
max_raw_transaction_hex_bytes = 4_194_304

pub record StoredArtifact : Type 0 where
  pub raw_transaction_hex : List ℕ
  pub transaction_id : List ℕ
  pub unsigned_digest : List ℕ
  pub fee_zat : ℕ
  pub target_height : ℕ
  pub expiry_height : ℕ

-- `bytes().all(|byte| byte.is_ascii_hexdigit() && !byte.is_ascii_uppercase())`.
abbrev pub all_lower_hex : List ℕ → Bool
all_lower_hex [] = true
all_lower_hex (b ∷ bytes) = (leb 48 b && leb b 57 || leb 97 b && leb b 102) && all_lower_hex bytes

-- `StoredArtifact::validate`.
unfoldable pub validate_artifact : StoredArtifact → Result WecPayoutError (Unit {0})
validate_artifact a =
    fail_if
      (length a.raw_transaction_hex == 0
        || ltb max_raw_transaction_hex_bytes (length a.raw_transaction_hex)
        || not (length a.raw_transaction_hex % 2 == 0)
        || not (all_lower_hex a.raw_transaction_hex)
        || not (length a.transaction_id == 64)
        || not (all_lower_hex a.transaction_id)
        || all_zero a.unsigned_digest
        || a.fee_zat == 0
        || a.target_height == 0
        || leb a.expiry_height a.target_height)
      journal_corrupt

pub data StoredStage : Type 0 where
  reserved : StoredStage
  prepared signed broadcast_unresolved rejected : StoredArtifact → StoredStage
  completed : StoredArtifact → BroadcastDisposition → StoredStage

abbrev pub public_stage : StoredStage → WecPipelineStage
public_stage reserved = stage_reserved
public_stage (prepared a) = stage_signed
public_stage (signed a) = stage_signed
public_stage (broadcast_unresolved a) = stage_broadcast_unresolved
public_stage (rejected a) = stage_rejected
public_stage (completed a disposition) = stage_completed

-- `StoredStage::artifact`.
abbrev pub artifact_of : StoredStage → Option StoredArtifact
artifact_of reserved = none
artifact_of (prepared a) = some a
artifact_of (signed a) = some a
artifact_of (broadcast_unresolved a) = some a
artifact_of (rejected a) = some a
artifact_of (completed a disposition) = some a

-- `StoredStage::validate`.
unfoldable pub validate_stage : StoredStage → Result WecPayoutError (Unit {0})
validate_stage stage = elim (artifact_of stage) [ none ↦ ok tt | some a ↦ validate_artifact a ]

pub record JournalRecord : Type 0 where
  pub batch_id : ℕ
  pub pipeline_commitment : List ℕ
  pub portal_commitment : List ℕ
  pub output_total_zat : ℕ
  pub stage : StoredStage

-- The files of the journal, by the batch that names them.
abbrev pub Records : Type 0
Records = List (ℕ × JournalRecord)

unfoldable pub find_record : ℕ → Records → Option JournalRecord
find_record id [] = none
find_record id ((k, record_) ∷ records) = if k == id then some record_ else find_record id records

-- A file that replaces the one of its name.
unfoldable pub put_record : ℕ → JournalRecord → Records → Records
put_record id new [] = (id, new) ∷ []
put_record id new ((k, old) ∷ records) =
    if k == id then (id, new) ∷ records else (k, old) ∷ put_record id new records

-- The checks of `load`, once the file is read and its checksum holds.
unfoldable pub check_record : ℕ → JournalRecord → Result WecPayoutError (Unit {0})
check_record id found = do
  fail_if
      (not (found.batch_id == id)
        || all_zero found.pipeline_commitment
        || all_zero found.portal_commitment
        || found.output_total_zat == 0)
      journal_corrupt
  validate_stage found.stage
