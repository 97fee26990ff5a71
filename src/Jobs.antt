-- ===== src/Jobs.antt =====
-- The job descriptor of crates/wcash-pool-protocol/src/backend.rs and its validation, and the
-- generations and assignments of crates/wcash-pool-core/src/jobs.rs. A `Hex32` that is only
-- compared is the number of its bytes, most significant first; targets and the header input are
-- lists of bytes. Each `ProtocolError` names the field it refuses.
use pool.Base.{
  ℕ, zero, suc, Bool, true, false, not, ◌&&◌, ◌||◌, List, [], ◌∷◌, ltb, leb, ◌==◌, if◌then◌else◌,
  Result, ok, err, ◌>>=◌, ◌>>◌, fail_if, take,
}
use pool.Base.Bytes.{from_be_bytes}
use pool.Target.{ShareTarget, TargetBinding, from_backend}
use pool.Accounting.{max_chain_value_zat}

abbrev pub drop : ℕ → List ℕ → List ℕ
drop zero xs = xs
drop (suc n) [] = []
drop (suc n) (x ∷ xs) = drop n xs

-- The equality of byte arrays.
abbrev pub same_bytes : List ℕ → List ℕ → Bool
same_bytes [] [] = true
same_bytes [] (y ∷ ys) = false
same_bytes (x ∷ xs) [] = false
same_bytes (x ∷ xs) (y ∷ ys) = x == y && same_bytes xs ys

-- `iter().all(|byte| *byte == 0)`.
abbrev pub all_zero : List ℕ → Bool
all_zero [] = true
all_zero (b ∷ bytes) = b == 0 && all_zero bytes

pub record JobDescriptor : Type 0 where
  pub job_id : ℕ
  pub wcash_candidate_hash_le : ℕ
  pub header_input : List ℕ
  pub wcash_previous_hash_le : ℕ
  pub zcash_previous_hash_le : ℕ
  pub wcash_coinbase_txid_le : ℕ
  pub zcash_coinbase_txid_le : ℕ
  pub wcash_target_le : List ℕ
  pub zcash_target_le : List ℕ
  pub wcash_height : ℕ
  pub zcash_height : ℕ
  pub wcash_reward_zat : ℕ
  pub zcash_reward_zat : ℕ
  pub wcash_maturity_confirmations : ℕ
  pub zcash_maturity_confirmations : ℕ
  pub max_age_ms : ℕ

pub data ProtocolError : Type 0 where
  job_id_zero candidate_hash_zero header_version header_time_zero : ProtocolError
  wcash_previous_zero zcash_previous_zero wcash_txid_zero zcash_txid_zero : ProtocolError
  predecessor_mismatch wcash_target_zero zcash_target_zero : ProtocolError
  wcash_height_zero zcash_height_zero wcash_reward_high zcash_reward_high : ProtocolError
  wcash_maturity zcash_maturity max_age : ProtocolError

abbrev pub max_maturity_confirmations : ℕ
max_maturity_confirmations = 1_000_000

-- `require_nonzero_hex`.
abbrev pub require_nonzero : ℕ → ProtocolError → Result ProtocolError (Unit {0})
require_nonzero value e = fail_if (value == 0) e

-- `require_nonzero_target`.
abbrev pub require_nonzero_target : List ℕ → ProtocolError → Result ProtocolError (Unit {0})
require_nonzero_target bytes e = fail_if (all_zero bytes) e

pub validate_v4_header_input : List ℕ → Result ProtocolError (Unit {0})
validate_v4_header_input header = do
  fail_if (not (same_bytes (take 4 header) (4 ∷ 0 ∷ 0 ∷ 0 ∷ []))) header_version
  fail_if (all_zero (take 4 (drop 100 header))) header_time_zero

abbrev pub validate_reward : ℕ → ProtocolError → Result ProtocolError (Unit {0})
validate_reward value e = fail_if (ltb max_chain_value_zat value) e

abbrev pub validate_maturity : ℕ → ProtocolError → Result ProtocolError (Unit {0})
validate_maturity value e = fail_if (not (leb 1 value && leb value max_maturity_confirmations)) e

-- `JobDescriptor::validate`.
unfoldable pub validate : JobDescriptor → Result ProtocolError (Unit {0})
validate d = do
  require_nonzero d.job_id job_id_zero
  require_nonzero d.wcash_candidate_hash_le candidate_hash_zero
  validate_v4_header_input d.header_input
  require_nonzero d.wcash_previous_hash_le wcash_previous_zero
  require_nonzero d.zcash_previous_hash_le zcash_previous_zero
  require_nonzero d.wcash_coinbase_txid_le wcash_txid_zero
  require_nonzero d.zcash_coinbase_txid_le zcash_txid_zero
  fail_if (not (from_be_bytes (take 32 (drop 4 d.header_input)) == d.zcash_previous_hash_le))
      predecessor_mismatch
  require_nonzero_target d.wcash_target_le wcash_target_zero
  require_nonzero_target d.zcash_target_le zcash_target_zero
  fail_if (d.wcash_height == 0) wcash_height_zero
  fail_if (d.zcash_height == 0) zcash_height_zero
  validate_reward d.wcash_reward_zat wcash_reward_high
  validate_reward d.zcash_reward_zat zcash_reward_high
  validate_maturity d.wcash_maturity_confirmations wcash_maturity
  validate_maturity d.zcash_maturity_confirmations zcash_maturity
  fail_if (not (leb 1 d.max_age_ms && leb d.max_age_ms 600_000)) max_age

-- The derived equality of descriptors.
pub same_descriptor : JobDescriptor → JobDescriptor → Bool
same_descriptor a b =
    a.job_id == b.job_id
    && a.wcash_candidate_hash_le == b.wcash_candidate_hash_le
    && same_bytes a.header_input b.header_input
    && a.wcash_previous_hash_le == b.wcash_previous_hash_le
    && a.zcash_previous_hash_le == b.zcash_previous_hash_le
    && a.wcash_coinbase_txid_le == b.wcash_coinbase_txid_le
    && a.zcash_coinbase_txid_le == b.zcash_coinbase_txid_le
    && same_bytes a.wcash_target_le b.wcash_target_le
    && same_bytes a.zcash_target_le b.zcash_target_le
    && a.wcash_height == b.wcash_height
    && a.zcash_height == b.zcash_height
    && a.wcash_reward_zat == b.wcash_reward_zat
    && a.zcash_reward_zat == b.zcash_reward_zat
    && a.wcash_maturity_confirmations == b.wcash_maturity_confirmations
    && a.zcash_maturity_confirmations == b.zcash_maturity_confirmations
    && a.max_age_ms == b.max_age_ms

pub data JobRegistryError : Type 0 where
  zero_job_id invalid_limits invalid_descriptor deadline_overflow : JobRegistryError
  clock_moved_backwards not_synchronized event_sequence_exhausted : JobRegistryError
  invalid_backend_event : JobRegistryError
  invalid_remaining_lifetime duplicate_snapshot_job conflicting_job_id : ℕ → JobRegistryError
  resurrected_job reused_job_id unknown_job stale_job : ℕ → JobRegistryError
  admission_counter_exhausted snapshot_state_conflict : ℕ → JobRegistryError
  recent_capacity_exceeded generation_capacity_exceeded : ℕ → JobRegistryError
  -- `SnapshotSequenceRollback`, with `previous` and `received`.
  snapshot_sequence_rollback : ℕ → ℕ → JobRegistryError
  -- `EventSequenceGap`, with `expected` and `received`.
  event_sequence_gap : ℕ → ℕ → JobRegistryError

-- `JobId::new`.
unfoldable pub new_job_id : ℕ → Result JobRegistryError ℕ
new_job_id bytes = if bytes == 0 then err zero_job_id else ok bytes

pub record TipIdentity : Type 0 where
  pub wcash_previous_hash_le : ℕ
  pub zcash_previous_hash_le : ℕ

pub record BackendGeneration : Type 0 where
  pub descriptor : JobDescriptor
  pub id : ℕ
  pub tips : TipIdentity
  pub wcash_network_target : ShareTarget
  pub zcash_network_target : ShareTarget

-- `map_err(|_| InvalidDescriptor)`.
abbrev pub or_invalid {ℓ κ} : {E : Type ℓ} {A : Type κ} → Result E A → Result JobRegistryError A
or_invalid (ok a) = ok a
or_invalid (err e) = err invalid_descriptor

-- `BackendGeneration::from_descriptor`.
unfoldable pub from_descriptor : JobDescriptor → Result JobRegistryError BackendGeneration
from_descriptor d = do
  or_invalid (validate d)
  id ← new_job_id d.job_id
  wcash ← or_invalid (from_backend d.wcash_target_le)
  zcash ← or_invalid (from_backend d.zcash_target_le)
  ok (record {
    descriptor = d;
    id = id;
    tips = record {
      wcash_previous_hash_le = d.wcash_previous_hash_le;
      zcash_previous_hash_le = d.zcash_previous_hash_le;
    };
    wcash_network_target = wcash;
    zcash_network_target = zcash;
  })

-- `BackendGeneration::header_time`.
unfoldable pub header_time : BackendGeneration → List ℕ
header_time g = take 4 (drop 100 g.descriptor.header_input)

pub record JobAssignment : Type 0 where
  pub generation_id : ℕ
  pub target : TargetBinding

pub data JobAssignmentError : Type 0 where
  network_target_mismatch : ℕ → JobAssignmentError

-- `JobAssignment::new`.
unfoldable pub new_assignment :
    BackendGeneration → TargetBinding → Result JobAssignmentError JobAssignment
new_assignment g target =
    if not (target.bounds.wcash_network == g.wcash_network_target)
      || not (target.bounds.zcash_network == g.zcash_network_target)
    then err (network_target_mismatch g.id)
    else ok (record { generation_id = g.id; target = target })
