-- ===== src/Registry/Admission.antt =====
-- Admissions, winner recovery and retirement of crates/wcash-pool-core/src/jobs.rs, with the parent
-- hash of crates/wcash-pool-protocol/src/backend.rs. SHA-256 is a parameter.
use pool.Base.{
  ℕ, zero, suc, ◌+◌, Bool, true, false, not, ◌&&◌, ◌||◌, List, [], ◌∷◌, ◌++◌, Option, none, some,
  leb, ◌==◌, if◌then◌else◌, Result, ok, err, contains, u64_mod,
}
use pool.Base.Bytes.{from_le_bytes}
use pool.Jobs.{
  BackendGeneration, JobRegistryError, not_synchronized, unknown_job, stale_job,
  admission_counter_exhausted,
}
use pool.Registry.{
  GenerationRegistry, RegistryEntry, GenerationStorage, Entries, Reply, live, tombstone, is_live,
  in_flight_of, accepts, is_terminal, holds, stored_generation, lookup, adjust, map_entries,
  advance_clock, current_entry, recoverable, prune_winner_recovery,
}

pub data AdmissionRole : Type 0 where
  ordinary historical_zcash_recovery paused_zcash_candidate : AdmissionRole

-- A guard holds its generation. An ordinary one shares the counter of the registry's entry; the
-- others have a resource of their own.
pub record GenerationAdmission : Type 0 where
  pub generation : BackendGeneration
  pub role : AdmissionRole

abbrev pub count_up : GenerationStorage → GenerationStorage
count_up (live g in_flight) = live g (in_flight + 1)
count_up (tombstone g) = tombstone g

abbrev pub count_down : GenerationStorage → GenerationStorage
count_down (live g zero) = live g zero
count_down (live g (suc in_flight)) = live g in_flight
count_down (tombstone g) = tombstone g

-- The end of `begin_admission`, once the entry is known to accept.
abbrev pub count_admission : GenerationRegistry → ℕ → RegistryEntry → Reply GenerationAdmission
count_admission r id e =
    if leb u64_mod (in_flight_of e.storage + 1)
    then (err (admission_counter_exhausted id), r)
    else (
      ok (record { generation = stored_generation e.storage; role = ordinary }),
      record r {
        entries =
            adjust id (λ (e : RegistryEntry). record e { storage = count_up e.storage }) r.entries;
      },
    )

abbrev pub admit_entry :
    GenerationRegistry → ℕ → ℕ → Option RegistryEntry → Reply GenerationAdmission
admit_entry r id now_ms none = (err (unknown_job id), r)
admit_entry r id now_ms (some e) =
    if not (accepts e now_ms) then (err (stale_job id), r) else count_admission r id e

unfoldable pub begin_admission : GenerationRegistry → ℕ → ℕ → Reply GenerationAdmission
begin_admission r id now_ms =
    let advanced = advance_clock now_ms r in
    elim advanced.0 [
      | err e ↦ (err e, advanced.1)
      | ok _ ↦
          if not advanced.1.synchronized
          then (err not_synchronized, advanced.1)
          else admit_entry advanced.1 id now_ms (lookup id advanced.1.entries)
    ]

abbrev pub is_ordinary : AdmissionRole → Bool
is_ordinary ordinary = true
is_ordinary historical_zcash_recovery = false
is_ordinary paused_zcash_candidate = false

-- `Drop` of an admission guard. A counter that is 0 has no guard, so that the wrap is not reached.
unfoldable pub drop_admission : GenerationRegistry → GenerationAdmission → GenerationRegistry
drop_admission r guard =
    let released =
      adjust guard.generation.id
        (λ (e : RegistryEntry). record e { storage = count_down e.storage }) r.entries in
    if is_ordinary guard.role then record r { entries = released } else r

unfoldable pub admissible_job_ids : GenerationRegistry → ℕ → Reply (Option ℕ × List ℕ)
admissible_job_ids r now_ms =
    let advanced = advance_clock now_ms r in
    elim advanced.0 [
      | err e ↦ (err e, advanced.1)
      | ok _ ↦
          if not advanced.1.synchronized
          then (err not_synchronized, advanced.1)
          else (ok (advanced.1.current, advanced.1.recent), advanced.1)
    ]

unfoldable pub current_generation : GenerationRegistry → ℕ → Reply (Option BackendGeneration)
current_generation r now_ms =
    let advanced = advance_clock now_ms r in
    elim advanced.0 [
      | err e ↦ (err e, advanced.1)
      | ok _ ↦ (
        ok (elim (current_entry now_ms advanced.1) [
          | none ↦ none
          | some e ↦ if advanced.1.synchronized then some (stored_generation e.storage) else none
        ]),
        advanced.1,
      )
    ]

unfoldable pub winner_recovery_job_ids : GenerationRegistry → ℕ → Reply (List ℕ)
winner_recovery_job_ids r now_ms =
    let advanced = advance_clock now_ms r in
    let pruned = prune_winner_recovery now_ms advanced.1 in
    elim advanced.0 [
      | err e ↦ (err e, advanced.1)
      | ok _ ↦
          if not advanced.1.synchronized
          then (err not_synchronized, advanced.1)
          else (ok pruned.winner_recovery, pruned)
    ]

abbrev pub retires : GenerationRegistry → ℕ → RegistryEntry → Bool
retires r id e =
    not (holds r.current id || contains id r.recent)
    && is_terminal e.state
    && in_flight_of e.storage == 0
    && is_live e.storage

abbrev pub retire_entry : GenerationRegistry → ℕ → RegistryEntry → RegistryEntry
retire_entry r id e =
    if retires r id e then record e { storage = tombstone (stored_generation e.storage) } else e

abbrev pub retired_ids : GenerationRegistry → Entries → List ℕ
retired_ids r [] = []
retired_ids r ((id, e) ∷ m) = if retires r id e then id ∷ retired_ids r m else retired_ids r m

-- `sort_unstable` of distinct identifiers.
abbrev pub insert_id : ℕ → List ℕ → List ℕ
insert_id id [] = id ∷ []
insert_id id (k ∷ ids) = if leb id k then id ∷ k ∷ ids else k ∷ insert_id id ids

abbrev pub sort_ids : List ℕ → List ℕ
sort_ids [] = []
sort_ids (id ∷ ids) = insert_id id (sort_ids ids)

unfoldable pub collect_retired : GenerationRegistry → ℕ → Reply (List ℕ)
collect_retired r now_ms =
    let advanced = advance_clock now_ms r in
    elim advanced.0 [
      | err e ↦ (err e, advanced.1)
      | ok _ ↦ (
        ok (sort_ids (retired_ids advanced.1 advanced.1.entries)),
        record advanced.1 { entries = map_entries (retire_entry advanced.1) advanced.1.entries },
      )
    ]

module _ (sha256 : List ℕ → List ℕ) where
  pub canonical_parent_header_hash_le : List ℕ → List ℕ → List ℕ → List ℕ
  canonical_parent_header_hash_le header_input nonce solution =
      sha256 (sha256 (header_input ++ nonce ++ (0xfd ∷ 0x40 ∷ 0x05 ∷ []) ++ solution))

  -- The comparison of the reversed bytes is that of the little-endian numbers.
  pub hash_within : BackendGeneration → List ℕ → List ℕ → Bool
  hash_within g nonce solution =
      leb (from_le_bytes (canonical_parent_header_hash_le g.descriptor.header_input nonce solution))
        (from_le_bytes g.descriptor.zcash_target_le)

  abbrev pub is_none : Option RegistryEntry → Bool
  is_none none = true
  is_none (some e) = false

  -- The lookup and the hash filter of `begin_zcash_candidate`.
  abbrev pub recover_entry :
      GenerationRegistry
      → ℕ
      → List ℕ
      → List ℕ
      → ℕ
      → AdmissionRole
      → Option RegistryEntry
      → Result JobRegistryError GenerationAdmission
  recover_entry r id nonce solution now_ms role none = err (stale_job id)
  recover_entry r id nonce solution now_ms role (some e) =
      if contains id r.winner_recovery
        && recoverable now_ms (current_entry now_ms r) e
        && hash_within (stored_generation e.storage) nonce solution
      then ok (record { generation = stored_generation e.storage; role = role })
      else err (stale_job id)

  unfoldable pub begin_zcash_candidate :
      GenerationRegistry
      → ℕ
      → List ℕ
      → List ℕ
      → ℕ
      → AdmissionRole
      → Bool
      → Reply GenerationAdmission
  begin_zcash_candidate r id nonce solution now_ms role allow_no_current =
      let advanced = advance_clock now_ms r in
      let pruned = prune_winner_recovery now_ms advanced.1 in
      elim advanced.0 [
        | err e ↦ (err e, advanced.1)
        | ok _ ↦
            if not advanced.1.synchronized
            then (err not_synchronized, advanced.1)
            else if not allow_no_current && is_none (current_entry now_ms pruned)
            then (err (stale_job id), pruned)
            else (
              recover_entry pruned id nonce solution now_ms role (lookup id pruned.entries),
              pruned,
            )
      ]

  unfoldable pub begin_zcash_winner_recovery :
      GenerationRegistry → ℕ → List ℕ → List ℕ → ℕ → Reply GenerationAdmission
  begin_zcash_winner_recovery r id nonce solution now_ms =
      begin_zcash_candidate r id nonce solution now_ms historical_zcash_recovery false

  unfoldable pub begin_historical_zcash_candidate_during_pause :
      GenerationRegistry → ℕ → List ℕ → List ℕ → ℕ → Reply GenerationAdmission
  begin_historical_zcash_candidate_during_pause r id nonce solution now_ms =
      begin_zcash_candidate r id nonce solution now_ms historical_zcash_recovery true

  unfoldable pub begin_paused_zcash_candidate :
      GenerationRegistry → ℕ → List ℕ → List ℕ → ℕ → Reply GenerationAdmission
  begin_paused_zcash_candidate r id nonce solution now_ms =
      begin_zcash_candidate r id nonce solution now_ms paused_zcash_candidate true
