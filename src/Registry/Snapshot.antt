-- ===== src/Registry/Snapshot.antt =====
-- `apply_snapshot` of crates/wcash-pool-core/src/jobs.rs, with its preparation.
use pool.Base.{
  ℕ, min, Bool, true, false, not, ◌&&◌, ◌||◌, List, [], ◌∷◌, ◌++◌, map, Option, none, some, ltb,
  leb, ◌==◌, if◌then◌else◌, Result, ok, err, ◌>>=◌, ◌>>◌, fail_if, length, contains,
}
use pool.Jobs.{
  JobDescriptor, same_descriptor, same_bytes, BackendGeneration, from_descriptor, JobRegistryError,
  invalid_remaining_lifetime, conflicting_job_id, resurrected_job, duplicate_snapshot_job,
  snapshot_state_conflict, snapshot_sequence_rollback, recent_capacity_exceeded,
  generation_capacity_exceeded, clock_moved_backwards,
}
use pool.Registry.{
  GenerationRegistry, RegistryEntry, Entries, Reply, accepting, invalidated, live, is_live,
  is_closed, is_terminal, stored_generation, lookup, insert, map_entries, deadline,
  winner_recovery_deadline, precedes, latest, suspend, expire_at, remember_winner_recovery,
  prune_winner_recovery,
}

pub record AcceptableJob : Type 0 where
  pub job : JobDescriptor
  pub accept_for_ms : ℕ

-- An identifier that the registry already holds.
unfoldable pub renew :
    RegistryEntry → BackendGeneration → ℕ → ℕ → Result JobRegistryError (ℕ × RegistryEntry)
renew old generation proposed anchor_ms = do
  fail_if (not (same_descriptor (stored_generation old.storage).descriptor generation.descriptor))
      (conflicting_job_id generation.id)
  fail_if (is_terminal old.state || not (is_live old.storage)) (resurrected_job generation.id)
  let accept_until = min old.accept_until_ms proposed
  fail_if (leb accept_until anchor_ms) (resurrected_job generation.id)
  ok (generation.id, record old { accept_until_ms = accept_until; state = accepting })

-- An identifier that the registry has never held.
unfoldable pub admit_new : BackendGeneration → ℕ → Result JobRegistryError (ℕ × RegistryEntry)
admit_new generation proposed = do
  recovery ← winner_recovery_deadline proposed
  ok (
    generation.id,
    record {
      storage = live generation 0;
      accept_until_ms = proposed;
      winner_recovery_until_ms = recovery;
      state = accepting;
    },
  )

unfoldable pub prepare_acceptable :
    GenerationRegistry → AcceptableJob → ℕ → Result JobRegistryError (ℕ × RegistryEntry)
prepare_acceptable r acceptable anchor_ms = do
  generation ← from_descriptor acceptable.job
  fail_if
      (acceptable.accept_for_ms == 0
        || ltb generation.descriptor.max_age_ms acceptable.accept_for_ms)
      (invalid_remaining_lifetime generation.id)
  proposed ← deadline anchor_ms acceptable.accept_for_ms
  elim (lookup generation.id r.entries) [
    | some old ↦ renew old generation proposed anchor_ms
    | none ↦ admit_new generation proposed
  ]

-- The jobs of a snapshot in order, with the identifiers seen before them.
unfoldable pub prepare_all :
    GenerationRegistry → ℕ → List AcceptableJob → List ℕ → Result JobRegistryError Entries
prepare_all r anchor_ms [] seen = ok []
prepare_all r anchor_ms (job ∷ jobs) seen = do
  prepared ← prepare_acceptable r job anchor_ms
  fail_if (contains prepared.0 seen) (duplicate_snapshot_job prepared.0)
  rest ← prepare_all r anchor_ms jobs (prepared.0 ∷ seen)
  ok (prepared ∷ rest)

abbrev pub ids : Entries → List ℕ
ids m = map (λ (p : ℕ × RegistryEntry). p.0) m

abbrev pub insert_all : Entries → Entries → Entries
insert_all [] m = m
insert_all ((id, e) ∷ prepared) m = insert_all prepared (insert id e m)

-- Work that the snapshot omits becomes terminal.
abbrev pub omit : List ℕ → ℕ → RegistryEntry → RegistryEntry
omit seen id e =
    if contains id seen || is_closed e.state then e else record e { state = invalidated }

abbrev pub as_list : Option AcceptableJob → List AcceptableJob
as_list none = []
as_list (some job) = job ∷ []

abbrev pub first_id : Entries → Option ℕ
first_id [] = none
first_id ((id, e) ∷ m) = some id

abbrev pub same_option : Option ℕ → Option ℕ → Bool
same_option none none = true
same_option none (some b) = false
same_option (some a) none = false
same_option (some a) (some b) = a == b

pub record PreparedSnapshot : Type 0 where
  pub entries : Entries
  pub current : Option ℕ
  pub recent : List ℕ

-- The retained entries with the snapshot's, and every omitted one made terminal.
abbrev pub merge : Entries → Entries → Entries
merge prepared m = map_entries (omit (ids prepared)) (insert_all prepared m)

-- The last event's sequence number never rolls back.
abbrev pub check_sequence : Option ℕ → ℕ → Result JobRegistryError (Unit {0})
check_sequence none event_seq = ok tt
check_sequence (some previous) event_seq =
    fail_if (ltb event_seq previous) (snapshot_sequence_rollback previous event_seq)

unfoldable pub prepare_snapshot :
    GenerationRegistry
    → ℕ
    → Option AcceptableJob
    → List AcceptableJob
    → ℕ
    → Result JobRegistryError PreparedSnapshot
prepare_snapshot r event_seq current recent anchor_ms = do
  fail_if (precedes anchor_ms r.last_delivery_anchor_ms) clock_moved_backwards
  check_sequence r.last_event_seq event_seq
  fail_if (ltb r.config.maximum_recent (length recent))
      (recent_capacity_exceeded r.config.maximum_recent)
  front ← prepare_all r anchor_ms (as_list current) []
  back ← prepare_all r anchor_ms recent (ids front)
  fail_if
      (same_option r.last_event_seq (some event_seq)
        && (not (same_option (first_id front) r.watermark_current)
            || not (same_bytes (ids back) r.watermark_recent)))
      (snapshot_state_conflict event_seq)
  let entries = merge (front ++ back) r.entries
  fail_if (ltb r.config.maximum_generations (length entries))
      (generation_capacity_exceeded r.config.maximum_generations)
  ok (record { entries = entries; current = first_id front; recent = ids back })

abbrev pub remember_all : List ℕ → GenerationRegistry → GenerationRegistry
remember_all [] r = r
remember_all (id ∷ rest) r = remember_all rest (remember_winner_recovery id r)

abbrev pub option_list : Option ℕ → List ℕ
option_list none = []
option_list (some id) = id ∷ []

-- The registry that a prepared snapshot is installed in.
unfoldable pub install_snapshot : GenerationRegistry → PreparedSnapshot → ℕ → ℕ → GenerationRegistry
install_snapshot r p event_seq request_started_ms =
    let now_ms = latest request_started_ms r.last_monotonic_ms in
    let installed : GenerationRegistry = record r {
      entries = p.entries;
      current = p.current;
      recent = p.recent;
      watermark_current = p.current;
      watermark_recent = p.recent;
      last_event_seq = some event_seq;
      last_delivery_anchor_ms = some request_started_ms;
      last_monotonic_ms = some now_ms;
      synchronized = true;
    } in
    let expired = expire_at now_ms installed in
    prune_winner_recovery now_ms
      (remember_all (option_list expired.current ++ expired.recent) expired)

unfoldable pub apply_snapshot :
    GenerationRegistry → ℕ → Option AcceptableJob → List AcceptableJob → ℕ → Reply (Unit {0})
apply_snapshot r event_seq current recent request_started_ms =
    elim (prepare_snapshot r event_seq current recent request_started_ms) [
      | err e ↦ (err e, suspend r)
      | ok p ↦ (ok tt, install_snapshot r p event_seq request_started_ms)
    ]
