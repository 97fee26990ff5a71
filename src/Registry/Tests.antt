-- ===== src/Registry/Tests.antt =====
-- Runs of the registry, and instances of its theorems.
use pool.Base.{arith, ℕ, ◌+◌, ◌≡◌, ◌≢◌, ◌<◌, refl, true, false, List, [], ◌∷◌, none, some, ok, err}
use pool.Jobs.{
  new_job_id, JobDescriptor, BackendGeneration, invalid_backend_event, snapshot_sequence_rollback,
}
use pool.Registry.{
  GenerationRegistry, RegistryEntry, accepting, live, lookup, map_entries, expire_at, advance_clock,
  stored_generation, is_terminal, is_live, prune_winner_recovery,
}
use pool.Registry.Snapshot.{apply_snapshot, prepare_snapshot}
use pool.Registry.Events.{
  close_generation, record_event, other, generation_closed, apply_event_at, try_apply_event,
  check_event, event_valid, payload_valid, event_seq, apply_change,
}
use pool.Registry.Admission.{
  GenerationAdmission, ordinary, begin_admission, drop_admission, collect_retired,
  winner_recovery_job_ids, begin_paused_zcash_candidate, begin_zcash_winner_recovery,
  begin_zcash_candidate, admissible_job_ids, current_generation,
}
use pool.Registry.Ages.{Ages}
use pool.Registry.Guards.{IsHeld, run-guarded}
use pool.Registry.History.{
  Call, remembering, recovering, historical, paused, listing, asking, collection, admission,
  release, event, step, run, run-Ages,
}
use pool.Registry.Sequence.{apply_event_at-contiguous}
use pool.Registry.Admissions.{run-admission, apply_event_at-closes, apply_snapshot-closes}

abbrev work : JobDescriptor
work = record {
  job_id = 7;
  wcash_candidate_hash_le = 1;
  header_input = 4 ∷ 0 ∷ 0 ∷ 0 ∷ [];
  wcash_previous_hash_le = 2;
  zcash_previous_hash_le = 3;
  wcash_coinbase_txid_le = 4;
  zcash_coinbase_txid_le = 5;
  wcash_target_le = 9 ∷ [];
  zcash_target_le = 8 ∷ [];
  wcash_height = 10;
  zcash_height = 11;
  wcash_reward_zat = 0;
  zcash_reward_zat = 0;
  wcash_maturity_confirmations = 100;
  zcash_maturity_confirmations = 100;
  max_age_ms = 60_000;
}

abbrev generation : BackendGeneration
generation = record {
  descriptor = work;
  id = 7;
  tips = record { wcash_previous_hash_le = 2; zcash_previous_hash_le = 3 };
  wcash_network_target = 9;
  zcash_network_target = 8;
}

abbrev entry : RegistryEntry
entry = record {
  storage = live generation 0;
  accept_until_ms = 1_000;
  winner_recovery_until_ms = 61_000;
  state = accepting;
}

abbrev registry : GenerationRegistry
registry = record {
  config = record { maximum_recent = 2; maximum_generations = 8 };
  entries = (7, entry) ∷ [];
  current = some 7;
  recent = [];
  winner_recovery = 7 ∷ [];
  watermark_current = some 7;
  watermark_recent = [];
  last_event_seq = some 5;
  last_delivery_anchor_ms = some 100;
  last_monotonic_ms = some 200;
  synchronized = true;
}

abbrev guard : GenerationAdmission
guard = record { generation = generation; role = ordinary }

held : lookup 7 registry.entries ≡ some entry
unfolding lookup
held = refl

abbrev sha256 : List ℕ → List ℕ
sha256 bytes = bytes

-- An admission and its release, a collection, the questions, and two admissions of candidates.
abbrev calls : List Call
calls =
    admission 7 300
    ∷ collection 400
    ∷ release guard
    ∷ remembering 450
    ∷ paused 7 [] [] 460
    ∷ recovering 7 [] [] 470
    ∷ listing 500
    ∷ asking 500
    ∷ []

admitted_later : (begin_admission (run sha256 registry calls) 7 600).0 ≡ ok guard
unfolding run step begin_admission collect_retired drop_admission advance_clock expire_at
    map_entries lookup winner_recovery_job_ids begin_paused_zcash_candidate
    begin_zcash_winner_recovery begin_zcash_candidate prune_winner_recovery admissible_job_ids
    current_generation
admitted_later = refl

run-admission_example :
    (is_terminal entry.state ≡ false)
    × (is_live entry.storage ≡ true)
    × 600 < entry.accept_until_ms
    × (guard.generation ≡ stored_generation entry.storage)
run-admission_example = run-admission sha256 registry calls 7 600 entry held admitted_later

-- The generation is closed by the journal, and asked for after that.
abbrev closing : List Call
closing =
    event (generation_closed 6 7) 300 300
    ∷ admission 7 400
    ∷ historical 7 [] [] 410
    ∷ remembering 420
    ∷ []

run-Ages_example :
    (later : RegistryEntry) × (lookup 7 (run sha256 registry closing).entries ≡ some later)
    × Ages entry later
run-Ages_example = run-Ages sha256 registry closing 7 entry held

bad_event : (apply_event_at registry (other 6 false) 300 300).0 ≡ err invalid_backend_event
unfolding apply_event_at try_apply_event check_event event_valid payload_valid
bad_event = refl

apply_event_at-closes_example :
    (begin_admission (apply_event_at registry (other 6 false) 300 300).1 7 400).0 ≢ ok guard
apply_event_at-closes_example =
    apply_event_at-closes registry (other 6 false) 300 300 bad_event 7 400 guard

rolled_back : (apply_snapshot registry 4 none [] 300).0 ≡ err (snapshot_sequence_rollback 5 4)
unfolding apply_snapshot prepare_snapshot
rolled_back = refl

apply_snapshot-closes_example :
    (begin_admission (apply_snapshot registry 4 none [] 300).1 7 400).0 ≢ ok guard
apply_snapshot-closes_example = apply_snapshot-closes registry 4 none [] 300 rolled_back 7 400 guard

good_event : (apply_event_at registry (other 6 true) 300 300).0 ≡ ok tt
unfolding apply_event_at try_apply_event check_event event_valid payload_valid apply_change
good_event = refl

apply_event_at-contiguous_example :
    (registry.synchronized ≡ true)
    × (previous : ℕ) × (registry.last_event_seq ≡ some previous)
    × (event_seq (other 6 true) ≡ previous + 1)
    × ((apply_event_at registry (other 6 true) 300 300).1.last_event_seq ≡ some (previous + 1))
apply_event_at-contiguous_example =
    apply_event_at-contiguous registry (other 6 true) 300 300 good_event

-- Another submission is admitted after the guard, and released first; the generation is closed and
-- collected meanwhile.
admitted_first : (begin_admission registry 7 300).0 ≡ ok guard
unfolding begin_admission advance_clock expire_at map_entries lookup
admitted_first = refl

abbrev outlived : List Call
outlived =
    admission 7 310
    ∷ event (generation_closed 6 7) 320 320
    ∷ release guard
    ∷ remembering 350
    ∷ collection 400
    ∷ []

stays_out : IsHeld sha256 7 0 (begin_admission registry 7 300).1 outlived
unfolding step begin_admission drop_admission advance_clock expire_at map_entries lookup
stays_out = (omega arith, (omega arith, (omega arith, (omega arith, (omega arith, tt)))))

run-guarded_example :
    (later : RegistryEntry) × (lookup 7
        (run sha256 (begin_admission registry 7 300).1 outlived).entries
      ≡ some later)
    × (is_live later.storage ≡ true)
    × (stored_generation later.storage ≡ guard.generation)
run-guarded_example = run-guarded sha256 registry 7 300 entry outlived held admitted_first stays_out

-- With the last guard released, it is collected.
collected :
    (collect_retired
      (run sha256
        (begin_admission registry 7 300).1
        (event (generation_closed 6 7) 300 300 ∷ release guard ∷ []))
      400).0
    ≡ ok (7 ∷ [])
unfolding run step begin_admission collect_retired drop_admission advance_clock expire_at
    map_entries lookup apply_event_at try_apply_event check_event event_valid payload_valid
    apply_change close_generation new_job_id record_event
collected = refl
