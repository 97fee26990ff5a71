-- ===== src/Registry/History.antt =====
-- The registry over any sequence of its calls.
use pool.Base.{ℕ, ◌+◌, ◌≡◌, List, [], ◌∷◌, Option, some}
use pool.Registry.{RegistryEntry, GenerationRegistry, lookup, suspend}
use pool.Registry.Snapshot.{AcceptableJob, apply_snapshot}
use pool.Registry.Events.{BackendEvent, apply_event, apply_event_at}
use pool.Registry.Admission.{
  GenerationAdmission, begin_admission, drop_admission, collect_retired, admissible_job_ids,
  current_generation, winner_recovery_job_ids, begin_zcash_winner_recovery,
  begin_historical_zcash_candidate_during_pause, begin_paused_zcash_candidate,
}
use pool.Registry.Recoveries.{
  apply_event-Keeps, admissible_job_ids-Keeps, current_generation-Keeps,
  winner_recovery_job_ids-Keeps, begin_zcash_winner_recovery-Keeps,
  begin_historical_zcash_candidate_during_pause-Keeps, begin_paused_zcash_candidate-Keeps,
}
use pool.Registry.Ages.{AgesWith, KeepsWith, refl_Keeps, trans_KeepsWith}
use pool.Registry.Lifetimes.{
  begin_admission-Keeps, drop_admission-Keeps, collect_retired-Keeps, suspend-Keeps, released,
}
use pool.Registry.Renewal.{apply_snapshot-Keeps}
use pool.Registry.Changes.{apply_event_at-Keeps}

pub data Call : Type 0 where
  suspending : Call
  snapshot : ℕ → Option AcceptableJob → List AcceptableJob → ℕ → Call
  event : BackendEvent → ℕ → ℕ → Call
  applying : BackendEvent → ℕ → Call
  admission : ℕ → ℕ → Call
  release : GenerationAdmission → Call
  recovering historical paused : ℕ → List ℕ → List ℕ → ℕ → Call
  listing asking remembering collection : ℕ → Call

-- How often calls count down the guards of an identifier.
abbrev pub spent : Call → ℕ → ℕ
spent (release guard) id = released guard id
spent _ id = 0

abbrev pub releases : List Call → ℕ → ℕ
releases [] id = 0
releases (call ∷ calls) id = spent call id + releases calls id

-- SHA-256 is a parameter.
module _ (sha256 : List ℕ → List ℕ) where
  -- The registry after a call: each method that takes it by mutable reference, and the drop of a
  -- guard.
  unfoldable pub step : GenerationRegistry → Call → GenerationRegistry
  step r suspending = suspend r
  step r (snapshot seq current recent anchor_ms) = (apply_snapshot r seq current recent anchor_ms).1
  step r (event e anchor_ms now_ms) = (apply_event_at r e anchor_ms now_ms).1
  step r (applying e anchor_ms) = (apply_event r e anchor_ms).1
  step r (admission id now_ms) = (begin_admission r id now_ms).1
  step r (release guard) = drop_admission r guard
  step r (recovering id nonce solution now_ms) =
      (begin_zcash_winner_recovery sha256 r id nonce solution now_ms).1
  step r (historical id nonce solution now_ms) =
      (begin_historical_zcash_candidate_during_pause sha256 r id nonce solution now_ms).1
  step r (paused id nonce solution now_ms) =
      (begin_paused_zcash_candidate sha256 r id nonce solution now_ms).1
  step r (listing now_ms) = (admissible_job_ids r now_ms).1
  step r (asking now_ms) = (current_generation r now_ms).1
  step r (remembering now_ms) = (winner_recovery_job_ids r now_ms).1
  step r (collection now_ms) = (collect_retired r now_ms).1

  unfoldable pub run : GenerationRegistry → List Call → GenerationRegistry
  run r [] = r
  run r (call ∷ calls) = run (step r call) calls

  pub step-Keeps :
      (r : GenerationRegistry) (call : Call)
      → KeepsWith (spent call) r.entries (step r call).entries
  unfolding step
  step-Keeps r suspending = suspend-Keeps r
  step-Keeps r (snapshot seq current recent anchor_ms) =
      apply_snapshot-Keeps r seq current recent anchor_ms
  step-Keeps r (event e anchor_ms now_ms) = apply_event_at-Keeps r e anchor_ms now_ms
  step-Keeps r (applying e anchor_ms) = apply_event-Keeps r e anchor_ms
  step-Keeps r (admission id now_ms) = begin_admission-Keeps r id now_ms
  step-Keeps r (release guard) = drop_admission-Keeps r guard
  step-Keeps r (recovering id nonce solution now_ms) =
      begin_zcash_winner_recovery-Keeps sha256 r id nonce solution now_ms
  step-Keeps r (historical id nonce solution now_ms) =
      begin_historical_zcash_candidate_during_pause-Keeps sha256 r id nonce solution now_ms
  step-Keeps r (paused id nonce solution now_ms) =
      begin_paused_zcash_candidate-Keeps sha256 r id nonce solution now_ms
  step-Keeps r (listing now_ms) = admissible_job_ids-Keeps r now_ms
  step-Keeps r (asking now_ms) = current_generation-Keeps r now_ms
  step-Keeps r (remembering now_ms) = winner_recovery_job_ids-Keeps r now_ms
  step-Keeps r (collection now_ms) = collect_retired-Keeps r now_ms

  pub run-Keeps :
      (r : GenerationRegistry) (calls : List Call)
      → KeepsWith (releases calls) r.entries (run r calls).entries
  unfolding run
  run-Keeps r [] = refl_Keeps r.entries
  run-Keeps r (call ∷ calls) =
      trans_KeepsWith (spent call) (releases calls) r.entries (step r call).entries _
        (step-Keeps r call) (run-Keeps (step r call) calls)

  -- Over any sequence of calls of the registry, admissions of Zcash candidates, questions and failed
  -- calls included, an entry is never forgotten:
  -- its identifier still holds the same generation, its deadline has not moved out and its winner
  -- recovery deadline has not moved, a terminal state is still terminal, a closed one closed, a
  -- retired generation is not live again, and its guards in flight have become fewer by no more than
  -- the ordinary ones of it that were released.
  pub run-Ages :
      (r : GenerationRegistry) (calls : List Call) (id : ℕ) (e : RegistryEntry)
      → lookup id r.entries ≡ some e
      → (later : RegistryEntry) × (lookup id (run r calls).entries ≡ some later)
        × AgesWith (releases calls id) e later
  run-Ages r calls id e found = run-Keeps r calls id e found
