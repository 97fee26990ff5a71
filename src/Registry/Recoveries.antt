-- ===== src/Registry/Recoveries.antt =====
-- The registry's answers to questions, and its admissions of Zcash candidates, keep and age every
-- entry: the identifiers open to winner recovery are pruned apart from the entries.
use pool.Base.{ℕ, not, ◌&&◌, Bool, List, Bool-cases, inl, inr, Result-cases}
use pool.Registry.{GenerationRegistry, advance_clock, prune_winner_recovery, current_entry}
use pool.Registry.Events.{BackendEvent, apply_event}
use pool.Registry.Admission.{
  AdmissionRole, admissible_job_ids, current_generation, winner_recovery_job_ids, is_none,
  begin_zcash_candidate, begin_zcash_winner_recovery, begin_paused_zcash_candidate,
  begin_historical_zcash_candidate_during_pause,
}
use pool.Registry.Ages.{Keeps}
use pool.Registry.Lifetimes.{advance_clock-Keeps}
use pool.Registry.Changes.{apply_event_at-Keeps}

pub apply_event-Keeps :
    (r : GenerationRegistry) (event : BackendEvent) (anchor_ms : ℕ)
    → Keeps r.entries (apply_event r event anchor_ms).1.entries
unfolding apply_event
apply_event-Keeps r event anchor_ms = apply_event_at-Keeps r event anchor_ms _

pub admissible_job_ids-Keeps :
    (r : GenerationRegistry) (now_ms : ℕ) → Keeps r.entries (admissible_job_ids r now_ms).1.entries
unfolding admissible_job_ids
admissible_job_ids-Keeps r now_ms = elim (Result-cases (advance_clock now_ms r).0) [
  | inr failed ↦ rw (admissible_job_ids, failed.1) (advance_clock-Keeps now_ms r)
  | inl passed ↦ elim (Bool-cases (not (advance_clock now_ms r).1.synchronized)) [
    | inl lost ↦ rw (admissible_job_ids, passed.1, lost) (advance_clock-Keeps now_ms r)
    | inr sync ↦ rw (admissible_job_ids, passed.1, sync) (advance_clock-Keeps now_ms r)
  ]
]

pub current_generation-Keeps :
    (r : GenerationRegistry) (now_ms : ℕ) → Keeps r.entries (current_generation r now_ms).1.entries
unfolding current_generation
current_generation-Keeps r now_ms = elim (Result-cases (advance_clock now_ms r).0) [
  | inr failed ↦ rw (current_generation, failed.1) (advance_clock-Keeps now_ms r)
  | inl passed ↦ rw (current_generation, passed.1) (advance_clock-Keeps now_ms r)
]

-- The clock is advanced, and the identifiers open to winner recovery are pruned.
pruned-Keeps :
    (r : GenerationRegistry) (now_ms : ℕ)
    → Keeps r.entries (prune_winner_recovery now_ms (advance_clock now_ms r).1).entries
unfolding prune_winner_recovery
pruned-Keeps r now_ms = advance_clock-Keeps now_ms r

pub winner_recovery_job_ids-Keeps :
    (r : GenerationRegistry) (now_ms : ℕ)
    → Keeps r.entries (winner_recovery_job_ids r now_ms).1.entries
unfolding winner_recovery_job_ids
winner_recovery_job_ids-Keeps r now_ms = elim (Result-cases (advance_clock now_ms r).0) [
  | inr failed ↦ rw (winner_recovery_job_ids, failed.1) (advance_clock-Keeps now_ms r)
  | inl passed ↦ elim (Bool-cases (not (advance_clock now_ms r).1.synchronized)) [
    | inl lost ↦ rw (winner_recovery_job_ids, passed.1, lost) (advance_clock-Keeps now_ms r)
    | inr sync ↦ rw (winner_recovery_job_ids, passed.1, sync) (pruned-Keeps r now_ms)
  ]
]

module _ (sha256 : List ℕ → List ℕ) where
  begin_zcash_candidate-Keeps :
      (r : GenerationRegistry) (id : ℕ) (nonce solution : List ℕ) (now_ms : ℕ)
      (role : AdmissionRole) (allow_no_current : Bool)
      → Keeps r.entries
          (begin_zcash_candidate sha256 r id nonce solution now_ms role allow_no_current).1.entries
  unfolding begin_zcash_candidate
  begin_zcash_candidate-Keeps r id nonce solution now_ms role allow_no_current =
      let pruned = prune_winner_recovery now_ms (advance_clock now_ms r).1 in
      elim (Result-cases (advance_clock now_ms r).0) [
        | inr failed ↦ rw (begin_zcash_candidate, failed.1) (advance_clock-Keeps now_ms r)
        | inl passed ↦ elim (Bool-cases (not (advance_clock now_ms r).1.synchronized)) [
          | inl lost ↦ rw (begin_zcash_candidate, passed.1, lost) (advance_clock-Keeps now_ms r)
          | inr sync ↦
              elim (Bool-cases
                (not allow_no_current && is_none sha256 (current_entry now_ms pruned))) [
                  | inl idle ↦
                      rw (begin_zcash_candidate, passed.1, sync, idle) (pruned-Keeps r now_ms)
                  | inr open_ ↦
                      rw (begin_zcash_candidate, passed.1, sync, open_) (pruned-Keeps r now_ms)
                ]
        ]
      ]

  pub begin_zcash_winner_recovery-Keeps :
      (r : GenerationRegistry) (id : ℕ) (nonce solution : List ℕ) (now_ms : ℕ)
      → Keeps r.entries (begin_zcash_winner_recovery sha256 r id nonce solution now_ms).1.entries
  unfolding begin_zcash_winner_recovery
  begin_zcash_winner_recovery-Keeps r id nonce solution now_ms =
      begin_zcash_candidate-Keeps r id nonce solution now_ms _ _

  pub begin_historical_zcash_candidate_during_pause-Keeps :
      (r : GenerationRegistry) (id : ℕ) (nonce solution : List ℕ) (now_ms : ℕ)
      → Keeps r.entries
          (begin_historical_zcash_candidate_during_pause sha256 r id nonce solution
            now_ms).1.entries
  unfolding begin_historical_zcash_candidate_during_pause
  begin_historical_zcash_candidate_during_pause-Keeps r id nonce solution now_ms =
      begin_zcash_candidate-Keeps r id nonce solution now_ms _ _

  pub begin_paused_zcash_candidate-Keeps :
      (r : GenerationRegistry) (id : ℕ) (nonce solution : List ℕ) (now_ms : ℕ)
      → Keeps r.entries (begin_paused_zcash_candidate sha256 r id nonce solution now_ms).1.entries
  unfolding begin_paused_zcash_candidate
  begin_paused_zcash_candidate-Keeps r id nonce solution now_ms =
      begin_zcash_candidate-Keeps r id nonce solution now_ms _ _
