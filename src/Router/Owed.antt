-- ===== src/Router/Owed.antt =====
-- What the updates of an event of crates/wcash-pool-edge/src/router.rs do to an owed clean
-- activation.
use pool.Base.{
  ℕ, ◌≡◌, refl, ap, true, not, List, [], ◌∷◌, Option, none, some, Result, ok, err, Bool-cases,
  Result-cases, Option-cases, inl, inr,
}
use pool.Jobs.{BackendGeneration, new_job_id}
use pool.Registry.{Reply, holds}
use pool.Registry.Events.{BackendEvent, job_activated, job_invalidated, generation_closed, other}
use pool.Registry.Admission.{admissible_job_ids}
use pool.Session.Submission.{generation_of}
use pool.Router.{
  JobRouterError, JobUpdate, activated, retired, suspended, RouterState, JobRouter, advertise,
  update_activated, update_for, is_hard,
}
use pool.Router.Journal.{publish_update}
use pool.Router.Clean.{IsClean, unsent-IsClean}

-- What a state leaves owed, with what it sends.
abbrev pub Owed : RouterState → Result JobRouterError (Option JobUpdate) × RouterState → Type 0
Owed s (err e, t) = s.force_clean_jobs ≡ true → t.force_clean_jobs ≡ true
Owed s (ok none, t) = s.force_clean_jobs ≡ true → t.force_clean_jobs ≡ true
Owed s (ok (some (activated g clean_jobs)), t) = s.force_clean_jobs ≡ true → clean_jobs ≡ true
Owed s (ok (some (retired id)), t) = s.force_clean_jobs ≡ true → t.force_clean_jobs ≡ true
Owed s (ok (some suspended), t) = s.force_clean_jobs ≡ true → t.force_clean_jobs ≡ true

advertise-Owed :
    (s : RouterState) (id : ℕ) (g : BackendGeneration) (reply : Reply (Option ℕ × List ℕ))
    → Owed s (advertise s id g reply)
advertise-Owed s id g (err e, r) = λ h. h
advertise-Owed s id g (ok admissible, r) = elim (Bool-cases (not (holds admissible.0 id))) [
  | inl late ↦ rw late (λ h. h)
  | inr current ↦ rw current (λ h. rw h refl)
]

update_activated-Owed :
    (s : RouterState) (job_id now_ms : ℕ) → Owed s (update_activated s job_id now_ms)
update_activated-Owed s job_id now_ms = elim (Bool-cases s.health_paused) [
  | inl paused ↦ rw (update_activated, paused) (λ h. h)
  | inr open_ ↦ elim (Result-cases (new_job_id job_id)) [
    | inr zero_id ↦ rw (update_activated, open_, zero_id.1) (λ h. h)
    | inl id ↦ elim (Option-cases (generation_of s.registry id.0)) [
      | inl missing ↦ rw (update_activated, open_, id.1, missing) (λ h. h)
      | inr found ↦
          rw (update_activated, open_, id.1, found.1)
            (advertise-Owed s id.0 found.0 (admissible_job_ids s.registry now_ms))
    ]
  ]
]

pub update_for-Owed :
    (s : RouterState) (event : BackendEvent) (now_ms : ℕ) → Owed s (update_for s event now_ms)
unfolding update_for
update_for-Owed s (job_activated seq job) now_ms = update_activated-Owed s job.job_id now_ms
update_for-Owed s (job_invalidated seq job_id reason accept_for_ms) now_ms =
    elim (Result-cases (new_job_id job_id)) [
      | inr zero_id ↦ rw (update_for, zero_id.1) (λ h. h)
      | inl id ↦ elim (Bool-cases (is_hard reason accept_for_ms)) [
        | inl hard ↦ rw (update_for, id.1, hard) (λ h. refl)
        | inr soft ↦ rw (update_for, id.1, soft) (λ h. h)
      ]
    ]
update_for-Owed s (generation_closed seq job_id) now_ms = elim (Result-cases (new_job_id job_id)) [
  | inr zero_id ↦ rw (update_for, zero_id.1) (λ h. refl)
  | inl id ↦ rw (update_for, id.1) (λ h. refl)
]
update_for-Owed s (other seq valid) now_ms = λ h. h

pub publish_update-IsClean :
    (j : JobRouter) (s : RouterState) (r : Result JobRouterError (Option JobUpdate) × RouterState)
    → (j.state.force_clean_jobs ≡ true → s.force_clean_jobs ≡ true)
    → Owed s r
    → IsClean j (publish_update j r).1
publish_update-IsClean j s (err e, t) h k = unsent-IsClean j t (λ e. k (h e))
publish_update-IsClean j s (ok none, t) h k = unsent-IsClean j t (λ e. k (h e))
publish_update-IsClean j s (ok (some (activated g clean_jobs)), t) h k = record {
  sent = activated g clean_jobs ∷ [];
  updates = refl;
  owed = λ e. inl (ap some (k (h e)));
}
publish_update-IsClean j s (ok (some (retired id)), t) h k = record {
  sent = retired id ∷ [];
  updates = refl;
  owed = λ e. inr (refl, k (h e));
}
publish_update-IsClean j s (ok (some suspended), t) h k = record {
  sent = suspended ∷ [];
  updates = refl;
  owed = λ e. inr (refl, k (h e));
}
