-- ===== src/Router/Health.antt =====
-- The health pause, the queries and the submissions of crates/wcash-pool-edge/src/router.rs.
-- SHA-256 is a parameter.
use pool.Base.{
  ℕ, Bool, true, false, not, ◌&&◌, ◌||◌, List, [], ◌∷◌, Option, none, some, ◌==◌, if◌then◌else◌,
  Result, ok, err,
}
use pool.Nonce.{NonceSuffix}
use pool.Jobs.{BackendGeneration, stale_job}
use pool.Registry.{GenerationRegistry, Reply}
use pool.Registry.Admission.{
  drop_admission, admissible_job_ids, current_generation, winner_recovery_job_ids,
}
use pool.Session.{MiningSession, SessionError, registry_error}
use pool.Session.Submission.{
  SubmissionContext, prepare_submission, prepare_paused_zcash_candidate, refilter_zcash_candidate,
}
use pool.Router.{
  TimelineError, JobRouterError, poisoned_state, backend_connection_mismatch, timeline_failure,
  registry_failure, session_failure, BackendConnectionBinding, RouterState, JobRouter, Answer,
  activated, send,
}
use pool.Router.Journal.{BackendClient, is_bound_to}

-- A state of the router and what a call under the lock returns.
abbrev pub Held {ℓ} : Type ℓ → Type ℓ
Held A = Result JobRouterError A × RouterState

abbrev pub back_in {ℓ} : {A : Type ℓ} → JobRouter → Held A → Answer A
back_in j (a, s) = (a, record j { state = s })

-- A call under the lock.
unfoldable pub locked {ℓ} : {A : Type ℓ} → JobRouter → (RouterState → Held A) → Answer A
locked j f = if j.poisoned then (err poisoned_state, j) else back_in j (f j.state)

-- A call of the registry at the present time.
unfoldable pub at_time {ℓ} :
    {A : Type ℓ} → Result TimelineError ℕ → RouterState → (ℕ → Held A) → Held A
at_time (err e) s f = (err (timeline_failure e), s)
at_time (ok now_ms) s f = f now_ms

unfoldable pub of_registry {ℓ κ} :
    {A : Type ℓ} {B : Type κ} → RouterState → Reply A → (A → RouterState → Held B) → Held B
of_registry s (err e, r) f = (err (registry_failure e), record s { registry = r })
of_registry s (ok a, r) f = f a (record s { registry = r })

unfoldable pub of_session {ℓ} :
    {A : Type ℓ} → RouterState → Result SessionError A × GenerationRegistry → Held A
of_session s (err e, r) = (err (session_failure e), record s { registry = r })
of_session s (ok a, r) = (ok a, record s { registry = r })

-- `connection_binding.as_ref().is_some_and(|binding| client.is_bound_to(binding))`.
abbrev pub owns : BackendClient → Option BackendConnectionBinding → Bool
owns client none = false
owns client (some binding) = is_bound_to client binding

abbrev pub same_cursor : Option ℕ → Option ℕ → Bool
same_cursor none none = true
same_cursor none (some b) = false
same_cursor (some a) none = false
same_cursor (some a) (some b) = a == b

abbrev pub caught_up : RouterState → BackendClient → Bool
caught_up s client = same_cursor s.registry.last_event_seq client.live_event_cursor

abbrev pub client_binding_matches : JobRouter → BackendClient → Result JobRouterError Bool
client_binding_matches j client =
    if j.poisoned then err poisoned_state else ok (owns client j.state.connection_binding)

abbrev pub client_cursor_matches : JobRouter → BackendClient → Result JobRouterError Bool
client_cursor_matches j client =
    if j.poisoned then err poisoned_state else ok (caught_up j.state client)

abbrev pub start_pause : RouterState → RouterState
start_pause s =
    if s.health_paused
    then record s { recovery_only = false }
    else record s { recovery_only = false; health_paused = true; force_clean_jobs = true }

unfoldable pub pause_for_health :
    JobRouter → BackendClient → Result TimelineError ℕ → Answer (Unit {0})
pause_for_health j client now = locked j λ s.
    if not (owns client s.connection_binding)
    then (err backend_connection_mismatch, s)
    else at_time now s
        λ now_ms. of_registry s (admissible_job_ids s.registry now_ms) λ _ t. (ok tt, start_pause t)

-- The reopening: the current generation is advertised as clean work, where there is one.
abbrev pub reopen : JobRouter → RouterState → Option BackendGeneration → JobRouter
reopen j s none = record j {
  state = record s { recovery_only = false; health_paused = false; force_clean_jobs = true };
}
reopen j s (some g) = send (activated g true) (record j {
  state = record s { recovery_only = false; health_paused = false; force_clean_jobs = false };
})

abbrev pub finish_pause :
    JobRouter → RouterState → Reply (Option BackendGeneration) → Answer (Unit {0})
finish_pause j s (err e, r) =
    (err (registry_failure e), record j { state = record s { registry = r } })
finish_pause j s (ok current, r) =
    if s.health_paused
    then (ok tt, reopen j (record s { registry = r }) current)
    else (ok tt, record j { state = record s { registry = r; recovery_only = false } })

unfoldable pub resume_after_health :
    JobRouter → BackendClient → Result TimelineError ℕ → Answer (Unit {0})
resume_after_health j client now =
    if j.poisoned
    then (err poisoned_state, j)
    else if not (owns client j.state.connection_binding)
    then (err backend_connection_mismatch, j)
    else if not (caught_up j.state client)
    then (err backend_connection_mismatch, j)
    else (elim now [
      | err e ↦ (err (timeline_failure e), j)
      | ok now_ms ↦ finish_pause j j.state (current_generation j.state.registry now_ms)
    ])

unfoldable pub allow_recovery_only_after_health :
    JobRouter → BackendClient → Result TimelineError ℕ → Answer (Unit {0})
allow_recovery_only_after_health j client now = locked j λ s.
    if not s.health_paused || not (owns client s.connection_binding) || not (caught_up s client)
    then (err backend_connection_mismatch, s)
    else at_time now s λ now_ms.
      of_registry s (winner_recovery_job_ids s.registry now_ms)
        λ _ t. (ok tt, record t { recovery_only = true })

-- `JobRouter::current_generation`.
unfoldable pub routed_generation :
    JobRouter → Result TimelineError ℕ → Answer (Option BackendGeneration)
routed_generation j now = locked j λ s. at_time now s λ now_ms.
    of_registry s (current_generation s.registry now_ms)
      λ current t. (ok (if t.health_paused then none else current), t)

abbrev pub listed : Option ℕ × List ℕ → List ℕ
listed (none, recent) = recent
listed (some id, recent) = id ∷ recent

-- `JobRouter::admissible_job_ids` and `retained_job_ids`.
unfoldable pub routed_job_ids : JobRouter → Result TimelineError ℕ → Answer (List ℕ)
routed_job_ids j now = locked j λ s. at_time now s λ now_ms.
    of_registry s (admissible_job_ids s.registry now_ms)
      λ admissible t. (ok (if t.health_paused then [] else listed admissible), t)

unfoldable pub retained_job_ids : JobRouter → Result TimelineError ℕ → Answer (List ℕ)
retained_job_ids j now = locked j λ s. at_time now s λ now_ms.
    of_registry s (admissible_job_ids s.registry now_ms) λ admissible t. (ok (listed admissible), t)

-- `JobRouter::winner_recovery_job_ids`.
unfoldable pub routed_recovery_ids : JobRouter → Result TimelineError ℕ → Answer (List ℕ)
routed_recovery_ids j now = locked j λ s.
    at_time now s
      λ now_ms. of_registry s (winner_recovery_job_ids s.registry now_ms) λ ids t. (ok ids, t)

module _ (sha256 : List ℕ → List ℕ) where
  -- `JobRouter::prepare_submission`, under the lock.
  unfoldable pub submit_at :
      RouterState
      → MiningSession
      → List ℕ
      → ℕ
      → List ℕ
      → NonceSuffix
      → List ℕ
      → ℕ
      → Held SubmissionContext
  submit_at s session login id time suffix solution now_ms =
      if s.health_paused
      then (of_registry s (admissible_job_ids s.registry now_ms) λ _ t.
          if t.recovery_only
          then of_session t (
              prepare_paused_zcash_candidate sha256 session login id time suffix solution t.registry
                now_ms)
          else (err (session_failure (registry_error (stale_job id))), t))
      else of_session s
          (prepare_submission sha256 session login id time suffix solution s.registry now_ms)

  unfoldable pub routed_submission :
      JobRouter
      → MiningSession
      → List ℕ
      → ℕ
      → List ℕ
      → NonceSuffix
      → List ℕ
      → Result TimelineError ℕ
      → Answer SubmissionContext
  routed_submission j session login id time suffix solution now =
      locked j λ s. at_time now s λ now_ms. submit_at s session login id time suffix solution now_ms

  -- The context is consumed: an error before the refiltering drops its guard.
  abbrev pub release : RouterState → SubmissionContext → RouterState
  release s context = record s { registry = drop_admission s.registry context.admission }

  abbrev pub refilter_at :
      RouterState
      → SubmissionContext
      → BackendClient
      → Result TimelineError ℕ
      → Held SubmissionContext
  refilter_at s context client (err e) = (err (timeline_failure e), release s context)
  refilter_at s context client (ok now_ms) = of_session s (
      refilter_zcash_candidate sha256 context s.registry now_ms
        (s.health_paused && s.recovery_only))

  unfoldable pub prepare_queued_paused_candidate :
      JobRouter
      → SubmissionContext
      → BackendClient
      → Result TimelineError ℕ
      → Answer SubmissionContext
  prepare_queued_paused_candidate j context client now =
      if j.poisoned
      then (err poisoned_state, record j { state = release j.state context })
      else if j.state.health_paused && not j.state.recovery_only
      then (
        err (session_failure (registry_error (stale_job context.admission.generation.id))),
        record j { state = release j.state context },
      )
      else if not (owns client j.state.connection_binding) || not (caught_up j.state client)
      then (err backend_connection_mismatch, record j { state = release j.state context })
      else back_in j (refilter_at j.state context client now)
