-- ===== src/Router/Kept.antt =====
-- Every call of crates/wcash-pool-edge/src/router.rs honours an owed clean activation.
use pool.Base.{
  ℕ, ◌≡◌, refl, true, false, not, ◌&&◌, ◌||◌, List, [], ◌∷◌, Option, none, some, Result, ok, err,
  Bool-cases, inl, inr, if◌then◌else◌,
}
use pool.Jobs.{BackendGeneration}
use pool.Registry.{Reply}
use pool.Registry.Admission.{admissible_job_ids, winner_recovery_job_ids, current_generation}
use pool.Router.{TimelineError, activated, RouterState, JobRouter, read_ms}
use pool.Router.Journal.{BackendClient}
use pool.Router.Health.{
  owns, caught_up, start_pause, reopen, finish_pause, pause_for_health, resume_after_health,
  allow_recovery_only_after_health, routed_generation, routed_job_ids, retained_job_ids,
  routed_recovery_ids, submit_at, routed_submission, release, refilter_at,
  prepare_queued_paused_candidate, listed,
}
use pool.Router.Calls.{
  Call, suspending, warning, bound_suspending, delivering, recovering, pausing, resuming, allowing,
  asking, listing, retaining, remembering, submitting, requeueing, step, run,
}
use pool.Router.Clean.{IsClean, IsOwed, refl_IsClean, trans_IsClean, unsent-IsClean, warned-IsClean}
use pool.Router.Held.{
  Keeps, back_in-IsClean, if-IsClean, if-Keeps, locked-IsClean, at_time-Keeps, of_registry-Keeps,
  of_session-Keeps, query-IsClean,
}
use pool.Session.Submission.{
  SubmissionContext, prepare_submission, prepare_paused_zcash_candidate, refilter_zcash_candidate,
}
use pool.Session.{MiningSession}
use pool.Nonce.{NonceSuffix}
use pool.Router.Recovered.{
  suspend_router-IsClean, suspend_if_bound-IsClean, begin_event-IsClean, begin_recovery-IsClean,
}

start_pause-Keeps :
    (s : RouterState) → s.force_clean_jobs ≡ true → (start_pause s).force_clean_jobs ≡ true
start_pause-Keeps s owed = elim (Bool-cases s.health_paused) [
  | inl paused ↦ rw paused owed
  | inr open_ ↦ rw open_ refl
]

pause_for_health-IsClean :
    (j : JobRouter) (client : BackendClient) (now : Result TimelineError ℕ)
    → IsClean j (pause_for_health j client now).1
unfolding pause_for_health
pause_for_health-IsClean j client now = locked-IsClean j _ λ s.
    if-Keeps s (not (owns client s.connection_binding)) _ _ (record { kept = λ owed. owed })
      (at_time-Keeps now s _ λ now_ms.
        of_registry-Keeps s (admissible_job_ids s.registry now_ms) _
          λ admissible r. record { kept = start_pause-Keeps (record s { registry = r }) })

reopen-IsClean :
    (j : JobRouter) (s : RouterState) (current : Option BackendGeneration)
    → IsClean j (reopen j s current)
reopen-IsClean j s none = record { sent = []; updates = refl; owed = λ owed. inr (refl, refl) }
reopen-IsClean j s (some g) = record {
  sent = activated g true ∷ [];
  updates = refl;
  owed = λ owed. inl refl;
}

finish_pause-IsClean :
    (j : JobRouter) (reply : Reply (Option BackendGeneration))
    → IsClean j (finish_pause j j.state reply).1
finish_pause-IsClean j (err e, r) =
    unsent-IsClean j (record j.state { registry = r }) (λ owed. owed)
finish_pause-IsClean j (ok current, r) =
    if-IsClean j j.state.health_paused _ _
      (reopen-IsClean j (record j.state { registry = r }) current)
      (unsent-IsClean j (record j.state { registry = r; recovery_only = false }) (λ owed. owed))

resume_after_health-IsClean :
    (j : JobRouter) (client : BackendClient) (now : Result TimelineError ℕ)
    → IsClean j (resume_after_health j client now).1
unfolding resume_after_health
resume_after_health-IsClean j client (err e) = if-IsClean j j.poisoned _ _ (refl_IsClean j) (
    if-IsClean j (not (owns client j.state.connection_binding)) _ _ (refl_IsClean j)
      (if-IsClean j (not (caught_up j.state client)) _ _ (refl_IsClean j) (refl_IsClean j)))
resume_after_health-IsClean j client (ok now_ms) = if-IsClean j j.poisoned _ _ (refl_IsClean j) (
    if-IsClean j (not (owns client j.state.connection_binding)) _ _ (refl_IsClean j) (
      if-IsClean j (not (caught_up j.state client)) _ _ (refl_IsClean j)
        (finish_pause-IsClean j (current_generation j.state.registry now_ms))))

allow_recovery_only_after_health-IsClean :
    (j : JobRouter) (client : BackendClient) (now : Result TimelineError ℕ)
    → IsClean j (allow_recovery_only_after_health j client now).1
unfolding allow_recovery_only_after_health
allow_recovery_only_after_health-IsClean j client now = locked-IsClean j _ λ s.
    if-Keeps s
      (not s.health_paused || not (owns client s.connection_binding) || not (caught_up s client)) _
      _ (record { kept = λ owed. owed })
      (at_time-Keeps now s _ λ now_ms.
        of_registry-Keeps s (winner_recovery_job_ids s.registry now_ms) _
          λ ids r. record { kept = λ owed. owed })

routed_generation-IsClean :
    (j : JobRouter) (now : Result TimelineError ℕ) → IsClean j (routed_generation j now).1
unfolding routed_generation
routed_generation-IsClean j now =
    query-IsClean j now current_generation
      λ current t. ok (if t.health_paused then none else current)

routed_job_ids-IsClean :
    (j : JobRouter) (now : Result TimelineError ℕ) → IsClean j (routed_job_ids j now).1
unfolding routed_job_ids
routed_job_ids-IsClean j now =
    query-IsClean j now admissible_job_ids
      λ admissible t. ok (if t.health_paused then [] else listed admissible)

retained_job_ids-IsClean :
    (j : JobRouter) (now : Result TimelineError ℕ) → IsClean j (retained_job_ids j now).1
unfolding retained_job_ids
retained_job_ids-IsClean j now =
    query-IsClean j now admissible_job_ids λ admissible t. ok (listed admissible)

routed_recovery_ids-IsClean :
    (j : JobRouter) (now : Result TimelineError ℕ) → IsClean j (routed_recovery_ids j now).1
unfolding routed_recovery_ids
routed_recovery_ids-IsClean j now = query-IsClean j now winner_recovery_job_ids λ ids t. ok ids

module _ (sha256 : List ℕ → List ℕ) where
  submit_at-Keeps :
      (s : RouterState) (session : MiningSession) (login : List ℕ) (id : ℕ) (time : List ℕ)
      (suffix : NonceSuffix) (solution : List ℕ) (now_ms : ℕ)
      → Keeps s (submit_at sha256 s session login id time suffix solution now_ms)
  unfolding submit_at
  submit_at-Keeps s session login id time suffix solution now_ms =
      if-Keeps s s.health_paused _ _
        (of_registry-Keeps s (admissible_job_ids s.registry now_ms) _ λ admissible r.
          if-Keeps s s.recovery_only _ _
            (record {
              kept =
                  (of_session-Keeps (record s { registry = r })
                    (prepare_paused_zcash_candidate sha256 session login id time suffix solution r
                      now_ms)).kept;
            })
            (record { kept = λ owed. owed }))
        (of_session-Keeps s
          (prepare_submission sha256 session login id time suffix solution s.registry now_ms))

  routed_submission-IsClean :
      (j : JobRouter) (session : MiningSession) (login : List ℕ) (id : ℕ) (time : List ℕ)
      (suffix : NonceSuffix) (solution : List ℕ) (now : Result TimelineError ℕ)
      → IsClean j (routed_submission sha256 j session login id time suffix solution now).1
  unfolding routed_submission
  routed_submission-IsClean j session login id time suffix solution now = locked-IsClean j _ λ s.
      at_time-Keeps now s _ λ now_ms. submit_at-Keeps s session login id time suffix solution now_ms

  refilter_at-Keeps :
      (s : RouterState) (context : SubmissionContext) (client : BackendClient)
      (now : Result TimelineError ℕ)
      → Keeps s (refilter_at sha256 s context client now)
  refilter_at-Keeps s context client (err e) = record { kept = λ owed. owed }
  refilter_at-Keeps s context client (ok now_ms) = of_session-Keeps s (
      refilter_zcash_candidate sha256 context s.registry now_ms
        (s.health_paused && s.recovery_only))

  prepare_queued_paused_candidate-IsClean :
      (j : JobRouter) (context : SubmissionContext) (client : BackendClient)
      (now : Result TimelineError ℕ)
      → IsClean j (prepare_queued_paused_candidate sha256 j context client now).1
  unfolding prepare_queued_paused_candidate
  prepare_queued_paused_candidate-IsClean j context client now =
      let dropped = unsent-IsClean j (release sha256 j.state context) (λ owed. owed) in
      if-IsClean j j.poisoned _ _ dropped (
        if-IsClean j (j.state.health_paused && not j.state.recovery_only) _ _ dropped (
          if-IsClean j
            (not (owns client j.state.connection_binding) || not (caught_up j.state client)) _ _
            dropped (back_in-IsClean j _ (refilter_at-Keeps j.state context client now))))

  step-IsClean : (j : JobRouter) (call : Call) → IsClean j (step sha256 j call)
  unfolding step
  step-IsClean j suspending = suspend_router-IsClean j
  step-IsClean j warning = warned-IsClean j
  step-IsClean j (bound_suspending binding) = suspend_if_bound-IsClean j binding
  step-IsClean j (delivering client delivered now) =
      begin_event-IsClean j client delivered (read_ms j.timeline now)
  step-IsClean j (recovering snapshot) = begin_recovery-IsClean j snapshot
  step-IsClean j (pausing client now) = pause_for_health-IsClean j client (read_ms j.timeline now)
  step-IsClean j (resuming client now) =
      resume_after_health-IsClean j client (read_ms j.timeline now)
  step-IsClean j (allowing client now) =
      allow_recovery_only_after_health-IsClean j client (read_ms j.timeline now)
  step-IsClean j (asking now) = routed_generation-IsClean j (read_ms j.timeline now)
  step-IsClean j (listing now) = routed_job_ids-IsClean j (read_ms j.timeline now)
  step-IsClean j (retaining now) = retained_job_ids-IsClean j (read_ms j.timeline now)
  step-IsClean j (remembering now) = routed_recovery_ids-IsClean j (read_ms j.timeline now)
  step-IsClean j (submitting session login id time suffix solution now) =
      routed_submission-IsClean j session login id time suffix solution (read_ms j.timeline now)
  step-IsClean j (requeueing context client now) =
      prepare_queued_paused_candidate-IsClean j context client (read_ms j.timeline now)

  run-IsClean : (j : JobRouter) (calls : List Call) → IsClean j (run sha256 j calls)
  unfolding run
  run-IsClean j [] = refl_IsClean j
  run-IsClean j (call ∷ calls) =
      trans_IsClean j (step sha256 j call) (run sha256 j (call ∷ calls)) (step-IsClean j call)
        (run-IsClean (step sha256 j call) calls)

  -- Once a router owes its miners a clean activation, however it is called, either it has sent no
  -- activation since and still owes a clean one, or the first activation that it has sent since
  -- asks for clean jobs. Nothing that it had sent is withdrawn.
  pub run-IsOwed :
      (j : JobRouter) (calls : List Call)
      → j.state.force_clean_jobs ≡ true
      → IsOwed j (run sha256 j calls)
  run-IsOwed j calls owed =
      let after = run-IsClean j calls in
      record { sent = after.sent; updates = after.updates; first = after.owed owed }
