-- ===== src/Router/Lasting.antt =====
-- A health pause of the router of crates/wcash-pool-edge/src/router.rs over its calls.
use pool.Base.{
  ℕ, ◌≡◌, refl, Bool, true, false, not, ◌&&◌, ◌||◌, List, [], ◌∷◌, Option, none, some, Result, ok,
  err, true-ne-false, All, Option-cases, inl, inr, if◌then◌else◌,
}
use pool.Nonce.{NonceSuffix}
use pool.Registry.{GenerationRegistry}
use pool.Registry.Admission.{admissible_job_ids, current_generation, winner_recovery_job_ids}
use pool.Registry.Events.{BackendEvent}
use pool.Session.{MiningSession}
use pool.Session.Submission.{
  SubmissionContext, prepare_submission, prepare_paused_zcash_candidate, refilter_zcash_candidate,
}
use pool.Router.{
  TimelineError, JobStateIntegrationError, JobRouterError, JobUpdate, BackendConnectionBinding,
  RouterState, JobRouter, suspend_router, suspend_if_bound, is_bound, same_connection, read_ms,
}
use pool.Router.Journal.{
  DeliveredBackendEvent, BackendClient, client_binding, deliver_event, publish_update,
  after_delivery, begin_delivery, begin_event,
}
use pool.Router.Health.{
  owns, caught_up, pause_for_health, routed_generation, routed_job_ids, retained_job_ids,
  routed_recovery_ids, submit_at, routed_submission, release, refilter_at,
  prepare_queued_paused_candidate, listed,
}
use pool.Router.Calls.{
  Call, suspending, warning, bound_suspending, delivering, recovering, pausing, resuming, allowing,
  asking, listing, retaining, remembering, submitting, requeueing, step, run,
}
use pool.Router.Paused.{
  IsPaused, Stays, Holds, same_Stays, with_registry, suspend_all-Stays, if-Stays, if-Holds,
  if-IsPaused, back_in-Stays, locked-Stays, at_time-Holds, of_registry-Holds, of_session-Holds,
  query-Stays, update_for-stays,
}

suspend_router-Stays : (j : JobRouter) → Stays j (suspend_router j).1
unfolding suspend_router
suspend_router-Stays j =
    if-Stays j j.poisoned _ _ (record { stays = λ h. h }) (suspend_all-Stays j j.state (λ h. h))

suspend_if_bound-Stays :
    (j : JobRouter) (binding : BackendConnectionBinding) → Stays j (suspend_if_bound j binding).1
unfolding suspend_if_bound
suspend_if_bound-Stays j binding =
    if-Stays j j.poisoned _ _ (record { stays = λ h. h })
      (if-Stays j (not (is_bound j.state.connection_binding binding)) _ _ (same_Stays j)
        (suspend_all-Stays j j.state (λ h. h)))

publish_update-Stays :
    (j : JobRouter) (r : Result JobRouterError (Option JobUpdate) × RouterState)
    → (IsPaused j.state → IsPaused r.1)
    → Stays j (publish_update j r).1
publish_update-Stays j (err e, s) h = record { stays = h }
publish_update-Stays j (ok none, s) h = record { stays = h }
publish_update-Stays j (ok (some update), s) h = record { stays = h }

after_delivery-Stays :
    (j : JobRouter) (change : BackendEvent) (now_ms : ℕ)
    (delivery : Result JobStateIntegrationError (Unit {0}) × GenerationRegistry)
    → Stays j (after_delivery j change now_ms delivery).1
after_delivery-Stays j change now_ms (err e, r) = record { stays = with_registry j.state r }
after_delivery-Stays j change now_ms (ok _, r) = publish_update-Stays j _ λ h.
    update_for-stays (record j.state { registry = r }) change now_ms (with_registry j.state r h)

begin_delivery-Stays :
    (j : JobRouter) (required : BackendConnectionBinding) (delivered : DeliveredBackendEvent)
    (now : Result TimelineError ℕ)
    → Stays j (begin_delivery j required delivered now).1
unfolding begin_delivery
begin_delivery-Stays j required delivered (err e) =
    if-Stays j j.poisoned _ _ (record { stays = λ h. h })
      (if-Stays j
        (not (same_connection delivered.connection_binding required)
          || not (is_bound j.state.connection_binding required))
        _ _ (same_Stays j) (suspend_all-Stays j j.state (λ h. h)))
begin_delivery-Stays j required delivered (ok now_ms) =
    if-Stays j j.poisoned _ _ (record { stays = λ h. h })
      (if-Stays j
        (not (same_connection delivered.connection_binding required)
          || not (is_bound j.state.connection_binding required))
        _ _ (same_Stays j)
        (after_delivery-Stays j delivered.event now_ms
          (deliver_event j.timeline delivered j.state.registry now_ms)))

begin_event-Stays :
    (j : JobRouter) (client : BackendClient) (delivered : DeliveredBackendEvent)
    (now : Result TimelineError ℕ)
    → Stays j (begin_event j client delivered now).1
unfolding begin_event
begin_event-Stays j client delivered now = elim (Option-cases (client_binding client)) [
  | inl down ↦ rw (begin_event, down) (same_Stays j)
  | inr up ↦ rw (begin_event, up.1) (begin_delivery-Stays j up.0 delivered now)
]

pause_for_health-Stays :
    (j : JobRouter) (client : BackendClient) (now : Result TimelineError ℕ)
    → Stays j (pause_for_health j client now).1
unfolding pause_for_health
pause_for_health-Stays j client now = locked-Stays j _ λ s.
    if-Holds s (not (owns client s.connection_binding)) _ _ (record { stays = λ h. h })
      (at_time-Holds now s _ λ now_ms.
        of_registry-Holds s (admissible_job_ids s.registry now_ms) _ λ admissible r. record {
          stays = λ h.
              if-IsPaused s.health_paused _ _ (record { paused = h.paused; closed = refl })
                (record { paused = refl; closed = refl });
        })

-- The calls that may end a pause, or permit candidates in it.
abbrev pub reopens : Call → Bool
reopens (recovering snapshot) = true
reopens (resuming client now) = true
reopens (allowing client now) = true
reopens call = false

module _ (sha256 : List ℕ → List ℕ) where
  submit_at-Holds :
      (s : RouterState) (session : MiningSession) (login : List ℕ) (id : ℕ) (time : List ℕ)
      (suffix : NonceSuffix) (solution : List ℕ) (now_ms : ℕ)
      → Holds s (submit_at sha256 s session login id time suffix solution now_ms)
  unfolding submit_at
  submit_at-Holds s session login id time suffix solution now_ms =
      if-Holds s s.health_paused _ _
        (of_registry-Holds s (admissible_job_ids s.registry now_ms) _ λ admissible r.
          if-Holds s s.recovery_only _ _
            (record {
              stays = λ h.
                  (of_session-Holds (record s { registry = r })
                      (prepare_paused_zcash_candidate sha256 session login id time suffix solution r
                        now_ms)).stays
                    (with_registry s r h);
            })
            (record { stays = with_registry s r }))
        (of_session-Holds s
          (prepare_submission sha256 session login id time suffix solution s.registry now_ms))

  routed_submission-Stays :
      (j : JobRouter) (session : MiningSession) (login : List ℕ) (id : ℕ) (time : List ℕ)
      (suffix : NonceSuffix) (solution : List ℕ) (now : Result TimelineError ℕ)
      → Stays j (routed_submission sha256 j session login id time suffix solution now).1
  unfolding routed_submission
  routed_submission-Stays j session login id time suffix solution now = locked-Stays j _ λ s.
      at_time-Holds now s _ λ now_ms. submit_at-Holds s session login id time suffix solution now_ms

  refilter_at-Holds :
      (s : RouterState) (context : SubmissionContext) (client : BackendClient)
      (now : Result TimelineError ℕ)
      → Holds s (refilter_at sha256 s context client now)
  refilter_at-Holds s context client (err e) = record { stays = with_registry s _ }
  refilter_at-Holds s context client (ok now_ms) = of_session-Holds s (
      refilter_zcash_candidate sha256 context s.registry now_ms
        (s.health_paused && s.recovery_only))

  prepare_queued_paused_candidate-Stays :
      (j : JobRouter) (context : SubmissionContext) (client : BackendClient)
      (now : Result TimelineError ℕ)
      → Stays j (prepare_queued_paused_candidate sha256 j context client now).1
  unfolding prepare_queued_paused_candidate
  prepare_queued_paused_candidate-Stays j context client now =
      let dropped : Stays j (record j { state = release sha256 j.state context }) = record {
        stays = with_registry j.state _;
      } in
      if-Stays j j.poisoned _ _ dropped (
        if-Stays j (j.state.health_paused && not j.state.recovery_only) _ _ dropped (
          if-Stays j
            (not (owns client j.state.connection_binding) || not (caught_up j.state client)) _ _
            dropped (back_in-Stays j _ (refilter_at-Holds j.state context client now))))

  step-Stays : (j : JobRouter) (call : Call) → reopens call ≡ false → Stays j (step sha256 j call)
  unfolding step routed_generation routed_job_ids retained_job_ids routed_recovery_ids
  step-Stays j suspending h = suspend_router-Stays j
  step-Stays j warning h = record { stays = λ h. h }
  step-Stays j (bound_suspending binding) h = suspend_if_bound-Stays j binding
  step-Stays j (delivering client delivered now) h =
      begin_event-Stays j client delivered (read_ms j.timeline now)
  step-Stays j (recovering snapshot) h = absurd (true-ne-false h)
  step-Stays j (pausing client now) h = pause_for_health-Stays j client (read_ms j.timeline now)
  step-Stays j (resuming client now) h = absurd (true-ne-false h)
  step-Stays j (allowing client now) h = absurd (true-ne-false h)
  step-Stays j (asking now) h =
      query-Stays j (read_ms j.timeline now) current_generation
        λ current t. ok (if t.health_paused then none else current)
  step-Stays j (listing now) h =
      query-Stays j (read_ms j.timeline now) admissible_job_ids
        λ admissible t. ok (if t.health_paused then [] else listed admissible)
  step-Stays j (retaining now) h =
      query-Stays j (read_ms j.timeline now) admissible_job_ids
        λ admissible t. ok (listed admissible)
  step-Stays j (remembering now) h =
      query-Stays j (read_ms j.timeline now) winner_recovery_job_ids λ ids t. ok ids
  step-Stays j (submitting session login id time suffix solution now) h =
      routed_submission-Stays j session login id time suffix solution (read_ms j.timeline now)
  step-Stays j (requeueing context client now) h =
      prepare_queued_paused_candidate-Stays j context client (read_ms j.timeline now)

  pub run-stays :
      (j : JobRouter) (calls : List Call)
      → IsPaused j.state
      → All (λ (call : Call). reopens call ≡ false) calls
      → IsPaused (run sha256 j calls).state
  unfolding run
  run-stays j [] h k = h
  run-stays j (call ∷ calls) h k =
      run-stays (step sha256 j call) calls ((step-Stays j call k.0).stays h) k.1
