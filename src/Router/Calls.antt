-- ===== src/Router/Calls.antt =====
-- The router of crates/wcash-pool-edge/src/router.rs over any sequence of its calls.
use pool.Base.{◌≡◌, refl, ℕ, List, [], ◌∷◌}
use pool.Nonce.{NonceSuffix}
use pool.Session.{MiningSession}
use pool.Session.Submission.{SubmissionContext}
use pool.Router.{
  suspended, send, read_ms, BackendConnectionBinding, JobRouter, suspend_router, suspend_if_bound,
}
use pool.Router.Journal.{
  Aftermath, done, then_suspend, then_warn, Begun, finish, apply_event, recover_from_snapshot,
  DeliveredBackendEvent, JobSnapshot, BackendClient, begin_event, begin_recovery,
}
use pool.Router.Health.{
  pause_for_health, resume_after_health, allow_recovery_only_after_health, routed_generation,
  routed_job_ids, retained_job_ids, routed_recovery_ids, routed_submission,
  prepare_queued_paused_candidate,
}

-- A call, with the instant that the clock shows. Of a delivery and of a recovery it is the part under
-- the lock: what that leaves to be done is a call of its own, which others may precede.
pub data Call : Type 0 where
  suspending warning : Call
  bound_suspending : BackendConnectionBinding → Call
  delivering : BackendClient → DeliveredBackendEvent → ℕ → Call
  recovering : JobSnapshot → Call
  pausing resuming allowing : BackendClient → ℕ → Call
  asking listing retaining remembering : ℕ → Call
  submitting : MiningSession → List ℕ → ℕ → List ℕ → NonceSuffix → List ℕ → ℕ → Call
  requeueing : SubmissionContext → BackendClient → ℕ → Call

module _ (sha256 : List ℕ → List ℕ) where
  unfoldable pub step : JobRouter → Call → JobRouter
  step j suspending = (suspend_router j).1
  step j warning = send suspended j
  step j (bound_suspending binding) = (suspend_if_bound j binding).1
  step j (delivering client delivered now) =
      (begin_event j client delivered (read_ms j.timeline now)).1
  step j (recovering snapshot) = (begin_recovery j snapshot).1
  step j (pausing client now) = (pause_for_health j client (read_ms j.timeline now)).1
  step j (resuming client now) = (resume_after_health j client (read_ms j.timeline now)).1
  step j (allowing client now) =
      (allow_recovery_only_after_health j client (read_ms j.timeline now)).1
  step j (asking now) = (routed_generation j (read_ms j.timeline now)).1
  step j (listing now) = (routed_job_ids j (read_ms j.timeline now)).1
  step j (retaining now) = (retained_job_ids j (read_ms j.timeline now)).1
  step j (remembering now) = (routed_recovery_ids j (read_ms j.timeline now)).1
  step j (submitting session login id time suffix solution now) =
      (routed_submission sha256 j session login id time suffix solution (read_ms j.timeline now)).1
  step j (requeueing context client now) =
      (prepare_queued_paused_candidate sha256 j context client (read_ms j.timeline now)).1

  unfoldable pub run : JobRouter → List Call → JobRouter
  run j [] = j
  run j (call ∷ calls) = run (step j call) calls

-- The calls that an aftermath makes.
abbrev pub afterwards : Aftermath → List Call
afterwards done = []
afterwards then_suspend = suspending ∷ []
afterwards then_warn = warning ∷ []

module _ (sha256 : List ℕ → List ℕ) where
  finish-run : (begun : Begun) → (finish begun).1 ≡ run sha256 begun.1 (afterwards begun.0.1)
  unfolding finish run step
  finish-run ((answer, done), j) = refl
  finish-run ((answer, then_suspend), j) = refl
  finish-run ((answer, then_warn), j) = refl

  -- A whole call is the part under the lock and its aftermath, with nothing in between.
  apply_event-run :
      (j : JobRouter) (client : BackendClient) (delivered : DeliveredBackendEvent) (now : ℕ)
      → (apply_event j client delivered (read_ms j.timeline now)).1
        ≡ run sha256 j (
            delivering client delivered now
            ∷ afterwards (begin_event j client delivered (read_ms j.timeline now)).0.1)
  unfolding apply_event run step
  apply_event-run j client delivered now =
      finish-run (begin_event j client delivered (read_ms j.timeline now))

  recover_from_snapshot-run :
      (j : JobRouter) (snapshot : JobSnapshot)
      → (recover_from_snapshot j snapshot).1
        ≡ run sha256 j (recovering snapshot ∷ afterwards (begin_recovery j snapshot).0.1)
  unfolding recover_from_snapshot run step
  recover_from_snapshot-run j snapshot = finish-run (begin_recovery j snapshot)
