-- ===== src/Router.antt =====
-- crates/wcash-pool-edge/src/router.rs: the one generation authority of all miner sessions. Its
-- mutex makes each call a function from a router to a reply and a router; `poisoned` says that a
-- holder of the lock has panicked. `updates` is what has been sent to the subscribers, the newest
-- first. The clock is a parameter. Of crates/wcash-pool-backend-client the
-- bindings of a connection are modelled, in which an authority and a token are numbers, since they
-- are only compared.
pub mod Journal
pub mod Health
pub mod Calls
pub mod Clean
pub mod Owed
pub mod Held
pub mod Recovered
pub mod Kept
pub mod Advertised
pub mod Paused
pub mod Lasting
pub mod Refused
mod Tests
use pool.Base.{
  ℕ, Bool, true, false, not, ◌&&◌, ◌||◌, List, [], ◌∷◌, Option, none, some, leb, ltb, u64_mod, ◌-◌,
  ◌/◌, ◌==◌, if◌then◌else◌, Result, ok, err,
}
use pool.Jobs.{BackendGeneration, TipIdentity, JobRegistryError, new_job_id}
use pool.Registry.{
  GenerationRegistry, GenerationRegistryConfig, Reply, new_registry, suspend, holds,
}
use pool.Registry.Snapshot.{AcceptableJob, apply_snapshot}
use pool.Registry.Events.{
  BackendEvent, JobInvalidationReason, job_activated, job_invalidated, generation_closed, other,
  superseded, wcash_tip_changed, zcash_tip_changed, age, apply_event_at,
}
use pool.Registry.Admission.{admissible_job_ids}
use pool.Session.{SessionError}
use pool.Session.Submission.{generation_of}

pub data TimelineError : Type 0 where
  anchor_predates_timeline clock_moved_backwards millisecond_range_exceeded : TimelineError

-- Of `MonotonicTimeline`, with an instant as its nanoseconds.
pub record MonotonicTimeline : Type 0 where
  pub origin : ℕ

unfoldable pub instant_ms : MonotonicTimeline → ℕ → Result TimelineError ℕ
instant_ms timeline instant =
    if ltb instant timeline.origin
    then err clock_moved_backwards
    else if ltb ((instant - timeline.origin) / 1_000_000) u64_mod
    then ok ((instant - timeline.origin) / 1_000_000)
    else err millisecond_range_exceeded

-- `now_ms` at the instant that the clock shows, and `anchor_ms`.
abbrev pub read_ms : MonotonicTimeline → ℕ → Result TimelineError ℕ
read_ms timeline now = instant_ms timeline now

abbrev pub anchored_ms : MonotonicTimeline → ℕ → Result TimelineError ℕ
anchored_ms timeline anchor =
    if ltb anchor timeline.origin then err anchor_predates_timeline else instant_ms timeline anchor

pub data JobStateIntegrationError : Type 0 where
  delivery_time : TimelineError → JobStateIntegrationError
  delivery_state : JobRegistryError → JobStateIntegrationError

pub data JobRouterError : Type 0 where
  poisoned_state recovery_while_synchronized : JobRouterError
  backend_authority_mismatch backend_connection_mismatch : JobRouterError
  -- `InvalidEventCapacity`, with the capacity supplied.
  invalid_event_capacity : ℕ → JobRouterError
  missing_activated_generation : ℕ → JobRouterError
  timeline_failure : TimelineError → JobRouterError
  integration_failure : JobStateIntegrationError → JobRouterError
  registry_failure : JobRegistryError → JobRouterError
  session_failure : SessionError → JobRouterError
  update_stream_lagged : ℕ → JobRouterError
  update_stream_closed : JobRouterError

pub data JobUpdate : Type 0 where
  -- `Activated`, with the generation and `clean_jobs`.
  activated : BackendGeneration → Bool → JobUpdate
  retired : ℕ → JobUpdate
  suspended : JobUpdate

pub record BackendConnectionBinding : Type 0 where
  pub authority : ℕ
  pub connection_token : ℕ
  pub snapshot_event_seq : ℕ

pub record RouterState : Type 0 where
  pub registry : GenerationRegistry
  pub health_paused : Bool
  pub recovery_only : Bool
  pub force_clean_jobs : Bool
  pub backend_authority : Option ℕ
  pub connection_binding : Option BackendConnectionBinding

pub record JobRouter : Type 0 where
  pub state : RouterState
  pub timeline : MonotonicTimeline
  pub poisoned : Bool
  pub updates : List JobUpdate

-- What a call returns, and the router after it.
abbrev pub Answer {ℓ} : Type ℓ → Type ℓ
Answer A = Result JobRouterError A × JobRouter

abbrev pub same_connection : BackendConnectionBinding → BackendConnectionBinding → Bool
same_connection a b =
    a.authority == b.authority
    && a.connection_token == b.connection_token
    && a.snapshot_event_seq == b.snapshot_event_seq

-- `connection_binding.as_ref() == Some(binding)`.
abbrev pub is_bound : Option BackendConnectionBinding → BackendConnectionBinding → Bool
is_bound none binding = false
is_bound (some held) binding = same_connection held binding

abbrev pub same_tips : TipIdentity → TipIdentity → Bool
same_tips a b =
    a.wcash_previous_hash_le == b.wcash_previous_hash_le
    && a.zcash_previous_hash_le == b.zcash_previous_hash_le

-- `registry.generation(id).is_some_and(|prior| prior.tips() == tips)`.
abbrev pub has_tips : TipIdentity → Option BackendGeneration → Bool
has_tips tips none = false
has_tips tips (some prior) = same_tips prior.tips tips

abbrev pub preserves_prior_work : GenerationRegistry → TipIdentity → List ℕ → Bool
preserves_prior_work r tips [] = false
preserves_prior_work r tips (id ∷ ids) =
    has_tips tips (generation_of r id) || preserves_prior_work r tips ids

-- An activation, once its generation is found: advertised when it is current, unless its lifetime
-- has elapsed.
abbrev pub advertise :
    RouterState
    → ℕ
    → BackendGeneration
    → Reply (Option ℕ × List ℕ)
    → Result JobRouterError (Option JobUpdate) × RouterState
advertise s id g (err e, r) = (err (registry_failure e), record s { registry = r })
advertise s id g (ok admissible, r) =
    if not (holds admissible.0 id) then (ok none, record s { registry = r }) else (
      ok (
          some
            (activated g (s.force_clean_jobs || not (preserves_prior_work r g.tips admissible.1)))),
      record s { registry = r; force_clean_jobs = false },
    )

abbrev pub is_hard : JobInvalidationReason → ℕ → Bool
is_hard superseded accept_for_ms = accept_for_ms == 0
is_hard wcash_tip_changed accept_for_ms = true
is_hard zcash_tip_changed accept_for_ms = true
is_hard age accept_for_ms = true

abbrev pub update_activated :
    RouterState → ℕ → ℕ → Result JobRouterError (Option JobUpdate) × RouterState
update_activated s job_id now_ms =
    if s.health_paused then (ok none, s) else (elim (new_job_id job_id) [
      | err e ↦ (err (registry_failure e), s)
      | ok id ↦ elim (generation_of s.registry id) [
        | none ↦ (err (missing_activated_generation id), s)
        | some g ↦ advertise s id g (admissible_job_ids s.registry now_ms)
      ]
    ])

-- `RouterState::update_for`.
unfoldable pub update_for :
    RouterState → BackendEvent → ℕ → Result JobRouterError (Option JobUpdate) × RouterState
update_for s (job_activated seq job) now_ms = update_activated s job.job_id now_ms
update_for s (job_invalidated seq job_id reason accept_for_ms) now_ms = elim (new_job_id job_id) [
  | err e ↦ (err (registry_failure e), s)
  | ok id ↦
      if is_hard reason accept_for_ms
      then (ok (some (retired id)), record s { force_clean_jobs = true })
      else (ok none, s)
]
update_for s (generation_closed seq job_id) now_ms = elim (new_job_id job_id) [
  | err e ↦ (err (registry_failure e), record s { force_clean_jobs = true })
  | ok id ↦ (ok (some (retired id)), record s { force_clean_jobs = true })
]
update_for s (other seq valid) now_ms = (ok none, s)

-- `updates.send`.
abbrev pub send : JobUpdate → JobRouter → JobRouter
send update j = record j { updates = update ∷ j.updates }

-- The part of a suspension under the lock.
abbrev pub suspend_state : RouterState → RouterState
suspend_state s = record s {
  registry = suspend s.registry;
  recovery_only = false;
  force_clean_jobs = true;
}

abbrev pub suspend_all : JobRouter → JobRouter
suspend_all j = send suspended (record j { state = suspend_state j.state })

-- `JobRouter::suspend`.
unfoldable pub suspend_router : JobRouter → Answer (Unit {0})
suspend_router j =
    if j.poisoned then (err poisoned_state, send suspended j) else (ok tt, suspend_all j)

unfoldable pub suspend_if_bound : JobRouter → BackendConnectionBinding → Answer Bool
suspend_if_bound j binding =
    if j.poisoned
    then (err poisoned_state, send suspended j)
    else if not (is_bound j.state.connection_binding binding)
    then (ok false, j)
    else (ok true, suspend_all j)
