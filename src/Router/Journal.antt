-- ===== src/Router/Journal.antt =====
-- The backend's journal at the router of crates/wcash-pool-edge/src/router.rs: the snapshot that it
-- starts and recovers from, and the live events, with the delivered values and the client of
-- crates/wcash-pool-backend-client/src/unix.rs.
use pool.Base.{
  ℕ, Bool, true, false, not, ◌&&◌, ◌||◌, List, [], Option, none, some, leb, ◌==◌, if◌then◌else◌,
  Result, ok, err,
}
use pool.Registry.{
  GenerationRegistry, GenerationRegistryConfig, Reply, new_registry, suspend, holds,
}
use pool.Registry.Snapshot.{AcceptableJob, apply_snapshot}
use pool.Registry.Events.{BackendEvent, apply_event_at}
use pool.Router.{
  suspend_router, MonotonicTimeline, anchored_ms, update_stream_lagged, update_stream_closed,
  TimelineError, JobStateIntegrationError, delivery_time, delivery_state, JobRouterError,
  poisoned_state, recovery_while_synchronized, backend_authority_mismatch,
  backend_connection_mismatch, invalid_event_capacity, timeline_failure, integration_failure,
  JobUpdate, suspended, BackendConnectionBinding, RouterState, JobRouter, Answer, same_connection,
  is_bound, update_for, send, suspend_all,
}

abbrev pub maximum_event_capacity : ℕ
maximum_event_capacity = 4_096

-- A live event: its connection, and the instant of its anchor.
pub record DeliveredBackendEvent : Type 0 where
  pub event : BackendEvent
  pub anchor : ℕ
  pub connection_binding : BackendConnectionBinding

pub record JobSnapshot : Type 0 where
  pub event_seq : ℕ
  pub current : Option AcceptableJob
  pub recent : List AcceptableJob
  pub anchor : ℕ
  pub connection_binding : BackendConnectionBinding

-- What the router asks of a client.
pub record BackendClient : Type 0 where
  pub live : Bool
  pub authority : ℕ
  pub connection_token : ℕ
  pub subscribed_snapshot_event_seq : Option ℕ
  pub live_event_cursor : Option ℕ

-- `BackendClient::connection_binding` and `is_bound_to`.
abbrev pub client_binding : BackendClient → Option BackendConnectionBinding
client_binding client = elim client.subscribed_snapshot_event_seq [
  | none ↦ none
  | some seq ↦
      if client.live
      then some (record {
        authority = client.authority;
        connection_token = client.connection_token;
        snapshot_event_seq = seq;
      })
      else none
]

abbrev pub is_bound_to : BackendClient → BackendConnectionBinding → Bool
is_bound_to client binding =
    client.live
    && client.authority == binding.authority
    && holds client.subscribed_snapshot_event_seq binding.snapshot_event_seq
    && client.connection_token == binding.connection_token

abbrev pub lift_state :
    Reply (Unit {0}) → Result JobStateIntegrationError (Unit {0}) × GenerationRegistry
lift_state (ok _, r) = (ok tt, r)
lift_state (err e, r) = (err (delivery_state e), r)

-- `DeliveredBackendEvent::apply_to_registry_at` and `JobSnapshot::apply_to_registry`.
abbrev pub deliver_event :
    MonotonicTimeline
    → DeliveredBackendEvent
    → GenerationRegistry
    → ℕ
    → Result JobStateIntegrationError (Unit {0}) × GenerationRegistry
deliver_event timeline delivered r now_ms = elim (anchored_ms timeline delivered.anchor) [
  | err e ↦ (err (delivery_time e), r)
  | ok anchor_ms ↦ lift_state (apply_event_at r delivered.event anchor_ms now_ms)
]

abbrev pub deliver_snapshot :
    MonotonicTimeline
    → JobSnapshot
    → GenerationRegistry
    → Result JobStateIntegrationError (Unit {0}) × GenerationRegistry
deliver_snapshot timeline snapshot r = elim (anchored_ms timeline snapshot.anchor) [
  | err e ↦ (err (delivery_time e), r)
  | ok anchor_ms ↦
      lift_state (apply_snapshot r snapshot.event_seq snapshot.current snapshot.recent anchor_ms)
]

abbrev pub start_router :
    MonotonicTimeline
    → JobSnapshot
    → Result JobStateIntegrationError (Unit {0}) × GenerationRegistry
    → Result JobRouterError JobRouter
start_router timeline snapshot (err e, r) = err (integration_failure e)
start_router timeline snapshot (ok _, r) = ok (record {
  state = record {
    registry = r;
    health_paused = false;
    recovery_only = false;
    force_clean_jobs = false;
    backend_authority = some snapshot.connection_binding.authority;
    connection_binding = some snapshot.connection_binding;
  };
  timeline = timeline;
  poisoned = false;
  updates = [];
})

-- `JobRouter::from_snapshot`.
unfoldable pub from_snapshot :
    JobSnapshot → GenerationRegistryConfig → MonotonicTimeline → ℕ → Result JobRouterError JobRouter
from_snapshot snapshot config timeline event_capacity =
    if not (leb 1 event_capacity && leb event_capacity maximum_event_capacity)
    then err (invalid_event_capacity event_capacity)
    else start_router timeline snapshot (deliver_snapshot timeline snapshot (new_registry config))

-- What a call still does once it has released the lock, which other calls may take before that.
pub data Aftermath : Type 0 where
  done then_suspend then_warn : Aftermath

-- The part of a call under its first lock.
abbrev pub Begun : Type 0
Begun = (Result JobRouterError (Unit {0}) × Aftermath) × JobRouter

-- The whole of a call, where no other call comes in between.
unfoldable pub finish : Begun → Answer (Unit {0})
unfolding suspend_router
finish ((answer, done), j) = (answer, j)
finish ((answer, then_suspend), j) = (answer, (suspend_router j).1)
finish ((answer, then_warn), j) = (answer, send suspended j)

-- The end of `apply_event_inner`: an update is sent, an error suspends.
abbrev pub publish_update :
    JobRouter → Result JobRouterError (Option JobUpdate) × RouterState → Begun
publish_update j (err e, s) = ((err e, then_suspend), record j { state = s })
publish_update j (ok none, s) = ((ok tt, done), record j { state = s })
publish_update j (ok (some update), s) = ((ok tt, done), send update (record j { state = s }))

-- `apply_event_inner` from the delivery to the registry on.
abbrev pub after_delivery :
    JobRouter
    → BackendEvent
    → ℕ
    → Result JobStateIntegrationError (Unit {0}) × GenerationRegistry
    → Begun
after_delivery j event now_ms (err e, r) = (
  (err (integration_failure e), then_suspend),
  record j { state = record j.state { registry = r } },
)
after_delivery j event now_ms (ok _, r) =
    publish_update j (update_for (record j.state { registry = r }) event now_ms)

-- `apply_event_inner` under its first lock.
unfoldable pub begin_delivery :
    JobRouter → BackendConnectionBinding → DeliveredBackendEvent → Result TimelineError ℕ → Begun
begin_delivery j required delivered now =
    if j.poisoned
    then ((err poisoned_state, done), send suspended j)
    else if not (same_connection delivered.connection_binding required)
        || not (is_bound j.state.connection_binding required)
    then ((err backend_connection_mismatch, done), j)
    else (elim now [
      | err e ↦ ((err (timeline_failure e), done), suspend_all j)
      | ok now_ms ↦
          after_delivery j delivered.event now_ms
            (deliver_event j.timeline delivered j.state.registry now_ms)
    ])

-- `JobRouter::apply_event`, under its first lock and whole.
unfoldable pub begin_event :
    JobRouter → BackendClient → DeliveredBackendEvent → Result TimelineError ℕ → Begun
begin_event j client delivered now = elim (client_binding client) [
  | none ↦ ((err backend_connection_mismatch, done), j)
  | some binding ↦ begin_delivery j binding delivered now
]

unfoldable pub apply_event :
    JobRouter → BackendClient → DeliveredBackendEvent → Result TimelineError ℕ → Answer (Unit {0})
apply_event j client delivered now = finish (begin_event j client delivered now)

-- The end of `recover_with`, over the state with the flags set.
abbrev pub after_recovery :
    JobRouter
    → JobSnapshot
    → RouterState
    → Result JobStateIntegrationError (Unit {0}) × GenerationRegistry
    → Begun
after_recovery j snapshot s (err e, r) = (
  (err (integration_failure e), then_warn),
  record j { state = record s { registry = suspend r } },
)
after_recovery j snapshot s (ok _, r) = (
  (ok tt, done),
  record j {
    state = record s {
      registry = r;
      health_paused = false;
      backend_authority = some snapshot.connection_binding.authority;
      connection_binding = some snapshot.connection_binding;
    };
  },
)

-- `JobRouter::recover_from_snapshot`, with `recover_with`, under the lock and whole.
unfoldable pub begin_recovery : JobRouter → JobSnapshot → Begun
begin_recovery j snapshot =
    if j.poisoned
    then ((err poisoned_state, done), send suspended j)
    else if j.state.registry.synchronized
    then ((err recovery_while_synchronized, done), j)
    else if not (holds j.state.backend_authority snapshot.connection_binding.authority)
    then ((err backend_authority_mismatch, done), send suspended j)
    else after_recovery j snapshot
        (record j.state { force_clean_jobs = true; recovery_only = false })
        (deliver_snapshot j.timeline snapshot j.state.registry)

unfoldable pub recover_from_snapshot : JobRouter → JobSnapshot → Answer (Unit {0})
recover_from_snapshot j snapshot = finish (begin_recovery j snapshot)

-- A subscription: whether it starts with a suspension, as `subscribe` sets it.
abbrev pub subscribe_updates : JobRouter → Bool
subscribe_updates j = j.poisoned || not j.state.registry.synchronized

-- What the bounded channel of a library answers.
pub data Received : Type 0 where
  received : JobUpdate → Received
  lagged : ℕ → Received
  receiver_closed : Received

-- `JobSubscription::receive`.
abbrev pub receive : Bool → Received → Result JobRouterError JobUpdate × Bool
receive true answer = (ok suspended, false)
receive false (received update) = (ok update, false)
receive false (lagged skipped) = (err (update_stream_lagged skipped), false)
receive false receiver_closed = (err update_stream_closed, false)
