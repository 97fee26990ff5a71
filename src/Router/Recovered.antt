-- ===== src/Router/Recovered.antt =====
-- The calls of crates/wcash-pool-edge/src/router.rs that suspend, deliver or recover honour an owed
-- clean activation.
use pool.Base.{ℕ, ◌≡◌, refl, true, false, not, ◌||◌, [], Result, ok, err, Option-cases, inl, inr}
use pool.Registry.{GenerationRegistry, holds}
use pool.Registry.Events.{BackendEvent}
use pool.Router.{
  TimelineError, BackendConnectionBinding, RouterState, JobRouter, update_for, suspend_router,
  suspend_if_bound, is_bound, same_connection, JobStateIntegrationError,
}
use pool.Router.Journal.{
  DeliveredBackendEvent, JobSnapshot, BackendClient, client_binding, deliver_event,
  deliver_snapshot, after_delivery, after_recovery, begin_delivery, begin_event, begin_recovery,
}
use pool.Router.Clean.{IsClean, refl_IsClean, unsent-IsClean, suspend_all-IsClean, warned-IsClean}
use pool.Router.Owed.{update_for-Owed, publish_update-IsClean}
use pool.Router.Held.{if-IsClean}

pub suspend_router-IsClean : (j : JobRouter) → IsClean j (suspend_router j).1
unfolding suspend_router
suspend_router-IsClean j =
    if-IsClean j j.poisoned _ _ (warned-IsClean j) (suspend_all-IsClean j j.state)

pub suspend_if_bound-IsClean :
    (j : JobRouter) (binding : BackendConnectionBinding) → IsClean j (suspend_if_bound j binding).1
unfolding suspend_if_bound
suspend_if_bound-IsClean j binding = if-IsClean j j.poisoned _ _ (warned-IsClean j) (
    if-IsClean j (not (is_bound j.state.connection_binding binding)) _ _ (refl_IsClean j)
      (suspend_all-IsClean j j.state))

after_delivery-IsClean :
    (j : JobRouter) (event : BackendEvent) (now_ms : ℕ)
    (delivery : Result JobStateIntegrationError (Unit {0}) × GenerationRegistry)
    → IsClean j (after_delivery j event now_ms delivery).1
after_delivery-IsClean j event now_ms (err e, r) =
    unsent-IsClean j (record j.state { registry = r }) (λ owed. owed)
after_delivery-IsClean j event now_ms (ok _, r) =
    publish_update-IsClean j (record j.state { registry = r })
      (update_for (record j.state { registry = r }) event now_ms) (λ owed. owed)
      (update_for-Owed (record j.state { registry = r }) event now_ms)

begin_delivery-IsClean :
    (j : JobRouter) (required : BackendConnectionBinding) (delivered : DeliveredBackendEvent)
    (now : Result TimelineError ℕ)
    → IsClean j (begin_delivery j required delivered now).1
unfolding begin_delivery
begin_delivery-IsClean j required delivered (err e) =
    if-IsClean j j.poisoned _ _ (warned-IsClean j) (
      if-IsClean j
        (not (same_connection delivered.connection_binding required)
          || not (is_bound j.state.connection_binding required))
        _ _ (refl_IsClean j) (suspend_all-IsClean j j.state))
begin_delivery-IsClean j required delivered (ok now_ms) =
    if-IsClean j j.poisoned _ _ (warned-IsClean j) (
      if-IsClean j
        (not (same_connection delivered.connection_binding required)
          || not (is_bound j.state.connection_binding required))
        _ _ (refl_IsClean j)
        (after_delivery-IsClean j delivered.event now_ms
          (deliver_event j.timeline delivered j.state.registry now_ms)))

pub begin_event-IsClean :
    (j : JobRouter) (client : BackendClient) (delivered : DeliveredBackendEvent)
    (now : Result TimelineError ℕ)
    → IsClean j (begin_event j client delivered now).1
unfolding begin_event
begin_event-IsClean j client delivered now = elim (Option-cases (client_binding client)) [
  | inl down ↦ rw (begin_event, down) (refl_IsClean j)
  | inr up ↦ rw (begin_event, up.1) (begin_delivery-IsClean j up.0 delivered now)
]

after_recovery-IsClean :
    (j : JobRouter) (snapshot : JobSnapshot) (s : RouterState)
    (delivery : Result JobStateIntegrationError (Unit {0}) × GenerationRegistry)
    → s.force_clean_jobs ≡ true
    → IsClean j (after_recovery j snapshot s delivery).1
after_recovery-IsClean j snapshot s (err e, r) h = record {
  sent = [];
  updates = refl;
  owed = λ owed. inr (refl, h);
}
after_recovery-IsClean j snapshot s (ok _, r) h = record {
  sent = [];
  updates = refl;
  owed = λ owed. inr (refl, h);
}

pub begin_recovery-IsClean :
    (j : JobRouter) (snapshot : JobSnapshot) → IsClean j (begin_recovery j snapshot).1
unfolding begin_recovery
begin_recovery-IsClean j snapshot = if-IsClean j j.poisoned _ _ (warned-IsClean j) (
    if-IsClean j j.state.registry.synchronized _ _ (refl_IsClean j) (
      if-IsClean j (not (holds j.state.backend_authority snapshot.connection_binding.authority)) _ _
        (warned-IsClean j)
        (after_recovery-IsClean j snapshot
          (record j.state { force_clean_jobs = true; recovery_only = false })
          (deliver_snapshot j.timeline snapshot j.state.registry) refl)))
