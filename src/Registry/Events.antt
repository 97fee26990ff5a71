-- ===== src/Registry/Events.antt =====
-- `apply_event`, `apply_event_at` and what they call, of crates/wcash-pool-core/src/jobs.rs, with
-- the events of crates/wcash-pool-protocol/src/backend.rs.
use pool.Base.{
  ℕ, ◌+◌, min, Bool, true, false, not, ◌&&◌, List, ◌∷◌, Option, none, some, ltb, leb, ◌==◌,
  if◌then◌else◌, Result, ok, err, ◌>>=◌, ◌>>◌, fail_if, ok_or, length, contains, keep, u64_mod,
}
use pool.Jobs.{
  JobDescriptor, validate, BackendGeneration, from_descriptor, new_job_id, JobRegistryError,
  reused_job_id, recent_capacity_exceeded, generation_capacity_exceeded, clock_moved_backwards,
  not_synchronized, invalid_backend_event, event_sequence_exhausted, event_sequence_gap,
}
use pool.Registry.{
  GenerationRegistry, RegistryEntry, Reply, accepting, closed, invalidated, live, is_accepting,
  is_closed, accepts, entry_is, filter_option, insert, adjust, deadline, winner_recovery_deadline,
  precedes, latest, suspend, expire_at, remember_winner_recovery, prune_winner_recovery,
}

pub data JobInvalidationReason : Type 0 where
  wcash_tip_changed zcash_tip_changed superseded age : JobInvalidationReason

-- The three events that change generations. `other` stands for the seven events on shares and
-- winners, which the registry only counts; its second part is the answer of their validation.
pub data BackendEvent : Type 0 where
  job_activated : ℕ → JobDescriptor → BackendEvent
  job_invalidated : ℕ → ℕ → JobInvalidationReason → ℕ → BackendEvent
  generation_closed : ℕ → ℕ → BackendEvent
  other : ℕ → Bool → BackendEvent

abbrev pub event_seq : BackendEvent → ℕ
event_seq (job_activated seq job) = seq
event_seq (job_invalidated seq id reason accept_for_ms) = seq
event_seq (generation_closed seq id) = seq
event_seq (other seq valid) = seq

-- The grace that a reason permits.
unfoldable pub grace_fits : JobInvalidationReason → ℕ → Bool
grace_fits wcash_tip_changed accept_for_ms = accept_for_ms == 0
grace_fits zcash_tip_changed accept_for_ms = accept_for_ms == 0
grace_fits superseded accept_for_ms = leb 1 accept_for_ms && leb accept_for_ms 60_000
grace_fits age accept_for_ms = accept_for_ms == 0

abbrev pub is_ok {ℓ κ} : {E : Type ℓ} {A : Type κ} → Result E A → Bool
is_ok (ok a) = true
is_ok (err e) = false

unfoldable pub payload_valid : BackendEvent → Bool
payload_valid (job_activated seq job) = is_ok (validate job)
payload_valid (job_invalidated seq id reason accept_for_ms) =
    not (id == 0) && grace_fits reason accept_for_ms
payload_valid (generation_closed seq id) = not (id == 0)
payload_valid (other seq valid) = valid

-- `BackendEvent::validate`.
unfoldable pub event_valid : BackendEvent → Bool
event_valid event = not (event_seq event == 0) && payload_valid event

-- `retain(|kept| *kept != id)`.
abbrev pub without : ℕ → List ℕ → List ℕ
without id list = keep (λ (k : ℕ). not (k == id)) list

-- `activate` once its checks have passed.
unfoldable pub install_generation :
    GenerationRegistry → BackendGeneration → Option ℕ → ℕ → ℕ → Reply (Unit {0})
install_generation r generation prior accept_until anchor_ms =
    let shifted : GenerationRegistry = record r {
      recent = elim prior [ none ↦ r.recent | some id ↦ id ∷ r.recent ];
    } in
    elim (winner_recovery_deadline accept_until) [
      | err e ↦ (err e, shifted)
      | ok recovery ↦
          let entry : RegistryEntry = record {
            storage = live generation 0;
            accept_until_ms = accept_until;
            winner_recovery_until_ms = recovery;
            state = accepting;
          } in
          let inserted : GenerationRegistry = record shifted {
            entries = insert generation.id entry r.entries;
            current = some generation.id;
          } in
          (ok tt, prune_winner_recovery anchor_ms (remember_winner_recovery generation.id inserted))
    ]

abbrev pub is_some : Option ℕ → Bool
is_some none = false
is_some (some id) = true

-- The current generation, if it still accepts.
abbrev pub prior_current : GenerationRegistry → ℕ → Option ℕ
prior_current r anchor_ms =
    filter_option (λ (id : ℕ). entry_is (λ (e : RegistryEntry). accepts e anchor_ms) id r.entries)
      (r.current)

-- The checks of `activate`: the new generation and its deadline.
unfoldable pub check_activation :
    GenerationRegistry → JobDescriptor → ℕ → Result JobRegistryError (BackendGeneration × ℕ)
check_activation r descriptor anchor_ms = do
  generation ← from_descriptor descriptor
  fail_if (entry_is (λ (e : RegistryEntry). true) generation.id r.entries)
      (reused_job_id generation.id)
  fail_if (is_some (prior_current r anchor_ms) && length r.recent == r.config.maximum_recent)
      (recent_capacity_exceeded r.config.maximum_recent)
  fail_if (length r.entries == r.config.maximum_generations)
      (generation_capacity_exceeded r.config.maximum_generations)
  accept_until ← deadline anchor_ms generation.descriptor.max_age_ms
  ok (generation, accept_until)

unfoldable pub activate : GenerationRegistry → JobDescriptor → ℕ → Reply (Unit {0})
activate r descriptor anchor_ms = elim (check_activation r descriptor anchor_ms) [
  | err e ↦ (err e, r)
  | ok checked ↦ install_generation r checked.0 (prior_current r anchor_ms) checked.1 anchor_ms
]

-- The entry of superseded work that keeps a grace period.
abbrev pub grace_entry : ℕ → ℕ → RegistryEntry → RegistryEntry
grace_entry proposed anchor_ms e =
    if is_accepting e.state
    then (let until = min e.accept_until_ms proposed in
        record e {
          accept_until_ms = until;
          state = if ltb anchor_ms until then accepting else invalidated;
        })
    else e

abbrev pub invalidate_entry : RegistryEntry → RegistryEntry
invalidate_entry e = if is_closed e.state then e else record e { state = invalidated }

-- The end of `invalidate_job`: the work is no longer current, and only accepting work stays recent.
abbrev pub leave_roles : ℕ → ℕ → GenerationRegistry → GenerationRegistry
leave_roles id anchor_ms r = record r {
  current = filter_option (λ (k : ℕ). not (k == id)) r.current;
  recent =
      if entry_is (λ (e : RegistryEntry). accepts e anchor_ms) id r.entries
      then r.recent
      else without id r.recent;
}

abbrev pub is_superseded : JobInvalidationReason → Bool
is_superseded superseded = true
is_superseded wcash_tip_changed = false
is_superseded zcash_tip_changed = false
is_superseded age = false

-- `invalidate_job` of superseded work with a grace period that ends at `proposed`.
unfoldable pub grant_grace : GenerationRegistry → ℕ → ℕ → ℕ → Reply (Unit {0})
grant_grace r id proposed anchor_ms =
    let entries = adjust id (grace_entry proposed anchor_ms) r.entries in
    let already = contains id r.recent in
    let joins = entry_is (λ (e : RegistryEntry). is_accepting e.state) id entries && not already in
    if not already && length r.recent == r.config.maximum_recent
    then (err (recent_capacity_exceeded r.config.maximum_recent), r)
    else (
      ok tt,
      leave_roles id anchor_ms
          (record r { entries = entries; recent = if joins then id ∷ r.recent else r.recent }),
    )

unfoldable pub invalidate_job :
    GenerationRegistry → ℕ → JobInvalidationReason → ℕ → ℕ → Reply (Unit {0})
invalidate_job r id reason accept_for_ms anchor_ms =
    if not (entry_is (λ (e : RegistryEntry). true) id r.entries)
    then (ok tt, r)
    else if not (entry_is (λ (e : RegistryEntry). is_accepting e.state) id r.entries)
    then (
      ok tt,
      record r {
        current = filter_option (λ (k : ℕ). not (k == id)) r.current;
        recent = without id r.recent;
      },
    )
    else if is_superseded reason && not (accept_for_ms == 0)
    then elim (deadline anchor_ms accept_for_ms) [
      | err e ↦ (err e, r)
      | ok proposed ↦ grant_grace r id proposed anchor_ms
    ]
    else (
      ok tt,
      leave_roles id anchor_ms (record r { entries = adjust id invalidate_entry r.entries }),
    )

abbrev pub is_zcash_tip : JobInvalidationReason → Bool
is_zcash_tip zcash_tip_changed = true
is_zcash_tip wcash_tip_changed = false
is_zcash_tip superseded = false
is_zcash_tip age = false

unfoldable pub close_generation : GenerationRegistry → ℕ → GenerationRegistry
close_generation r id =
    if entry_is (λ (e : RegistryEntry). true) id r.entries
    then record r {
      entries = adjust id (λ (e : RegistryEntry). record e { state = closed }) r.entries;
      current = filter_option (λ (k : ℕ). not (k == id)) r.current;
      recent = without id r.recent;
      winner_recovery = without id r.winner_recovery;
    }
    else r

-- The `match event` of `try_apply_event`.
unfoldable pub apply_change : GenerationRegistry → BackendEvent → ℕ → Reply (Unit {0})
apply_change r (job_activated seq job) anchor_ms = activate r job anchor_ms
apply_change r (job_invalidated seq job_id reason accept_for_ms) anchor_ms =
    let forgets =
      if is_zcash_tip reason then without job_id r.winner_recovery else r.winner_recovery in
    elim (new_job_id job_id) [
      | err e ↦ (err e, r)
      | ok id ↦
          invalidate_job (record r { winner_recovery = forgets }) id reason accept_for_ms anchor_ms
    ]
apply_change r (generation_closed seq job_id) anchor_ms = elim (new_job_id job_id) [
  | err e ↦ (err e, r)
  | ok id ↦ (ok tt, close_generation r id)
]
apply_change r (other seq valid) anchor_ms = (ok tt, r)

-- The checks of `try_apply_event`, none of which changes the registry.
unfoldable pub check_event :
    GenerationRegistry → BackendEvent → ℕ → ℕ → Result JobRegistryError (Unit {0})
check_event r event anchor_ms policy_now_ms = do
  fail_if (not r.synchronized) not_synchronized
  fail_if (precedes anchor_ms r.last_delivery_anchor_ms) clock_moved_backwards
  fail_if (precedes policy_now_ms r.last_monotonic_ms) clock_moved_backwards
  fail_if (ltb policy_now_ms anchor_ms) clock_moved_backwards
  fail_if (not (event_valid event)) invalid_backend_event
  previous ← ok_or r.last_event_seq not_synchronized
  fail_if (leb u64_mod (previous + 1)) event_sequence_exhausted
  fail_if (not (event_seq event == previous + 1))
      (event_sequence_gap (previous + 1) (event_seq event))

-- `try_apply_event` after the change.
unfoldable pub record_event : GenerationRegistry → BackendEvent → ℕ → ℕ → GenerationRegistry
record_event r event anchor_ms now_ms =
    let expired = expire_at now_ms r in
    record expired {
      last_event_seq = some (event_seq event);
      watermark_current = expired.current;
      watermark_recent = expired.recent;
      last_delivery_anchor_ms = some anchor_ms;
      last_monotonic_ms = some now_ms;
    }

unfoldable pub try_apply_event : GenerationRegistry → BackendEvent → ℕ → ℕ → Reply (Unit {0})
try_apply_event r event anchor_ms policy_now_ms =
    let now_ms = latest policy_now_ms r.last_monotonic_ms in
    elim (check_event r event anchor_ms policy_now_ms) [
      | err e ↦ (err e, r)
      | ok _ ↦
          let changed = apply_change (expire_at now_ms r) event anchor_ms in
          elim changed.0 [
            | err e ↦ (err e, changed.1)
            | ok _ ↦ (ok tt, record_event changed.1 event anchor_ms now_ms)
          ]
    ]

unfoldable pub apply_event_at : GenerationRegistry → BackendEvent → ℕ → ℕ → Reply (Unit {0})
apply_event_at r event anchor_ms policy_now_ms =
    let tried = try_apply_event r event anchor_ms policy_now_ms in
    elim tried.0 [ err e ↦ (err e, suspend tried.1) | ok _ ↦ (ok tt, tried.1) ]

unfoldable pub apply_event : GenerationRegistry → BackendEvent → ℕ → Reply (Unit {0})
apply_event r event anchor_ms =
    apply_event_at r event anchor_ms (latest anchor_ms r.last_monotonic_ms)
