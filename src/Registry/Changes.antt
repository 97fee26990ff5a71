-- ===== src/Registry/Changes.antt =====
-- An event keeps and ages every entry, and so does a whole call of `apply_event_at`.
use pool.Base.{
  ok_injective, none-ne-some, true-ne-false, ℕ, ◌≡◌, refl, sym, ◌∙◌, subst, true, false, not, ◌&&◌,
  Option, none, arith, ◌==◌, Bool-cases, Option-cases, inl, inr, length, ok, Result-cases, bind-ok,
  fail_if-ok, contains,
}
use pool.Jobs.{
  BackendGeneration, JobDescriptor, from_descriptor, new_job_id, reused_job_id,
  recent_capacity_exceeded, generation_capacity_exceeded,
}
use pool.Registry.{
  RegistryEntry, Entries, GenerationRegistry, invalidated, closed, is_accepting, is_closed, lookup,
  expire_at, latest, prune_winner_recovery, entry_is, deadline, winner_recovery_deadline,
}
use pool.Registry.Events.{
  BackendEvent, JobInvalidationReason, job_activated, job_invalidated, generation_closed, other,
  install_generation, check_activation, activate, is_superseded, is_some, prior_current,
  grace_entry, invalidate_entry, grant_grace, invalidate_job, close_generation, apply_change,
  check_event, record_event, try_apply_event, apply_event_at,
}
use pool.Registry.Ages.{
  Ages, Keeps, refl_Ages, state-Ages, refl_Keeps, trans_Keeps, insert-Keeps, accepting_live,
  closed_terminal,
}
use pool.Registry.Renewal.{remember_winner_recovery-entries}
use pool.Registry.Lifetimes.{adjust-Keeps, suspend-Keeps, expire_at-Keeps}

grace_entry-Ages :
    (proposed anchor_ms : ℕ) (e : RegistryEntry) → Ages e (grace_entry proposed anchor_ms e)
grace_entry-Ages proposed anchor_ms e = elim (Bool-cases (is_accepting e.state)) [
  | inl hit ↦ rw hit (record {
    generation = refl;
    deadline = omega arith;
    recovery = refl;
    terminal = λ t. absurd (accepting_live e.state hit t);
    closed = λ c. absurd (accepting_live e.state hit (closed_terminal e.state c));
    retired = λ h. h;
    flights = omega arith;
  })
  | inr miss ↦ rw miss (refl_Ages e)
]

invalidate_entry-Ages : (e : RegistryEntry) → Ages e (invalidate_entry e)
invalidate_entry-Ages e = elim (Bool-cases (is_closed e.state)) [
  | inl hit ↦ rw hit (refl_Ages e)
  | inr miss ↦ rw miss (state-Ages e invalidated (λ t. refl) (λ c. absurd (cc)))
]

close_entry-Ages : (e : RegistryEntry) → Ages e (record e { state = closed })
close_entry-Ages e = state-Ages e closed (λ t. refl) (λ c. refl)

close_generation-Keeps :
    (r : GenerationRegistry) (id : ℕ) → Keeps r.entries (close_generation r id).entries
unfolding close_generation
close_generation-Keeps r id =
    elim (Bool-cases (entry_is (λ (e : RegistryEntry). true) id r.entries)) [
      | inl held ↦ rw (close_generation, held) (adjust-Keeps id _ r.entries close_entry-Ages)
      | inr absent ↦ rw (close_generation, absent) (refl_Keeps r.entries)
    ]

grant_grace-Keeps :
    (r : GenerationRegistry) (id proposed anchor_ms : ℕ)
    → Keeps r.entries (grant_grace r id proposed anchor_ms).1.entries
unfolding grant_grace
grant_grace-Keeps r id proposed anchor_ms =
    elim (Bool-cases (not (contains id r.recent) && length r.recent == r.config.maximum_recent)) [
      | inl full ↦ rw (grant_grace, full) (refl_Keeps r.entries)
      | inr room ↦
          rw (grant_grace, room) (adjust-Keeps id _ r.entries (grace_entry-Ages proposed anchor_ms))
    ]

invalidate_job-Keeps :
    (r : GenerationRegistry) (id : ℕ) (reason : JobInvalidationReason) (accept_for_ms anchor_ms : ℕ)
    → Keeps r.entries (invalidate_job r id reason accept_for_ms anchor_ms).1.entries
unfolding invalidate_job
invalidate_job-Keeps r id reason accept_for_ms anchor_ms =
    elim (Bool-cases (not (entry_is (λ (e : RegistryEntry). true) id r.entries))) [
      | inl absent ↦ rw (invalidate_job, absent) (refl_Keeps r.entries)
      | inr held ↦
          elim (Bool-cases
            (not (entry_is (λ (e : RegistryEntry). is_accepting e.state) id r.entries))) [
              | inl idle ↦ rw (invalidate_job, held, idle) (refl_Keeps r.entries)
              | inr busy ↦ elim (Bool-cases (is_superseded reason && not (accept_for_ms == 0))) [
                | inr now ↦
                    rw (invalidate_job, held, busy, now)
                      (adjust-Keeps id invalidate_entry r.entries invalidate_entry-Ages)
                | inl grace ↦ elim (Result-cases (deadline anchor_ms accept_for_ms)) [
                  | inr failed ↦
                      rw (invalidate_job, held, busy, grace, failed.1) (refl_Keeps r.entries)
                  | inl until ↦
                      rw (invalidate_job, held, busy, grace, until.1)
                        (grant_grace-Keeps r id until.0 anchor_ms)
                ]
              ]
            ]
    ]

install_generation-Keeps :
    (r : GenerationRegistry) (g : BackendGeneration) (prior : Option ℕ) (accept_until anchor_ms : ℕ)
    → lookup g.id r.entries ≡ none
    → Keeps r.entries (install_generation r g prior accept_until anchor_ms).1.entries
unfolding install_generation prune_winner_recovery
install_generation-Keeps r g prior accept_until anchor_ms absent =
    elim (Result-cases (winner_recovery_deadline accept_until)) [
      | inr failed ↦ rw (install_generation, failed.1) (refl_Keeps r.entries)
      | inl recovery ↦
          rw (install_generation, recovery.1, remember_winner_recovery-entries _ _)
            (insert-Keeps r.entries r.entries g.id _ (refl_Keeps r.entries)
              (λ old found. absurd (none-ne-some (sym absent ∙ found))))
    ]

absent_lookup :
    (id : ℕ) (m : Entries)
    → entry_is (λ (e : RegistryEntry). true) id m ≡ false
    → lookup id m ≡ none
absent_lookup id m h = elim (Option-cases (lookup id m)) [
  | inl e ↦ e
  | inr found ↦ absurd (true-ne-false (rw (entry_is, found.1) at h))
]

-- An activation that is not refused brings a new identifier.
check_activation-new :
    (r : GenerationRegistry) (d : JobDescriptor) (anchor_ms : ℕ) {c : BackendGeneration × ℕ}
    → check_activation r d anchor_ms ≡ ok c
    → lookup c.0.id r.entries ≡ none
unfolding check_activation
check_activation-new r d anchor_ms {c} e =
    let made = bind-ok (from_descriptor d) _ e in
    let fresh =
      fail_if-ok (entry_is (λ (x : RegistryEntry). true) made.0.id r.entries)
        (reused_job_id made.0.id) _ made.2 in
    let few =
      fail_if-ok (is_some (prior_current r anchor_ms) && length r.recent == r.config.maximum_recent)
        (recent_capacity_exceeded r.config.maximum_recent) _ fresh.1 in
    let room =
      fail_if-ok (length r.entries == r.config.maximum_generations)
        (generation_capacity_exceeded r.config.maximum_generations) _ few.1 in
    let until = bind-ok (deadline anchor_ms made.0.descriptor.max_age_ms) _ room.1 in
    subst (λ (x : BackendGeneration × ℕ). lookup x.0.id r.entries ≡ none) (ok_injective until.2)
      (absent_lookup made.0.id r.entries fresh.0)

activate-Keeps :
    (r : GenerationRegistry) (d : JobDescriptor) (anchor_ms : ℕ)
    → Keeps r.entries (activate r d anchor_ms).1.entries
unfolding activate
activate-Keeps r d anchor_ms = elim (Result-cases (check_activation r d anchor_ms)) [
  | inr failed ↦ rw (activate, failed.1) (refl_Keeps r.entries)
  | inl checked ↦
      rw (activate, checked.1)
        (install_generation-Keeps r checked.0.0 _ checked.0.1 anchor_ms
          (check_activation-new r d anchor_ms checked.1))
]

apply_change-Keeps :
    (r : GenerationRegistry) (event : BackendEvent) (anchor_ms : ℕ)
    → Keeps r.entries (apply_change r event anchor_ms).1.entries
unfolding apply_change
apply_change-Keeps r (job_activated seq job) anchor_ms = activate-Keeps r job anchor_ms
apply_change-Keeps r (job_invalidated seq job_id reason accept_for_ms) anchor_ms =
    elim (Result-cases (new_job_id job_id)) [
      | inr failed ↦ rw (apply_change, failed.1) (refl_Keeps r.entries)
      | inl made ↦
          rw (apply_change, made.1)
            (invalidate_job-Keeps (record r { winner_recovery = _ }) made.0 reason accept_for_ms
              anchor_ms)
    ]
apply_change-Keeps r (generation_closed seq job_id) anchor_ms =
    elim (Result-cases (new_job_id job_id)) [
      | inr failed ↦ rw (apply_change, failed.1) (refl_Keeps r.entries)
      | inl made ↦ rw (apply_change, made.1) (close_generation-Keeps r made.0)
    ]
apply_change-Keeps r (other seq valid) anchor_ms = refl_Keeps r.entries

record_event-Keeps :
    (r : GenerationRegistry) (event : BackendEvent) (anchor_ms now_ms : ℕ)
    → Keeps r.entries (record_event r event anchor_ms now_ms).entries
unfolding record_event
record_event-Keeps r event anchor_ms now_ms = expire_at-Keeps now_ms r

try_apply_event-Keeps :
    (r : GenerationRegistry) (event : BackendEvent) (anchor_ms policy_now_ms : ℕ)
    → Keeps r.entries (try_apply_event r event anchor_ms policy_now_ms).1.entries
unfolding try_apply_event
try_apply_event-Keeps r event anchor_ms policy_now_ms =
    let now_ms = latest policy_now_ms r.last_monotonic_ms in
    let changed = apply_change (expire_at now_ms r) event anchor_ms in
    let kept =
      trans_Keeps r.entries (expire_at now_ms r).entries changed.1.entries
        (expire_at-Keeps now_ms r) (apply_change-Keeps (expire_at now_ms r) event anchor_ms) in
    elim (Result-cases (check_event r event anchor_ms policy_now_ms)) [
      | inr refused ↦ rw (try_apply_event, refused.1) (refl_Keeps r.entries)
      | inl checked ↦ elim (Result-cases changed.0) [
        | inr failed ↦ rw (try_apply_event, checked.1, failed.1) kept
        | inl done ↦
            rw (try_apply_event, checked.1, done.1)
              (trans_Keeps r.entries changed.1.entries _ kept
                (record_event-Keeps changed.1 event anchor_ms now_ms))
      ]
    ]

pub apply_event_at-Keeps :
    (r : GenerationRegistry) (event : BackendEvent) (anchor_ms policy_now_ms : ℕ)
    → Keeps r.entries (apply_event_at r event anchor_ms policy_now_ms).1.entries
unfolding apply_event_at
apply_event_at-Keeps r event anchor_ms policy_now_ms =
    let tried = try_apply_event r event anchor_ms policy_now_ms in
    let kept = try_apply_event-Keeps r event anchor_ms policy_now_ms in
    elim (Result-cases tried.0) [
      | inr failed ↦
          rw (apply_event_at, failed.1)
            (trans_Keeps r.entries tried.1.entries _ kept (suspend-Keeps tried.1))
      | inl done ↦ rw (apply_event_at, done.1) kept
    ]
