-- ===== src/Registry/Sequence.antt =====
-- The journal is read without a gap.
use pool.Base.{
  ℕ, ◌+◌, ◌≡◌, refl, ap, ◌∙◌, Bool, true, false, not, ltb, leb, ◌==◌, ==→eq, Option, none, some,
  Result, ok, ok_or, err-ne-ok, ok_injective, not-false, bind-ok, fail_if-ok, fail_if, Result-cases,
  inl, inr, u64_mod,
}
use pool.Jobs.{
  JobRegistryError, clock_moved_backwards, not_synchronized, invalid_backend_event,
  event_sequence_exhausted,
}
use pool.Registry.{GenerationRegistry, latest, precedes, expire_at}
use pool.Registry.Events.{
  BackendEvent, event_seq, event_valid, check_event, apply_change, record_event, try_apply_event,
  apply_event_at,
}

pub ok_or-ok {ℓ κ} :
    {E : Type ℓ} {A : Type κ} (o : Option A) (e : E) {a : A} → ok_or o e ≡ ok a → o ≡ some a
ok_or-ok none e h = absurd (err-ne-ok h)
ok_or-ok (some a) e h = ap some (ok_injective h)

-- What the checks of an event that pass have seen.
record IsNext (r : GenerationRegistry) (change : BackendEvent) : Type 0 where
  synchronized : r.synchronized ≡ true
  previous : ℕ
  last : r.last_event_seq ≡ some previous
  next : event_seq change ≡ previous + 1

check_event-IsNext :
    (r : GenerationRegistry) (change : BackendEvent) (anchor_ms policy_now_ms : ℕ) {u : Unit {0}}
    → check_event r change anchor_ms policy_now_ms ≡ ok u
    → IsNext r change
unfolding check_event
check_event-IsNext r change anchor_ms policy_now_ms e =
    let sync = fail_if-ok (not r.synchronized) not_synchronized _ e in
    let delivery =
      fail_if-ok (precedes anchor_ms r.last_delivery_anchor_ms) clock_moved_backwards _ sync.1 in
    let clock =
      fail_if-ok (precedes policy_now_ms r.last_monotonic_ms) clock_moved_backwards _ delivery.1 in
    let order = fail_if-ok (ltb policy_now_ms anchor_ms) clock_moved_backwards _ clock.1 in
    let valid = fail_if-ok (not (event_valid change)) invalid_backend_event _ order.1 in
    let before = bind-ok (ok_or r.last_event_seq not_synchronized) _ valid.1 in
    let room = fail_if-ok (leb u64_mod (before.0 + 1)) event_sequence_exhausted _ before.2 in
    record {
      synchronized = not-false _ sync.0;
      previous = before.0;
      last = ok_or-ok r.last_event_seq not_synchronized before.1;
      next = ==→eq _ _ (passed (event_seq change == before.0 + 1) _ room.1);
    }
  where
    passed : (b : Bool) (x : JobRegistryError) {w : Unit {0}} → fail_if (not b) x ≡ ok w → b ≡ true
    passed true x h = refl
    passed false x h = absurd (err-ne-ok h)

-- The registry after an event whose checks and whose change succeed.
try_apply_event-done :
    (r : GenerationRegistry) (change : BackendEvent) (anchor_ms policy_now_ms : ℕ) {u v : Unit {0}}
    → check_event r change anchor_ms policy_now_ms ≡ ok u
    → (apply_change (expire_at (latest policy_now_ms r.last_monotonic_ms) r) change anchor_ms).0
      ≡ ok v
    → try_apply_event r change anchor_ms policy_now_ms ≡ (
      ok tt,
      record_event
          (apply_change (expire_at (latest policy_now_ms r.last_monotonic_ms) r) change anchor_ms).1
          change
          anchor_ms
          (latest policy_now_ms r.last_monotonic_ms),
    )
unfolding try_apply_event
try_apply_event-done r change anchor_ms policy_now_ms c d = rw (try_apply_event, c, d) refl

apply_event_at-done :
    (r : GenerationRegistry) (change : BackendEvent) (anchor_ms policy_now_ms : ℕ) {u v : Unit {0}}
    → check_event r change anchor_ms policy_now_ms ≡ ok u
    → (apply_change (expire_at (latest policy_now_ms r.last_monotonic_ms) r) change anchor_ms).0
      ≡ ok v
    → apply_event_at r change anchor_ms policy_now_ms ≡ (
      ok tt,
      record_event
          (apply_change (expire_at (latest policy_now_ms r.last_monotonic_ms) r) change anchor_ms).1
          change
          anchor_ms
          (latest policy_now_ms r.last_monotonic_ms),
    )
unfolding apply_event_at
apply_event_at-done r change anchor_ms policy_now_ms c d =
    let done = try_apply_event-done r change anchor_ms policy_now_ms c d in
    rw (apply_event_at, done)
      (ap
        (λ (x : Result JobRegistryError (Unit {0}) × GenerationRegistry).
          (let first : Result JobRegistryError (Unit {0}) = ok tt in (first, x.1)))
        done)

-- An event is applied only by a synchronized registry, and only as the next one of the journal:
-- its sequence number is one more than the last, and becomes the last.
pub apply_event_at-contiguous :
    (r : GenerationRegistry) (change : BackendEvent) (anchor_ms policy_now_ms : ℕ) {u : Unit {0}}
    → (apply_event_at r change anchor_ms policy_now_ms).0 ≡ ok u
    → (r.synchronized ≡ true)
      × (previous : ℕ) × (r.last_event_seq ≡ some previous)
      × (event_seq change ≡ previous + 1)
      × ((apply_event_at r change anchor_ms policy_now_ms).1.last_event_seq ≡ some (previous + 1))
unfolding apply_event_at try_apply_event record_event
apply_event_at-contiguous r change anchor_ms policy_now_ms e =
    let now_ms = latest policy_now_ms r.last_monotonic_ms in
    let changed = apply_change (expire_at now_ms r) change anchor_ms in
    elim (Result-cases (check_event r change anchor_ms policy_now_ms)) [
      | inr refused ↦ absurd (err-ne-ok (rw (apply_event_at, try_apply_event, refused.1) at e))
      | inl checked ↦ elim (Result-cases changed.0) [
        | inr failed ↦
            absurd (err-ne-ok (rw (apply_event_at, try_apply_event, checked.1, failed.1) at e))
        | inl done ↦
            let k = check_event-IsNext r change anchor_ms policy_now_ms checked.1 in
            (
              k.synchronized,
              k.previous,
              k.last,
              k.next,
              ap
                    (λ (x : Result JobRegistryError (Unit {0}) × GenerationRegistry).
                      x.1.last_event_seq)
                    (apply_event_at-done r change anchor_ms policy_now_ms checked.1 done.1)
                  ∙ ap some k.next,
            )
      ]
    ]
