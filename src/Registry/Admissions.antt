-- ===== src/Registry/Admissions.antt =====
-- Which admissions succeed: those of synchronized, accepting work, before its first deadline.
use pool.Base.{
  err-ne-ok, ok_injective, some_injective, true-ne-false, not-false, ℕ, ◌+◌, ◌<◌, ◌≡◌, ◌≢◌, refl,
  ap, sym, ◌∙◌, subst, true, false, not, List, Option, none, some, arith, leb, Bool-cases, inl, inr,
  ok, err, Result-cases, u64_mod,
}
use pool.Jobs.{JobRegistryError}
use pool.Registry.{
  RegistryEntry, GenerationRegistry, stored_generation, is_live, is_accepting, is_terminal, accepts,
  in_flight_of, lookup, suspend, advance_clock, expire_at, precedes,
}
use pool.Registry.Snapshot.{AcceptableJob, prepare_snapshot, apply_snapshot}
use pool.Registry.Events.{BackendEvent, apply_event_at, try_apply_event}
use pool.Registry.Admission.{GenerationAdmission, admit_entry, begin_admission}
use pool.Registry.Ages.{trans_Ages, accepting_live}
use pool.Registry.Lifetimes.{advance_clock-Keeps}
use pool.Registry.History.{Call, run, run-Keeps}

-- What an admission that succeeds says of the entry found.
admit_entry-ok :
    (r : GenerationRegistry) (id now_ms : ℕ) (found : Option RegistryEntry)
    {guard : GenerationAdmission}
    → (admit_entry r id now_ms found).0 ≡ ok guard
    → (entry : RegistryEntry) × (found ≡ some entry)
      × (accepts entry now_ms ≡ true)
      × (stored_generation entry.storage ≡ guard.generation)
admit_entry-ok r id now_ms none e = absurd (err-ne-ok e)
admit_entry-ok r id now_ms (some entry) e = elim (Bool-cases (not (accepts entry now_ms))) [
  | inl stale ↦ absurd (err-ne-ok (rw stale at e))
  | inr fresh ↦ elim (Bool-cases (leb u64_mod (in_flight_of entry.storage + 1))) [
    | inl full ↦ absurd (err-ne-ok (rw (fresh, full) at e))
    | inr room ↦ (
      entry,
      refl,
      not-false _ fresh,
      ap (λ (g : GenerationAdmission). g.generation) (ok_injective (rw (fresh, room) at e)),
    )
  ]
]

-- An admission succeeds only in a synchronized registry, of an entry that accepts.
begin_admission-ok :
    (r : GenerationRegistry) (id now_ms : ℕ) {guard : GenerationAdmission}
    → (begin_admission r id now_ms).0 ≡ ok guard
    → ((advance_clock now_ms r).1.synchronized ≡ true)
      × (entry : RegistryEntry) × (lookup id (advance_clock now_ms r).1.entries ≡ some entry)
      × (accepts entry now_ms ≡ true)
      × (stored_generation entry.storage ≡ guard.generation)
unfolding begin_admission
begin_admission-ok r id now_ms {guard} e =
    let advanced = (advance_clock now_ms r).1 in
    elim (Result-cases (advance_clock now_ms r).0) [
      | inr failed ↦ absurd (err-ne-ok (rw (begin_admission, failed.1) at e))
      | inl passed ↦ elim (Bool-cases (not advanced.synchronized)) [
        | inl lost ↦ absurd (err-ne-ok (rw (begin_admission, passed.1, lost) at e))
        | inr sync ↦
            let admitted =
              admit_entry-ok advanced id now_ms (lookup id advanced.entries)
                (rw (begin_admission, passed.1, sync) at e) in
            (not-false _ sync, admitted.0, admitted.1, admitted.2, admitted.3)
      ]
    ]

accepts-parts :
    (e : RegistryEntry) (now_ms : ℕ)
    → accepts e now_ms ≡ true
    → (is_accepting e.state ≡ true) × (is_live e.storage ≡ true) × now_ms < e.accept_until_ms
accepts-parts e now_ms h = (ground arith, ground arith, ground arith)

-- Whatever calls of the registry come between, admissions of Zcash candidates and questions
-- included, an identifier that was held is later given to `begin_admission` with success only if
-- it was not terminal and still had its live resource then, only before the deadline it had then,
-- and with the generation it held then: no terminal generation comes back, and no later call
-- extends a lifetime.
pub run-admission :
    (sha256 : List ℕ → List ℕ) (r : GenerationRegistry) (calls : List Call) (id now_ms : ℕ)
    (e : RegistryEntry) {guard : GenerationAdmission}
    → lookup id r.entries ≡ some e
    → (begin_admission (run sha256 r calls) id now_ms).0 ≡ ok guard
    → (is_terminal e.state ≡ false)
      × (is_live e.storage ≡ true)
      × now_ms < e.accept_until_ms
      × (guard.generation ≡ stored_generation e.storage)
run-admission sha256 r calls id now_ms e {guard} found admitted =
    let middle = run-Keeps sha256 r calls id e found in
    let last = advance_clock-Keeps now_ms (run sha256 r calls) id middle.0 middle.1 in
    let aged = trans_Ages e middle.0 last.0 middle.2 last.2 in
    let was = begin_admission-ok (run sha256 r calls) id now_ms admitted in
    let same : was.1 ≡ last.0 = some_injective (sym was.2 ∙ last.1) in
    let open_ =
      accepts-parts last.0 now_ms
        (subst (λ (x : RegistryEntry). accepts x now_ms ≡ true) same was.3) in
    let fresh : is_terminal e.state ≡ false = elim (Bool-cases (is_terminal e.state)) [
      | inl t ↦ absurd (accepting_live last.0.state open_.0 (aged.terminal t))
      | inr f ↦ f
    ] in
    let alive : is_live e.storage ≡ true = elim (Bool-cases (is_live e.storage)) [
      | inl t ↦ t
      | inr f ↦ absurd (true-ne-false (sym open_.1 ∙ aged.retired f))
    ] in
    (
      fresh,
      alive,
      omega (arith, open_.2, aged.deadline),
      sym was.4 ∙ ap (λ (x : RegistryEntry). stored_generation x.storage) same ∙ aged.generation,
    )

advance_clock-unsynchronized :
    (now_ms : ℕ) (r : GenerationRegistry)
    → r.synchronized ≡ false
    → (advance_clock now_ms r).1.synchronized ≡ false
unfolding advance_clock suspend expire_at
advance_clock-unsynchronized now_ms r h = elim (Bool-cases (precedes now_ms r.last_monotonic_ms)) [
  | inl back ↦ rw (advance_clock, back) refl
  | inr forth ↦ rw (advance_clock, forth) h
]

unsynchronized-refuses :
    (r : GenerationRegistry) (id now_ms : ℕ) (guard : GenerationAdmission)
    → r.synchronized ≡ false
    → (begin_admission r id now_ms).0 ≢ ok guard
unsynchronized-refuses r id now_ms guard h admitted =
    let was = begin_admission-ok r id now_ms admitted in
    absurd (true-ne-false (sym was.0 ∙ advance_clock-unsynchronized now_ms r h))

suspend-unsynchronized : (r : GenerationRegistry) → (suspend r).synchronized ≡ false
unfolding suspend
suspend-unsynchronized r = refl

apply_event_at-unsynchronized :
    (r : GenerationRegistry) (change : BackendEvent) (anchor_ms policy_now_ms : ℕ)
    {error : JobRegistryError}
    → (apply_event_at r change anchor_ms policy_now_ms).0 ≡ err error
    → (apply_event_at r change anchor_ms policy_now_ms).1.synchronized ≡ false
unfolding apply_event_at
apply_event_at-unsynchronized r change anchor_ms policy_now_ms e =
    let tried = try_apply_event r change anchor_ms policy_now_ms in
    elim (Result-cases tried.0) [
      | inr failed ↦ rw (apply_event_at, failed.1) (suspend-unsynchronized tried.1)
      | inl done ↦ absurd (err-ne-ok (sym (rw (apply_event_at, done.1) at e)))
    ]

-- After an event that fails, for whatever reason, no job is admitted at any time, by any
-- identifier.
pub apply_event_at-closes :
    (r : GenerationRegistry) (change : BackendEvent) (anchor_ms policy_now_ms : ℕ)
    {error : JobRegistryError}
    → (apply_event_at r change anchor_ms policy_now_ms).0 ≡ err error
    → (id now_ms : ℕ) (guard : GenerationAdmission)
    → (begin_admission (apply_event_at r change anchor_ms policy_now_ms).1 id now_ms).0 ≢ ok guard
apply_event_at-closes r change anchor_ms policy_now_ms e id now_ms guard =
    unsynchronized-refuses _ id now_ms guard
      (apply_event_at-unsynchronized r change anchor_ms policy_now_ms e)

apply_snapshot-unsynchronized :
    (r : GenerationRegistry) (seq : ℕ) (current : Option AcceptableJob)
    (recent : List AcceptableJob) (anchor_ms : ℕ) {error : JobRegistryError}
    → (apply_snapshot r seq current recent anchor_ms).0 ≡ err error
    → (apply_snapshot r seq current recent anchor_ms).1.synchronized ≡ false
unfolding apply_snapshot
apply_snapshot-unsynchronized r seq current recent anchor_ms e =
    elim (Result-cases (prepare_snapshot r seq current recent anchor_ms)) [
      | inr failed ↦ rw (apply_snapshot, failed.1) (suspend-unsynchronized r)
      | inl done ↦ absurd (err-ne-ok (sym (rw (apply_snapshot, done.1) at e)))
    ]

-- After a snapshot that fails, for whatever reason, no job is admitted at any time, by any
-- identifier.
pub apply_snapshot-closes :
    (r : GenerationRegistry) (seq : ℕ) (current : Option AcceptableJob)
    (recent : List AcceptableJob) (anchor_ms : ℕ) {error : JobRegistryError}
    → (apply_snapshot r seq current recent anchor_ms).0 ≡ err error
    → (id now_ms : ℕ) (guard : GenerationAdmission)
    → (begin_admission (apply_snapshot r seq current recent anchor_ms).1 id now_ms).0 ≢ ok guard
apply_snapshot-closes r seq current recent anchor_ms e id now_ms guard =
    unsynchronized-refuses _ id now_ms guard
      (apply_snapshot-unsynchronized r seq current recent anchor_ms e)
