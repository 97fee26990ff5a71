-- ===== src/Registry/Guards.antt =====
-- What a guard of crates/wcash-pool-core/src/jobs.rs is for: its generation is not retired.
use pool.Base.{
  ℕ, ◌+◌, ◌-◌, ◌≤◌, ◌<◌, ◌≡◌, refl, ap, sym, ◌∙◌, subst, true, not, List, Option, none, some, arith,
  leb, ◌==◌, Bool-cases, Result-cases, inl, inr, ok, Result, err, if◌then◌else◌, [], ◌∷◌, ==→eq,
  err-ne-ok, ok_injective, some_injective, not-false, u64_mod,
}
use pool.Jobs.{JobRegistryError}
use pool.Registry.{
  RegistryEntry, GenerationRegistry, GenerationStorage, live, tombstone, stored_generation, is_live,
  accepts, in_flight_of, lookup, adjust, advance_clock,
}
use pool.Registry.Admission.{GenerationAdmission, count_up, admit_entry, begin_admission}
use pool.Registry.Ages.{lookup-map_entries}
use pool.Registry.Lifetimes.{advance_clock-Keeps, begin_admission-Keeps}
use pool.Registry.History.{
  Call, suspending, snapshot, event, applying, admission, release, recovering, historical, paused,
  listing, asking, remembering, collection, spent, step, step-Keeps, run,
}

-- An entry of a generation with a number of guards in flight.
record IsCounted (r : GenerationRegistry) (id flights : ℕ) (guard : GenerationAdmission)
    : Type 0 where
  entry : RegistryEntry
  found : lookup id r.entries ≡ some entry
  counted : flights < in_flight_of entry.storage
  generation : stored_generation entry.storage ≡ guard.generation

count_up-in_flight :
    (s : GenerationStorage) → is_live s ≡ true → in_flight_of s < in_flight_of (count_up s)
count_up-in_flight (live g n) h = omega arith
count_up-in_flight (tombstone g) h = absurd (cc)

count_up-generation : (s : GenerationStorage) → stored_generation (count_up s) ≡ stored_generation s
count_up-generation (live g n) = refl
count_up-generation (tombstone g) = refl

accepts-live : (e : RegistryEntry) (now_ms : ℕ) → accepts e now_ms ≡ true → is_live e.storage ≡ true
accepts-live e now_ms h = ground arith

-- The entry that is counted up.
counted_up :
    (r : GenerationRegistry) (id : ℕ) (e : RegistryEntry)
    → lookup id r.entries ≡ some e
    → lookup id
        (adjust id (λ (x : RegistryEntry). record x { storage = count_up x.storage }) r.entries)
      ≡ some (record e { storage = count_up e.storage })
counted_up r id e found =
    let self : (id == id) ≡ true = ground arith in
    lookup-map_entries _ id r.entries found ∙ rw self refl

admit_entry-IsCounted :
    (r : GenerationRegistry) (id now_ms : ℕ) (found : Option RegistryEntry)
    {guard : GenerationAdmission}
    → lookup id r.entries ≡ found
    → (admit_entry r id now_ms found).0 ≡ ok guard
    → (e : RegistryEntry) × (found ≡ some e)
      × IsCounted (admit_entry r id now_ms found).1 id (in_flight_of e.storage) guard
admit_entry-IsCounted r id now_ms none held h = absurd (err-ne-ok h)
admit_entry-IsCounted r id now_ms (some e) {guard} held h =
    elim (Bool-cases (not (accepts e now_ms))) [
      | inl stale ↦ absurd (err-ne-ok (rw stale at h))
      | inr fresh ↦ elim (Bool-cases (leb u64_mod (in_flight_of e.storage + 1))) [
        | inl full ↦ absurd (err-ne-ok (rw (fresh, full) at h))
        | inr room ↦ (
          e,
          refl,
          rw (fresh, room)
              (record {
                entry = record e { storage = count_up e.storage };
                found = counted_up r id e held;
                counted = count_up-in_flight e.storage (accepts-live e now_ms (not-false _ fresh));
                generation =
                    count_up-generation e.storage
                    ∙ ap (λ (g : GenerationAdmission). g.generation)
                        (ok_injective (rw (fresh, room) at h));
              }),
        )
      ]
    ]

-- More guards were in flight before than are now, by a bound that is lower.
weaken :
    (r : GenerationRegistry) (id few many : ℕ) (guard : GenerationAdmission)
    → few ≤ many
    → IsCounted r id many guard
    → IsCounted r id few guard
weaken r id few many guard h c = record {
  entry = c.entry;
  found = c.found;
  counted = omega (arith, h, c.counted);
  generation = c.generation;
}

begin_admission-IsCounted :
    (r : GenerationRegistry) (id now_ms : ℕ) (e : RegistryEntry) {guard : GenerationAdmission}
    → lookup id r.entries ≡ some e
    → (begin_admission r id now_ms).0 ≡ ok guard
    → IsCounted (begin_admission r id now_ms).1 id (in_flight_of e.storage) guard
unfolding begin_admission
begin_admission-IsCounted r id now_ms e {guard} found h =
    let advanced = (advance_clock now_ms r).1 in
    elim (Result-cases (advance_clock now_ms r).0) [
      | inr failed ↦ absurd (err-ne-ok (rw (begin_admission, failed.1) at h))
      | inl passed ↦ elim (Bool-cases (not advanced.synchronized)) [
        | inl lost ↦ absurd (err-ne-ok (rw (begin_admission, passed.1, lost) at h))
        | inr sync ↦
            let aged = advance_clock-Keeps now_ms r id e found in
            let counted =
              admit_entry-IsCounted advanced id now_ms (lookup id advanced.entries) refl
                (rw (begin_admission, passed.1, sync) at h) in
            let same : aged.0 ≡ counted.0 = some_injective (sym aged.1 ∙ counted.1) in
            let fewer : in_flight_of e.storage ≤ in_flight_of counted.0.storage =
              subst (λ (x : RegistryEntry). in_flight_of e.storage ≤ in_flight_of x.storage) same
                (omega (arith, aged.2.flights)) in
            rw (begin_admission, passed.1, sync) (weaken _ id _ _ guard fewer counted.2)
      ]
    ]

in_flight-live : (s : GenerationStorage) → 0 < in_flight_of s → is_live s ≡ true
in_flight-live (live g n) h = refl
in_flight-live (tombstone g) h = absurd (omega (arith, h))

-- The guards of an identifier that an admission adds: one if it succeeds.
abbrev won : Result JobRegistryError GenerationAdmission → ℕ
won (ok guard) = 1
won (err e) = 0

abbrev pub admitted : GenerationRegistry → Call → ℕ → ℕ
admitted r (admission k now_ms) id = if k == id then won (begin_admission r k now_ms).0 else 0
admitted r _ id = 0

-- SHA-256 is a parameter.
module _ (sha256 : List ℕ → List ℕ) where
  -- A guard of an identifier stays out over calls, beside a number of others: what is released of
  -- that identifier are others, those that were out before and those admitted on the way.
  abbrev pub IsHeld : ℕ → ℕ → GenerationRegistry → List Call → Type 0
  IsHeld id others r [] = Unit
  IsHeld id others r (call ∷ calls) =
      (spent call id ≤ others)
      × IsHeld id (others + admitted r call id - spent call id) (step sha256 r call) calls

  -- A call that admits nothing of the identifier.
  spent-IsCounted :
      (r : GenerationRegistry) (call : Call) (id others : ℕ) {guard : GenerationAdmission}
      → spent call id ≤ others
      → IsCounted r id others guard
      → IsCounted (step sha256 r call) id (others + 0 - spent call id) guard
  spent-IsCounted r call id others few c =
      let aged = step-Keeps sha256 r call id c.entry c.found in
      record {
        entry = aged.0;
        found = aged.1;
        counted = omega (arith, aged.2.flights, c.counted, few);
        generation = aged.2.generation ∙ c.generation;
      }

  -- An admission of the identifier that succeeds.
  won-IsCounted :
      (r : GenerationRegistry) (id now_ms others : ℕ) {guard more : GenerationAdmission}
      → (begin_admission r id now_ms).0 ≡ ok more
      → IsCounted r id others guard
      → IsCounted (begin_admission r id now_ms).1 id (others + 1) guard
  won-IsCounted r id now_ms others passed c =
      let next = begin_admission-IsCounted r id now_ms c.entry c.found passed in
      let aged = begin_admission-Keeps r id now_ms id c.entry c.found in
      let same : aged.0 ≡ next.entry = some_injective (sym aged.1 ∙ next.found) in
      record {
        entry = next.entry;
        found = next.found;
        counted = omega (arith, next.counted, c.counted);
        generation =
            ap (λ (e : RegistryEntry). stored_generation e.storage) (sym same)
            ∙ aged.2.generation
            ∙ c.generation;
      }

  -- An admission of the identifier, whether it succeeds or not.
  admission-IsCounted :
      (r : GenerationRegistry) (id now_ms others : ℕ) {guard : GenerationAdmission}
      → IsCounted r id others guard
      → IsCounted
          (begin_admission r id now_ms).1
          id
          (others + won (begin_admission r id now_ms).0 - 0)
          guard
  unfolding step
  admission-IsCounted r id now_ms others {guard} c =
      elim (Result-cases (begin_admission r id now_ms).0) [
        | inl passed ↦
            rw passed.1
              (weaken _ id _ _ guard (omega arith) (won-IsCounted r id now_ms others passed.1 c))
        | inr failed ↦
            rw failed.1 (spent-IsCounted r (admission id now_ms) id others (omega arith) c)
      ]

  step-IsCounted :
      (r : GenerationRegistry) (call : Call) (id others : ℕ) {guard : GenerationAdmission}
      → spent call id ≤ others
      → IsCounted r id others guard
      → IsCounted (step sha256 r call) id (others + admitted r call id - spent call id) guard
  unfolding step
  step-IsCounted r (admission k now_ms) id others {guard} few c = elim (Bool-cases (k == id)) [
    | inl hit ↦ rw hit (
        subst
          (λ (x : ℕ).
            IsCounted (begin_admission r x now_ms).1 id
              (others + won (begin_admission r x now_ms).0 - 0) guard)
          (sym (==→eq k id hit)) (admission-IsCounted r id now_ms others c))
    | inr miss ↦ rw miss (spent-IsCounted r (admission k now_ms) id others few c)
  ]
  step-IsCounted r suspending id others few c = spent-IsCounted r suspending id others few c
  step-IsCounted r (snapshot q x y t) id others few c =
      spent-IsCounted r (snapshot q x y t) id others few c
  step-IsCounted r (event e a t) id others few c = spent-IsCounted r (event e a t) id others few c
  step-IsCounted r (applying e a) id others few c = spent-IsCounted r (applying e a) id others few c
  step-IsCounted r (release guard) id others few c =
      spent-IsCounted r (release guard) id others few c
  step-IsCounted r (recovering k n x t) id others few c =
      spent-IsCounted r (recovering k n x t) id others few c
  step-IsCounted r (historical k n x t) id others few c =
      spent-IsCounted r (historical k n x t) id others few c
  step-IsCounted r (paused k n x t) id others few c =
      spent-IsCounted r (paused k n x t) id others few c
  step-IsCounted r (listing t) id others few c = spent-IsCounted r (listing t) id others few c
  step-IsCounted r (asking t) id others few c = spent-IsCounted r (asking t) id others few c
  step-IsCounted r (remembering t) id others few c =
      spent-IsCounted r (remembering t) id others few c
  step-IsCounted r (collection t) id others few c = spent-IsCounted r (collection t) id others few c

  run-IsCounted :
      (r : GenerationRegistry) (calls : List Call) (id others : ℕ) {guard : GenerationAdmission}
      → IsHeld id others r calls
      → IsCounted r id others guard
      → IsCounted (run sha256 r calls) id 0 guard
  unfolding run
  run-IsCounted r [] id others {guard} held c = weaken r id 0 others guard (omega arith) c
  run-IsCounted r (call ∷ calls) id others held c =
      run-IsCounted (step sha256 r call) calls id (others + admitted r call id - spent call id)
        held.1 (step-IsCounted r call id others held.0 c)

  -- A generation is not retired while a guard of it is out. After an admission, over any calls of
  -- the registry in which the guard stays out, which is that each release of its identifier is
  -- covered by another guard, in flight before the admission or admitted on the way and not
  -- released yet, the registry still holds the live resource, of the generation that the guard was
  -- given.
  pub run-guarded :
      (r : GenerationRegistry) (id now_ms : ℕ) (e : RegistryEntry) (calls : List Call)
      {guard : GenerationAdmission}
      → lookup id r.entries ≡ some e
      → (begin_admission r id now_ms).0 ≡ ok guard
      → IsHeld id (in_flight_of e.storage) (begin_admission r id now_ms).1 calls
      → (later : RegistryEntry) × (lookup id
            (run sha256 (begin_admission r id now_ms).1 calls).entries
          ≡ some later)
        × (is_live later.storage ≡ true)
        × (stored_generation later.storage ≡ guard.generation)
  run-guarded r id now_ms e calls found passed held =
      let c =
        run-IsCounted (begin_admission r id now_ms).1 calls id (in_flight_of e.storage) held
          (begin_admission-IsCounted r id now_ms e found passed) in
      (c.entry, c.found, in_flight-live c.entry.storage c.counted, c.generation)
