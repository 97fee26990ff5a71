-- ===== src/Registry/Lifetimes.antt =====
-- Every operation of the registry keeps every entry, and ages it: none is forgotten, no deadline
-- moves out and no terminal state is left.
use pool.Base.{
  ◌≤◌, true, ◌&&◌, if◌then◌else◌, ℕ, zero, suc, ◌+◌, ◌≡◌, refl, false, not, Option, none, some,
  arith, leb, ◌==◌, Bool-cases, inl, inr, Result-cases, u64_mod,
}
use pool.Registry.{
  RegistryEntry, Entries, GenerationRegistry, GenerationStorage, live, tombstone, stored_generation,
  is_live, in_flight_of, accepts, adjust, suspend_entry, expire_entry, suspend, expire_at,
  advance_clock, precedes,
}
use pool.Registry.Admission.{
  GenerationAdmission, count_up, count_down, count_admission, admit_entry, begin_admission,
  drop_admission, retire_entry, retires, collect_retired, is_ordinary,
}
use pool.Registry.Ages.{
  AgesWith, KeepsWith, map_entries-KeepsWith, Ages, Keeps, refl_Ages, refl_Keeps, trans_Keeps,
  map_entries-Keeps, expire_entry-Ages, suspend_entry-Ages,
}

pub suspend-Keeps : (r : GenerationRegistry) → Keeps r.entries (suspend r).entries
unfolding suspend
suspend-Keeps r = map_entries-Keeps suspend_entry r.entries suspend_entry-Ages

pub expire_at-Keeps :
    (now_ms : ℕ) (r : GenerationRegistry) → Keeps r.entries (expire_at now_ms r).entries
unfolding expire_at
expire_at-Keeps now_ms r =
    map_entries-Keeps (expire_entry now_ms) r.entries (expire_entry-Ages now_ms)

pub advance_clock-Keeps :
    (now_ms : ℕ) (r : GenerationRegistry) → Keeps r.entries (advance_clock now_ms r).1.entries
unfolding advance_clock
advance_clock-Keeps now_ms r = elim (Bool-cases (precedes now_ms r.last_monotonic_ms)) [
  | inl back ↦ rw back (suspend-Keeps r)
  | inr forth ↦ rw forth (expire_at-Keeps now_ms r)
]

pub adjust-Keeps :
    (id : ℕ) (f : RegistryEntry → RegistryEntry) (m : Entries)
    → ((e : RegistryEntry) → Ages e (f e))
    → Keeps m (adjust id f m)
adjust-Keeps id f m ages = map_entries-Keeps _ m (λ k e. elim (Bool-cases (k == id)) [
  | inl hit ↦ rw hit (ages e)
  | inr miss ↦ rw miss (refl_Ages e)
])

-- A change of storage that keeps its generation and does not revive a tombstone.
storage-Ages :
    (releases : ℕ) (e : RegistryEntry) (s : GenerationStorage)
    → stored_generation s ≡ stored_generation e.storage
    → (is_live e.storage ≡ false → is_live s ≡ false)
    → in_flight_of e.storage ≤ in_flight_of s + releases
    → AgesWith releases e (record e { storage = s })
storage-Ages releases e s same dead flights = record {
  generation = same;
  deadline = omega arith;
  recovery = refl;
  terminal = λ h. h;
  closed = λ h. h;
  retired = dead;
  flights = flights;
}

count_up-Ages : (e : RegistryEntry) → Ages e (record e { storage = count_up e.storage })
count_up-Ages e =
    storage-Ages 0 e (count_up e.storage) (same e.storage) (dead e.storage) (flights e.storage)
  where
    same : (s : GenerationStorage) → stored_generation (count_up s) ≡ stored_generation s
    same (live g n) = refl
    same (tombstone g) = refl

    dead : (s : GenerationStorage) → is_live s ≡ false → is_live (count_up s) ≡ false
    dead (live g n) h = h
    dead (tombstone g) h = h

    flights : (s : GenerationStorage) → in_flight_of s ≤ in_flight_of (count_up s) + 0
    flights (live g n) = omega arith
    flights (tombstone g) = omega arith

count_down-Ages : (e : RegistryEntry) → AgesWith 1 e (record e { storage = count_down e.storage })
count_down-Ages e =
    storage-Ages 1 e (count_down e.storage) (same e.storage) (dead e.storage) (flights e.storage)
  where
    same : (s : GenerationStorage) → stored_generation (count_down s) ≡ stored_generation s
    same (live g zero) = refl
    same (live g (suc n)) = refl
    same (tombstone g) = refl

    dead : (s : GenerationStorage) → is_live s ≡ false → is_live (count_down s) ≡ false
    dead (live g zero) h = h
    dead (live g (suc n)) h = h
    dead (tombstone g) h = h

    flights : (s : GenerationStorage) → in_flight_of s ≤ in_flight_of (count_down s) + 1
    flights (live g zero) = omega arith
    flights (live g (suc n)) = omega arith
    flights (tombstone g) = omega arith

count_admission-Keeps :
    (r : GenerationRegistry) (id : ℕ) (e : RegistryEntry)
    → Keeps r.entries (count_admission r id e).1.entries
count_admission-Keeps r id e = elim (Bool-cases (leb u64_mod (in_flight_of e.storage + 1))) [
  | inl full ↦ rw full (refl_Keeps r.entries)
  | inr room ↦ rw room (adjust-Keeps id _ r.entries count_up-Ages)
]

admit_entry-Keeps :
    (r : GenerationRegistry) (id now_ms : ℕ) (found : Option RegistryEntry)
    → Keeps r.entries (admit_entry r id now_ms found).1.entries
admit_entry-Keeps r id now_ms none = refl_Keeps r.entries
admit_entry-Keeps r id now_ms (some e) = elim (Bool-cases (not (accepts e now_ms))) [
  | inl stale ↦ rw stale (refl_Keeps r.entries)
  | inr fresh ↦ rw fresh (count_admission-Keeps r id e)
]

pub begin_admission-Keeps :
    (r : GenerationRegistry) (id now_ms : ℕ)
    → Keeps r.entries (begin_admission r id now_ms).1.entries
unfolding begin_admission
begin_admission-Keeps r id now_ms = elim (Result-cases (advance_clock now_ms r).0) [
  | inr failed ↦ rw (begin_admission, failed.1) (advance_clock-Keeps now_ms r)
  | inl passed ↦ elim (Bool-cases (not (advance_clock now_ms r).1.synchronized)) [
    | inl lost ↦ rw (begin_admission, passed.1, lost) (advance_clock-Keeps now_ms r)
    | inr sync ↦
        rw (begin_admission, passed.1, sync)
          (trans_Keeps r.entries (advance_clock now_ms r).1.entries _ (advance_clock-Keeps now_ms r)
            (admit_entry-Keeps (advance_clock now_ms r).1 id now_ms _))
  ]
]

-- How often the drop of a guard counts down an entry.
abbrev pub released : GenerationAdmission → ℕ → ℕ
released guard id = if is_ordinary guard.role && id == guard.generation.id then 1 else 0

count_down_at-Ages :
    (guard : GenerationAdmission) (id : ℕ) (e : RegistryEntry)
    → AgesWith
        (if id == guard.generation.id then 1 else 0)
        e
        (if id == guard.generation.id then record e { storage = count_down e.storage } else e)
count_down_at-Ages guard id e = elim (Bool-cases (id == guard.generation.id)) [
  | inl hit ↦ rw hit (count_down-Ages e)
  | inr miss ↦ rw miss (refl_Ages e)
]

pub drop_admission-Keeps :
    (r : GenerationRegistry) (guard : GenerationAdmission)
    → KeepsWith (released guard) r.entries (drop_admission r guard).entries
unfolding drop_admission
drop_admission-Keeps r guard = elim (Bool-cases (is_ordinary guard.role)) [
  | inl hit ↦ rw hit (map_entries-KeepsWith _ _ r.entries (count_down_at-Ages guard))
  | inr miss ↦ rw miss (refl_Keeps r.entries)
]

idle :
    (r : GenerationRegistry) (id : ℕ) (e : RegistryEntry)
    → retires r id e ≡ true
    → in_flight_of e.storage ≤ 0
idle r id e h = ground arith

retire_entry-Ages :
    (r : GenerationRegistry) (id : ℕ) (e : RegistryEntry) → Ages e (retire_entry r id e)
retire_entry-Ages r id e = elim (Bool-cases (retires r id e)) [
  | inl hit ↦ rw hit (storage-Ages 0 e _ refl (λ h. refl) (idle r id e hit))
  | inr miss ↦ rw miss (refl_Ages e)
]

pub collect_retired-Keeps :
    (r : GenerationRegistry) (now_ms : ℕ) → Keeps r.entries (collect_retired r now_ms).1.entries
unfolding collect_retired
collect_retired-Keeps r now_ms = elim (Result-cases (advance_clock now_ms r).0) [
  | inr failed ↦ rw (collect_retired, failed.1) (advance_clock-Keeps now_ms r)
  | inl passed ↦
      rw (collect_retired, passed.1)
        (trans_Keeps r.entries (advance_clock now_ms r).1.entries _ (advance_clock-Keeps now_ms r) (
          map_entries-Keeps (retire_entry (advance_clock now_ms r).1) _
            (retire_entry-Ages (advance_clock now_ms r).1)))
]
