-- ===== src/Registry.antt =====
-- The generation registry of crates/wcash-pool-core/src/jobs.rs: its state, its clock, and the
-- suspension. The `HashMap` of entries is a list of pairs with each identifier once; no result
-- depends on its order. An `Arc<GenerationResource>` is told by its generation's identifier: the
-- registry makes at most one for each, which its guards share, and the counter stands in the entry.
pub mod Snapshot
pub mod Events
pub mod Admission
pub mod Ages
pub mod Lifetimes
pub mod Renewal
pub mod Changes
pub mod Recoveries
pub mod History
pub mod Admissible
pub mod Admissions
pub mod Sequence
pub mod Guards
mod Tests
use pool.Base.{
  ℕ, zero, suc, ◌+◌, ◌≤◌, ◌<◌, max, Bool, true, false, not, ◌&&◌, ◌||◌, List, [], ◌∷◌, ◌++◌, Option,
  none, some, ltb, leb, ◌==◌, if◌then◌else◌, Result, ok, err, length, contains, keep, u64_mod,
}
use pool.Jobs.{
  JobRegistryError, clock_moved_backwards, deadline_overflow, BackendGeneration, invalid_limits,
}

abbrev pub max_zcash_winner_recovery_jobs : ℕ
max_zcash_winner_recovery_jobs = 32

abbrev pub zcash_winner_recovery_tail_ms : ℕ
zcash_winner_recovery_tail_ms = 60_000

pub record GenerationRegistryConfig : Type 0 where
  pub maximum_recent : ℕ
  pub maximum_generations : ℕ

-- `GenerationRegistryConfig::new`.
pub new_registry_config : ℕ → ℕ → Result JobRegistryError GenerationRegistryConfig
new_registry_config maximum_recent maximum_generations =
    if maximum_recent == 0 || leb maximum_generations maximum_recent
    then err invalid_limits
    else ok (record { maximum_recent = maximum_recent; maximum_generations = maximum_generations })

pub data AdmissionState : Type 0 where
  accepting suspended invalidated closed : AdmissionState

-- `GenerationStorage`: a live resource has the count of its guards.
pub data GenerationStorage : Type 0 where
  live : BackendGeneration → ℕ → GenerationStorage
  tombstone : BackendGeneration → GenerationStorage

abbrev pub stored_generation : GenerationStorage → BackendGeneration
stored_generation (live g in_flight) = g
stored_generation (tombstone g) = g

abbrev pub is_live : GenerationStorage → Bool
is_live (live g in_flight) = true
is_live (tombstone g) = false

abbrev pub in_flight_of : GenerationStorage → ℕ
in_flight_of (live g in_flight) = in_flight
in_flight_of (tombstone g) = 0

pub record RegistryEntry : Type 0 where
  pub storage : GenerationStorage
  pub accept_until_ms : ℕ
  pub winner_recovery_until_ms : ℕ
  pub state : AdmissionState

abbrev pub is_accepting : AdmissionState → Bool
is_accepting accepting = true
is_accepting suspended = false
is_accepting invalidated = false
is_accepting closed = false

abbrev pub is_closed : AdmissionState → Bool
is_closed closed = true
is_closed accepting = false
is_closed suspended = false
is_closed invalidated = false

-- `matches!(state, Invalidated | Closed)`; its opposite is `Accepting | Suspended`.
abbrev pub is_terminal : AdmissionState → Bool
is_terminal accepting = false
is_terminal suspended = false
is_terminal invalidated = true
is_terminal closed = true

-- `RegistryEntry::accepting`.
abbrev pub accepts : RegistryEntry → ℕ → Bool
accepts e now_ms = is_accepting e.state && is_live e.storage && ltb now_ms e.accept_until_ms

-- `RegistryEntry::retained_at_watermark`.
abbrev pub retained_at_watermark : RegistryEntry → ℕ → Bool
retained_at_watermark e now_ms =
    not (is_terminal e.state) && is_live e.storage && ltb now_ms e.accept_until_ms

abbrev pub Entries : Type 0
Entries = List (ℕ × RegistryEntry)

-- `entries.get(&id)`.
unfoldable pub lookup : ℕ → Entries → Option RegistryEntry
lookup id [] = none
lookup id ((k, e) ∷ m) = if k == id then some e else lookup id m

-- `entries.insert(id, entry)`.
unfoldable pub insert : ℕ → RegistryEntry → Entries → Entries
insert id e [] = (id, e) ∷ []
insert id e ((k, old) ∷ m) = if k == id then (id, e) ∷ m else (k, old) ∷ insert id e m

-- A loop over `entries.values_mut()` or over `&mut entries`.
unfoldable pub map_entries : (ℕ → RegistryEntry → RegistryEntry) → Entries → Entries
map_entries f [] = []
map_entries f ((k, e) ∷ m) = (k, f k e) ∷ map_entries f m

-- A change through `entries.get_mut(&id)`.
abbrev pub adjust : ℕ → (RegistryEntry → RegistryEntry) → Entries → Entries
adjust id f m = map_entries (λ (k : ℕ) (e : RegistryEntry). if k == id then f e else e) m

-- `entries.get(&id).is_some_and(p)`.
abbrev pub entry_is : (RegistryEntry → Bool) → ℕ → Entries → Bool
entry_is p id m = elim (lookup id m) [ none ↦ false | some e ↦ p e ]

-- `Option::filter`.
abbrev pub filter_option : (ℕ → Bool) → Option ℕ → Option ℕ
filter_option p none = none
filter_option p (some id) = if p id then some id else none

abbrev pub holds : Option ℕ → ℕ → Bool
holds none id = false
holds (some current) id = current == id

pub record GenerationRegistry : Type 0 where
  pub config : GenerationRegistryConfig
  pub entries : Entries
  pub current : Option ℕ
  pub recent : List ℕ
  pub winner_recovery : List ℕ
  pub watermark_current : Option ℕ
  pub watermark_recent : List ℕ
  pub last_event_seq : Option ℕ
  pub last_delivery_anchor_ms : Option ℕ
  pub last_monotonic_ms : Option ℕ
  pub synchronized : Bool

-- `GenerationRegistry::new`.
unfoldable pub new_registry : GenerationRegistryConfig → GenerationRegistry
new_registry config = record {
  config = config;
  entries = [];
  current = none;
  recent = [];
  winner_recovery = [];
  watermark_current = none;
  watermark_recent = [];
  last_event_seq = none;
  last_delivery_anchor_ms = none;
  last_monotonic_ms = none;
  synchronized = false;
}

-- The replies of the methods: a result and the registry after the call.
abbrev pub Reply {ℓ} : Type ℓ → Type ℓ
Reply A = Result JobRegistryError A × GenerationRegistry

abbrev pub suspend_entry : ℕ → RegistryEntry → RegistryEntry
suspend_entry id e = if is_accepting e.state then record e { state = suspended } else e

unfoldable pub suspend : GenerationRegistry → GenerationRegistry
suspend r = record r {
  entries = map_entries suspend_entry r.entries;
  current = none;
  recent = [];
  winner_recovery = [];
  synchronized = false;
}

abbrev pub expire_entry : ℕ → ℕ → RegistryEntry → RegistryEntry
expire_entry now_ms id e =
    if not (is_terminal e.state) && leb e.accept_until_ms now_ms
    then record e { state = invalidated }
    else e

unfoldable pub expire_at : ℕ → GenerationRegistry → GenerationRegistry
expire_at now_ms r =
    let entries = map_entries (expire_entry now_ms) r.entries in
    let accepting_now : ℕ → Bool =
      λ id. entry_is (λ (e : RegistryEntry). accepts e now_ms) id entries in
    let retained : ℕ → Bool =
      λ id. entry_is (λ (e : RegistryEntry). retained_at_watermark e now_ms) id entries in
    record r {
      entries = entries;
      current = filter_option accepting_now r.current;
      recent = keep accepting_now r.recent;
      watermark_current = filter_option retained r.watermark_current;
      watermark_recent = keep retained r.watermark_recent;
    }

-- `is_some_and(|previous| now < previous)`.
abbrev pub precedes : ℕ → Option ℕ → Bool
precedes now_ms none = false
precedes now_ms (some previous) = ltb now_ms previous

-- `map_or(now, |observed| observed.max(now))`.
abbrev pub latest : ℕ → Option ℕ → ℕ
latest now_ms none = now_ms
latest now_ms (some observed) = max observed now_ms

unfoldable pub advance_clock : ℕ → GenerationRegistry → Reply (Unit {0})
advance_clock now_ms r =
    if precedes now_ms r.last_monotonic_ms
    then (err clock_moved_backwards, suspend r)
    else (ok tt, record (expire_at now_ms r) { last_monotonic_ms = some now_ms })

unfoldable pub deadline : ℕ → ℕ → Result JobRegistryError ℕ
deadline anchor_ms duration_ms =
    if ltb (anchor_ms + duration_ms) u64_mod
    then ok (anchor_ms + duration_ms)
    else err deadline_overflow

unfoldable pub winner_recovery_deadline : ℕ → Result JobRegistryError ℕ
winner_recovery_deadline original =
    if ltb (original + zcash_winner_recovery_tail_ms) u64_mod
    then ok (original + zcash_winner_recovery_tail_ms)
    else err deadline_overflow

-- `remember_winner_recovery`; the queue's front is the list's head.
abbrev pub drop_front : List ℕ → List ℕ
drop_front [] = []
drop_front (x ∷ xs) = xs

unfoldable pub remember_winner_recovery : ℕ → GenerationRegistry → GenerationRegistry
remember_winner_recovery id r =
    let kept =
      if length r.winner_recovery == max_zcash_winner_recovery_jobs
      then drop_front r.winner_recovery
      else r.winner_recovery in
    if contains id r.winner_recovery then r else record r { winner_recovery = kept ++ id ∷ [] }

abbrev pub zcash_parent : RegistryEntry → ℕ
zcash_parent e = (stored_generation e.storage).tips.zcash_previous_hash_le

-- The current entry, if it accepts at a time.
abbrev pub current_entry : ℕ → GenerationRegistry → Option RegistryEntry
current_entry now_ms r = elim r.current [
  | none ↦ none
  | some id ↦ elim (lookup id r.entries) [
    | none ↦ none
    | some e ↦ if accepts e now_ms then some e else none
  ]
]

abbrev pub same_parent : Option RegistryEntry → RegistryEntry → Bool
same_parent none e = true
same_parent (some current) e = zcash_parent e == zcash_parent current

-- An entry that may still be recovered for a Zcash winner.
abbrev pub recoverable : ℕ → Option RegistryEntry → RegistryEntry → Bool
recoverable now_ms current e =
    not (is_closed e.state) && ltb now_ms e.winner_recovery_until_ms && same_parent current e

unfoldable pub prune_winner_recovery : ℕ → GenerationRegistry → GenerationRegistry
prune_winner_recovery now_ms r =
    let current = current_entry now_ms r in
    record r {
      winner_recovery =
          keep (λ (id : ℕ). entry_is (recoverable now_ms current) id r.entries) r.winner_recovery;
    }
