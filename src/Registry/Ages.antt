-- ===== src/Registry/Ages.antt =====
-- How an entry may change: the same generation, a deadline that never moves out, and terminal
-- states that are left for no other. A map of entries keeps another if each of its entries ages so.
use pool.Base.{
  ℕ, ◌+◌, ◌≤◌, ◌≡◌, refl, ◌∙◌, Bool, true, false, not, ◌&&◌, [], ◌∷◌, some, arith, leb, ◌==◌, ==→eq,
  if◌then◌else◌, Bool-cases, inl, inr,
}
use pool.Registry.{
  RegistryEntry, Entries, AdmissionState, accepting, suspended, invalidated, closed,
  stored_generation, is_live, in_flight_of, is_accepting, is_terminal, is_closed, lookup, insert,
  map_entries, suspend_entry, expire_entry,
}

pub record AgesWith (releases : ℕ) (old new : RegistryEntry) : Type 0 where
  pub generation : stored_generation new.storage ≡ stored_generation old.storage
  pub deadline : new.accept_until_ms ≤ old.accept_until_ms
  pub recovery : new.winner_recovery_until_ms ≡ old.winner_recovery_until_ms
  pub terminal : is_terminal old.state ≡ true → is_terminal new.state ≡ true
  pub closed : is_closed old.state ≡ true → is_closed new.state ≡ true
  pub retired : is_live old.storage ≡ false → is_live new.storage ≡ false
  pub flights : in_flight_of old.storage ≤ in_flight_of new.storage + releases

-- Without a release.
abbrev pub Ages : RegistryEntry → RegistryEntry → Type 0
Ages old new = AgesWith 0 old new

same_entry : {a b : RegistryEntry} → some a ≡ some b → a ≡ b
same_entry e = cc

pub closed_terminal : (s : AdmissionState) → is_closed s ≡ true → is_terminal s ≡ true
closed_terminal accepting h = absurd (cc)
closed_terminal suspended h = absurd (cc)
closed_terminal invalidated h = refl
closed_terminal closed h = refl

pub accepting_live : (s : AdmissionState) → is_accepting s ≡ true → is_terminal s ≡ true → ⊥
accepting_live accepting h k = cc
accepting_live suspended h k = cc
accepting_live invalidated h k = cc
accepting_live closed h k = cc

not_both : (b c : Bool) → (not b && c) ≡ true → b ≡ true → ⊥
not_both true c h k = cc
not_both false c h k = cc

pub refl_Ages : (e : RegistryEntry) → Ages e e
refl_Ages e = record {
  generation = refl;
  deadline = omega arith;
  recovery = refl;
  terminal = λ h. h;
  closed = λ h. h;
  retired = λ h. h;
  flights = omega arith;
}

pub trans_Ages :
    (a b c : RegistryEntry) {j k : ℕ} → AgesWith j a b → AgesWith k b c → AgesWith (j + k) a c
trans_Ages a b c h k = record {
  generation = k.generation ∙ h.generation;
  deadline = omega (arith, h.deadline, k.deadline);
  recovery = k.recovery ∙ h.recovery;
  terminal = λ t. k.terminal (h.terminal t);
  closed = λ t. k.closed (h.closed t);
  retired = λ t. k.retired (h.retired t);
  flights = omega (arith, h.flights, k.flights);
}

-- A change of state alone that leaves no terminal state.
pub state-Ages :
    (e : RegistryEntry) (s : AdmissionState)
    → (is_terminal e.state ≡ true → is_terminal s ≡ true)
    → (is_closed e.state ≡ true → is_closed s ≡ true)
    → Ages e (record e { state = s })
state-Ages e s t c = record {
  generation = refl;
  deadline = omega arith;
  recovery = refl;
  terminal = t;
  closed = c;
  retired = λ h. h;
  flights = omega arith;
}

-- With a number of releases of each identifier.
abbrev pub KeepsWith : (ℕ → ℕ) → Entries → Entries → Type 0
KeepsWith releases m n =
    (id : ℕ) (e : RegistryEntry)
    → lookup id m ≡ some e
    → (e' : RegistryEntry) × (lookup id n ≡ some e') × AgesWith (releases id) e e'

abbrev pub Keeps : Entries → Entries → Type 0
Keeps m n = KeepsWith (λ (id : ℕ). 0) m n

pub refl_Keeps : (m : Entries) → Keeps m m
refl_Keeps m id e found = (e, found, refl_Ages e)

pub trans_KeepsWith :
    (j k : ℕ → ℕ) (l m n : Entries)
    → KeepsWith j l m
    → KeepsWith k m n
    → KeepsWith (λ (id : ℕ). j id + k id) l n
trans_KeepsWith j k l m n g h id e found =
    let first = g id e found in
    let second = h id first.0 first.1 in
    (second.0, second.1, trans_Ages e first.0 second.0 first.2 second.2)

pub trans_Keeps : (l m n : Entries) → Keeps l m → Keeps m n → Keeps l n
trans_Keeps l m n h k id e found =
    let first = h id e found in
    let second = k id first.0 first.1 in
    (second.0, second.1, trans_Ages e first.0 second.0 first.2 second.2)

pub lookup-map_entries :
    (f : ℕ → RegistryEntry → RegistryEntry) (id : ℕ) (m : Entries) {e : RegistryEntry}
    → lookup id m ≡ some e
    → lookup id (map_entries f m) ≡ some (f id e)
unfolding lookup map_entries
lookup-map_entries f id [] found = absurd (cc)
lookup-map_entries f id ((k, old) ∷ m) {e} found = elim (Bool-cases (k == id)) [
  | inl same ↦
      let key : k ≡ id = ==→eq _ _ same in
      let value : old ≡ e = same_entry (rw same at found) in rw (same, key, value) refl
  | inr apart ↦ rw apart (lookup-map_entries f id m (rw apart at found))
]

pub map_entries-KeepsWith :
    (releases : ℕ → ℕ) (f : ℕ → RegistryEntry → RegistryEntry) (m : Entries)
    → ((id : ℕ) (e : RegistryEntry) → AgesWith (releases id) e (f id e))
    → KeepsWith releases m (map_entries f m)
map_entries-KeepsWith releases f m ages id e found =
    (f id e, lookup-map_entries f id m found, ages id e)

pub map_entries-Keeps :
    (f : ℕ → RegistryEntry → RegistryEntry) (m : Entries)
    → ((id : ℕ) (e : RegistryEntry) → Ages e (f id e))
    → Keeps m (map_entries f m)
map_entries-Keeps f m ages = map_entries-KeepsWith (λ (id : ℕ). 0) f m ages

pub lookup-insert :
    (id : ℕ) (e : RegistryEntry) (q : ℕ) (m : Entries)
    → lookup q (insert id e m) ≡ (if id == q then some e else lookup q m)
unfolding lookup insert
lookup-insert id e q [] = refl
lookup-insert id e q ((k, old) ∷ m) = elim (Bool-cases (k == id)) [
  | inl same ↦ elim (Bool-cases (id == q)) [
    | inl hit ↦ rw (same, hit) refl
    | inr miss ↦ let other : (k == q) ≡ false = ground arith in rw (same, miss, other) refl
  ]
  | inr apart ↦ elim (Bool-cases (k == q)) [
    | inl hit ↦ let other : (id == q) ≡ false = ground arith in rw (apart, other, hit) refl
    | inr miss ↦ rw (apart, miss) (lookup-insert id e q m)
  ]
]

-- Putting in an entry that its own identifier's entry, if any, may become.
pub insert-Keeps :
    (first m : Entries) (id : ℕ) (e : RegistryEntry)
    → Keeps first m
    → ((old : RegistryEntry) → lookup id first ≡ some old → Ages old e)
    → Keeps first (insert id e m)
insert-Keeps first m id e h ages q old found = elim (Bool-cases (id == q)) [
  | inl same ↦ (e, rw (lookup-insert id e q m, same) refl, ages old (rw (==→eq _ _ same) found))
  | inr apart ↦
      let kept = h q old found in (kept.0, rw (lookup-insert id e q m, apart) (kept.1), kept.2)
]

pub expire_entry-Ages : (now_ms id : ℕ) (e : RegistryEntry) → Ages e (expire_entry now_ms id e)
expire_entry-Ages now_ms id e =
    elim (Bool-cases (not (is_terminal e.state) && leb e.accept_until_ms now_ms)) [
      | inl hit ↦ rw hit (
          state-Ages e invalidated (λ t. refl)
            (λ c. absurd (not_both (is_terminal e.state) _ hit (closed_terminal e.state c))))
      | inr miss ↦ rw miss (refl_Ages e)
    ]

pub suspend_entry-Ages : (id : ℕ) (e : RegistryEntry) → Ages e (suspend_entry id e)
suspend_entry-Ages id e = elim (Bool-cases (is_accepting e.state)) [
  | inl hit ↦ rw hit (
      state-Ages e suspended (λ t. absurd (accepting_live e.state hit t))
        (λ c. absurd (accepting_live e.state hit (closed_terminal e.state c))))
  | inr miss ↦ rw miss (refl_Ages e)
]
