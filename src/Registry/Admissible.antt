-- ===== src/Registry/Admissible.antt =====
-- What the registry answers as admissible, of crates/wcash-pool-core/src/jobs.rs.
use pool.Base.{
  ℕ, ◌≡◌, refl, ap, subst, sym, ◌∙◌, Bool, true, not, List, [], ◌∷◌, Option, none, some, ok,
  Bool-cases, Result-cases, Option-cases, inl, inr, err-ne-ok, ok_injective, some_injective,
  not-false, true-ne-false, All, keep,
}
use pool.Registry.{
  RegistryEntry, GenerationRegistry, Entries, lookup, entry_is, filter_option, accepts, map_entries,
  expire_entry, expire_at, advance_clock, precedes,
}
use pool.Registry.Admission.{admissible_job_ids}
use pool.Registry.Ages.{Keeps}
use pool.Registry.Lifetimes.{advance_clock-Keeps}

-- An identifier whose entry accepts shares.
abbrev pub Accepting : GenerationRegistry → ℕ → ℕ → Type 0
Accepting r now_ms id =
    (e : RegistryEntry) × (lookup id r.entries ≡ some e) × (accepts e now_ms ≡ true)

entry_is-found :
    (p : RegistryEntry → Bool) (id : ℕ) (m : Entries)
    → entry_is p id m ≡ true
    → (e : RegistryEntry) × (lookup id m ≡ some e) × (p e ≡ true)
entry_is-found p id m h = elim (Option-cases (lookup id m)) [
  | inl missing ↦ absurd (true-ne-false (sym (rw (entry_is, missing) at h)))
  | inr found ↦ (found.0, found.1, rw (entry_is, found.1) at h)
]

filter_option-holds :
    (p : ℕ → Bool) (o : Option ℕ) {id : ℕ} → filter_option p o ≡ some id → p id ≡ true
filter_option-holds p none h = absurd (cc)
filter_option-holds p (some x) h = elim (Bool-cases (p x)) [
  | inl kept ↦ ap p (some_injective (sym (rw kept at h))) ∙ kept
  | inr cut ↦ absurd (cc)
]

keep-All :
    (P : ℕ → Type 0) (p : ℕ → Bool) (xs : List ℕ) → ((x : ℕ) → p x ≡ true → P x) → All P (keep p xs)
keep-All P p [] h = tt
keep-All P p (x ∷ xs) h = elim (Bool-cases (p x)) [
  | inl kept ↦ rw kept (h x kept, keep-All P p xs h)
  | inr cut ↦ rw cut (keep-All P p xs h)
]

expire_at-current :
    (r : GenerationRegistry) (now_ms id : ℕ)
    → (expire_at now_ms r).current ≡ some id
    → Accepting (expire_at now_ms r) now_ms id
unfolding expire_at
expire_at-current r now_ms id h =
    entry_is-found _ id (map_entries (expire_entry now_ms) r.entries)
      (filter_option-holds _ r.current h)

expire_at-recent :
    (r : GenerationRegistry) (now_ms : ℕ)
    → All (Accepting (expire_at now_ms r) now_ms) (expire_at now_ms r).recent
unfolding expire_at
expire_at-recent r now_ms =
    keep-All _ _ r.recent λ id. entry_is-found _ id (map_entries (expire_entry now_ms) r.entries)

-- A registry that has just answered which jobs are admissible.
pub record IsAdmissible (r : GenerationRegistry) (now_ms : ℕ) (admissible : Option ℕ × List ℕ)
    (after : GenerationRegistry) : Type 0 where
  pub synchronized : after.synchronized ≡ true
  pub recent : All (Accepting after now_ms) admissible.1
  pub chosen : admissible.0 ≡ after.current
  pub listed : admissible.1 ≡ after.recent
  pub current : (id : ℕ) → admissible.0 ≡ some id → Accepting after now_ms id
  pub keeps : Keeps r.entries after.entries

advanced-IsAdmissible :
    (r : GenerationRegistry) (now_ms : ℕ)
    → (advance_clock now_ms r).0 ≡ ok tt
    → (advance_clock now_ms r).1.synchronized ≡ true
    → IsAdmissible r now_ms
        ((advance_clock now_ms r).1.current, (advance_clock now_ms r).1.recent)
        (advance_clock now_ms r).1
unfolding advance_clock
advanced-IsAdmissible r now_ms passed sync =
    elim (Bool-cases (precedes now_ms r.last_monotonic_ms)) [
      | inl back ↦ absurd (err-ne-ok (rw (advance_clock, back) at passed))
      | inr forth ↦ record {
        synchronized = sync;
        recent = rw (advance_clock, forth) (expire_at-recent r now_ms);
        chosen = refl;
        listed = refl;
        current = rw (advance_clock, forth) (expire_at-current r now_ms);
        keeps = advance_clock-Keeps now_ms r;
      }
    ]

pub admissible_job_ids-IsAdmissible :
    (r : GenerationRegistry) (now_ms : ℕ) (admissible : Option ℕ × List ℕ)
    → (admissible_job_ids r now_ms).0 ≡ ok admissible
    → IsAdmissible r now_ms admissible (admissible_job_ids r now_ms).1
unfolding admissible_job_ids
admissible_job_ids-IsAdmissible r now_ms admissible e =
    let advanced = (advance_clock now_ms r).1 in
    elim (Result-cases (advance_clock now_ms r).0) [
      | inr failed ↦ absurd (err-ne-ok (rw (admissible_job_ids, failed.1) at e))
      | inl passed ↦ elim (Bool-cases (not advanced.synchronized)) [
        | inl lost ↦ absurd (err-ne-ok (rw (admissible_job_ids, passed.1, lost) at e))
        | inr sync ↦
            subst
              (λ (a : Option ℕ × List ℕ). IsAdmissible r now_ms a (admissible_job_ids r now_ms).1)
              (ok_injective (rw (admissible_job_ids, passed.1, sync) at e))
              (rw (admissible_job_ids, passed.1, sync)
                (advanced-IsAdmissible r now_ms passed.1 (not-false _ sync)))
      ]
    ]
