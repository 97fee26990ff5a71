-- ===== src/Registry/Renewal.antt =====
-- A snapshot of the registry keeps and ages every entry: what it renews comes from the entry that
-- is held, what it omits becomes terminal.
use pool.Base.{
  ok_injective, none-ne-some, some_injective, ℕ, ◌≤◌, ◌≡◌, refl, ap, sym, ◌∙◌, subst, Bool, true,
  false, not, ◌&&◌, ◌||◌, List, [], ◌∷◌, ◌++◌, Option, none, some, arith, ltb, leb, Bool-cases, inl,
  inr, min, length, ok, Result-cases, bind-ok, fail_if-ok, contains, All,
}
use pool.Jobs.{
  BackendGeneration, same_descriptor, from_descriptor, conflicting_job_id, resurrected_job,
  duplicate_snapshot_job, clock_moved_backwards, recent_capacity_exceeded, snapshot_state_conflict,
  generation_capacity_exceeded, same_bytes,
}
use pool.Registry.{
  RegistryEntry, Entries, GenerationRegistry, accepting, invalidated, stored_generation, is_live,
  is_terminal, is_closed, lookup, insert, precedes, latest, remember_winner_recovery,
  prune_winner_recovery, deadline, winner_recovery_deadline,
}
use pool.Registry.Snapshot.{
  AcceptableJob, PreparedSnapshot, renew, admit_new, prepare_acceptable, prepare_all, insert_all,
  omit, ids, merge, prepare_snapshot, remember_all, check_sequence, as_list, first_id, same_option,
  install_snapshot, apply_snapshot,
}
use pool.Registry.Ages.{
  Ages, Keeps, refl_Ages, state-Ages, refl_Keeps, trans_Keeps, map_entries-Keeps, insert-Keeps,
  closed_terminal,
}
use pool.Registry.Lifetimes.{suspend-Keeps, expire_at-Keeps}

pub remember_winner_recovery-entries :
    (id : ℕ) (r : GenerationRegistry) → (remember_winner_recovery id r).entries ≡ r.entries
unfolding remember_winner_recovery
remember_winner_recovery-entries id r = elim (Bool-cases (contains id r.winner_recovery)) [
  | inl known ↦ rw known refl
  | inr fresh ↦ rw fresh refl
]

pub prune_winner_recovery-entries :
    (now_ms : ℕ) (r : GenerationRegistry) → (prune_winner_recovery now_ms r).entries ≡ r.entries
unfolding prune_winner_recovery
prune_winner_recovery-entries now_ms r = refl

pub remember_all-entries :
    (list : List ℕ) (r : GenerationRegistry) → (remember_all list r).entries ≡ r.entries
remember_all-entries [] r = refl
remember_all-entries (id ∷ list) r =
    remember_all-entries list (remember_winner_recovery id r)
    ∙ remember_winner_recovery-entries id r

-- A job of a snapshot is prepared as something its own entry, if there is one, may become.
abbrev pub IsPrepared : Entries → ℕ × RegistryEntry → Type 0
IsPrepared m p = (old : RegistryEntry) → lookup p.0 m ≡ some old → Ages old p.1

neither : (b c : Bool) → (b || c) ≡ false → b ≡ true → ⊥
neither true c h k = cc
neither false c h k = cc

-- What a renewal that succeeds has checked, and its entry.
renew-ok :
    (old : RegistryEntry) (g : BackendGeneration) (proposed anchor_ms : ℕ) {p : ℕ × RegistryEntry}
    → renew old g proposed anchor_ms ≡ ok p
    → ((is_terminal old.state || not (is_live old.storage)) ≡ false)
      × ((
        g.id,
        record old { accept_until_ms = min old.accept_until_ms proposed; state = accepting },
      )
          ≡ p)
unfolding renew
renew-ok old g proposed anchor_ms {p} e =
    let other = not (same_descriptor (stored_generation old.storage).descriptor g.descriptor) in
    let first = fail_if-ok other (conflicting_job_id g.id) _ e in
    let second =
      fail_if-ok (is_terminal old.state || not (is_live old.storage)) (resurrected_job g.id) _
        (first.1) in
    let third =
      fail_if-ok (leb (min old.accept_until_ms proposed) anchor_ms) (resurrected_job g.id) _
        (second.1) in
    (second.0, ok_injective third.1)

renew-Ages :
    (old : RegistryEntry) (g : BackendGeneration) (proposed anchor_ms : ℕ) {p : ℕ × RegistryEntry}
    → renew old g proposed anchor_ms ≡ ok p
    → Ages old p.1
renew-Ages old g proposed anchor_ms {p} e =
    let checked = renew-ok old g proposed anchor_ms e in
    let until = min old.accept_until_ms proposed in
    let renewed : RegistryEntry = record old { accept_until_ms = until; state = accepting } in
    let aged : Ages old renewed = record {
      generation = refl;
      deadline = omega arith;
      recovery = refl;
      terminal = λ t. absurd (neither (is_terminal old.state) _ checked.0 t);
      closed =
          λ c. absurd (neither (is_terminal old.state) _ checked.0 (closed_terminal old.state c));
      retired = λ h. h;
      flights = omega arith;
    } in
    subst (λ (q : ℕ × RegistryEntry). Ages old q.1) checked.1 aged

-- The branch for an identifier that is held, or not.
neither_second : (b c : Bool) → (b || c) ≡ false → c ≡ true → ⊥
neither_second true c h k = cc
neither_second false c h k = cc

held-IsPrepared :
    (r : GenerationRegistry) (g : BackendGeneration) (found : Option RegistryEntry)
    (proposed anchor_ms : ℕ) {p : ℕ × RegistryEntry}
    → lookup g.id r.entries ≡ found
    → elim found [ some old ↦ renew old g proposed anchor_ms | none ↦ admit_new g proposed ] ≡ ok p
    → IsPrepared r.entries p
unfolding renew admit_new
held-IsPrepared r g none proposed anchor_ms {p} absent e old found =
    let made = bind-ok (winner_recovery_deadline proposed) _ e in
    let key : g.id ≡ p.0 = ap (λ (q : ℕ × RegistryEntry). q.0) (ok_injective made.2) in
    absurd (none-ne-some (sym absent ∙ ap (λ (k : ℕ). lookup k r.entries) key ∙ found))
held-IsPrepared r g (some held) proposed anchor_ms {p} present e old found =
    let key : g.id ≡ p.0 =
      ap (λ (q : ℕ × RegistryEntry). q.0) (renew-ok held g proposed anchor_ms e).1 in
    let same : held ≡ old =
      some_injective (sym present ∙ ap (λ (k : ℕ). lookup k r.entries) key ∙ found) in
    subst (λ (x : RegistryEntry). Ages x p.1) same (renew-Ages held g proposed anchor_ms e)

prepare_acceptable-IsPrepared :
    (r : GenerationRegistry) (job : AcceptableJob) (anchor_ms : ℕ) {p : ℕ × RegistryEntry}
    → prepare_acceptable r job anchor_ms ≡ ok p
    → IsPrepared r.entries p
unfolding prepare_acceptable
prepare_acceptable-IsPrepared r job anchor_ms {p} e =
    let made = bind-ok (from_descriptor job.job) _ e in
    let fits = fail_if-ok _ _ _ made.2 in
    let later = bind-ok (deadline anchor_ms job.accept_for_ms) _ fits.1 in
    held-IsPrepared r made.0 (lookup made.0.id r.entries) later.0 anchor_ms refl later.2

prepare_all-IsPrepared :
    (r : GenerationRegistry) (anchor_ms : ℕ) (jobs : List AcceptableJob) (seen : List ℕ)
    {prepared : Entries}
    → prepare_all r anchor_ms jobs seen ≡ ok prepared
    → All (IsPrepared r.entries) prepared
unfolding prepare_all
prepare_all-IsPrepared r anchor_ms [] seen {prepared} e =
    subst (λ (m : Entries). All (IsPrepared r.entries) m) (ok_injective e) tt
prepare_all-IsPrepared r anchor_ms (job ∷ jobs) seen {prepared} e =
    let first = bind-ok (prepare_acceptable r job anchor_ms) _ e in
    let fresh = fail_if-ok (contains first.0.0 seen) (duplicate_snapshot_job first.0.0) _ first.2 in
    let rest = bind-ok (prepare_all r anchor_ms jobs (first.0.0 ∷ seen)) _ fresh.1 in
    subst (λ (m : Entries). All (IsPrepared r.entries) m) (ok_injective rest.2)
      (
        prepare_acceptable-IsPrepared r job anchor_ms first.1,
        prepare_all-IsPrepared r anchor_ms jobs (first.0.0 ∷ seen) rest.1,
      )

insert_all-Keeps :
    (first prepared m : Entries)
    → All (IsPrepared first) prepared
    → Keeps first m
    → Keeps first (insert_all prepared m)
insert_all-Keeps first [] m h k = k
insert_all-Keeps first ((id, e) ∷ prepared) m h k =
    insert_all-Keeps first prepared (insert id e m) h.1 (insert-Keeps first m id e k h.0)

omit-Ages : (seen : List ℕ) (id : ℕ) (e : RegistryEntry) → Ages e (omit seen id e)
omit-Ages seen id e = elim (Bool-cases (contains id seen || is_closed e.state)) [
  | inl kept ↦ rw kept (refl_Ages e)
  | inr dropped ↦ rw dropped (
      state-Ages e invalidated (λ t. refl)
        (λ c. absurd (neither_second (contains id seen) _ dropped c)))
]

merge-Keeps : (prepared m : Entries) → All (IsPrepared m) prepared → Keeps m (merge prepared m)
merge-Keeps prepared m h =
    trans_Keeps m (insert_all prepared m) _ (insert_all-Keeps m prepared m h (refl_Keeps m))
      (map_entries-Keeps (omit (ids prepared)) (insert_all prepared m) (omit-Ages (ids prepared)))

All-append {ℓ κ} :
    {A : Type ℓ} (P : A → Type κ) (xs ys : List A) → All P xs → All P ys → All P (xs ++ ys)
All-append P [] ys h k = k
All-append P (x ∷ xs) ys h k = (h.0, All-append P xs ys h.1 k)

-- What a prepared snapshot has checked: the entries it keeps, and that they fit.
pub record IsSnapshot (r : GenerationRegistry) (p : PreparedSnapshot) : Type 0 where
  pub kept : Keeps r.entries p.entries
  pub fits : length p.entries ≤ r.config.maximum_generations

pub prepare_snapshot-IsSnapshot :
    (r : GenerationRegistry) (seq : ℕ) (current : Option AcceptableJob)
    (recent : List AcceptableJob) (anchor_ms : ℕ) {p : PreparedSnapshot}
    → prepare_snapshot r seq current recent anchor_ms ≡ ok p
    → IsSnapshot r p
unfolding prepare_snapshot
prepare_snapshot-IsSnapshot r seq current recent anchor_ms {p} e =
    let clock =
      fail_if-ok (precedes anchor_ms r.last_delivery_anchor_ms) clock_moved_backwards _ e in
    let order = bind-ok (check_sequence r.last_event_seq seq) _ clock.1 in
    let few =
      fail_if-ok (ltb r.config.maximum_recent (length recent))
        (recent_capacity_exceeded r.config.maximum_recent) _ order.2 in
    let front = bind-ok (prepare_all r anchor_ms (as_list current) []) _ few.1 in
    let back = bind-ok (prepare_all r anchor_ms recent (ids front.0)) _ front.2 in
    let agrees =
      fail_if-ok
        (same_option r.last_event_seq (some seq)
          && (not (same_option (first_id front.0) r.watermark_current)
              || not (same_bytes (ids back.0) r.watermark_recent)))
        (snapshot_state_conflict seq) _ back.2 in
    let room =
      fail_if-ok (ltb r.config.maximum_generations (length (merge (front.0 ++ back.0) r.entries)))
        (generation_capacity_exceeded r.config.maximum_generations) _ agrees.1 in
    let prepared =
      All-append (IsPrepared r.entries) front.0 back.0
        (prepare_all-IsPrepared r anchor_ms (as_list current) [] front.1)
        (prepare_all-IsPrepared r anchor_ms recent (ids front.0) back.1) in
    let small : length (merge (front.0 ++ back.0) r.entries) ≤ r.config.maximum_generations =
      ground (arith, room.0) in
    subst (λ (q : PreparedSnapshot). IsSnapshot r q) (ok_injective room.1)
      (record { kept = merge-Keeps (front.0 ++ back.0) r.entries prepared; fits = small })

pub install_snapshot-Keeps :
    (r : GenerationRegistry) (p : PreparedSnapshot) (seq now_ms : ℕ)
    → Keeps r.entries p.entries
    → Keeps r.entries (install_snapshot r p seq now_ms).entries
unfolding install_snapshot prune_winner_recovery
install_snapshot-Keeps r p seq now_ms h = rw (remember_all-entries _ _) (
    trans_Keeps r.entries p.entries _ h (
      expire_at-Keeps (latest now_ms r.last_monotonic_ms) (record r {
        entries = p.entries;
        current = p.current;
        recent = p.recent;
        watermark_current = p.current;
        watermark_recent = p.recent;
        last_event_seq = some seq;
        last_delivery_anchor_ms = some now_ms;
        last_monotonic_ms = some (latest now_ms r.last_monotonic_ms);
        synchronized = true;
      })))

pub apply_snapshot-Keeps :
    (r : GenerationRegistry) (seq : ℕ) (current : Option AcceptableJob)
    (recent : List AcceptableJob) (anchor_ms : ℕ)
    → Keeps r.entries (apply_snapshot r seq current recent anchor_ms).1.entries
unfolding apply_snapshot
apply_snapshot-Keeps r seq current recent anchor_ms =
    elim (Result-cases (prepare_snapshot r seq current recent anchor_ms)) [
      | inr failed ↦ rw (apply_snapshot, failed.1) (suspend-Keeps r)
      | inl done ↦
          rw (apply_snapshot, done.1)
            (install_snapshot-Keeps r done.0 seq anchor_ms
              (prepare_snapshot-IsSnapshot r seq current recent anchor_ms done.1).kept)
    ]
