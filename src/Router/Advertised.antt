-- ===== src/Router/Advertised.antt =====
-- What is advertised to miners, of crates/wcash-pool-edge/src/router.rs.
use pool.Base.{
  ℕ, ◌≡◌, refl, ap, sym, ◌∙◌, Bool, true, false, not, ◌||◌, List, [], ◌∷◌, Option, none, some, ok,
  err, arith, Bool-cases, Result, Result-cases, Option-cases, ◌⊎◌, if◌then◌else◌, inl, inr,
  err-ne-ok, none-ne-some, contains, subst, ◌==◌, ok_injective, some_injective, not-false,
  true-ne-false, All, ==→eq,
}
use pool.Jobs.{BackendGeneration, TipIdentity, new_job_id}
use pool.Registry.{
  GenerationRegistry, RegistryEntry, Reply, holds, lookup, accepts, stored_generation,
}
use pool.Registry.Admissible.{Accepting, IsAdmissible, admissible_job_ids-IsAdmissible}
use pool.Registry.Admission.{admissible_job_ids}
use pool.Registry.Events.{BackendEvent, job_activated, job_invalidated, generation_closed, other}
use pool.Session.Submission.{generation_of}
use pool.Router.{
  JobRouterError, JobUpdate, activated, retired, RouterState, advertise, update_activated,
  update_for, is_hard, same_tips, preserves_prior_work,
}

-- Recent work that still accepts shares, on the tips of a generation.
pub record IsShared (r : GenerationRegistry) (now_ms : ℕ) (g : BackendGeneration) : Type 0 where
  pub id : ℕ
  pub recent : contains id r.recent ≡ true
  pub entry : RegistryEntry
  pub found : lookup id r.entries ≡ some entry
  pub accepting : accepts entry now_ms ≡ true
  pub tips : (stored_generation entry.storage).tips ≡ g.tips

-- A generation that a router has just advertised as its current one: it accepts shares. The miners
-- are told to abandon older work exactly if that was owed or no recent work shares its tips.
pub record IsAdvertised (r : GenerationRegistry) (now_ms : ℕ) (g : BackendGeneration)
    (owed clean_jobs : Bool) : Type 0 where
  pub synchronized : r.synchronized ≡ true
  pub id : ℕ
  pub current : r.current ≡ some id
  pub entry : RegistryEntry
  pub found : lookup id r.entries ≡ some entry
  pub accepting : accepts entry now_ms ≡ true
  pub generation : stored_generation entry.storage ≡ g
  pub kept : clean_jobs ≡ false → (owed ≡ false) × IsShared r now_ms g
  pub abandoned : clean_jobs ≡ true → (owed ≡ true) ⊎ (¬ IsShared r now_ms g)

same_tips-eq : (a b : TipIdentity) → same_tips a b ≡ true → a ≡ b
same_tips-eq a b h =
    let tips : ℕ → ℕ → TipIdentity =
      λ w z. record { wcash_previous_hash_le = w; zcash_previous_hash_le = z } in
    let wcash : a.wcash_previous_hash_le ≡ b.wcash_previous_hash_le = ground arith in
    let zcash : a.zcash_previous_hash_le ≡ b.zcash_previous_hash_le = ground arith in
    ap (λ (w : ℕ). tips w a.zcash_previous_hash_le) wcash
    ∙ ap (λ (z : ℕ). tips b.wcash_previous_hash_le z) zcash

or-right : (b : Bool) {c : Bool} → c ≡ true → (b || c) ≡ true
or-right true h = refl
or-right false h = h

same_tips_refl : (a : TipIdentity) → same_tips a a ≡ true
same_tips_refl a = ground arith

-- An identifier of a list whose generation has the tips asked for.
record HasTips (r : GenerationRegistry) (tips : TipIdentity) (ids : List ℕ) : Type 0 where
  id : ℕ
  listed : contains id ids ≡ true
  entry : RegistryEntry
  found : lookup id r.entries ≡ some entry
  same : (stored_generation entry.storage).tips ≡ tips

head-HasTips :
    (r : GenerationRegistry) (tips : TipIdentity) (id : ℕ) (ids : List ℕ) (e : RegistryEntry)
    → lookup id r.entries ≡ some e
    → same_tips (stored_generation e.storage).tips tips ≡ true
    → HasTips r tips (id ∷ ids)
head-HasTips r tips id ids e found same = record {
  id = id;
  listed = ground arith;
  entry = e;
  found = found;
  same = same_tips-eq _ _ same;
}

tail-HasTips :
    (r : GenerationRegistry) (tips : TipIdentity) (id : ℕ) (ids : List ℕ)
    → HasTips r tips ids
    → HasTips r tips (id ∷ ids)
tail-HasTips r tips id ids h = record {
  id = h.id;
  listed = or-right (h.id == id) h.listed;
  entry = h.entry;
  found = h.found;
  same = h.same;
}

preserves_prior_work-HasTips :
    (r : GenerationRegistry) (tips : TipIdentity) (ids : List ℕ)
    → preserves_prior_work r tips ids ≡ true
    → HasTips r tips ids
preserves_prior_work-HasTips r tips [] h = absurd (true-ne-false (sym h))
preserves_prior_work-HasTips r tips (id ∷ ids) h = elim (Option-cases (lookup id r.entries)) [
  | inl missing ↦
      tail-HasTips r tips id ids
        (preserves_prior_work-HasTips r tips ids (rw (generation_of, missing) at h))
  | inr found ↦ elim (Bool-cases (same_tips (stored_generation found.0.storage).tips tips)) [
    | inl same ↦ head-HasTips r tips id ids found.0 found.1 same
    | inr other_ ↦
        tail-HasTips r tips id ids
          (preserves_prior_work-HasTips r tips ids (rw (generation_of, found.1, other_) at h))
  ]
]

-- The converse.
listed-preserves :
    (r : GenerationRegistry) (tips : TipIdentity) (ids : List ℕ) (id : ℕ) (e : RegistryEntry)
    → contains id ids ≡ true
    → lookup id r.entries ≡ some e
    → (stored_generation e.storage).tips ≡ tips
    → preserves_prior_work r tips ids ≡ true
listed-preserves r tips [] id e listed found same = absurd (true-ne-false (sym listed))
listed-preserves r tips (k ∷ ids) id e listed found same = elim (Bool-cases (id == k)) [
  | inl hit ↦
      let here : lookup k r.entries ≡ some e =
        subst (λ (x : ℕ). lookup x r.entries ≡ some e) (==→eq id k hit) found in
      let equal : same_tips (stored_generation e.storage).tips tips ≡ true =
        subst (λ (t : TipIdentity). same_tips (stored_generation e.storage).tips t ≡ true) same
          (same_tips_refl (stored_generation e.storage).tips) in
      rw (generation_of, here, equal) refl
  | inr miss ↦ or-right _ (listed-preserves r tips ids id e (rw miss at listed) found same)
]

All-contains : (P : ℕ → Type 0) (ids : List ℕ) (id : ℕ) → All P ids → contains id ids ≡ true → P id
All-contains P [] id all listed = absurd (true-ne-false (sym listed))
All-contains P (k ∷ ids) id all listed = elim (Bool-cases (id == k)) [
  | inl hit ↦ subst P (sym (==→eq id k hit)) all.0
  | inr miss ↦ All-contains P ids id all.1 (rw miss at listed)
]

-- What the list of recent work that a registry answers says of its work on some tips.
HasTips-IsShared :
    (before r : GenerationRegistry) (now_ms : ℕ) (g : BackendGeneration)
    (admissible : Option ℕ × List ℕ)
    → IsAdmissible before now_ms admissible r
    → HasTips r g.tips admissible.1
    → IsShared r now_ms g
HasTips-IsShared before r now_ms g admissible answer h =
    let open_ = All-contains (Accepting r now_ms) admissible.1 h.id answer.recent h.listed in
    let same : h.entry ≡ open_.0 = some_injective (sym h.found ∙ open_.1) in
    record {
      id = h.id;
      recent = ap (contains h.id) (sym answer.listed) ∙ h.listed;
      entry = open_.0;
      found = open_.1;
      accepting = open_.2;
      tips = ap (λ (e : RegistryEntry). (stored_generation e.storage).tips) (sym same) ∙ h.same;
    }

IsShared-preserves :
    (before r : GenerationRegistry) (now_ms : ℕ) (g : BackendGeneration)
    (admissible : Option ℕ × List ℕ)
    → IsAdmissible before now_ms admissible r
    → IsShared r now_ms g
    → preserves_prior_work r g.tips admissible.1 ≡ true
IsShared-preserves before r now_ms g admissible answer h =
    listed-preserves r g.tips admissible.1 h.id h.entry
      (ap (contains h.id) answer.listed ∙ h.recent) h.found h.tips

holds-eq : (o : Option ℕ) (id : ℕ) → holds o id ≡ true → o ≡ some id
holds-eq none id h = absurd (true-ne-false (sym h))
holds-eq (some current) id h = ap some (==→eq _ _ h)

generation_of-found :
    (r : GenerationRegistry) (id : ℕ) {g : BackendGeneration}
    → generation_of r id ≡ some g
    → (e : RegistryEntry) × (lookup id r.entries ≡ some e) × (stored_generation e.storage ≡ g)
generation_of-found r id h = elim (Option-cases (lookup id r.entries)) [
  | inl missing ↦ absurd (none-ne-some (rw (generation_of, missing) at h))
  | inr found ↦ (found.0, found.1, some_injective (rw (generation_of, found.1) at h))
]

pub same_activation :
    {g h : BackendGeneration} {a b : Bool} (update : Result JobRouterError (Option JobUpdate))
    → update ≡ ok (some (activated g a))
    → update ≡ ok (some (activated h b))
    → (g ≡ h) × (a ≡ b)
same_activation update e f = (cc, cc)

retired-ne-activated :
    {id : ℕ} {g : BackendGeneration} {clean_jobs : Bool}
    (update : Result JobRouterError (Option JobUpdate))
    → update ≡ ok (some (retired id))
    → update ≡ ok (some (activated g clean_jobs))
    → ⊥
retired-ne-activated update e f = cc

cleans-false : (owed kept : Bool) → (owed || not kept) ≡ false → (owed ≡ false) × (kept ≡ true)
cleans-false true kept h = absurd (true-ne-false h)
cleans-false false true h = (refl, refl)
cleans-false false false h = absurd (true-ne-false h)

cleans-true : (owed kept : Bool) → (owed || not kept) ≡ true → (owed ≡ true) ⊎ (kept ≡ false)
cleans-true true kept h = inl refl
cleans-true false true h = absurd (true-ne-false (sym h))
cleans-true false false h = inr refl

-- A current generation that was held before the registry answered.
current-IsAdvertised :
    (s : RouterState) (r : GenerationRegistry) (id now_ms : ℕ) (g : BackendGeneration)
    (admissible : Option ℕ × List ℕ)
    → generation_of s.registry id ≡ some g
    → IsAdmissible s.registry now_ms admissible r
    → holds admissible.0 id ≡ true
    → IsAdvertised r now_ms g s.force_clean_jobs
        (s.force_clean_jobs || not (preserves_prior_work r g.tips admissible.1))
current-IsAdvertised s r id now_ms g admissible held answer current =
    let before = generation_of-found s.registry id held in
    let later = answer.keeps id before.0 before.1 in
    let open_ = answer.current id (holds-eq admissible.0 id current) in
    let same : open_.0 ≡ later.0 = some_injective (sym open_.1 ∙ later.1) in
    let owed = s.force_clean_jobs in
    record {
      synchronized = answer.synchronized;
      id = id;
      current = sym answer.chosen ∙ holds-eq admissible.0 id current;
      entry = open_.0;
      found = open_.1;
      accepting = open_.2;
      generation =
          ap (λ (e : RegistryEntry). stored_generation e.storage) same
          ∙ later.2.generation
          ∙ before.2;
      kept = λ h.
          let both = cleans-false owed (preserves_prior_work r g.tips admissible.1) h in
          (
            both.0,
            HasTips-IsShared s.registry r now_ms g admissible answer
                (preserves_prior_work-HasTips r g.tips admissible.1 both.1),
          );
      abandoned = λ h. elim (cleans-true owed (preserves_prior_work r g.tips admissible.1) h) [
        | inl forced ↦ inl forced
        | inr none_ ↦ inr (λ shared.
            true-ne-false
              (sym (IsShared-preserves s.registry r now_ms g admissible answer shared) ∙ none_))
      ];
    }

advertise-IsAdvertised :
    (s : RouterState) (id now_ms : ℕ) (g : BackendGeneration) (reply : Reply (Option ℕ × List ℕ))
    {advertised : BackendGeneration} {clean_jobs : Bool}
    → generation_of s.registry id ≡ some g
    → ((a : Option ℕ × List ℕ) → reply.0 ≡ ok a → IsAdmissible s.registry now_ms a reply.1)
    → (advertise s id g reply).0 ≡ ok (some (activated advertised clean_jobs))
    → IsAdvertised
        (advertise s id g reply).1.registry
        now_ms
        advertised
        s.force_clean_jobs
        clean_jobs
advertise-IsAdvertised s id now_ms g (err e, r) held answer h = absurd (err-ne-ok h)
advertise-IsAdvertised s id now_ms g (ok a, r) held answer h =
    elim (Bool-cases (not (holds a.0 id))) [
      | inl late ↦ absurd (none-ne-some (ok_injective (rw late at h)))
      | inr current ↦
          let is_sent = same_activation _ refl (rw current at h) in
          rw (current, sym is_sent.0, sym is_sent.1)
            (current-IsAdvertised s r id now_ms g a held (answer a refl) (not-false _ current))
    ]

unpaused-IsAdvertised :
    (paused owed : Bool) (a b : Result JobRouterError (Option JobUpdate) × RouterState) (now_ms : ℕ)
    {g : BackendGeneration} {clean_jobs : Bool}
    → a.0 ≡ ok none
    → (b.0 ≡ ok (some (activated g clean_jobs))
        → IsAdvertised b.1.registry now_ms g owed clean_jobs)
    → (if paused then a else b).0 ≡ ok (some (activated g clean_jobs))
    → (paused ≡ false) × IsAdvertised (if paused then a else b).1.registry now_ms g owed clean_jobs
unpaused-IsAdvertised true owed a b now_ms silent sent h =
    absurd (none-ne-some (ok_injective (sym silent ∙ h)))
unpaused-IsAdvertised false owed a b now_ms silent sent h = (refl, sent h)

update_activated-IsAdvertised :
    (s : RouterState) (job_id now_ms : ℕ) {g : BackendGeneration} {clean_jobs : Bool}
    → (update_activated s job_id now_ms).0 ≡ ok (some (activated g clean_jobs))
    → (s.health_paused ≡ false)
      × IsAdvertised
          (update_activated s job_id now_ms).1.registry
          now_ms
          g
          s.force_clean_jobs
          clean_jobs
update_activated-IsAdvertised s job_id now_ms h =
    unpaused-IsAdvertised s.health_paused s.force_clean_jobs _ _ now_ms refl
      (λ k. elim (Result-cases (new_job_id job_id)) [
        | inr zero_id ↦ absurd (err-ne-ok (rw zero_id.1 at k))
        | inl id ↦ elim (Option-cases (generation_of s.registry id.0)) [
          | inl missing ↦ absurd (err-ne-ok (rw (id.1, missing) at k))
          | inr found ↦
              rw (id.1, found.1)
                (advertise-IsAdvertised s id.0 now_ms found.0 (admissible_job_ids s.registry now_ms)
                  found.1 (admissible_job_ids-IsAdmissible s.registry now_ms)
                  (rw (id.1, found.1) at k))
        ]
      ])
      h

-- An event is announced as an activation only by a router that is not paused. The generation is
-- then the current one of the registry, which is synchronized, and accepts shares at that moment.
-- The announcement lets miners keep older work only if no clean activation is owed and some work
-- listed as recent has the same tips and still accepts shares; it tells them to abandon older work
-- only if a clean activation is owed or there is no such recent work.
pub update_for-IsAdvertised :
    (s : RouterState) (change : BackendEvent) (now_ms : ℕ) {g : BackendGeneration}
    {clean_jobs : Bool}
    → (update_for s change now_ms).0 ≡ ok (some (activated g clean_jobs))
    → (s.health_paused ≡ false)
      × IsAdvertised (update_for s change now_ms).1.registry now_ms g s.force_clean_jobs clean_jobs
unfolding update_for
update_for-IsAdvertised s (job_activated seq job) now_ms h =
    update_activated-IsAdvertised s job.job_id now_ms h
update_for-IsAdvertised s (job_invalidated seq job_id reason accept_for_ms) now_ms h =
    elim (Result-cases (new_job_id job_id)) [
      | inr zero_id ↦ absurd (err-ne-ok (rw (update_for, zero_id.1) at h))
      | inl id ↦ elim (Bool-cases (is_hard reason accept_for_ms)) [
        | inl hard ↦ absurd (retired-ne-activated _ refl (rw (update_for, id.1, hard) at h))
        | inr soft ↦ absurd (none-ne-some (ok_injective (rw (update_for, id.1, soft) at h)))
      ]
    ]
update_for-IsAdvertised s (generation_closed seq job_id) now_ms h =
    elim (Result-cases (new_job_id job_id)) [
      | inr zero_id ↦ absurd (err-ne-ok (rw (update_for, zero_id.1) at h))
      | inl id ↦ absurd (retired-ne-activated _ refl (rw (update_for, id.1) at h))
    ]
update_for-IsAdvertised s (other seq valid) now_ms h = absurd (none-ne-some (ok_injective h))
