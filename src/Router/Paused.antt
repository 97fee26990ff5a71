-- ===== src/Router/Paused.antt =====
-- What the calls of crates/wcash-pool-edge/src/router.rs leave of a health pause.
use pool.Base.{
  ℕ, ◌≡◌, refl, Bool, true, false, not, List, Option, Result, ok, err, Bool-cases, Result-cases,
  Option-cases, inl, inr, if◌then◌else◌,
}
use pool.Jobs.{BackendGeneration, new_job_id}
use pool.Registry.{GenerationRegistry, Reply, holds}
use pool.Registry.Admission.{admissible_job_ids}
use pool.Registry.Events.{BackendEvent, job_activated, job_invalidated, generation_closed, other}
use pool.Session.{SessionError}
use pool.Session.Submission.{generation_of}
use pool.Router.{
  TimelineError, JobRouterError, JobUpdate, RouterState, JobRouter, advertise, update_for, is_hard,
  suspend_all,
}
use pool.Router.Health.{Held, back_in, locked, at_time, of_registry, of_session}

-- A health pause without the permission to forward candidates.
pub record IsPaused (s : RouterState) : Type 0 where
  pub paused : s.health_paused ≡ true
  pub closed : s.recovery_only ≡ false

-- A router that stays so.
pub record Stays (j k : JobRouter) : Type 0 where
  pub stays : IsPaused j.state → IsPaused k.state

pub record Holds {ℓ} {A : Type ℓ} (s : RouterState) (held : Held A) : Type 0 where
  pub stays : IsPaused s → IsPaused held.1

-- What changes neither flag.
pub same_Stays : (j : JobRouter) → Stays j j
same_Stays j = record { stays = λ h. h }

pub with_registry :
    (s : RouterState) (r : GenerationRegistry) → IsPaused s → IsPaused (record s { registry = r })
with_registry s r h = record { paused = h.paused; closed = h.closed }

pub suspend_all-Stays :
    (j : JobRouter) (s : RouterState)
    → (IsPaused j.state → IsPaused s)
    → Stays j (suspend_all (record j { state = s }))
suspend_all-Stays j s h = record { stays = λ p. record { paused = (h p).paused; closed = refl } }

pub if-Stays {ℓ} :
    {A : Type ℓ} (j : JobRouter) (test : Bool) (a b : A × JobRouter)
    → Stays j a.1
    → Stays j b.1
    → Stays j (if test then a else b).1
if-Stays j true a b h k = h
if-Stays j false a b h k = k

pub if-Holds {ℓ} :
    {A : Type ℓ} (s : RouterState) (test : Bool) (a b : Held A)
    → Holds s a
    → Holds s b
    → Holds s (if test then a else b)
if-Holds s true a b h k = h
if-Holds s false a b h k = k

pub if-IsPaused :
    (test : Bool) (a b : RouterState) → IsPaused a → IsPaused b → IsPaused (if test then a else b)
if-IsPaused true a b h k = h
if-IsPaused false a b h k = k

pub back_in-Stays {ℓ} :
    {A : Type ℓ} (j : JobRouter) (held : Held A) → Holds j.state held → Stays j (back_in j held).1
back_in-Stays j (a, s) h = record { stays = h.stays }

pub locked-Stays {ℓ} :
    {A : Type ℓ} (j : JobRouter) (f : RouterState → Held A)
    → ((s : RouterState) → Holds s (f s))
    → Stays j (locked j f).1
unfolding locked
locked-Stays j f h =
    if-Stays j j.poisoned _ _ (same_Stays j) (back_in-Stays j (f j.state) (h j.state))

pub at_time-Holds {ℓ} :
    {A : Type ℓ} (now : Result TimelineError ℕ) (s : RouterState) (f : ℕ → Held A)
    → ((now_ms : ℕ) → Holds s (f now_ms))
    → Holds s (at_time now s f)
unfolding at_time
at_time-Holds (err e) s f h = record { stays = λ p. p }
at_time-Holds (ok now_ms) s f h = h now_ms

pub of_registry-Holds {ℓ κ} :
    {A : Type ℓ} {B : Type κ} (s : RouterState) (reply : Reply A) (f : A → RouterState → Held B)
    → ((a : A) (r : GenerationRegistry) → Holds s (f a (record s { registry = r })))
    → Holds s (of_registry s reply f)
unfolding of_registry
of_registry-Holds s (err e, r) f h = record { stays = with_registry s r }
of_registry-Holds s (ok a, r) f h = h a r

pub of_session-Holds {ℓ} :
    {A : Type ℓ} (s : RouterState) (reply : Result SessionError A × GenerationRegistry)
    → Holds s (of_session s reply)
unfolding of_session
of_session-Holds s (err e, r) = record { stays = with_registry s r }
of_session-Holds s (ok a, r) = record { stays = with_registry s r }

pub query-Stays {ℓ κ} :
    {A : Type ℓ} {B : Type κ} (j : JobRouter) (now : Result TimelineError ℕ)
    (ask : GenerationRegistry → ℕ → Reply A) (f : A → RouterState → Result JobRouterError B)
    → Stays j
        (locked j
          λ s. at_time now s λ now_ms. of_registry s (ask s.registry now_ms) λ a t. (f a t, t)).1
query-Stays j now ask f = locked-Stays j _ λ s. at_time-Holds now s _ λ now_ms.
    of_registry-Holds s (ask s.registry now_ms) _ λ a r. record { stays = with_registry s r }

-- Events.
advertise-stays :
    (s : RouterState) (id : ℕ) (g : BackendGeneration) (reply : Reply (Option ℕ × List ℕ))
    → IsPaused s
    → IsPaused (advertise s id g reply).1
advertise-stays s id g (err e, r) h = record { paused = h.paused; closed = h.closed }
advertise-stays s id g (ok admissible, r) h = elim (Bool-cases (not (holds admissible.0 id))) [
  | inl late ↦ rw late (with_registry s r h)
  | inr current ↦ rw current (record { paused = h.paused; closed = h.closed })
]

pub update_for-stays :
    (s : RouterState) (change : BackendEvent) (now_ms : ℕ)
    → IsPaused s
    → IsPaused (update_for s change now_ms).1
unfolding update_for
update_for-stays s (job_activated seq job) now_ms h =
    if-fst s.health_paused _ _ h (elim (Result-cases (new_job_id job.job_id)) [
      | inr zero_id ↦ rw zero_id.1 h
      | inl id ↦ elim (Option-cases (generation_of s.registry id.0)) [
        | inl missing ↦ rw (id.1, missing) h
        | inr found ↦
            rw (id.1, found.1)
              (advertise-stays s id.0 found.0 (admissible_job_ids s.registry now_ms) h)
      ]
    ])
  where
    if-fst :
        (test : Bool) (a b : Result JobRouterError (Option JobUpdate) × RouterState)
        → IsPaused a.1
        → IsPaused b.1
        → IsPaused (if test then a else b).1
    if-fst true a b k l = k
    if-fst false a b k l = l
update_for-stays s (job_invalidated seq job_id reason accept_for_ms) now_ms h =
    elim (Result-cases (new_job_id job_id)) [
      | inr zero_id ↦ rw (update_for, zero_id.1) h
      | inl id ↦ elim (Bool-cases (is_hard reason accept_for_ms)) [
        | inl hard ↦ rw (update_for, id.1, hard) (record { paused = h.paused; closed = h.closed })
        | inr soft ↦ rw (update_for, id.1, soft) h
      ]
    ]
update_for-stays s (generation_closed seq job_id) now_ms h =
    elim (Result-cases (new_job_id job_id)) [
      | inr zero_id ↦ rw (update_for, zero_id.1) (record { paused = h.paused; closed = h.closed })
      | inl id ↦ rw (update_for, id.1) (record { paused = h.paused; closed = h.closed })
    ]
update_for-stays s (other seq valid) now_ms h = h
