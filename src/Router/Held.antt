-- ===== src/Router/Held.antt =====
-- What the calls of crates/wcash-pool-edge/src/router.rs under the lock leave of an owed clean
-- activation.
use pool.Base.{ℕ, ◌≡◌, Bool, true, false, Result, ok, err, if◌then◌else◌}
use pool.Registry.{GenerationRegistry, Reply}
use pool.Session.{SessionError}
use pool.Router.{TimelineError, JobRouterError, RouterState, JobRouter}
use pool.Router.Health.{Held, back_in, locked, at_time, of_registry, of_session}
use pool.Router.Clean.{IsClean, refl_IsClean, unsent-IsClean}

-- A call that sends nothing.
pub record Keeps {ℓ} {A : Type ℓ} (s : RouterState) (held : Held A) : Type 0 where
  pub kept : s.force_clean_jobs ≡ true → held.1.force_clean_jobs ≡ true

pub back_in-IsClean {ℓ} :
    {A : Type ℓ} (j : JobRouter) (held : Held A) → Keeps j.state held → IsClean j (back_in j held).1
back_in-IsClean j (a, s) h = unsent-IsClean j s h.kept

pub if-IsClean {ℓ} :
    {A : Type ℓ} (j : JobRouter) (test : Bool) (a b : A × JobRouter)
    → IsClean j a.1
    → IsClean j b.1
    → IsClean j (if test then a else b).1
if-IsClean j true a b h k = h
if-IsClean j false a b h k = k

pub if-Keeps {ℓ} :
    {A : Type ℓ} (s : RouterState) (test : Bool) (a b : Held A)
    → Keeps s a
    → Keeps s b
    → Keeps s (if test then a else b)
if-Keeps s true a b h k = h
if-Keeps s false a b h k = k

pub locked-IsClean {ℓ} :
    {A : Type ℓ} (j : JobRouter) (f : RouterState → Held A)
    → ((s : RouterState) → Keeps s (f s))
    → IsClean j (locked j f).1
unfolding locked
locked-IsClean j f h =
    if-IsClean j j.poisoned _ _ (refl_IsClean j) (back_in-IsClean j (f j.state) (h j.state))

pub at_time-Keeps {ℓ} :
    {A : Type ℓ} (now : Result TimelineError ℕ) (s : RouterState) (f : ℕ → Held A)
    → ((now_ms : ℕ) → Keeps s (f now_ms))
    → Keeps s (at_time now s f)
unfolding at_time
at_time-Keeps (err e) s f h = record { kept = λ owed. owed }
at_time-Keeps (ok now_ms) s f h = h now_ms

pub of_registry-Keeps {ℓ κ} :
    {A : Type ℓ} {B : Type κ} (s : RouterState) (reply : Reply A) (f : A → RouterState → Held B)
    → ((a : A) (r : GenerationRegistry) → Keeps s (f a (record s { registry = r })))
    → Keeps s (of_registry s reply f)
unfolding of_registry
of_registry-Keeps s (err e, r) f h = record { kept = λ owed. owed }
of_registry-Keeps s (ok a, r) f h = h a r

pub of_session-Keeps {ℓ} :
    {A : Type ℓ} (s : RouterState) (reply : Result SessionError A × GenerationRegistry)
    → Keeps s (of_session s reply)
unfolding of_session
of_session-Keeps s (err e, r) = record { kept = λ owed. owed }
of_session-Keeps s (ok a, r) = record { kept = λ owed. owed }

-- A query of the registry at the present time.
pub query-IsClean {ℓ κ} :
    {A : Type ℓ} {B : Type κ} (j : JobRouter) (now : Result TimelineError ℕ)
    (ask : GenerationRegistry → ℕ → Reply A) (f : A → RouterState → Result JobRouterError B)
    → IsClean j
        (locked j
          λ s. at_time now s λ now_ms. of_registry s (ask s.registry now_ms) λ a t. (f a t, t)).1
query-IsClean j now ask f = locked-IsClean j _ λ s.
    at_time-Keeps now s _
      λ now_ms. of_registry-Keeps s (ask s.registry now_ms) _ λ a r. record { kept = λ owed. owed }
