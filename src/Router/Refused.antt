-- ===== src/Router/Refused.antt =====
-- What the router of crates/wcash-pool-edge/src/router.rs refuses during a health pause.
use pool.Base.{
  ℕ, ◌≡◌, ◌≢◌, refl, sym, subst, Bool, true, false, not, ◌&&◌, List, Result, ok, err, err-ne-ok,
  true-ne-false, All, if◌then◌else◌,
}
use pool.Nonce.{NonceSuffix}
use pool.Registry.{GenerationRegistry, Reply}
use pool.Registry.Admission.{admissible_job_ids}
use pool.Session.{MiningSession}
use pool.Session.Submission.{SubmissionContext}
use pool.Router.{TimelineError, JobRouterError, RouterState, JobRouter}
use pool.Router.Journal.{BackendClient}
use pool.Router.Health.{
  Held, back_in, locked, at_time, of_registry, submit_at, routed_submission,
  prepare_queued_paused_candidate,
}
use pool.Router.Calls.{Call, run}
use pool.Router.Paused.{IsPaused}
use pool.Router.Lasting.{reopens, run-stays}

if_true {ℓ} : {A : Type ℓ} (test : Bool) (a b : A) → test ≡ true → (if test then a else b) ≡ a
if_true true a b h = refl
if_true false a b h = absurd (true-ne-false (sym h))

if_false {ℓ} : {A : Type ℓ} (test : Bool) (a b : A) → test ≡ false → (if test then a else b) ≡ b
if_false true a b h = absurd (true-ne-false h)
if_false false a b h = refl

-- An answer that admits nothing.
pub record Refuses {ℓ κ} {A : Type ℓ} {S : Type κ} (answer : Result JobRouterError A × S)
    : Type ℓ where
  pub refused : (a : A) → answer.0 ≢ ok a

if-Refuses {ℓ κ} :
    {A : Type ℓ} {S : Type κ} (test : Bool) (a b : Result JobRouterError A × S)
    → Refuses a
    → Refuses b
    → Refuses (if test then a else b)
if-Refuses true a b h k = h
if-Refuses false a b h k = k

back_in-Refuses {ℓ} :
    {A : Type ℓ} (j : JobRouter) (held : Held A) → Refuses held → Refuses (back_in j held)
back_in-Refuses j (answer, s) h = record { refused = h.refused }

locked-Refuses {ℓ} :
    {A : Type ℓ} (j : JobRouter) (f : RouterState → Held A)
    → Refuses (f j.state)
    → Refuses (locked j f)
unfolding locked
locked-Refuses j f h =
    if-Refuses j.poisoned _ _ (record { refused = λ a. err-ne-ok })
      (back_in-Refuses j (f j.state) h)

at_time-Refuses {ℓ} :
    {A : Type ℓ} (now : Result TimelineError ℕ) (s : RouterState) (f : ℕ → Held A)
    → ((now_ms : ℕ) → Refuses (f now_ms))
    → Refuses (at_time now s f)
unfolding at_time
at_time-Refuses (err e) s f h = record { refused = λ a. err-ne-ok }
at_time-Refuses (ok now_ms) s f h = h now_ms

of_registry-Refuses {ℓ κ} :
    {A : Type ℓ} {B : Type κ} (s : RouterState) (reply : Reply A) (f : A → RouterState → Held B)
    → ((a : A) (r : GenerationRegistry) → Refuses (f a (record s { registry = r })))
    → Refuses (of_registry s reply f)
unfolding of_registry
of_registry-Refuses s (err e, r) f h = record { refused = λ a. err-ne-ok }
of_registry-Refuses s (ok a, r) f h = h a r

module _ (sha256 : List ℕ → List ℕ) where
  submit_at-Refuses :
      (s : RouterState) (session : MiningSession) (login : List ℕ) (id : ℕ) (time : List ℕ)
      (suffix : NonceSuffix) (solution : List ℕ) (now_ms : ℕ)
      → IsPaused s
      → Refuses (submit_at sha256 s session login id time suffix solution now_ms)
  unfolding submit_at
  submit_at-Refuses s session login id time suffix solution now_ms h =
      subst Refuses (sym (if_true s.health_paused _ _ h.paused)) (
        of_registry-Refuses s (admissible_job_ids s.registry now_ms) _ λ admissible r.
          subst Refuses (sym (if_false s.recovery_only _ _ h.closed))
            (record { refused = λ context. err-ne-ok }))

  routed_submission-Refuses :
      (j : JobRouter) (session : MiningSession) (login : List ℕ) (id : ℕ) (time : List ℕ)
      (suffix : NonceSuffix) (solution : List ℕ) (now : Result TimelineError ℕ)
      → IsPaused j.state
      → Refuses (routed_submission sha256 j session login id time suffix solution now)
  unfolding routed_submission
  routed_submission-Refuses j session login id time suffix solution now h = locked-Refuses j _ (
      at_time-Refuses now j.state _
        λ now_ms. submit_at-Refuses j.state session login id time suffix solution now_ms h)

  prepare_queued_paused_candidate-Refuses :
      (j : JobRouter) (context : SubmissionContext) (client : BackendClient)
      (now : Result TimelineError ℕ)
      → IsPaused j.state
      → Refuses (prepare_queued_paused_candidate sha256 j context client now)
  unfolding prepare_queued_paused_candidate
  prepare_queued_paused_candidate-Refuses j context client now h =
      let barred : (j.state.health_paused && not j.state.recovery_only) ≡ true =
        cc (h.paused, h.closed) in
      if-Refuses j.poisoned _ _ (record { refused = λ a. err-ne-ok })
        (subst Refuses (sym (if_true _ _ _ barred)) (record { refused = λ a. err-ne-ok }))

  -- A router that is paused for health, without the permission to forward candidates, admits no
  -- submission of a session and no candidate from the queue, whatever calls come between, until it
  -- is resumed, recovered or given that permission.
  pub run-refuses :
      (j : JobRouter) (calls : List Call) (session : MiningSession) (login : List ℕ) (id : ℕ)
      (time : List ℕ) (suffix : NonceSuffix) (solution : List ℕ) (queued : SubmissionContext)
      (client : BackendClient) (now : Result TimelineError ℕ) (admitted : SubmissionContext)
      → IsPaused j.state
      → All (λ (call : Call). reopens call ≡ false) calls
      → ((routed_submission sha256 (run sha256 j calls) session login id time suffix solution now).0
          ≢ ok admitted)
        × ((prepare_queued_paused_candidate sha256 (run sha256 j calls) queued client now).0
            ≢ ok admitted)
  run-refuses j calls session login id time suffix solution queued client now admitted h k =
      let later = run sha256 j calls in
      let still = run-stays sha256 j calls h k in
      (
        (routed_submission-Refuses later session login id time suffix solution now still).refused
            admitted,
        (prepare_queued_paused_candidate-Refuses later queued client now still).refused admitted,
      )
