-- ===== src/Session/Prepared.antt =====
-- What a submission that the session of crates/wcash-pool-core/src/session.rs lets through is made
-- of.
use pool.Base.{
  ℕ, ◌≡◌, refl, ap, subst, Bool, true, not, List, Option, none, some, Result, ok, err, bind-ok,
  fail_if-ok, ok_or, Result-cases, Bool-cases, inl, inr, err-ne-ok, ok_injective, not-false, ◌==◌,
  ==→eq,
}
use pool.Target.{to_backend, TargetBinding}
use pool.Nonce.{NoncePrefix, NonceSuffix, join_nonce}
use pool.Jobs.{JobAssignment, BackendGeneration, new_assignment, header_time, same_bytes}
use pool.Registry.{GenerationRegistry}
use pool.Session.{
  AuthenticatedWorker, MiningSession, authorized, require, find_job, reachable, SessionError,
  missing_identity, missing_nonce_prefix, job_not_announced, nonce_profile_mismatch,
}
use pool.Session.Phases.{require-ok}
use pool.Session.Submission.{
  SubmissionContext, Claim, Admitted, backend_identity, check_claim, check_generation, seal,
  or_else, prepare_submission_mode,
}

-- A submission of the session's own: the identity is that of its worker, who gave the login, the
-- target is that of the assignment announced for the job, the nonce starts with the session's
-- prefix, and the admitted generation has the submitted header time and the network targets of
-- the assignment.
pub record IsOwn (s : MiningSession) (login : List ℕ) (id : ℕ) (suffix : NonceSuffix)
    (c : SubmissionContext) : Type 0 where
  pub state : s.state ≡ authorized
  pub session : c.session_id ≡ s.id
  pub worker : AuthenticatedWorker
  pub holds : s.worker ≡ some worker
  pub repeated : same_bytes login worker.canonical_login ≡ true
  pub identity : c.identity ≡ backend_identity worker
  pub prefix : NoncePrefix
  pub allocated : s.nonce_prefix ≡ some prefix
  pub nonce : join_nonce prefix suffix ≡ ok c.nonce
  pub assignment : JobAssignment
  pub announced : find_job id (reachable s) ≡ some assignment
  pub target : c.target_le ≡ to_backend assignment.target.target
  pub time : same_bytes (header_time c.admission.generation) c.time ≡ true
  pub wcash : assignment.target.bounds.wcash_network ≡ c.admission.generation.wcash_network_target
  pub zcash : assignment.target.bounds.zcash_network ≡ c.admission.generation.zcash_network_target

ok_or-ok {ℓ κ} :
    {E : Type ℓ} {A : Type κ} (o : Option A) (e : E) {a : A} → ok_or o e ≡ ok a → o ≡ some a
ok_or-ok none e h = absurd (err-ne-ok h)
ok_or-ok (some b) e h = ap some (ok_injective h)

or_else-ok {ℓ κ} :
    {E : Type ℓ} {A : Type κ} (m : Result E A) (e : SessionError) {a : A}
    → or_else m e ≡ ok a
    → m ≡ ok a
or_else-ok (ok b) e h = ap ok (ok_injective h)
or_else-ok (err x) e h = absurd (err-ne-ok h)

-- What a claim that passes says of the session.
pub check_claim-ok :
    (s : MiningSession) (login : List ℕ) (id : ℕ) (suffix : NonceSuffix) {claim : Claim}
    → check_claim s login id suffix ≡ ok claim
    → (s.state ≡ authorized)
      × (s.worker ≡ some claim.worker)
      × (same_bytes login claim.worker.canonical_login ≡ true)
      × (find_job id (reachable s) ≡ some claim.assignment)
      × (p : NoncePrefix) × (s.nonce_prefix ≡ some p)
      × (join_nonce p suffix ≡ ok claim.nonce)
unfolding check_claim
check_claim-ok s login id suffix {claim} e =
    let a = bind-ok (require s authorized) _ e in
    let w = bind-ok (ok_or s.worker missing_identity) _ a.2 in
    let p = bind-ok (ok_or s.nonce_prefix missing_nonce_prefix) _ w.2 in
    let l = fail_if-ok (not (same_bytes login w.0.canonical_login)) _ _ p.2 in
    let j = bind-ok (ok_or (find_job id (reachable s)) (job_not_announced id)) _ l.1 in
    let n = bind-ok (or_else (join_nonce p.0 suffix) nonce_profile_mismatch) _ j.2 in
    let made = ok_injective n.2 in
    subst
      (λ (claim : Claim).
        (s.state ≡ authorized)
        × (s.worker ≡ some claim.worker)
        × (same_bytes login claim.worker.canonical_login ≡ true)
        × (find_job id (reachable s) ≡ some claim.assignment)
        × (p : NoncePrefix) × (s.nonce_prefix ≡ some p)
        × (join_nonce p suffix ≡ ok claim.nonce))
      made
      (
        require-ok s authorized a.1,
        ok_or-ok _ _ w.1,
        not-false _ l.0,
        ok_or-ok _ _ j.1,
        p.0,
        ok_or-ok _ _ p.1,
        or_else-ok _ _ n.1,
      )

new_assignment-ok :
    (g : BackendGeneration) (t : TargetBinding) {a : JobAssignment}
    → new_assignment g t ≡ ok a
    → (t.bounds.wcash_network ≡ g.wcash_network_target)
      × (t.bounds.zcash_network ≡ g.zcash_network_target)
unfolding new_assignment
new_assignment-ok g t e = elim (Bool-cases (t.bounds.wcash_network == g.wcash_network_target)) [
  | inr w ↦ absurd (err-ne-ok (rw (new_assignment, w) at e))
  | inl w ↦ elim (Bool-cases (t.bounds.zcash_network == g.zcash_network_target)) [
    | inr z ↦ absurd (err-ne-ok (rw (new_assignment, w, z) at e))
    | inl z ↦ (==→eq _ _ w, ==→eq _ _ z)
  ]
]

check_generation-ok :
    (id : ℕ) (g : BackendGeneration) (t : TargetBinding) (time : List ℕ)
    → check_generation id g t time ≡ ok tt
    → (t.bounds.wcash_network ≡ g.wcash_network_target)
      × (t.bounds.zcash_network ≡ g.zcash_network_target)
      × (same_bytes (header_time g) time ≡ true)
unfolding check_generation
check_generation-ok id g t time e =
    let a = bind-ok (or_else (new_assignment g t) _) _ e in
    let l = fail_if-ok (not (same_bytes (header_time g) time)) _ _ a.2 in
    let n = new_assignment-ok g t (or_else-ok _ _ a.1) in (n.0, n.1, not-false _ l.0)

seal-IsOwn :
    (s : MiningSession) (login : List ℕ) (id : ℕ) (suffix : NonceSuffix) (claim : Claim)
    (time solution : List ℕ) (admitted : Admitted) {c : SubmissionContext}
    → check_claim s login id suffix ≡ ok claim
    → (seal s id claim time solution admitted).0 ≡ ok c
    → IsOwn s login id suffix c
unfolding seal
seal-IsOwn s login id suffix claim time solution (err e, r) k h = absurd (err-ne-ok h)
seal-IsOwn s login id suffix claim time solution (ok guard, r) k h =
    let said = check_claim-ok s login id suffix k in
    elim (Result-cases (check_generation id guard.generation claim.assignment.target time)) [
      | inr failed ↦ absurd (err-ne-ok (rw (seal, failed.1) at h))
      | inl passed ↦
          let checks =
            check_generation-ok id guard.generation claim.assignment.target time passed.1 in
          subst (IsOwn s login id suffix) (ok_injective (rw (seal, passed.1) at h)) (record {
            state = said.0;
            session = refl;
            worker = claim.worker;
            holds = said.1;
            repeated = said.2;
            identity = refl;
            prefix = said.4;
            allocated = said.5;
            nonce = said.6;
            assignment = claim.assignment;
            announced = said.3;
            target = refl;
            time = checks.2;
            wcash = checks.0;
            zcash = checks.1;
          })
    ]

module _ (sha256 : List ℕ → List ℕ) where
  -- A submission that is let through, ordinary, recovered or paused, is the session's own: it
  -- comes from an authorized session, with the login of its worker, who is the identity it is
  -- credited to; its target is that of the announced assignment, its nonce is joined from the
  -- session's prefix, and the generation it is admitted to has the submitted header time and the
  -- network targets of the assignment.
  pub prepare_submission_mode-IsOwn :
      (s : MiningSession) (login : List ℕ) (id : ℕ) (time : List ℕ) (suffix : NonceSuffix)
      (solution : List ℕ) (r : GenerationRegistry) (now_ms : ℕ) (paused_only : Bool)
      {c : SubmissionContext}
      → (prepare_submission_mode sha256 s login id time suffix solution r now_ms paused_only).0
        ≡ ok c
      → IsOwn s login id suffix c
  unfolding prepare_submission_mode
  prepare_submission_mode-IsOwn s login id time suffix solution r now_ms paused_only e =
      elim (Result-cases (check_claim s login id suffix)) [
        | inr failed ↦ absurd (err-ne-ok (rw (prepare_submission_mode, failed.1) at e))
        | inl passed ↦
            seal-IsOwn s login id suffix passed.0 time solution _ passed.1
              (rw (prepare_submission_mode, passed.1) at e)
      ]
