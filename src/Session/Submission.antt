-- ===== src/Session/Submission.antt =====
-- `prepare_submission`, `prepare_paused_zcash_candidate` and the submission context of
-- crates/wcash-pool-core/src/session.rs, over the registry of crates/wcash-pool-core/src/jobs.rs.
-- A context that is consumed by an error has its admission guard dropped, as the code's destructor
-- does. SHA-256 is a parameter.
use pool.Base.{
  ℕ, Bool, true, false, not, ◌&&◌, ◌||◌, List, Option, none, some, if◌then◌else◌, Result, ok, err,
  ◌>>=◌, ◌>>◌, fail_if, ok_or,
}
use pool.Target.{TargetBinding, to_backend}
use pool.Nonce.{NonceSuffix, join_nonce}
use pool.Jobs.{
  JobAssignment, BackendGeneration, JobRegistryError, unknown_job, stale_job, new_assignment,
  header_time, same_bytes, same_descriptor,
}
use pool.Registry.{GenerationRegistry, Reply, lookup, stored_generation}
use pool.Registry.Admission.{
  GenerationAdmission, AdmissionRole, ordinary, historical_zcash_recovery, paused_zcash_candidate,
  is_ordinary, begin_admission, drop_admission, begin_zcash_winner_recovery,
  begin_paused_zcash_candidate, begin_historical_zcash_candidate_during_pause,
}
use pool.Session.{
  AuthenticatedWorker, MiningSession, SessionError, authorized, require, reachable, find_job,
  missing_identity, missing_nonce_prefix, login_mismatch, job_not_announced, nonce_profile_mismatch,
  registry_assignment_mismatch, header_time_mismatch, registry_error,
}

pub record WorkerIdentity : Type 0 where
  pub account_id : ℕ
  pub worker_id : ℕ
  pub label : List ℕ

unfoldable pub backend_identity : AuthenticatedWorker → WorkerIdentity
backend_identity w = record {
  account_id = w.account_id;
  worker_id = w.worker_id;
  label = w.attribution_login;
}

pub record SubmissionContext : Type 0 where
  pub session_id : ℕ
  pub identity : WorkerIdentity
  pub target_le : List ℕ
  pub time : List ℕ
  pub nonce : List ℕ
  pub solution : List ℕ
  pub admission : GenerationAdmission

-- `GenerationRegistry::generation`.
abbrev pub generation_of : GenerationRegistry → ℕ → Option BackendGeneration
generation_of r id = elim (lookup id r.entries) [
  | none ↦ none
  | some e ↦ some (stored_generation e.storage)
]

-- What a session says of a submission before it asks the registry.
pub record Claim : Type 0 where
  pub worker : AuthenticatedWorker
  pub assignment : JobAssignment
  pub nonce : List ℕ

-- `map_err(|_| error)`.
abbrev pub or_else {ℓ κ} :
    {E : Type ℓ} {A : Type κ} → Result E A → SessionError → Result SessionError A
or_else (ok a) e = ok a
or_else (err x) e = err e

unfoldable pub check_claim : MiningSession → List ℕ → ℕ → NonceSuffix → Result SessionError Claim
check_claim s claimed_login id suffix = do
  require s authorized
  worker ← ok_or s.worker missing_identity
  prefix ← ok_or s.nonce_prefix missing_nonce_prefix
  fail_if (not (same_bytes claimed_login worker.canonical_login)) login_mismatch
  assignment ← ok_or (find_job id (reachable s)) (job_not_announced id)
  nonce ← or_else (join_nonce prefix suffix) nonce_profile_mismatch
  ok (record { worker = worker; assignment = assignment; nonce = nonce })

-- The assignment's bounds and the header time, against a generation.
unfoldable pub check_generation :
    ℕ → BackendGeneration → TargetBinding → List ℕ → Result SessionError (Unit {0})
check_generation id g target time = do
  _ ← or_else (new_assignment g target) (registry_assignment_mismatch id)
  fail_if (not (same_bytes (header_time g) time)) (header_time_mismatch id)
  ok tt

-- The same against the generation that the registry holds.
unfoldable pub check_held :
    GenerationRegistry → ℕ → TargetBinding → List ℕ → Result SessionError (Unit {0})
check_held r id target time = do
  g ← ok_or (generation_of r id) (registry_error (unknown_job id))
  check_generation id g target time

-- A reply of the registry, under the session's error.
abbrev pub Admitted : Type 0
Admitted = Result SessionError GenerationAdmission × GenerationRegistry

abbrev pub lift_reply : Reply GenerationAdmission → Admitted
lift_reply (ok guard, r) = (ok guard, r)
lift_reply (err e, r) = (err (registry_error e), r)

abbrev pub is_stale : JobRegistryError → Bool
is_stale (stale_job id) = true
is_stale _ = false

-- The end of `prepare_submission_mode`, with the outcome of the admission. An admission that fails
-- a check is dropped.
unfoldable pub seal :
    MiningSession
    → ℕ
    → Claim
    → List ℕ
    → List ℕ
    → Admitted
    → Result SessionError SubmissionContext × GenerationRegistry
seal s id claim time solution (err e, r) = (err e, r)
seal s id claim time solution (ok guard, r) =
    elim (check_generation id guard.generation claim.assignment.target time) [
      | err e ↦ (err e, drop_admission r guard)
      | ok _ ↦ (
        ok (record {
          session_id = s.id;
          identity = backend_identity claim.worker;
          target_le = to_backend claim.assignment.target.target;
          time = time;
          nonce = claim.nonce;
          solution = solution;
          admission = guard;
        }),
        r,
      )
    ]

module _ (sha256 : List ℕ → List ℕ) where
  -- The branch under `paused_only`.
  unfoldable pub admit_paused : GenerationRegistry → ℕ → Claim → List ℕ → List ℕ → ℕ → Admitted
  admit_paused r id claim time solution now_ms =
      elim (check_held r id claim.assignment.target time) [
        | err e ↦ (err e, r)
        | ok _ ↦ lift_reply (begin_paused_zcash_candidate sha256 r id claim.nonce solution now_ms)
      ]

  -- The branch of an ordinary submission, which recovers stale work.
  unfoldable pub admit_ordinary : GenerationRegistry → ℕ → Claim → List ℕ → List ℕ → ℕ → Admitted
  admit_ordinary r id claim time solution now_ms =
      let tried = begin_admission r id now_ms in
      elim tried.0 [
        | ok guard ↦ (ok guard, tried.1)
        | err error ↦
            if not (is_stale error)
            then (err (registry_error error), tried.1)
            else (elim (check_held tried.1 id claim.assignment.target time) [
              | err e ↦ (err e, tried.1)
              | ok _ ↦
                  lift_reply
                    (begin_zcash_winner_recovery sha256 tried.1 id claim.nonce solution now_ms)
            ])
      ]

  unfoldable pub prepare_submission_mode :
      MiningSession
      → List ℕ
      → ℕ
      → List ℕ
      → NonceSuffix
      → List ℕ
      → GenerationRegistry
      → ℕ
      → Bool
      → Result SessionError SubmissionContext × GenerationRegistry
  prepare_submission_mode s claimed_login id time suffix solution r now_ms paused_only =
      elim (check_claim s claimed_login id suffix) [
        | err e ↦ (err e, r)
        | ok claim ↦ seal s id claim time solution (elim paused_only [
          | true ↦ admit_paused r id claim time solution now_ms
          | false ↦ admit_ordinary r id claim time solution now_ms
        ])
      ]

  pub prepare_submission :
      MiningSession
      → List ℕ
      → ℕ
      → List ℕ
      → NonceSuffix
      → List ℕ
      → GenerationRegistry
      → ℕ
      → Result SessionError SubmissionContext × GenerationRegistry
  prepare_submission s claimed_login id time suffix solution r now_ms =
      prepare_submission_mode s claimed_login id time suffix solution r now_ms false

  pub prepare_paused_zcash_candidate :
      MiningSession
      → List ℕ
      → ℕ
      → List ℕ
      → NonceSuffix
      → List ℕ
      → GenerationRegistry
      → ℕ
      → Result SessionError SubmissionContext × GenerationRegistry
  prepare_paused_zcash_candidate s claimed_login id time suffix solution r now_ms =
      prepare_submission_mode s claimed_login id time suffix solution r now_ms true

  abbrev pub is_paused : AdmissionRole → Bool
  is_paused ordinary = false
  is_paused historical_zcash_recovery = false
  is_paused paused_zcash_candidate = true

  -- The admission that `refilter_zcash_candidate` asks for.
  abbrev pub refilter_admission :
      SubmissionContext → GenerationRegistry → ℕ → Bool → Reply GenerationAdmission
  refilter_admission c r now_ms recovery_only =
      let id = c.admission.generation.id in
      if is_paused c.admission.role || (is_ordinary c.admission.role && recovery_only)
      then begin_paused_zcash_candidate sha256 r id c.nonce c.solution now_ms
      else if recovery_only
      then begin_historical_zcash_candidate_during_pause sha256 r id c.nonce c.solution now_ms
      else begin_zcash_winner_recovery sha256 r id c.nonce c.solution now_ms

  -- The old guard is dropped when it is replaced, and with the context when the call fails. The
  -- candidate's own guard shares no counter, so that dropping it leaves the registry.
  unfoldable pub refilter_zcash_candidate :
      SubmissionContext
      → GenerationRegistry
      → ℕ
      → Bool
      → Result SessionError SubmissionContext × GenerationRegistry
  refilter_zcash_candidate c r now_ms recovery_only =
      let asked = refilter_admission c r now_ms recovery_only in
      let released = drop_admission asked.1 c.admission in
      elim asked.0 [
        | err e ↦ (err (registry_error e), released)
        | ok guard ↦
            if not (same_descriptor guard.generation.descriptor c.admission.generation.descriptor)
            then (
              err (registry_assignment_mismatch c.admission.generation.id),
              drop_admission released guard,
            )
            else (ok (record c { admission = guard }), released)
      ]
