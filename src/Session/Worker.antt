-- ===== src/Session/Worker.antt =====
-- The authenticated worker of crates/wcash-pool-core/src/session.rs, its states and its errors.
use pool.Base.{
  ℕ, Bool, true, not, ◌&&◌, ◌||◌, List, [], ◌∷◌, ltb, leb, ◌==◌, Result, ok, ◌>>=◌, ◌>>◌, fail_if,
  length,
}
use pool.Nonce.{NoncePrefixError}
use pool.Jobs.{JobAssignmentError, JobRegistryError, same_bytes}

pub record AuthenticatedWorker : Type 0 where
  pub account_id : ℕ
  pub worker_id : ℕ
  pub canonical_login : List ℕ
  pub attribution_login : List ℕ

pub data SessionState : Type 0 where
  connected subscribed authorized closed : SessionState

pub data SessionError : Type 0 where
  nil_session_id nil_identity invalid_canonical_login invalid_announced_job_limit : SessionError
  -- `UnexpectedState`, with `required` and `actual`.
  unexpected_state : SessionState → SessionState → SessionError
  identity_switch missing_identity missing_nonce_prefix login_mismatch : SessionError
  nonce_profile_mismatch : SessionError
  job_not_announced announced_job_conflict announced_job_capacity : ℕ → SessionError
  registry_assignment_mismatch header_time_mismatch : ℕ → SessionError
  nonce_error : NoncePrefixError → SessionError
  registry_error : JobRegistryError → SessionError
  assignment_error : JobAssignmentError → SessionError

-- `byte.is_ascii_alphanumeric() || matches!(byte, b'-' | b'_' | b'.' | b':')`.
abbrev pub is_login_byte : ℕ → Bool
is_login_byte b =
    leb 48 b && leb b 57
    || leb 65 b && leb b 90
    || leb 97 b && leb b 122
    || b == 45
    || b == 95
    || b == 46
    || b == 58

abbrev pub all_login_bytes : List ℕ → Bool
all_login_bytes [] = true
all_login_bytes (b ∷ bytes) = is_login_byte b && all_login_bytes bytes

-- `AuthenticatedWorker::new`.
unfoldable pub new_worker : ℕ → ℕ → List ℕ → Result SessionError AuthenticatedWorker
new_worker account_id worker_id login = do
  fail_if (account_id == 0 || worker_id == 0) nil_identity
  fail_if (length login == 0 || ltb 128 (length login) || not (all_login_bytes login))
      invalid_canonical_login
  ok (record {
    account_id = account_id;
    worker_id = worker_id;
    canonical_login = login;
    attribution_login = login;
  })

unfoldable pub with_submission_login :
    AuthenticatedWorker → List ℕ → Result SessionError AuthenticatedWorker
with_submission_login w login = do
  validated ← new_worker w.account_id w.worker_id login
  ok (record w { canonical_login = validated.canonical_login })

-- The derived equality of workers.
abbrev pub same_worker : AuthenticatedWorker → AuthenticatedWorker → Bool
same_worker a b =
    a.account_id == b.account_id
    && a.worker_id == b.worker_id
    && same_bytes a.canonical_login b.canonical_login
    && same_bytes a.attribution_login b.attribution_login
