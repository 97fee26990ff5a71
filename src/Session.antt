-- ===== src/Session.antt =====
-- crates/wcash-pool-core/src/session.rs: the miner's session, a state
-- machine that each method takes to a reply and the session after it. Strings are their bytes, a
-- `Uuid` is the number of its bytes, and the two `VecDeque`s of assignments are lists from the
-- front.
mod Worker
unfoldable pub use Worker.*
pub mod Submission
pub mod Calls
pub mod Counting
pub mod Phases
pub mod Queues
pub mod Invariant
pub mod Identity
pub mod Prepared
pub mod Nonces
mod Tests
use pool.Base.{
  ℕ, zero, suc, Bool, true, false, not, ◌&&◌, ◌||◌, List, [], ◌∷◌, ◌++◌, Option, none, some, ltb,
  leb, ◌==◌, if◌then◌else◌, Result, ok, err, ◌>>=◌, ◌>>◌, fail_if, length, keep, take, contains,
}
use pool.Target.{TargetBinding, same_binding}
use pool.Nonce.{NoncePrefix, NoncePrefixError, NoncePrefixAllocator, allocate}
use pool.Jobs.{JobAssignment, JobAssignmentError, JobRegistryError, same_bytes}
use pool.Registry.{max_zcash_winner_recovery_jobs}

-- The derived equality of assignments.
abbrev pub same_assignment : JobAssignment → JobAssignment → Bool
same_assignment a b = a.generation_id == b.generation_id && same_binding a.target b.target

pub record MiningSession : Type 0 where
  pub id : ℕ
  pub state : SessionState
  pub nonce_prefix : Option NoncePrefix
  pub worker : Option AuthenticatedWorker
  pub announced_jobs : List JobAssignment
  pub winner_recovery_jobs : List JobAssignment
  pub maximum_announced_jobs : ℕ

-- What a method returns, and the session after it.
abbrev pub Outcome {ℓ} : Type ℓ → Type ℓ
Outcome A = Result SessionError A × MiningSession

-- `MiningSession::new`.
unfoldable pub new_session : ℕ → ℕ → Result SessionError MiningSession
new_session id maximum_announced_jobs = do
  fail_if (id == 0) nil_session_id
  fail_if (maximum_announced_jobs == 0) invalid_announced_job_limit
  ok (record {
    id = id;
    state = connected;
    nonce_prefix = none;
    worker = none;
    announced_jobs = [];
    winner_recovery_jobs = [];
    maximum_announced_jobs = maximum_announced_jobs;
  })

-- The derived equality of states.
abbrev pub same_state : SessionState → SessionState → Bool
same_state connected connected = true
same_state connected subscribed = false
same_state connected authorized = false
same_state connected closed = false
same_state subscribed connected = false
same_state subscribed subscribed = true
same_state subscribed authorized = false
same_state subscribed closed = false
same_state authorized connected = false
same_state authorized subscribed = false
same_state authorized authorized = true
same_state authorized closed = false
same_state closed connected = false
same_state closed subscribed = false
same_state closed authorized = false
same_state closed closed = true

abbrev pub require : MiningSession → SessionState → Result SessionError (Unit {0})
require s required =
    if same_state s.state required then ok tt else err (unexpected_state required s.state)

unfoldable pub close : MiningSession → MiningSession
close s = record s {
  state = closed;
  worker = none;
  nonce_prefix = none;
  announced_jobs = [];
  winner_recovery_jobs = [];
}

unfoldable pub subscribe :
    MiningSession → NoncePrefixAllocator → Outcome NoncePrefix × NoncePrefixAllocator
subscribe s allocator = elim (require s connected) [
  | err e ↦ ((err e, s), allocator)
  | ok _ ↦
      let granted = allocate allocator in
      elim granted.0 [
        | err e ↦ ((err (nonce_error e), s), granted.1)
        | ok prefix ↦
            ((ok prefix, record s { nonce_prefix = some prefix; state = subscribed }), granted.1)
      ]
]

abbrev pub holds_worker : Option AuthenticatedWorker → AuthenticatedWorker → Bool
holds_worker none w = false
holds_worker (some held) w = same_worker held w

-- The `match` of `complete_authorization`, on the session's state.
abbrev pub authorize_at : MiningSession → AuthenticatedWorker → SessionState → Outcome (Unit {0})
authorize_at s w subscribed = (ok tt, record s { worker = some w; state = authorized })
authorize_at s w authorized =
    if holds_worker s.worker w then (ok tt, s) else (err identity_switch, s)
authorize_at s w connected = (err (unexpected_state subscribed connected), s)
authorize_at s w closed = (err (unexpected_state subscribed closed), s)

unfoldable pub complete_authorization : MiningSession → AuthenticatedWorker → Outcome (Unit {0})
complete_authorization s w = authorize_at s w s.state

unfoldable pub reject_authorization : MiningSession → Outcome (Unit {0})
reject_authorization s = elim (require s subscribed) [
  | err e ↦ (err e, s)
  | ok _ ↦ (ok tt, close s)
]

-- `announced_jobs.iter().chain(winner_recovery_jobs.iter())`.
abbrev pub reachable : MiningSession → List JobAssignment
reachable s = s.announced_jobs ++ s.winner_recovery_jobs

-- `find(|assignment| assignment.generation_id() == id)`.
abbrev pub find_job : ℕ → List JobAssignment → Option JobAssignment
find_job id [] = none
find_job id (a ∷ jobs) = if a.generation_id == id then some a else find_job id jobs

-- The end of `announce_job`, with the assignment found.
abbrev pub announce_found :
    MiningSession → JobAssignment → Option JobAssignment → Outcome (Unit {0})
announce_found s a (some existing) =
    if same_assignment existing a
    then (ok tt, s)
    else (err (announced_job_conflict a.generation_id), s)
announce_found s a none =
    if length s.announced_jobs == s.maximum_announced_jobs
    then (err (announced_job_capacity s.maximum_announced_jobs), s)
    else (ok tt, record s { announced_jobs = a ∷ s.announced_jobs })

unfoldable pub announce_job : MiningSession → JobAssignment → Outcome (Unit {0})
announce_job s a = elim (require s authorized) [
  | err e ↦ (err e, s)
  | ok _ ↦ announce_found s a (find_job a.generation_id (reachable s))
]

pub announced_target_binding : MiningSession → ℕ → Option TargetBinding
announced_target_binding s id = elim (find_job id (reachable s)) [
  | none ↦ none
  | some a ↦ some a.target
]

-- `retain(|assignment| assignment.generation_id() != id)`.
abbrev pub without : ℕ → List JobAssignment → List JobAssignment
without id jobs = keep (λ (a : JobAssignment). not (a.generation_id == id)) jobs

unfoldable pub remove_announced_job : MiningSession → ℕ → Bool × MiningSession
remove_announced_job s id = (
  not (length (without id s.announced_jobs) == length s.announced_jobs)
      || not (length (without id s.winner_recovery_jobs) == length s.winner_recovery_jobs),
  record s {
    announced_jobs = without id s.announced_jobs;
    winner_recovery_jobs = without id s.winner_recovery_jobs;
  },
)

-- `remove(index)` at the first position of the identifier.
abbrev pub remove_first : ℕ → List JobAssignment → List JobAssignment
remove_first id [] = []
remove_first id (a ∷ jobs) = if a.generation_id == id then jobs else a ∷ remove_first id jobs

-- `pop_back`.
abbrev pub pop_back : List JobAssignment → List JobAssignment
pop_back [] = []
pop_back (a ∷ []) = []
pop_back (a ∷ b ∷ jobs) = a ∷ pop_back (b ∷ jobs)

unfoldable pub retire_announced_job : MiningSession → ℕ → MiningSession
retire_announced_job s id = elim (find_job id s.announced_jobs) [
  | none ↦ s
  | some a ↦ record s {
    announced_jobs = remove_first id s.announced_jobs;
    winner_recovery_jobs =
        a
        ∷ (if length s.winner_recovery_jobs == max_zcash_winner_recovery_jobs
            then pop_back s.winner_recovery_jobs
            else s.winner_recovery_jobs);
  }
]

unfoldable pub retain_winner_recovery_jobs : MiningSession → List ℕ → MiningSession
retain_winner_recovery_jobs s ids = record s {
  winner_recovery_jobs =
      keep (λ (a : JobAssignment). contains a.generation_id ids) s.winner_recovery_jobs;
}

unfoldable pub notification_write_failed : MiningSession → MiningSession
notification_write_failed s = close s
