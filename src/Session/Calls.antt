-- ===== src/Session/Calls.antt =====
-- The session of crates/wcash-pool-core/src/session.rs over any sequence of its calls, and what
-- holds of it between them.
use pool.Base.{ℕ, ◌+◌, ◌≤◌, ◌≡◌, ◌≢◌, List, [], ◌∷◌, Option, none, ◌==◌, if◌then◌else◌, length}
use pool.Nonce.{NoncePrefix, NoncePrefixAllocator}
use pool.Jobs.{JobAssignment}
use pool.Registry.{max_zcash_winner_recovery_jobs}
use pool.Session.{
  AuthenticatedWorker, SessionState, MiningSession, connected, subscribed, authorized, closed,
  subscribe, complete_authorization, reject_authorization, announce_job, remove_announced_job,
  retire_announced_job, retain_winner_recovery_jobs, notification_write_failed, close, reachable,
}

-- A call that may change a session. An allocation is asked of the allocator as it is then.
pub data Call : Type 0 where
  subscribing : NoncePrefixAllocator → Call
  authorizing : AuthenticatedWorker → Call
  announcing : JobAssignment → Call
  removing retiring : ℕ → Call
  retaining : List ℕ → Call
  rejecting failing closing : Call

unfoldable pub step : MiningSession → Call → MiningSession
step s (subscribing allocator) = (subscribe s allocator).0.1
step s (authorizing w) = (complete_authorization s w).1
step s (announcing a) = (announce_job s a).1
step s (removing id) = (remove_announced_job s id).1
step s (retiring id) = retire_announced_job s id
step s (retaining ids) = retain_winner_recovery_jobs s ids
step s rejecting = (reject_authorization s).1
step s failing = notification_write_failed s
step s closing = close s

unfoldable pub run : MiningSession → List Call → MiningSession
run s [] = s
run s (call ∷ calls) = run (step s call) calls

-- How many assignments are for a generation.
abbrev pub count_job : ℕ → List JobAssignment → ℕ
count_job id [] = 0
count_job id (a ∷ jobs) = (if a.generation_id == id then 1 else 0) + count_job id jobs

-- Which of the prefix and the worker a state holds.
abbrev pub Phased : SessionState → Option NoncePrefix → Option AuthenticatedWorker → Type 0
Phased connected prefix worker = (prefix ≡ none) × (worker ≡ none)
Phased subscribed prefix worker = (prefix ≢ none) × (worker ≡ none)
Phased authorized prefix worker = (prefix ≢ none) × (worker ≢ none)
Phased closed prefix worker = (prefix ≡ none) × (worker ≡ none)

pub record IsSession (s : MiningSession) : Type 0 where
  pub phased : Phased s.state s.nonce_prefix s.worker
  pub idle : s.state ≢ authorized → (s.announced_jobs ≡ []) × (s.winner_recovery_jobs ≡ [])
  pub announced : length s.announced_jobs ≤ s.maximum_announced_jobs
  pub recovering : length s.winner_recovery_jobs ≤ max_zcash_winner_recovery_jobs
  pub distinct : (id : ℕ) → count_job id (reachable s) ≤ 1
