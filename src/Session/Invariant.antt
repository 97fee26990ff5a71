-- ===== src/Session/Invariant.antt =====
-- The session of crates/wcash-pool-core/src/session.rs stays well formed over any calls.
use pool.Base.{ℕ, ◌≡◌, List, [], ok, ◌∷◌}
use pool.Session.{MiningSession, new_session, notification_write_failed}
use pool.Session.Calls.{
  Call, IsSession, step, run, subscribing, authorizing, announcing, removing, retiring, retaining,
  rejecting, failing, closing,
}
use pool.Session.Phases.{
  new_session-IsSession, close-IsSession, subscribe-IsSession, complete_authorization-IsSession,
  reject_authorization-IsSession, announce_job-IsSession,
}
use pool.Session.Queues.{
  remove_announced_job-IsSession, retain_winner_recovery_jobs-IsSession,
  retire_announced_job-IsSession,
}

pub step-IsSession : (s : MiningSession) (call : Call) → IsSession s → IsSession (step s call)
unfolding step notification_write_failed
step-IsSession s (subscribing allocator) h = subscribe-IsSession s allocator h
step-IsSession s (authorizing w) h = complete_authorization-IsSession s w h
step-IsSession s (announcing a) h = announce_job-IsSession s a h
step-IsSession s (removing id) h = remove_announced_job-IsSession s id h
step-IsSession s (retiring id) h = retire_announced_job-IsSession s id h
step-IsSession s (retaining ids) h = retain_winner_recovery_jobs-IsSession s ids h
step-IsSession s rejecting h = reject_authorization-IsSession s h
step-IsSession s failing h = close-IsSession s
step-IsSession s closing h = close-IsSession s

pub run-steps : (s : MiningSession) (calls : List Call) → IsSession s → IsSession (run s calls)
unfolding run
run-steps s [] h = h
run-steps s (call ∷ calls) h = run-steps (step s call) calls (step-IsSession s call h)

-- A session that the code makes stays well formed over any calls, failed ones included: it holds a
-- nonce prefix exactly when it is subscribed or authorized, a worker and jobs only when it is
-- authorized, no more announced jobs than its maximum, no more recovery jobs than the bound, and
-- no generation twice.
pub run-IsSession :
    (id maximum : ℕ) (calls : List Call) {s : MiningSession}
    → new_session id maximum ≡ ok s
    → IsSession (run s calls)
run-IsSession id maximum calls {s} made = run-steps s calls (new_session-IsSession id maximum made)
