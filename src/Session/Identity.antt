-- ===== src/Session/Identity.antt =====
-- What the session of crates/wcash-pool-core/src/session.rs keeps for its whole life: its
-- identifier, its nonce prefix and its worker.
use pool.Base.{
  ℕ, ◌≡◌, ◌≢◌, refl, sym, ◌∙◌, subst, List, [], ◌∷◌, Option, none, some, Result-cases, Bool-cases,
  Option-cases, inl, inr, none-ne-some, length, ◌==◌,
}
use pool.Nonce.{NoncePrefix, NoncePrefixAllocator, allocate}
use pool.Jobs.{JobAssignment}
use pool.Session.{
  AuthenticatedWorker, SessionState, MiningSession, connected, subscribed, authorized, closed,
  require, holds_worker, subscribe, complete_authorization, authorize_at, reject_authorization,
  announce_job, announce_found, remove_announced_job, retire_announced_job,
  retain_winner_recovery_jobs, notification_write_failed, close, find_job, same_assignment,
}
use pool.Session.Calls.{
  Call, Phased, IsSession, step, run, subscribing, authorizing, announcing, removing, retiring,
  retaining, rejecting, failing, closing,
}
use pool.Session.Phases.{require-ok}
use pool.Session.Invariant.{step-IsSession}

-- What a later session keeps of an earlier one. A session that is closed stays closed; until then
-- it keeps the prefix and the worker that it holds.
pub record Follows (s t : MiningSession) : Type 0 where
  pub id : t.id ≡ s.id
  pub maximum : t.maximum_announced_jobs ≡ s.maximum_announced_jobs
  pub ends : s.state ≡ closed → t.state ≡ closed
  pub prefix :
      (p : NoncePrefix) → s.nonce_prefix ≡ some p → t.state ≢ closed → t.nonce_prefix ≡ some p
  pub worker : (w : AuthenticatedWorker) → s.worker ≡ some w → t.state ≢ closed → t.worker ≡ some w

refl_Follows : (s : MiningSession) → Follows s s
refl_Follows s = record {
  id = refl;
  maximum = refl;
  ends = λ e. e;
  prefix = λ p e _. e;
  worker = λ w e _. e;
}

trans_Follows : (s t u : MiningSession) → Follows s t → Follows t u → Follows s u
trans_Follows s t u a b = record {
  id = b.id ∙ a.id;
  maximum = b.maximum ∙ a.maximum;
  ends = λ e. b.ends (a.ends e);
  prefix = λ p e open_. b.prefix p (a.prefix p e (λ h. open_ (b.ends h))) open_;
  worker = λ w e open_. b.worker w (a.worker w e (λ h. open_ (b.ends h))) open_;
}

close-Follows : (s : MiningSession) → Follows s (close s)
unfolding close
close-Follows s = record {
  id = refl;
  maximum = refl;
  ends = λ e. refl;
  prefix = λ p e open_. absurd (open_ refl);
  worker = λ w e open_. absurd (open_ refl);
}

-- A change of the job lists alone.
relisted-Follows :
    (s : MiningSession) (jobs recovery : List JobAssignment)
    → Follows s (record s { announced_jobs = jobs; winner_recovery_jobs = recovery })
relisted-Follows s jobs recovery = record {
  id = refl;
  maximum = refl;
  ends = λ e. e;
  prefix = λ p e _. e;
  worker = λ w e _. e;
}

subscribe-Follows :
    (s : MiningSession) (allocator : NoncePrefixAllocator)
    → IsSession s
    → Follows s (subscribe s allocator).0.1
unfolding subscribe
subscribe-Follows s allocator h = elim (Result-cases (require s connected)) [
  | inr refused ↦ rw (subscribe, refused.1) (refl_Follows s)
  | inl passed ↦ elim (Result-cases (allocate allocator).0) [
    | inr failed ↦ rw (subscribe, passed.1, failed.1) (refl_Follows s)
    | inl granted ↦
        let start = require-ok s connected passed.1 in
        let held =
          subst (λ (st : SessionState). Phased st s.nonce_prefix s.worker) start h.phased in
        rw (subscribe, passed.1, granted.1)
          (record {
            id = refl;
            maximum = refl;
            ends = λ ended. absurd (cc);
            prefix = λ p e _. absurd (none-ne-some (sym held.0 ∙ e));
            worker = λ w e _. e;
          })
  ]
]

authorize_at-Follows :
    (s : MiningSession) (w : AuthenticatedWorker) (state : SessionState)
    → IsSession s
    → s.state ≡ state
    → Follows s (authorize_at s w state).1
authorize_at-Follows s w connected h e = refl_Follows s
authorize_at-Follows s w closed h e = refl_Follows s
authorize_at-Follows s w subscribed h e =
    let held = subst (λ (st : SessionState). Phased st s.nonce_prefix s.worker) e h.phased in
    record {
      id = refl;
      maximum = refl;
      ends = λ ended. absurd (cc);
      prefix = λ p e _. e;
      worker = λ w e _. absurd (none-ne-some (sym held.1 ∙ e));
    }
authorize_at-Follows s w authorized h e = elim (Bool-cases (holds_worker s.worker w)) [
  | inl same ↦ rw same (refl_Follows s)
  | inr other ↦ rw other (refl_Follows s)
]

complete_authorization-Follows :
    (s : MiningSession) (w : AuthenticatedWorker)
    → IsSession s
    → Follows s (complete_authorization s w).1
unfolding complete_authorization
complete_authorization-Follows s w h = authorize_at-Follows s w s.state h refl

reject_authorization-Follows : (s : MiningSession) → Follows s (reject_authorization s).1
unfolding reject_authorization
reject_authorization-Follows s = elim (Result-cases (require s subscribed)) [
  | inr refused ↦ rw (reject_authorization, refused.1) (refl_Follows s)
  | inl passed ↦ rw (reject_authorization, passed.1) (close-Follows s)
]

announce_found-Follows :
    (s : MiningSession) (a : JobAssignment) (found : Option JobAssignment)
    → Follows s (announce_found s a found).1
announce_found-Follows s a (some existing) = elim (Bool-cases (same_assignment existing a)) [
  | inl same ↦ rw same (refl_Follows s)
  | inr other ↦ rw other (refl_Follows s)
]
announce_found-Follows s a none =
    elim (Bool-cases (length s.announced_jobs == s.maximum_announced_jobs)) [
      | inl full ↦ rw full (refl_Follows s)
      | inr room ↦ rw room (relisted-Follows s (a ∷ s.announced_jobs) s.winner_recovery_jobs)
    ]

announce_job-Follows : (s : MiningSession) (a : JobAssignment) → Follows s (announce_job s a).1
unfolding announce_job
announce_job-Follows s a = elim (Result-cases (require s authorized)) [
  | inr refused ↦ rw (announce_job, refused.1) (refl_Follows s)
  | inl passed ↦ rw (announce_job, passed.1) (announce_found-Follows s a _)
]

retire_announced_job-Follows : (s : MiningSession) (id : ℕ) → Follows s (retire_announced_job s id)
unfolding retire_announced_job
retire_announced_job-Follows s id = elim (Option-cases (find_job id s.announced_jobs)) [
  | inl absent ↦ rw (retire_announced_job, absent) (refl_Follows s)
  | inr found ↦ rw (retire_announced_job, found.1) (relisted-Follows s _ _)
]

step-Follows : (s : MiningSession) (call : Call) → IsSession s → Follows s (step s call)
unfolding step notification_write_failed remove_announced_job retain_winner_recovery_jobs
step-Follows s (subscribing allocator) h = subscribe-Follows s allocator h
step-Follows s (authorizing w) h = complete_authorization-Follows s w h
step-Follows s (announcing a) h = announce_job-Follows s a
step-Follows s (removing id) h = relisted-Follows s _ _
step-Follows s (retiring id) h = retire_announced_job-Follows s id
step-Follows s (retaining ids) h = relisted-Follows s _ _
step-Follows s rejecting h = reject_authorization-Follows s
step-Follows s failing h = close-Follows s
step-Follows s closing h = close-Follows s

-- Whatever calls follow, successful or not, a well-formed session keeps its identifier and its
-- maximum; the nonce prefix and the worker that it holds are never replaced by others while it is
-- open, and once it is closed no call opens it again.
pub run-Follows : (s : MiningSession) (calls : List Call) → IsSession s → Follows s (run s calls)
unfolding run
run-Follows s [] h = refl_Follows s
run-Follows s (call ∷ calls) h =
    trans_Follows s (step s call) _ (step-Follows s call h)
      (run-Follows (step s call) calls (step-IsSession s call h))
