-- ===== src/Session/Phases.antt =====
-- Each call that changes the phase of the session of crates/wcash-pool-core/src/session.rs, or
-- announces work, keeps it well formed.
use pool.Base.{
  ℕ, ◌≡◌, ◌≢◌, refl, sym, ◌∙◌, true, Option, none, some, arith, ◌==◌, ==→eq, length, ok, fail_if-ok,
  Result-cases, Bool-cases, inl, inr, ok_injective, err-ne-ok, none-ne-some, subst,
}
use pool.Nonce.{NoncePrefixAllocator, allocate}
use pool.Jobs.{JobAssignment}
use pool.Session.{
  AuthenticatedWorker, SessionState, MiningSession, connected, subscribed, authorized, closed,
  require, same_assignment, new_session, subscribe, complete_authorization, authorize_at,
  reject_authorization, announce_found, announce_job, same_state, holds_worker, close, reachable,
  find_job,
}
use pool.Session.Calls.{Phased, IsSession}
use pool.Session.Counting.{find_job-none}

pub same_state-eq : (a b : SessionState) → same_state a b ≡ true → a ≡ b
same_state-eq connected connected e = refl
same_state-eq subscribed subscribed e = refl
same_state-eq authorized authorized e = refl
same_state-eq closed closed e = refl
same_state-eq connected subscribed e = absurd (cc)
same_state-eq connected authorized e = absurd (cc)
same_state-eq connected closed e = absurd (cc)
same_state-eq subscribed connected e = absurd (cc)
same_state-eq subscribed authorized e = absurd (cc)
same_state-eq subscribed closed e = absurd (cc)
same_state-eq authorized connected e = absurd (cc)
same_state-eq authorized subscribed e = absurd (cc)
same_state-eq authorized closed e = absurd (cc)
same_state-eq closed connected e = absurd (cc)
same_state-eq closed subscribed e = absurd (cc)
same_state-eq closed authorized e = absurd (cc)

-- A required state that is granted is the state.
pub require-ok :
    (s : MiningSession) (required : SessionState) → require s required ≡ ok tt → s.state ≡ required
require-ok s required e = elim (Bool-cases (same_state s.state required)) [
  | inl same ↦ same_state-eq s.state required same
  | inr other ↦ absurd (err-ne-ok (rw other at e))
]

pub new_session-IsSession :
    (id maximum : ℕ) {s : MiningSession} → new_session id maximum ≡ ok s → IsSession s
unfolding new_session
new_session-IsSession id maximum {s} e =
    let rest = fail_if-ok (id == 0) _ _ e in
    let made = fail_if-ok (maximum == 0) _ _ rest.1 in
    subst IsSession (ok_injective made.1) (record {
      phased = (refl, refl);
      idle = λ _. (refl, refl);
      announced = omega arith;
      recovering = omega arith;
      distinct = λ id. omega arith;
    })

pub close-IsSession : (s : MiningSession) → IsSession (close s)
unfolding close
close-IsSession s = record {
  phased = (refl, refl);
  idle = λ _. (refl, refl);
  announced = omega arith;
  recovering = omega arith;
  distinct = λ id. omega arith;
}

pub some-ne-none {ℓ} : {A : Type ℓ} (a : A) → some a ≢ none
some-ne-none a e = none-ne-some (sym e)

not-authorized :
    (s : MiningSession) (state : SessionState)
    → s.state ≡ state
    → state ≢ authorized
    → s.state ≢ authorized
not-authorized s state e ne h = ne (sym e ∙ h)

pub subscribe-IsSession :
    (s : MiningSession) (allocator : NoncePrefixAllocator)
    → IsSession s
    → IsSession (subscribe s allocator).0.1
unfolding subscribe
subscribe-IsSession s allocator h = elim (Result-cases (require s connected)) [
  | inr refused ↦ rw (subscribe, refused.1) h
  | inl passed ↦ elim (Result-cases (allocate allocator).0) [
    | inr failed ↦ rw (subscribe, passed.1, failed.1) h
    | inl granted ↦
        let at_start = require-ok s connected passed.1 in
        let held =
          subst (λ (st : SessionState). Phased st s.nonce_prefix s.worker) at_start h.phased in
        let empty = h.idle (λ bound. absurd (cc)) in
        rw (subscribe, passed.1, granted.1)
          (record {
            phased = (some-ne-none _, held.1);
            idle = λ _. empty;
            announced = h.announced;
            recovering = h.recovering;
            distinct = h.distinct;
          })
  ]
]

authorize_at-IsSession :
    (s : MiningSession) (w : AuthenticatedWorker) (state : SessionState)
    → IsSession s
    → s.state ≡ state
    → IsSession (authorize_at s w state).1
authorize_at-IsSession s w connected h e = h
authorize_at-IsSession s w closed h e = h
authorize_at-IsSession s w subscribed h e =
    let held = subst (λ (st : SessionState). Phased st s.nonce_prefix s.worker) e h.phased in
    let empty = h.idle (λ bound. absurd (cc)) in
    record {
      phased = (held.0, some-ne-none w);
      idle = λ _. empty;
      announced = h.announced;
      recovering = h.recovering;
      distinct = h.distinct;
    }
authorize_at-IsSession s w authorized h e = elim (Bool-cases (holds_worker s.worker w)) [
  | inl same ↦ rw same h
  | inr other ↦ rw other h
]

pub complete_authorization-IsSession :
    (s : MiningSession) (w : AuthenticatedWorker)
    → IsSession s
    → IsSession (complete_authorization s w).1
unfolding complete_authorization
complete_authorization-IsSession s w h = authorize_at-IsSession s w s.state h refl

pub reject_authorization-IsSession :
    (s : MiningSession) → IsSession s → IsSession (reject_authorization s).1
unfolding reject_authorization
reject_authorization-IsSession s h = elim (Result-cases (require s subscribed)) [
  | inr refused ↦ rw (reject_authorization, refused.1) h
  | inl passed ↦ rw (reject_authorization, passed.1) (close-IsSession s)
]

pub announce_found-IsSession :
    (s : MiningSession) (a : JobAssignment) (found : Option JobAssignment)
    → IsSession s
    → s.state ≡ authorized
    → find_job a.generation_id (reachable s) ≡ found
    → IsSession (announce_found s a found).1
announce_found-IsSession s a (some existing) h state e =
    elim (Bool-cases (same_assignment existing a)) [ inl same ↦ rw same h | inr other ↦ rw other h ]
announce_found-IsSession s a none h state e =
    elim (Bool-cases (length s.announced_jobs == s.maximum_announced_jobs)) [
      | inl full ↦ rw full h
      | inr room ↦ rw room (record {
        phased = h.phased;
        idle = λ ne. absurd (ne state);
        announced = ground (arith, h.announced);
        recovering = h.recovering;
        distinct = λ id. elim (Bool-cases (a.generation_id == id)) [
          | inl hit ↦
              let same : a.generation_id ≡ id = ==→eq _ _ hit in
              let absent = find_job-none a.generation_id (reachable s) e in
              rw hit (omega (arith, rw same at absent))
          | inr miss ↦ rw miss (omega (arith, h.distinct id))
        ];
      })
    ]

pub announce_job-IsSession :
    (s : MiningSession) (a : JobAssignment) → IsSession s → IsSession (announce_job s a).1
unfolding announce_job
announce_job-IsSession s a h = elim (Result-cases (require s authorized)) [
  | inr refused ↦ rw (announce_job, refused.1) h
  | inl passed ↦
      rw (announce_job, passed.1)
        (announce_found-IsSession s a _ h (require-ok s authorized passed.1) refl)
]
