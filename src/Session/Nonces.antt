-- ===== src/Session/Nonces.antt =====
-- The sessions of crates/wcash-pool-core/src/session.rs over one allocator of
-- crates/wcash-pool-core/src/nonce.rs.
use pool.Base.{
  ℕ, ◌+◌, ◌<◌, ◌≡◌, ◌≢◌, refl, ap, sym, ◌∙◌, Bool, List, Result, some, ok, arith, inl, inr,
  Result-cases, err-ne-ok, some_injective,
}
use pool.Nonce.{
  NoncePrefix, NoncePrefixError, NonceSuffix, NoncePrefixAllocator, capacity, prefix_of, join_nonce,
}
use pool.Nonce.Allocate.{IsAllocator, allocate-cases, allocate-IsAllocator}
use pool.Nonce.Joined.{join_nonce-injective}
use pool.Nonce.Runs.{run-consecutive}
use pool.Nonce.Runs
use pool.Registry.{GenerationRegistry}
use pool.Session.{MiningSession, connected, authorized, closed, require, subscribe}
use pool.Session.Calls.{Call, IsSession, run}
use pool.Session.Phases.{subscribe-IsSession}
use pool.Session.Identity.{run-Follows}
use pool.Session.Submission.{SubmissionContext, prepare_submission_mode}
use pool.Session.Prepared.{IsOwn, prepare_submission_mode-IsOwn}

-- A subscription that succeeds holds the prefix of the allocator's next counter, and steps it.
subscribe-ok :
    (s : MiningSession) (a : NoncePrefixAllocator) {p : NoncePrefix}
    → IsAllocator a
    → (subscribe s a).0.0 ≡ ok p
    → ((subscribe s a).0.1.nonce_prefix ≡ some (prefix_of a.profile a.lease a.next))
      × a.next < capacity a.profile
      × ((subscribe s a).1.next ≡ a.next + 1)
      × IsAllocator (subscribe s a).1
unfolding subscribe
subscribe-ok s a {p} h e = elim (Result-cases (require s connected)) [
  | inr refused ↦ absurd (err-ne-ok (rw (subscribe, refused.1) at e))
  | inl passed ↦ elim (allocate-cases a) [
    | inr failed ↦ absurd (err-ne-ok (rw (subscribe, passed.1, failed.1) at e))
    | inl granted ↦
        let still = allocate-IsAllocator a h in
        rw (subscribe, passed.1, granted.2)
          (
            refl,
            omega (arith, granted.0, h.reserved),
            ap (λ (x : Result NoncePrefixError NoncePrefix × NoncePrefixAllocator). x.1.next)
                granted.2,
            still.0,
          )
  ]
]

authorized-not-closed : authorized ≢ closed
authorized-not-closed e = absurd (cc)

-- The nonce of a submission is joined from the prefix that the session subscribed with.
own-prefix :
    (s : MiningSession) (calls : List Call) (login : List ℕ) (id : ℕ) (suffix : NonceSuffix)
    (c : SubmissionContext) {p : NoncePrefix}
    → IsSession s
    → s.nonce_prefix ≡ some p
    → IsOwn (run s calls) login id suffix c
    → join_nonce p suffix ≡ ok c.nonce
own-prefix s calls login id suffix c {p} h held own =
    let kept =
      (run-Follows s calls h).prefix p held (λ e. authorized-not-closed (sym own.state ∙ e)) in
    ap (λ (x : NoncePrefix). join_nonce x suffix) (some_injective (sym kept ∙ own.allocated))
    ∙ own.nonce

-- Two sessions that subscribe one after the other to one allocator, with any allocations and
-- extensions between, never submit the same nonce: not after any calls of either session, nor for
-- any logins, jobs, suffixes or solutions, with any registries, ordinary or paused.
pub prepare_submission_mode-distinct :
    (sha256 : List ℕ → List ℕ) (a : NoncePrefixAllocator) (s t : MiningSession)
    (between : List Runs.Call) (first second : List Call)
    (login other_login time other_time solution other_solution : List ℕ) (id other_id : ℕ)
    (suffix other_suffix : NonceSuffix) (r q : GenerationRegistry) (now_ms other_ms : ℕ)
    (paused other_paused : Bool) {x y : NoncePrefix} {c d : SubmissionContext}
    → IsAllocator a
    → IsSession s
    → IsSession t
    → (subscribe s a).0.0 ≡ ok x
    → (subscribe t (Runs.run between (subscribe s a).1).1).0.0 ≡ ok y
    → (prepare_submission_mode sha256
        (run (subscribe s a).0.1 first)
        login
        id
        time
        suffix
        solution
        r
        now_ms
        paused).0
      ≡ ok c
    → (prepare_submission_mode sha256
        (run (subscribe t (Runs.run between (subscribe s a).1).1).0.1 second)
        other_login
        other_id
        other_time
        other_suffix
        other_solution
        q
        other_ms
        other_paused).0
      ≡ ok d
    → c.nonce ≢ d.nonce
prepare_submission_mode-distinct sha256 a s t between first second login other_login time other_time
      solution other_solution id other_id suffix other_suffix r q now_ms other_ms paused
      other_paused {x} {y} {c} {d} h hs ht granted later mine theirs same =
    let one = subscribe-ok s a h granted in
    let moved = run-consecutive between (subscribe s a).1 one.3 in
    let b = (Runs.run between (subscribe s a).1).1 in
    let two = subscribe-ok t b moved.1 later in
    let c_joined =
      own-prefix (subscribe s a).0.1 first login id suffix c (subscribe-IsSession s a hs) one.0 (
        prepare_submission_mode-IsOwn sha256 _ login id time suffix solution r now_ms paused
          mine) in
    let d_joined =
      own-prefix (subscribe t b).0.1 second other_login other_id other_suffix d
        (subscribe-IsSession t b ht) two.0
        (prepare_submission_mode-IsOwn sha256 _ other_login other_id other_time other_suffix
          other_solution q other_ms other_paused theirs) in
    let counters =
      join_nonce-injective a.profile b.profile a.lease b.lease a.next b.next suffix other_suffix
        h.lease moved.1.lease one.1 two.1 (c_joined ∙ ap ok same) d_joined in
    omega (arith, counters.2, moved.2, one.2)
