-- ===== src/Session/Queues.antt =====
-- The calls that take jobs out of the queues of the session of
-- crates/wcash-pool-core/src/session.rs keep it well formed.
use pool.Base.{
  ℕ, ◌+◌, ◌≤◌, ◌≡◌, ap, sym, ◌∙◌, List, [], arith, ◌==◌, length, keep, length-keep-le, Bool-cases,
  inl, inr, none-ne-some, not, Bool, contains, Option-cases, if◌then◌else◌,
}
use pool.Jobs.{JobAssignment}
use pool.Registry.{max_zcash_winner_recovery_jobs}
use pool.Session.{
  MiningSession, remove_announced_job, retire_announced_job, retain_winner_recovery_jobs, find_job,
  remove_first, pop_back, without,
}
use pool.Session.Calls.{IsSession, count_job}
use pool.Session.Counting.{
  count_job-append, count_job-keep-le, count_job-pop_back-le, length-pop_back,
  count_job-remove_first, length-remove_first,
}

-- Lists that stay empty, in bounds, and count no generation more often.
pub relisted-IsSession :
    (s : MiningSession) (jobs recovery : List JobAssignment)
    → IsSession s
    → (s.announced_jobs ≡ [] → s.winner_recovery_jobs ≡ [] → (jobs ≡ []) × (recovery ≡ []))
    → length jobs ≤ length s.announced_jobs
    → length recovery ≤ max_zcash_winner_recovery_jobs
    → ((id : ℕ)
        → count_job id jobs + count_job id recovery
          ≤ count_job id s.announced_jobs + count_job id s.winner_recovery_jobs)
    → IsSession (record s { announced_jobs = jobs; winner_recovery_jobs = recovery })
relisted-IsSession s jobs recovery h empty fewer recovering counted = record {
  phased = h.phased;
  idle = λ ne. empty (h.idle ne).0 (h.idle ne).1;
  announced = omega (arith, h.announced);
  recovering = recovering;
  distinct = λ id. omega (
    arith,
    counted id,
    h.distinct id,
    count_job-append id jobs recovery,
    count_job-append id s.announced_jobs s.winner_recovery_jobs,
  );
}

keep-nil : (p : JobAssignment → Bool) (xs : List JobAssignment) → xs ≡ [] → keep p xs ≡ []
keep-nil p xs e = ap (keep p) e

pub remove_announced_job-IsSession :
    (s : MiningSession) (id : ℕ) → IsSession s → IsSession (remove_announced_job s id).1
unfolding remove_announced_job
remove_announced_job-IsSession s id h =
    relisted-IsSession s (without id s.announced_jobs) (without id s.winner_recovery_jobs) h
      (λ a r. (keep-nil _ _ a, keep-nil _ _ r)) (length-keep-le _ s.announced_jobs)
      (omega (
        arith,
        length-keep-le (λ (a : JobAssignment). not (a.generation_id == id)) s.winner_recovery_jobs,
        h.recovering,
      ))
      (λ k. omega (
        arith,
        count_job-keep-le k (λ (a : JobAssignment). not (a.generation_id == id)) s.announced_jobs,
        count_job-keep-le k (λ (a : JobAssignment). not (a.generation_id == id))
            s.winner_recovery_jobs,
      ))

pub retain_winner_recovery_jobs-IsSession :
    (s : MiningSession) (ids : List ℕ) → IsSession s → IsSession (retain_winner_recovery_jobs s ids)
unfolding retain_winner_recovery_jobs
retain_winner_recovery_jobs-IsSession s ids h =
    let p : JobAssignment → Bool = λ a. contains a.generation_id ids in
    relisted-IsSession s s.announced_jobs (keep p s.winner_recovery_jobs) h
      (λ a r. (a, keep-nil _ _ r)) (omega arith)
      (omega (arith, length-keep-le p s.winner_recovery_jobs, h.recovering))
      (λ k. omega (arith, count_job-keep-le k p s.winner_recovery_jobs))

-- A recovery queue that is full gives up its oldest assignment.
retired_queue :
    (k : ℕ) (jobs : List JobAssignment)
    → length jobs ≤ max_zcash_winner_recovery_jobs
    → length (if length jobs == max_zcash_winner_recovery_jobs then pop_back jobs else jobs) + 1
        ≤ max_zcash_winner_recovery_jobs
      × count_job k (if length jobs == max_zcash_winner_recovery_jobs then pop_back jobs else jobs)
        ≤ count_job k jobs
retired_queue k jobs h = elim (Bool-cases (length jobs == max_zcash_winner_recovery_jobs)) [
  | inl full ↦ rw full (omega (arith, length-pop_back jobs), count_job-pop_back-le k jobs)
  | inr room ↦ rw room (ground arith, omega arith)
]

pub retire_announced_job-IsSession :
    (s : MiningSession) (id : ℕ) → IsSession s → IsSession (retire_announced_job s id)
unfolding retire_announced_job
retire_announced_job-IsSession s id h = elim (Option-cases (find_job id s.announced_jobs)) [
  | inl absent ↦ rw (retire_announced_job, absent) h
  | inr found ↦
      rw (retire_announced_job, found.1)
        (relisted-IsSession s (remove_first id s.announced_jobs) _ h
          (λ e. absurd (none-ne-some (ap (find_job id) (sym e) ∙ found.1)))
          (omega (arith, length-remove_first id s.announced_jobs found.1))
          (omega (arith, (retired_queue 0 s.winner_recovery_jobs h.recovering).0))
          (λ k. omega (
            arith,
            count_job-remove_first k id s.announced_jobs found.1,
            (retired_queue k s.winner_recovery_jobs h.recovering).1,
          )))
]
