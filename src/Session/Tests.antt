-- ===== src/Session/Tests.antt =====
-- Runs of the session, and instances of its theorems.
use pool.Base.{
  ℕ, zero, suc, ◌≡◌, ◌≢◌, refl, true, false, List, [], ◌∷◌, ◌++◌, arith, Result, none, some, ok,
  err,
}
use pool.Target.{TargetBinding, to_backend, to_zip301, swap_order}
use pool.Nonce.{
  NoncePrefixAllocator, NoncePrefix, four, twenty_eight, four_byte, allocate, prefix_of, join_nonce,
  domain_byte, extend_reserved,
}
use pool.Base.Bytes.{to_le_bytes, to_be_bytes}
use pool.Nonce.Allocate.{IsAllocator}
use pool.Nonce.Runs.{allocating, extending}
use pool.Nonce.Runs
use pool.Jobs.{JobDescriptor, JobAssignment, BackendGeneration, new_assignment, header_time}
use pool.Registry.{
  GenerationRegistry, accepting, live, lookup, map_entries, expire_at, advance_clock,
}
use pool.Registry.Admission.{ordinary, begin_admission}
use pool.Session.{
  AuthenticatedWorker, SessionError, MiningSession, connected, new_worker, new_session, subscribe,
  complete_authorization, announce_job, invalid_canonical_login,
}
use pool.Session.Calls.{
  Call, IsSession, step, run, subscribing, authorizing, announcing, removing, retiring, failing,
}
use pool.Session.Invariant.{run-IsSession}
use pool.Session.Identity.{Follows, run-Follows}
use pool.Session.Submission.{
  SubmissionContext, backend_identity, check_claim, check_generation, seal, admit_ordinary,
  prepare_submission_mode,
}
use pool.Session.Prepared.{IsOwn, prepare_submission_mode-IsOwn}
use pool.Session.Nonces.{prepare_submission_mode-distinct}

abbrev zeros : ℕ → List ℕ
zeros zero = []
zeros (suc n) = 0 ∷ zeros n

abbrev submitted_time : List ℕ
submitted_time = 1 ∷ 2 ∷ 3 ∷ 4 ∷ []

abbrev work : JobDescriptor
work = record {
  job_id = 7;
  wcash_candidate_hash_le = 1;
  header_input = 4 ∷ 0 ∷ 0 ∷ 0 ∷ zeros 96 ++ submitted_time ++ zeros 4;
  wcash_previous_hash_le = 2;
  zcash_previous_hash_le = 3;
  wcash_coinbase_txid_le = 4;
  zcash_coinbase_txid_le = 5;
  wcash_target_le = 9 ∷ [];
  zcash_target_le = 8 ∷ [];
  wcash_height = 10;
  zcash_height = 11;
  wcash_reward_zat = 0;
  zcash_reward_zat = 0;
  wcash_maturity_confirmations = 100;
  zcash_maturity_confirmations = 100;
  max_age_ms = 60_000;
}

abbrev generation : BackendGeneration
generation = record {
  descriptor = work;
  id = 7;
  tips = record { wcash_previous_hash_le = 2; zcash_previous_hash_le = 3 };
  wcash_network_target = 9;
  zcash_network_target = 8;
}

abbrev registry : GenerationRegistry
registry = record {
  config = record { maximum_recent = 2; maximum_generations = 8 };
  entries =
      (
        7,
        record {
          storage = live generation 0;
          accept_until_ms = 1_000;
          winner_recovery_until_ms = 61_000;
          state = accepting;
        },
      )
      ∷ [];
  current = some 7;
  recent = [];
  winner_recovery = 7 ∷ [];
  watermark_current = some 7;
  watermark_recent = [];
  last_event_seq = some 5;
  last_delivery_anchor_ms = some 100;
  last_monotonic_ms = some 200;
  synchronized = true;
}

abbrev binding : TargetBinding
binding = record {
  revision = 0;
  target = 20;
  bounds = record {
    wcash_network = 9;
    zcash_network = 8;
    hardest_allowed = 9;
    easiest_allowed = 50;
  };
}

abbrev assignment : JobAssignment
assignment = record { generation_id = 7; target = binding }

-- The login "rig.1".
abbrev login : List ℕ
login = 114 ∷ 105 ∷ 103 ∷ 46 ∷ 49 ∷ []

abbrev worker : AuthenticatedWorker
worker = record {
  account_id = 3;
  worker_id = 4;
  canonical_login = login;
  attribution_login = login;
}

worker_made : new_worker 3 4 login ≡ ok worker
unfolding new_worker
worker_made = refl

spaced_login : new_worker 3 4 (32 ∷ []) ≡ err invalid_canonical_login
unfolding new_worker
spaced_login = refl

abbrev allocator : NoncePrefixAllocator
allocator = record {
  profile = four_byte;
  lease = 5;
  next = 0;
  end_exclusive = 10;
  poisoned = false;
}

allocator-IsAllocator : IsAllocator allocator
allocator-IsAllocator = record {
  lease = record { some_lease = omega arith; below = omega arith };
  within = omega arith;
  reserved = omega arith;
}

abbrev fresh : MiningSession
fresh = record {
  id = 1;
  state = connected;
  nonce_prefix = none;
  worker = none;
  announced_jobs = [];
  winner_recovery_jobs = [];
  maximum_announced_jobs = 2;
}

fresh_made : new_session 1 2 ≡ ok fresh
unfolding new_session
fresh_made = refl

-- A subscription, an authorization, and a job.
abbrev opening : List Call
opening = authorizing worker ∷ announcing assignment ∷ []

abbrev calls : List Call
calls = subscribing allocator ∷ opening ++ retiring 7 ∷ removing 7 ∷ []

run-IsSession_example : IsSession (run fresh calls)
run-IsSession_example = run-IsSession 1 2 calls fresh_made

fresh-IsSession : IsSession fresh
unfolding run
fresh-IsSession = run-IsSession 1 2 [] fresh_made

run-Follows_example : Follows fresh (run fresh (calls ++ failing ∷ []))
run-Follows_example = run-Follows fresh (calls ++ failing ∷ []) fresh-IsSession

abbrev first : NoncePrefix
first = four (5 ∷ 0 ∷ 0 ∷ 0 ∷ [])

abbrev third : NoncePrefix
third = four (5 ∷ 2 ∷ 0 ∷ 0 ∷ [])

abbrev between : List Runs.Call
between = allocating ∷ extending 10 12 ∷ []

first_granted : (subscribe fresh allocator).0.0 ≡ ok first
unfolding subscribe allocate prefix_of domain_byte to_le_bytes
first_granted = refl

third_granted : (subscribe fresh (Runs.run between (subscribe fresh allocator).1).1).0.0 ≡ ok third
unfolding subscribe allocate prefix_of Runs.run extend_reserved domain_byte to_le_bytes
third_granted = refl

abbrev prepared :
    MiningSession → List ℕ → Result SessionError SubmissionContext × GenerationRegistry
prepared s nonce =
    prepare_submission_mode (λ bytes. bytes) s login 7 submitted_time (twenty_eight nonce) []
      registry 300 false

abbrev context : List ℕ → SubmissionContext
context nonce = record {
  session_id = 1;
  identity = record { account_id = 3; worker_id = 4; label = login };
  target_le = 20 ∷ zeros 31;
  time = submitted_time;
  nonce = nonce;
  solution = [];
  admission = record { generation = generation; role = ordinary };
}

first_prepared :
    (prepared (run (subscribe fresh allocator).0.1 opening) (9 ∷ [])).0
    ≡ ok (context (5 ∷ 0 ∷ 0 ∷ 0 ∷ 9 ∷ []))
unfolding subscribe allocate prefix_of domain_byte to_le_bytes run step complete_authorization
    announce_job prepare_submission_mode check_claim seal check_generation admit_ordinary
    begin_admission advance_clock expire_at map_entries lookup join_nonce backend_identity
    to_backend to_zip301 swap_order to_be_bytes new_assignment header_time
first_prepared = refl

third_prepared :
    (prepared
      (run (subscribe fresh (Runs.run between (subscribe fresh allocator).1).1).0.1 opening)
      (9 ∷ [])).0
    ≡ ok (context (5 ∷ 2 ∷ 0 ∷ 0 ∷ 9 ∷ []))
unfolding subscribe allocate prefix_of domain_byte to_le_bytes run step complete_authorization
    announce_job prepare_submission_mode check_claim seal check_generation admit_ordinary
    begin_admission advance_clock expire_at map_entries lookup join_nonce backend_identity
    to_backend to_zip301 swap_order to_be_bytes new_assignment header_time Runs.run extend_reserved
third_prepared = refl

prepare_submission_mode-IsOwn_example :
    IsOwn
      (run (subscribe fresh allocator).0.1 opening)
      login
      7
      (twenty_eight (9 ∷ []))
      (context (5 ∷ 0 ∷ 0 ∷ 0 ∷ 9 ∷ []))
prepare_submission_mode-IsOwn_example =
    prepare_submission_mode-IsOwn (λ bytes. bytes) (run (subscribe fresh allocator).0.1 opening)
      login 7 submitted_time (twenty_eight (9 ∷ [])) [] registry 300 false first_prepared

prepare_submission_mode-distinct_example :
    (context (5 ∷ 0 ∷ 0 ∷ 0 ∷ 9 ∷ [])).nonce ≢ (context (5 ∷ 2 ∷ 0 ∷ 0 ∷ 9 ∷ [])).nonce
prepare_submission_mode-distinct_example =
    prepare_submission_mode-distinct (λ bytes. bytes) allocator fresh fresh between opening opening
      login login submitted_time submitted_time [] [] 7 7 (twenty_eight (9 ∷ []))
      (twenty_eight (9 ∷ [])) registry registry 300 300 false false allocator-IsAllocator
      fresh-IsSession fresh-IsSession first_granted third_granted first_prepared third_prepared
