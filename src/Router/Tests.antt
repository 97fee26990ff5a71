-- ===== src/Router/Tests.antt =====
-- Runs of the router, and instances of its theorems.
use pool.Base.{◌≢◌, err, ℕ, ◌≡◌, refl, true, false, List, [], ◌∷◌, some, ok}
use pool.Jobs.{JobDescriptor, BackendGeneration, new_job_id}
use pool.Registry.{
  suspend, GenerationRegistry, accepting, live, lookup, map_entries, expire_at, advance_clock,
}
use pool.Registry.Admission.{admissible_job_ids, current_generation, ordinary}
use pool.Registry.Events.{job_activated, generation_closed}
use pool.Router.{
  suspend_router, update_stream_lagged, anchored_ms, anchor_predates_timeline,
  BackendConnectionBinding, RouterState, JobRouter, activated, retired, suspended, update_for,
  instant_ms, suspend_if_bound,
}
use pool.Router.Journal.{subscribe_updates, receive, received, lagged, BackendClient}
use pool.Router.Health.{
  routed_submission, prepare_queued_paused_candidate, client_binding_matches, client_cursor_matches,
  locked, at_time, of_registry, pause_for_health, resume_after_health, routed_generation,
}
use pool.Router.Calls.{requeueing, Call, pausing, resuming, asking, step, run}
use pool.Router.Clean.{IsOwed}
use pool.Router.Kept.{run-IsOwed}
use pool.Router.Refused.{run-refuses}
use pool.Nonce.{four, twenty_eight}
use pool.Session.{AuthenticatedWorker, MiningSession, authorized}
use pool.Session.Submission.{SubmissionContext}
use pool.Router.Advertised.{IsAdvertised, update_for-IsAdvertised}

abbrev work : JobDescriptor
work = record {
  job_id = 7;
  wcash_candidate_hash_le = 1;
  header_input = 4 ∷ 0 ∷ 0 ∷ 0 ∷ [];
  wcash_previous_hash_le = 2;
  zcash_previous_hash_le = 3;
  wcash_coinbase_txid_le = 4;
  zcash_coinbase_txid_le = 5;
  wcash_target_le = 9 ∷ [];
  zcash_target_le = 8 ∷ [];
  wcash_height = 10;
  zcash_height = 11;
  wcash_reward_zat = 0;
  zcash_reward_zat = 0;
  wcash_maturity_confirmations = 100;
  zcash_maturity_confirmations = 100;
  max_age_ms = 60_000;
}

abbrev generation : BackendGeneration
generation = record {
  descriptor = work;
  id = 7;
  tips = record { wcash_previous_hash_le = 2; zcash_previous_hash_le = 3 };
  wcash_network_target = 9;
  zcash_network_target = 8;
}

abbrev registry : GenerationRegistry
registry = record {
  config = record { maximum_recent = 2; maximum_generations = 8 };
  entries =
      (
        7,
        record {
          storage = live generation 0;
          accept_until_ms = 1_000;
          winner_recovery_until_ms = 61_000;
          state = accepting;
        },
      )
      ∷ [];
  current = some 7;
  recent = [];
  winner_recovery = 7 ∷ [];
  watermark_current = some 7;
  watermark_recent = [];
  last_event_seq = some 5;
  last_delivery_anchor_ms = some 100;
  last_monotonic_ms = some 200;
  synchronized = true;
}

abbrev binding : BackendConnectionBinding
binding = record { authority = 1; connection_token = 2; snapshot_event_seq = 5 }

abbrev client : BackendClient
client = record {
  live = true;
  authority = 1;
  connection_token = 2;
  subscribed_snapshot_event_seq = some 5;
  live_event_cursor = some 5;
}

abbrev state : RouterState
state = record {
  registry = registry;
  health_paused = false;
  recovery_only = false;
  force_clean_jobs = true;
  backend_authority = some 1;
  connection_binding = some binding;
}

abbrev router : JobRouter
router = record { state = state; timeline = record { origin = 0 }; poisoned = false; updates = [] }

abbrev sha256 : List ℕ → List ℕ
sha256 bytes = bytes

-- A health pause, in which no generation is offered, and the reopening.
abbrev calls : List Call
calls = pausing client 300_000_000 ∷ asking 400_000_000 ∷ resuming client 500_000_000 ∷ []

reopened : (run sha256 router calls).updates ≡ activated generation true ∷ []
unfolding run step instant_ms pause_for_health resume_after_health routed_generation locked at_time
    of_registry admissible_job_ids current_generation advance_clock expire_at map_entries lookup
reopened = refl

run-IsOwed_example : IsOwed router (run sha256 router calls)
run-IsOwed_example = run-IsOwed sha256 router calls refl

-- A connection of an older snapshot cannot suspend the router.
abbrev older : BackendConnectionBinding
older = record { authority = 1; connection_token = 2; snapshot_event_seq = 4 }

kept_open : suspend_if_bound router older ≡ (ok false, router)
unfolding suspend_if_bound
kept_open = refl

closed : (suspend_if_bound router binding).1.updates ≡ suspended ∷ []
unfolding suspend_if_bound
closed = refl

-- A subscription of a suspended router starts with the suspension, once.
starts_closed : subscribe_updates (suspend_router router).1 ≡ true
unfolding suspend_router suspend
starts_closed = refl

receives_once : receive true (received (retired 7)) ≡ (ok suspended, false)
receives_once = refl

lag_fails : receive false (lagged 3) ≡ (err (update_stream_lagged 3), false)
lag_fails = refl

owns_epoch : client_binding_matches router client ≡ ok true
owns_epoch = refl

cursor_applied : client_cursor_matches router client ≡ ok true
cursor_applied = refl

-- Before its origin a timeline has no time.
predates : anchored_ms (record { origin = 8 }) 7 ≡ err anchor_predates_timeline
predates = refl

retirement : (update_for state (generation_closed 6 7) 300).0 ≡ ok (some (retired 7))
unfolding update_for new_job_id
retirement = refl

announced : (update_for state (job_activated 6 work) 300).0 ≡ ok (some (activated generation true))
unfolding update_for new_job_id admissible_job_ids advance_clock expire_at map_entries lookup
announced = refl

-- Older work on the same tips, still listed, and no clean activation owed.
abbrev prior : BackendGeneration
prior = record generation { descriptor = record work { job_id = 6 }; id = 6 }

abbrev sharing_state : RouterState
sharing_state = record state {
  registry = record registry {
    entries =
        (
          6,
          record {
            storage = live prior 1;
            accept_until_ms = 900;
            winner_recovery_until_ms = 60_900;
            state = accepting;
          },
        )
        ∷ registry.entries;
    recent = 6 ∷ [];
  };
  force_clean_jobs = false;
}

announced_beside :
    (update_for sharing_state (job_activated 6 work) 300).0 ≡ ok (some (activated generation false))
unfolding update_for new_job_id admissible_job_ids advance_clock expire_at map_entries lookup
announced_beside = refl

-- Once the older work has expired, it does not count.
announced_alone :
    (update_for sharing_state (job_activated 6 work) 950).0 ≡ ok (some (activated generation true))
unfolding update_for new_job_id admissible_job_ids advance_clock expire_at map_entries lookup
announced_alone = refl

update_for-IsAdvertised_example :
    (sharing_state.health_paused ≡ false)
    × IsAdvertised
        (update_for sharing_state (job_activated 6 work) 300).1.registry
        300
        generation
        false
        false
update_for-IsAdvertised_example =
    update_for-IsAdvertised sharing_state (job_activated 6 work) 300 announced_beside

abbrev paused_state : RouterState
paused_state = record state { health_paused = true }

abbrev paused_router : JobRouter
paused_router = record router { state = paused_state }

abbrev rig : AuthenticatedWorker
rig = record {
  account_id = 3;
  worker_id = 4;
  canonical_login = 114 ∷ [];
  attribution_login = 114 ∷ [];
}

abbrev session : MiningSession
session = record {
  id = 1;
  state = authorized;
  nonce_prefix = some (four (5 ∷ 0 ∷ 0 ∷ 0 ∷ []));
  worker = some rig;
  announced_jobs = [];
  winner_recovery_jobs = [];
  maximum_announced_jobs = 2;
}

abbrev queued : SubmissionContext
queued = record {
  session_id = 1;
  identity = record { account_id = 3; worker_id = 4; label = 114 ∷ [] };
  target_le = 20 ∷ [];
  time = 1 ∷ 2 ∷ 3 ∷ 4 ∷ [];
  nonce = 5 ∷ [];
  solution = [];
  admission = record { generation = generation; role = ordinary };
}

abbrev waiting : List Call
waiting =
    asking 300_000_000 ∷ requeueing queued client 400_000_000 ∷ pausing client 500_000_000 ∷ []

run-refuses_example :
    ((routed_submission sha256
        (run sha256 paused_router waiting)
        session
        (114 ∷ [])
        7
        (1 ∷ 2 ∷ 3 ∷ 4 ∷ [])
        (twenty_eight [])
        []
        (ok 600)).0
      ≢ ok queued)
    × ((prepare_queued_paused_candidate sha256
          (run sha256 paused_router waiting)
          queued
          client
          (ok 600)).0
        ≢ ok queued)
run-refuses_example =
    run-refuses sha256 paused_router waiting session (114 ∷ []) 7 (1 ∷ 2 ∷ 3 ∷ 4 ∷ [])
      (twenty_eight []) [] queued client (ok 600) queued (record { paused = refl; closed = refl })
      (refl, (refl, (refl, tt)))
