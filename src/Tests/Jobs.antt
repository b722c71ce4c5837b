-- ===== src/Tests/Jobs.antt =====
-- Runs of the transactions of catlabel/services/print_jobs.py at concrete inputs.
use Prim.Native.String.{String}
use catlabel.Prelude.{
  arith, ◌≡◌, refl, true, false, none, some, [], ◌∷◌, ok, err, if◌then◌else◌, All,
}
use catlabel.Services.Json.{obj, end}
use catlabel.Services.Platform.{Platform}
use catlabel.Services.Artifacts.{ArtifactStore}
use catlabel.Services.Jobs.{Database, PrintJobRecord, PrintPlanRecord, busy_error, is_terminal}
use catlabel.Services.Jobs.Table.{all_jobs}
use catlabel.Services.Jobs.Plans.{create_plan}
use catlabel.Services.Jobs.Start.{Request, Coordinator, inserted, existing, new_job, reserve, start}
use catlabel.Services.Jobs.Delivery.{mark_sending, to_sending}
use catlabel.Services.Jobs.Runner.{Executor, Refusals, before_delivery, returns, run_job}
use catlabel.Services.Jobs.Maintenance.{recover_on_startup, reap}
use catlabel.Services.Jobs.Lifecycle.{IsValid}
use catlabel.Services.Jobs.Lifecycle.Workers.{IsBounded, start-IsBounded}
use catlabel.Services.Artifacts.{validate_owner}
use catlabel.Services.Jobs.{job_owner}
use catlabel.Services.Jobs.Lifecycle.Settled.{IsSettled}
use catlabel.Services.Jobs.Lifecycle.Endings.{run_job_settles}
use catlabel.Services.Jobs.Lifecycle.Upkeep.{recover_on_startup_settles, reap-live, is_live}
use catlabel.Services.Jobs.Steps.{Reachable-IsValid, fresh, after, plans, reserves, sends}
use catlabel.Services.Jobs.Idempotency.{row_of}
use catlabel.Services.Jobs.Idempotency.Histories.{at_once, later, reserve-idempotent}

abbrev hash : String
hash = "00000000000000000000000000000000000000000000000000000000000000ff"

-- A platform for the runs: one digest, one JSON text, any identifier.
abbrev toy : Platform
toy = record {
  sha256 = λ content. hash;
  uuid_text = λ text. some text;
  dumps = λ value. some "{}";
  loads = λ text. some (obj end);
  utf8 = λ text. [];
}

abbrev empty_store : ArtifactStore
empty_store = record {
  records = [];
  pins = [];
  blobs = λ id. none;
  quota_bytes = 100;
  closed = false;
}

abbrev request : Request
request = record {
  plan_id = "plan";
  plan_hash = hash;
  key = "key";
  principal = "user";
  request_hash = hash;
  manifest_json = "{}";
  source_ids = [];
}

abbrev plan : PrintPlanRecord
plan = record {
  id = "plan";
  plan_hash = hash;
  manifest_json = "{}";
  created_at = 0;
  expires_at = 900;
}

abbrev planned : Database
planned = record { store = empty_store; plans = plan ∷ []; jobs = [] }

abbrev waiting : Database
waiting = record planned { jobs = new_job request "job" 1 ∷ [] }

abbrev under_way : Database
under_way = record planned {
  jobs = new_job request "job" 1 ∷ to_sending 3 (new_job request "other" 2) ∷ [];
}

abbrev open_coordinator : Coordinator
open_coordinator = record { db = planned; tasks = []; max_active = 1; closing = false }

-- The executor crosses the boundary, and returns a receipt.
abbrev prints : Executor
prints = before_delivery 2 false (λ crossed. returns (obj end))

-- The database takes every write that ends a run, or only the last.
abbrev taken : Refusals
taken = record { receipt_refused = false; settlement_refused = false; handler_refused = false }

abbrev blocked : Refusals
blocked = record { receipt_refused = true; settlement_refused = true; handler_refused = false }

reserves_planned :
    reserve toy request "job" 1 false false planned
    ≡ (ok (inserted (new_job request "job" 1)), waiting)
unfolding reserve
reserves_planned = refl

run_job_submits :
    all_jobs (λ job. is_terminal job.state) (run_job toy "job" prints 3 taken waiting).1.jobs
    ≡ (run_job toy "job" prints 3 taken waiting).1.jobs
unfolding run_job
run_job_submits = refl

Reachable-IsValid_example :
    IsValid
      (mark_sending "job" 2 false
        (reserve toy request "job" 1 false false
          (create_plan toy end [] 900 0 "plan" false
            (record { store = empty_store; plans = []; jobs = [] })).1).1).1
Reachable-IsValid_example = Reachable-IsValid toy (
    after
      (after (after (fresh empty_store) (plans end [] 900 0 "plan" false))
        (reserves request "job" 1 false false))
      (sends "job" 2 false))

reserve-planned :
    (reserve toy request "job" 1 false false planned).0 ≡ ok (inserted (new_job request "job" 1))
unfolding reserve
reserve-planned = refl

abbrev reserved : Database
reserved = (reserve toy request "job" 1 false false planned).1

abbrev crossed : Database
crossed = (mark_sending "job" 2 false reserved).1

reserve-idempotent_example :
    (job : PrintJobRecord) × (job.id ≡ (row_of (inserted (new_job request "job" 1))).id)
    × (reserve toy request "second" 5 false true crossed ≡ (
      if false then err (busy_error "Job reservation is temporarily busy.") else ok (existing job),
      crossed,
    ))
reserve-idempotent_example =
    reserve-idempotent toy request "job" 1 false false planned crossed
      (inserted (new_job request "job" 1)) reserve-planned
      (later at_once (sends "job" 2 false) refl) request "second" 5 false true refl refl

recovers_under_way : (recover_on_startup 9 under_way).0 ≡ ok tt
unfolding recover_on_startup
recovers_under_way = refl

recover_on_startup_settles_example :
    All (λ job. is_terminal job.state ≡ true) (recover_on_startup 9 under_way).1.jobs
recover_on_startup_settles_example = recover_on_startup_settles 9 under_way recovers_under_way

reap-live_example :
    all_jobs is_live (reap toy 10000000 under_way).1.jobs ≡ all_jobs is_live under_way.jobs
reap-live_example = reap-live toy 10000000 under_way

owner_is_valid : validate_owner (job_owner "job") ≡ ok tt
unfolding validate_owner
owner_is_valid = refl

run_job_settles_example : IsSettled "job" (run_job toy "job" prints 3 blocked waiting).1
run_job_settles_example =
    run_job_settles toy "job" prints 3 blocked waiting refl owner_is_valid (λ crossed. tt)
      (λ crossed. tt) (λ crossed. tt) (omega arith) (refl, tt)

start-IsBounded_example :
    IsBounded
      (start toy "plan" hash "key" "user" "job" 1 2 false false true false open_coordinator).1
start-IsBounded_example =
    start-IsBounded toy "plan" hash "key" "user" "job" 1 2 false false true false open_coordinator
      (omega arith)

-- The coordinator with the job that was reserved.
abbrev busy_coordinator : Coordinator
busy_coordinator = record open_coordinator { db = waiting }
