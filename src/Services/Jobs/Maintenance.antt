-- ===== src/Services/Jobs/Maintenance.antt =====
-- `reap`, `close` with `_mark_interrupted`, and `_recover_on_startup` of
-- catlabel/services/print_jobs.py.
use Prim.Native.String.{String}
use catlabel.Prelude.{
  ℕ, suc, ◌+◌, ◌*◌, ◌==◌, Bool, true, false, Option, none, some, List, [], ◌∷◌, ◌&&◌, leb, not,
  if◌then◌else◌, ok, err, ◌>>=◌,
}
use catlabel.Services.Json
use catlabel.Services.Json.{Json, Fields, Items, null, flag, str, arr, obj, nil, end, field}
use catlabel.Services.Platform.{Platform}
use catlabel.Services.Artifacts.{ArtifactPin, contains, unpin_in_session}
use catlabel.Services.Jobs.{
  Database, PrintJobRecord, PrintPlanRecord, cancelled_before_delivery, delivery_uncertain,
  is_accepted, is_sending, is_terminal, is_uncertain, Fallible, plan_owner, from_artifact_error,
  error_value, ErrorValue, canonical_json,
}
use catlabel.Services.Jobs.Start.{Coordinator, active_tasks}
use catlabel.Services.Jobs.Table.{
  update_where, all_jobs, delete_jobs, rowcount, unpin_job, with_pins,
}

abbrev pub terminal_retention_seconds : ℕ
terminal_retention_seconds = 90 * 24 * 60 * 60

abbrev pub uncertain_pin_retention_seconds : ℕ
uncertain_pin_retention_seconds = 7 * 24 * 60 * 60

-- `_unpin_in_session(self._job_owner(job_id), session)` for each of the jobs.
unfoldable pub unpin_jobs : List PrintJobRecord → List ArtifactPin → Fallible (List ArtifactPin)
unfolding unpin_job
unpin_jobs [] pins = ok pins
unpin_jobs (job ∷ jobs) pins = do left ← unpin_job job.id pins; unpin_jobs jobs left

-- The commit of a transaction that updated the jobs and gives the pins of some of them back.
abbrev pub committed :
    Fallible (List ArtifactPin) → List PrintJobRecord → Database → Fallible (Unit {0}) × Database
committed (err e) jobs db = (err e, db)
committed (ok pins) jobs db = (ok tt, record (with_pins pins db) { jobs = jobs })

-- The texts of an interruption: the stage before delivery, its code and its message, and those
-- after delivery started.
pub record Interruption : Type 0 where
  pub stage : String
  pub code : String
  pub message : String
  pub sending_stage : String
  pub sending_code : String
  pub sending_message : String
  pub sending_retryable : Bool

abbrev pub interrupt_accepted : ℕ → Interruption → PrintJobRecord → PrintJobRecord
interrupt_accepted now i job = record job {
  state = cancelled_before_delivery;
  manifest_json = "{}";
  updated_at = now;
  completed_at = some now;
  error_stage = some i.stage;
  error_code = some i.code;
  error_message = some i.message;
}

abbrev pub interrupt_sending : ℕ → Interruption → PrintJobRecord → PrintJobRecord
interrupt_sending now i job = record job {
  state = delivery_uncertain;
  updated_at = now;
  completed_at = some now;
  uncertain_at = some now;
  error_stage = some i.sending_stage;
  error_code = some i.sending_code;
  error_message = some i.sending_message;
  error_retryable = i.sending_retryable;
}

-- The two updates.
abbrev pub interrupted_jobs :
    (PrintJobRecord → Bool) → Interruption → ℕ → List PrintJobRecord → List PrintJobRecord
interrupted_jobs chosen i now jobs =
    update_where (λ job. chosen job && is_sending job.state) (interrupt_sending now i)
      (update_where (λ job. chosen job && is_accepted job.state) (interrupt_accepted now i) jobs)

-- With the pins of the jobs that were accepted.
unfoldable pub interrupt_where :
    (PrintJobRecord → Bool) → Interruption → ℕ → Database → Fallible (Unit {0}) × Database
unfolding unpin_jobs
interrupt_where chosen i now db =
    committed
      (unpin_jobs (all_jobs (λ job. chosen job && is_accepted job.state) db.jobs) db.store.pins)
      (interrupted_jobs chosen i now db.jobs) db

abbrev pub shutdown : Interruption
shutdown = record {
  stage = "shutdown";
  code = "cancelled_before_delivery";
  message = "Job was interrupted before delivery started.";
  sending_stage = "shutdown_after_delivery_started";
  sending_code = "delivery_interrupted";
  sending_message = "Job was interrupted after delivery started.";
  sending_retryable = true;
}

abbrev pub startup : Interruption
startup = record {
  stage = "startup_recovery";
  code = "process_restarted_before_delivery";
  message = "Accepted job was cancelled during restart recovery.";
  sending_stage = "startup_recovery_after_delivery_started";
  sending_code = "process_interrupted_during_delivery";
  sending_message = "Delivery was interrupted; automatic replay is disabled.";
  sending_retryable = false;
}

unfoldable pub mark_interrupted : List String → ℕ → Database → Fallible (Unit {0}) × Database
unfolding interrupt_where contains
mark_interrupted [] now db = (ok tt, db)
mark_interrupted (job_id ∷ job_ids) now db =
    interrupt_where (λ job. contains job.id (job_id ∷ job_ids)) shutdown now db

unfoldable pub recover_on_startup : ℕ → Database → Fallible (Unit {0}) × Database
unfolding interrupt_where
recover_on_startup now db = interrupt_where (λ job. true) startup now db

-- `column <= now - seconds`, false where the column is null.
abbrev aged : Option ℕ → ℕ → ℕ → Bool
aged none seconds now = false
aged (some t) seconds now = leb (t + seconds) now

abbrev pub plan_expired : ℕ → PrintPlanRecord → Bool
plan_expired now plan = leb plan.expires_at now

abbrev pub to_compact : ℕ → PrintJobRecord → Bool
to_compact now job =
    is_uncertain job.state
    && aged job.uncertain_at uncertain_pin_retention_seconds now
    && not job.forensic_compacted

abbrev pub to_remove : ℕ → PrintJobRecord → Bool
to_remove now job = is_terminal job.state && aged job.completed_at terminal_retention_seconds now

unfoldable pub unpin_plans :
    ℕ → List PrintPlanRecord → List ArtifactPin → Fallible (List ArtifactPin)
unfolding unpin_in_session from_artifact_error
unpin_plans now [] pins = ok pins
unpin_plans now (plan ∷ plans) pins =
    let rest = unpin_plans now plans in
    if plan_expired now plan
    then elim (unpin_in_session (plan_owner plan.id) pins) [
      | err e ↦ err (from_artifact_error e)
      | ok left ↦ rest left
    ]
    else rest pins

abbrev live_plans : ℕ → List PrintPlanRecord → List PrintPlanRecord
live_plans now [] = []
live_plans now (plan ∷ plans) =
    let rest = live_plans now plans in if plan_expired now plan then rest else plan ∷ rest

abbrev expired_count : ℕ → List PrintPlanRecord → ℕ
expired_count now [] = 0
expired_count now (plan ∷ plans) =
    let n = expired_count now plans in if plan_expired now plan then suc n else n

abbrev pub json_text : Option String → Json
json_text none = null
json_text (some s) = str s

abbrev pub error_json : Option ErrorValue → Json
error_json none = null
error_json (some e) = obj (
    field "code" (str e.code) (
      field "message" (str e.message) (
        field "stage" (json_text e.stage)
          (field "retryable" (flag e.retryable) (field "details" (obj e.details) end)))))

abbrev pub compacted_row : ℕ → String → PrintJobRecord → PrintJobRecord
compacted_row now text job = record job {
  forensic_json = text;
  manifest_json = "{}";
  forensic_compacted = true;
  updated_at = now;
}

module _ (platform : Platform) where
  -- `_decode_manifest(...).get("source_artifacts", [])`
  abbrev pub manifest_sources : String → Json
  manifest_sources text = elim (platform.loads text) [
    | none ↦ arr nil
    | some (obj fields) ↦ elim (Json.get fields "source_artifacts") [ none ↦ arr nil | some v ↦ v ]
    | some _ ↦ arr nil
  ]

  -- What is kept of an uncertain job, as JSON and as a row.
  abbrev pub forensic_value : PrintJobRecord → Json
  forensic_value job = obj (
      field "plan_hash" (str job.plan_hash) (
        field "source_artifacts" (manifest_sources job.manifest_json)
          (field "error" (error_json (error_value platform job)) end)))

  unfoldable pub compact : ℕ → PrintJobRecord → Fallible PrintJobRecord
  unfolding canonical_json error_value Json.get
  compact now job = do
    text ← canonical_json platform (forensic_value job) "job_content_invalid"
    ok (compacted_row now text job)

  unfoldable pub compact_all : ℕ → List PrintJobRecord → Fallible (List PrintJobRecord)
  unfolding compact
  compact_all now [] = ok []
  compact_all now (job ∷ jobs) = do
    rest ← compact_all now jobs
    compacted ← (if to_compact now job then compact now job else ok job)
    ok (compacted ∷ rest)

  -- The counts of `reap`, of plans, compacted jobs and removed jobs, and what it commits.
  unfoldable pub swept : ℕ → Database → Fallible ((ℕ × ℕ × ℕ) × Database)
  unfolding unpin_plans unpin_jobs compact_all
  swept now db = do
    without_plans ← unpin_plans now db.plans db.store.pins
    without_uncertain ← unpin_jobs (all_jobs (to_compact now) db.jobs) without_plans
    compacted ← compact_all now db.jobs
    left ← unpin_jobs (all_jobs (to_remove now) compacted) without_uncertain
    ok (
      (
        expired_count now db.plans,
        rowcount (to_compact now) db.jobs,
        rowcount (to_remove now) compacted,
      ),
      record (with_pins left db) {
        plans = live_plans now db.plans;
        jobs = delete_jobs (to_remove now) compacted;
      },
    )

  unfoldable pub reap : ℕ → Database → Fallible (ℕ × ℕ × ℕ) × Database
  unfolding swept
  reap now db = elim (swept now db) [
    | err e ↦ (err e, db)
    | ok (counts, after) ↦ (ok counts, after)
  ]

-- `close`. `pending` are the jobs whose tasks are still not done after both waits; what the tasks do
-- while `close` waits for them is `waited`.
unfoldable pub close :
    (waited : Database → Database) (pending : List String) (now : ℕ)
    → Coordinator
    → Fallible (Unit {0}) × Coordinator
unfolding mark_interrupted
close waited pending now c =
    if active_tasks c.tasks == 0
    then (ok tt, record c { closing = true })
    else let (r, db) = mark_interrupted pending now (waited c.db) in
      (r, record c { closing = true; db = db })
