-- ===== src/Services/Jobs/Start.antt =====
-- `PrintJobCoordinator.start` and `job_get` of catlabel/services/print_jobs.py. A
-- request is first checked (`prepared`), then reserved in one transaction (`reserve`), then
-- admitted and scheduled. Other requests may change the database between the first two.
use Prim.Native.String.{String}
use text.Mathlib.Text.{◌==◌ as str_eq}
use catlabel.Prelude.{
  ℕ, suc, Bool, true, false, Option, none, some, List, [], ◌∷◌, ◌++◌, ◌||◌, leb, not, if◌then◌else◌,
  Result, ok, err, ◌>>=◌, ◌>>◌,
}
use catlabel.Services.Json.{str, obj, end, field}
use catlabel.Services.Platform.{Platform}
use catlabel.Services.Artifacts.{pin_in_session}
use catlabel.Services.Jobs.{
  Database, PrintJobRecord, PrintPlanRecord, accepted, Fallible, job_error, busy_error,
  from_artifact_error, JobResult, job_result, validate_uuid, validate_hash, validate_key,
  validate_principal, canonical_json, sha256_text, job_owner,
}
use catlabel.Services.Jobs.Table.{first_job, job_by_key, find_plan, has_id, with_pins}
use catlabel.Services.Jobs.Plans.{checked_plan}
use catlabel.Services.Jobs.Delivery.{Failure, fail_before_delivery, get_job, job_of, job_not_found}

-- One entry of `self._tasks`.
pub record Task : Type 0 where
  pub job_id : String
  pub done : Bool

pub record Coordinator : Type 0 where
  pub db : Database
  pub tasks : List Task
  pub max_active : ℕ
  pub closing : Bool

pub record Request : Type 0 where
  pub plan_id : String
  pub plan_hash : String
  pub key : String
  pub principal : String
  pub request_hash : String
  pub manifest_json : String
  pub source_ids : List String

-- `sum(not task.done() for task in self._tasks.values())`
abbrev pub active_tasks : List Task → ℕ
active_tasks [] = 0
active_tasks (t ∷ ts) = let n = active_tasks ts in if t.done then n else suc n

-- The row that a reservation inserts.
abbrev pub new_job : Request → String → ℕ → PrintJobRecord
new_job r job_id now = record {
  id = job_id;
  principal = r.principal;
  idempotency_key = r.key;
  request_hash = r.request_hash;
  plan_id = r.plan_id;
  plan_hash = r.plan_hash;
  manifest_json = r.manifest_json;
  forensic_json = "{}";
  state = accepted;
  created_at = now;
  updated_at = now;
  accepted_at = now;
  sending_at = none;
  completed_at = none;
  uncertain_at = none;
  attempt = 0;
  error_stage = none;
  error_code = none;
  error_message = none;
  error_retryable = false;
  error_details_json = none;
  receipt_json = none;
  delivery_verification = none;
  forensic_compacted = false;
}

-- The plan as the transaction finds it: still there, unexpired and unchanged.
abbrev pub current_plan : Request → ℕ → Option PrintPlanRecord → Fallible (Unit {0})
current_plan r now none = err (job_error "plan_expired" "Print plan has expired or was removed.")
current_plan r now (some plan) =
    if leb plan.expires_at now
    then err (job_error "plan_expired" "Print plan has expired or was removed.")
    else if not (str_eq plan.plan_hash r.plan_hash)
        || not (str_eq plan.manifest_json r.manifest_json)
    then err (job_error "plan_hash_mismatch" "Print plan changed during job reservation.")
    else ok tt

-- The workers are all taken; the event loop takes no task.
abbrev pub busy_failure : Failure
busy_failure = record {
  code = "printer_busy";
  message = "Print admission is busy; start a new key to retry.";
  stage = "admission";
  retryable = true;
  details = none;
}

abbrev pub schedule_failure : Failure
schedule_failure = record {
  code = "job_schedule_failed";
  message = "Print job could not be scheduled.";
  stage = "scheduling";
  retryable = true;
  details = none;
}

-- `if self._closing: raise JobError(...)`
abbrev pub unless_closing :
    Bool → Coordinator → Fallible JobResult × Coordinator → Fallible JobResult × Coordinator
unless_closing true c answer =
    (err (job_error "coordinator_closed" "Print job coordinator is closing."), c)
unless_closing false c answer = answer

-- What a reservation found or made: the row, and whether it was there before.
pub data Reservation : Type 0 where
  existing : PrintJobRecord → Reservation
  inserted : PrintJobRecord → Reservation

module _ (platform : Platform) where
  unfoldable pub same_key_result : PrintJobRecord → String → String → Fallible JobResult
  unfolding job_result
  same_key_result job plan_id plan_hash =
      if not (str_eq job.plan_id plan_id) || not (str_eq job.plan_hash plan_hash)
      then err (record {
        code = "idempotency_conflict";
        message = "Idempotency key was already used for a different print request.";
        retryable = false;
        details = field "job_id" (str job.id) end;
      })
      else ok (job_result platform job)

  -- The insertion with its pins. A primary key that is taken is the `IntegrityError`, whose handler
  -- finds no row of this principal and key; the unique pair of these was tested just before.
  abbrev pub insert_job : Request → String → ℕ → Bool → Database → Fallible Reservation × Database
  insert_job r job_id now busy db =
      elim (pin_in_session platform db.store.records (job_owner job_id) r.source_ids none
        db.store.pins) [
          | err e ↦ (err (from_artifact_error e), db)
          | ok pins ↦
              if busy
              then (err (busy_error "Job reservation is temporarily busy."), db)
              else elim (first_job (has_id job_id) db.jobs) [
                | some taken ↦ (err (busy_error "Job reservation is temporarily busy."), db)
                | none ↦ (
                  ok (inserted (new_job r job_id now)),
                  record (with_pins pins db) { jobs = db.jobs ++ new_job r job_id now ∷ [] },
                )
              ]
        ]

  -- `locked` says that `BEGIN IMMEDIATE` is refused, and `busy` that the commit is.
  unfoldable pub reserve :
      Request → String → ℕ → Bool → Bool → Database → Fallible Reservation × Database
  unfolding pin_in_session from_artifact_error
  reserve r job_id now locked busy db =
      if locked
      then (err (busy_error "Job reservation is temporarily busy."), db)
      else elim (job_by_key r.principal r.key db.jobs) [
        | some winner ↦ (ok (existing winner), db)
        | none ↦ elim (current_plan r now (find_plan r.plan_id db.plans)) [
          | err e ↦ (err e, db)
          | ok u ↦ insert_job r job_id now busy db
        ]
      ]

  -- The checks before the reservation. `found` is the row of an earlier request with this key.
  unfoldable pub prepared :
      String → String → String → String → ℕ → Database → Fallible (Result PrintJobRecord Request)
  unfolding validate_uuid validate_hash validate_key validate_principal checked_plan canonical_json
      sha256_text
  prepared plan_id plan_hash key principal now db = do
    id ← validate_uuid platform plan_id "invalid_plan_id"
    validate_hash plan_hash "invalid_plan_hash"
    validate_key key
    validate_principal principal
    elim (job_by_key principal key db.jobs) [
      | some found ↦ ok (err found)
      | none ↦ do
        (plan, manifest, source_ids) ← checked_plan platform id (some plan_hash) now db
        request_text ←
            canonical_json platform
              (obj (
                field "plan_id" (str id) (
                  field "expected_plan_hash" (str plan_hash)
                    (field "manifest" (obj manifest) end))))
              "invalid_plan"
        manifest_json ← canonical_json platform (obj manifest) "plan_content_invalid"
        ok (
            ok (record {
              plan_id = id;
              plan_hash = plan_hash;
              key = key;
              principal = principal;
              request_hash = sha256_text platform request_text;
              manifest_json = manifest_json;
              source_ids = source_ids;
            }))
    ]

  -- All the workers are taken: the row fails, and the request's answer shows it.
  unfoldable pub refuse : PrintJobRecord → ℕ → Bool → Coordinator → Fallible JobResult × Coordinator
  unfolding fail_before_delivery get_job job_result
  refuse job now unfailable c =
      let (r, db) = fail_before_delivery platform job.id busy_failure now unfailable c.db in
      ((do r; updated ← get_job job.id db; ok (job_result platform updated)), record c { db = db })

  unfoldable pub fail_schedule :
      PrintJobRecord → ℕ → Bool → Coordinator → Fallible JobResult × Coordinator
  unfolding fail_before_delivery
  fail_schedule job now unfailable c =
      let (r, db) = fail_before_delivery platform job.id schedule_failure now unfailable c.db in
      (
        (do
          r
          err (record {
            code = "job_schedule_failed";
            message = "Print job could not be scheduled.";
            retryable = true;
            details = field "job_id" (str job.id) end;
          })),
        record c { db = db },
      )

  -- Admission and scheduling of a row that the reservation inserted. `schedulable` says that the
  -- event loop takes the task, and `unfailable` that the database refuses to record a failure.
  unfoldable pub admit :
      PrintJobRecord → ℕ → Bool → Bool → Coordinator → Fallible JobResult × Coordinator
  unfolding refuse fail_schedule job_result
  admit job now schedulable unfailable c =
      if leb c.max_active (active_tasks c.tasks)
      then refuse job now unfailable c
      else if not schedulable
      then fail_schedule job now unfailable c
      else (
        ok (job_result platform job),
        record c { tasks = c.tasks ++ record { job_id = job.id; done = false } ∷ [] },
      )

  -- What follows the transaction.
  unfoldable pub settle_start :
      Request → ℕ → Bool → Bool → Reservation → Coordinator → Fallible JobResult × Coordinator
  unfolding same_key_result admit job_result
  settle_start r now schedulable unfailable (existing job) c =
      (same_key_result job r.plan_id r.plan_hash, c)
  settle_start r now schedulable unfailable (inserted job) c =
      admit job now schedulable unfailable c

  -- `start` once the coordinator is known to be open.
  unfoldable pub start_open :
      (plan_id plan_hash key principal job_id : String) (checked_at reserved_at : ℕ)
      (locked busy schedulable unfailable : Bool)
      → Coordinator
      → Fallible JobResult × Coordinator
  unfolding prepared reserve settle_start same_key_result
  start_open plan_id plan_hash key principal job_id checked_at reserved_at locked busy schedulable
        unfailable c =
      elim (prepared plan_id plan_hash key principal checked_at c.db) [
        | err e ↦ (err e, c)
        | ok (err found) ↦ (same_key_result found plan_id plan_hash, c)
        | ok (ok r) ↦
            let (reserved, db) = reserve r job_id reserved_at locked busy c.db in
            elim reserved [
              | err e ↦ (err e, record c { db = db })
              | ok reservation ↦
                  settle_start r reserved_at schedulable unfailable reservation
                    (record c { db = db })
            ]
      ]

  unfoldable pub start :
      (plan_id plan_hash key principal job_id : String) (checked_at reserved_at : ℕ)
      (locked busy schedulable unfailable : Bool)
      → Coordinator
      → Fallible JobResult × Coordinator
  unfolding start_open
  start plan_id plan_hash key principal job_id checked_at reserved_at locked busy schedulable
        unfailable c =
      unless_closing c.closing c (
        start_open plan_id plan_hash key principal job_id checked_at reserved_at locked busy
          schedulable unfailable c)

  unfoldable pub job_get : String → String → Database → Fallible JobResult
  unfolding validate_uuid validate_principal job_result
  job_get job_id principal db = do
    id ← validate_uuid platform job_id "invalid_job_id"
    validate_principal principal
    elim (job_of id principal db) [
      | none ↦ err job_not_found
      | some job ↦ ok (job_result platform job)
    ]
