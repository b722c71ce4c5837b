-- ===== src/Services/Jobs/Runner.antt =====
-- `_run_job` of catlabel/services/print_jobs.py with its `before_delivery`, and `_exception_fields`.
-- The executor is a callable that the coordinator is given: here the tree of what it does, with
-- what other tasks do to the database while it waits.
use Prim.Native.String.{String}
use text.Mathlib.Text.{◌==◌ as str_eq}
use catlabel.Prelude.{
  ℕ, Bool, true, false, Option, none, some, List, [], ◌∷◌, ◌&&◌, ◌||◌, ◌==◌, leb, not,
  if◌then◌else◌, ok, err,
}
use catlabel.Services.Json
use catlabel.Services.Json.{Json, Fields, null, flag, num, literal, str, arr, obj, end, field}
use catlabel.Services.Text.{clip, char_count}
use catlabel.Services.Platform.{Platform}
use catlabel.Services.Jobs.{
  Database, JobError, Fallible, job_error, canonical_json, is_accepted, is_sending, PrintJobRecord,
  JobState,
}
use catlabel.Services.Jobs.Table.{first_job, has_id}
use catlabel.Services.Jobs.Delivery.{
  Failure, failure, mark_sending, mark_submitted, mark_uncertain, fail_before_delivery,
  settle_cancelled,
}

-- What the executor raises: a `JobError`, an error of the HTTP service with its status and detail,
-- or anything else, of which only the name of its type is told.
pub data Exception : Type 0 where
  job : JobError → Exception
  service : String → ℕ → Json → Exception
  unknown : String → Exception

-- The tuple of `_exception_fields`.
pub record ExceptionFields : Type 0 where
  pub code : String
  pub message : String
  pub retryable : Bool
  pub details : Option Fields
  pub stage : Option String

abbrev text_or : ℕ → Option Json → String → String
text_or count (some (str s)) default = if char_count s == 0 then default else clip count s
text_or count _ default = default

abbrev bool_or : Option Json → Bool → Bool
bool_or (some (flag b)) default = b
bool_or _ default = default

abbrev stage_of : Option Json → Option String
stage_of (some (str s)) = if char_count s == 0 then none else some (clip 100 s)
stage_of _ = none

-- `safe_details[key] = ...` for one key; a missing key counts as `None`.
abbrev copy_detail : Fields → String → Fields → Fields
copy_detail fields key details = elim (Json.get fields key) [
  | none ↦ Json.put details key null
  | some (str s) ↦ Json.put details key (str (clip 500 s))
  | some null ↦ Json.put details key null
  | some (flag b) ↦ Json.put details key (flag b)
  | some (num n) ↦ Json.put details key (num n)
  | some (literal l) ↦ Json.put details key (literal l)
  | some (arr xs) ↦ details
  | some (obj fs) ↦ details
]

-- The loop over `_SERVICE_DETAIL_KEYS`.
abbrev copy_details : List String → Fields → Fields → Fields
copy_details [] fields details = details
copy_details (key ∷ keys) fields details = copy_details keys fields (copy_detail fields key details)

abbrev service_detail_keys : List String
service_detail_keys =
    "code" ∷ "stage" ∷ "error_id" ∷ "error" ∷ "delivery_uncertain" ∷ "suggestion" ∷ []

-- The fields before the last test, which turns a refused admission into `printer_busy`.
abbrev service_fields : ℕ → Json → ExceptionFields
service_fields status (obj fields) = record {
  code = text_or 100 (Json.get fields "code") "print_service_error";
  message = text_or 500 (Json.get fields "message") "Print service failed.";
  retryable = bool_or (Json.get fields "retryable") (leb 500 status);
  details = some (copy_details service_detail_keys fields (field "status_code" (num status) end));
  stage = stage_of (Json.get fields "stage");
}
service_fields status (str s) =
    if char_count s == 0
    then record {
      code = "print_service_error";
      message = "Print service failed.";
      retryable = leb 500 status;
      details = some (field "status_code" (num status) end);
      stage = none;
    }
    else record {
      code = "print_service_error";
      message = clip 500 s;
      retryable = leb 500 status;
      details = some (field "status_code" (num status) (field "detail" (str (clip 500 s)) end));
      stage = none;
    }
service_fields status _ = record {
  code = "print_service_error";
  message = "Print service failed.";
  retryable = leb 500 status;
  details = some (field "status_code" (num status) end);
  stage = none;
}

abbrev stage_is : Option String → String → Bool
stage_is none text = false
stage_is (some s) text = str_eq s text

unfoldable pub exception_fields : Exception → ExceptionFields
unfolding Json.get Json.put clip
exception_fields (job e) = record {
  code = e.code;
  message = e.message;
  retryable = e.retryable;
  details = some e.details;
  stage = none;
}
exception_fields (service type_name status detail) =
    let f = service_fields status detail in
    if not (leb 100 status && leb status 599)
    then record {
      code = "executor_failed";
      message = "Print executor failed.";
      retryable = false;
      details = some (field "exception_type" (str type_name) end);
      stage = none;
    }
    else if status == 409 && stage_is f.stage "admission"
    then record f { code = "printer_busy"; retryable = true }
    else f
exception_fields (unknown type_name) = record {
  code = "executor_failed";
  message = "Print executor failed.";
  retryable = false;
  details = some (field "exception_type" (str type_name) end);
  stage = none;
}

-- What an executor does next. `before_delivery` has the time of the call and whether the database
-- refuses the write, and goes on by the call's result, which the executor may catch.
pub data Executor : Type 0 where
  wait : (Database → Database) → Executor → Executor
  before_delivery : ℕ → Bool → (Fallible (Unit {0}) → Executor) → Executor
  returns : Json → Executor
  raises : Exception → Executor
  cancelled : Executor

pub data Outcome : Type 0 where
  receipt : Json → Outcome
  failed : Exception → Outcome
  interrupted : Outcome

-- The state of `_run_job` while the executor runs: `boundary_crossed` and the database.
pub record Progress : Type 0 where
  pub boundary_crossed : Bool
  pub db : Database

unfoldable pub call_before_delivery : String → ℕ → Bool → Progress → Fallible (Unit {0}) × Progress
unfolding mark_sending
call_before_delivery job_id now busy p =
    if p.boundary_crossed
    then (
      err (
          job_error "delivery_boundary_already_crossed"
            "The delivery boundary can only be crossed once."),
      p,
    )
    else let (r, db) = mark_sending job_id now busy p.db in
      elim r [
        | err e ↦ (err e, record p { db = db })
        | ok u ↦ (ok u, record { boundary_crossed = true; db = db })
      ]

unfoldable pub execute : String → Executor → Progress → Outcome × Progress
unfolding call_before_delivery
execute job_id (wait others next) p = execute job_id next (record p { db = others p.db })
execute job_id (before_delivery now busy next) p =
    let (r, q) = call_before_delivery job_id now busy p in execute job_id (next r) q
execute job_id (returns value) p = (receipt value, p)
execute job_id (raises e) p = (failed e, p)
execute job_id cancelled p = (interrupted, p)

abbrev default_stage : Option String → String → String
default_stage none default = default
default_stage (some s) default = s

-- `if details is not None and "status_code" in details: details["delivery_uncertain"] = True`
abbrev note_uncertain : Option Fields → Option Fields
note_uncertain none = none
note_uncertain (some details) = elim (Json.get details "status_code") [
  | none ↦ some details
  | some s ↦ some (Json.put details "delivery_uncertain" (flag true))
]

-- A test on what `_get_state` returned.
abbrev pub state_is : (JobState → Bool) → Option PrintJobRecord → Bool
state_is test none = false
state_is test (some j) = test j.state

abbrev pub skipped_failure : Failure
skipped_failure =
    failure "executor_skipped_delivery_boundary"
      "Executor returned before recording delivery start." "executor"

abbrev pub receipt_failure : Failure
receipt_failure =
    failure "receipt_persist_failed" "Submission completed but its receipt could not be persisted."
      "receipt"

-- Whether the database refuses the writes that end a run: that of the receipt, the one that stands
-- in the `try` block beside it or in its place, and that of the handler which runs last.
pub record Refusals : Type 0 where
  pub receipt_refused : Bool
  pub settlement_refused : Bool
  pub handler_refused : Bool

-- What a transaction without a handler raises: the refusal, or that the pins have no such owner.
abbrev pub raised : Bool → Exception
raised refused = if refused then unknown "OperationalError" else unknown "ArtifactError"

module _ (platform : Platform) where
  -- The handler `except Exception`.
  unfoldable pub handle_exception :
      String → ExceptionFields → ℕ → Bool → Progress → Fallible (Unit {0}) × Database
  unfolding mark_uncertain fail_before_delivery Json.get Json.put
  handle_exception job_id f now busy p =
      let state = first_job (has_id job_id) p.db.jobs in
      if state_is is_sending state || p.boundary_crossed
      then mark_uncertain platform job_id
          (record {
            code = f.code;
            message = f.message;
            stage = default_stage f.stage "executor_after_delivery_started";
            retryable = f.retryable;
            details = note_uncertain f.details;
          })
          now busy p.db
      else if state_is is_accepted state
      then fail_before_delivery platform job_id
          (record {
            code = f.code;
            message = f.message;
            stage = default_stage f.stage "executor_before_delivery";
            retryable = f.retryable;
            details = f.details;
          })
          now busy p.db
      else (ok tt, p.db)

  -- A transaction in the `try` block: what it raises goes to the handler.
  unfoldable pub handled :
      String → ℕ → Refusals → Bool → Fallible (Unit {0}) × Database → Fallible (Unit {0}) × Database
  unfolding handle_exception exception_fields
  handled job_id now refusals crossed (r, db) = elim r [
    | ok u ↦ (ok u, db)
    | err e ↦
        handle_exception job_id (exception_fields (raised refusals.settlement_refused)) now
          refusals.handler_refused (record { boundary_crossed = crossed; db = db })
  ]

  -- What follows `_mark_submitted`: only a refusal of its write is the `JobError` that is caught.
  unfoldable pub after_submission :
      String → ℕ → Refusals → Fallible (Unit {0}) × Database → Fallible (Unit {0}) × Database
  unfolding mark_uncertain handle_exception handled exception_fields
  after_submission job_id now refusals (ok u, db) = (ok u, db)
  after_submission job_id now refusals (err e, db) =
      if refusals.receipt_refused
      then handled job_id now refusals true
          (mark_uncertain platform job_id receipt_failure now refusals.settlement_refused db)
      else handle_exception job_id (exception_fields (raised false)) now refusals.handler_refused
          (record { boundary_crossed = true; db = db })

  -- The end of a run whose executor returned a receipt. A receipt that is no JSON is raised into the
  -- handler.
  unfoldable pub finish_receipt :
      String → Json → ℕ → Refusals → Progress → Fallible (Unit {0}) × Database
  unfolding canonical_json mark_submitted fail_before_delivery handle_exception handled
      after_submission exception_fields
  finish_receipt job_id value now refusals p =
      elim (canonical_json platform value "invalid_executor_receipt") [
        | err e ↦ handle_exception job_id (exception_fields (job e)) now refusals.handler_refused p
        | ok receipt_json ↦
            if not p.boundary_crossed
            then handled job_id now refusals false (
                fail_before_delivery platform job_id skipped_failure now refusals.settlement_refused
                  p.db)
            else after_submission job_id now refusals
                (mark_submitted job_id receipt_json now refusals.receipt_refused p.db)
      ]

  unfoldable pub finish :
      String → Outcome → ℕ → Refusals → Progress → Fallible (Unit {0}) × Database
  unfolding finish_receipt settle_cancelled handle_exception exception_fields
  finish job_id (receipt value) now refusals p = finish_receipt job_id value now refusals p
  finish job_id (failed e) now refusals p =
      handle_exception job_id (exception_fields e) now refusals.handler_refused p
  finish job_id interrupted now refusals p =
      settle_cancelled platform job_id now refusals.handler_refused p.db

  unfoldable pub run_job :
      String → Executor → ℕ → Refusals → Database → Fallible (Unit {0}) × Database
  unfolding execute finish
  run_job job_id executor now refusals db =
      let (outcome, p) = execute job_id executor (record { boundary_crossed = false; db = db }) in
      finish job_id outcome now refusals p
