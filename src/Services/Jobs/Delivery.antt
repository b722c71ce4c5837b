-- ===== src/Services/Jobs/Delivery.antt =====
-- The transitions of a job in catlabel/services/print_jobs.py, each one transaction: `cancel`,
-- `_mark_sending`, `_mark_submitted`, `_fail_before_delivery`, `_mark_cancelled_before_delivery`,
-- `_mark_uncertain` and `_settle_cancelled`. `busy` says that the database refuses the write. The last
-- four let the `OperationalError` of a refusal through.
use Prim.Native.String.{String}
use text.Mathlib.Text.{◌==◌ as str_eq}
use catlabel.Prelude.{
  ℕ, Bool, true, false, Option, none, some, List, ◌&&◌, ◌==◌, ltb, if◌then◌else◌, ok, err, ◌>>=◌,
  ◌>>◌,
}
use catlabel.Services.Json.{Fields, str, obj, end, field}
use catlabel.Services.Text.{clip, char_count}
use catlabel.Services.Platform.{Platform}
use catlabel.Services.Jobs.{
  Database, PrintJobRecord, sending, submitted, failed_before_delivery, cancelled_before_delivery,
  delivery_uncertain, is_accepted, is_sending, JobError, Fallible, job_error, busy_error, JobResult,
  job_result, state_text, validate_uuid, validate_principal, canonical_json,
}
use catlabel.Services.Jobs.Table.{
  update_where, rowcount, first_job, has_id, in_state, unpin_job, with_pins,
}

-- What a transition says of an error.
pub record Failure : Type 0 where
  pub code : String
  pub message : String
  pub stage : String
  pub retryable : Bool
  pub details : Option Fields

abbrev pub failure : String → String → String → Failure
failure code message stage = record {
  code = code;
  message = message;
  stage = stage;
  retryable = false;
  details = none;
}

-- Stands for the `OperationalError` of a transaction that has no handler for it.
abbrev pub operational_error : JobError
operational_error = job_error "OperationalError" "The database refused a write."

-- The end of a transaction that updated one job and gives its pins back if it did.
unfoldable pub commit_unpinned :
    String → ℕ → List PrintJobRecord → Database → Fallible (Unit {0}) × Database
unfolding unpin_job
commit_unpinned job_id changed jobs db =
    if changed == 1
    then elim (unpin_job job_id db.store.pins) [
      | err e ↦ (err e, db)
      | ok pins ↦ (ok tt, record (with_pins pins db) { jobs = jobs })
    ]
    else (ok tt, record db { jobs = jobs })

abbrev pub to_sending : ℕ → PrintJobRecord → PrintJobRecord
to_sending now job = record job {
  state = sending;
  sending_at = some now;
  updated_at = now;
  attempt = 1;
}

abbrev pub to_submitted : ℕ → String → PrintJobRecord → PrintJobRecord
to_submitted now receipt_json job = record job {
  state = submitted;
  manifest_json = "{}";
  updated_at = now;
  completed_at = some now;
  error_stage = none;
  error_code = none;
  error_message = none;
  error_retryable = false;
  error_details_json = none;
  receipt_json = some receipt_json;
  delivery_verification = some "unverified";
}

abbrev pub to_cancelled : ℕ → PrintJobRecord → PrintJobRecord
to_cancelled now job = record job {
  state = cancelled_before_delivery;
  updated_at = now;
  completed_at = some now;
  error_stage = some "cancellation";
  error_code = some "cancelled_before_delivery";
  error_message = some "Job was cancelled before delivery started.";
  error_retryable = false;
  error_details_json = none;
}

abbrev pub to_interrupted : ℕ → Failure → PrintJobRecord → PrintJobRecord
to_interrupted now e job = record job {
  state = cancelled_before_delivery;
  manifest_json = "{}";
  updated_at = now;
  completed_at = some now;
  error_stage = some e.stage;
  error_code = some e.code;
  error_message = some (clip 500 e.message);
  error_retryable = false;
  error_details_json = none;
}

-- The error where the job's row is gone, and `_get_job`.
abbrev pub job_not_found : JobError
job_not_found = job_error "job_not_found" "Print job was not found."

unfoldable pub get_job : String → Database → Fallible PrintJobRecord
get_job job_id db = elim (first_job (has_id job_id) db.jobs) [
  | none ↦ err job_not_found
  | some job ↦ ok job
]

abbrev conflict : String → String → Fields → JobError
conflict code message details = record {
  code = code;
  message = message;
  retryable = false;
  details = details;
}

unfoldable pub mark_sending : String → ℕ → Bool → Database → Fallible (Unit {0}) × Database
unfolding get_job state_text
mark_sending job_id now busy db =
    let test = in_state is_accepted job_id in
    let after = record db { jobs = update_where test (to_sending now) db.jobs } in
    if busy
    then (err (busy_error "Delivery boundary could not be persisted."), db)
    else if rowcount test db.jobs == 1
    then (ok tt, after)
    else (
      (do
        job ← get_job job_id after
        err (
            conflict "job_state_conflict" "Job is no longer accepted for delivery."
              (field "state" (str (state_text job.state)) end))),
      after,
    )

unfoldable pub mark_submitted :
    String → String → ℕ → Bool → Database → Fallible (Unit {0}) × Database
unfolding commit_unpinned
mark_submitted job_id receipt_json now busy db =
    let test = in_state is_sending job_id in
    if busy
    then (err (busy_error "Submission receipt could not be persisted."), db)
    else commit_unpinned job_id (rowcount test db.jobs)
        (update_where test (to_submitted now receipt_json) db.jobs) db

unfoldable pub mark_cancelled_before_delivery :
    String → Failure → ℕ → Bool → Database → Fallible (Unit {0}) × Database
unfolding commit_unpinned
mark_cancelled_before_delivery job_id e now busy db =
    let test = in_state is_accepted job_id in
    if busy
    then (err operational_error, db)
    else commit_unpinned job_id (rowcount test db.jobs)
        (update_where test (to_interrupted now e) db.jobs) db

abbrev cancel_refused : String → PrintJobRecord → JobError
cancel_refused job_id job =
    conflict "cancel_not_supported_after_delivery_started"
      "Cancellation is unavailable for the current job state."
      (field "job_id" (str job_id) (field "state" (str (state_text job.state)) end))

-- `_get_job_for_principal`
abbrev pub job_of : String → String → Database → Option PrintJobRecord
job_of job_id principal db =
    first_job (λ job. str_eq job.id job_id && str_eq job.principal principal) db.jobs

module _ (platform : Platform) where
  -- `_encode_details`: what is no JSON, or is too long, is dropped.
  unfoldable pub encode_details : Option Fields → Option String
  unfolding canonical_json
  encode_details none = none
  encode_details (some details) = elim (canonical_json platform (obj details) "invalid_job_error") [
    | err e ↦ none
    | ok encoded ↦ if ltb 4096 (char_count encoded) then none else some encoded
  ]

  abbrev pub to_failed : ℕ → Failure → PrintJobRecord → PrintJobRecord
  to_failed now e job = record job {
    state = failed_before_delivery;
    manifest_json = "{}";
    updated_at = now;
    completed_at = some now;
    error_stage = some e.stage;
    error_code = some e.code;
    error_message = some (clip 500 e.message);
    error_retryable = e.retryable;
    error_details_json = encode_details e.details;
  }

  abbrev pub to_uncertain : ℕ → Failure → PrintJobRecord → PrintJobRecord
  to_uncertain now e job = record job {
    state = delivery_uncertain;
    updated_at = now;
    completed_at = some now;
    uncertain_at = some now;
    error_stage = some e.stage;
    error_code = some e.code;
    error_message = some (clip 500 e.message);
    error_retryable = e.retryable;
    error_details_json = encode_details e.details;
  }

  unfoldable pub fail_before_delivery :
      String → Failure → ℕ → Bool → Database → Fallible (Unit {0}) × Database
  unfolding commit_unpinned encode_details
  fail_before_delivery job_id e now busy db =
      let test = in_state is_accepted job_id in
      if busy
      then (err operational_error, db)
      else commit_unpinned job_id (rowcount test db.jobs)
          (update_where test (to_failed now e) db.jobs) db

  -- No pin is given back: the sources stay for the inquiry.
  unfoldable pub mark_uncertain :
      String → Failure → ℕ → Bool → Database → Fallible (Unit {0}) × Database
  unfolding encode_details
  mark_uncertain job_id e now busy db = if busy then (err operational_error, db) else (
    ok tt,
    record db { jobs = update_where (in_state is_sending job_id) (to_uncertain now e) db.jobs },
  )

  abbrev pub settle_in :
      Option PrintJobRecord → String → ℕ → Bool → Database → Fallible (Unit {0}) × Database
  settle_in none job_id now busy db = (ok tt, db)
  settle_in (some job) job_id now busy db =
      if is_accepted job.state
      then mark_cancelled_before_delivery job_id
          (failure "cancelled_before_delivery" "Job was interrupted before delivery started."
            "shutdown")
          now busy db
      else if is_sending job.state
      then mark_uncertain job_id
          (record {
            code = "delivery_interrupted";
            message = "Job was interrupted after delivery started.";
            stage = "shutdown_after_delivery_started";
            retryable = true;
            details = none;
          })
          now busy db
      else (ok tt, db)

  unfoldable pub settle_cancelled : String → ℕ → Bool → Database → Fallible (Unit {0}) × Database
  unfolding mark_cancelled_before_delivery mark_uncertain
  settle_cancelled job_id now busy db =
      settle_in (first_job (has_id job_id) db.jobs) job_id now busy db

  -- The answer of `cancel`, once its transaction is through.
  abbrev cancel_answer : String → ℕ → Option PrintJobRecord → Fallible JobResult
  cancel_answer job_id changed none = err job_not_found
  cancel_answer job_id changed (some job) =
      if changed == 1 then ok (job_result platform job) else err (cancel_refused job_id job)

  unfoldable pub cancel_row : String → String → ℕ → Bool → Database → Fallible JobResult × Database
  unfolding commit_unpinned job_result state_text
  cancel_row job_id principal now busy db =
      let test = λ (job : PrintJobRecord).
        in_state is_accepted job_id job && str_eq job.principal principal in
      let changed = rowcount test db.jobs in
      if busy
      then (err (busy_error "Cancellation is temporarily blocked."), db)
      else let (r, after) =
          commit_unpinned job_id changed (update_where test (to_cancelled now) db.jobs) db in
        (r >> cancel_answer job_id changed (job_of job_id principal after), after)

  abbrev pub cancel_request : String → String → Fallible String
  cancel_request job_id principal = do
    id ← validate_uuid platform job_id "invalid_job_id"
    validate_principal principal
    ok id

  unfoldable pub cancel : String → String → ℕ → Bool → Database → Fallible JobResult × Database
  unfolding validate_uuid validate_principal cancel_row
  cancel job_id principal now busy db = elim (cancel_request job_id principal) [
    | err e ↦ (err e, db)
    | ok id ↦ cancel_row id principal now busy db
  ]
