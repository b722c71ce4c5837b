-- ===== src/Services/Jobs.antt =====
-- catlabel/services/print_jobs.py: the tables of print plans and print jobs, the errors, the
-- validators and the values that `PrintJobCoordinator` reports. Times are whole seconds.
pub mod Table
pub mod Plans
pub mod Start
pub mod Delivery
pub mod Runner
pub mod Maintenance
pub mod Listing
pub mod Lifecycle
pub mod Steps
pub mod Idempotency
use Prim.Native.String.{String, ◌++◌ as str_append}
use text.Mathlib.Text.{◌==◌ as str_eq}
use catlabel.Prelude.{
  ℕ, Bool, true, false, Option, none, some, ◌&&◌, ◌||◌, not, leb, ltb, ◌==◌, if◌then◌else◌, Result,
  ok, err, raise_if, List,
}
use catlabel.Prelude.Option
use catlabel.Services.Json.{Json, Fields, null, str, obj, end, field}
use catlabel.Services.Text.{char_count, is_hash}
use catlabel.Services.Platform.{Platform}
use catlabel.Services.Artifacts.{ArtifactError, ArtifactStore}

pub record JobError : Type 0 where
  pub code : String
  pub message : String
  pub retryable : Bool
  pub details : Fields

abbrev pub Fallible : Type 0 → Type 0
Fallible A = Result JobError A

abbrev pub job_error : String → String → JobError
job_error code message = record { code = code; message = message; retryable = false; details = end }

abbrev pub busy_error : String → JobError
busy_error message = record {
  code = "database_busy";
  message = message;
  retryable = true;
  details = end;
}

-- `_from_artifact_error`
unfoldable pub from_artifact_error : ArtifactError → JobError
from_artifact_error e = record {
  code = e.code;
  message = e.message;
  retryable = e.retryable;
  details = end;
}

pub data JobState : Type 0 where
  accepted sending submitted : JobState
  failed_before_delivery cancelled_before_delivery delivery_uncertain : JobState

unfoldable pub state_text : JobState → String
state_text accepted = "accepted"
state_text sending = "sending"
state_text submitted = "submitted"
state_text failed_before_delivery = "failed_before_delivery"
state_text cancelled_before_delivery = "cancelled_before_delivery"
state_text delivery_uncertain = "delivery_uncertain"

-- `state == "accepted"` and `state == "sending"`
abbrev pub is_accepted : JobState → Bool
is_accepted accepted = true
is_accepted _ = false

abbrev pub is_sending : JobState → Bool
is_sending sending = true
is_sending _ = false

abbrev pub is_uncertain : JobState → Bool
is_uncertain delivery_uncertain = true
is_uncertain _ = false

-- `state in _JOB_TERMINAL_STATES`
abbrev pub is_terminal : JobState → Bool
is_terminal accepted = false
is_terminal sending = false
is_terminal _ = true

pub record PrintPlanRecord : Type 0 where
  pub id : String
  pub plan_hash : String
  pub manifest_json : String
  pub created_at : ℕ
  pub expires_at : ℕ

pub record PrintJobRecord : Type 0 where
  pub id : String
  pub principal : String
  pub idempotency_key : String
  pub request_hash : String
  pub plan_id : String
  pub plan_hash : String
  pub manifest_json : String
  pub forensic_json : String
  pub state : JobState
  pub created_at : ℕ
  pub updated_at : ℕ
  pub accepted_at : ℕ
  pub sending_at : Option ℕ
  pub completed_at : Option ℕ
  pub uncertain_at : Option ℕ
  pub attempt : ℕ
  pub error_stage : Option String
  pub error_code : Option String
  pub error_message : Option String
  pub error_retryable : Bool
  pub error_details_json : Option String
  pub receipt_json : Option String
  pub delivery_verification : Option String
  pub forensic_compacted : Bool

-- The engine's tables, with those of the artifact store that share its transactions.
pub record Database : Type 0 where
  pub store : ArtifactStore
  pub plans : List PrintPlanRecord
  pub jobs : List PrintJobRecord

-- `_VALID_HASH`, `_validate_hash`, `_validate_key` and `_validate_principal`
unfoldable pub validate_hash : String → String → Fallible (Unit {0})
unfolding is_hash
validate_hash value code =
    raise_if (not (is_hash value)) (job_error code "SHA-256 value is invalid.")

unfoldable pub validate_key : String → Fallible (Unit {0})
validate_key value =
    raise_if (not (leb 1 (char_count value) && leb (char_count value) 128))
      (job_error "invalid_idempotency_key" "Idempotency key must be 1–128 characters.")

unfoldable pub validate_principal : String → Fallible (Unit {0})
validate_principal value =
    raise_if (not (leb 1 (char_count value) && leb (char_count value) 255))
      (job_error "invalid_principal" "Principal identifier is invalid.")

-- `_plan_owner` and `_job_owner`
abbrev pub plan_owner : String → String
plan_owner plan_id = str_append "plan:" plan_id

abbrev pub job_owner : String → String
job_owner job_id = str_append "job:" job_id

pub record ErrorValue : Type 0 where
  pub code : String
  pub message : String
  pub stage : Option String
  pub retryable : Bool
  pub details : Fields

pub record JobResult : Type 0 where
  pub id : String
  pub state : JobState
  pub plan_id : String
  pub plan_hash : String
  pub created_at : ℕ
  pub updated_at : ℕ
  pub accepted_at : ℕ
  pub sending_at : Option ℕ
  pub completed_at : Option ℕ
  pub attempt : ℕ
  pub error : Option ErrorValue
  pub receipt : Option Fields
  pub delivery_verification : Option String
  pub forensic : Option Json

abbrev as_fields : Option Json → Option Fields
as_fields (some (obj fields)) = some fields
as_fields _ = none

abbrev fields_or_empty : Option Fields → Fields
fields_or_empty (some fields) = fields
fields_or_empty none = end

-- `if text:` on an optional column: an empty text counts as none.
abbrev non_empty : Option String → Option String
non_empty none = none
non_empty (some text) = if char_count text == 0 then none else some text

module _ (platform : Platform) where
  -- `_sha256_text`
  unfoldable pub sha256_text : String → String
  sha256_text value = platform.sha256 (platform.utf8 value)

  unfoldable pub canonical_json : Json → String → Fallible String
  canonical_json value error_code = elim (platform.dumps value) [
    | none ↦ err (job_error error_code "Value is not valid canonical JSON.")
    | some text ↦ ok text
  ]

  unfoldable pub validate_uuid : String → String → Fallible String
  validate_uuid value code = elim (platform.uuid_text value) [
    | none ↦ err (job_error code "Identifier is invalid.")
    | some normalized ↦
        if str_eq normalized value
        then ok normalized
        else err (job_error code "Identifier is invalid.")
  ]

  -- `_error_value`: what cannot be read back as a `dict` is left empty.
  unfoldable pub error_value : PrintJobRecord → Option ErrorValue
  error_value job =
      Option.map
        (λ code. record {
          code = code;
          message = elim (non_empty job.error_message) [ none ↦ "Print job failed." | some m ↦ m ];
          stage = job.error_stage;
          retryable = job.error_retryable;
          details =
              fields_or_empty
                (as_fields (Option.bind (non_empty job.error_details_json) platform.loads));
        })
        job.error_code

  -- The forensic text is `{}` or what `_canonical_json` wrote, which `json.loads` reads; `none` stands
  -- for what it raises at any other text.
  unfoldable pub job_result : PrintJobRecord → JobResult
  unfolding error_value
  job_result job = record {
    id = job.id;
    state = job.state;
    plan_id = job.plan_id;
    plan_hash = job.plan_hash;
    created_at = job.created_at;
    updated_at = job.updated_at;
    accepted_at = job.accepted_at;
    sending_at = job.sending_at;
    completed_at = job.completed_at;
    attempt = job.attempt;
    error = error_value job;
    receipt = as_fields (Option.bind (non_empty job.receipt_json) platform.loads);
    delivery_verification = job.delivery_verification;
    forensic = platform.loads job.forensic_json;
  }
