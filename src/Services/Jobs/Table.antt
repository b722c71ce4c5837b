-- ===== src/Services/Jobs/Table.antt =====
-- The statements of catlabel/services/print_jobs.py on the table of jobs and on that of plans.
use Prim.Native.String.{String}
use text.Mathlib.Text.{◌==◌ as str_eq}
use catlabel.Prelude.{ℕ, suc, Bool, Option, none, some, List, [], ◌∷◌, ◌&&◌, if◌then◌else◌, ok, err}
use catlabel.Services.Artifacts.{ArtifactPin, unpin_in_session}
use catlabel.Services.Jobs.{
  PrintJobRecord, PrintPlanRecord, Database, JobState, Fallible, job_owner, from_artifact_error,
}

-- `update(PrintJobRecord).where(...).values(...)`
abbrev pub update_where :
    (PrintJobRecord → Bool)
    → (PrintJobRecord → PrintJobRecord)
    → List PrintJobRecord
    → List PrintJobRecord
update_where test values [] = []
update_where test values (job ∷ jobs) =
    (if test job then values job else job) ∷ update_where test values jobs

-- The `rowcount` of that statement.
abbrev pub rowcount : (PrintJobRecord → Bool) → List PrintJobRecord → ℕ
rowcount test [] = 0
rowcount test (job ∷ jobs) = let n = rowcount test jobs in if test job then suc n else n

-- `select(PrintJobRecord).where(...).first()`, in the order of insertion.
abbrev pub first_job : (PrintJobRecord → Bool) → List PrintJobRecord → Option PrintJobRecord
first_job test [] = none
first_job test (job ∷ jobs) =
    let later = first_job test jobs in if test job then some job else later

-- `select(PrintJobRecord).where(...).all()`
abbrev pub all_jobs : (PrintJobRecord → Bool) → List PrintJobRecord → List PrintJobRecord
all_jobs test [] = []
all_jobs test (job ∷ jobs) =
    let later = all_jobs test jobs in if test job then job ∷ later else later

-- `session.delete(record)` for every job of the test.
abbrev pub delete_jobs : (PrintJobRecord → Bool) → List PrintJobRecord → List PrintJobRecord
delete_jobs test [] = []
delete_jobs test (job ∷ jobs) =
    let later = delete_jobs test jobs in if test job then later else job ∷ later

-- `session.get(PrintPlanRecord, id)`
abbrev pub find_plan : String → List PrintPlanRecord → Option PrintPlanRecord
find_plan id [] = none
find_plan id (plan ∷ plans) =
    let later = find_plan id plans in if str_eq plan.id id then some plan else later

abbrev pub has_id : String → PrintJobRecord → Bool
has_id job_id job = str_eq job.id job_id

abbrev pub in_state : (JobState → Bool) → String → PrintJobRecord → Bool
in_state test job_id job = str_eq job.id job_id && test job.state

-- `_job_by_key`
abbrev pub by_key : String → String → PrintJobRecord → Bool
by_key principal key job = str_eq job.principal principal && str_eq job.idempotency_key key

abbrev pub job_by_key : String → String → List PrintJobRecord → Option PrintJobRecord
job_by_key principal key = first_job (by_key principal key)

abbrev pub with_pins : List ArtifactPin → Database → Database
with_pins pins db = record db { store = record db.store { pins = pins } }

-- `self._artifacts._unpin_in_session(self._job_owner(job_id), session)`
unfoldable pub unpin_job : String → List ArtifactPin → Fallible (List ArtifactPin)
unfolding unpin_in_session from_artifact_error
unpin_job job_id pins = elim (unpin_in_session (job_owner job_id) pins) [
  | err e ↦ err (from_artifact_error e)
  | ok left ↦ ok left
]
