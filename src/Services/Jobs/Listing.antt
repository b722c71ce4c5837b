-- ===== src/Services/Jobs/Listing.antt =====
-- `jobs_list` and `_discard_task` of catlabel/services/print_jobs.py. The order of the texts in
-- the database is the parameter `precedes`.
pub mod Order
pub mod Paging
use Prim.Native.String.{String}
use text.Mathlib.Text.{◌==◌ as str_eq}
use catlabel.Prelude.{
  ℕ, suc, ◌+◌, Bool, true, false, Option, none, some, List, [], ◌∷◌, ◌&&◌, ◌||◌, not, leb, ltb,
  length, take, map, filter, if◌then◌else◌, Result, ok, err, ◌>>=◌, ◌>>◌, raise_if,
}
use catlabel.Prelude.Option
use catlabel.Services.Platform.{Platform}
use catlabel.Services.Jobs.{
  Database, PrintJobRecord, Fallible, JobResult, job_error, job_result, validate_uuid,
  validate_principal,
}
use catlabel.Services.Jobs.Start.{Task, Coordinator}

pub record JobPage : Type 0 where
  pub jobs : List JobResult
  pub next_after_id : Option String

-- `visible[-1].id`
abbrev pub last_id : List PrintJobRecord → Option String
last_id [] = none
last_id (job ∷ jobs) = elim (last_id jobs) [ none ↦ some job.id | some id ↦ some id ]

-- The conditions of the query: the principal, and the identifiers after one.
abbrev pub is_listed : String → PrintJobRecord → Bool
is_listed principal job = str_eq job.principal principal

module _ (platform : Platform) where
  abbrev pub check_after : Option String → Fallible (Option String)
  check_after none = ok none
  check_after (some after_id) =
      validate_uuid platform after_id "invalid_after_id" >>= (λ id. ok (some id))

  abbrev pub page_of : ℕ → List PrintJobRecord → JobPage
  page_of limit rows =
      let visible = take limit rows in
      record {
        jobs = map (job_result platform) visible;
        next_after_id = if ltb limit (length rows) then last_id visible else none;
      }

module _ (precedes : String → String → Bool) where
  -- `order_by(id)`
  abbrev pub insert_by_id : PrintJobRecord → List PrintJobRecord → List PrintJobRecord
  insert_by_id job [] = job ∷ []
  insert_by_id job (x ∷ xs) =
      let rest = insert_by_id job xs in if precedes job.id x.id then job ∷ x ∷ xs else x ∷ rest

  unfoldable pub order_by_id : List PrintJobRecord → List PrintJobRecord
  order_by_id [] = []
  order_by_id (job ∷ jobs) = insert_by_id job (order_by_id jobs)

  abbrev pub is_after : Option String → PrintJobRecord → Bool
  is_after none job = true
  is_after (some after_id) job = precedes after_id job.id

  unfoldable pub select_page :
      String → Option String → ℕ → List PrintJobRecord → List PrintJobRecord
  unfolding order_by_id
  select_page principal after_id count jobs =
      take count (filter (is_after after_id) (filter (is_listed principal) (order_by_id jobs)))

  module _ (platform : Platform) where
    unfoldable pub jobs_list : String → ℕ → Option String → Database → Fallible JobPage
    unfolding validate_principal validate_uuid select_page job_result
    jobs_list principal limit after_id db = do
      validate_principal principal
      raise_if (not (leb 1 limit && leb limit 100))
          (job_error "invalid_limit" "Job list limit must be between 1 and 100.")
      after ← check_after platform after_id
      ok (page_of platform limit (select_page principal after (limit + 1) db.jobs))

-- `_discard_task`, with whether the task of this job in the table is the one that ended.
unfoldable pub discard_task : String → Bool → List Task → List Task
discard_task job_id is_same [] = []
discard_task job_id is_same (task ∷ tasks) =
    let rest = discard_task job_id is_same tasks in
    if str_eq task.job_id job_id && is_same then rest else task ∷ rest
