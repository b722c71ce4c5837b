-- ===== src/Services/Jobs/Lifecycle/Settling.antt =====
-- Updates of the table of catlabel/services/print_jobs.py that leave no row of a job in a state.
use Prim.Native.String.{String}
use text.Mathlib.Text.{◌==◌ as str_eq}
use catlabel.Prelude.{
  ◌≤◌, ◌≡◌, refl, Bool, true, false, List, [], ◌∷◌, ◌&&◌, All, Bool-cases, inl, inr, arith,
}
use catlabel.Services.Jobs.{Database, PrintJobRecord, JobState}
use catlabel.Services.Jobs.Table.{update_where, rowcount, first_job, has_id, in_state}
use catlabel.Services.Jobs.Runner.{state_is}
use catlabel.Services.Jobs.Lifecycle.{update_where-All}

-- No row fails a test.
abbrev pub Free : (PrintJobRecord → Bool) → List PrintJobRecord → Type 0
Free test jobs = All (λ row. test row ≡ false) jobs

and-false : (b : Bool) → (b && false) ≡ false
and-false true = refl
and-false false = refl

pub update_where-Free :
    (test : PrintJobRecord → Bool) (values : PrintJobRecord → PrintJobRecord)
    (jobs : List PrintJobRecord)
    → Free test jobs
    → update_where test values jobs ≡ jobs
update_where-Free test values [] h = refl
update_where-Free test values (row ∷ jobs) (p, h) =
    rw (p, update_where-Free test values jobs h) refl

pub rowcount-zero :
    (test : PrintJobRecord → Bool) (jobs : List PrintJobRecord)
    → rowcount test jobs ≡ 0
    → Free test jobs
rowcount-zero test [] h = tt
rowcount-zero test (row ∷ jobs) h = elim (Bool-cases (test row)) [
  | inl e ↦ absurd (ground (arith, e, h))
  | inr e ↦ (e, rowcount-zero test jobs (rw e at h))
]

pub rowcount-update_where :
    (test chosen : PrintJobRecord → Bool) (values : PrintJobRecord → PrintJobRecord)
    (jobs : List PrintJobRecord)
    → ((row : PrintJobRecord) → test (values row) ≡ test row)
    → rowcount test (update_where chosen values jobs) ≡ rowcount test jobs
rowcount-update_where test chosen values [] keep = refl
rowcount-update_where test chosen values (row ∷ jobs) keep = elim (Bool-cases (chosen row)) [
  | inl e ↦ rw (e, keep row, rowcount-update_where test chosen values jobs keep) refl
  | inr e ↦ rw (e, rowcount-update_where test chosen values jobs keep) refl
]

module _ (job_id : String) where
  -- No row of the job is in a state of the test.
  abbrev pub Left : (JobState → Bool) → Database → Type 0
  Left test db = Free (in_state test job_id) db.jobs

  -- The identifier is a primary key.
  abbrev pub Single : Database → Type 0
  Single db = rowcount (has_id job_id) db.jobs ≤ 1

  Free-in_state :
      (test : JobState → Bool) (jobs : List PrintJobRecord)
      → Free (has_id job_id) jobs
      → Free (in_state test job_id) jobs
  Free-in_state test [] h = tt
  Free-in_state test (row ∷ jobs) (p, h) = (rw p refl, Free-in_state test jobs h)

  pub rowcount-in_state :
      (test : JobState → Bool) (jobs : List PrintJobRecord)
      → rowcount (in_state test job_id) jobs ≤ rowcount (has_id job_id) jobs
  rowcount-in_state test [] = omega arith
  rowcount-in_state test (row ∷ jobs) = elim (Bool-cases (str_eq row.id job_id)) [
    | inl e ↦ elim (Bool-cases (test row.state)) [
      | inl f ↦ rw (e, f) (omega (arith, rowcount-in_state test jobs))
      | inr f ↦ rw (e, f) (omega (arith, rowcount-in_state test jobs))
    ]
    | inr e ↦ rw e (rowcount-in_state test jobs)
  ]

  -- The first row of the identifier decides.
  pub first_job-Left :
      (test : JobState → Bool) (jobs : List PrintJobRecord)
      → rowcount (has_id job_id) jobs ≤ 1
      → state_is test (first_job (has_id job_id) jobs) ≡ false
      → Free (in_state test job_id) jobs
  first_job-Left test [] h e = tt
  first_job-Left test (row ∷ jobs) h e = elim (Bool-cases (str_eq row.id job_id)) [
    | inl f ↦ (
      rw (f, rw f at e) refl,
      Free-in_state test jobs (rowcount-zero (has_id job_id) jobs (omega (arith, rw f at h))),
    )
    | inr f ↦ (rw f refl, first_job-Left test jobs (rw f at h) (rw f at e))
  ]

  pub Left-first_job :
      (test : JobState → Bool) (jobs : List PrintJobRecord)
      → Free (in_state test job_id) jobs
      → state_is test (first_job (has_id job_id) jobs) ≡ false
  Left-first_job test [] h = refl
  Left-first_job test (row ∷ jobs) (p, h) = elim (Bool-cases (str_eq row.id job_id)) [
    | inl e ↦ rw e (rw e at p)
    | inr e ↦ rw e (Left-first_job test jobs h)
  ]

  -- A transition out of a state leaves no row in it.
  pub update_where-Left :
      (test : JobState → Bool) (values : PrintJobRecord → PrintJobRecord)
      (jobs : List PrintJobRecord)
      → ((row : PrintJobRecord) → test (values row).state ≡ false)
      → Free (in_state test job_id) (update_where (in_state test job_id) values jobs)
  update_where-Left test values [] gone = tt
  update_where-Left test values (row ∷ jobs) gone = elim (Bool-cases (in_state test job_id row)) [
    | inl e ↦ (
      rw (e, gone row) (and-false (str_eq (values row).id job_id)),
      update_where-Left test values jobs gone,
    )
    | inr e ↦ (rw (e, e) refl, update_where-Left test values jobs gone)
  ]

  -- A transition into another state puts no row into the one of the test.
  pub update_where-Left_other :
      (test : JobState → Bool) (chosen : PrintJobRecord → Bool)
      (values : PrintJobRecord → PrintJobRecord) (jobs : List PrintJobRecord)
      → ((row : PrintJobRecord) → test (values row).state ≡ false)
      → Free (in_state test job_id) jobs
      → Free (in_state test job_id) (update_where chosen values jobs)
  update_where-Left_other test chosen values jobs other h =
      update_where-All (λ row. in_state test job_id row ≡ false) chosen values jobs
        (λ row e p. rw (other row) (and-false (str_eq (values row).id job_id))) h
