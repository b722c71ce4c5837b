-- ===== src/Services/Jobs/Idempotency.antt =====
-- Idempotency keys in the reservations of catlabel/services/print_jobs.py.
pub mod Keys
pub mod Histories
use Prim.Native.String.{String}
use text.Mathlib.TextPositions.{eq_refl}
use catlabel.Prelude.{
  if◌then◌else◌, false, err, ℕ, ◌≡◌, refl, ap, ◌∙◌, sym, Bool, true, none, some, List, [], ◌∷◌,
  ◌++◌, ok, Bool-cases, Option-cases, Result-cases, inl, inr, arith, ok-injective,
}
use catlabel.Services.Platform.{Platform}
use catlabel.Services.Artifacts.{pin_in_session}
use catlabel.Services.Jobs.{Database, PrintJobRecord, job_owner, busy_error}
use catlabel.Services.Jobs.Table.{first_job, job_by_key, by_key, find_plan, has_id}
use catlabel.Services.Jobs.Start.{
  Request, Reservation, existing, inserted, new_job, current_plan, insert_job, reserve,
}

first_job-append :
    (test : PrintJobRecord → Bool) (jobs : List PrintJobRecord) (job : PrintJobRecord)
    → first_job test jobs ≡ none
    → test job ≡ true
    → first_job test (jobs ++ job ∷ []) ≡ some job
first_job-append test [] job h e = rw e
first_job-append test (j ∷ jobs) job h e = elim (Bool-cases (test j)) [
  | inl f ↦ ground arith
  | inr f ↦ rw f (first_job-append test jobs job (rw f at h) e)
]

-- The row that a reservation answers with.
abbrev pub row_of : Reservation → PrintJobRecord
row_of (existing job) = job
row_of (inserted job) = job

by_key-new_job :
    (r : Request) (job_id : String) (now : ℕ)
    → by_key r.principal r.key (new_job r job_id now) ≡ true
by_key-new_job r job_id now = simp eq_refl

module _ (platform : Platform) where
  insert_job_found :
      (r : Request) (job_id : String) (now : ℕ) (busy : Bool) (db : Database) (found : Reservation)
      → job_by_key r.principal r.key db.jobs ≡ none
      → (insert_job platform r job_id now busy db).0 ≡ ok found
      → (found ≡ inserted (new_job r job_id now))
        × (job_by_key r.principal r.key (insert_job platform r job_id now busy db).1.jobs
            ≡ some (new_job r job_id now))
  insert_job_found r job_id now busy db found h e =
      elim (Result-cases (
        pin_in_session platform db.store.records (job_owner job_id) r.source_ids none
          db.store.pins)) [
            | inr (x, f) ↦ cc (rw (f, insert_job) at e)
            | inl (pins, f) ↦ elim (Bool-cases busy) [
              | inl g ↦ cc (rw (f, g, insert_job) at e)
              | inr g ↦ elim (Option-cases (first_job (has_id job_id) db.jobs)) [
                | inr (taken, k) ↦ cc (rw (f, g, k, insert_job) at e)
                | inl k ↦ (
                  sym (ok-injective (rw (f, g, k, insert_job) at e)),
                  rw (f, g, k, insert_job)
                      (first_job-append (by_key r.principal r.key) db.jobs (new_job r job_id now) h
                        (by_key-new_job r job_id now)),
                )
              ]
            ]
          ]

  reserve_winner :
      (r : Request) (job_id : String) (now : ℕ) (busy : Bool) (db : Database)
      (winner : PrintJobRecord)
      → job_by_key r.principal r.key db.jobs ≡ some winner
      → reserve platform r job_id now false busy db ≡ (ok (existing winner), db)
  unfolding reserve
  reserve_winner r job_id now busy db winner e = rw (e, reserve)

  pub reserve_found :
      (r : Request) (job_id : String) (now : ℕ) (locked busy : Bool) (db : Database)
      (found : Reservation)
      → (reserve platform r job_id now locked busy db).0 ≡ ok found
      → job_by_key r.principal r.key (reserve platform r job_id now locked busy db).1.jobs
        ≡ some (row_of found)
  unfolding reserve
  reserve_found r job_id now true busy db found e = cc
  reserve_found r job_id now false busy db found e =
      elim (Option-cases (job_by_key r.principal r.key db.jobs)) [
        | inr (winner, f) ↦
            let same : existing winner ≡ found = ok-injective (rw (f, reserve) at e) in
            rw (f, reserve) (f ∙ ap (λ t. some (row_of t)) same)
        | inl f ↦ elim (Result-cases (current_plan r now (find_plan r.plan_id db.plans))) [
          | inr (x, g) ↦ cc (rw (f, g, reserve) at e)
          | inl (u, g) ↦
              let made = insert_job_found r job_id now busy db found f (rw (f, g, reserve) at e) in
              rw (f, g, reserve) (made.1 ∙ ap (λ t. some (row_of t)) (sym made.0))
        ]
      ]

  -- The answer where the principal and key have a row: that row, unless the transaction cannot begin.
  pub reserve_again :
      (r : Request) (job_id : String) (now : ℕ) (locked busy : Bool) (db : Database)
      (winner : PrintJobRecord)
      → job_by_key r.principal r.key db.jobs ≡ some winner
      → reserve platform r job_id now locked busy db ≡ (
        if locked
            then err (busy_error "Job reservation is temporarily busy.")
            else ok (existing winner),
        db,
      )
  unfolding reserve
  reserve_again r job_id now true busy db winner e = refl
  reserve_again r job_id now false busy db winner e = reserve_winner r job_id now busy db winner e
