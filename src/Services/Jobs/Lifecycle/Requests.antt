-- ===== src/Services/Jobs/Lifecycle/Requests.antt =====
-- The life of the jobs under `reserve` of catlabel/services/print_jobs.py.
use Prim.Native.String.{String}
use catlabel.Prelude.{
  ℕ, refl, Bool, true, false, none, [], ◌∷◌, All-append, Bool-cases, Option-cases, Result-cases,
  inl, inr,
}
use catlabel.Services.Platform.{Platform}
use catlabel.Services.Artifacts.{pin_in_session}
use catlabel.Services.Jobs.{Database, job_owner}
use catlabel.Services.Jobs.Table.{first_job, job_by_key, find_plan, has_id}
use catlabel.Services.Jobs.Start.{Request, new_job, current_plan, insert_job, reserve}
use catlabel.Services.Jobs.Lifecycle.{IsValid, InPhase}

module _ (platform : Platform) where
  insert_job-IsValid :
      (r : Request) (job_id : String) (now : ℕ) (busy : Bool) (db : Database)
      → IsValid db
      → IsValid (insert_job platform r job_id now busy db).1
  insert_job-IsValid r job_id now busy db h =
      elim (Result-cases (
        pin_in_session platform db.store.records (job_owner job_id) r.source_ids none
          db.store.pins)) [
            | inr (x, e) ↦ rw (e, insert_job) h
            | inl (pins, e) ↦ elim (Bool-cases busy) [
              | inl f ↦ rw (e, f, insert_job) h
              | inr f ↦ elim (Option-cases (first_job (has_id job_id) db.jobs)) [
                | inr (taken, g) ↦ rw (e, f, g, insert_job) h
                | inl g ↦
                    rw (e, f, g, insert_job)
                      (All-append InPhase db.jobs (new_job r job_id now ∷ []) h
                        ((refl, refl, refl), tt))
              ]
            ]
          ]

  pub reserve-IsValid :
      (r : Request) (job_id : String) (now : ℕ) (locked busy : Bool) (db : Database)
      → IsValid db
      → IsValid (reserve platform r job_id now locked busy db).1
  unfolding reserve
  reserve-IsValid r job_id now true busy db h = h
  reserve-IsValid r job_id now false busy db h =
      elim (Option-cases (job_by_key r.principal r.key db.jobs)) [
        | inr (winner, e) ↦ rw (e, reserve) h
        | inl e ↦ elim (Result-cases (current_plan r now (find_plan r.plan_id db.plans))) [
          | inr (x, f) ↦ rw (e, f, reserve) h
          | inl (u, f) ↦ rw (e, f, reserve) (insert_job-IsValid r job_id now busy db h)
        ]
      ]
