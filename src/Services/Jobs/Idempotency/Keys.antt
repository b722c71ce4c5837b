-- ===== src/Services/Jobs/Idempotency/Keys.antt =====
-- The row of an idempotency key under the transactions of catlabel/services/print_jobs.py.
use Prim.Native.String.{String}
use text.Mathlib.Text.{◌==◌ as str_eq}
use catlabel.Prelude.{
  ℕ, ◌≡◌, refl, ap, ◌∙◌, Bool, true, false, Option, none, some, List, [], ◌∷◌, ◌&&◌, ◌++◌, ◌==◌,
  Bool-cases, Option-cases, Result-cases, inl, inr,
}
use catlabel.Services.Platform.{Platform}
use catlabel.Services.Artifacts.{contains, pin_in_session}
use catlabel.Services.Jobs.{Database, PrintJobRecord, job_owner, is_accepted, is_sending}
use catlabel.Services.Jobs.Table.{
  update_where, rowcount, in_state, job_by_key, by_key, find_plan, unpin_job, all_jobs, first_job,
  has_id,
}
use catlabel.Services.Jobs.Delivery.{
  Failure, commit_unpinned, mark_sending, mark_submitted, mark_uncertain, fail_before_delivery,
  mark_cancelled_before_delivery, settle_in, cancel_row, cancel, cancel_request, to_sending,
  to_submitted, to_interrupted, to_failed, to_uncertain, to_cancelled,
}
use catlabel.Services.Jobs.Maintenance.{
  Interruption, interrupt_where, interrupt_accepted, interrupt_sending, unpin_jobs, shutdown,
  startup, mark_interrupted, recover_on_startup,
}
use catlabel.Services.Jobs.Start.{Request, new_job, current_plan, insert_job, reserve}

abbrev pub id_of : Option PrintJobRecord → Option String
id_of none = none
id_of (some job) = some job.id

module _ (principal key : String) where
  -- The identifier of the row of the principal and key.
  abbrev pub keyed : List PrintJobRecord → Option String
  keyed jobs = id_of (job_by_key principal key jobs)

  -- A transition changes neither the identifier nor the principal and key of a row.
  abbrev KeepsKey : (PrintJobRecord → PrintJobRecord) → Type 0
  KeepsKey values =
      (job : PrintJobRecord)
      → (by_key principal key (values job) ≡ by_key principal key job) × ((values job).id ≡ job.id)

  keyed-update_where :
      (test : PrintJobRecord → Bool) (values : PrintJobRecord → PrintJobRecord)
      (jobs : List PrintJobRecord)
      → KeepsKey values
      → keyed (update_where test values jobs) ≡ keyed jobs
  keyed-update_where test values [] keep = refl
  keyed-update_where test values (row ∷ jobs) keep =
      let rest = keyed-update_where test values jobs keep in
      elim (Bool-cases (by_key principal key row)) [
        | inl b ↦ elim (Bool-cases (test row)) [
          | inl t ↦ rw (t, (keep row).0, b) (ap some (keep row).1)
          | inr t ↦ rw (t, b) refl
        ]
        | inr b ↦ elim (Bool-cases (test row)) [
          | inl t ↦ rw (t, (keep row).0, b) rest
          | inr t ↦ rw (t, b) rest
        ]
      ]

  keyed-append :
      (job_id : String) (jobs more : List PrintJobRecord)
      → keyed jobs ≡ some job_id
      → keyed (jobs ++ more) ≡ some job_id
  keyed-append job_id [] more h = cc
  keyed-append job_id (row ∷ jobs) more h = elim (Bool-cases (by_key principal key row)) [
    | inl e ↦ rw e (rw e at h)
    | inr e ↦ rw e (keyed-append job_id jobs more (rw e at h))
  ]

  keyed-commit :
      (job_id : String) (changed : ℕ) (jobs : List PrintJobRecord) (db : Database)
      → keyed jobs ≡ keyed db.jobs
      → keyed (commit_unpinned job_id changed jobs db).1.jobs ≡ keyed db.jobs
  unfolding commit_unpinned
  keyed-commit job_id changed jobs db h = elim (Bool-cases (changed == 1)) [
    | inl e ↦ elim (Result-cases (unpin_job job_id db.store.pins)) [
      | inl (pins, u) ↦ rw (e, u, commit_unpinned) h
      | inr (x, u) ↦ rw (e, u, commit_unpinned) refl
    ]
    | inr e ↦ rw (e, commit_unpinned) h
  ]

  pub keyed-sending :
      (job_id : String) (now : ℕ) (busy : Bool) (db : Database)
      → keyed (mark_sending job_id now busy db).1.jobs ≡ keyed db.jobs
  unfolding mark_sending
  keyed-sending job_id now true db = refl
  keyed-sending job_id now false db =
      let test = in_state is_accepted job_id in
      let kept = keyed-update_where test (to_sending now) db.jobs (λ job. (refl, refl)) in
      elim (Bool-cases (rowcount test db.jobs == 1)) [
        | inl e ↦ rw (e, mark_sending) kept
        | inr e ↦ rw (e, mark_sending) kept
      ]

  pub keyed-submitted :
      (job_id receipt_json : String) (now : ℕ) (busy : Bool) (db : Database)
      → keyed (mark_submitted job_id receipt_json now busy db).1.jobs ≡ keyed db.jobs
  unfolding mark_submitted
  keyed-submitted job_id receipt_json now true db = refl
  keyed-submitted job_id receipt_json now false db = keyed-commit job_id _ _ db (
      keyed-update_where (in_state is_sending job_id) (to_submitted now receipt_json) db.jobs
        (λ job. (refl, refl)))

  keyed-cancelled :
      (job_id : String) (e : Failure) (now : ℕ) (busy : Bool) (db : Database)
      → keyed (mark_cancelled_before_delivery job_id e now busy db).1.jobs ≡ keyed db.jobs
  unfolding mark_cancelled_before_delivery
  keyed-cancelled job_id e now true db = refl
  keyed-cancelled job_id e now false db = keyed-commit job_id _ _ db (
      keyed-update_where (in_state is_accepted job_id) (to_interrupted now e) db.jobs
        (λ job. (refl, refl)))

  keyed-interrupted :
      (chosen : PrintJobRecord → Bool) (i : Interruption) (now : ℕ) (db : Database)
      → keyed (interrupt_where chosen i now db).1.jobs ≡ keyed db.jobs
  unfolding interrupt_where
  keyed-interrupted chosen i now db =
      elim (Result-cases (
        unpin_jobs (all_jobs (λ job. chosen job && is_accepted job.state) db.jobs) db.store.pins)) [
          | inr (x, e) ↦ rw (e, interrupt_where) refl
          | inl (pins, e) ↦
              rw (e, interrupt_where)
                (keyed-update_where (λ job. chosen job && is_sending job.state)
                    (interrupt_sending now i) _ (λ job. (refl, refl))
                  ∙ keyed-update_where (λ job. chosen job && is_accepted job.state)
                      (interrupt_accepted now i) db.jobs (λ job. (refl, refl)))
        ]

  pub keyed-mark_interrupted :
      (job_ids : List String) (now : ℕ) (db : Database)
      → keyed (mark_interrupted job_ids now db).1.jobs ≡ keyed db.jobs
  unfolding mark_interrupted
  keyed-mark_interrupted [] now db = refl
  keyed-mark_interrupted (job_id ∷ job_ids) now db =
      keyed-interrupted (λ job. contains job.id (job_id ∷ job_ids)) shutdown now db

  pub keyed-recovered :
      (now : ℕ) (db : Database) → keyed (recover_on_startup now db).1.jobs ≡ keyed db.jobs
  unfolding recover_on_startup
  keyed-recovered now db = keyed-interrupted (λ job. true) startup now db

  module _ (platform : Platform) where
    keyed-insert :
        (job_id : String) (r : Request) (other_id : String) (now : ℕ) (busy : Bool) (db : Database)
        → keyed db.jobs ≡ some job_id
        → keyed (insert_job platform r other_id now busy db).1.jobs ≡ some job_id
    keyed-insert job_id r other_id now busy db h =
        elim (Result-cases (
          pin_in_session platform db.store.records (job_owner other_id) r.source_ids none
            db.store.pins)) [
              | inr (x, e) ↦ rw (e, insert_job) h
              | inl (pins, e) ↦ elim (Bool-cases busy) [
                | inl f ↦ rw (e, f, insert_job) h
                | inr f ↦ elim (Option-cases (first_job (has_id other_id) db.jobs)) [
                  | inr (taken, g) ↦ rw (e, f, g, insert_job) h
                  | inl g ↦
                      rw (e, f, g, insert_job)
                        (keyed-append job_id db.jobs (new_job r other_id now ∷ []) h)
                ]
              ]
            ]

    -- A reservation, for the same principal and key or for others, leaves the row of a key.
    pub keyed-reserve :
        (job_id : String) (r : Request) (other_id : String) (now : ℕ) (locked busy : Bool)
        (db : Database)
        → keyed db.jobs ≡ some job_id
        → keyed (reserve platform r other_id now locked busy db).1.jobs ≡ some job_id
    unfolding reserve
    keyed-reserve job_id r other_id now true busy db h = h
    keyed-reserve job_id r other_id now false busy db h =
        elim (Option-cases (job_by_key r.principal r.key db.jobs)) [
          | inr (winner, e) ↦ rw (e, reserve) h
          | inl e ↦ elim (Result-cases (current_plan r now (find_plan r.plan_id db.plans))) [
            | inr (x, f) ↦ rw (e, f, reserve) h
            | inl (u, f) ↦ rw (e, f, reserve) (keyed-insert job_id r other_id now busy db h)
          ]
        ]

    pub keyed-failed :
        (job_id : String) (e : Failure) (now : ℕ) (busy : Bool) (db : Database)
        → keyed (fail_before_delivery platform job_id e now busy db).1.jobs ≡ keyed db.jobs
    unfolding fail_before_delivery
    keyed-failed job_id e now true db = refl
    keyed-failed job_id e now false db = keyed-commit job_id _ _ db (
        keyed-update_where (in_state is_accepted job_id) (to_failed platform now e) db.jobs
          (λ job. (refl, refl)))

    pub keyed-uncertain :
        (job_id : String) (e : Failure) (now : ℕ) (busy : Bool) (db : Database)
        → keyed (mark_uncertain platform job_id e now busy db).1.jobs ≡ keyed db.jobs
    unfolding mark_uncertain
    keyed-uncertain job_id e now true db = refl
    keyed-uncertain job_id e now false db =
        keyed-update_where (in_state is_sending job_id) (to_uncertain platform now e) db.jobs
          (λ job. (refl, refl))

    pub keyed-settled :
        (found : Option PrintJobRecord) (job_id : String) (now : ℕ) (busy : Bool) (db : Database)
        → keyed (settle_in platform found job_id now busy db).1.jobs ≡ keyed db.jobs
    keyed-settled none job_id now busy db = refl
    keyed-settled (some job) job_id now busy db = elim (Bool-cases (is_accepted job.state)) [
      | inl e ↦ rw e (keyed-cancelled job_id _ now busy db)
      | inr e ↦ elim (Bool-cases (is_sending job.state)) [
        | inl f ↦ rw (e, f) (keyed-uncertain job_id _ now busy db)
        | inr f ↦ rw (e, f) refl
      ]
    ]

    keyed-cancel_row :
        (job_id owner : String) (now : ℕ) (busy : Bool) (db : Database)
        → keyed (cancel_row platform job_id owner now busy db).1.jobs ≡ keyed db.jobs
    unfolding cancel_row
    keyed-cancel_row job_id owner now true db = refl
    keyed-cancel_row job_id owner now false db = keyed-commit job_id _ _ db (
        keyed-update_where (λ job. in_state is_accepted job_id job && str_eq job.principal owner)
          (to_cancelled now) db.jobs (λ job. (refl, refl)))

    pub keyed-cancel :
        (job_id owner : String) (now : ℕ) (busy : Bool) (db : Database)
        → keyed (cancel platform job_id owner now busy db).1.jobs ≡ keyed db.jobs
    unfolding cancel
    keyed-cancel job_id owner now busy db =
        elim (Result-cases (cancel_request platform job_id owner)) [
          | inl (id, e) ↦ rw (e, cancel) (keyed-cancel_row id owner now busy db)
          | inr (x, e) ↦ rw (e, cancel) refl
        ]
