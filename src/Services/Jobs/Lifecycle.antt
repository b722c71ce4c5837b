-- ===== src/Services/Jobs/Lifecycle.antt =====
-- The life of a job in catlabel/services/print_jobs.py: what each state says of a row, and what the
-- transitions of a job do to it.
pub mod Requests
pub mod Workers
pub mod Runs
pub mod Upkeep
pub mod Settling
pub mod Settled
pub mod Endings
use Prim.Native.String.{String}
use text.Mathlib.Text.{◌==◌ as str_eq}
use catlabel.Prelude.{
  ℕ, ◌≡◌, ◌≢◌, refl, Bool, true, false, Option, none, some, List, [], ◌∷◌, ◌++◌, ◌&&◌, ◌==◌,
  if◌then◌else◌, Result, ok, err, All, All-append, Bool-cases, inl, inr, arith, and-eq_true,
  Result-cases,
}
use catlabel.Services.Json.{Json}
use catlabel.Services.Platform.{Platform}
use catlabel.Services.Jobs.{
  Database, PrintJobRecord, JobState, accepted, sending, submitted, failed_before_delivery,
  cancelled_before_delivery, delivery_uncertain, is_accepted, is_sending, Fallible,
}
use catlabel.Services.Jobs.Table.{update_where, rowcount, in_state, delete_jobs, unpin_job}
use catlabel.Services.Jobs.Delivery.{
  Failure, to_sending, to_submitted, to_interrupted, to_cancelled, to_failed, to_uncertain,
  commit_unpinned, mark_sending, mark_submitted, fail_before_delivery,
  mark_cancelled_before_delivery, mark_uncertain, settle_cancelled, settle_in, cancel_row, cancel,
  cancel_request,
}

-- What a row's state says: a job that failed or was cancelled before delivery never reached the
-- boundary, and one that was submitted or is uncertain crossed it, once.
abbrev pub Phase : JobState → PrintJobRecord → Type 0
Phase accepted job = (job.attempt ≡ 0) × (job.sending_at ≡ none) × (job.completed_at ≡ none)
Phase sending job = (job.attempt ≡ 1) × (job.sending_at ≢ none) × (job.completed_at ≡ none)
Phase submitted job =
    (job.attempt ≡ 1)
    × (job.sending_at ≢ none)
    × (job.completed_at ≢ none)
    × (job.receipt_json ≢ none)
    × (job.error_code ≡ none)
Phase failed_before_delivery job =
    (job.attempt ≡ 0)
    × (job.sending_at ≡ none)
    × (job.completed_at ≢ none)
    × (job.error_code ≢ none)
Phase cancelled_before_delivery job =
    (job.attempt ≡ 0)
    × (job.sending_at ≡ none)
    × (job.completed_at ≢ none)
    × (job.error_code ≢ none)
Phase delivery_uncertain job =
    (job.attempt ≡ 1)
    × (job.sending_at ≢ none)
    × (job.uncertain_at ≢ none)
    × (job.error_code ≢ none)

abbrev pub InPhase : PrintJobRecord → Type 0
InPhase job = Phase job.state job

abbrev pub IsValid : Database → Type 0
IsValid db = All InPhase db.jobs

pub update_where-All :
    (P : PrintJobRecord → Type 0) (test : PrintJobRecord → Bool)
    (values : PrintJobRecord → PrintJobRecord) (jobs : List PrintJobRecord)
    → ((job : PrintJobRecord) → test job ≡ true → P job → P (values job))
    → All P jobs
    → All P (update_where test values jobs)
update_where-All P test values [] keep h = tt
update_where-All P test values (job ∷ jobs) keep (p, h) = elim (Bool-cases (test job)) [
  | inl e ↦ rw e (keep job e p, update_where-All P test values jobs keep h)
  | inr e ↦ rw e (p, update_where-All P test values jobs keep h)
]

-- A row that passes the test on the state is in that state.
accepted-Phase :
    (job : PrintJobRecord) → is_accepted job.state ≡ true → InPhase job → Phase accepted job
accepted-Phase job e p = go job.state e p
  where
    go : (s : JobState) → is_accepted s ≡ true → Phase s job → Phase accepted job
    go accepted e p = p
    go _ e p = cc

sending-Phase :
    (job : PrintJobRecord) → is_sending job.state ≡ true → InPhase job → Phase sending job
sending-Phase job e p = go job.state e p
  where
    go : (s : JobState) → is_sending s ≡ true → Phase s job → Phase sending job
    go sending e p = p
    go _ e p = cc

-- A transaction with its pins keeps what holds of every row after the update and before it.
commit_unpinned-All :
    (P : PrintJobRecord → Type 0) (job_id : String) (changed : ℕ) (jobs : List PrintJobRecord)
    (db : Database)
    → All P db.jobs
    → All P jobs
    → All P (commit_unpinned job_id changed jobs db).1.jobs
unfolding commit_unpinned
commit_unpinned-All P job_id changed jobs db before after = elim (Bool-cases (changed == 1)) [
  | inl e ↦ elim (Result-cases (unpin_job job_id db.store.pins)) [
    | inl (pins, u) ↦ rw (e, u) after
    | inr (x, u) ↦ rw (e, u) before
  ]
  | inr e ↦ rw e after
]

update_where_after :
    (test : PrintJobRecord → Bool) (values : PrintJobRecord → PrintJobRecord) (db : Database)
    → ((job : PrintJobRecord) → test job ≡ true → InPhase job → InPhase (values job))
    → IsValid db
    → All InPhase (update_where test values db.jobs)
update_where_after test values db keep h = update_where-All InPhase test values db.jobs keep h

-- The rows that a transition chooses, by the state that it tests.
from_accepted :
    (job_id : String) (values : PrintJobRecord → PrintJobRecord)
    → ((job : PrintJobRecord) → Phase accepted job → InPhase (values job))
    → (job : PrintJobRecord) → in_state is_accepted job_id job ≡ true
    → InPhase job
    → InPhase (values job)
from_accepted job_id values keep job e p = keep job (accepted-Phase job (and-eq_true _ _ e).1 p)

from_sending :
    (job_id : String) (values : PrintJobRecord → PrintJobRecord)
    → ((job : PrintJobRecord) → Phase sending job → InPhase (values job))
    → (job : PrintJobRecord) → in_state is_sending job_id job ≡ true
    → InPhase job
    → InPhase (values job)
from_sending job_id values keep job e p = keep job (sending-Phase job (and-eq_true _ _ e).1 p)

pub mark_sending-IsValid :
    (job_id : String) (now : ℕ) (busy : Bool) (db : Database)
    → IsValid db
    → IsValid (mark_sending job_id now busy db).1
unfolding mark_sending
mark_sending-IsValid job_id now busy db h =
    let after =
      update_where_after (in_state is_accepted job_id) (to_sending now) db
        (from_accepted job_id (to_sending now) (λ job p. (refl, cc, p.2))) h in
    elim (Bool-cases busy) [
      | inl e ↦ rw e h
      | inr e ↦ elim (Bool-cases (rowcount (in_state is_accepted job_id) db.jobs == 1)) [
        | inl f ↦ rw (e, f) after
        | inr f ↦ rw (e, f) after
      ]
    ]

pub mark_submitted-IsValid :
    (job_id receipt_json : String) (now : ℕ) (busy : Bool) (db : Database)
    → IsValid db
    → IsValid (mark_submitted job_id receipt_json now busy db).1
unfolding mark_submitted
mark_submitted-IsValid job_id receipt_json now busy db h =
    let after =
      update_where_after (in_state is_sending job_id) (to_submitted now receipt_json) db
        (from_sending job_id (to_submitted now receipt_json) (λ job p. (p.0, p.1, cc, cc, refl)))
        h in
    elim (Bool-cases busy) [
      | inl e ↦ rw e h
      | inr e ↦ rw e (commit_unpinned-All InPhase job_id _ _ db h after)
    ]

pub mark_cancelled_before_delivery-IsValid :
    (job_id : String) (e : Failure) (now : ℕ) (busy : Bool) (db : Database)
    → IsValid db
    → IsValid (mark_cancelled_before_delivery job_id e now busy db).1
unfolding mark_cancelled_before_delivery
mark_cancelled_before_delivery-IsValid job_id e now true db h = h
mark_cancelled_before_delivery-IsValid job_id e now false db h =
    commit_unpinned-All InPhase job_id _ _ db h (
      update_where_after (in_state is_accepted job_id) (to_interrupted now e) db
        (from_accepted job_id (to_interrupted now e) (λ job p. (p.0, p.1, cc, cc))) h)

module _ (platform : Platform) where
  pub fail_before_delivery-IsValid :
      (job_id : String) (e : Failure) (now : ℕ) (busy : Bool) (db : Database)
      → IsValid db
      → IsValid (fail_before_delivery platform job_id e now busy db).1
  unfolding fail_before_delivery
  fail_before_delivery-IsValid job_id e now true db h = h
  fail_before_delivery-IsValid job_id e now false db h =
      commit_unpinned-All InPhase job_id _ _ db h (
        update_where_after (in_state is_accepted job_id) (to_failed platform now e) db
          (from_accepted job_id (to_failed platform now e) (λ job p. (p.0, p.1, cc, cc))) h)

  pub mark_uncertain-IsValid :
      (job_id : String) (e : Failure) (now : ℕ) (busy : Bool) (db : Database)
      → IsValid db
      → IsValid (mark_uncertain platform job_id e now busy db).1
  unfolding mark_uncertain
  mark_uncertain-IsValid job_id e now true db h = h
  mark_uncertain-IsValid job_id e now false db h =
      update_where_after (in_state is_sending job_id) (to_uncertain platform now e) db
        (from_sending job_id (to_uncertain platform now e) (λ job p. (p.0, p.1, cc, cc))) h

  settle_in-IsValid :
      (found : Option PrintJobRecord) (job_id : String) (now : ℕ) (busy : Bool) (db : Database)
      → IsValid db
      → IsValid (settle_in platform found job_id now busy db).1
  settle_in-IsValid none job_id now busy db h = h
  settle_in-IsValid (some job) job_id now busy db h = elim (Bool-cases (is_accepted job.state)) [
    | inl e ↦ rw e (mark_cancelled_before_delivery-IsValid job_id _ now busy db h)
    | inr e ↦ elim (Bool-cases (is_sending job.state)) [
      | inl f ↦ rw (e, f) (mark_uncertain-IsValid job_id _ now busy db h)
      | inr f ↦ rw (e, f) h
    ]
  ]

  pub settle_cancelled-IsValid :
      (job_id : String) (now : ℕ) (busy : Bool) (db : Database)
      → IsValid db
      → IsValid (settle_cancelled platform job_id now busy db).1
  unfolding settle_cancelled
  settle_cancelled-IsValid job_id now busy db h = settle_in-IsValid _ job_id now busy db h

  cancel_row-IsValid :
      (job_id principal : String) (now : ℕ) (busy : Bool) (db : Database)
      → IsValid db
      → IsValid (cancel_row platform job_id principal now busy db).1
  unfolding cancel_row
  cancel_row-IsValid job_id principal now busy db h = elim (Bool-cases busy) [
    | inl e ↦ rw e h
    | inr e ↦ rw e (
        commit_unpinned-All InPhase job_id _ _ db h (
          update_where_after
            (λ job. in_state is_accepted job_id job && str_eq job.principal principal)
            (to_cancelled now) db
            (λ job f p.
              from_accepted job_id (to_cancelled now) (λ job p. (p.0, p.1, cc, cc)) job
                (and-eq_true _ _ f).0 p)
            h))
  ]

  pub cancel-IsValid :
      (job_id principal : String) (now : ℕ) (busy : Bool) (db : Database)
      → IsValid db
      → IsValid (cancel platform job_id principal now busy db).1
  unfolding cancel
  cancel-IsValid job_id principal now busy db h =
      elim (Result-cases (cancel_request platform job_id principal)) [
        | inl (id, e) ↦ rw (e, cancel) (cancel_row-IsValid id principal now busy db h)
        | inr (x, e) ↦ rw (e, cancel) h
      ]
