-- ===== src/Services/Jobs/Lifecycle/Endings.antt =====
-- The last transactions of `_run_job` of catlabel/services/print_jobs.py.
use Prim.Native.String.{String}
use catlabel.Prelude.{
  ℕ, ◌≡◌, refl, sym, subst, Bool, true, false, not, Option, none, some, ok, Bool-cases,
  Result-cases, if◌then◌else◌, inl, inr,
}
use catlabel.Services.Json.{Json}
use catlabel.Services.Platform.{Platform}
use catlabel.Services.Artifacts.{validate_owner}
use catlabel.Services.Jobs.{
  Database, PrintJobRecord, JobState, sending, canonical_json, is_sending, is_accepted, job_owner,
}
use catlabel.Services.Jobs.Table.{update_where, rowcount, first_job, has_id, in_state}
use catlabel.Services.Jobs.Delivery.{
  Failure, to_submitted, to_interrupted, mark_submitted, mark_uncertain, fail_before_delivery,
  mark_cancelled_before_delivery, settle_in, settle_cancelled,
}
use catlabel.Services.Jobs.Runner.{
  Executor, Outcome, receipt, failed, interrupted, Progress, ExceptionFields, execute,
  handle_exception, finish_receipt, finish, run_job, state_is, receipt_failure, skipped_failure,
  exception_fields, job, Refusals, raised, handled, after_submission,
}
use catlabel.Services.Jobs.Lifecycle.Runs.{Respects}
use catlabel.Services.Jobs.Lifecycle.Settling.{
  Left, Single, first_job-Left, Left-first_job, update_where-Left, update_where-Left_other,
}
use catlabel.Services.Jobs.Lifecycle.Settled.{
  IsSettled, OnSide, Holds, commit_unpinned-total, mark_uncertain-IsSettled,
  fail_before_delivery-IsSettled, execute-Holds,
}

mark_cancelled_before_delivery-IsSettled :
    (job_id : String) (e : Failure) (now : ℕ) (db : Database)
    → validate_owner (job_owner job_id) ≡ ok tt
    → Left job_id is_sending db
    → IsSettled job_id (mark_cancelled_before_delivery job_id e now false db).1
unfolding mark_cancelled_before_delivery
mark_cancelled_before_delivery-IsSettled job_id e now db short h =
    let test = in_state is_accepted job_id in
    let jobs = update_where test (to_interrupted now e) db.jobs in
    let (done, same) = commit_unpinned-total job_id (rowcount test db.jobs) jobs db short in
    rw (mark_cancelled_before_delivery, same)
      (
        update_where-Left job_id is_accepted (to_interrupted now e) db.jobs (λ row. refl),
        update_where-Left_other job_id is_sending test (to_interrupted now e) db.jobs (λ row. refl)
            h,
      )

mark_submitted-IsSettled :
    (job_id receipt_json : String) (now : ℕ) (db : Database)
    → validate_owner (job_owner job_id) ≡ ok tt
    → Left job_id is_accepted db
    → ((mark_submitted job_id receipt_json now false db).0 ≡ ok tt)
      × IsSettled job_id (mark_submitted job_id receipt_json now false db).1
unfolding mark_submitted
mark_submitted-IsSettled job_id receipt_json now db short h =
    let test = in_state is_sending job_id in
    let jobs = update_where test (to_submitted now receipt_json) db.jobs in
    let (done, same) = commit_unpinned-total job_id (rowcount test db.jobs) jobs db short in
    rw (mark_submitted, done, same)
      (
        refl,
        (
          update_where-Left_other job_id is_accepted test (to_submitted now receipt_json) db.jobs
              (λ row. refl) h,
          update_where-Left job_id is_sending (to_submitted now receipt_json) db.jobs (λ row. refl),
        ),
      )

accepted_not_sending : (s : JobState) → is_accepted s ≡ true → is_sending s ≡ false
accepted_not_sending sending e = cc
accepted_not_sending _ e = refl

-- The handler's write is taken.
abbrev writable : Bool → Bool → Refusals
writable receipt_refused settlement_refused = record {
  receipt_refused = receipt_refused;
  settlement_refused = settlement_refused;
  handler_refused = false;
}

module _ (platform : Platform) (job_id : String)
    (short : validate_owner (job_owner job_id) ≡ ok tt) where
  handle_exception-IsSettled :
      (f : ExceptionFields) (now : ℕ) (crossed : Bool) (db : Database)
      → Single job_id db
      → OnSide job_id crossed db
      → IsSettled job_id
          (handle_exception platform job_id f now false
            (record { boundary_crossed = crossed; db = db })).1
  unfolding handle_exception
  handle_exception-IsSettled f now true db single side =
      elim (Bool-cases (state_is is_sending (first_job (has_id job_id) db.jobs))) [
        | inl e ↦ rw (handle_exception, e) (mark_uncertain-IsSettled platform job_id _ now db side)
        | inr e ↦ rw (handle_exception, e) (mark_uncertain-IsSettled platform job_id _ now db side)
      ]
  handle_exception-IsSettled f now false db single side =
      let state = first_job (has_id job_id) db.jobs in
      let unsent = Left-first_job job_id is_sending db.jobs side in
      elim (Bool-cases (state_is is_accepted state)) [
        | inl e ↦
            rw (handle_exception, unsent, e)
              (fail_before_delivery-IsSettled platform job_id _ now db short side).1
        | inr e ↦
            rw (handle_exception, unsent, e)
              (first_job-Left job_id is_accepted db.jobs single e, side)
      ]

  settle_in-IsSettled :
      (found : Option PrintJobRecord) (now : ℕ) (db : Database)
      → first_job (has_id job_id) db.jobs ≡ found
      → Single job_id db
      → IsSettled job_id (settle_in platform found job_id now false db).1
  settle_in-IsSettled none now db e single = (
    first_job-Left job_id is_accepted db.jobs single (rw e refl),
    first_job-Left job_id is_sending db.jobs single (rw e refl),
  )
  settle_in-IsSettled (some row) now db e single = elim (Bool-cases (is_accepted row.state)) [
    | inl f ↦ rw f (
        mark_cancelled_before_delivery-IsSettled job_id _ now db short (
          first_job-Left job_id is_sending db.jobs single
            (rw e (accepted_not_sending row.state f))))
    | inr f ↦
        let unaccepted = first_job-Left job_id is_accepted db.jobs single (rw e f) in
        elim (Bool-cases (is_sending row.state)) [
          | inl g ↦ rw (f, g) (mark_uncertain-IsSettled platform job_id _ now db unaccepted)
          | inr g ↦ rw (f, g) (unaccepted, first_job-Left job_id is_sending db.jobs single (rw e g))
        ]
  ]

  -- The handler gets what a refused transaction of the `try` block leaves.
  module _ (now : ℕ) (receipt_busy : Bool) where
    fail_handled-IsSettled :
        (busy : Bool) (db : Database)
        → Single job_id db
        → Left job_id is_sending db
        → IsSettled job_id
            (handled platform job_id now
              (writable receipt_busy busy)
              false
              (fail_before_delivery platform job_id skipped_failure now busy db)).1
    unfolding handled fail_before_delivery
    fail_handled-IsSettled true db single side =
        handle_exception-IsSettled (exception_fields (raised true)) now false db single side
    fail_handled-IsSettled false db single side =
        let (done, settled) =
          fail_before_delivery-IsSettled platform job_id skipped_failure now db short side in
        rw (handled, done) settled

    doubt_handled-IsSettled :
        (busy : Bool) (db : Database)
        → Single job_id db
        → Left job_id is_accepted db
        → IsSettled job_id
            (handled platform job_id now
              (writable receipt_busy busy)
              true
              (mark_uncertain platform job_id receipt_failure now busy db)).1
    unfolding handled mark_uncertain
    doubt_handled-IsSettled true db single side =
        handle_exception-IsSettled (exception_fields (raised true)) now true db single side
    doubt_handled-IsSettled false db single side =
        mark_uncertain-IsSettled platform job_id receipt_failure now db side

  submission-IsSettled :
      (text : String) (now : ℕ) (receipt_busy busy : Bool) (db : Database)
      → Single job_id db
      → Left job_id is_accepted db
      → IsSettled job_id
          (after_submission platform job_id now
            (writable receipt_busy busy)
            (mark_submitted job_id text now receipt_busy db)).1
  unfolding after_submission mark_submitted
  submission-IsSettled text now true busy db single side =
      doubt_handled-IsSettled now true busy db single side
  submission-IsSettled text now false busy db single side =
      let (done, settled) = mark_submitted-IsSettled job_id text now db short side in
      rw (after_submission, done) settled

  finish_receipt-IsSettled :
      (value : Json) (now : ℕ) (receipt_busy busy crossed : Bool) (db : Database)
      → Single job_id db
      → OnSide job_id crossed db
      → IsSettled job_id
          (finish_receipt platform job_id value now
            (writable receipt_busy busy)
            (record { boundary_crossed = crossed; db = db })).1
  unfolding finish_receipt
  finish_receipt-IsSettled value now receipt_busy busy crossed db single side =
      elim (Result-cases (canonical_json platform value "invalid_executor_receipt")) [
        | inr (x, e) ↦
            rw (finish_receipt, e)
              (handle_exception-IsSettled (exception_fields (job x)) now crossed db single side)
        | inl (text, e) ↦ rw (finish_receipt, e) (by_side text crossed side)
      ]
    where
      by_side :
          (text : String) (crossed : Bool)
          → OnSide job_id crossed db
          → IsSettled job_id
              (if not crossed
                then handled platform job_id now
                    (writable receipt_busy busy)
                    false
                    (fail_before_delivery platform job_id skipped_failure now busy db)
                else after_submission platform job_id now
                    (writable receipt_busy busy)
                    (mark_submitted job_id text now receipt_busy db)).1
      by_side text false side = fail_handled-IsSettled now receipt_busy busy db single side
      by_side text true side = submission-IsSettled text now receipt_busy busy db single side

  finish-IsSettled :
      (outcome : Outcome) (now : ℕ) (refusals : Refusals) (p : Progress)
      → refusals.handler_refused ≡ false
      → Holds job_id p
      → IsSettled job_id (finish platform job_id outcome now refusals p).1
  unfolding finish settle_cancelled
  finish-IsSettled (receipt value) now refusals p written (single, side) =
      subst
        (λ refused.
          IsSettled job_id
            (finish_receipt platform job_id value now
              (record refusals { handler_refused = refused }) p).1)
        (sym written)
        (finish_receipt-IsSettled value now refusals.receipt_refused refusals.settlement_refused
          p.boundary_crossed p.db single side)
  finish-IsSettled (failed e) now refusals p written (single, side) =
      rw written
        (handle_exception-IsSettled (exception_fields e) now p.boundary_crossed p.db single side)
  finish-IsSettled interrupted now refusals p written (single, side) =
      rw written (settle_in-IsSettled (first_job (has_id job_id) p.db.jobs) now p.db refl single)

-- A run of a job ends with no row of the job accepted or sending, whatever the executor does and
-- whether or not the database takes the receipt and the write that settles the job in its place, if
-- it takes the write of the handler that runs last. The owner's name has a valid length; at the
-- start the identifier has one row at most, which is not sending; and what the other tasks do while
-- the executor waits brings in no second row of the job and moves none to accepted or sending.
pub run_job_settles :
    (platform : Platform) (job_id : String) (executor : Executor) (now : ℕ) (refusals : Refusals)
    (db : Database)
    → refusals.handler_refused ≡ false
    → validate_owner (job_owner job_id) ≡ ok tt
    → Respects (Single job_id) executor
    → Respects (Left job_id is_accepted) executor
    → Respects (Left job_id is_sending) executor
    → Single job_id db
    → Left job_id is_sending db
    → IsSettled job_id (run_job platform job_id executor now refusals db).1
unfolding run_job
run_job_settles platform job_id executor now refusals db written short one accepts sends single
      unsent =
    let start : Progress = record { boundary_crossed = false; db = db } in
    let ended = execute job_id executor start in
    finish-IsSettled platform job_id short ended.0 now refusals ended.1 written
      (execute-Holds job_id executor start one accepts sends (single, unsent))
