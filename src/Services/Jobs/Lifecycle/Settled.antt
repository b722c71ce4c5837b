-- ===== src/Services/Jobs/Lifecycle/Settled.antt =====
-- Which side of the delivery boundary a run of `_run_job` of catlabel/services/print_jobs.py is on
-- while its executor runs, and what its last transactions leave.
use Prim.Native.String.{String}
use catlabel.Prelude.{
  ℕ, ◌≤◌, ◌≡◌, refl, ap, Bool, true, false, List, ◌==◌, ok, err, Bool-cases, Result-cases, inl, inr,
  arith,
}
use catlabel.Services.Platform.{Platform}
use catlabel.Services.Artifacts.{ArtifactPin, validate_owner, unpin_in_session, without_owner}
use catlabel.Services.Jobs.{Database, PrintJobRecord, JobError, is_sending, is_accepted, job_owner}
use catlabel.Services.Jobs.Table.{update_where, rowcount, has_id, in_state, unpin_job}
use catlabel.Services.Jobs.Delivery.{
  Failure, to_sending, to_failed, to_uncertain, commit_unpinned, mark_sending, get_job,
  mark_uncertain, fail_before_delivery,
}
use catlabel.Services.Jobs.Runner.{
  Executor, wait, before_delivery, returns, raises, cancelled, Progress, call_before_delivery,
  execute,
}
use catlabel.Services.Jobs.Lifecycle.Settling.{
  Left, Single, update_where-Free, rowcount-zero, rowcount-update_where, rowcount-in_state,
  update_where-Left, update_where-Left_other,
}
use catlabel.Services.Jobs.Lifecycle.Runs.{Respects}

-- The owner's name is short enough for its pins to be given back.
unpin_job-total :
    (job_id : String) (pins : List ArtifactPin)
    → validate_owner (job_owner job_id) ≡ ok tt
    → (left : List ArtifactPin) × (unpin_job job_id pins ≡ ok left)
unfolding unpin_job unpin_in_session
unpin_job-total job_id pins h =
    (without_owner (job_owner job_id) pins, rw (unpin_job, unpin_in_session, h) refl)

pub commit_unpinned-total :
    (job_id : String) (changed : ℕ) (jobs : List PrintJobRecord) (db : Database)
    → validate_owner (job_owner job_id) ≡ ok tt
    → ((commit_unpinned job_id changed jobs db).0 ≡ ok tt)
      × ((commit_unpinned job_id changed jobs db).1.jobs ≡ jobs)
unfolding commit_unpinned
commit_unpinned-total job_id changed jobs db h = elim (Bool-cases (changed == 1)) [
  | inl e ↦
      let (left, f) = unpin_job-total job_id db.store.pins h in
      rw (e, f, commit_unpinned) (refl, refl)
  | inr e ↦ rw (e, commit_unpinned) (refl, refl)
]

-- While the executor runs: before the boundary no row of the job is sending, behind it none is
-- accepted.
abbrev pub OnSide : String → Bool → Database → Type 0
OnSide job_id true db = Left job_id is_accepted db
OnSide job_id false db = Left job_id is_sending db

-- No row of the job is accepted or sending.
abbrev pub IsSettled : String → Database → Type 0
IsSettled job_id db = Left job_id is_accepted db × Left job_id is_sending db

to_sending-Single :
    (job_id : String) (now : ℕ) (db : Database)
    → Single job_id db
    → rowcount (has_id job_id) (update_where (in_state is_accepted job_id) (to_sending now) db.jobs)
      ≤ 1
to_sending-Single job_id now db single =
    let same =
      rowcount-update_where (has_id job_id) (in_state is_accepted job_id) (to_sending now) db.jobs
        (λ row. refl) in
    omega (arith, same, single)

-- A call that crosses the boundary leaves no accepted row.
mark_sending-crossed :
    (job_id : String) (now : ℕ) (busy : Bool) (db : Database)
    → Single job_id db
    → (mark_sending job_id now busy db).0 ≡ ok tt
    → Single job_id (mark_sending job_id now busy db).1
      × Left job_id is_accepted (mark_sending job_id now busy db).1
unfolding mark_sending
mark_sending-crossed job_id now busy db single h =
    let test = in_state is_accepted job_id in
    let after = record db { jobs = update_where test (to_sending now) db.jobs } in
    elim (Bool-cases busy) [
      | inl e ↦ cc (rw (e, mark_sending) at h)
      | inr e ↦ elim (Bool-cases (rowcount test db.jobs == 1)) [
        | inl f ↦
            rw (e, f, mark_sending)
              (
                to_sending-Single job_id now db single,
                update_where-Left job_id is_accepted (to_sending now) db.jobs (λ row. refl),
              )
        | inr f ↦ elim (Result-cases (get_job job_id after)) [
          | inl (row, g) ↦ cc (rw (e, f, g, mark_sending) at h)
          | inr (x, g) ↦ cc (rw (e, f, g, mark_sending) at h)
        ]
      ]
    ]

-- A call that is refused changes nothing.
mark_sending-refused :
    (job_id : String) (now : ℕ) (busy : Bool) (db : Database) (x : JobError)
    → Single job_id db
    → (mark_sending job_id now busy db).0 ≡ err x
    → (mark_sending job_id now busy db).1 ≡ db
unfolding mark_sending
mark_sending-refused job_id now busy db x single h =
    let test = in_state is_accepted job_id in
    elim (Bool-cases busy) [
      | inl e ↦ rw (e, mark_sending) refl
      | inr e ↦ elim (Bool-cases (rowcount test db.jobs == 1)) [
        | inl f ↦ cc (rw (e, f, mark_sending) at h)
        | inr f ↦
            let few = rowcount-in_state job_id is_accepted db.jobs in
            let nothing : rowcount test db.jobs ≡ 0 = ground (arith, few, single) in
            rw (e, f, mark_sending)
              (ap (λ jobs. record db { jobs = jobs })
                (update_where-Free test (to_sending now) db.jobs
                  (rowcount-zero test db.jobs nothing)))
      ]
    ]

pub mark_uncertain-IsSettled :
    (platform : Platform) (job_id : String) (e : Failure) (now : ℕ) (db : Database)
    → Left job_id is_accepted db
    → IsSettled job_id (mark_uncertain platform job_id e now false db).1
unfolding mark_uncertain
mark_uncertain-IsSettled platform job_id e now db h = (
  update_where-Left_other job_id is_accepted (in_state is_sending job_id)
      (to_uncertain platform now e) db.jobs (λ row. refl) h,
  update_where-Left job_id is_sending (to_uncertain platform now e) db.jobs (λ row. refl),
)

pub fail_before_delivery-IsSettled :
    (platform : Platform) (job_id : String) (e : Failure) (now : ℕ) (db : Database)
    → validate_owner (job_owner job_id) ≡ ok tt
    → Left job_id is_sending db
    → ((fail_before_delivery platform job_id e now false db).0 ≡ ok tt)
      × IsSettled job_id (fail_before_delivery platform job_id e now false db).1
unfolding fail_before_delivery
fail_before_delivery-IsSettled platform job_id e now db short h =
    let test = in_state is_accepted job_id in
    let jobs = update_where test (to_failed platform now e) db.jobs in
    let (done, same) = commit_unpinned-total job_id (rowcount test db.jobs) jobs db short in
    rw (fail_before_delivery, done, same)
      (
        refl,
        (
          update_where-Left job_id is_accepted (to_failed platform now e) db.jobs (λ row. refl),
          update_where-Left_other job_id is_sending test (to_failed platform now e) db.jobs
              (λ row. refl) h,
        ),
      )

-- What holds of the database and the boundary while the executor runs.
abbrev pub Holds : String → Progress → Type 0
Holds job_id p = Single job_id p.db × OnSide job_id p.boundary_crossed p.db

call_before_delivery-Holds :
    (job_id : String) (now : ℕ) (busy crossed : Bool) (db : Database)
    → Single job_id db
    → OnSide job_id crossed db
    → Holds job_id
        (call_before_delivery job_id now busy (record { boundary_crossed = crossed; db = db })).1
unfolding call_before_delivery
call_before_delivery-Holds job_id now busy true db single side = (single, side)
call_before_delivery-Holds job_id now busy false db single side =
    elim (Result-cases (mark_sending job_id now busy db).0) [
      | inl (u, f) ↦ rw (f, call_before_delivery) (mark_sending-crossed job_id now busy db single f)
      | inr (x, f) ↦
          rw (f, call_before_delivery, mark_sending-refused job_id now busy db x single f)
            (single, side)
    ]

OnSide-wait :
    (job_id : String) (crossed : Bool) (db next : Database)
    → (Left job_id is_accepted db → Left job_id is_accepted next)
    → (Left job_id is_sending db → Left job_id is_sending next)
    → OnSide job_id crossed db
    → OnSide job_id crossed next
OnSide-wait job_id true db next a s h = a h
OnSide-wait job_id false db next a s h = s h

pub execute-Holds :
    (job_id : String) (executor : Executor) (p : Progress)
    → Respects (Single job_id) executor
    → Respects (Left job_id is_accepted) executor
    → Respects (Left job_id is_sending) executor
    → Holds job_id p
    → Holds job_id (execute job_id executor p).1
unfolding execute
execute-Holds job_id (wait others next) p (s, ss) (a, aa) (g, gg) (single, side) =
    execute-Holds job_id next (record p { db = others p.db }) ss aa gg
      (
        s p.db single,
        OnSide-wait job_id p.boundary_crossed p.db (others p.db) (a p.db) (g p.db) side,
      )
execute-Holds job_id (before_delivery now busy next) p ss aa gg (single, side) =
    let call = call_before_delivery job_id now busy p in
    execute-Holds job_id (next call.0) call.1 (ss call.0) (aa call.0) (gg call.0)
      (call_before_delivery-Holds job_id now busy p.boundary_crossed p.db single side)
execute-Holds job_id (returns value) p ss aa gg h = h
execute-Holds job_id (raises e) p ss aa gg h = h
execute-Holds job_id cancelled p ss aa gg h = h
