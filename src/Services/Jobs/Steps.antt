-- ===== src/Services/Jobs/Steps.antt =====
-- The transactions of catlabel/services/print_jobs.py in any order: what requests, the running
-- tasks, maintenance and a restart do to the database, one transaction after another.
use Prim.Native.String.{String}
use catlabel.Prelude.{ℕ, Bool, List, [], none, ◌≡◌, Result-cases, Bool-cases, inl, inr}
use catlabel.Services.Json.{Fields}
use catlabel.Services.Platform.{Platform}
use catlabel.Services.Artifacts.{ArtifactStore, pin_in_session}
use catlabel.Services.Jobs.{Database, plan_owner}
use catlabel.Services.Jobs.Plans.{create_plan, draft_plan}
use catlabel.Services.Jobs.Start.{Request, reserve}
use catlabel.Services.Jobs.Delivery.{
  Failure, mark_sending, mark_submitted, mark_uncertain, fail_before_delivery, settle_cancelled,
  cancel,
}
use catlabel.Services.Jobs.Maintenance.{mark_interrupted, recover_on_startup, reap}
use catlabel.Services.Jobs.Lifecycle.{
  IsValid, mark_sending-IsValid, mark_submitted-IsValid, mark_uncertain-IsValid,
  fail_before_delivery-IsValid, settle_cancelled-IsValid, cancel-IsValid,
}
use catlabel.Services.Jobs.Lifecycle.Requests.{reserve-IsValid}
use catlabel.Services.Jobs.Lifecycle.Upkeep.{
  mark_interrupted-IsValid, recover_on_startup-IsValid, reap-IsValid,
}

module _ (platform : Platform) where
  pub data Step (db : Database) : Database → Type 0 where
    plans :
        (manifest : Fields) (artifact_ids : List String) (ttl now : ℕ) (plan_id : String)
        (busy : Bool)
        → Step db (create_plan platform manifest artifact_ids ttl now plan_id busy db).1
    reserves :
        (r : Request) (job_id : String) (now : ℕ) (locked busy : Bool)
        → Step db (reserve platform r job_id now locked busy db).1
    cancels :
        (job_id principal : String) (now : ℕ) (busy : Bool)
        → Step db (cancel platform job_id principal now busy db).1
    sends : (job_id : String) (now : ℕ) (busy : Bool) → Step db (mark_sending job_id now busy db).1
    submits :
        (job_id receipt_json : String) (now : ℕ) (busy : Bool)
        → Step db (mark_submitted job_id receipt_json now busy db).1
    fails :
        (job_id : String) (e : Failure) (now : ℕ) (busy : Bool)
        → Step db (fail_before_delivery platform job_id e now busy db).1
    doubts :
        (job_id : String) (e : Failure) (now : ℕ) (busy : Bool)
        → Step db (mark_uncertain platform job_id e now busy db).1
    settles :
        (job_id : String) (now : ℕ) (busy : Bool)
        → Step db (settle_cancelled platform job_id now busy db).1
    interrupts : (job_ids : List String) (now : ℕ) → Step db (mark_interrupted job_ids now db).1
    restarts : (now : ℕ) → Step db (recover_on_startup now db).1
    reaps : (now : ℕ) → Step db (reap platform now db).1

  -- From a database without jobs.
  pub data Reachable : Database → Type 0 where
    fresh : (store : ArtifactStore) → Reachable (record { store = store; plans = []; jobs = [] })
    after : {db next : Database} → Reachable db → Step db next → Reachable next

  pub create_plan-jobs :
      (manifest : Fields) (ids : List String) (ttl now : ℕ) (plan_id : String) (busy : Bool)
      (db : Database)
      → (create_plan platform manifest ids ttl now plan_id busy db).1.jobs ≡ db.jobs
  unfolding create_plan
  create_plan-jobs manifest ids ttl now plan_id busy db =
      elim (Result-cases (draft_plan platform manifest ids ttl now plan_id db)) [
        | inr (x, e) ↦ rw (e, create_plan)
        | inl ((plan, frozen, source_ids), e) ↦
            elim (Result-cases (
              pin_in_session platform db.store.records (plan_owner plan_id) source_ids none
                db.store.pins)) [
                  | inr (x, f) ↦ rw (e, f, create_plan)
                  | inl (pins, f) ↦ elim (Bool-cases busy) [
                    | inl g ↦ rw (e, f, g, create_plan)
                    | inr g ↦ rw (e, f, g, create_plan)
                  ]
                ]
      ]

  Step-IsValid : {db next : Database} → Step db next → IsValid db → IsValid next
  Step-IsValid {db} (plans manifest ids ttl now plan_id busy) h =
      rw (create_plan-jobs manifest ids ttl now plan_id busy db) h
  Step-IsValid {db} (reserves r job_id now locked busy) h =
      reserve-IsValid platform r job_id now locked busy db h
  Step-IsValid {db} (cancels job_id principal now busy) h =
      cancel-IsValid platform job_id principal now busy db h
  Step-IsValid {db} (sends job_id now busy) h = mark_sending-IsValid job_id now busy db h
  Step-IsValid {db} (submits job_id text now busy) h =
      mark_submitted-IsValid job_id text now busy db h
  Step-IsValid {db} (fails job_id e now busy) h =
      fail_before_delivery-IsValid platform job_id e now busy db h
  Step-IsValid {db} (doubts job_id e now busy) h =
      mark_uncertain-IsValid platform job_id e now busy db h
  Step-IsValid {db} (settles job_id now busy) h =
      settle_cancelled-IsValid platform job_id now busy db h
  Step-IsValid {db} (interrupts job_ids now) h = mark_interrupted-IsValid job_ids now db h
  Step-IsValid {db} (restarts now) h = recover_on_startup-IsValid now db h
  Step-IsValid {db} (reaps now) h = reap-IsValid platform now db h

  -- In every database that the transactions reach from an empty one, in any order, each job is in
  -- the phase of its state: one that is accepted, failed or was cancelled before delivery has no
  -- attempt and never crossed the delivery boundary; one that is sending, submitted or uncertain
  -- crossed it in one attempt; a submitted one has its receipt and no error.
  pub Reachable-IsValid : {db : Database} → Reachable db → IsValid db
  Reachable-IsValid (fresh store) = tt
  Reachable-IsValid (after r step) = Step-IsValid step (Reachable-IsValid r)
