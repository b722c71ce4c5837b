-- ===== src/Services/Jobs/Idempotency/Histories.antt =====
-- Idempotency keys of catlabel/services/print_jobs.py over what other transactions do to the table.
use Prim.Native.String.{String}
use catlabel.Prelude.{
  ℕ, ◌≡◌, ap, ◌∙◌, Bool, true, false, some, ok, err, if◌then◌else◌, Option-cases, inl, inr, arith,
}
use catlabel.Services.Platform.{Platform}
use catlabel.Services.Jobs.{Database, PrintJobRecord, busy_error}
use catlabel.Services.Jobs.Table.{job_by_key, first_job, has_id}
use catlabel.Services.Jobs.Delivery.{settle_cancelled}
use catlabel.Services.Jobs.Start.{Request, Reservation, existing, reserve}
use catlabel.Services.Jobs.Steps.{
  Step, plans, reserves, cancels, sends, submits, fails, doubts, settles, interrupts, restarts,
  reaps, create_plan-jobs,
}
use catlabel.Services.Jobs.Idempotency.{row_of, reserve_found, reserve_again}
use catlabel.Services.Jobs.Idempotency.Keys.{
  id_of, keyed, keyed-sending, keyed-submitted, keyed-mark_interrupted, keyed-recovered,
  keyed-failed, keyed-uncertain, keyed-settled, keyed-cancel, keyed-reserve,
}

module _ (platform : Platform) where
  abbrev pub is_reap : {db next : Database} → Step platform db next → Bool
  is_reap (reaps now) = true
  is_reap _ = false

  -- What other transactions than `reap` make of a database, one after another.
  pub data Follows (db : Database) : Database → Type 0 where
    at_once : Follows db db
    later :
        {mid next : Database}
        → Follows db mid
        → (step : Step platform mid next) → is_reap step ≡ false
        → Follows db next

  keyed-Held :
      (principal key job_id : String) (db : Database)
      → keyed principal key db.jobs ≡ some job_id
      → (job : PrintJobRecord) × (job_by_key principal key db.jobs ≡ some job) × (job.id ≡ job_id)
  keyed-Held principal key job_id db h = elim (Option-cases (job_by_key principal key db.jobs)) [
    | inl e ↦ cc (rw e at h)
    | inr (job, e) ↦ (job, e, ground (arith, rw e at h))
  ]

  Step-keyed :
      (principal key job_id : String) {db next : Database} (step : Step platform db next)
      → is_reap step ≡ false
      → keyed principal key db.jobs ≡ some job_id
      → keyed principal key next.jobs ≡ some job_id
  unfolding settle_cancelled
  Step-keyed p k i {db} (plans manifest ids ttl now plan_id busy) o h =
      ap (keyed p k) (create_plan-jobs platform manifest ids ttl now plan_id busy db) ∙ h
  Step-keyed p k i {db} (reserves r job_id now locked busy) o h =
      keyed-reserve p k platform i r job_id now locked busy db h
  Step-keyed p k i {db} (cancels job_id owner now busy) o h =
      keyed-cancel p k platform job_id owner now busy db ∙ h
  Step-keyed p k i {db} (sends job_id now busy) o h = keyed-sending p k job_id now busy db ∙ h
  Step-keyed p k i {db} (submits job_id text now busy) o h =
      keyed-submitted p k job_id text now busy db ∙ h
  Step-keyed p k i {db} (fails job_id e now busy) o h =
      keyed-failed p k platform job_id e now busy db ∙ h
  Step-keyed p k i {db} (doubts job_id e now busy) o h =
      keyed-uncertain p k platform job_id e now busy db ∙ h
  Step-keyed p k i {db} (settles job_id now busy) o h =
      keyed-settled p k platform (first_job (has_id job_id) db.jobs) job_id now busy db ∙ h
  Step-keyed p k i {db} (interrupts job_ids now) o h = keyed-mark_interrupted p k job_ids now db ∙ h
  Step-keyed p k i {db} (restarts now) o h = keyed-recovered p k now db ∙ h
  Step-keyed p k i (reaps now) o h = cc

  Follows-keyed :
      (principal key job_id : String) {db next : Database}
      → Follows db next
      → keyed principal key db.jobs ≡ some job_id
      → keyed principal key next.jobs ≡ some job_id
  Follows-keyed p k i at_once h = h
  Follows-keyed p k i (later before step other) h =
      Step-keyed p k i step other (Follows-keyed p k i before h)

  -- A reservation that succeeds fixes the job of its principal and key: after any transactions but
  -- `reap`, in any order, whoever reserves with them again, at any time, for any plan and with any
  -- fresh identifier, is given the row with the same identifier, or `database_busy` where the
  -- transaction cannot begin, and changes nothing either way; so a repeated request starts no second
  -- job.
  pub reserve-idempotent :
      (r : Request) (job_id : String) (now : ℕ) (locked busy : Bool) (db next : Database)
      (found : Reservation)
      → (reserve platform r job_id now locked busy db).0 ≡ ok found
      → Follows (reserve platform r job_id now locked busy db).1 next
      → (again : Request) (other_id : String) (later_at : ℕ) (unable refused : Bool)
      → again.principal ≡ r.principal
      → again.key ≡ r.key
      → (job : PrintJobRecord) × (job.id ≡ (row_of found).id)
        × (reserve platform again other_id later_at unable refused next ≡ (
          if unable
              then err (busy_error "Job reservation is temporarily busy.")
              else ok (existing job),
          next,
        ))
  reserve-idempotent r job_id now locked busy db next found e history again other_id later_at unable
        refused same_principal same_key =
      let after = (reserve platform r job_id now locked busy db).1 in
      let row = ap id_of (reserve_found platform r job_id now locked busy db found e) in
      let (job, held, same) =
        keyed-Held r.principal r.key (row_of found).id next
          (Follows-keyed r.principal r.key (row_of found).id history row) in
      (
        job,
        same,
        reserve_again platform again other_id later_at unable refused next job
            (rw (same_principal, same_key) held),
      )
