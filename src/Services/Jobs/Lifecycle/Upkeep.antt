-- ===== src/Services/Jobs/Lifecycle/Upkeep.antt =====
-- `_recover_on_startup`, `_mark_interrupted` and `reap` of catlabel/services/print_jobs.py.
use Prim.Native.String.{String}
use catlabel.Prelude.{
  ℕ, ◌≡◌, refl, Bool, true, false, not, ◌&&◌, List, [], ◌∷◌, ok, All, Bool-cases, Result-cases, inl,
  inr, >>=-eq-ok, ok-injective, ap, sym, ◌∙◌, subst, and-eq_true, arith, if◌then◌else◌,
}
use catlabel.Services.Platform.{Platform}
use catlabel.Services.Artifacts.{contains}
use catlabel.Services.Jobs.{
  Database, canonical_json, PrintJobRecord, JobState, accepted, sending, submitted,
  failed_before_delivery, cancelled_before_delivery, delivery_uncertain, is_accepted, is_sending,
  is_terminal,
}
use catlabel.Services.Jobs.Table.{all_jobs, delete_jobs}
use catlabel.Services.Jobs.Maintenance.{
  Interruption, interrupt_where, interrupted_jobs, interrupt_accepted, interrupt_sending,
  unpin_jobs, shutdown, startup, mark_interrupted, recover_on_startup, to_remove, to_compact,
  forensic_value, compacted_row, compact, compact_all, unpin_plans, swept, reap,
}
use catlabel.Services.Jobs.Lifecycle.{
  IsValid, InPhase, Phase, update_where-All, accepted-Phase, sending-Phase,
}

-- The jobs after both updates, in every outcome of the transaction.
interrupt_where-All :
    (P : List PrintJobRecord → Type 0) (chosen : PrintJobRecord → Bool) (i : Interruption) (now : ℕ)
    (db : Database)
    → P db.jobs
    → P (interrupted_jobs chosen i now db.jobs)
    → P (interrupt_where chosen i now db).1.jobs
unfolding interrupt_where
interrupt_where-All P chosen i now db before after =
    elim (Result-cases
      (unpin_jobs (all_jobs (λ job. chosen job && is_accepted job.state) db.jobs) db.store.pins)) [
        | inl (pins, e) ↦ rw (e, interrupt_where) after
        | inr (x, e) ↦ rw (e, interrupt_where) before
      ]

interrupted_accepted :
    (now : ℕ) (i : Interruption) (job : PrintJobRecord)
    → Phase accepted job
    → InPhase (interrupt_accepted now i job)
interrupted_accepted now i job p = (p.0, p.1, cc, cc)

interrupted_sending :
    (now : ℕ) (i : Interruption) (job : PrintJobRecord)
    → Phase sending job
    → InPhase (interrupt_sending now i job)
interrupted_sending now i job p = (p.0, p.1, cc, cc)

interrupted_jobs-IsValid :
    (chosen : PrintJobRecord → Bool) (i : Interruption) (now : ℕ) (jobs : List PrintJobRecord)
    → All InPhase jobs
    → All InPhase (interrupted_jobs chosen i now jobs)
interrupted_jobs-IsValid chosen i now jobs h =
    update_where-All InPhase (λ job. chosen job && is_sending job.state) (interrupt_sending now i) _
      (λ job e p. interrupted_sending now i job (sending-Phase job (and-eq_true _ _ e).1 p))
      (update_where-All InPhase (λ job. chosen job && is_accepted job.state)
        (interrupt_accepted now i) jobs
        (λ job e p. interrupted_accepted now i job (accepted-Phase job (and-eq_true _ _ e).1 p)) h)

pub mark_interrupted-IsValid :
    (job_ids : List String) (now : ℕ) (db : Database)
    → IsValid db
    → IsValid (mark_interrupted job_ids now db).1
unfolding mark_interrupted
mark_interrupted-IsValid [] now db h = h
mark_interrupted-IsValid (job_id ∷ job_ids) now db h =
    interrupt_where-All (All InPhase) (λ job. contains job.id (job_id ∷ job_ids)) shutdown now db h
      (interrupted_jobs-IsValid (λ job. contains job.id (job_id ∷ job_ids)) shutdown now db.jobs h)

pub recover_on_startup-IsValid :
    (now : ℕ) (db : Database) → IsValid db → IsValid (recover_on_startup now db).1
unfolding recover_on_startup
recover_on_startup-IsValid now db h =
    interrupt_where-All (All InPhase) (λ job. true) startup now db h
      (interrupted_jobs-IsValid (λ job. true) startup now db.jobs h)

settle_row :
    (i : Interruption) (now : ℕ) (job : PrintJobRecord)
    → let first = if is_accepted job.state then interrupt_accepted now i job else job in
      let second = if is_sending first.state then interrupt_sending now i first else first in
      is_terminal second.state ≡ true
settle_row i now job = ground arith

interrupted_jobs_settle :
    (i : Interruption) (now : ℕ) (jobs : List PrintJobRecord)
    → All (λ job. is_terminal job.state ≡ true) (interrupted_jobs (λ job. true) i now jobs)
interrupted_jobs_settle i now [] = tt
interrupted_jobs_settle i now (job ∷ jobs) =
    (settle_row i now job, interrupted_jobs_settle i now jobs)

-- Once the recovery at startup is committed, every job is in one of the four terminal states: none
-- is accepted or sending.
pub recover_on_startup_settles :
    (now : ℕ) (db : Database)
    → (recover_on_startup now db).0 ≡ ok tt
    → All (λ job. is_terminal job.state ≡ true) (recover_on_startup now db).1.jobs
unfolding recover_on_startup interrupt_where
recover_on_startup_settles now db e =
    elim (Result-cases
      (unpin_jobs (all_jobs (λ job. true && is_accepted job.state) db.jobs) db.store.pins)) [
        | inl (pins, f) ↦ rw (f, interrupt_where) (interrupted_jobs_settle startup now db.jobs)
        | inr (x, f) ↦ cc (rw (f, interrupt_where) at e)
      ]

delete_jobs-All :
    (P : PrintJobRecord → Type 0) (test : PrintJobRecord → Bool) (jobs : List PrintJobRecord)
    → All P jobs
    → All P (delete_jobs test jobs)
delete_jobs-All P test [] h = tt
delete_jobs-All P test (job ∷ jobs) (p, h) = elim (Bool-cases (test job)) [
  | inl e ↦ rw e (delete_jobs-All P test jobs h)
  | inr e ↦ rw e (p, delete_jobs-All P test jobs h)
]

Phase-compacted_row :
    (now : ℕ) (text : String) (job : PrintJobRecord) (s : JobState)
    → Phase s job
    → Phase s (compacted_row now text job)
Phase-compacted_row now text job accepted h = h
Phase-compacted_row now text job sending h = h
Phase-compacted_row now text job submitted h = h
Phase-compacted_row now text job failed_before_delivery h = h
Phase-compacted_row now text job cancelled_before_delivery h = h
Phase-compacted_row now text job delivery_uncertain h = h

abbrev pub is_live : PrintJobRecord → Bool
is_live job = not (is_terminal job.state)

not_live : (now : ℕ) (job : PrintJobRecord) → to_compact now job ≡ true → is_live job ≡ false
not_live now job e = ground arith

live_kept :
    (now : ℕ) (jobs : List PrintJobRecord)
    → all_jobs is_live (delete_jobs (to_remove now) jobs) ≡ all_jobs is_live jobs
live_kept now [] = refl
live_kept now (job ∷ jobs) = elim (Bool-cases (to_remove now job)) [
  | inl e ↦
      let dead : is_terminal job.state ≡ true = ground arith in rw (e, dead) (live_kept now jobs)
  | inr e ↦ rw e (ap (λ later. if is_live job then job ∷ later else later) (live_kept now jobs))
]

module _ (platform : Platform) where
  compact-InPhase :
      (now : ℕ) (job compacted : PrintJobRecord)
      → InPhase job
      → compact platform now job ≡ ok compacted
      → InPhase compacted
  unfolding compact
  compact-InPhase now job compacted h e =
      let (text, found, same) =
        >>=-eq-ok (canonical_json platform (forensic_value platform job) "job_content_invalid")
          (λ (text : String). ok (compacted_row now text job)) e in
      subst InPhase (ok-injective same) (Phase-compacted_row now text job job.state h)

  compact_row-InPhase :
      (now : ℕ) (job compacted : PrintJobRecord)
      → InPhase job
      → (if to_compact now job then compact platform now job else ok job) ≡ ok compacted
      → InPhase compacted
  compact_row-InPhase now job compacted h e = elim (Bool-cases (to_compact now job)) [
    | inl f ↦ compact-InPhase now job compacted h (rw f at e)
    | inr f ↦ subst InPhase (ok-injective (rw f at e)) h
  ]

  compact_all-InPhase :
      (now : ℕ) (jobs compacted : List PrintJobRecord)
      → All InPhase jobs
      → compact_all platform now jobs ≡ ok compacted
      → All InPhase compacted
  unfolding compact_all
  compact_all-InPhase now [] compacted h e =
      let same : [] ≡ compacted = ground arith in subst (All InPhase) same tt
  compact_all-InPhase now (job ∷ jobs) compacted (p, h) e =
      let (rest, found, e') = >>=-eq-ok (compact_all platform now jobs) _ e in
      let (row, made, e'') =
        >>=-eq-ok (if to_compact now job then compact platform now job else ok job) _ e' in
      let same : row ∷ rest ≡ compacted = ground arith in
      subst (All InPhase) same
        (compact_row-InPhase now job row p made, compact_all-InPhase now jobs rest h found)

  -- What a sweep that is committed leaves of the jobs.
  swept-jobs :
      (now : ℕ) (db : Database) (counts : ℕ × ℕ × ℕ) (after : Database)
      → swept platform now db ≡ ok (counts, after)
      → (compacted : List PrintJobRecord) × (compact_all platform now db.jobs ≡ ok compacted)
        × (delete_jobs (to_remove now) compacted ≡ after.jobs)
  unfolding swept
  swept-jobs now db counts after e =
      let (plans_left, e0, f0) = >>=-eq-ok (unpin_plans now db.plans db.store.pins) _ e in
      let (uncertain_left, e1, f1) =
        >>=-eq-ok (unpin_jobs (all_jobs (to_compact now) db.jobs) plans_left) _ f0 in
      let (compacted, e2, f2) = >>=-eq-ok (compact_all platform now db.jobs) _ f1 in
      let (left, e3, f3) =
        >>=-eq-ok (unpin_jobs (all_jobs (to_remove now) compacted) uncertain_left) _ f2 in
      (compacted, e2, ap (λ (r : (ℕ × ℕ × ℕ) × Database). r.1.jobs) (ok-injective f3))

  pub reap-IsValid : (now : ℕ) (db : Database) → IsValid db → IsValid (reap platform now db).1
  unfolding reap
  reap-IsValid now db h = elim (Result-cases (swept platform now db)) [
    | inr (x, e) ↦ rw (e, reap) h
    | inl ((counts, after), e) ↦
        let (compacted, made, same) = swept-jobs now db counts after e in
        rw (e, reap)
          (subst (All InPhase) same (
            delete_jobs-All InPhase (to_remove now) compacted
              (compact_all-InPhase now db.jobs compacted h made)))
  ]

  live_row :
      (now : ℕ) (job row : PrintJobRecord) (later : List PrintJobRecord)
      → (if to_compact now job then compact platform now job else ok job) ≡ ok row
      → (if is_live row then row ∷ later else later) ≡ (if is_live job then job ∷ later else later)
  unfolding compact
  live_row now job row later e = elim (Bool-cases (to_compact now job)) [
    | inr f ↦
        ap (λ (r : PrintJobRecord). if is_live r then r ∷ later else later)
          (sym (ok-injective (rw f at e)))
    | inl f ↦
        let (text, found, same) =
          >>=-eq-ok (canonical_json platform (forensic_value platform job) "job_content_invalid")
            (λ (text : String). ok (compacted_row now text job)) (rw f at e) in
        let dead = not_live now job f in
        subst
          (λ (r : PrintJobRecord).
            (if is_live r then r ∷ later else later) ≡ (if is_live job then job ∷ later else later))
          (ok-injective same) (rw dead)
  ]

  live_compacted :
      (now : ℕ) (jobs compacted : List PrintJobRecord)
      → compact_all platform now jobs ≡ ok compacted
      → all_jobs is_live compacted ≡ all_jobs is_live jobs
  unfolding compact_all compact
  live_compacted now [] compacted e = ap (all_jobs is_live) (sym (ok-injective e))
  live_compacted now (job ∷ jobs) compacted e =
      let (rest, found, e') = >>=-eq-ok (compact_all platform now jobs) _ e in
      let (row, made, e'') =
        >>=-eq-ok (if to_compact now job then compact platform now job else ok job) _ e' in
      ap (all_jobs is_live) (sym (ok-injective e''))
      ∙ live_row now job row (all_jobs is_live rest) made
      ∙ ap (λ later. if is_live job then job ∷ later else later)
          (live_compacted now jobs rest found)

  -- `reap` leaves every job that is accepted or sending as it is, in the same order, whatever the
  -- time: only terminal jobs are compacted or removed.
  pub reap-live :
      (now : ℕ) (db : Database)
      → all_jobs is_live (reap platform now db).1.jobs ≡ all_jobs is_live db.jobs
  unfolding reap
  reap-live now db = elim (Result-cases (swept platform now db)) [
    | inr (x, e) ↦ rw (e, reap) refl
    | inl ((counts, after), e) ↦
        let (compacted, made, same) = swept-jobs now db counts after e in
        rw (e, reap)
          (ap (all_jobs is_live) (sym same)
            ∙ live_kept now compacted
            ∙ live_compacted now db.jobs compacted made)
  ]
