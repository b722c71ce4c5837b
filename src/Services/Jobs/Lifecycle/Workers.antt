-- ===== src/Services/Jobs/Lifecycle/Workers.antt =====
-- The tasks that `start` of catlabel/services/print_jobs.py schedules.
use Prim.Native.String.{String}
use catlabel.Prelude.{
  ℕ, suc, ◌≤◌, ◌≡◌, refl, ap, Bool, true, false, List, [], ◌∷◌, ◌++◌, leb, arith, Bool-cases,
  Result-cases, inl, inr,
}
use catlabel.Services.Platform.{Platform}
use catlabel.Services.Jobs.{PrintJobRecord}
use catlabel.Services.Jobs.Start.{
  Coordinator, Task, Request, Reservation, existing, inserted, reserve, admit, settle_start,
  prepared, start, start_open, unless_closing, active_tasks,
}

-- No more tasks run than the coordinator has workers.
abbrev pub IsBounded : Coordinator → Type 0
IsBounded c = active_tasks c.tasks ≤ c.max_active

active_tasks-append :
    (tasks : List Task) (job_id : String)
    → active_tasks (tasks ++ record { job_id = job_id; done = false } ∷ [])
      ≡ suc (active_tasks tasks)
active_tasks-append [] job_id = refl
active_tasks-append (task ∷ tasks) job_id = elim (Bool-cases task.done) [
  | inl e ↦ rw e (active_tasks-append tasks job_id)
  | inr e ↦ rw e (ap suc (active_tasks-append tasks job_id))
]

module _ (platform : Platform) where
  admit-IsBounded :
      (job : PrintJobRecord) (now : ℕ) (schedulable unfailable : Bool) (c : Coordinator)
      → IsBounded c
      → IsBounded (admit platform job now schedulable unfailable c).1
  unfolding admit
  admit-IsBounded job now schedulable unfailable c h =
      elim (Bool-cases (leb c.max_active (active_tasks c.tasks))) [
        | inl e ↦ rw (e, admit) h
        | inr e ↦ elim (Bool-cases schedulable) [
          | inl f ↦ rw (e, f, admit) (ground (arith, active_tasks-append c.tasks job.id))
          | inr f ↦ rw (e, f, admit) h
        ]
      ]

  settle_start-IsBounded :
      (r : Request) (now : ℕ) (schedulable unfailable : Bool) (found : Reservation)
      (c : Coordinator)
      → IsBounded c
      → IsBounded (settle_start platform r now schedulable unfailable found c).1
  unfolding settle_start
  settle_start-IsBounded r now schedulable unfailable (existing job) c h = h
  settle_start-IsBounded r now schedulable unfailable (inserted job) c h =
      admit-IsBounded job now schedulable unfailable c h

  module _ (plan_id plan_hash key principal job_id : String) (checked_at reserved_at : ℕ)
      (locked busy schedulable unfailable : Bool) (c : Coordinator) where
    start_open-IsBounded :
        IsBounded c
        → IsBounded
            (start_open platform plan_id plan_hash key principal job_id checked_at reserved_at
              locked busy schedulable unfailable c).1
    unfolding start_open
    start_open-IsBounded h =
        elim (Result-cases (prepared platform plan_id plan_hash key principal checked_at c.db)) [
          | inr (x, f) ↦ rw (f, start_open) h
          | inl (inner, f) ↦ elim (Result-cases inner) [
            | inr (found, g) ↦ rw (f, g, start_open) h
            | inl (r, g) ↦
                let made = reserve platform r job_id reserved_at locked busy c.db in
                elim (Result-cases made.0) [
                  | inr (x, k) ↦ rw (f, g, k, start_open) h
                  | inl (found, k) ↦
                      rw (f, g, k, start_open)
                        (settle_start-IsBounded r reserved_at schedulable unfailable found
                          (record c { db = made.1 }) h)
                ]
          ]
        ]

    -- `start` never has more tasks under way than the coordinator has workers, whatever the request is
    -- and whichever write the database refuses. There are no more at the start.
    pub start-IsBounded :
        IsBounded c
        → IsBounded
            (start platform plan_id plan_hash key principal job_id checked_at reserved_at locked
              busy schedulable unfailable c).1
    unfolding start
    start-IsBounded h = open_or_closed c.closing
      where
        open_or_closed :
            (closing : Bool)
            → IsBounded
                (unless_closing closing c (
                  start_open platform plan_id plan_hash key principal job_id checked_at reserved_at
                    locked busy schedulable unfailable c)).1
        open_or_closed true = h
        open_or_closed false = start_open-IsBounded h
