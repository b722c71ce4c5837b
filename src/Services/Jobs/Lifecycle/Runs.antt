-- ===== src/Services/Jobs/Lifecycle/Runs.antt =====
-- What other tasks do during `_run_job` of catlabel/services/print_jobs.py.
use catlabel.Services.Jobs.{Database, Fallible}
use catlabel.Services.Jobs.Runner.{Executor, wait, before_delivery, returns, raises, cancelled}

-- What the other tasks do, at every point where the executor waits, keeps a property of the
-- database.
abbrev pub Respects : (Database → Type 0) → Executor → Type 0
Respects P (wait others next) = ((db : Database) → P db → P (others db)) × Respects P next
Respects P (before_delivery now busy next) = (r : Fallible (Unit {0})) → Respects P (next r)
Respects P (returns value) = Unit
Respects P (raises e) = Unit
Respects P cancelled = Unit
