-- ===== src/Lib.antt =====
-- A model of the core of catlabel, a label printing server: how a print job is planned, reserved,
-- delivered and settled, and how rasters become packets for a printer.
--
-- The parts and how they work together:
-- * Prelude passes library names on and holds the helpers that all parts share: Boolean tests on
--   numbers, results with errors, lists and bits.
-- * Services/Jobs models catlabel/services/print_jobs.py, the `PrintJobCoordinator`. `Database`
--   holds its two tables and the artifact store whose pins it changes in its own transactions.
--   Table has the queries, Plans `create_plan` and `get_plan`, Start `start` and `job_get`,
--   Delivery the transitions of a job and `cancel`, Runner `_run_job` and `before_delivery`,
--   Maintenance `reap`, `close` and the recovery at startup, Listing `jobs_list`. Lifecycle, Steps
--   and Idempotency hold proofs. Each transaction is a function from the database to a result and a
--   database.
-- * Services/Artifacts models catlabel/services/artifacts.py, the `ArtifactStore`, with Reaping for
--   `reap` and Startup for the cleanup at startup; Services/Json and Services/Text are
--   Python's values, and Services/Platform is what both call and do not implement: SHA-256, UUIDs,
--   JSON texts and UTF-8.
-- * Protocol models catlabel/protocol: Family (family.py) has the packet prefixes, Packet (packet.py)
--   the framed packets, with Packet/Stream for `PrefixedPacketStreamDecoder`, and Encoding
--   (encoding.py) the lines of a raster as packets, Commands (commands.py) the other commands.
--   Protocol/Replies (families/phomemo_replies.py) decodes the replies of two dialects.
--   Protocol/Niimbot (families/niimbot_core.py) makes NIIMBOT frames of a raster, with
--   `validate_image_budget` of catlabel/core/resource_limits.py.
--   Protocol/Steps models steps.py and the `ProtocolJob` of job.py, and Protocol/Plan plan.py.
-- * Printing models catlabel/printing: Spool (job_spool.py) holds the jobs of a request in a file,
--   Admission (admission.py) keeps two jobs from one printer, and Execution (step_execution.py) runs
--   a step of the protocol on a session; its loop gets a round for each unit of the budget and one
--   more. Spool/Reading, Matchers, Contents and Refinement, Admission/Claims and Spellings, and
--   Execution/Queries hold proofs.
-- * Raster models catlabel/raster.py.
-- * Tests runs the model at concrete inputs.
--
-- Conventions. A clock reading, a fresh identifier and the refusal of a write by the database
-- (`busy`) are arguments. Times are whole seconds. Exceptions are values of `Result`. An
-- `ArtifactError` that a transaction lets through is reported with its code, message and
-- retryable flag as a `JobError`, and an `OperationalError` as one with that name; the handlers of
-- `_run_job` tell the three apart. A read is not refused. An executor is a tree of what it does
-- (`Executor`), in which `wait` stands for what other tasks do to the database while it waits.
--
-- Fuel. `split_loop` has a round for each byte of the stream and `feed_loop` one for each byte
-- of the buffer, as has `decode_loop`; each round consumes a byte at least, and `none` stands for
-- fuel that ran out. `reap_loop` has as many rounds as its caller says, and a round for each record
-- is enough when no other connection interferes. `run_loop` has a round for each pixel of a run,
-- `pack_loop` one for each pixel of a line and `encode_row_run` one for each row of a run.
--
-- Not modelled: the paper commands that a family builds itself; the other protocol families; the
-- buffer of the spool's file; the transports, the rendering, the servers and the vendors' adapters,
-- which are input and output or stand outside the path from a plan to its packets. The checksum of
-- the package crc8 is a parameter.
pub mod Prelude
pub mod Raster
pub mod Protocol
pub mod Printing
pub mod Services
pub mod Tests
