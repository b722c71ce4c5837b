-- ===== src/Printing/Spool.antt =====
-- catlabel/printing/job_spool.py: `ProtocolJobSpool`. The temporary file is its bytes; a write takes
-- as many bytes as the device has room for, and `rolled_back` says whether the file could be cut
-- off again. Iteration reads the jobs in one go.
pub mod Reading
pub mod Matchers
pub mod Contents
pub mod Refinement
use Prim.Native.String.{String}
use catlabel.Prelude.{
  ℕ, zero, suc, ◌+◌, ◌-◌, ◌==◌, leb, ltb, Bytes, List, [], ◌∷◌, ◌++◌, Bool, true, false, ◌&&◌, not,
  Option, none, some, Result, ok, err, ◌>>=◌, ◌>>◌, raise_if, length, take, slice, if◌then◌else◌,
  map,
}
use catlabel.Prelude.Int.{ℤ}
use catlabel.Protocol.Steps.{
  WriteChannel, StepOperation, ReplyExpectation, StepError, ProtocolStep, ProtocolJob, make_step,
  make_job,
}

-- `MAX_PRINT_JOBS` of catlabel/data/resource_limits.json
abbrev pub max_print_jobs : ℕ
max_print_jobs = 500

-- `_StepMetadata`
pub record StepMetadata : Type 0 where
  pub label : String
  pub data_offset : ℕ
  pub data_length : ℕ
  pub operation : StepOperation
  pub expect : ReplyExpectation
  pub timeout_sec : Option ℤ
  pub include_in_payload : Bool
  pub reply_matcher_id : Option ℕ
  pub repeat_interval_sec : Option ℤ
  pub repeat_timeout_sec : Option ℤ
  pub write_channel : WriteChannel
  pub reply_required : Bool

-- `_JobMetadata`
pub record JobMetadata : Type 0 where
  pub payload_offset : ℕ
  pub payload_length : ℕ
  pub wait_for_completion : Bool
  pub steps : List StepMetadata

-- `json.dumps(record).encode("utf-8")` and its inverse, `none` where that raises.
pub record Codec : Type 0 where
  pub encode : JobMetadata → Bytes
  pub decode : Bytes → Option JobMetadata

pub data SpoolError : Type 0 where
  too_many_jobs too_many_bytes write_failed not_rolled_back : SpoolError
  spool_invalid spool_closed truncated undecodable unknown_matcher : SpoolError
  bad_step : StepError → SpoolError

-- One entry of `self._records`.
pub record Extent : Type 0 where
  pub start : ℕ
  pub metadata_offset : ℕ
  pub metadata_length : ℕ

pub record Spool : Type 0 where
  pub max_bytes : ℕ
  pub file : Bytes
  pub records : List Extent
  pub total_bytes : ℕ
  pub reply_matchers : ℕ → Option ℕ
  pub matcher_ids : ℕ → Option ℕ
  pub next_matcher_id : ℕ
  pub closed : Bool
  pub invalid : Bool

-- `d[key] = value`
abbrev pub update : (ℕ → Option ℕ) → ℕ → ℕ → ℕ → Option ℕ
update d key value = λ k. if k == key then some value else d k

unfoldable pub new_spool : ℕ → Spool
new_spool max_bytes = record {
  max_bytes = max_bytes;
  file = [];
  records = [];
  total_bytes = 0;
  reply_matchers = λ id. none;
  matcher_ids = λ matcher. none;
  next_matcher_id = 1;
  closed = false;
  invalid = false;
}

unfoldable pub ensure_open : Spool → Result SpoolError (Unit {0})
ensure_open s = raise_if s.invalid spool_invalid >> raise_if s.closed spool_closed

-- The matchers that an append would add, with their identifiers, and the next identifier.
pub record Pending : Type 0 where
  pub matchers : List (ℕ × ℕ)
  pub next_id : ℕ

-- `pending_matcher_ids.get(identity)`
abbrev pub pending_id : ℕ → List (ℕ × ℕ) → Option ℕ
pending_id matcher [] = none
pending_id matcher ((id, m) ∷ pending) =
    let rest = pending_id matcher pending in if m == matcher then some id else rest

-- `self._reply_matchers.get(id) is matcher`
abbrev pub refers : Option ℕ → ℕ → Bool
refers none matcher = false
refers (some m) matcher = m == matcher

abbrev pub known_id : Spool → ℕ → Option ℕ
known_id s matcher = elim (s.matcher_ids matcher) [
  | none ↦ none
  | some id ↦ if refers (s.reply_matchers id) matcher then some id else none
]

unfoldable pub assign : Spool → Option ℕ → Pending → Option ℕ × Pending
assign s none p = (none, p)
assign s (some matcher) p = elim (known_id s matcher) [
  | some id ↦ (some id, p)
  | none ↦ elim (pending_id matcher p.matchers) [
    | some id ↦ (some id, p)
    | none ↦ (
      some p.next_id,
      record { matchers = p.matchers ++ (p.next_id, matcher) ∷ []; next_id = p.next_id + 1 },
    )
  ]
]

abbrev pub step_metadata : ProtocolStep → ℕ → Option ℕ → StepMetadata
step_metadata step data_offset matcher_id = record {
  label = step.label;
  data_offset = data_offset;
  data_length = length step.bytes;
  operation = step.operation;
  expect = step.expect;
  timeout_sec = step.timeout_sec;
  include_in_payload = step.include_in_payload;
  reply_matcher_id = matcher_id;
  repeat_interval_sec = step.repeat_interval_sec;
  repeat_timeout_sec = step.repeat_timeout_sec;
  write_channel = step.write_channel;
  reply_required = step.reply_required;
}

-- The loop over `job.steps`, from a data offset on.
unfoldable pub describe : Spool → List ProtocolStep → ℕ → Pending → List StepMetadata × Pending
unfolding assign
describe s [] data_offset p = ([], p)
describe s (step ∷ steps) data_offset p =
    let (matcher_id, q) = assign s step.reply_matcher p in
    let (rest, last) = describe s steps (data_offset + length step.bytes) q in
    (step_metadata step data_offset matcher_id ∷ rest, last)

abbrev pub steps_bytes : List ProtocolStep → Bytes
steps_bytes [] = []
steps_bytes (step ∷ steps) = step.bytes ++ steps_bytes steps

abbrev pub job_metadata : Spool → ProtocolJob → JobMetadata
job_metadata s job = record {
  payload_offset = 0;
  payload_length = length job.payload;
  wait_for_completion = job.wait_for_completion;
  steps =
      (describe s job.steps (length job.payload)
        (record { matchers = []; next_id = s.next_matcher_id })).0;
}

abbrev pub job_pending : Spool → ProtocolJob → Pending
job_pending s job =
    (describe s job.steps (length job.payload)
      (record { matchers = []; next_id = s.next_matcher_id })).1

-- The calls of `_write`, with the room that the device has left: `none` is no limit. The result is
-- what the file holds then, and whether every write was whole.
unfoldable pub write_all : Option ℕ → List Bytes → Bytes → Bytes × Bool
write_all room [] file = (file, true)
write_all none (chunk ∷ chunks) file = write_all none chunks (file ++ chunk)
write_all (some room) (chunk ∷ chunks) file =
    let rest = write_all (some (room - length chunk)) chunks (file ++ chunk) in
    if leb (length chunk) room then rest else (file ++ take room chunk, false)

-- The loop over `pending_matchers.items()`, for the two tables.
unfoldable pub install : List (ℕ × ℕ) → (ℕ → Option ℕ) → ℕ → Option ℕ
install [] table = table
install ((id, matcher) ∷ pending) table = install pending (update table id matcher)

unfoldable pub install_ids : List (ℕ × ℕ) → (ℕ → Option ℕ) → ℕ → Option ℕ
install_ids [] table = table
install_ids ((id, matcher) ∷ pending) table = install_ids pending (update table matcher id)

-- The temporary file goes with its handle.
unfoldable pub cleared : Spool → Spool
cleared s = record s {
  file = [];
  records = [];
  reply_matchers = λ id. none;
  matcher_ids = λ matcher. none;
  total_bytes = 0;
  next_matcher_id = 1;
}

unfoldable pub invalidate : Spool → Spool
unfolding cleared
invalidate s = record (cleared s) { invalid = true }

unfoldable pub close : Spool → Spool
unfolding cleared
close s = if s.closed then s else record (cleared s) { closed = true }

abbrev pub chunks : ProtocolJob → Bytes → List Bytes
chunks job metadata = job.payload ∷ (map (λ step. step.bytes) job.steps ++ metadata ∷ [])

-- The spool after an append whose writes were all whole.
abbrev pub appended : Spool → ProtocolJob → Bytes → Bytes → ℕ → Spool
appended s job metadata file append_size = record s {
  file = file;
  records =
      s.records
      ++ record {
        start = length s.file;
        metadata_offset = length s.file + length job.payload + length (steps_bytes job.steps);
        metadata_length = length metadata;
      }
        ∷ [];
  total_bytes = s.total_bytes + append_size;
  reply_matchers = install (job_pending s job).matchers s.reply_matchers;
  matcher_ids = install_ids (job_pending s job).matchers s.matcher_ids;
  next_matcher_id = (job_pending s job).next_id;
}

-- `_read_exact` behind a `seek`
unfoldable pub read_span : Bytes → ℕ → ℕ → Result SpoolError Bytes
read_span file offset count =
    let found = slice offset count file in if length found == count then ok found else err truncated

abbrev pub restore_matcher : (ℕ → Option ℕ) → Option ℕ → Result SpoolError (Option ℕ)
restore_matcher table none = ok none
restore_matcher table (some id) = elim (table id) [
  | none ↦ err unknown_matcher
  | some matcher ↦ ok (some matcher)
]

abbrev pub checked {ℓ} : {A : Type ℓ} → Result StepError A → Result SpoolError A
checked (ok a) = ok a
checked (err e) = err (bad_step e)

-- `_restore_step`
unfoldable pub restore_step :
    Bytes → (ℕ → Option ℕ) → ℕ → StepMetadata → Result SpoolError ProtocolStep
unfolding read_span make_step
restore_step file table record_start m = do
  matcher ← restore_matcher table m.reply_matcher_id
  bytes ← read_span file (record_start + m.data_offset) m.data_length
  checked (
      make_step (record {
        label = m.label;
        bytes = bytes;
        operation = m.operation;
        expect = m.expect;
        timeout_sec = m.timeout_sec;
        include_in_payload = m.include_in_payload;
        reply_matcher = matcher;
        repeat_interval_sec = m.repeat_interval_sec;
        repeat_timeout_sec = m.repeat_timeout_sec;
        write_channel = m.write_channel;
        reply_required = m.reply_required;
      }))

unfoldable pub restore_steps :
    Bytes → (ℕ → Option ℕ) → ℕ → List StepMetadata → Result SpoolError (List ProtocolStep)
unfolding restore_step
restore_steps file table record_start [] = ok []
restore_steps file table record_start (m ∷ ms) = do
  step ← restore_step file table record_start m
  rest ← restore_steps file table record_start ms
  ok (step ∷ rest)

abbrev pub decoded : Option JobMetadata → Result SpoolError JobMetadata
decoded none = err undecodable
decoded (some m) = ok m

module _ (codec : Codec) where
  unfoldable pub append :
      ProtocolJob → Option ℕ → Bool → Spool → Result SpoolError (Unit {0}) × Spool
  unfolding ensure_open write_all install install_ids describe invalidate
  append job room rolled_back s =
      let metadata = codec.encode (job_metadata s job) in
      let append_size = length job.payload + length (steps_bytes job.steps) + length metadata in
      let (file, whole) = write_all room (chunks job metadata) s.file in
      if s.invalid
      then (err spool_invalid, s)
      else if s.closed
      then (err spool_closed, s)
      else if leb max_print_jobs (length s.records)
      then (err too_many_jobs, s)
      else if ltb s.max_bytes (s.total_bytes + append_size)
      then (err too_many_bytes, s)
      else if whole
      then (ok tt, appended s job metadata file append_size)
      else if rolled_back
      then (err write_failed, record s { file = take (length s.file) file })
      else (err not_rolled_back, invalidate (record s { file = file }))

  -- One round of `read_jobs`.
  unfoldable pub read_job : Bytes → (ℕ → Option ℕ) → Extent → Result SpoolError ProtocolJob
  unfolding read_span restore_steps make_job
  read_job file table extent = do
    metadata_bytes ← read_span file extent.metadata_offset extent.metadata_length
    m ← decoded (codec.decode metadata_bytes)
    payload ← read_span file (extent.start + m.payload_offset) m.payload_length
    steps ← restore_steps file table extent.start m.steps
    checked (make_job (some payload) steps m.wait_for_completion)

  unfoldable pub read_all :
      Bytes → (ℕ → Option ℕ) → List Extent → Result SpoolError (List ProtocolJob)
  unfolding read_job
  read_all file table [] = ok []
  read_all file table (extent ∷ extents) = do
    job ← read_job file table extent
    rest ← read_all file table extents
    ok (job ∷ rest)

  -- `__iter__` to its end, and `__len__`.
  unfoldable pub iterate : Spool → Result SpoolError (List ProtocolJob)
  unfolding ensure_open read_all
  iterate s = do ensure_open s; read_all s.file s.reply_matchers s.records

unfoldable pub job_count : Spool → Result SpoolError ℕ
unfolding ensure_open
job_count s = do ensure_open s; ok (length s.records)
