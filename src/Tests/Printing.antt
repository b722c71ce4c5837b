-- ===== src/Tests/Printing.antt =====
-- Runs of the plans of catlabel/protocol/plan.py, and of the job spool and the device admission of
-- catlabel/printing, at concrete inputs.
use catlabel.Prelude.{
  ◌+◌, ◌==◌, ◌&&◌, leb, map, if◌then◌else◌, ◌≡◌, ◌≤◌, ◌⊎◌, inl, refl, Bytes, List, [], ◌∷◌, true,
  false, Option, none, some, ok, err, length,
}
use catlabel.Protocol.Steps.{
  make_step, make_job, ProtocolStep, ProtocolJob, send, query, anything, ok_reply, standard, bulk,
  payload_mismatch,
}
use catlabel.Protocol.Plan.{make_plan, stream, sequence}
use catlabel.Printing.Spool.{
  not_rolled_back, describe, assign, Codec, JobMetadata, Spool, job_metadata, new_spool, append,
  iterate, ensure_open,
}
use catlabel.Printing.Spool.Contents.{IsJob}
use catlabel.Printing.Spool.Refinement.{Attempt, run, kept, iterate-run, append_failed}
use catlabel.Printing.Admission.{
  left_stripped, right_stripped, Unicode, Address, Admission, enters, leaves, happen, new_admission,
  canonical_device_address,
}
use catlabel.Printing.Admission.Claims.{IsExclusive, claims-IsExclusive}
use catlabel.Printing.Admission.Spellings.{unmarked, marked, canonical_device_address-spellings}

abbrev write_row : ProtocolStep
write_row = record {
  label = "row";
  bytes = 7 ∷ 8 ∷ [];
  operation = send;
  expect = anything;
  timeout_sec = none;
  include_in_payload = true;
  reply_matcher = none;
  repeat_interval_sec = none;
  repeat_timeout_sec = none;
  write_channel = bulk;
  reply_required = true;
}

abbrev ask : ProtocolStep
ask = record {
  label = "status";
  bytes = 9 ∷ [];
  operation = query;
  expect = ok_reply;
  timeout_sec = none;
  include_in_payload = false;
  reply_matcher = none;
  repeat_interval_sec = none;
  repeat_timeout_sec = none;
  write_channel = standard;
  reply_required = true;
}

abbrev stepped : ProtocolJob
stepped = record { payload = 7 ∷ 8 ∷ []; steps = write_row ∷ ask ∷ []; wait_for_completion = true }

abbrev streamed : ProtocolJob
streamed = record { payload = 1 ∷ 2 ∷ 3 ∷ []; steps = []; wait_for_completion = false }

-- A codec for the two jobs.
abbrev decode_one : Bytes → Option JobMetadata
decode_one (n ∷ []) =
    if n == 2
    then some (job_metadata (new_spool 0) stepped)
    else if n == 3
    then some (job_metadata (new_spool 0) streamed)
    else none
decode_one _ = none

abbrev codec : Codec
codec = record { encode = λ m. m.payload_length ∷ []; decode = decode_one }

-- The second write finds the device full.
abbrev attempts : List Attempt
attempts =
    record { job = stepped; room = none; rolled_back = true }
    ∷ record { job = streamed; room = some 2; rolled_back = true }
    ∷ record { job = streamed; room = some 9; rolled_back = false }
    ∷ []

keeps_two : kept codec attempts (new_spool 100) [] ≡ stepped ∷ streamed ∷ []
unfolding kept append new_spool
keeps_two = refl

stepped-IsJob : IsJob stepped
unfolding make_step make_job
stepped-IsJob = record { steps_valid = (refl, (refl, tt)); consistent = refl }

streamed-IsJob : IsJob streamed
unfolding make_job
streamed-IsJob = record { steps_valid = tt; consistent = refl }

stepped-decode :
    (s : Spool) → decode_one (codec.encode (job_metadata s stepped)) ≡ some (job_metadata s stepped)
unfolding describe assign new_spool
stepped-decode s = refl

streamed-decode :
    (s : Spool)
    → decode_one (codec.encode (job_metadata s streamed)) ≡ some (job_metadata s streamed)
unfolding describe new_spool
streamed-decode s = refl

iterate-run_example :
    (ensure_open (run codec attempts (new_spool 100)) ≡ ok tt
      → iterate codec (run codec attempts (new_spool 100))
        ≡ ok (kept codec attempts (new_spool 100) []))
    × (length (run codec attempts (new_spool 100)).file ≤ 100)
iterate-run_example =
    iterate-run codec attempts 100 (stepped-IsJob, (streamed-IsJob, (streamed-IsJob, tt)))
      (stepped-decode, (streamed-decode, (streamed-decode, tt)))

append_failed_example :
    ((append codec streamed (some 2) false (new_spool 100)).1 ≡ new_spool 100)
    ⊎ ((not_rolled_back ≡ not_rolled_back)
        × ((append codec streamed (some 2) false (new_spool 100)).1.invalid ≡ true))
unfolding append new_spool
append_failed_example =
    append_failed codec streamed (some 2) false (new_spool 100) not_rolled_back refl

-- ASCII alone.
abbrev ascii : Unicode
ascii = record {
  is_space = λ c. c == 32;
  casefold = map (λ c. if leb 65 c && leb c 90 then c + 32 else c);
}

claims-IsExclusive_example :
    (s : Admission) × (happen ascii
        (enters 1 (b'A' ∷ []) ∷ enters 2 (b'a' ∷ []) ∷ enters 3 (b'b' ∷ []) ∷ leaves 1 ∷ [])
        new_admission
      ≡ ok s)
    × IsExclusive s
claims-IsExclusive_example =
    claims-IsExclusive ascii
      (enters 1 (b'A' ∷ []) ∷ enters 2 (b'a' ∷ []) ∷ enters 3 (b'b' ∷ []) ∷ leaves 1 ∷ [])

-- The two spellings of one printer meet.
second_is_refused :
    happen ascii (enters 1 (b'A' ∷ []) ∷ enters 2 (b' ' ∷ b'a' ∷ []) ∷ []) new_admission
    ≡ ok (record { claimed_addresses = (b'a' ∷ []) ∷ []; bodies = (1, b'a' ∷ []) ∷ [] })
unfolding happen
second_is_refused = refl

-- "0A:0b:0c:0d:0e:0f"
abbrev upper : Address
upper =
    b'0' ∷ b'A' ∷ b':' ∷ b'0' ∷ b'b' ∷ b':' ∷ b'0' ∷ b'c' ∷ b':' ∷ b'0' ∷ b'd' ∷ b':' ∷ b'0' ∷ b'e'
    ∷ b':' ∷ b'0' ∷ b'f' ∷ []

canonical_device_address-spellings_example :
    canonical_device_address ascii upper
    ≡ ok (
        unmarked
          (b'0', b'a')
          ((b'0', b'b') ∷ (b'0', b'c') ∷ (b'0', b'd') ∷ (b'0', b'e') ∷ (b'0', b'f') ∷ []))
unfolding left_stripped right_stripped marked
canonical_device_address-spellings_example =
    canonical_device_address-spellings ascii upper (b'0', b'a') (b'0', b'b') (b'0', b'c')
      (b'0', b'd') (b'0', b'e') (b'0', b'f')
      (
        (refl, refl),
        ((refl, refl), ((refl, refl), ((refl, refl), ((refl, refl), ((refl, refl), tt))))),
      )
      (inl refl)

plan_refused : make_plan (1 ∷ []) (write_row ∷ ask ∷ []) ≡ err payload_mismatch
unfolding make_plan
plan_refused = refl

plan_streamed : stream (1 ∷ []) ≡ ok (record { payload = 1 ∷ []; steps = [] })
unfolding stream
plan_streamed = refl

plan_of_steps :
    sequence (write_row ∷ ask ∷ [])
    ≡ ok (record { payload = 7 ∷ 8 ∷ []; steps = write_row ∷ ask ∷ [] })
unfolding sequence
plan_of_steps = refl
