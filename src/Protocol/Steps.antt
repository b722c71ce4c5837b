-- ===== src/Protocol/Steps.antt =====
-- catlabel/protocol/steps.py and the `ProtocolJob` of catlabel/protocol/job.py. A reply matcher is
-- known by its identity, as `id` tells it. Times are whole units, and no time is NaN.
use Prim.Native.String.{String}
use catlabel.Prelude.{
  ℕ, ◌==◌, Bytes, List, [], ◌∷◌, ◌++◌, Bool, true, false, ◌&&◌, ◌||◌, not, Option, none, some,
  Result, ok, ◌>>◌, raise_if, bytes_eq, take, if◌then◌else◌,
}
use catlabel.Prelude.Int.{ℤ, is_negative, is_nonpositive}

pub data WriteChannel : Type 0 where
  standard control bulk : WriteChannel

pub data StepOperation : Type 0 where
  send query wait : StepOperation

pub data ReplyExpectation : Type 0 where
  anything ok_reply status_zero ok_or_aa : ReplyExpectation

-- The `ValueError`s of the two files.
pub data StepError : Type 0 where
  channel_not_standard negative_timeout repeat_interval_not_positive : StepError
  negative_repeat_timeout payload_mismatch : StepError

pub record ProtocolStep : Type 0 where
  pub label : String
  pub bytes : Bytes
  pub operation : StepOperation
  pub expect : ReplyExpectation
  pub timeout_sec : Option ℤ
  pub include_in_payload : Bool
  pub reply_matcher : Option ℕ
  pub repeat_interval_sec : Option ℤ
  pub repeat_timeout_sec : Option ℤ
  pub write_channel : WriteChannel
  pub reply_required : Bool

abbrev is_send : StepOperation → Bool
is_send send = true
is_send _ = false

abbrev is_standard : WriteChannel → Bool
is_standard standard = true
is_standard _ = false

-- `value is not None and test(value)`
abbrev given : (ℤ → Bool) → Option ℤ → Bool
given test none = false
given test (some value) = test value

-- `ProtocolStep.__post_init__`
unfoldable pub make_step : ProtocolStep → Result StepError ProtocolStep
make_step step = do
  raise_if (not (is_send step.operation) && not (is_standard step.write_channel))
      channel_not_standard
  raise_if (given is_negative step.timeout_sec) negative_timeout
  raise_if (given is_nonpositive step.repeat_interval_sec) repeat_interval_not_positive
  raise_if (given is_negative step.repeat_timeout_sec) negative_repeat_timeout
  ok step

-- `ProtocolStep.send`, `query` and `wait`
unfoldable pub send_step : String → Bytes → WriteChannel → Result StepError ProtocolStep
unfolding make_step
send_step label bytes write_channel = make_step (record {
  label = label;
  bytes = bytes;
  operation = send;
  expect = anything;
  timeout_sec = none;
  include_in_payload = true;
  reply_matcher = none;
  repeat_interval_sec = none;
  repeat_timeout_sec = none;
  write_channel = write_channel;
  reply_required = true;
})

unfoldable pub query_step :
    (label : String) (bytes : Bytes) (expect : ReplyExpectation) (timeout_sec : Option ℤ)
    (include_in_payload : Bool) (reply_matcher : Option ℕ)
    (repeat_interval_sec repeat_timeout_sec : Option ℤ) (reply_required : Bool)
    → Result StepError ProtocolStep
unfolding make_step
query_step label bytes expect timeout_sec include_in_payload reply_matcher repeat_interval_sec
      repeat_timeout_sec reply_required =
    make_step (record {
      label = label;
      bytes = bytes;
      operation = query;
      expect = expect;
      timeout_sec = timeout_sec;
      include_in_payload = include_in_payload;
      reply_matcher = reply_matcher;
      repeat_interval_sec = repeat_interval_sec;
      repeat_timeout_sec = repeat_timeout_sec;
      write_channel = standard;
      reply_required = reply_required;
    })

unfoldable pub wait_step : String → ℕ → Option ℤ → Bool → Result StepError ProtocolStep
unfolding make_step
wait_step label reply_matcher timeout_sec reply_required = make_step (record {
  label = label;
  bytes = [];
  operation = wait;
  expect = anything;
  timeout_sec = timeout_sec;
  include_in_payload = false;
  reply_matcher = some reply_matcher;
  repeat_interval_sec = none;
  repeat_timeout_sec = none;
  write_channel = standard;
  reply_required = reply_required;
})

-- `reply.replace(b"\x00", b"")` and `reply.lstrip(b"\x00")`
abbrev pub without_zeros : Bytes → Bytes
without_zeros [] = []
without_zeros (b ∷ reply) = let rest = without_zeros reply in if b == 0 then rest else b ∷ rest

abbrev pub strip_zeros : Bytes → Bytes
strip_zeros [] = []
strip_zeros (b ∷ reply) = let rest = strip_zeros reply in if b == 0 then rest else b ∷ reply

abbrev pub starts_with_ok : Bytes → Bool
starts_with_ok reply = bytes_eq (take 2 reply) (b'O' ∷ b'K' ∷ [])

unfoldable pub reply_matches_expectation : ReplyExpectation → Option Bytes → Bool
reply_matches_expectation anything reply = true
reply_matches_expectation _ none = false
reply_matches_expectation _ (some []) = false
reply_matches_expectation ok_reply (some (b ∷ reply)) = starts_with_ok (without_zeros (b ∷ reply))
reply_matches_expectation status_zero (some (b ∷ reply)) = b == 0
reply_matches_expectation ok_or_aa (some (b ∷ reply)) =
    starts_with_ok (without_zeros (b ∷ reply))
    || bytes_eq (take 1 (strip_zeros (b ∷ reply))) (0xAA ∷ [])

pub record ProtocolJob : Type 0 where
  pub payload : Bytes
  pub steps : List ProtocolStep
  pub wait_for_completion : Bool

-- `b"".join(step.data for step in steps if step.include_in_payload)`
abbrev pub steps_payload : List ProtocolStep → Bytes
steps_payload [] = []
steps_payload (step ∷ steps) =
    let rest = steps_payload steps in if step.include_in_payload then step.bytes ++ rest else rest

abbrev pub is_empty : List ProtocolStep → Bool
is_empty [] = true
is_empty (step ∷ steps) = false

-- `ProtocolJob.__init__`
unfoldable pub make_job : Option Bytes → List ProtocolStep → Bool → Result StepError ProtocolJob
make_job none steps wait_for_completion = ok (record {
  payload = steps_payload steps;
  steps = steps;
  wait_for_completion = wait_for_completion;
})
make_job (some payload) steps wait_for_completion = do
  raise_if (not (is_empty steps) && not (bytes_eq payload (steps_payload steps))) payload_mismatch
  ok (record { payload = payload; steps = steps; wait_for_completion = wait_for_completion })
