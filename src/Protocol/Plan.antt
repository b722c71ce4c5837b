-- ===== src/Protocol/Plan.antt =====
-- catlabel/protocol/plan.py.
use catlabel.Prelude.{Bytes, List, [], not, ◌&&◌, Result, ok, ◌>>◌, raise_if, bytes_eq}
use catlabel.Protocol.Steps.{ProtocolStep, StepError, payload_mismatch, steps_payload, is_empty}

pub record ProtocolPlan : Type 0 where
  pub payload : Bytes
  pub steps : List ProtocolStep

-- `ProtocolPlan.__post_init__`
unfoldable pub make_plan : Bytes → List ProtocolStep → Result StepError ProtocolPlan
make_plan payload steps = do
  raise_if (not (is_empty steps) && not (bytes_eq payload (steps_payload steps))) payload_mismatch
  ok (record { payload = payload; steps = steps })

-- `ProtocolPlan.stream`
unfoldable pub stream : Bytes → Result StepError ProtocolPlan
unfolding make_plan
stream payload = make_plan payload []

-- `ProtocolPlan.sequence`
unfoldable pub sequence : List ProtocolStep → Result StepError ProtocolPlan
unfolding make_plan
sequence steps = make_plan (steps_payload steps) steps
