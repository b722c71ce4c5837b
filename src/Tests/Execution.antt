-- ===== src/Tests/Execution.antt =====
-- Runs of catlabel/printing/step_execution.py at concrete inputs.
use catlabel.Prelude.{◌≡◌, refl, [], ◌∷◌, true, false, none, some, ok, err, leb, if◌then◌else◌}
use catlabel.Prelude.Int.{pos}
use catlabel.Protocol.Steps.{ProtocolStep, query, send, ok_reply, standard, bulk}
use catlabel.Printing.Execution.{
  Session, Matchers, control_query, bulk_payload, bulk_route_unavailable, execute_protocol_step,
}

-- A printer that answers `OK` from the fifth unit on, and takes one unit for it.
abbrev slow_printer : Session
slow_printer = record {
  can_send_control_packet = true;
  can_send_bulk_payload = true;
  can_query_control_packet = true;
  can_send_control_packet_wait_notification = false;
  is_sent = λ now request. false;
  reply_to = λ now request. if leb 5 now then some (79 ∷ 75 ∷ []) else none;
  duration = λ now request. 1;
}

abbrev no_matchers : Matchers
no_matchers = record { complete = λ matcher reply. false; matches = λ matcher. none }

abbrev ask_again : ProtocolStep
ask_again = record {
  label = "status";
  bytes = 9 ∷ [];
  operation = query;
  expect = ok_reply;
  timeout_sec = none;
  include_in_payload = false;
  reply_matcher = none;
  repeat_interval_sec = some (pos 2);
  repeat_timeout_sec = some (pos 10);
  write_channel = standard;
  reply_required = true;
}

asked_three_times :
    execute_protocol_step slow_printer no_matchers 11 0 3 ask_again
    ≡ some (record {
      answer = ok (some (79 ∷ 75 ∷ []));
      requests =
          control_query (9 ∷ []) 3 ∷ control_query (9 ∷ []) 3 ∷ control_query (9 ∷ []) 3 ∷ [];
      now = 7;
    })
unfolding execute_protocol_step
asked_three_times = refl

bulk_not_sent :
    execute_protocol_step slow_printer no_matchers 0 0 3
      (record ask_again { operation = send; write_channel = bulk })
    ≡ some (record {
      answer = err bulk_route_unavailable;
      requests = bulk_payload (9 ∷ []) 3 ∷ [];
      now = 1;
    })
unfolding execute_protocol_step
bulk_not_sent = refl
