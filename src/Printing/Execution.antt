-- ===== src/Printing/Execution.antt =====
-- catlabel/printing/step_execution.py. A session is what it can do, what its writes report and how
-- it answers; the exceptions that it raises itself are not modelled, nor is what is logged. A reply
-- matcher is known by its identity. The clock reads whole units, moves while the session answers,
-- and a sleep moves it by its length.
pub mod Queries
use catlabel.Prelude.{
  ℕ, zero, suc, ◌+◌, ◌-◌, ◌==◌, min, leb, Bytes, List, [], ◌∷◌, ◌++◌, Bool, true, false, ◌&&◌, not,
  Option, none, some, Result, ok, err, if◌then◌else◌,
}
use catlabel.Prelude.Option
use catlabel.Prelude.Int.{ℤ, pos, negsuc}
use catlabel.Protocol.Steps.{
  ProtocolStep, StepOperation, send, query, wait, WriteChannel, standard, control, bulk,
  ReplyExpectation, anything, reply_matches_expectation,
}

-- What a session is asked to do.
pub data Request : Type 0 where
  standard_payload : Bytes → Request
  control_packet bulk_payload : Bytes → ℕ → Request
  control_query wait_query : Bytes → ℕ → Request
  notification : ℕ → Request

-- `RuntimeSessionApi`: the routes, what a control or bulk write reports, and the reply to a request at
-- a time, with the time that it takes.
pub record Session : Type 0 where
  pub can_send_control_packet : Bool
  pub can_send_bulk_payload : Bool
  pub can_query_control_packet : Bool
  pub can_send_control_packet_wait_notification : Bool
  pub is_sent : ℕ → Request → Bool
  pub reply_to : ℕ → Request → Option Bytes
  pub duration : ℕ → Request → ℕ

-- `ProtocolReplyMatcher`, by its identity.
pub record Matchers : Type 0 where
  pub complete : ℕ → Bytes → Bool
  pub matches : ℕ → Option (Option Bytes → Bool)

pub data ExecutionError : Type 0 where
  control_route_unavailable bulk_route_unavailable no_request_reply : ExecutionError

-- A step's end: its reply or exception, the requests that were made and the clock then.
pub record Outcome : Type 0 where
  pub answer : Result ExecutionError (Option Bytes)
  pub requests : List Request
  pub now : ℕ

-- A time that `ProtocolStep` lets through is not negative.
abbrev pub units : ℤ → ℕ
units (pos n) = n
units (negsuc n) = 0

-- `default if value is None else value`
abbrev pub time_or : ℕ → Option ℤ → ℕ
time_or default none = default
time_or default (some t) = units t

-- `bool(reply and complete(reply))`
abbrev pub is_complete : (Bytes → Bool) → Option Bytes → Bool
is_complete test none = false
is_complete test (some []) = false
is_complete test (some (b ∷ reply)) = test (b ∷ reply)

-- `reply_complete_for(step) is not None`
abbrev pub expects_reply : ProtocolStep → Bool
expects_reply step = elim step.reply_matcher [
  | some matcher ↦ true
  | none ↦ elim step.expect [ anything ↦ false | _ ↦ true ]
]

unfoldable pub reply_matches_for : Matchers → ProtocolStep → Option Bytes → Bool
unfolding reply_matches_expectation
reply_matches_for m step reply = elim step.reply_matcher [
  | none ↦ reply_matches_expectation step.expect reply
  | some matcher ↦ elim (m.matches matcher) [
    | none ↦ is_complete (m.complete matcher) reply
    | some test ↦ test reply
  ]
]

abbrev pub query_timeout : Option ℤ → ℕ → Bool → ℕ
query_timeout none timeout limit_to_call_timeout = timeout
query_timeout (some t) timeout limit_to_call_timeout =
    if limit_to_call_timeout then min (units t) timeout else units t

-- What follows a query of the loop; `again` is the next round, with the last reply and the clock.
abbrev pub go_on :
    Matchers
    → ProtocolStep
    → (budget deadline interval : ℕ) → Outcome
    → (Option Bytes → ℕ → Option Outcome)
    → Option Outcome
go_on m step budget deadline interval first again =
    let left = min budget (deadline - first.now) in
    elim first.answer [
      | err e ↦ some first
      | ok r ↦
          if reply_matches_for m step r
          then some first
          else if left == 0
          then some first
          else Option.map
              (λ (later : Outcome). record later { requests = first.requests ++ later.requests })
              (again r (first.now + min interval left))
    ]

module _ (session : Session) where
  abbrev pub asked : ℕ → Request → Outcome
  asked now request = record {
    answer = ok (session.reply_to now request);
    requests = request ∷ [];
    now = now + session.duration now request;
  }

  abbrev pub refused : ℕ → ExecutionError → Outcome
  refused now e = record { answer = err e; requests = []; now = now }

  abbrev pub written : ℕ → Request → Outcome
  written now request = record {
    answer = ok none;
    requests = request ∷ [];
    now = now + session.duration now request;
  }

  -- A write by a channel that reports whether it was sent.
  abbrev pub routed : ℕ → Bool → Request → ExecutionError → Outcome
  routed now available request e =
      if not available
      then refused now e
      else if session.is_sent now request
      then written now request
      else record (written now request) { answer = err e }

  unfoldable pub send_by : ℕ → ℕ → ProtocolStep → Outcome
  send_by now timeout step = elim step.write_channel [
    | standard ↦ written now (standard_payload step.bytes)
    | control ↦
        routed now session.can_send_control_packet (control_packet step.bytes timeout)
          control_route_unavailable
    | bulk ↦
        routed now session.can_send_bulk_payload (bulk_payload step.bytes timeout)
          bulk_route_unavailable
  ]

  unfoldable pub execute_wait_step : ℕ → ℕ → ProtocolStep → Outcome
  execute_wait_step now timeout step =
      let wait_timeout = time_or timeout step.timeout_sec in
      if expects_reply step
      then asked now (notification wait_timeout)
      else record { answer = ok none; requests = []; now = now }

  unfoldable pub query_once : ℕ → ℕ → Bool → ProtocolStep → Outcome
  query_once now timeout limit_to_call_timeout step =
      let t = query_timeout step.timeout_sec timeout limit_to_call_timeout in
      if session.can_query_control_packet
      then asked now (control_query step.bytes t)
      else if not (expects_reply step)
      then written now (standard_payload step.bytes)
      else if session.can_send_control_packet_wait_notification
      then asked now (wait_query step.bytes t)
      else refused now no_request_reply

  -- The `while` loop, with the last reply; `none` is a loop that goes on.
  unfoldable pub query_loop :
      Matchers → ℕ → ℕ → ℕ → ℕ → ℕ → ProtocolStep → Option Bytes → ℕ → Option Outcome
  unfolding query_once reply_matches_for
  query_loop m zero timeout budget deadline interval step reply now = none
  query_loop m (suc rounds) timeout budget deadline interval step reply now =
      let remaining = min budget (deadline - now) in
      if remaining == 0
      then some (record { answer = ok reply; requests = []; now = now })
      else go_on m step budget deadline interval (query_once now (min timeout remaining) true step)
          (λ r later. query_loop m rounds timeout budget deadline interval step r later)

  unfoldable pub execute_query_step : Matchers → ℕ → ℕ → ℕ → ProtocolStep → Option Outcome
  unfolding query_loop
  execute_query_step m rounds now timeout step = elim step.repeat_interval_sec [
    | none ↦ some (query_once now timeout false step)
    | some interval ↦
        let budget = time_or timeout step.repeat_timeout_sec in
        query_loop m rounds timeout budget (now + budget) (units interval) step none now
  ]

  -- `execute_protocol_step`
  unfoldable pub execute_protocol_step : Matchers → ℕ → ℕ → ℕ → ProtocolStep → Option Outcome
  unfolding send_by execute_wait_step execute_query_step
  execute_protocol_step m rounds now timeout step = elim step.operation [
    | send ↦ some (send_by now timeout step)
    | wait ↦ some (execute_wait_step now timeout step)
    | query ↦ execute_query_step m rounds now timeout step
  ]
