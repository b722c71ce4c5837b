-- ===== src/Printing/Execution/Queries.antt =====
-- The repeated queries of catlabel/printing/step_execution.py.
use catlabel.Prelude.{ℕ, ◌-◌, ◌≤◌, ◌≡◌, ◌⊎◌, Bytes, List, [], ◌++◌, true, Option, ok, err, length}
use catlabel.Protocol.Steps.{ProtocolStep}
use catlabel.Printing.Execution.{
  Session, Matchers, Outcome, ExecutionError, reply_matches_for, query_once, Request,
}

module _ (session : Session) (m : Matchers) (step : ProtocolStep) where
  -- A query asks once at most, and the clock does not go back.
  record IsOneQuery (now : ℕ) (first : Outcome) : Type 0 where
    pub asked_once : length first.requests ≤ 1
    pub onward : now ≤ first.now

  -- The last query of a loop, after the earlier ones: its answer is the loop's, and no time goes back.
  pub record IsLastQuery (now : ℕ) (outcome : Outcome) : Type 0 where
    pub asked_at : ℕ
    pub call_timeout : ℕ
    pub earlier : List Request
    pub in_order :
        outcome.requests ≡ earlier ++ (query_once session asked_at call_timeout true step).requests
    pub same_answer : outcome.answer ≡ (query_once session asked_at call_timeout true step).answer
    pub since : now ≤ asked_at
    pub until : (query_once session asked_at call_timeout true step).now ≤ outcome.now

  -- How a query that is repeated from a time up to a deadline ends, with a last reply from before:
  -- for want of a route, with a reply that matches, or at the deadline; the answer is that of its last
  -- query, or the last reply where it asks nothing; and it asks once in each unit at most.
  pub record IsAnswered (now deadline : ℕ) (before : Option Bytes) (outcome : Outcome)
      : Type 0 where
    pub answered :
        ((e : ExecutionError) × (outcome.answer ≡ err e))
        ⊎ ((reply : Option Bytes) × (outcome.answer ≡ ok reply)
            × ((reply_matches_for m step reply ≡ true) ⊎ (deadline ≤ outcome.now)))
    pub last_query :
        ((outcome.requests ≡ []) × (outcome.answer ≡ ok before)) ⊎ IsLastQuery now outcome
    pub requests_bounded : length outcome.requests ≤ deadline - now
    pub forward : now ≤ outcome.now
