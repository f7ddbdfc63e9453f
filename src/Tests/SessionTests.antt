-- ===== src/Tests/SessionTests.antt =====
-- The Session state machine at concrete calls.
use ctrl_zebra.Prelude.{◌≡◌, refl, inl, List, [], ◌∷◌, none}
use ctrl_zebra.Session.{SessionStatus, SessionStateMachine, create, begin_run, transition_to}
use ctrl_zebra.Session.Invariant.{
  Call, begin, transition, step, run_calls, after, IsOwnedExactly, run_calls-IsOwnedExactly,
  active-stops, terminal-run_calls,
}
use ctrl_zebra.Session.Traces.{Chain, events-Chain}

abbrev tool_run : List Call
tool_run =
    begin 7
    ∷ transition SessionStatus.streaming
    ∷ transition SessionStatus.executing_tool
    ∷ transition SessionStatus.streaming
    ∷ transition SessionStatus.completed
    ∷ []

tool_run_completes :
    (run_calls (create 1 SessionStatus.idle) tool_run).status ≡ SessionStatus.completed
unfolding run_calls step create begin_run transition_to
tool_run_completes = refl

run_calls-IsOwnedExactly_example :
    IsOwnedExactly
      (run_calls (create 1 SessionStatus.idle) (begin 7 ∷ transition SessionStatus.streaming ∷ []))
unfolding create
run_calls-IsOwnedExactly_example =
    run_calls-IsOwnedExactly (create 1 SessionStatus.idle)
      (begin 7 ∷ transition SessionStatus.streaming ∷ []) (tt, (λ e. cc, tt)) refl

abbrev streaming_session : SessionStateMachine
streaming_session = record {
  session_id = 1;
  status = SessionStatus.streaming;
  run_owner = none;
  events = [];
}

active-stops_example :
    (after streaming_session (transition_to SessionStatus.cancelled streaming_session)).status
    ≡ SessionStatus.cancelled
active-stops_example = (active-stops streaming_session SessionStatus.cancelled refl (inl refl)).1

abbrev failed_session : SessionStateMachine
failed_session = record streaming_session { status = SessionStatus.failed }

terminal-run_calls_example :
    run_calls failed_session (transition SessionStatus.streaming ∷ []) ≡ failed_session
terminal-run_calls_example =
    terminal-run_calls failed_session (transition SessionStatus.streaming ∷ []) (tt, tt) refl

events-Chain_example :
    Chain 1 SessionStatus.idle
      (run_calls (create 1 SessionStatus.idle) tool_run).events
      (run_calls (create 1 SessionStatus.idle) tool_run).status
events-Chain_example = events-Chain 1 SessionStatus.idle tool_run
