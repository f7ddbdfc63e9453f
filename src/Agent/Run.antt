-- ===== src/Agent/Run.antt =====
-- `AgentRuntime.run` of packages/core/src/agent-runtime.ts with the recovery of
-- packages/core/src/context-overflow-recovery.ts. The owner of the run is a number. An error that is
-- the signal's reason is thrown only once the signal is aborted, so the test of `isCancellation` is
-- on the error.
use ctrl_zebra.Prelude.{
  ℕ, zero, suc, Bool, not, ◌||◌, List, [], ◌∷◌, ◌++◌, map, Option, none, some, Result, ok, err, leb,
  ltb, ◌==◌, if◌then◌else◌,
}
use ctrl_zebra.Prelude.Steps.{return, raise, modify, lift, ◌>>=◌, ◌>>◌}
use ctrl_zebra.Numbers.{nonneg}
use ctrl_zebra.Text.{Text}
use ctrl_zebra.Messages.{ToolCall, ToolResult, MessageRole, ModelMessage}
use ctrl_zebra.Session.{
  SessionStatus, SessionStateMachine, create, begin_run, owns_run, is_active_status, same_status,
}
use ctrl_zebra.Budget.Run.{BudgetError, budget_exceeded}
use ctrl_zebra.Budget.Run.Guard.{create_guard}
use ctrl_zebra.History.{HistoryError, prune_model_history}
use ctrl_zebra.History.Estimate.{estimate_model_messages}
use ctrl_zebra.History.Validate.{validate_model_history}
use ctrl_zebra.Repetition.{new_detector}
use ctrl_zebra.Tools.Execution.{execute_tool_call}
use ctrl_zebra.Tools.Execution.Types.{Request}
use ctrl_zebra.Tools.Execution.Monad.{RunError}
use ctrl_zebra.Agent.World.{
  tool_finished, tool_action, AgentError, aborted, history, recovery_exhausted, no_reduction,
  retry_limit, empty_response, budget, invalid_transition, tool, preparation, out_of_rounds,
  RunWorld, Runtime, R, check_abort, emit, transition, moved, observe_estimate,
}
use ctrl_zebra.Agent.Turn.{ModelTurnStreamResult, response, truncated, overflow, stream_turn}

abbrev pub as_history : {A : Type 0} → Result HistoryError A → Result AgentError A
as_history (ok a) = ok a
as_history (err e) = err (history e)

pub data ModelStepResult : Type 0 where
  responded : Option ToolCall → Bool → ModelStepResult
  cut_off : ModelStepResult

-- A step of the run's model: what it gives, and the messages that it was given for.
abbrev pub ModelStep : Type 0
ModelStep = ModelStepResult × List ModelMessage

abbrev pub observe_messages : Runtime → List ModelMessage → R (Unit {0})
observe_messages rt messages = do
  tokens ← lift (as_history (estimate_model_messages rt.count messages))
  observe_estimate (nonneg tokens)

-- `retry` in `#streamWithOverflowRecovery`, with the end of `recoverFromContextOverflow`.
abbrev pub retried : List ModelMessage → ModelTurnStreamResult → R ModelStep
retried messages overflow = raise (recovery_exhausted retry_limit)
retried messages truncated = return (cut_off, messages)
retried messages (response call meaningful) = return (responded call meaningful, messages)

abbrev pub retry_with : Runtime → ℕ → List ModelMessage → R ModelStep
retry_with rt tool_steps messages = do
  check_abort
  observe_messages rt messages
  r ← stream_turn rt messages tool_steps
  check_abort
  retried messages r

-- `recoverFromContextOverflow`: one retry, with fewer messages.
unfoldable pub recover_from_context_overflow : Runtime → List ModelMessage → ℕ → R ModelStep
unfolding check_abort observe_estimate
recover_from_context_overflow rt messages tool_steps = do
  check_abort
  pruned ←
      lift (as_history (prune_model_history messages (nonneg rt.history_token_budget) rt.count))
  initial ← lift (as_history (estimate_model_messages rt.count messages))
  if not pruned.pruned || leb initial pruned.estimated_tokens
      then raise (recovery_exhausted no_reduction)
      else retry_with rt tool_steps pruned.messages

abbrev pub unless_overflow : Runtime → List ModelMessage → ℕ → ModelTurnStreamResult → R ModelStep
unless_overflow rt messages tool_steps overflow =
    recover_from_context_overflow rt messages tool_steps
unless_overflow rt messages tool_steps truncated = return (cut_off, messages)
unless_overflow rt messages tool_steps (response call meaningful) =
    return (responded call meaningful, messages)

unfoldable pub stream_with_overflow_recovery : Runtime → List ModelMessage → ℕ → R ModelStep
unfolding observe_estimate
stream_with_overflow_recovery rt messages tool_steps = do
  observe_messages rt messages
  r ← stream_turn rt messages tool_steps
  unless_overflow rt messages tool_steps r

abbrev pub as_tool_error : RunError → AgentError
as_tool_error RunError.aborted = aborted
as_tool_error (RunError.invalid_transition e) = invalid_transition e
as_tool_error e = tool e

abbrev pub returned_tool : {A : Type 0} → Result RunError A → Result AgentError A
returned_tool (ok a) = ok a
returned_tool (err e) = err (as_tool_error e)

-- `ToolCallExecution.execute`, on the session, the signal and the log of the run.
unfoldable pub execute_in_run : Runtime → ℕ → ToolCall → R ToolResult
execute_in_run rt tool_steps call w =
    let request : Request = record {
      session_id = w.session.session_id;
      run_id = rt.run_id;
      call = call;
    } in
    let r =
      execute_tool_call request (rt.host tool_steps call)
        (record { session = w.session; log = []; readings = w.readings }) in
    (
      record w {
        session = r.0.session;
        readings = r.0.readings;
        log = map tool_action r.0.log ++ w.log;
      },
      returned_tool r.1,
    )

-- The end of a round that had a tool call: the status goes back to `streaming`.
unfoldable pub resume_streaming : R (Unit {0})
unfolding check_abort transition
resume_streaming w =
    if same_status w.session.status SessionStatus.executing_tool
    then (do transition SessionStatus.streaming; check_abort) w
    else return tt w

unfoldable pub run_tool : Runtime → ℕ → List ModelMessage → ToolCall → R (List ModelMessage)
unfolding execute_in_run resume_streaming check_abort emit observe_estimate
run_tool rt tool_steps messages call = do
  result ← execute_in_run rt tool_steps call
  check_abort
  emit (tool_finished call result)
  check_abort
  observe_estimate (rt.count (ModelMessage.tool_result result))
  check_abort
  resume_streaming
  return (messages ++ ModelMessage.tool_call call ∷ ModelMessage.tool_result result ∷ [])

-- What a round of the loop does with its response, `next` being the rounds after it.
abbrev pub after_response :
    Runtime → ℕ → (List ModelMessage → R (Unit {0})) → ModelStep → R (Unit {0})
after_response rt tool_steps next (cut_off, messages) = do
  check_abort
  transition SessionStatus.truncated
after_response rt tool_steps next (responded none meaningful, messages) =
    if meaningful
    then (do check_abort; transition SessionStatus.completed)
    else raise (empty_response (ltb 0 tool_steps))
after_response rt tool_steps next (responded (some call) meaningful, messages) = do
  messages' ← run_tool rt tool_steps messages call
  next messages'

-- The `while` loop, for at most a number of rounds.
unfoldable pub run_rounds : Runtime → ℕ → ℕ → List ModelMessage → R (Unit {0})
unfolding stream_with_overflow_recovery run_tool check_abort transition
run_rounds rt zero tool_steps messages = raise out_of_rounds
run_rounds rt (suc rounds) tool_steps messages = do
  step ← stream_with_overflow_recovery rt messages tool_steps
  after_response rt tool_steps (run_rounds rt rounds (suc tool_steps)) step

abbrev pub prepared : {A : Type 0} → Result ℕ A → Result AgentError A
prepared (ok a) = ok a
prepared (err e) = err (preparation e)

unfoldable pub load_history : Runtime → R (List ModelMessage)
unfolding check_abort
load_history rt = do
  check_abort
  loaded ← lift (prepared rt.loaded)
  check_abort
  lift (as_history (validate_model_history rt.schema loaded))

-- `slice(0, -1)`
abbrev pub drop_last : {A : Type 0} → List A → List A
drop_last [] = []
drop_last (x ∷ []) = []
drop_last (x ∷ y ∷ ys) = x ∷ drop_last (y ∷ ys)

unfoldable pub prepare_messages : Runtime → List ModelMessage → Text → R (List ModelMessage)
unfolding check_abort
prepare_messages rt loaded content = do
  check_abort
  let latest_user = ModelMessage.text MessageRole.user content
  pruned ← lift (
      as_history (
        prune_model_history (loaded ++ latest_user ∷ []) (nonneg rt.history_token_budget) rt.count))
  check_abort
  external ← lift (prepared rt.external)
  check_abort
  return (drop_last pruned.messages ++ external ++ latest_user ∷ [])

abbrev pub as_budget : {A : Type 0} → Result BudgetError A → Result AgentError A
as_budget (ok a) = ok a
as_budget (err e) = err (budget e)

-- What is new in a run: its guard, and the variables of its `ModelTurnStream`.
abbrev pub start_turns : Runtime → R (Unit {0})
start_turns rt =
    modify (λ w. record w { detector = new_detector rt.threshold; next_reasoning_block = 1 })

unfoldable pub set_guard : Runtime → R (Unit {0})
set_guard rt = do
  guard ← lift (as_budget (create_guard rt.run_token_budget))
  modify (λ w. record w { guard = guard })

-- The `try`, after `beginRun`.
unfoldable pub run_begun : Runtime → ℕ → Text → R (Unit {0})
unfolding set_guard load_history prepare_messages run_rounds check_abort transition
run_begun rt rounds content = do
  check_abort
  set_guard rt
  check_abort
  loaded ← load_history rt
  check_abort
  messages ← prepare_messages rt loaded content
  check_abort
  transition SessionStatus.streaming
  check_abort
  start_turns rt
  run_rounds rt rounds 0 messages

abbrev pub begin_step : ℕ → R (Unit {0})
begin_step owner w = moved w (begin_run owner w.session)

-- A transition that the `catch` makes where the status is active; a throw of it would be thrown on.
abbrev pub stop_at : SessionStatus → R (Unit {0})
stop_at status w = if is_active_status w.session.status then transition status w else return tt w

abbrev pub settle : AgentError → R (Unit {0})
settle aborted = stop_at SessionStatus.cancelled
settle (budget (budget_exceeded s)) = stop_at SessionStatus.budget_exceeded
settle e = do stop_at SessionStatus.failed; raise e

abbrev pub catch_error :
    ℕ → RunWorld × Result AgentError (Unit {0}) → RunWorld × Result AgentError (Unit {0})
catch_error owner (w, ok u) = (w, ok u)
catch_error owner (w, err e) = if not (owns_run w.session owner) then (w, err e) else settle e w

-- `AgentRuntime.run` on the Session of the runtime.
unfoldable pub run : Runtime → ℕ → ℕ → Text → R (Unit {0})
unfolding run_begun transition
run rt rounds owner content w =
    catch_error owner ((do begin_step owner; run_begun rt rounds content) w)

-- `#getSession`: a Session of its own at the first run, and no other later; an error is the identifier
-- that the runtime has.
unfoldable pub get_session :
    Option SessionStateMachine → ℕ → SessionStatus → Result ℕ SessionStateMachine
get_session none session_id initial = ok (create session_id initial)
get_session (some s) session_id initial =
    if s.session_id == session_id then ok s else err s.session_id
