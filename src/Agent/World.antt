-- ===== src/Agent/World.antt =====
-- The state of a run of packages/core/src/agent-runtime.ts, its errors, and the steps that its code
-- is made of. Events of packages/core/src/events.ts are logged newest first; those of the budget are
-- in its guard. What the provider streams, what the hosts of tools answer and how tokens are counted
-- are parameters; so is the abort signal, the list of its readings to come, false past its end.
use ctrl_zebra.Prelude.{
  ℕ, zero, suc, ◌-◌, Bool, true, false, List, [], ◌∷◌, Option, none, some, Result, ok, err,
  if◌then◌else◌, length,
}
use ctrl_zebra.Prelude.Steps.{Steps}
use ctrl_zebra.Numbers.{JsNumber}
use ctrl_zebra.Text.{Text}
use ctrl_zebra.Messages.{ToolCall, ToolResult, ModelMessage}
use ctrl_zebra.Session.{
  SessionStatus, SessionStateMachine, InvalidSessionStatusTransitionError, transition_to,
}
use ctrl_zebra.Budget.Usage.{TokenUsage, RawTokenUsage}
use ctrl_zebra.Budget.Run.{BudgetError, RunTokenBudgetConfiguration}
use ctrl_zebra.Budget.Run.Guard.{
  RunTokenBudgetGuard, AbortReadings, Guarded, guard_estimate, guard_usage,
}
use ctrl_zebra.History.{HistoryError}
use ctrl_zebra.History.Validate.{MessageSchema}
use ctrl_zebra.Repetition.{Spelling, ToolRepetitionDetector}
use ctrl_zebra.Retry.{ProviderError}
use ctrl_zebra.Tools.Execution.Types.{Host}
use ctrl_zebra.Tools.Execution.Monad.{RunError, Action}

-- `FinishReason` and `ModelEvent` of packages/core/src/model-gateway.ts.
pub data FinishReason : Type 0 where
  stop tool_calls length_limit content_filter other : FinishReason

pub data ModelEvent : Type 0 where
  text_delta : Text → ModelEvent
  reasoning_start : ℕ → ModelEvent
  reasoning_delta : ℕ → Text → ModelEvent
  reasoning_end : ℕ → ModelEvent
  tool_call : ToolCall → ModelEvent
  usage : RawTokenUsage → ModelEvent
  finish : FinishReason → ModelEvent

-- A stream of the provider: its events, and the error that it throws after them, if any.
pub record ProviderStream : Type 0 where
  pub events : List ModelEvent
  pub failure : Option ProviderError

pub data AgentEvent : Type 0 where
  text_shown : Text → AgentEvent
  reasoning_started reasoning_ended : ℕ → AgentEvent
  reasoning_shown : ℕ → Text → AgentEvent
  usage_reported : TokenUsage → AgentEvent
  tool_pending : ToolCall → AgentEvent
  tool_finished : ToolCall → ToolResult → AgentEvent
  tool_action : Action → AgentEvent

pub data RecoveryFailure : Type 0 where
  no_reduction retry_limit : RecoveryFailure

pub data AgentError : Type 0 where
  aborted : AgentError
  provider : ProviderError → AgentError
  malformed_reasoning open_reasoning invalid_usage unexpected_tool_call second_tool_call :
      AgentError
  tool_steps_exceeded tool_repetition : AgentError
  history : HistoryError → AgentError
  recovery_exhausted : RecoveryFailure → AgentError
  empty_response : Bool → AgentError
  budget : BudgetError → AgentError
  invalid_transition : InvalidSessionStatusTransitionError → AgentError
  tool : RunError → AgentError
  preparation : ℕ → AgentError
  out_of_rounds : AgentError

-- The variables of `ModelTurnStream.stream`. A block that the provider names has a number here.
pub record TurnState : Type 0 where
  pub tool_call : Option ToolCall
  pub has_meaningful_text : Bool
  pub finish_reason : Option FinishReason
  pub emitted_event : Bool
  pub reasoning_blocks : List (ℕ × ℕ)
  pub open_reasoning_block : Option ℕ
  pub usage_seen : Bool

pub record RunWorld : Type 0 where
  pub session : SessionStateMachine
  pub log : List AgentEvent
  pub readings : List Bool
  pub guard : RunTokenBudgetGuard
  pub detector : ToolRepetitionDetector
  pub next_reasoning_block : ℕ
  pub streams : ℕ
  pub turn : TurnState

-- The options of the runtime and what it is given: `stream` by the number of streams so far and the
-- messages sent, `host` by the number of tool steps so far and the call; `loaded` and `external` are
-- the outcomes of loading the history and of projecting the external context, an error being a number.
pub record Runtime : Type 0 where
  pub stream : ℕ → List ModelMessage → ProviderStream
  pub host : ℕ → ToolCall → Host
  pub count : ModelMessage → JsNumber
  pub spelling : Spelling
  pub max_tool_steps : ℕ
  pub history_token_budget : ℕ
  pub run_token_budget : Option RunTokenBudgetConfiguration
  pub offer_tools : Bool
  pub run_id : ℕ
  pub threshold : ℕ
  pub schema : MessageSchema
  pub loaded : Result ℕ (List (Option ModelMessage))
  pub external : Result ℕ (List ModelMessage)

abbrev pub R : Type 0 → Type 0
R A = Steps RunWorld AgentError A

abbrev pub read_signal : List Bool → RunWorld → RunWorld × Result AgentError (Unit {0})
read_signal [] w = (w, ok tt)
read_signal (true ∷ later) w = (record w { readings = later }, err aborted)
read_signal (false ∷ later) w = (record w { readings = later }, ok tt)

unfoldable pub check_abort : R (Unit {0})
check_abort w = read_signal w.readings w

unfoldable pub emit : AgentEvent → R (Unit {0})
emit e w = (record w { log = e ∷ w.log }, ok tt)

abbrev pub moved :
    RunWorld
    → Result InvalidSessionStatusTransitionError SessionStateMachine
    → RunWorld × Result AgentError (Unit {0})
moved w (ok m) = (record w { session = m }, ok tt)
moved w (err e) = (w, err (invalid_transition e))

unfoldable pub transition : SessionStatus → R (Unit {0})
transition s w = moved w (transition_to s w.session)

abbrev pub reading : List Bool → Bool
reading [] = false
reading (b ∷ bs) = b

abbrev pub later : List Bool → List Bool
later [] = []
later (b ∷ bs) = bs

-- The readings that the guard makes: on entry, and after it emitted a snapshot.
abbrev pub guard_readings : List Bool → AbortReadings
guard_readings bs = record { on_entry = reading bs; after_emit = reading (later bs) }

abbrev pub drop_readings : ℕ → List Bool → List Bool
drop_readings zero bs = bs
drop_readings (suc n) bs = drop_readings n (later bs)

abbrev pub readings_used : RunTokenBudgetGuard → RunTokenBudgetGuard → Bool → ℕ
readings_used g g' entered = elim g.budget [
  | none ↦ 0
  | some b ↦ (if entered then 1 else suc (length g'.emitted - length g.emitted))
]

abbrev pub as_agent_error : BudgetError → AgentError
as_agent_error BudgetError.aborted = aborted
as_agent_error e = budget e

abbrev pub told : Result BudgetError (Unit {0}) → Result AgentError (Unit {0})
told (ok u) = ok u
told (err e) = err (as_agent_error e)

abbrev pub guarded_step : (AbortReadings → RunTokenBudgetGuard → Guarded) → R (Unit {0})
guarded_step observe w =
    let signal = guard_readings w.readings in
    let r = observe signal w.guard in
    (
      record w {
        guard = r.0;
        readings = drop_readings (readings_used w.guard r.0 signal.on_entry) w.readings;
      },
      told r.1,
    )

unfoldable pub observe_estimate : JsNumber → R (Unit {0})
observe_estimate tokens = guarded_step (λ signal g. guard_estimate signal tokens g)

unfoldable pub observe_usage : RawTokenUsage → R (Unit {0})
observe_usage raw = guarded_step (λ signal g. guard_usage signal raw g)
