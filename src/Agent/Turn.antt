-- ===== src/Agent/Turn.antt =====
-- packages/core/src/model-turn-stream.ts: one stream of the provider, its events handled one by one.
-- The variables of the method are the field `turn` of the state. The tools that are declared go to
-- the provider, which is a parameter.
use ctrl_zebra.Prelude.{
  ℕ, suc, Bool, true, false, not, ◌&&◌, ◌||◌, List, [], ◌∷◌, Option, none, some, Result, ok, err,
  leb, ◌==◌, if◌then◌else◌, is_some,
}
use ctrl_zebra.Prelude.Steps.{return, raise, modify, ◌>>◌}
use ctrl_zebra.Numbers.{JsNumber, nonneg}
use ctrl_zebra.Text.{Text}
use ctrl_zebra.Messages.{ToolCall, MessageRole, ModelMessage}
use ctrl_zebra.Budget.Usage.{TokenUsage, RawTokenUsage, parse_token_usage, has_token_usage}
use ctrl_zebra.Repetition.{observe, ToolRepetitionDetector, ToolRepetitionObservation}
use ctrl_zebra.Retry.{ProviderError, gateway_error, context_overflow}
use ctrl_zebra.Agent.World.{
  FinishReason, length_limit, ModelEvent, text_delta, reasoning_start, reasoning_delta,
  reasoning_end, usage, finish, text_shown, reasoning_started, reasoning_ended, reasoning_shown,
  usage_reported, tool_pending, AgentError, provider, malformed_reasoning, open_reasoning,
  invalid_usage, unexpected_tool_call, second_tool_call, tool_steps_exceeded, tool_repetition,
  TurnState, RunWorld, Runtime, R, check_abort, emit, observe_estimate, observe_usage,
}

pub data ModelTurnStreamResult : Type 0 where
  response : Option ToolCall → Bool → ModelTurnStreamResult
  truncated overflow : ModelTurnStreamResult

-- The white space that `trim` takes away.
abbrev pub is_white_space : ℕ → Bool
is_white_space c =
    (leb 9 c && leb c 13)
    || c == 32
    || c == 0xa0
    || c == 0x1680
    || (leb 0x2000 c && leb c 0x200a)
    || c == 0x2028
    || c == 0x2029
    || c == 0x202f
    || c == 0x205f
    || c == 0x3000
    || c == 0xfeff

-- `text.trim() !== ""`
unfoldable pub is_meaningful : Text → Bool
is_meaningful [] = false
is_meaningful (c ∷ cs) = not (is_white_space c) || is_meaningful cs

abbrev pub no_turn : TurnState
no_turn = record {
  tool_call = none;
  has_meaningful_text = false;
  finish_reason = none;
  emitted_event = false;
  reasoning_blocks = [];
  open_reasoning_block = none;
  usage_seen = false;
}

abbrev pub set_turn : (TurnState → TurnState) → R (Unit {0})
set_turn f = modify (λ w. record w { turn = f w.turn })

-- `reasoningBlocks.get`
unfoldable pub find_block : ℕ → List (ℕ × ℕ) → Option ℕ
find_block id [] = none
find_block id ((b, n) ∷ bs) = if b == id then some n else find_block id bs

abbrev pub is_open : Option ℕ → ℕ → Bool
is_open none id = false
is_open (some b) id = b == id

abbrev pub estimate_text : Runtime → Text → JsNumber
estimate_text rt [] = nonneg 0
estimate_text rt (c ∷ cs) = rt.count (ModelMessage.text MessageRole.assistant (c ∷ cs))

abbrev pub note_text : Text → TurnState → TurnState
note_text t s = if is_meaningful t then record s { has_meaningful_text = true } else s

unfoldable pub on_text : Runtime → Text → R (Unit {0})
unfolding is_meaningful observe_estimate emit check_abort
on_text rt t = do
  observe_estimate (estimate_text rt t)
  set_turn (note_text t)
  emit (text_shown t)
  check_abort

abbrev pub open_block : ℕ → RunWorld → RunWorld
open_block id w = record w {
  next_reasoning_block = suc w.next_reasoning_block;
  turn = record w.turn {
    reasoning_blocks = (id, w.next_reasoning_block) ∷ w.turn.reasoning_blocks;
    open_reasoning_block = some id;
  };
}

unfoldable pub on_reasoning_start : ℕ → R (Unit {0})
unfolding find_block emit check_abort
on_reasoning_start id w =
    if is_some w.turn.open_reasoning_block || is_some (find_block id w.turn.reasoning_blocks)
    then raise malformed_reasoning w
    else (do modify (open_block id); emit (reasoning_started w.next_reasoning_block); check_abort) w

-- The number of a block that is open and known.
abbrev pub block_at : Option ℕ → ℕ → Option ℕ → Option ℕ
block_at found id opened = if is_open opened id then found else none

abbrev pub show_reasoning : Runtime → Text → Option ℕ → R (Unit {0})
show_reasoning rt t none = raise malformed_reasoning
show_reasoning rt t (some n) = do
  observe_estimate (rt.count (ModelMessage.text MessageRole.assistant t))
  emit (reasoning_shown n t)
  check_abort

unfoldable pub on_reasoning_delta : Runtime → ℕ → Text → R (Unit {0})
unfolding find_block observe_estimate emit check_abort
on_reasoning_delta rt id t w =
    show_reasoning rt t
      (block_at (find_block id w.turn.reasoning_blocks) id w.turn.open_reasoning_block) w

abbrev pub end_reasoning : Option ℕ → R (Unit {0})
end_reasoning none = raise malformed_reasoning
end_reasoning (some n) = do
  set_turn (λ s. record s { open_reasoning_block = none })
  emit (reasoning_ended n)
  check_abort

unfoldable pub on_reasoning_end : ℕ → R (Unit {0})
unfolding find_block emit check_abort
on_reasoning_end id w =
    end_reasoning (block_at (find_block id w.turn.reasoning_blocks) id w.turn.open_reasoning_block)
      w

abbrev pub report_usage : RawTokenUsage → Option TokenUsage → R (Unit {0})
report_usage raw none w = raise invalid_usage w
report_usage raw (some u) w =
    if not w.turn.usage_seen && has_token_usage u
    then (do
      set_turn (λ s. record s { usage_seen = true })
      emit (usage_reported u)
      check_abort
      observe_usage raw)
        w
    else return tt w

unfoldable pub on_usage : RawTokenUsage → R (Unit {0})
unfolding emit check_abort observe_usage
on_usage raw = report_usage raw (parse_token_usage raw)

abbrev pub accept_call : Runtime → ToolCall → R (Unit {0})
accept_call rt call = do
  observe_estimate (rt.count (ModelMessage.tool_call call))
  set_turn (λ s. record s { tool_call = some call })
  emit (tool_pending call)
  check_abort

abbrev pub detected :
    Runtime → ToolCall → ToolRepetitionDetector × ToolRepetitionObservation → R (Unit {0})
detected rt call (d, o) w =
    if o.threshold_reached
    then raise tool_repetition (record w { detector = d })
    else accept_call rt call (record w { detector = d })

unfoldable pub on_tool_call : Runtime → ℕ → ToolCall → R (Unit {0})
unfolding observe_estimate emit check_abort
on_tool_call rt tool_steps call w =
    if not rt.offer_tools
    then raise unexpected_tool_call w
    else if is_some w.turn.tool_call
    then raise second_tool_call w
    else if leb rt.max_tool_steps tool_steps
    then raise tool_steps_exceeded w
    else detected rt call (observe rt.spelling call w.detector) w

unfoldable pub on_finish : FinishReason → R (Unit {0})
on_finish reason w =
    if is_some w.turn.open_reasoning_block
    then raise open_reasoning w
    else set_turn (λ s. record s { finish_reason = some reason }) w

unfoldable pub on_event : Runtime → ℕ → ModelEvent → R (Unit {0})
unfolding on_text on_reasoning_start on_reasoning_delta on_reasoning_end on_usage on_tool_call
    on_finish
on_event rt tool_steps (text_delta t) = on_text rt t
on_event rt tool_steps (reasoning_start id) = on_reasoning_start id
on_event rt tool_steps (reasoning_delta id t) = on_reasoning_delta rt id t
on_event rt tool_steps (reasoning_end id) = on_reasoning_end id
on_event rt tool_steps (usage raw) = on_usage raw
on_event rt tool_steps (ModelEvent.tool_call call) = on_tool_call rt tool_steps call
on_event rt tool_steps (finish reason) = on_finish reason

abbrev pub is_finish : ModelEvent → Bool
is_finish (finish reason) = true
is_finish _ = false

abbrev pub stream_failure : Option ProviderError → R (Unit {0})
stream_failure none = return tt
stream_failure (some e) = raise (provider e)

-- The `for await` loop; a finish leaves it.
unfoldable pub pass_events : Runtime → ℕ → Option ProviderError → List ModelEvent → R (Unit {0})
unfolding on_event
pass_events rt tool_steps failure [] = stream_failure failure
pass_events rt tool_steps failure (event ∷ events) =
    let rest = pass_events rt tool_steps failure events in
    (do
      check_abort
      set_turn (λ s. record s { emitted_event = true })
      on_event rt tool_steps event
      if is_finish event then return tt else rest)

abbrev pub is_overflow : AgentError → Bool
is_overflow (provider (gateway_error context_overflow after)) = true
is_overflow _ = false

abbrev pub ended_turn : R ModelTurnStreamResult
ended_turn w =
    if is_some w.turn.open_reasoning_block
    then raise open_reasoning w
    else return
        (elim w.turn.finish_reason [
          | some length_limit ↦ truncated
          | _ ↦ response w.turn.tool_call w.turn.has_meaningful_text
        ])
        w

-- The `catch` of the loop, and what follows it.
abbrev pub caught_turn :
    RunWorld × Result AgentError (Unit {0}) → RunWorld × Result AgentError ModelTurnStreamResult
caught_turn (w, ok u) = (do check_abort; ended_turn) w
caught_turn (w, err e) =
    (do check_abort; if not w.turn.emitted_event && is_overflow e then return overflow else raise e)
      w

unfoldable pub stream_turn : Runtime → List ModelMessage → ℕ → R ModelTurnStreamResult
unfolding pass_events check_abort
stream_turn rt messages tool_steps w =
    let s = rt.stream w.streams messages in
    caught_turn (
      pass_events rt tool_steps s.failure s.events
        (record w { streams = suc w.streams; turn = no_turn }))
