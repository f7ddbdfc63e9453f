-- ===== src/Agent/Quiet.antt =====
-- packages/core/src/model-turn-stream.ts: what a turn does to the Session, and which tool calls it lets
-- through.
use ctrl_zebra.Prelude.{
  ℕ, suc, ◌≡◌, ◌<◌, refl, sym, subst, arith, Bool, true, false, not, ◌&&◌, List, [], ◌∷◌, Option,
  none, some, Result, ok, err, leb, is_some,
}
use ctrl_zebra.Prelude.Steps.{
  Triple, Ends, return-Triple, raise-Triple, if-Triple, if-Ends, modify-Triple, bind-Triple, ◌>>◌,
}
use ctrl_zebra.Numbers.{JsNumber}
use ctrl_zebra.Text.{Text}
use ctrl_zebra.Messages.{ToolCall, ModelMessage}
use ctrl_zebra.Session.{SessionStateMachine}
use ctrl_zebra.Budget.Usage.{TokenUsage, RawTokenUsage, has_token_usage}
use ctrl_zebra.Budget.Run.{BudgetError}
use ctrl_zebra.Repetition.{observe, ToolRepetitionDetector, ToolRepetitionObservation}
use ctrl_zebra.Retry.{ProviderError}
use ctrl_zebra.Agent.World.{
  ModelEvent, text_delta, reasoning_start, reasoning_delta, reasoning_end, usage, finish,
  FinishReason, AgentEvent, AgentError, usage_reported, out_of_rounds, TurnState, RunWorld, Runtime,
  R, reasoning_ended, text_shown, reasoning_shown, tool_pending, check_abort, emit,
  observe_estimate, observe_usage, told,
}
use ctrl_zebra.Agent.Turn.{
  ModelTurnStreamResult, response, truncated, overflow, set_turn, note_text, on_text,
  on_reasoning_start, show_reasoning, on_reasoning_delta, end_reasoning, on_reasoning_end,
  report_usage, on_usage, accept_call, detected, on_tool_call, on_finish, on_event, is_finish,
  stream_failure, pass_events, is_overflow, ended_turn, caught_turn, stream_turn, no_turn,
}

abbrev pub is_out : AgentError → Bool
is_out out_of_rounds = true
is_out _ = false

-- What an error leaves: the Session as it was; and the loop has rounds for it.
abbrev pub Leaves : (SessionStateMachine → Type 0) → AgentError → RunWorld → Type 0
Leaves P e w = P w.session × (is_out e ≡ false)

abbrev pub Allowed : Bool → ℕ → ℕ → Type 0
Allowed true steps limit = steps < limit
Allowed false steps limit = Unit

-- Steps that leave the Session as it is keep what is known of it.
module _ (P : SessionStateMachine → Type 0) where
  abbrev pub Quietly : R (Unit {0}) → Type 0
  Quietly m = Triple (Leaves P) (λ w. P w.session) m (λ u w. P w.session)

  pub quiet-check_abort : Quietly check_abort
  unfolding check_abort
  quiet-check_abort = record { holds = λ w h. ground arith }

  pub quiet-emit : (e : AgentEvent) → Quietly (emit e)
  unfolding emit
  quiet-emit e = record { holds = λ w h. h }

  quiet-told :
      (w : RunWorld) (r : Result BudgetError (Unit {0}))
      → P w.session
      → Ends {S = RunWorld} (λ u w. P w.session) (Leaves P) (w, told r)
  quiet-told w (ok u) h = h
  quiet-told w (err e) h = ground arith

  pub quiet-observe_estimate : (n : JsNumber) → Quietly (observe_estimate n)
  unfolding observe_estimate
  quiet-observe_estimate n = record { holds = λ w h. quiet-told w _ h }

module _ (rt : Runtime) (k : ℕ) (P : SessionStateMachine → Type 0) where
  -- The Session is untouched, and a call of the turn is within the limit.
  abbrev IsKept : RunWorld → Type 0
  IsKept w = P w.session × Allowed (is_some w.turn.tool_call) k rt.max_tool_steps

  abbrev Keeps : R (Unit {0}) → Type 0
  Keeps m = Triple (Leaves P) IsKept m (λ u. IsKept)

  check_abort-Keeps : Keeps check_abort
  unfolding check_abort
  check_abort-Keeps = record { holds = λ w h. ground arith }

  emit-Keeps : (e : AgentEvent) → Keeps (emit e)
  unfolding emit
  emit-Keeps e = record { holds = λ w h. h }

  told-Leaves :
      (w : RunWorld) (r : Result BudgetError (Unit {0}))
      → IsKept w
      → Ends {S = RunWorld} (λ u. IsKept) (Leaves P) (w, told r)
  told-Leaves w (ok u) h = h
  told-Leaves w (err e) h = ground arith

  observe_estimate-Keeps : (n : JsNumber) → Keeps (observe_estimate n)
  unfolding observe_estimate
  observe_estimate-Keeps n = record { holds = λ w h. told-Leaves w _ h }

  observe_usage-Keeps : (raw : RawTokenUsage) → Keeps (observe_usage raw)
  unfolding observe_usage
  observe_usage-Keeps raw = record { holds = λ w h. told-Leaves w _ h }

  set_turn-Keeps :
      (f : TurnState → TurnState)
      → ((s : TurnState) → (f s).tool_call ≡ s.tool_call)
      → Keeps (set_turn f)
  set_turn-Keeps f same = record {
    holds =
        λ w h. (h.0, subst (λ c. Allowed (is_some c) k rt.max_tool_steps) (sym (same w.turn)) h.1);
  }

  note_text-call : (t : Text) (s : TurnState) → (note_text t s).tool_call ≡ s.tool_call
  note_text-call t s = ground arith

  on_text-Keeps : (t : Text) → Keeps (on_text rt t)
  unfolding on_text
  on_text-Keeps t = bind-Triple (observe_estimate-Keeps _) (λ u.
      bind-Triple (set_turn-Keeps (note_text t) (λ s. note_text-call t s))
        (λ u. bind-Triple (emit-Keeps (text_shown t)) (λ u. check_abort-Keeps)))

  on_reasoning_start-Keeps : (id : ℕ) → Keeps (on_reasoning_start id)
  unfolding on_reasoning_start check_abort emit
  on_reasoning_start-Keeps id = record { holds = λ w h. ground arith }

  show_reasoning-Keeps : (t : Text) (n : Option ℕ) → Keeps (show_reasoning rt t n)
  show_reasoning-Keeps t none = raise-Triple _ (λ w h. (h.0, refl))
  show_reasoning-Keeps t (some n) =
      bind-Triple (observe_estimate-Keeps _)
        (λ u. bind-Triple (emit-Keeps (reasoning_shown n t)) (λ u. check_abort-Keeps))

  on_reasoning_delta-Keeps : (id : ℕ) (t : Text) → Keeps (on_reasoning_delta rt id t)
  unfolding on_reasoning_delta
  on_reasoning_delta-Keeps id t = record { holds = λ w h. (show_reasoning-Keeps t _).holds w h }

  end_reasoning-Keeps : (n : Option ℕ) → Keeps (end_reasoning n)
  end_reasoning-Keeps none = raise-Triple _ (λ w h. (h.0, refl))
  end_reasoning-Keeps (some n) =
      bind-Triple (set_turn-Keeps (λ s. record s { open_reasoning_block = none }) (λ s. refl))
        (λ u. bind-Triple (emit-Keeps (reasoning_ended n)) (λ u. check_abort-Keeps))

  on_reasoning_end-Keeps : (id : ℕ) → Keeps (on_reasoning_end id)
  unfolding on_reasoning_end
  on_reasoning_end-Keeps id = record { holds = λ w h. (end_reasoning-Keeps _).holds w h }

  reported-Keeps :
      (raw : RawTokenUsage) (u : TokenUsage)
      → Keeps (do
        set_turn (λ s. record s { usage_seen = true })
        emit (usage_reported u)
        check_abort
        observe_usage raw)
  reported-Keeps raw u =
      bind-Triple (set_turn-Keeps (λ s. record s { usage_seen = true }) (λ s. refl)) (λ x.
        bind-Triple (emit-Keeps (usage_reported u))
          (λ x. bind-Triple check_abort-Keeps (λ x. observe_usage-Keeps raw)))

  report_usage-Keeps : (raw : RawTokenUsage) (u : Option TokenUsage) → Keeps (report_usage raw u)
  report_usage-Keeps raw none = record { holds = λ w h. (h.0, refl) }
  report_usage-Keeps raw (some u) = record {
    holds = λ w h.
        if-Ends (λ x. IsKept) (Leaves P) (not w.turn.usage_seen && has_token_usage u) _ _
          (λ e. (reported-Keeps raw u).holds w h) (λ e. h);
  }

  on_usage-Keeps : (raw : RawTokenUsage) → Keeps (on_usage raw)
  unfolding on_usage
  on_usage-Keeps raw = report_usage-Keeps raw _

  accept_call-Keeps : (call : ToolCall) → k < rt.max_tool_steps → Keeps (accept_call rt call)
  accept_call-Keeps call left = bind-Triple (observe_estimate-Keeps _) (λ u.
      bind-Triple
        (modify-Triple (λ w. record w { turn = record w.turn { tool_call = some call } })
          (λ w h. (h.0, left)))
        (λ u. bind-Triple (emit-Keeps (tool_pending call)) (λ u. check_abort-Keeps)))

  detected-Keeps :
      (call : ToolCall) (o : ToolRepetitionDetector × ToolRepetitionObservation)
      → k < rt.max_tool_steps
      → Keeps (detected rt call o)
  detected-Keeps call (d, o) left = record {
    holds = λ w h.
        if-Ends (λ x. IsKept) (Leaves P) o.threshold_reached _ _ (λ e. (h.0, refl))
          (λ e. (accept_call-Keeps call left).holds (record w { detector = d }) h);
  }

  on_tool_call-Keeps : (call : ToolCall) → Keeps (on_tool_call rt k call)
  unfolding on_tool_call
  on_tool_call-Keeps call = record {
    holds = λ w h.
        if-Ends (λ x. IsKept) (Leaves P) (not rt.offer_tools) _ _ (λ e. (h.0, refl))
          (λ e.
            if-Ends (λ x. IsKept) (Leaves P) (is_some w.turn.tool_call) _ _ (λ e. (h.0, refl))
              (λ e.
                if-Ends (λ x. IsKept) (Leaves P) (leb rt.max_tool_steps k) _ _ (λ e. (h.0, refl))
                  (λ e.
                    (detected-Keeps call (observe rt.spelling call w.detector) (ground arith)).holds
                      w h)));
  }

  on_finish-Keeps : (reason : FinishReason) → Keeps (on_finish reason)
  unfolding on_finish
  on_finish-Keeps reason = record { holds = λ w h. ground arith }

  on_event-Keeps : (event : ModelEvent) → Keeps (on_event rt k event)
  unfolding on_event
  on_event-Keeps (text_delta t) = on_text-Keeps t
  on_event-Keeps (reasoning_start id) = on_reasoning_start-Keeps id
  on_event-Keeps (reasoning_delta id t) = on_reasoning_delta-Keeps id t
  on_event-Keeps (reasoning_end id) = on_reasoning_end-Keeps id
  on_event-Keeps (usage raw) = on_usage-Keeps raw
  on_event-Keeps (ModelEvent.tool_call call) = on_tool_call-Keeps call
  on_event-Keeps (finish reason) = on_finish-Keeps reason

  stream_failure-Keeps : (e : Option ProviderError) → Keeps (stream_failure e)
  stream_failure-Keeps none = return-Triple tt (λ s j. j)
  stream_failure-Keeps (some e) = raise-Triple _ (λ s j. (j.0, refl))

  pass_events-Keeps :
      (failure : Option ProviderError) (events : List ModelEvent)
      → Keeps (pass_events rt k failure events)
  unfolding pass_events
  pass_events-Keeps failure [] = stream_failure-Keeps failure
  pass_events-Keeps failure (event ∷ events) = bind-Triple check_abort-Keeps (λ u.
      bind-Triple (set_turn-Keeps (λ s. record s { emitted_event = true }) (λ s. refl)) (λ u.
        bind-Triple (on_event-Keeps event) (λ u.
          if-Triple (is_finish event) (λ e. return-Triple tt (λ s j. j))
            (λ e. pass_events-Keeps failure events))))

  -- What a turn gives: a tool call only within the limit.
  abbrev pub Answered : ModelTurnStreamResult → RunWorld → Type 0
  Answered (response call meaningful) w = P w.session × Allowed (is_some call) k rt.max_tool_steps
  Answered truncated w = P w.session
  Answered overflow w = P w.session

  reason-Answered :
      (w : RunWorld) (reason : Option FinishReason)
      → IsKept w
      → Answered
          (elim reason [
            | some FinishReason.length_limit ↦ truncated
            | _ ↦ response w.turn.tool_call w.turn.has_meaningful_text
          ])
          w
  reason-Answered w none h = h
  reason-Answered w (some FinishReason.stop) h = h
  reason-Answered w (some FinishReason.tool_calls) h = h
  reason-Answered w (some FinishReason.length_limit) h = h.0
  reason-Answered w (some FinishReason.content_filter) h = h
  reason-Answered w (some FinishReason.other) h = h

  ended_turn-Answered : Triple (Leaves P) IsKept ended_turn Answered
  ended_turn-Answered = record {
    holds = λ w h.
        if-Ends Answered (Leaves P) (is_some w.turn.open_reasoning_block) _ _ (λ e. (h.0, refl))
          (λ e. reason-Answered w w.turn.finish_reason h);
  }

  caught_turn-Answered :
      (r : RunWorld × Result AgentError (Unit {0}))
      → Ends (λ u. IsKept) (Leaves P) r
      → Ends Answered (Leaves P) (caught_turn r)
  caught_turn-Answered (w, ok u) h =
      (bind-Triple check_abort-Keeps (λ u. ended_turn-Answered)).holds w h
  caught_turn-Answered (w, err e) h =
      (bind-Triple {R = Answered} (quiet-check_abort P) (λ u.
          if-Triple (not w.turn.emitted_event && is_overflow e)
            (λ _. return-Triple overflow (λ s j. j)) (λ _. raise-Triple e (λ s j. (j, h.1))))).holds
        w h.0

  pub stream_turn-Answered :
      (messages : List ModelMessage)
      → Triple (Leaves P) (λ w. P w.session) (stream_turn rt messages k) Answered
  unfolding stream_turn
  stream_turn-Answered messages = record {
    holds = λ w h.
        let s = rt.stream w.streams messages in
        let w' = record w { streams = suc w.streams; turn = no_turn } in
        caught_turn-Answered (pass_events rt k s.failure s.events w')
          ((pass_events-Keeps s.failure s.events).holds w' (h, tt));
  }

-- A turn leaves the Session as it was, also where it throws, and it gives a tool call only where fewer
-- tool steps were made than the limit allows.
pub stream_turn-Within :
    (rt : Runtime) (messages : List ModelMessage) (tool_steps : ℕ) (w : RunWorld)
    → Ends
        (Answered rt tool_steps (λ m. m ≡ w.session))
        (Leaves (λ m. m ≡ w.session))
        (stream_turn rt messages tool_steps w)
stream_turn-Within rt messages tool_steps w =
    (stream_turn-Answered rt tool_steps (λ m. m ≡ w.session) messages).holds w refl
