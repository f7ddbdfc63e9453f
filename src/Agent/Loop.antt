-- ===== src/Agent/Loop.antt =====
-- packages/core/src/agent-runtime.ts: the rounds of a run, from `streaming` to the end of the loop.
use ctrl_zebra.Prelude.{
  ℕ, zero, suc, ◌+◌, ◌≡◌, ◌<◌, ◌≤◌, refl, arith, Bool, true, false, List, [], ◌∷◌, ◌++◌, map, none,
  some, Result, ok, err,
}
use ctrl_zebra.Prelude.Steps.{
  Triple, Ends, if-Ends, return-Triple, raise-Triple, if-Triple, required-Triple, raised-Triple,
  bind-Triple, ◌>>◌,
}
use ctrl_zebra.Messages.{ToolCall, ToolResult, ModelMessage}
use ctrl_zebra.Session.{
  SessionStatus, SessionStateMachine, transition_to, same_status, is_active_status,
  legal_transitions, includes, releases_owner,
}
use ctrl_zebra.Tools.Execution.{execute_tool_call}
use ctrl_zebra.Tools.Execution.Statuses.{Owned, Live, Resumable, execute_tool_call-Resumable}
use ctrl_zebra.Tools.Execution.Monad.{World, RunError}
use ctrl_zebra.Tools.Execution.Types.{Request}
use ctrl_zebra.Agent.World.{
  AgentError, RunWorld, Runtime, R, check_abort, transition, tool_finished, tool_action,
}
use ctrl_zebra.Agent.Run.{
  responded, cut_off, ModelStep, returned_tool, execute_in_run, resume_streaming, run_tool,
  after_response, run_rounds,
}
use ctrl_zebra.Agent.Quiet.{Leaves, quiet-check_abort, quiet-emit, quiet-observe_estimate}
use ctrl_zebra.Agent.Given.{Given, stream_with_overflow_recovery-Gives}

-- The statuses at which the loop ends of itself.
abbrev pub has_answered : SessionStatus → Bool
has_answered SessionStatus.completed = true
has_answered SessionStatus.truncated = true
has_answered _ = false

abbrev pub IsAnswered : SessionStateMachine → Type 0
IsAnswered m = (m.run_owner ≡ none) × (has_answered m.status ≡ true)

module _ (rt : Runtime) (owner : ℕ) where
  -- A throw of the loop leaves the run active, and is no lack of rounds.
  abbrev pub Fails : AgentError → RunWorld → Type 0
  Fails = Leaves (Live owner)

  pub transition-Owned :
      (s t : SessionStatus)
      → includes (legal_transitions s) t ≡ true
      → releases_owner t ≡ false
      → Triple Fails (λ w. Owned owner s w.session) (transition t) (λ u w. Owned owner t w.session)
  unfolding transition transition_to
  transition-Owned s t l r = record { holds = λ w h. ground arith }

  -- What leaves the Session at a status of the run.
  pub raised_active :
      {A : Type 0} {P : RunWorld → Type 0} {m : R A} {Q : A → RunWorld → Type 0} (s : SessionStatus)
      → is_active_status s ≡ true
      → Triple (Leaves (Owned owner s)) P m Q
      → Triple Fails P m Q
  raised_active s a t = raised-Triple (λ e w h. ground arith) t

  pub checked :
      (s : SessionStatus)
      → is_active_status s ≡ true
      → Triple Fails (λ w. Owned owner s w.session) check_abort (λ u w. Owned owner s w.session)
  checked s a = raised_active s a (quiet-check_abort (Owned owner s))

  resume-Owned :
      Triple Fails
        (λ w. Resumable owner w.session)
        resume_streaming
        (λ u w. Owned owner SessionStatus.streaming w.session)
  unfolding resume_streaming
  resume-Owned = record {
    holds = λ w h.
        if-Ends (λ u w. Owned owner SessionStatus.streaming w.session) Fails
          (same_status w.session.status SessionStatus.executing_tool) _ _
          (λ e.
            (bind-Triple
                (transition-Owned SessionStatus.executing_tool SessionStatus.streaming refl refl)
                (λ u. checked SessionStatus.streaming refl)).holds
              w (h.0, ground arith))
          (λ e. (h.0, ground arith));
  }

  returned-Resumable :
      (w : RunWorld) (r : World × Result RunError ToolResult)
      → Ends {S = World} (λ r w. Resumable owner w.session) (λ e w. Live owner w.session) r
      → Ends {S = RunWorld}
          (λ r w. Resumable owner w.session)
          Fails
          (
            record w {
              session = r.0.session;
              readings = r.0.readings;
              log = map tool_action r.0.log ++ w.log;
            },
            returned_tool r.1,
          )
  returned-Resumable w (v, ok r) h = h
  returned-Resumable w (v, err e) h = ground arith

  execute_in_run-Resumable :
      (k : ℕ) (call : ToolCall)
      → Triple Fails
          (λ w. Owned owner SessionStatus.streaming w.session)
          (execute_in_run rt k call)
          (λ r w. Resumable owner w.session)
  unfolding execute_in_run
  execute_in_run-Resumable k call = record {
    holds = λ w h.
        let request : Request = record {
          session_id = w.session.session_id;
          run_id = rt.run_id;
          call = call;
        } in
        let v : World = record { session = w.session; log = []; readings = w.readings } in
        returned-Resumable w (execute_tool_call request (rt.host k call) v)
          ((execute_tool_call-Resumable owner request (rt.host k call)).holds v h);
  }

  raised_running :
      {A : Type 0} {P : RunWorld → Type 0} {m : R A} {Q : A → RunWorld → Type 0}
      → Triple (Leaves (Resumable owner)) P m Q
      → Triple Fails P m Q
  raised_running t = raised-Triple (λ e w h. ground arith) t

  run_tool-Owned :
      (k : ℕ) (messages : List ModelMessage) (call : ToolCall)
      → Triple Fails
          (λ w. Owned owner SessionStatus.streaming w.session)
          (run_tool rt k messages call)
          (λ ms w. Owned owner SessionStatus.streaming w.session)
  unfolding run_tool
  run_tool-Owned k messages call = bind-Triple (execute_in_run-Resumable k call) (λ result.
      bind-Triple check (λ u.
        bind-Triple (raised_running (quiet-emit (Resumable owner) (tool_finished call result)))
          (λ u. bind-Triple check (λ u.
            bind-Triple
              (raised_running (
                quiet-observe_estimate (Resumable owner)
                  (rt.count (ModelMessage.tool_result result))))
              (λ u. bind-Triple check (λ u. bind-Triple resume-Owned (λ u.
                return-Triple
                  (messages ++ ModelMessage.tool_call call ∷ ModelMessage.tool_result result ∷ [])
                  (λ w h. h))))))))
    where
      check :
          Triple Fails
            (λ w. Resumable owner w.session)
            check_abort
            (λ u w. Resumable owner w.session)
      check = raised_running (quiet-check_abort (Resumable owner))

  last-IsAnswered :
      (s : SessionStatus)
      → includes (legal_transitions SessionStatus.streaming) s ≡ true
      → has_answered s ≡ true
      → Triple Fails
          (λ w. Owned owner SessionStatus.streaming w.session)
          (transition s)
          (λ u w. IsAnswered w.session)
  unfolding transition transition_to
  last-IsAnswered s l a = record { holds = λ w h. ground arith }

  -- The loop's own end.
  finish-IsAnswered :
      (s : SessionStatus)
      → includes (legal_transitions SessionStatus.streaming) s ≡ true
      → has_answered s ≡ true
      → Triple Fails
          (λ w. Owned owner SessionStatus.streaming w.session)
          (check_abort >> transition s)
          (λ u w. IsAnswered w.session)
  finish-IsAnswered s l a =
      bind-Triple (checked SessionStatus.streaming refl) (λ u. last-IsAnswered s l a)

  after_response-IsAnswered :
      (k : ℕ) (next : List ModelMessage → R (Unit {0})) (step : ModelStep)
      → (k < rt.max_tool_steps
          → (ms : List ModelMessage)
          → Triple Fails
              (λ w. Owned owner SessionStatus.streaming w.session)
              (next ms)
              (λ u w. IsAnswered w.session))
      → Triple Fails
          (Given rt k (Owned owner SessionStatus.streaming) step)
          (after_response rt k next step)
          (λ u w. IsAnswered w.session)
  after_response-IsAnswered k next (cut_off, ms) h =
      finish-IsAnswered SessionStatus.truncated refl refl
  after_response-IsAnswered k next (responded none meaningful, ms) h =
      if-Triple meaningful
        (λ e. required-Triple (λ w g. g.0) (finish-IsAnswered SessionStatus.completed refl refl))
        (λ e. raise-Triple _ (λ w g. ground arith))
  after_response-IsAnswered k next (responded (some call) meaningful, ms) h = record {
    holds = λ w g. (bind-Triple (run_tool-Owned k ms call) (h g.1)).holds w g.0;
  }

  -- With more rounds than tool steps left, the loop never lacks a round.
  pub run_rounds-IsAnswered :
      (rounds k : ℕ) (messages : List ModelMessage)
      → k ≤ rt.max_tool_steps
      → rt.max_tool_steps < k + rounds
      → Triple Fails
          (λ w. Owned owner SessionStatus.streaming w.session)
          (run_rounds rt rounds k messages)
          (λ u w. IsAnswered w.session)
  unfolding run_rounds
  run_rounds-IsAnswered zero k messages below enough = record {
    holds = λ w h. elim (none_left below enough) [ ];
  }
    where
      none_left : k ≤ rt.max_tool_steps → rt.max_tool_steps < k + 0 → ⊥
      none_left a b = omega arith
  run_rounds-IsAnswered (suc rounds) k messages below enough =
      bind-Triple
        (raised_active SessionStatus.streaming refl
          (stream_with_overflow_recovery-Gives rt k (Owned owner SessionStatus.streaming) messages))
        (λ step.
          after_response-IsAnswered k (run_rounds rt rounds (suc k)) step
            (λ left ms. run_rounds-IsAnswered rounds (suc k) ms (omega arith) (omega arith)))
