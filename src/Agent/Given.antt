-- ===== src/Agent/Given.antt =====
-- packages/core/src/agent-runtime.ts and packages/core/src/context-overflow-recovery.ts: one step of the
-- run's model.
use ctrl_zebra.Prelude.{ℕ, refl, arith, not, ◌||◌, List, Result, ok, err, leb, is_some}
use ctrl_zebra.Prelude.Steps.{Triple, lift, return-Triple, raise-Triple, if-Triple, bind-Triple}
use ctrl_zebra.Numbers.{nonneg}
use ctrl_zebra.Messages.{ModelMessage}
use ctrl_zebra.Session.{SessionStateMachine}
use ctrl_zebra.History.{HistoryError, PrunedModelHistory, prune_model_history}
use ctrl_zebra.History.Estimate.{estimate_model_messages}
use ctrl_zebra.Agent.World.{
  RunWorld, Runtime, R, check_abort, history, recovery_exhausted, no_reduction,
}
use ctrl_zebra.Agent.Turn.{ModelTurnStreamResult, response, truncated, overflow}
use ctrl_zebra.Agent.Run.{
  responded, cut_off, ModelStep, as_history, observe_messages, retried, retry_with,
  recover_from_context_overflow, unless_overflow, stream_with_overflow_recovery,
}
use ctrl_zebra.Agent.Quiet.{
  Leaves, Allowed, Answered, Quietly, quiet-check_abort, quiet-observe_estimate,
  stream_turn-Answered,
}

-- What a model step gives: a tool call only within the limit.
abbrev pub Given : Runtime → ℕ → (SessionStateMachine → Type 0) → ModelStep → RunWorld → Type 0
Given rt k P (responded call meaningful, messages) w =
    P w.session × Allowed (is_some call) k rt.max_tool_steps
Given rt k P (cut_off, messages) w = P w.session

module _ (P : SessionStateMachine → Type 0) where
  pub lift-as_history-Quietly :
      {A : Type 0} (r : Result HistoryError A)
      → Triple (Leaves P) (λ w. P w.session) (lift (as_history r)) (λ a w. P w.session)
  lift-as_history-Quietly (ok a) = return-Triple a (λ w h. h)
  lift-as_history-Quietly (err e) = raise-Triple (history e) (λ w h. (h, refl))

  observe_messages-Quietly :
      (rt : Runtime) (messages : List ModelMessage) → Quietly P (observe_messages rt messages)
  observe_messages-Quietly rt messages =
      bind-Triple (lift-as_history-Quietly _) (λ n. quiet-observe_estimate P (nonneg n))

module _ (rt : Runtime) (k : ℕ) (P : SessionStateMachine → Type 0) where
  abbrev Gives : R ModelStep → Type 0
  Gives m = Triple (Leaves P) (λ w. P w.session) m (Given rt k P)

  retried-Given :
      (messages : List ModelMessage) (r : ModelTurnStreamResult)
      → Triple (Leaves P) (Answered rt k P r) (retried messages r) (Given rt k P)
  retried-Given messages overflow = raise-Triple _ (λ w h. (h, refl))
  retried-Given messages truncated = return-Triple _ (λ w h. h)
  retried-Given messages (response call meaningful) = return-Triple _ (λ w h. h)

  -- An answer is kept by what only reads the signal.
  check_abort-Answered :
      (r : ModelTurnStreamResult)
      → Triple (Leaves P) (Answered rt k P r) check_abort (λ u. Answered rt k P r)
  unfolding check_abort
  check_abort-Answered overflow = quiet-check_abort P
  check_abort-Answered truncated = quiet-check_abort P
  check_abort-Answered (response call meaningful) = record { holds = λ w h. ground arith }

  retry_with-Gives : (messages : List ModelMessage) → Gives (retry_with rt k messages)
  retry_with-Gives messages = bind-Triple (quiet-check_abort P) (λ u.
      bind-Triple (observe_messages-Quietly P rt messages) (λ u.
        bind-Triple (stream_turn-Answered rt k P messages)
          (λ r. bind-Triple (check_abort-Answered r) (λ u. retried-Given messages r))))

  recover-Gives :
      (messages : List ModelMessage) → Gives (recover_from_context_overflow rt messages k)
  unfolding recover_from_context_overflow
  recover-Gives messages = bind-Triple (quiet-check_abort P) (λ u.
      bind-Triple
        (lift-as_history-Quietly P
          (prune_model_history messages (nonneg rt.history_token_budget) rt.count))
        (λ (pruned : PrunedModelHistory).
          bind-Triple (lift-as_history-Quietly P (estimate_model_messages rt.count messages))
            (λ initial.
              if-Triple (not pruned.pruned || leb initial pruned.estimated_tokens)
                (λ e. raise-Triple (recovery_exhausted no_reduction) (λ w h. (h, refl)))
                (λ e. retry_with-Gives pruned.messages))))

  unless_overflow-Given :
      (messages : List ModelMessage) (r : ModelTurnStreamResult)
      → Triple (Leaves P) (Answered rt k P r) (unless_overflow rt messages k r) (Given rt k P)
  unless_overflow-Given messages overflow = recover-Gives messages
  unless_overflow-Given messages truncated = return-Triple _ (λ w h. h)
  unless_overflow-Given messages (response call meaningful) = return-Triple _ (λ w h. h)

  pub stream_with_overflow_recovery-Gives :
      (messages : List ModelMessage) → Gives (stream_with_overflow_recovery rt messages k)
  unfolding stream_with_overflow_recovery
  stream_with_overflow_recovery-Gives messages =
      bind-Triple (observe_messages-Quietly P rt messages)
        (λ u. bind-Triple (stream_turn-Answered rt k P messages) (unless_overflow-Given messages))
