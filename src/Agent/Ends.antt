-- ===== src/Agent/Ends.antt =====
-- packages/core/src/agent-runtime.ts: how a run ends.
use ctrl_zebra.Prelude.{
  ℕ, ◌≡◌, ◌<◌, refl, arith, Bool, true, false, not, List, [], ◌∷◌, ◌++◌, none, Result, ok, err,
}
use ctrl_zebra.Prelude.Steps.{
  Triple, Ends, if-Ends, lift, return-Triple, raise-Triple, modify-Triple, bind-Triple, ◌>>◌,
}
use ctrl_zebra.Numbers.{nonneg}
use ctrl_zebra.Text.{Text}
use ctrl_zebra.Messages.{MessageRole, ModelMessage}
use ctrl_zebra.Session.{
  SessionStatus, SessionStateMachine, transition_to, begin_run, owns_run, includes,
  run_reset_statuses,
}
use ctrl_zebra.Budget.Run.{BudgetError}
use ctrl_zebra.Budget.Run.Guard.{RunTokenBudgetGuard, create_guard}
use ctrl_zebra.History.{PrunedModelHistory, prune_model_history}
use ctrl_zebra.History.Validate.{validate_model_history}
use ctrl_zebra.Tools.Execution.Statuses.{Owned, Live}
use ctrl_zebra.Agent.World.{
  AgentError, budget, RunWorld, Runtime, R, check_abort, transition, preparation,
  invalid_transition,
}
use ctrl_zebra.Agent.Run.{
  as_budget, set_guard, prepared, load_history, prepare_messages, drop_last, start_turns, run_begun,
  begin_step, settle, catch_error, run, run_rounds,
}
use ctrl_zebra.Agent.Quiet.{is_out, Leaves, Quietly, quiet-check_abort}
use ctrl_zebra.Agent.Given.{lift-as_history-Quietly}
use ctrl_zebra.Agent.Loop.{
  IsAnswered, Fails, raised_active, checked, transition-Owned, run_rounds-IsAnswered,
}

module _ (P : SessionStateMachine → Type 0) where
  lift-prepared-Quietly :
      {A : Type 0} (r : Result ℕ A)
      → Triple (Leaves P) (λ w. P w.session) (lift (prepared r)) (λ a w. P w.session)
  lift-prepared-Quietly (ok a) = return-Triple a (λ w h. h)
  lift-prepared-Quietly (err e) = raise-Triple (preparation e) (λ w h. (h, refl))

  lift-as_budget-Quietly :
      {A : Type 0} (r : Result BudgetError A)
      → Triple (Leaves P) (λ w. P w.session) (lift (as_budget r)) (λ a w. P w.session)
  lift-as_budget-Quietly (ok a) = return-Triple a (λ w h. h)
  lift-as_budget-Quietly (err e) = raise-Triple (budget e) (λ w h. (h, refl))

  set_guard-Quietly : (rt : Runtime) → Quietly P (set_guard rt)
  unfolding set_guard
  set_guard-Quietly rt =
      bind-Triple (lift-as_budget-Quietly (create_guard rt.run_token_budget))
        (λ (g : RunTokenBudgetGuard). modify-Triple (λ w. record w { guard = g }) (λ w h. h))

  start_turns-Quietly : (rt : Runtime) → Quietly P (start_turns rt)
  start_turns-Quietly rt = record { holds = λ w h. h }

  load_history-Quietly :
      (rt : Runtime) → Triple (Leaves P) (λ w. P w.session) (load_history rt) (λ ms w. P w.session)
  unfolding load_history
  load_history-Quietly rt = bind-Triple (quiet-check_abort P) (λ u.
      bind-Triple (lift-prepared-Quietly rt.loaded) (λ loaded.
        bind-Triple (quiet-check_abort P)
          (λ u. lift-as_history-Quietly P (validate_model_history rt.schema loaded))))

  prepare_messages-Quietly :
      (rt : Runtime) (loaded : List ModelMessage) (content : Text)
      → Triple
          (Leaves P)
          (λ w. P w.session)
          (prepare_messages rt loaded content)
          (λ ms w. P w.session)
  unfolding prepare_messages
  prepare_messages-Quietly rt loaded content = bind-Triple (quiet-check_abort P) (λ u.
      bind-Triple
        (lift-as_history-Quietly P
          (prune_model_history (loaded ++ latest ∷ []) (nonneg rt.history_token_budget) rt.count))
        (λ (pruned : PrunedModelHistory). bind-Triple (quiet-check_abort P) (λ u.
          bind-Triple (lift-prepared-Quietly rt.external) (λ external.
            bind-Triple (quiet-check_abort P) (λ u.
              return-Triple (drop_last pruned.messages ++ external ++ latest ∷ []) (λ w h. h))))))
    where
      latest : ModelMessage
      latest = ModelMessage.text MessageRole.user content

-- How a run ends: with a status at which nobody owns the Session.
abbrev pub has_ended : SessionStatus → Bool
has_ended SessionStatus.completed = true
has_ended SessionStatus.truncated = true
has_ended SessionStatus.cancelled = true
has_ended SessionStatus.budget_exceeded = true
has_ended _ = false

abbrev pub IsEnded : SessionStateMachine → Type 0
IsEnded m = (m.run_owner ≡ none) × (has_ended m.status ≡ true)

abbrev pub IsFailed : AgentError → SessionStateMachine → Type 0
IsFailed e m = (m.run_owner ≡ none) × (m.status ≡ SessionStatus.failed) × (is_out e ≡ false)

module _ (rt : Runtime) (owner : ℕ) where
  abbrev At : SessionStatus → RunWorld → Type 0
  At s w = Owned owner s w.session

  raised_preparing :
      {A : Type 0} {P : RunWorld → Type 0} {m : R A} {Q : A → RunWorld → Type 0}
      → Triple (Leaves (Owned owner SessionStatus.preparing)) P m Q
      → Triple (Fails rt owner) P m Q
  raised_preparing t = raised_active rt owner SessionStatus.preparing refl t

  run_begun-IsAnswered :
      (rounds : ℕ) (content : Text)
      → rt.max_tool_steps < rounds
      → Triple
          (Fails rt owner)
          (At SessionStatus.preparing)
          (run_begun rt rounds content)
          (λ u w. IsAnswered w.session)
  unfolding run_begun
  run_begun-IsAnswered rounds content enough = bind-Triple check (λ u.
      bind-Triple (raised_preparing (set_guard-Quietly (Owned owner SessionStatus.preparing) rt))
        (λ u. bind-Triple check (λ u.
          bind-Triple
            (raised_preparing (load_history-Quietly (Owned owner SessionStatus.preparing) rt))
            (λ loaded. bind-Triple check (λ u.
              bind-Triple
                (raised_preparing (
                  prepare_messages-Quietly (Owned owner SessionStatus.preparing) rt loaded content))
                (λ messages. bind-Triple check (λ u.
                  bind-Triple
                    (transition-Owned rt owner SessionStatus.preparing SessionStatus.streaming refl
                      refl)
                    (λ u. streaming messages))))))))
    where
      check :
          Triple
            (Fails rt owner)
            (At SessionStatus.preparing)
            check_abort
            (λ u. At SessionStatus.preparing)
      check = checked rt owner SessionStatus.preparing refl

      streaming :
          (messages : List ModelMessage)
          → Triple
              (Fails rt owner)
              (At SessionStatus.streaming)
              (check_abort >> (start_turns rt >> run_rounds rt rounds 0 messages))
              (λ u w. IsAnswered w.session)
      streaming messages = bind-Triple (checked rt owner SessionStatus.streaming refl) (λ u.
          bind-Triple
            (raised_active rt owner SessionStatus.streaming refl
              (start_turns-Quietly (Owned owner SessionStatus.streaming) rt))
            (λ u. run_rounds-IsAnswered rt owner rounds 0 messages (omega arith) (omega arith)))

  abbrev Stops : RunWorld × Result AgentError (Unit {0}) → Type 0
  Stops = Ends (λ u w. IsEnded w.session) (λ e w. IsFailed e w.session)

  settle-Stops :
      (e : AgentError) (w : RunWorld) → Live owner w.session → is_out e ≡ false → Stops (settle e w)
  unfolding transition transition_to
  settle-Stops e w live out = ground arith

  catch_error-Stops :
      (r : RunWorld × Result AgentError (Unit {0}))
      → Ends (λ u w. IsAnswered w.session) (Fails rt owner) r
      → Stops (catch_error owner r)
  unfolding owns_run
  catch_error-Stops (w, ok u) h = ground arith
  catch_error-Stops (w, err e) h =
      if-Ends (λ u w. IsEnded w.session) (λ e w. IsFailed e w.session)
        (not (owns_run w.session owner)) _ _ (λ lost. ground arith) (λ o. settle-Stops e w h.0 h.1)

  begin_step-Owned :
      Triple
        (Fails rt owner)
        (λ w. includes run_reset_statuses w.session.status ≡ true)
        (begin_step owner)
        (λ u. At SessionStatus.preparing)
  unfolding begin_run
  begin_step-Owned = record { holds = λ w h. ground arith }

-- A run that starts on a Session at rest, with more rounds than the limit of tool steps, ends for
-- whatever the provider, the tools, the host and the signal do, and leaves the Session at rest and
-- unowned: if it returns, the Session is completed, truncated, cancelled or out of budget; if it
-- throws, the Session is failed and the error is the program's own, not a lack of rounds.
pub run-IsEnded :
    (rt : Runtime) (rounds owner : ℕ) (content : Text) (w : RunWorld)
    → includes run_reset_statuses w.session.status ≡ true
    → rt.max_tool_steps < rounds
    → Ends (λ u w. IsEnded w.session) (λ e w. IsFailed e w.session) (run rt rounds owner content w)
unfolding run
run-IsEnded rt rounds owner content w rest enough = catch_error-Stops rt owner _ (
    (bind-Triple (begin_step-Owned rt owner)
        (λ u. run_begun-IsAnswered rt owner rounds content enough)).holds
      w rest)

-- A run on a Session that is active in another run is refused: it throws, and nothing is changed.
pub run-busy :
    (rt : Runtime) (rounds owner : ℕ) (content : Text) (w : RunWorld)
    → includes run_reset_statuses w.session.status ≡ false
    → owns_run w.session owner ≡ false
    → run rt rounds owner content w ≡ (
      w,
      err (
          invalid_transition
            (record { previous_status = w.session.status; status = SessionStatus.preparing })),
    )
unfolding run begin_run owns_run
run-busy rt rounds owner content w busy other = ground arith
