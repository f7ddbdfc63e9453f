-- ===== src/Tools/Execution/Statuses.antt =====
-- packages/core/src/tool-call-execution.ts: the status of the Session through a call that starts while
-- it is `streaming`, and the owner of its run.
use ctrl_zebra.Prelude.{
  ℕ, ◌≡◌, refl, arith, Bool, true, false, ◌||◌, ◌∷◌, Option, none, some, Result, ok, err,
}
use ctrl_zebra.Prelude.Steps.{Triple, Ends, return-Triple, raise-Triple, if-Triple, bind-Triple}
use ctrl_zebra.Messages.{ToolRisk, ToolErrorCode, ToolResult}
use ctrl_zebra.Session.{
  SessionStatus, SessionStateMachine, transition_to, legal_transitions, includes, releases_owner,
  is_active_status,
}
use ctrl_zebra.Tools.Execution.{
  error_result, execute_tool_call, with_tool, with_input, by_disposition,
  execute_tool_implementation, after_execution, fail, execute_approval_required_tool, with_workflow,
  after_preparation, after_creation, approve_and_execute, validate_tool_approval, is_bound,
  announce, after_decision, decline, consume_approval, after_consumption, use_approval,
  finish_approved, is_execute, same_risk,
}
use ctrl_zebra.Tools.Execution.Types.{
  ApprovalPolicyDisposition, allow, require_approval, deny, evaluate_risk, ParsedInput, parsed,
  rejected, Prepared, Executed, ran, refused, ToolApprovalDecision, ApprovedToolConsumption,
  ToolApprovalOperation, CreatedOperation, operation, AgentTool, Host, Request,
}
use ctrl_zebra.Tools.Execution.Monad.{
  World, Action, ApprovalStatus, invalidating, RunError, M, ◌>>◌, check_abort, emit, transition,
  finally,
}

-- The run of `owner`, at a status.
abbrev pub Owned : ℕ → SessionStatus → SessionStateMachine → Type 0
Owned owner s m = (m.run_owner ≡ some owner) × (m.status ≡ s)

-- The run of `owner`, still active.
abbrev pub Live : ℕ → SessionStateMachine → Type 0
Live owner m = (m.run_owner ≡ some owner) × (is_active_status m.status ≡ true)

-- The statuses at which a call may end.
abbrev pub can_resume : SessionStatus → Bool
can_resume SessionStatus.streaming = true
can_resume SessionStatus.executing_tool = true
can_resume _ = false

abbrev pub Resumable : ℕ → SessionStateMachine → Type 0
Resumable owner m = (m.run_owner ≡ some owner) × (can_resume m.status ≡ true)

module _ (owner : ℕ) where
  abbrev Thrown : RunError → World → Type 0
  Thrown e w = Live owner w.session

  abbrev At : SessionStatus → World → Type 0
  At s w = Owned owner s w.session

  abbrev Resumes : SessionStatus → M ToolResult → Type 0
  Resumes s m = Triple Thrown (At s) m (λ r w. Resumable owner w.session)

  check_abort-At :
      (s : SessionStatus) → is_active_status s ≡ true → Triple Thrown (At s) check_abort (λ u. At s)
  unfolding check_abort
  check_abort-At s a = record { holds = λ w h. ground arith }

  emit-At : (s : SessionStatus) (a : Action) → Triple Thrown (At s) (emit a) (λ u. At s)
  unfolding emit
  emit-At s a = record { holds = λ w h. h }

  transition-At :
      (s t : SessionStatus)
      → includes (legal_transitions s) t ≡ true
      → releases_owner t ≡ false
      → Triple Thrown (At s) (transition t) (λ u. At t)
  unfolding transition transition_to
  transition-At s t l r = record { holds = λ w h. ground arith }

  -- After each step of the code, what is left of it.
  checked :
      {s : SessionStatus} {m : M ToolResult}
      → is_active_status s ≡ true
      → Resumes s m
      → Resumes s (check_abort >> m)
  checked {s = s} a t = bind-Triple (check_abort-At s a) (λ u. t)

  emitted :
      {s : SessionStatus} {m : M ToolResult} (a : Action) → Resumes s m → Resumes s (emit a >> m)
  emitted {s = s} a t = bind-Triple (emit-At s a) (λ u. t)

  moving :
      {m : M ToolResult} (s t : SessionStatus)
      → includes (legal_transitions s) t ≡ true
      → releases_owner t ≡ false
      → Resumes t m
      → Resumes s (transition t >> m)
  moving s t l r e = bind-Triple (transition-At s t l r) (λ u. e)

  fail-Resumes :
      {s : SessionStatus} (q : Request) (c : ToolErrorCode)
      → can_resume s ≡ true
      → Resumes s (fail q c)
  unfolding fail error_result
  fail-Resumes q c r = record { holds = λ w h. ground arith }

  execute_tool_implementation-Resumes :
      {s : SessionStatus} (q : Request) (h : Host) (tool : AgentTool)
      → can_resume s ≡ true
      → is_active_status s ≡ true
      → Resumes s (execute_tool_implementation q h tool)
  unfolding execute_tool_implementation
  execute_tool_implementation-Resumes {s = s} q h tool r a = emitted _ (executed tool.execution)
    where
      executed : (x : Executed) → Resumes s (after_execution q h x)
      executed Executed.unavailable = checked a (fail-Resumes q _ r)
      executed (refused c) = checked a (fail-Resumes q c r)
      executed Executed.broken = checked a (emitted _ (fail-Resumes q _ r))
      executed (ran output truncated) = checked a (return-Triple _ (λ w j. ground arith))

  finish_approved-Resumes :
      (q : Request) (h : Host) (tool : AgentTool) (c : ApprovedToolConsumption)
      → Resumes SessionStatus.executing_tool (finish_approved q h tool c)
  finish_approved-Resumes q h tool c =
      if-Triple (is_execute tool.risk) (λ e. execute_tool_implementation-Resumes q h tool refl refl)
        (λ e. return-Triple _ (λ w j. ground arith))

  use_approval-Resumes :
      (q : Request) (h : Host) (tool : AgentTool) (c : ApprovedToolConsumption)
      → Resumes SessionStatus.executing_tool (use_approval q h tool c)
  unfolding use_approval
  use_approval-Resumes q h tool c =
      checked refl (emitted _ (checked refl (finish_approved-Resumes q h tool c)))

  after_consumption-Resumes :
      (q : Request) (h : Host) (tool : AgentTool) (c : ApprovedToolConsumption)
      → Resumes SessionStatus.executing_tool (after_consumption q h tool c)
  after_consumption-Resumes q h tool (ApprovedToolConsumption.broken e) =
      raise-Triple _ (λ w j. ground arith)
  after_consumption-Resumes q h tool ApprovedToolConsumption.expired =
      checked refl (checked refl (emitted _ (checked refl (fail-Resumes q _ refl))))
  after_consumption-Resumes q h tool ApprovedToolConsumption.conflict =
      checked refl (checked refl (emitted _ (checked refl (fail-Resumes q _ refl))))
  after_consumption-Resumes q h tool ApprovedToolConsumption.approved =
      checked refl (use_approval-Resumes q h tool _)
  after_consumption-Resumes q h tool ApprovedToolConsumption.applied =
      checked refl (use_approval-Resumes q h tool _)

  decline-Resumes :
      (q : Request) (s : ApprovalStatus) (c : ToolErrorCode)
      → Resumes SessionStatus.awaiting_approval (decline q s c)
  unfolding decline
  decline-Resumes q s c = checked refl (
      emitted _ (
        checked refl (
          moving SessionStatus.awaiting_approval SessionStatus.streaming refl refl
            (checked refl (fail-Resumes q c refl)))))

  consume_approval-Resumes :
      (q : Request) (h : Host) (tool : AgentTool) (op : ToolApprovalOperation)
      → Resumes SessionStatus.awaiting_approval (consume_approval q h tool op)
  unfolding consume_approval
  consume_approval-Resumes q h tool op = checked refl (
      emitted _ (
        checked refl (
          moving SessionStatus.awaiting_approval SessionStatus.executing_tool refl refl
            (checked refl (emitted _ (after_consumption-Resumes q h tool op.consumption))))))

  after_decision-Resumes :
      (q : Request) (h : Host) (tool : AgentTool) (op : ToolApprovalOperation)
      (d : ToolApprovalDecision)
      → Resumes SessionStatus.awaiting_approval (after_decision q h tool op d)
  after_decision-Resumes q h tool op (ToolApprovalDecision.broken e) =
      raise-Triple _ (λ w j. ground arith)
  after_decision-Resumes q h tool op ToolApprovalDecision.expired =
      checked refl (decline-Resumes q _ _)
  after_decision-Resumes q h tool op ToolApprovalDecision.denied =
      checked refl (decline-Resumes q _ _)
  after_decision-Resumes q h tool op ToolApprovalDecision.approved =
      checked refl (consume_approval-Resumes q h tool op)

  announce-Resumes :
      (q : Request) (h : Host) (tool : AgentTool) (op : ToolApprovalOperation)
      → Resumes SessionStatus.executing_tool (announce q h tool op)
  unfolding announce
  announce-Resumes q h tool op = checked refl (
      moving SessionStatus.executing_tool SessionStatus.streaming refl refl (
        checked refl (
          moving SessionStatus.streaming SessionStatus.awaiting_approval refl refl (
            checked refl (
              emitted _
                (checked refl (emitted _ (after_decision-Resumes q h tool op op.decision))))))))

  validate_tool_approval-At :
      (q : Request) (r : ToolRisk) (op : ToolApprovalOperation)
      → Triple Thrown
          (At SessionStatus.executing_tool)
          (validate_tool_approval q r op)
          (λ u. At SessionStatus.executing_tool)
  unfolding validate_tool_approval
  validate_tool_approval-At q r op =
      if-Triple (is_bound q r op.request) (λ e. return-Triple tt (λ w j. j))
        (λ e. raise-Triple _ (λ w j. ground arith))

  approve_and_execute-Resumes :
      (q : Request) (h : Host) (tool : AgentTool) (op : ToolApprovalOperation)
      → Resumes SessionStatus.executing_tool (approve_and_execute q h tool op)
  unfolding approve_and_execute
  approve_and_execute-Resumes q h tool op =
      checked refl
        (bind-Triple (validate_tool_approval-At q tool.risk op) (λ u. announce-Resumes q h tool op))

  finally-Resumes :
      {s : SessionStatus} (m : M ToolResult) (a : Action) → Resumes s m → Resumes s (finally m a)
  unfolding finally
  finally-Resumes m a t = record { holds = λ w h. logged (m w) (t.holds w h) }
    where
      logged :
          (r : World × Result RunError ToolResult)
          → Ends (λ r w. Resumable owner w.session) Thrown r
          → Ends (λ r w. Resumable owner w.session) Thrown (record r.0 { log = a ∷ r.0.log }, r.1)
      logged (w, ok r) h = h
      logged (w, err e) h = h

  after_creation-Resumes :
      (q : Request) (h : Host) (tool : AgentTool) (c : CreatedOperation)
      → Resumes SessionStatus.executing_tool (after_creation q h tool c)
  after_creation-Resumes q h tool (CreatedOperation.broken e) = raise-Triple _ (λ w j. ground arith)
  after_creation-Resumes q h tool (operation op) =
      finally-Resumes _ invalidating (approve_and_execute-Resumes q h tool op)

  after_preparation-Resumes :
      (q : Request) (h : Host) (tool : AgentTool) (c : CreatedOperation) (p : Prepared)
      → Resumes SessionStatus.executing_tool (after_preparation q h tool c p)
  after_preparation-Resumes q h tool c Prepared.unavailable = checked refl (fail-Resumes q _ refl)
  after_preparation-Resumes q h tool c Prepared.broken =
      checked refl (emitted _ (fail-Resumes q _ refl))
  after_preparation-Resumes q h tool c Prepared.prepared =
      checked refl (emitted _ (after_creation-Resumes q h tool c))

  with_workflow-Resumes :
      (q : Request) (h : Host) (tool : AgentTool) (p : Option Prepared)
      (c : Option CreatedOperation)
      → Resumes SessionStatus.executing_tool (with_workflow q h tool p c)
  with_workflow-Resumes q h tool (some p) (some c) =
      emitted _ (after_preparation-Resumes q h tool c p)
  with_workflow-Resumes q h tool (some p) none = fail-Resumes q _ refl
  with_workflow-Resumes q h tool none c = fail-Resumes q _ refl

  by_disposition-Resumes :
      (q : Request) (h : Host) (tool : AgentTool) (d : ApprovalPolicyDisposition)
      → Resumes SessionStatus.executing_tool (by_disposition q h tool d)
  unfolding execute_approval_required_tool
  by_disposition-Resumes q h tool deny = fail-Resumes q _ refl
  by_disposition-Resumes q h tool allow = execute_tool_implementation-Resumes q h tool refl refl
  by_disposition-Resumes q h tool require_approval =
      if-Triple (same_risk tool.risk ToolRisk.write || same_risk tool.risk ToolRisk.execute)
        (λ e. with_workflow-Resumes q h tool tool.preparation h.workflow)
        (λ e. fail-Resumes q _ refl)

  with_input-Resumes :
      (q : Request) (h : Host) (tool : AgentTool) (i : ParsedInput)
      → Resumes SessionStatus.streaming (with_input q h tool i)
  with_input-Resumes q h tool ParsedInput.unavailable = fail-Resumes q _ refl
  with_input-Resumes q h tool (rejected c) = fail-Resumes q c refl
  with_input-Resumes q h tool (ParsedInput.broken e) = raise-Triple _ (λ w j. ground arith)
  with_input-Resumes q h tool parsed = checked refl (
      moving SessionStatus.streaming SessionStatus.executing_tool refl refl (
        checked refl
          (emitted _ (checked refl (by_disposition-Resumes q h tool (evaluate_risk tool.risk))))))

  -- A call that starts while the Session is `streaming` in the run of an owner stays in that run: it
  -- returns at a status from which the loop goes on, and throws at one that is still active.
  pub execute_tool_call-Resumable :
      (q : Request) (h : Host)
      → Triple Thrown
          (At SessionStatus.streaming)
          (execute_tool_call q h)
          (λ r w. Resumable owner w.session)
  unfolding execute_tool_call
  execute_tool_call-Resumable q h = called h.tool
    where
      called : (t : Option AgentTool) → Resumes SessionStatus.streaming (with_tool q h t)
      called none = fail-Resumes q _ refl
      called (some tool) = with_input-Resumes q h tool tool.input
