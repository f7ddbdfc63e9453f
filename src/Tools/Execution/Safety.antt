-- ===== src/Tools/Execution/Safety.antt =====
-- packages/core/src/tool-call-execution.ts: what licenses the execution of a tool.
use ctrl_zebra.Prelude.{Bool, true, false, ◌&&◌, List, [], ◌∷◌, ◌≡◌, refl, arith}
use ctrl_zebra.Messages.{ToolRisk, read, execute, ToolErrorCode}
use ctrl_zebra.Tools.Execution.Triples.{
  Logs, Any, Triple, pure-Triple, throw-Triple, checked, emitted, went, required, either, guarded,
}
use ctrl_zebra.Tools.Execution.{
  fail, after_execution, finish_approved, is_execute, execute_tool_implementation, use_approval,
  after_consumption, announce, decline, consume_approval, after_decision, is_bound,
  validate_tool_approval, approve_and_execute,
}
use ctrl_zebra.Tools.Execution.Types.{
  ApprovedToolConsumption, ToolApprovalDecision, ToolApprovalOperation, AgentTool, Host, Request,
  Executed, ran, refused,
}
use ctrl_zebra.Tools.Execution.Monad.{
  Action, executing, approval_state, consuming, deciding, diagnosed, invalid_approval,
  ApprovalStatus,
}

-- Whether the actions before an execution, newest first, license it.
unfoldable pub is_licensed : ToolRisk → List Action → Bool
is_licensed read older = true
is_licensed execute
      (approval_state ApprovalStatus.consumed
        ∷ consuming
        ∷ approval_state ApprovalStatus.approved
        ∷ deciding
        ∷ approval_state ApprovalStatus.pending
        ∷ older) =
    true
is_licensed _ _ = false

-- Every execution of the log is licensed by the actions directly before it, and the user was asked
-- only if the request was `bound` to the call.
unfoldable pub is_authorised : Bool → ToolRisk → List Action → Bool
unfolding is_licensed
is_authorised bound risk [] = true
is_authorised bound risk (executing ∷ older) =
    is_licensed risk older && is_authorised bound risk older
is_authorised bound risk (approval_state ApprovalStatus.pending ∷ older) =
    bound && is_authorised bound risk older
is_authorised bound risk (_ ∷ older) = is_authorised bound risk older

abbrev pub Authorised : Bool → ToolRisk → Logs
Authorised bound risk log = is_authorised bound risk log ≡ true

abbrev is_pending : ApprovalStatus → Bool
is_pending ApprovalStatus.pending = true
is_pending _ = false

-- The log after `consume` was called for an approval that the user gave.
unfoldable is_agreed : List Action → Bool
is_agreed
      (consuming
        ∷ approval_state ApprovalStatus.approved
        ∷ deciding
        ∷ approval_state ApprovalStatus.pending
        ∷ older) =
    true
is_agreed _ = false

-- The log after the user was asked.
unfoldable is_asked : List Action → Bool
is_asked (deciding ∷ approval_state ApprovalStatus.pending ∷ older) = true
is_asked _ = false

abbrev Agreed : Logs
Agreed log = is_agreed log ≡ true

abbrev Asked : Logs
Asked log = is_asked log ≡ true

abbrev pub Licensed : ToolRisk → Logs
Licensed risk log = is_licensed risk log ≡ true

module _ (q : Request) (h : Host) (bound : Bool) where
  pub fail-Triple : {I P : Logs} (code : ToolErrorCode) → Triple I P (fail q code) Any
  unfolding fail
  fail-Triple code = pure-Triple _

  after_execution-Triple :
      (risk : ToolRisk) (e : Executed)
      → Triple (Authorised bound risk) Any (after_execution q h e) Any
  unfolding is_authorised
  after_execution-Triple risk Executed.unavailable = checked (fail-Triple _)
  after_execution-Triple risk (refused code) = checked (fail-Triple _)
  after_execution-Triple risk Executed.broken =
      checked (emitted diagnosed Any (λ log kept pre. (kept, tt)) (fail-Triple _))
  after_execution-Triple risk (ran output truncated) = checked (pure-Triple _)

  pub execute_tool_implementation-Triple :
      (tool : AgentTool)
      → Triple
          (Authorised bound tool.risk)
          (Licensed tool.risk)
          (execute_tool_implementation q h tool)
          Any
  unfolding execute_tool_implementation is_authorised
  execute_tool_implementation-Triple tool =
      emitted executing Any (λ log kept licensed. (ground arith, tt)) (after_execution-Triple _ _)

  as_execute :
      (risk : ToolRisk) (log : List Action)
      → is_execute risk ≡ true
      → Licensed execute log
      → Licensed risk log
  unfolding is_licensed
  as_execute risk log e licensed = ground arith

  finish_approved-Triple :
      (tool : AgentTool) (c : ApprovedToolConsumption)
      → Triple (Authorised bound tool.risk) (Licensed execute) (finish_approved q h tool c) Any
  finish_approved-Triple tool c =
      either (is_execute tool.risk)
        (λ e.
          required (λ log. as_execute tool.risk log e) (execute_tool_implementation-Triple tool))
        (pure-Triple _)

  consumed-Licensed :
      (risk : ToolRisk) (log : List Action)
      → Authorised bound risk log
      → Agreed log
      → Authorised bound risk (approval_state ApprovalStatus.consumed ∷ log)
        × Licensed execute (approval_state ApprovalStatus.consumed ∷ log)
  unfolding is_authorised is_agreed is_licensed
  consumed-Licensed risk log kept agreed = ground arith

  use_approval-Triple :
      (tool : AgentTool) (c : ApprovedToolConsumption)
      → Triple (Authorised bound tool.risk) Agreed (use_approval q h tool c) Any
  unfolding use_approval
  use_approval-Triple tool c = checked (
      emitted (approval_state ApprovalStatus.consumed) (Licensed execute)
        (consumed-Licensed tool.risk) (checked (finish_approved-Triple tool c)))

  silent :
      (risk : ToolRisk) (status : ApprovalStatus) (log : List Action)
      → is_pending status ≡ false
      → Authorised bound risk log
      → Any log
      → Authorised bound risk (approval_state status ∷ log) × Any (approval_state status ∷ log)
  unfolding is_authorised
  silent risk status log e kept any = ground arith

  after_consumption-Triple :
      (tool : AgentTool) (c : ApprovedToolConsumption)
      → Triple (Authorised bound tool.risk) Agreed (after_consumption q h tool c) Any
  after_consumption-Triple tool (ApprovedToolConsumption.broken e) = throw-Triple _
  after_consumption-Triple tool ApprovedToolConsumption.expired =
      required (λ log agreed. tt)
        (checked
          (checked (emitted _ Any (λ log. silent tool.risk _ log refl) (checked (fail-Triple _)))))
  after_consumption-Triple tool ApprovedToolConsumption.conflict =
      required (λ log agreed. tt)
        (checked
          (checked (emitted _ Any (λ log. silent tool.risk _ log refl) (checked (fail-Triple _)))))
  after_consumption-Triple tool ApprovedToolConsumption.approved =
      checked (use_approval-Triple tool _)
  after_consumption-Triple tool ApprovedToolConsumption.applied =
      checked (use_approval-Triple tool _)

  agree :
      (risk : ToolRisk) (log : List Action)
      → Authorised bound risk log
      → Asked log
      → Authorised bound risk (approval_state ApprovalStatus.approved ∷ log)
        × is_agreed (consuming ∷ approval_state ApprovalStatus.approved ∷ log) ≡ true
  unfolding is_authorised is_asked is_agreed
  agree risk log kept asked = ground arith

  consume_approval-Triple :
      (tool : AgentTool) (op : ToolApprovalOperation)
      → Triple (Authorised bound tool.risk) Asked (consume_approval q h tool op) Any
  unfolding consume_approval is_authorised
  consume_approval-Triple tool op = checked (
      emitted (approval_state ApprovalStatus.approved) (λ log. Agreed (consuming ∷ log))
        (agree tool.risk)
        (checked (
          went _ (
            checked (
              emitted consuming Agreed (λ log kept agreed. (kept, agreed))
                (after_consumption-Triple tool op.consumption))))))

  decline-Triple :
      (risk : ToolRisk) (status : ApprovalStatus) (code : ToolErrorCode)
      → is_pending status ≡ false
      → Triple (Authorised bound risk) Any (decline q status code) Any
  unfolding decline
  decline-Triple risk status code e =
      checked
        (emitted _ Any (λ log. silent risk _ log e) (checked (went _ (checked (fail-Triple _)))))

  after_decision-Triple :
      (tool : AgentTool) (op : ToolApprovalOperation) (d : ToolApprovalDecision)
      → Triple (Authorised bound tool.risk) Asked (after_decision q h tool op d) Any
  after_decision-Triple tool op (ToolApprovalDecision.broken e) = throw-Triple _
  after_decision-Triple tool op ToolApprovalDecision.expired =
      required (λ log asked. tt) (checked (decline-Triple tool.risk _ _ refl))
  after_decision-Triple tool op ToolApprovalDecision.denied =
      required (λ log asked. tt) (checked (decline-Triple tool.risk _ _ refl))
  after_decision-Triple tool op ToolApprovalDecision.approved =
      checked (consume_approval-Triple tool op)

  ask :
      (risk : ToolRisk) (log : List Action)
      → bound ≡ true
      → Authorised bound risk log
      → Any log
      → Authorised bound risk (approval_state ApprovalStatus.pending ∷ log)
        × is_asked (deciding ∷ approval_state ApprovalStatus.pending ∷ log) ≡ true
  unfolding is_authorised is_asked
  ask risk log e kept any = ground arith

  announced-Triple :
      (tool : AgentTool) (op : ToolApprovalOperation)
      → bound ≡ true
      → Triple (Authorised bound tool.risk) Any (announce q h tool op) Any
  unfolding announce is_authorised
  announced-Triple tool op e = checked (
      went _ (
        checked (
          went _ (
            checked (
              emitted (approval_state ApprovalStatus.pending) (λ log. Asked (deciding ∷ log))
                (λ log. ask tool.risk log e)
                (checked (
                  emitted deciding Asked (λ log kept asked. (kept, asked))
                    (after_decision-Triple tool op op.decision))))))))

  pub approve_and_execute-Triple :
      (tool : AgentTool) (op : ToolApprovalOperation)
      → is_bound q tool.risk op.request ≡ bound
      → Triple (Authorised bound tool.risk) Any (approve_and_execute q h tool op) Any
  unfolding approve_and_execute validate_tool_approval
  approve_and_execute-Triple tool op e = checked (
      guarded invalid_approval (is_bound q tool.risk op.request)
        (λ t. announced-Triple tool op (cc)))
