-- ===== src/Tools/Execution/Authorised.antt =====
-- packages/core/src/tool-call-execution.ts: a whole call, from the registry to its result.
use ctrl_zebra.Prelude.{Bool, true, false, List, ◌≡◌, refl, sym, subst, arith, Option, none, some}
use ctrl_zebra.Messages.{ToolRisk}
use ctrl_zebra.Tools.Execution.{
  is_bound, after_creation, after_preparation, with_workflow, execute_approval_required_tool,
  by_disposition, with_input, with_tool, execute_tool_call,
}
use ctrl_zebra.Tools.Execution.Types.{
  CreatedOperation, operation, AgentTool, Host, Request, Prepared, ParsedInput, parsed, rejected,
  ApprovalPolicyDisposition, allow, require_approval, deny, evaluate_risk,
}
use ctrl_zebra.Tools.Execution.Monad.{
  World, Action, invalidating, creating, preparing, diagnosed, running,
}
use ctrl_zebra.Tools.Execution.Triples.{
  Any, Triple, throw-Triple, checked, emitted, went, required, either, finished,
}
use ctrl_zebra.Tools.Execution.Safety.{
  is_authorised, is_licensed, Authorised, Licensed, fail-Triple, execute_tool_implementation-Triple,
  approve_and_execute-Triple,
}

-- Whether the request of the operation that the workflow creates is bound to the call.
unfoldable pub workflow_is_bound : Request → ToolRisk → Option CreatedOperation → Bool
workflow_is_bound q risk (some (operation op)) = is_bound q risk op.request
workflow_is_bound q risk _ = false

module _ (q : Request) (h : Host) (bound : Bool) where
  after_creation-Triple :
      (tool : AgentTool) (c : CreatedOperation)
      → workflow_is_bound q tool.risk (some c) ≡ bound
      → Triple (Authorised bound tool.risk) Any (after_creation q h tool c) Any
  unfolding workflow_is_bound is_authorised
  after_creation-Triple tool (CreatedOperation.broken e) same = throw-Triple _
  after_creation-Triple tool (operation op) same =
      finished invalidating (λ log kept. kept) (approve_and_execute-Triple q h bound tool op same)

  after_preparation-Triple :
      (tool : AgentTool) (c : CreatedOperation) (p : Prepared)
      → workflow_is_bound q tool.risk (some c) ≡ bound
      → Triple (Authorised bound tool.risk) Any (after_preparation q h tool c p) Any
  unfolding is_authorised
  after_preparation-Triple tool c Prepared.unavailable same = checked (fail-Triple q h bound _)
  after_preparation-Triple tool c Prepared.broken same =
      checked (emitted diagnosed Any (λ log kept any. (kept, tt)) (fail-Triple q h bound _))
  after_preparation-Triple tool c Prepared.prepared same =
      checked
        (emitted creating Any (λ log kept any. (kept, tt)) (after_creation-Triple tool c same))

  with_workflow-Triple :
      (tool : AgentTool) (p : Option Prepared) (c : Option CreatedOperation)
      → workflow_is_bound q tool.risk c ≡ bound
      → Triple (Authorised bound tool.risk) Any (with_workflow q h tool p c) Any
  unfolding is_authorised
  with_workflow-Triple tool (some p) (some c) same =
      emitted preparing Any (λ log kept any. (kept, tt)) (after_preparation-Triple tool c p same)
  with_workflow-Triple tool (some p) none same = fail-Triple q h bound _
  with_workflow-Triple tool none c same = fail-Triple q h bound _

  execute_approval_required_tool-Triple :
      (tool : AgentTool)
      → workflow_is_bound q tool.risk h.workflow ≡ bound
      → Triple (Authorised bound tool.risk) Any (execute_approval_required_tool q h tool) Any
  unfolding execute_approval_required_tool
  execute_approval_required_tool-Triple tool same =
      either _ (λ e. with_workflow-Triple tool tool.preparation h.workflow same)
        (fail-Triple q h bound _)

  allowed-Licensed :
      (risk : ToolRisk) (log : List Action) → evaluate_risk risk ≡ allow → Licensed risk log
  unfolding evaluate_risk is_licensed
  allowed-Licensed risk log e = ground arith

  by_disposition-Triple :
      (tool : AgentTool) (d : ApprovalPolicyDisposition)
      → evaluate_risk tool.risk ≡ d
      → workflow_is_bound q tool.risk h.workflow ≡ bound
      → Triple (Authorised bound tool.risk) Any (by_disposition q h tool d) Any
  by_disposition-Triple tool deny e same = fail-Triple q h bound _
  by_disposition-Triple tool require_approval e same =
      execute_approval_required_tool-Triple tool same
  by_disposition-Triple tool allow e same =
      required (λ log any. allowed-Licensed tool.risk log e)
        (execute_tool_implementation-Triple q h bound tool)

  with_input-Triple :
      (tool : AgentTool) (i : ParsedInput)
      → workflow_is_bound q tool.risk h.workflow ≡ bound
      → Triple (Authorised bound tool.risk) Any (with_input q h tool i) Any
  unfolding is_authorised
  with_input-Triple tool ParsedInput.unavailable same = fail-Triple q h bound _
  with_input-Triple tool (rejected code) same = fail-Triple q h bound _
  with_input-Triple tool (ParsedInput.broken e) same = throw-Triple _
  with_input-Triple tool parsed same = checked (
      went _ (
        checked (
          emitted running Any (λ log kept any. (kept, tt))
            (checked (by_disposition-Triple tool _ refl same)))))

-- `ToolCallExecution.execute` runs a tool only with a licence. If in the actions before the call
-- every execution was licensed for the tool's risk, then so it is afterwards, whatever the host
-- answers, also when the call throws: a `read` tool needs no licence; an `execute` tool is
-- executed only directly after its approval was shown as pending, decided, shown as approved,
-- consumed and shown as consumed, in this order; a `write` or `network` tool is never executed;
-- and an approval is shown as pending only if its request is bound to the session, the run, the
-- risk and the call.
pub execute_tool_call-Authorised :
    (q : Request) (h : Host) (tool : AgentTool) (w : World)
    → h.tool ≡ some tool
    → let bound = workflow_is_bound q tool.risk h.workflow in
      is_authorised bound tool.risk w.log ≡ true
      → is_authorised bound tool.risk (execute_tool_call q h w).0.log ≡ true
unfolding execute_tool_call
execute_tool_call-Authorised q h tool w found before =
    let bound = workflow_is_bound q tool.risk h.workflow in
    let t = with_input-Triple q h bound tool tool.input refl in
    subst (λ t'. is_authorised bound tool.risk (with_tool q h t' w).0.log ≡ true) (sym found)
      (t.holds w before tt).0
