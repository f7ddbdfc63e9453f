-- ===== src/Tools/Execution.antt =====
-- packages/core/src/tool-call-execution.ts: one tool call, from its input to its result, with the
-- policy of packages/core/src/approval-policy.ts and the approval operation of
-- packages/core/src/tool-approval.ts. What the host's code answers (the registry, the tool, the
-- approval workflow) and whether the abort signal is aborted at each read are inputs. The texts of
-- error messages are left out.
pub mod Types
pub mod Authorised
pub mod Monad
pub mod Safety
pub mod Statuses
pub mod Triples
use ctrl_zebra.Prelude.{
  ℕ, suc, Bool, true, false, not, ◌&&◌, ◌||◌, List, [], ◌∷◌, Option, none, some, Result, ok, err,
  leb, ◌==◌, if◌then◌else◌,
}
use ctrl_zebra.Messages.{
  JsonValue, text, object, entry, end, ToolRisk, read, write, execute, network, ToolErrorCode,
  unknown_tool, failed, invalid_output, ToolCall, ToolResult, ToolOutcome, success, error,
}
use ctrl_zebra.Text.{Text}
use ctrl_zebra.Session.{SessionStatus}
use ctrl_zebra.Tools.Json.{tool_calls_equal}
use ctrl_zebra.Tools.Output.{limit_tool_output}
use Types.{
  ApprovalPolicyDisposition, allow, require_approval, deny, evaluate_risk, ParsedInput, parsed,
  rejected, Prepared, Executed, ran, refused, ApprovalScope, ToolApprovalDecision,
  ApprovedToolConsumption, ToolApprovalOperation, CreatedOperation, operation, AgentTool, Host,
  Request,
}
use Monad.{
  World, Action, running, approval_state, preparing, creating, deciding, consuming, executing,
  invalidating, diagnosed, ApprovalStatus, RunError, thrown, invalid_approval, M, pure, throw,
  ◌>>=◌, ◌>>◌, check_abort, emit, transition, finally,
}

abbrev pub max_tool_result_bytes : ℕ
max_tool_result_bytes = 1_048_576

unfoldable pub error_result : ToolCall → ToolErrorCode → ToolResult
error_result call code = record { call_id = call.id; name = call.name; outcome = error code }

-- `createApprovedToolResult` and `createAppliedToolResult`, with the output that they give.
unfoldable pub success_result : ToolCall → JsonValue → Bool → ToolResult
success_result call output truncated = record {
  call_id = call.id;
  name = call.name;
  outcome = success output truncated;
}

unfoldable pub fail : Request → ToolErrorCode → M ToolResult
unfolding error_result
fail q code = pure (error_result q.call code)

abbrev pub outcome_key : Text
outcome_key = b'o' ∷ b'u' ∷ b't' ∷ b'c' ∷ b'o' ∷ b'm' ∷ b'e' ∷ []

abbrev pub approved_text : Text
approved_text = b'a' ∷ b'p' ∷ b'p' ∷ b'r' ∷ b'o' ∷ b'v' ∷ b'e' ∷ b'd' ∷ []

abbrev pub applied_text : Text
applied_text = b'a' ∷ b'p' ∷ b'p' ∷ b'l' ∷ b'i' ∷ b'e' ∷ b'd' ∷ []

-- `{ outcome: … }`
abbrev pub outcome_object : Text → JsonValue
outcome_object t = object (entry outcome_key (text t) end)

abbrev pub within_bytes : Request → Host → ToolResult → ToolResult
within_bytes q h r =
    if leb (h.result_bytes r) max_tool_result_bytes then r else error_result q.call invalid_output

-- The output of a tool, from the schema to the result.
unfoldable pub normalize_output : Request → Host → Option JsonValue → Bool → ToolResult
unfolding error_result success_result
normalize_output q h none truncated = error_result q.call invalid_output
normalize_output q h (some v) truncated =
    let limited = limit_tool_output v in
    within_bytes q h (success_result q.call limited.output (truncated || limited.truncated))

abbrev pub after_execution : Request → Host → Executed → M ToolResult
after_execution q h Executed.unavailable = do check_abort; fail q unknown_tool
after_execution q h (refused code) = do check_abort; fail q code
after_execution q h Executed.broken = do check_abort; emit diagnosed; fail q failed
after_execution q h (ran output truncated) = do
  check_abort
  pure (normalize_output q h output truncated)

-- `#executeToolImplementation`
unfoldable pub execute_tool_implementation : Request → Host → AgentTool → M ToolResult
unfolding check_abort emit fail
execute_tool_implementation q h tool = do emit executing; after_execution q h tool.execution

abbrev pub same_risk : ToolRisk → ToolRisk → Bool
same_risk read read = true
same_risk write write = true
same_risk execute execute = true
same_risk network network = true
same_risk _ _ = false

abbrev pub same_run : Option ℕ → ℕ → Bool
same_run none run_id = false
same_run (some r) run_id = r == run_id

-- `validateToolApproval`, up to its throw.
unfoldable pub is_bound : Request → ToolRisk → Option ApprovalScope → Bool
is_bound q risk none = false
is_bound q risk (some scope) =
    scope.session_id == q.session_id
    && same_run scope.run_id q.run_id
    && same_risk scope.risk risk
    && tool_calls_equal scope.call q.call

unfoldable pub validate_tool_approval : Request → ToolRisk → ToolApprovalOperation → M (Unit {0})
unfolding is_bound
validate_tool_approval q risk op =
    if is_bound q risk op.request then pure tt else throw invalid_approval

abbrev pub is_execute : ToolRisk → Bool
is_execute execute = true
is_execute _ = false

abbrev pub approval_result : Request → ApprovedToolConsumption → ToolResult
approval_result q ApprovedToolConsumption.applied =
    success_result q.call (outcome_object applied_text) false
approval_result q _ = success_result q.call (outcome_object approved_text) false

abbrev pub finish_approved : Request → Host → AgentTool → ApprovedToolConsumption → M ToolResult
finish_approved q h tool consumption =
    if is_execute tool.risk
    then execute_tool_implementation q h tool
    else pure (approval_result q consumption)

-- The end of an approved call whose approval was consumed.
unfoldable pub use_approval : Request → Host → AgentTool → ApprovedToolConsumption → M ToolResult
unfolding check_abort emit
use_approval q h tool consumption = do
  check_abort
  emit (approval_state ApprovalStatus.consumed)
  check_abort
  finish_approved q h tool consumption

abbrev pub after_consumption : Request → Host → AgentTool → ApprovedToolConsumption → M ToolResult
after_consumption q h tool (ApprovedToolConsumption.broken e) = throw (thrown e)
after_consumption q h tool ApprovedToolConsumption.expired = do
  check_abort
  check_abort
  emit (approval_state ApprovalStatus.expired)
  check_abort
  fail q failed
after_consumption q h tool ApprovedToolConsumption.conflict = do
  check_abort
  check_abort
  emit (approval_state ApprovalStatus.invalidated)
  check_abort
  fail q ToolErrorCode.conflict
after_consumption q h tool consumption = do check_abort; use_approval q h tool consumption

-- The branch of a decision that is not an approval.
unfoldable pub decline : Request → ApprovalStatus → ToolErrorCode → M ToolResult
unfolding check_abort emit transition fail
decline q status code = do
  check_abort
  emit (approval_state status)
  check_abort
  transition SessionStatus.streaming
  check_abort
  fail q code

unfoldable pub consume_approval : Request → Host → AgentTool → ToolApprovalOperation → M ToolResult
unfolding check_abort emit transition
consume_approval q h tool op = do
  check_abort
  emit (approval_state ApprovalStatus.approved)
  check_abort
  transition SessionStatus.executing_tool
  check_abort
  emit consuming
  after_consumption q h tool op.consumption

abbrev pub after_decision :
    Request → Host → AgentTool → ToolApprovalOperation → ToolApprovalDecision → M ToolResult
after_decision q h tool op (ToolApprovalDecision.broken e) = throw (thrown e)
after_decision q h tool op ToolApprovalDecision.expired = do
  check_abort
  decline q ApprovalStatus.expired failed
after_decision q h tool op ToolApprovalDecision.denied = do
  check_abort
  decline q ApprovalStatus.denied ToolErrorCode.denied
after_decision q h tool op ToolApprovalDecision.approved = do
  check_abort
  consume_approval q h tool op

-- The steps after `validateToolApproval`, to the end of the `try`.
unfoldable pub announce : Request → Host → AgentTool → ToolApprovalOperation → M ToolResult
unfolding check_abort emit transition
announce q h tool op = do
  check_abort
  transition SessionStatus.streaming
  check_abort
  transition SessionStatus.awaiting_approval
  check_abort
  emit (approval_state ApprovalStatus.pending)
  check_abort
  emit deciding
  after_decision q h tool op op.decision

-- The body of the `try` of `#executeApprovalRequiredTool`.
unfoldable pub approve_and_execute :
    Request → Host → AgentTool → ToolApprovalOperation → M ToolResult
unfolding check_abort validate_tool_approval
approve_and_execute q h tool op = do
  check_abort
  validate_tool_approval q tool.risk op
  announce q h tool op

abbrev pub after_creation : Request → Host → AgentTool → CreatedOperation → M ToolResult
after_creation q h tool (CreatedOperation.broken e) = throw (thrown e)
after_creation q h tool (operation op) = finally (approve_and_execute q h tool op) invalidating

abbrev pub after_preparation :
    Request → Host → AgentTool → CreatedOperation → Prepared → M ToolResult
after_preparation q h tool created Prepared.unavailable = do check_abort; fail q unknown_tool
after_preparation q h tool created Prepared.broken = do check_abort; emit diagnosed; fail q failed
after_preparation q h tool created Prepared.prepared = do
  check_abort
  emit creating
  after_creation q h tool created

abbrev pub with_workflow :
    Request → Host → AgentTool → Option Prepared → Option CreatedOperation → M ToolResult
with_workflow q h tool (some p) (some created) = do
  emit preparing
  after_preparation q h tool created p
with_workflow q h tool _ _ = fail q ToolErrorCode.denied

-- `#executeApprovalRequiredTool`; its first guard lets the risks `write` and `execute` through.
unfoldable pub execute_approval_required_tool : Request → Host → AgentTool → M ToolResult
unfolding check_abort emit fail finally
execute_approval_required_tool q h tool =
    if same_risk tool.risk write || same_risk tool.risk execute
    then with_workflow q h tool tool.preparation h.workflow
    else fail q ToolErrorCode.denied

abbrev pub by_disposition : Request → Host → AgentTool → ApprovalPolicyDisposition → M ToolResult
by_disposition q h tool deny = fail q ToolErrorCode.denied
by_disposition q h tool require_approval = execute_approval_required_tool q h tool
by_disposition q h tool allow = execute_tool_implementation q h tool

abbrev pub with_input : Request → Host → AgentTool → ParsedInput → M ToolResult
with_input q h tool ParsedInput.unavailable = fail q unknown_tool
with_input q h tool (rejected code) = fail q code
with_input q h tool (ParsedInput.broken e) = throw (thrown e)
with_input q h tool parsed = do
  check_abort
  transition SessionStatus.executing_tool
  check_abort
  emit running
  check_abort
  by_disposition q h tool (evaluate_risk tool.risk)

abbrev pub with_tool : Request → Host → Option AgentTool → M ToolResult
with_tool q h none = fail q unknown_tool
with_tool q h (some tool) = with_input q h tool tool.input

-- `ToolCallExecution.execute`
unfoldable pub execute_tool_call : Request → Host → M ToolResult
unfolding check_abort emit transition fail evaluate_risk
execute_tool_call q h = with_tool q h h.tool
