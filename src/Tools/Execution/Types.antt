-- ===== src/Tools/Execution/Types.antt =====
-- What a tool call meets: the dispositions of packages/core/src/approval-policy.ts, the approval
-- operation of packages/core/src/tool-approval.ts, and the answers of the host's code.
use ctrl_zebra.Prelude.{ℕ, Bool, Option}
use ctrl_zebra.Messages.{
  JsonValue, ToolRisk, read, write, execute, network, ToolErrorCode, ToolCall, ToolResult,
}

pub data ApprovalPolicyDisposition : Type 0 where
  allow require_approval deny : ApprovalPolicyDisposition

-- `BasicApprovalPolicy.evaluate`
unfoldable pub evaluate_risk : ToolRisk → ApprovalPolicyDisposition
evaluate_risk read = allow
evaluate_risk write = require_approval
evaluate_risk execute = require_approval
evaluate_risk network = deny

-- What `parseToolInput` does: it returns, or it throws one of three kinds.
pub data ParsedInput : Type 0 where
  parsed unavailable : ParsedInput
  rejected : ToolErrorCode → ParsedInput
  broken : ℕ → ParsedInput

pub data Prepared : Type 0 where
  prepared unavailable broken : Prepared

-- What `execute` of a tool does; `ran none` is an output that is no JSON value.
pub data Executed : Type 0 where
  ran : Option JsonValue → Bool → Executed
  unavailable broken : Executed
  refused : ToolErrorCode → Executed

pub record ApprovalScope : Type 0 where
  pub session_id : ℕ
  pub run_id : Option ℕ
  pub risk : ToolRisk
  pub call : ToolCall

pub data ToolApprovalDecision : Type 0 where
  approved denied expired : ToolApprovalDecision
  broken : ℕ → ToolApprovalDecision

pub data ApprovedToolConsumption : Type 0 where
  approved applied conflict expired : ApprovedToolConsumption
  broken : ℕ → ApprovedToolConsumption

-- The scope of the request that the schema accepts, if it does, and what the host will answer.
pub record ToolApprovalOperation : Type 0 where
  pub request : Option ApprovalScope
  pub decision : ToolApprovalDecision
  pub consumption : ApprovedToolConsumption

pub data CreatedOperation : Type 0 where
  operation : ToolApprovalOperation → CreatedOperation
  broken : ℕ → CreatedOperation

pub record AgentTool : Type 0 where
  pub risk : ToolRisk
  pub input : ParsedInput
  pub preparation : Option Prepared
  pub execution : Executed

-- The parts of the runtime that a call meets. `workflow` is absent where none is configured, and
-- `result_bytes` is the length of the serialized result, which `toolResultSchema` bounds.
pub record Host : Type 0 where
  pub tool : Option AgentTool
  pub workflow : Option CreatedOperation
  pub result_bytes : ToolResult → ℕ

pub record Request : Type 0 where
  pub session_id : ℕ
  pub run_id : ℕ
  pub call : ToolCall
