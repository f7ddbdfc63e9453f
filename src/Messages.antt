-- ===== src/Messages.antt =====
-- The values that pass between the runtime, the model and the tools: packages/protocol/src/tool.ts
-- and packages/core/src/model-gateway.ts. Identifiers and names are only compared, so they are
-- numbers, and so is the value of a JSON number. The keys of an object are distinct, which `Object.entries` gives.
use ctrl_zebra.Prelude.{ℕ, Bool, true, false}
use ctrl_zebra.Text.{Text}

mutual
  pub data JsonValue : Type 0 where
    null : JsonValue
    boolean : Bool → JsonValue
    number : ℕ → JsonValue
    text : Text → JsonValue
    array : JsonItems → JsonValue
    object : JsonEntries → JsonValue

  pub data JsonItems : Type 0 where
    nil : JsonItems
    cons : JsonValue → JsonItems → JsonItems

  pub data JsonEntries : Type 0 where
    end : JsonEntries
    entry : Text → JsonValue → JsonEntries → JsonEntries

pub data ToolRisk : Type 0 where
  read write execute network : ToolRisk

pub data ToolErrorCode : Type 0 where
  unknown_tool invalid_input denied failed invalid_output conflict : ToolErrorCode

pub record ToolCall : Type 0 where
  pub id : ℕ
  pub name : ℕ
  pub input : JsonValue

pub data ToolOutcome : Type 0 where
  success : JsonValue → Bool → ToolOutcome
  error : ToolErrorCode → ToolOutcome

pub record ToolResult : Type 0 where
  pub call_id : ℕ
  pub name : ℕ
  pub outcome : ToolOutcome

pub data MessageRole : Type 0 where
  system user assistant : MessageRole

pub data ModelMessage : Type 0 where
  text : MessageRole → Text → ModelMessage
  tool_call : ToolCall → ModelMessage
  tool_result : ToolResult → ModelMessage

abbrev pub is_system : ModelMessage → Bool
is_system (ModelMessage.text MessageRole.system content) = true
is_system _ = false

abbrev pub is_user : ModelMessage → Bool
is_user (ModelMessage.text MessageRole.user content) = true
is_user _ = false
