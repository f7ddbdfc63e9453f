-- ===== src/History/Validate.antt =====
-- `validateModelHistory` of packages/core/src/history-pruner.ts. A message that was persisted is none
-- where it has not the keys of one of the three kinds; what the schemas of calls and results accept
-- is a parameter.
use ctrl_zebra.Prelude.{
  ℕ, Bool, ◌&&◌, not, List, [], ◌∷◌, Option, none, some, Result, ok, err, ◌>>=◌, leb, ltb, length,
  if◌then◌else◌,
}
use ctrl_zebra.Text.{text_length}
use ctrl_zebra.Messages.{ToolCall, ToolResult, ModelMessage, is_system}
use ctrl_zebra.History.{HistoryError, invalid_history}

pub record MessageSchema : Type 0 where
  pub accepts_call : ToolCall → Bool
  pub accepts_result : ToolResult → Bool

abbrev pub max_history_message_characters : ℕ
max_history_message_characters = 1_000_000

abbrev pub max_history_messages : ℕ
max_history_messages = 10_000

unfoldable pub is_valid_message : MessageSchema → ModelMessage → Bool
unfolding text_length
is_valid_message schema (ModelMessage.text role content) =
    not (is_system (ModelMessage.text role content))
    && leb 1 (text_length content)
    && leb (text_length content) max_history_message_characters
is_valid_message schema (ModelMessage.tool_call call) = schema.accepts_call call
is_valid_message schema (ModelMessage.tool_result result) = schema.accepts_result result

unfoldable pub validate_model_history_message :
    MessageSchema → Option ModelMessage → Result HistoryError ModelMessage
unfolding is_valid_message
validate_model_history_message schema none = err invalid_history
validate_model_history_message schema (some message) =
    if is_valid_message schema message then ok message else err invalid_history

unfoldable pub validate_messages :
    MessageSchema → List (Option ModelMessage) → Result HistoryError (List ModelMessage)
unfolding validate_model_history_message
validate_messages schema [] = ok []
validate_messages schema (m ∷ ms) = do
  message ← validate_model_history_message schema m
  rest ← validate_messages schema ms
  ok (message ∷ rest)

unfoldable pub validate_model_history :
    MessageSchema → List (Option ModelMessage) → Result HistoryError (List ModelMessage)
unfolding validate_messages
validate_model_history schema messages =
    if ltb max_history_messages (length messages)
    then err invalid_history
    else validate_messages schema messages
