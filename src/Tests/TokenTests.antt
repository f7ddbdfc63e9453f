-- ===== src/Tests/TokenTests.antt =====
-- The estimate of a short message.
use ctrl_zebra.Prelude.{◌≡◌, [], ◌∷◌, ltb, if◌then◌else◌, some, arith}
use ctrl_zebra.Numbers.{nonneg, bounded_count}
use ctrl_zebra.Text.{utf8_byte_length}
use ctrl_zebra.Messages.{null, MessageRole, ModelMessage}
use ctrl_zebra.Budget.Window.{max_model_context_window_tokens}
use ctrl_zebra.Tokens.{Serialization, count, max_heuristic_serialized_bytes}
use ctrl_zebra.Tokens.Values.{nesting}
use ctrl_zebra.Tokens.Estimates.{message_text, tokens_of, count-tokens_of, count-bounded_count}

abbrev plain : Serialization
plain = record { number_text = λ n. n ∷ []; call_value = λ c. null; result_value = λ r. null }

abbrev greeting : ModelMessage
greeting = ModelMessage.text MessageRole.user (b'h' ∷ b'i' ∷ [])

count-tokens_of_example : count plain greeting ≡ (
    if ltb max_heuristic_serialized_bytes (utf8_byte_length (message_text plain greeting))
    then max_model_context_window_tokens
    else tokens_of (message_text plain greeting))
count-tokens_of_example = count-tokens_of plain greeting (unfold nesting in omega arith)

count-bounded_count_example :
    bounded_count max_model_context_window_tokens (nonneg (count plain greeting))
    ≡ some (count plain greeting)
count-bounded_count_example = count-bounded_count plain greeting (unfold nesting in omega arith)
