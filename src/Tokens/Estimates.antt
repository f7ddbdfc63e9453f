-- ===== src/Tokens/Estimates.antt =====
-- packages/core/src/heuristic-token-counter.ts: the estimate of a message.
use ctrl_zebra.Prelude.{
  ℕ, ◌+◌, ◌≡◌, ◌≤◌, refl, ◌∙◌, ap, arith, false, [], ◌∷◌, ◌++◌, ltb, if◌then◌else◌, Bool-cases, inl,
  inr, some,
}
use ctrl_zebra.Numbers.{nonneg, bounded_count}
use ctrl_zebra.Text.{Text, utf8_byte_length}
use ctrl_zebra.Messages.{ModelMessage}
use ctrl_zebra.Budget.Window.{max_model_context_window_tokens}
use ctrl_zebra.Canonical.{quoted, canonicalize_json}
use ctrl_zebra.Tokens.{
  Serialization, BoundedUtf8Counter, role_key, role_text, body_key, body, measure_model_message,
  ceil_div, count, write_message, heuristic_bytes_per_token, heuristic_message_overhead_tokens,
  max_heuristic_serialized_bytes, max_serialization_depth,
}
use ctrl_zebra.Tokens.Measured.{
  Writes, measured, append-Writes, both-Writes, append_json_string-Writes,
}
use ctrl_zebra.Tokens.Values.{nesting, write_json_value-Writes}

-- The message as JSON, the role first.
abbrev pub message_text : Serialization → ModelMessage → Text
message_text s m =
    (b'{' ∷ [])
    ++ (quoted role_key
        ++ ((b':' ∷ [])
            ++ (quoted (role_text m)
                ++ ((b',' ∷ [])
                    ++ (quoted (body_key m)
                        ++ ((b':' ∷ [])
                            ++ (canonicalize_json s.number_text (body s m) ++ (b'}' ∷ []))))))))

-- The estimate without the bound on what is counted.
abbrev pub tokens_of : Text → ℕ
tokens_of t = ceil_div (utf8_byte_length t) 4 + 4

write_message-Writes :
    (bound : ℕ) (s : Serialization) (m : ModelMessage)
    → nesting (body s m) ≤ max_serialization_depth
    → Writes bound (write_message s m) (message_text s m)
unfolding write_message
write_message-Writes bound s m shallow = both-Writes (append-Writes _) (
    both-Writes (append_json_string-Writes role_key) (
      both-Writes (append-Writes _) (
        both-Writes (append_json_string-Writes (role_text m)) (
          both-Writes (append-Writes _) (
            both-Writes (append_json_string-Writes (body_key m)) (
              both-Writes (append-Writes _) (
                both-Writes (write_json_value-Writes bound s.number_text 0 (body s m) (omega arith))
                  (append-Writes _))))))))

measure_model_message-measured :
    (s : Serialization) (m : ModelMessage) (maximum : ℕ)
    → nesting (body s m) ≤ max_serialization_depth
    → measure_model_message s m maximum ≡ measured maximum (utf8_byte_length (message_text s m))
unfolding measure_model_message
measure_model_message-measured s m maximum shallow =
    let blank : BoundedUtf8Counter = record {
      maximum_bytes = maximum;
      bytes = 0;
      truncated = false;
    } in
    let start : blank ≡ measured maximum 0 = ground arith in
    ap (write_message s m) start
    ∙ (write_message-Writes maximum s m shallow).counts 0
    ∙ ap (measured maximum) (omega arith)

-- What the counter makes of a measurement.
abbrev estimate_of : BoundedUtf8Counter → ℕ
estimate_of w =
    if w.truncated
    then max_model_context_window_tokens
    else ceil_div w.bytes heuristic_bytes_per_token + heuristic_message_overhead_tokens

estimate_of-measured :
    (bound n : ℕ)
    → estimate_of (measured bound n)
      ≡ (if ltb bound n then max_model_context_window_tokens else ceil_div n 4 + 4)
estimate_of-measured bound n = elim (Bool-cases (ltb bound n)) [
  | inl long ↦ simp long refl
  | inr short ↦ simp short refl
]

-- For a message that is not nested deeper than the counter follows, the estimate is what the length
-- in UTF-8 of its JSON text with sorted keys gives, up to the most bytes that are counted, and from
-- there on the whole context window.
pub count-tokens_of :
    (s : Serialization) (m : ModelMessage)
    → nesting (body s m) ≤ max_serialization_depth
    → count s m ≡ (
        if ltb max_heuristic_serialized_bytes (utf8_byte_length (message_text s m))
        then max_model_context_window_tokens
        else tokens_of (message_text s m))
unfolding count
count-tokens_of s m shallow =
    let n = utf8_byte_length (message_text s m) in
    ap estimate_of (measure_model_message-measured s m max_heuristic_serialized_bytes shallow)
    ∙ estimate_of-measured max_heuristic_serialized_bytes n

-- The pruner accepts the estimate of such a message as the count of its tokens.
pub count-bounded_count :
    (s : Serialization) (m : ModelMessage)
    → nesting (body s m) ≤ max_serialization_depth
    → bounded_count max_model_context_window_tokens (nonneg (count s m)) ≡ some (count s m)
unfolding bounded_count
count-bounded_count s m shallow =
    let e = count-tokens_of s m shallow in
    let n = utf8_byte_length (message_text s m) in
    let low : count s m ≤ max_model_context_window_tokens = ground arith in ground arith
