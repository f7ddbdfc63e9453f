-- ===== src/Tokens.antt =====
-- packages/core/src/heuristic-token-counter.ts: an estimate of tokens from the length of a message as
-- JSON, counted up to a bound. The objects that the language has for a call and a result are
-- parameters, since identifiers are numbers here; a value is a tree, so it has no cycle.
pub mod Measured
pub mod Values
pub mod Estimates
use ctrl_zebra.Prelude.{
  ℕ, suc, ◌+◌, ◌-◌, ◌*◌, ◌/◌, Bool, true, false, List, [], ◌∷◌, ltb, if◌then◌else◌,
}
use ctrl_zebra.Text.{Text, utf8_bytes_for_code_point}
use ctrl_zebra.Messages.{
  JsonValue, JsonItems, JsonEntries, null, boolean, number, text, array, object, nil, cons, end,
  entry, ToolCall, ToolResult, MessageRole, ModelMessage,
}
use ctrl_zebra.Budget.Window.{max_model_context_window_tokens}
use ctrl_zebra.Canonical.{escaped}
use ctrl_zebra.Tools.Json.{utf16, units_before}

abbrev pub heuristic_bytes_per_token : ℕ
heuristic_bytes_per_token = 4

abbrev pub heuristic_message_overhead_tokens : ℕ
heuristic_message_overhead_tokens = 4

abbrev pub max_heuristic_serialized_bytes : ℕ
max_heuristic_serialized_bytes =
    (max_model_context_window_tokens - heuristic_message_overhead_tokens)
    * heuristic_bytes_per_token

abbrev pub max_serialization_depth : ℕ
max_serialization_depth = 128

-- `JSON.stringify` of a number, and the objects of calls and results.
pub record Serialization : Type 0 where
  pub number_text : ℕ → Text
  pub call_value : ToolCall → JsonValue
  pub result_value : ToolResult → JsonValue

pub record BoundedUtf8Counter : Type 0 where
  pub maximum_bytes : ℕ
  pub bytes : ℕ
  pub truncated : Bool

abbrev pub truncate : BoundedUtf8Counter → BoundedUtf8Counter
truncate w = record w { bytes = w.maximum_bytes; truncated = true }

-- `#bytes > maximumBytes - bytes`, on integers
abbrev pub add : ℕ → BoundedUtf8Counter → BoundedUtf8Counter
add n w = if ltb w.maximum_bytes (w.bytes + n) then truncate w else record w { bytes = w.bytes + n }

unfoldable pub append : Text → BoundedUtf8Counter → BoundedUtf8Counter
unfolding utf8_bytes_for_code_point
append [] w = w
append (c ∷ cs) w = if w.truncated then w else append cs (add (utf8_bytes_for_code_point c) w)

unfoldable pub append_escaped : Text → BoundedUtf8Counter → BoundedUtf8Counter
unfolding append escaped
append_escaped [] w = w
append_escaped (c ∷ cs) w =
    let next = append (escaped c) w in if next.truncated then next else append_escaped cs next

unfoldable pub append_json_string : Text → BoundedUtf8Counter → BoundedUtf8Counter
unfolding append_escaped
append_json_string t w =
    if w.truncated then w else append (b'"' ∷ []) (append_escaped t (append (b'"' ∷ []) w))

-- What is written of a part of a value.
abbrev pub Writer : Type 0
Writer = BoundedUtf8Counter → BoundedUtf8Counter

-- The loop over items, up to the bracket; an append to a counter that is truncated does nothing.
unfoldable pub separated : List Writer → Writer
unfolding append
separated [] w = w
separated (f ∷ []) w = f w
separated (f ∷ g ∷ fs) w =
    let next = f w in if next.truncated then next else separated (g ∷ fs) (append (b',' ∷ []) next)

abbrev pub KeyedWriter : Type 0
KeyedWriter = Text × Writer

unfoldable pub insert_writer : KeyedWriter → List KeyedWriter → List KeyedWriter
unfolding units_before utf16
insert_writer e [] = e ∷ []
insert_writer e (f ∷ fs) =
    if units_before (utf16 f.0) (utf16 e.0) then f ∷ insert_writer e fs else e ∷ f ∷ fs

-- `Object.keys(value).sort()`, each key with what is written for its property.
unfoldable pub sort_writers : List KeyedWriter → List KeyedWriter
unfolding insert_writer
sort_writers [] = []
sort_writers (e ∷ es) = insert_writer e (sort_writers es)

abbrev pub write_property : KeyedWriter → Writer
write_property (k, f) w = f (append (b':' ∷ []) (append_json_string k w))

unfoldable pub write_properties : List KeyedWriter → List Writer
unfolding append append_json_string
write_properties [] = []
write_properties (e ∷ es) = write_property e ∷ write_properties es

-- The guards of `writeJsonValue`.
abbrev pub guarded : ℕ → Writer → Writer
guarded depth f w =
    if w.truncated then w else if ltb max_serialization_depth depth then truncate w else f w

unfoldable mutual
  unfolding append append_json_string separated sort_writers write_properties

  pub write_json_value : (ℕ → Text) → ℕ → JsonValue → Writer
  write_json_value number_text depth null = guarded depth (append (b'n' ∷ b'u' ∷ b'l' ∷ b'l' ∷ []))
  write_json_value number_text depth (text t) = guarded depth (append_json_string t)
  write_json_value number_text depth (boolean true) =
      guarded depth (append (b't' ∷ b'r' ∷ b'u' ∷ b'e' ∷ []))
  write_json_value number_text depth (boolean false) =
      guarded depth (append (b'f' ∷ b'a' ∷ b'l' ∷ b's' ∷ b'e' ∷ []))
  write_json_value number_text depth (number n) = guarded depth (append (number_text n))
  write_json_value number_text depth (array xs) = guarded depth (λ w.
      append (b']' ∷ [])
        (separated (item_writers number_text (suc depth) xs) (append (b'[' ∷ []) w)))
  write_json_value number_text depth (object es) = guarded depth (λ w. append (b'}' ∷ []) (
      separated (write_properties (sort_writers (entry_writers number_text (suc depth) es)))
        (append (b'{' ∷ []) w)))

  pub item_writers : (ℕ → Text) → ℕ → JsonItems → List Writer
  item_writers number_text depth nil = []
  item_writers number_text depth (cons x xs) =
      write_json_value number_text depth x ∷ item_writers number_text depth xs

  pub entry_writers : (ℕ → Text) → ℕ → JsonEntries → List KeyedWriter
  entry_writers number_text depth end = []
  entry_writers number_text depth (entry k v es) =
      (k, write_json_value number_text depth v) ∷ entry_writers number_text depth es

abbrev pub role_text : ModelMessage → Text
role_text (ModelMessage.text MessageRole.system t) = b's' ∷ b'y' ∷ b's' ∷ b't' ∷ b'e' ∷ b'm' ∷ []
role_text (ModelMessage.text MessageRole.user t) = b'u' ∷ b's' ∷ b'e' ∷ b'r' ∷ []
role_text (ModelMessage.tool_result r) = b't' ∷ b'o' ∷ b'o' ∷ b'l' ∷ []
role_text _ = b'a' ∷ b's' ∷ b's' ∷ b'i' ∷ b's' ∷ b't' ∷ b'a' ∷ b'n' ∷ b't' ∷ []

-- The other key of a message, and its value.
abbrev pub body_key : ModelMessage → Text
body_key (ModelMessage.text role t) = b'c' ∷ b'o' ∷ b'n' ∷ b't' ∷ b'e' ∷ b'n' ∷ b't' ∷ []
body_key (ModelMessage.tool_call c) = b't' ∷ b'o' ∷ b'o' ∷ b'l' ∷ b'C' ∷ b'a' ∷ b'l' ∷ b'l' ∷ []
body_key (ModelMessage.tool_result r) = b'r' ∷ b'e' ∷ b's' ∷ b'u' ∷ b'l' ∷ b't' ∷ []

abbrev pub body : Serialization → ModelMessage → JsonValue
body s (ModelMessage.text role t) = text t
body s (ModelMessage.tool_call c) = s.call_value c
body s (ModelMessage.tool_result r) = s.result_value r

abbrev pub role_key : Text
role_key = b'r' ∷ b'o' ∷ b'l' ∷ b'e' ∷ []

unfoldable pub write_message : Serialization → ModelMessage → Writer
write_message s m w0 =
    let w1 = append (b':' ∷ []) (append_json_string role_key (append (b'{' ∷ []) w0)) in
    let w2 = append (b',' ∷ []) (append_json_string (role_text m) w1) in
    let w3 = append (b':' ∷ []) (append_json_string (body_key m) w2) in
    append (b'}' ∷ []) (write_json_value s.number_text 0 (body s m) w3)

unfoldable pub measure_model_message : Serialization → ModelMessage → ℕ → BoundedUtf8Counter
measure_model_message s m maximum =
    write_message s m (record { maximum_bytes = maximum; bytes = 0; truncated = false })

-- `Math.ceil(a / b)` for a positive b
abbrev pub ceil_div : ℕ → ℕ → ℕ
ceil_div a b = (a + (b - 1)) / b

-- `HeuristicModelMessageTokenCounter.count`
unfoldable pub count : Serialization → ModelMessage → ℕ
count s m =
    let measured = measure_model_message s m max_heuristic_serialized_bytes in
    if measured.truncated
    then max_model_context_window_tokens
    else ceil_div measured.bytes heuristic_bytes_per_token + heuristic_message_overhead_tokens
