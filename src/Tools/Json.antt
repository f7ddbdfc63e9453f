-- ===== src/Tools/Json.antt =====
-- packages/core/src/json-values.ts and `toolCallsEqual` of packages/core/src/tool-call-execution.ts:
-- when two calls are the same call. Keys are sorted by their UTF-16 code units, as `sort` does.
pub mod Same
use ctrl_zebra.Prelude.{
  ℕ, ◌+◌, ◌-◌, ◌/◌, ◌%◌, Bool, true, false, ◌&&◌, List, [], ◌∷◌, Option, none, some, ltb, ◌==◌,
  if◌then◌else◌,
}
use ctrl_zebra.Text.{Text}
use ctrl_zebra.Messages.{
  JsonValue, JsonItems, JsonEntries, null, boolean, number, text, array, object, nil, cons, end,
  entry, ToolCall,
}

unfoldable pub utf16 : Text → List ℕ
utf16 [] = []
utf16 (c ∷ cs) =
    if ltb 0xffff c
    then (0xd800 + (c - 0x10000) / 0x400) ∷ (0xdc00 + (c - 0x10000) % 0x400) ∷ utf16 cs
    else c ∷ utf16 cs

unfoldable pub units_before : List ℕ → List ℕ → Bool
units_before [] [] = false
units_before [] (d ∷ ds) = true
units_before (c ∷ cs) [] = false
units_before (c ∷ cs) (d ∷ ds) = if c == d then units_before cs ds else ltb c d

unfoldable pub same_text : Text → Text → Bool
same_text [] [] = true
same_text (c ∷ cs) (d ∷ ds) = c == d && same_text cs ds
same_text _ _ = false

unfoldable pub insert_key : Text → List Text → List Text
unfolding units_before utf16
insert_key k [] = k ∷ []
insert_key k (j ∷ js) = if units_before (utf16 j) (utf16 k) then j ∷ insert_key k js else k ∷ j ∷ js

-- `Object.keys(value).sort()`
unfoldable pub sorted_keys : JsonEntries → List Text
unfolding insert_key
sorted_keys end = []
sorted_keys (entry k v es) = insert_key k (sorted_keys es)

unfoldable pub same_keys : List Text → List Text → Bool
unfolding same_text
same_keys [] [] = true
same_keys (k ∷ ks) (j ∷ js) = same_text k j && same_keys ks js
same_keys _ _ = false

unfoldable pub property : Text → JsonEntries → Option JsonValue
unfolding same_text
property k end = none
property k (entry j v es) = if same_text j k then some v else property k es

abbrev same_bool : Bool → Bool → Bool
same_bool true b = b
same_bool false true = false
same_bool false false = true

abbrev equals_some : (JsonValue → Bool) → Option JsonValue → Bool
equals_some test none = false
equals_some test (some v) = test v

-- The lengths of two arrays agree where both lists end together. Every key of the left object is one
-- of the right object once the sorted keys agree, so the order in which they are visited is free.
unfoldable mutual
  unfolding same_text property sorted_keys same_keys

  pub json_values_equal : JsonValue → JsonValue → Bool
  json_values_equal null null = true
  json_values_equal (boolean b) (boolean c) = same_bool b c
  json_values_equal (number n) (number m) = n == m
  json_values_equal (text s) (text t) = same_text s t
  json_values_equal (array xs) (array ys) = items_equal xs ys
  json_values_equal (object es) (object fs) =
      same_keys (sorted_keys es) (sorted_keys fs) && entries_equal es fs
  json_values_equal _ _ = false

  pub items_equal : JsonItems → JsonItems → Bool
  items_equal nil nil = true
  items_equal (cons x xs) (cons y ys) = json_values_equal x y && items_equal xs ys
  items_equal _ _ = false

  pub entries_equal : JsonEntries → JsonEntries → Bool
  entries_equal end fs = true
  entries_equal (entry k v es) fs =
      equals_some (json_values_equal v) (property k fs) && entries_equal es fs

unfoldable pub tool_calls_equal : ToolCall → ToolCall → Bool
unfolding json_values_equal
tool_calls_equal left right =
    left.id == right.id && left.name == right.name && json_values_equal left.input right.input
