-- ===== src/Tools/Output.antt =====
-- packages/core/src/tool-output-limiter.ts: the output of a tool is cut to its limits of characters,
-- lines and entries, at every level.
pub mod Limits
pub mod Whole
use ctrl_zebra.Prelude.{
  ℕ, zero, suc, ◌+◌, Bool, true, false, not, ◌&&◌, ◌||◌, List, [], ◌∷◌, ltb, leb, ◌==◌,
  if◌then◌else◌,
}
use ctrl_zebra.Text.{Text, text_length}
use ctrl_zebra.Messages.{
  JsonValue, JsonItems, JsonEntries, null, boolean, number, text, array, object, nil, cons, end,
  entry,
}

abbrev pub max_tool_output_characters : ℕ
max_tool_output_characters = 65_536

abbrev pub max_tool_output_lines : ℕ
max_tool_output_lines = 2_000

abbrev pub max_tool_output_entries : ℕ
max_tool_output_entries = 500

-- A carriage return, or a line feed that does not follow one.
abbrev pub begins_new_line : Bool → ℕ → Bool
begins_new_line after_return c = c == 13 || (c == 10 && not after_return)

abbrev pub next_lines : Bool → ℕ → ℕ → ℕ
next_lines after_return c lines = if begins_new_line after_return c then lines + 1 else lines

-- The loop of `limitString`: the characters up to where it stops.
unfoldable pub limit_characters : ℕ → ℕ → Bool → Text → Text
limit_characters characters lines after_return [] = []
limit_characters characters lines after_return (c ∷ cs) =
    let rest = limit_characters (characters + 1) (next_lines after_return c lines) (c == 13) cs in
    if ltb characters max_tool_output_characters
      && not (begins_new_line after_return c && leb max_tool_output_lines lines)
    then c ∷ rest
    else []

pub record LimitedToolOutput : Type 0 where
  pub output : JsonValue
  pub truncated : Bool

unfoldable pub limit_string : Text → LimitedToolOutput
unfolding limit_characters text_length
limit_string t =
    let kept = limit_characters 0 1 false t in
    if text_length kept == text_length t
    then record { output = text t; truncated = false }
    else record { output = text kept; truncated = true }

abbrev array_output : JsonItems → JsonItems × Bool → LimitedToolOutput
array_output xs (ys, true) = record { output = array ys; truncated = true }
array_output xs (ys, false) = record { output = array xs; truncated = false }

abbrev object_output : JsonEntries → JsonEntries × Bool → LimitedToolOutput
object_output es (fs, true) = record { output = object fs; truncated = true }
object_output es (fs, false) = record { output = object es; truncated = false }

abbrev cons_item : LimitedToolOutput → JsonItems × Bool → JsonItems × Bool
cons_item x (xs, truncated) = (cons x.output xs, x.truncated || truncated)

abbrev cons_entry : Text → LimitedToolOutput → JsonEntries × Bool → JsonEntries × Bool
cons_entry k v (es, truncated) = (entry k v.output es, v.truncated || truncated)

-- The loops take the number of entries left; what stands past it is sliced off.
unfoldable mutual
  unfolding limit_string

  pub limit_tool_output : JsonValue → LimitedToolOutput
  limit_tool_output (text t) = limit_string t
  limit_tool_output (array xs) = array_output xs (limit_items max_tool_output_entries xs)
  limit_tool_output (object es) = object_output es (limit_entries max_tool_output_entries es)
  limit_tool_output null = record { output = null; truncated = false }
  limit_tool_output (boolean b) = record { output = boolean b; truncated = false }
  limit_tool_output (number n) = record { output = number n; truncated = false }

  pub limit_items : ℕ → JsonItems → JsonItems × Bool
  limit_items n nil = (nil, false)
  limit_items zero (cons x xs) = (nil, true)
  limit_items (suc n) (cons x xs) = cons_item (limit_tool_output x) (limit_items n xs)

  pub limit_entries : ℕ → JsonEntries → JsonEntries × Bool
  limit_entries n end = (end, false)
  limit_entries zero (entry k v es) = (end, true)
  limit_entries (suc n) (entry k v es) = cons_entry k (limit_tool_output v) (limit_entries n es)
