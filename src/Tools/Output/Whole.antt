-- ===== src/Tools/Output/Whole.antt =====
-- What is within the limits is not cut.
use ctrl_zebra.Prelude.{
  ℕ, zero, suc, ◌+◌, ◌≤◌, ◌≡◌, refl, Bool, false, [], ◌∷◌, arith, length, ◌==◌,
}
use ctrl_zebra.Text.{Text}
use ctrl_zebra.Messages.{
  JsonValue, JsonItems, JsonEntries, null, boolean, number, text, array, object, nil, cons, end,
  entry,
}
use ctrl_zebra.Tools.Output.{
  max_tool_output_characters, max_tool_output_lines, max_tool_output_entries, next_lines,
  limit_characters, limit_string, limit_tool_output, limit_items, limit_entries,
}
use ctrl_zebra.Tools.Output.Limits.{
  lines_from, IsShort, IsLimited, AllLimited, EntriesLimited, count_items, count_entries,
}

lines_from-ge : (l : ℕ) (r : Bool) (t : Text) → l ≤ lines_from l r t
lines_from-ge l r [] = omega arith
lines_from-ge l r (c ∷ cs) = ground (arith, lines_from-ge (next_lines r c l) (c == 13) cs)

limit_characters_all :
    (n l : ℕ) (r : Bool) (t : Text)
    → n + length t ≤ max_tool_output_characters
    → lines_from l r t ≤ max_tool_output_lines
    → limit_characters n l r t ≡ t
unfolding limit_characters
limit_characters_all n l r [] h k = refl
limit_characters_all n l r (c ∷ cs) h k = ground (
  arith,
  lines_from-ge (next_lines r c l) (c == 13) cs,
  limit_characters_all (n + 1) (next_lines r c l) (c == 13) cs,
)

limit_string_all :
    (t : Text) → IsShort t → limit_string t ≡ record { output = text t; truncated = false }
unfolding limit_string
limit_string_all t h =
    simp (limit_characters_all 0 1 false t (omega arith) h.few_lines) (ground arith)

mutual
  unfolding limit_tool_output

  limit_all :
      (v : JsonValue) → IsLimited v → limit_tool_output v ≡ record { output = v; truncated = false }
  limit_all (text t) h = limit_string_all t h
  limit_all (array xs) h = ground (arith, limit_items_all max_tool_output_entries xs)
  limit_all (object es) h = ground (arith, limit_entries_all max_tool_output_entries es)
  limit_all null h = refl
  limit_all (boolean b) h = refl
  limit_all (number n) h = refl

  limit_items_all :
      (n : ℕ) (xs : JsonItems) → AllLimited xs → count_items xs ≤ n → limit_items n xs ≡ (xs, false)
  limit_items_all n nil h k = refl
  limit_items_all zero (cons x xs) h k = absurd (omega arith)
  limit_items_all (suc n) (cons x xs) h k =
      ground (arith, limit_all x h.0, limit_items_all n xs h.1)

  limit_entries_all :
      (n : ℕ) (es : JsonEntries)
      → EntriesLimited es
      → count_entries es ≤ n
      → limit_entries n es ≡ (es, false)
  limit_entries_all n end h k = refl
  limit_entries_all zero (entry key v es) h k = absurd (omega arith)
  limit_entries_all (suc n) (entry key v es) h k =
      ground (arith, limit_all v h.0, limit_entries_all n es h.1)

-- An output within the limits at every level is returned as it is, not marked truncated.
pub limit_tool_output_whole :
    (v : JsonValue) → IsLimited v → limit_tool_output v ≡ record { output = v; truncated = false }
limit_tool_output_whole v h = limit_all v h
