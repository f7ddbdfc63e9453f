-- ===== src/Tools/Output/Limits.antt =====
-- What the limiter returns is within the limits at every level, and what it does not call truncated
-- it did not change.
use ctrl_zebra.Prelude.{
  ℕ, zero, suc, ◌+◌, ◌≤◌, ◌≡◌, refl, ◌⊎◌, Bool, true, false, [], ◌∷◌, arith, length, ◌==◌,
  Bool-cases, inl, inr,
}
use ctrl_zebra.Text.{Text, text_length}
use ctrl_zebra.Messages.{
  JsonValue, JsonItems, JsonEntries, null, boolean, number, text, array, object, nil, cons, end,
  entry,
}
use ctrl_zebra.Tools.Output.{
  max_tool_output_characters, max_tool_output_lines, max_tool_output_entries, next_lines,
  limit_characters, limit_string, limit_tool_output, limit_items, limit_entries,
}

-- The lines of a text, counted from a number of lines and the last character.
abbrev pub lines_from : ℕ → Bool → Text → ℕ
lines_from lines after_return [] = lines
lines_from lines after_return (c ∷ cs) = lines_from (next_lines after_return c lines) (c == 13) cs

abbrev pub IsPrefix : Text → Text → Type 0
IsPrefix [] t = Unit {0}
IsPrefix (c ∷ cs) [] = ⊥
IsPrefix (c ∷ cs) (d ∷ ds) = (c ≡ d) × IsPrefix cs ds

limit_characters-lines :
    (n l : ℕ) (r : Bool) (t : Text)
    → l ≤ max_tool_output_lines
    → lines_from l r (limit_characters n l r t) ≤ max_tool_output_lines
unfolding limit_characters
limit_characters-lines n l r [] h = h
limit_characters-lines n l r (c ∷ cs) h =
    ground (arith, limit_characters-lines (n + 1) (next_lines r c l) (c == 13) cs)

limit_characters-length :
    (n l : ℕ) (r : Bool) (t : Text)
    → n ≤ max_tool_output_characters
    → length (limit_characters n l r t) + n ≤ max_tool_output_characters
unfolding limit_characters
limit_characters-length n l r [] h = omega arith
limit_characters-length n l r (c ∷ cs) h =
    ground (arith, limit_characters-length (n + 1) (next_lines r c l) (c == 13) cs)

limit_characters-IsPrefix : (n l : ℕ) (r : Bool) (t : Text) → IsPrefix (limit_characters n l r t) t
unfolding limit_characters
limit_characters-IsPrefix n l r [] = tt
limit_characters-IsPrefix n l r (c ∷ cs) =
    ground (arith, limit_characters-IsPrefix (n + 1) (next_lines r c l) (c == 13) cs)

IsPrefix-whole : (s t : Text) → IsPrefix s t → text_length s ≡ text_length t → s ≡ t
unfolding text_length
IsPrefix-whole [] [] h e = refl
IsPrefix-whole [] (d ∷ ds) h e = ground arith
IsPrefix-whole (c ∷ cs) [] h e = absurd h
IsPrefix-whole (c ∷ cs) (d ∷ ds) h e = ground (arith, IsPrefix-whole cs ds h.1)

pub record IsShort (t : Text) : Type 0 where
  pub few_characters : length t ≤ max_tool_output_characters
  pub few_lines : lines_from 1 false t ≤ max_tool_output_lines

abbrev pub count_items : JsonItems → ℕ
count_items nil = 0
count_items (cons x xs) = suc (count_items xs)

abbrev pub count_entries : JsonEntries → ℕ
count_entries end = 0
count_entries (entry k v es) = suc (count_entries es)

-- Within the limits at every level.
abbrev mutual
  pub IsLimited : JsonValue → Type 0
  IsLimited (text t) = IsShort t
  IsLimited (array xs) = (count_items xs ≤ max_tool_output_entries) × AllLimited xs
  IsLimited (object es) = (count_entries es ≤ max_tool_output_entries) × EntriesLimited es
  IsLimited null = Unit {0}
  IsLimited (boolean b) = Unit {0}
  IsLimited (number n) = Unit {0}

  pub AllLimited : JsonItems → Type 0
  AllLimited nil = Unit {0}
  AllLimited (cons x xs) = IsLimited x × AllLimited xs

  pub EntriesLimited : JsonEntries → Type 0
  EntriesLimited end = Unit {0}
  EntriesLimited (entry k v es) = IsLimited v × EntriesLimited es

limit_string-IsShort :
    (t : Text)
    → IsLimited (limit_string t).output
      × ((limit_string t).truncated ≡ false → (limit_string t).output ≡ text t)
unfolding limit_string
limit_string-IsShort t =
    let kept = limit_characters 0 1 false t in
    let short : IsShort kept = record {
      few_characters = omega (arith, limit_characters-length 0 1 false t (omega arith));
      few_lines = limit_characters-lines 0 1 false t (omega arith);
    } in
    elim (Bool-cases (text_length kept == text_length t)) [
      | inl whole ↦
          (let same : kept ≡ t =
              IsPrefix-whole kept t (limit_characters-IsPrefix 0 1 false t) (ground arith) in
            simp whole (rw same at short, λ e. refl))
      | inr cut ↦ simp cut (short, λ e. cc)
    ]

mutual
  unfolding limit_tool_output

  limit-IsLimited :
      (v : JsonValue)
      → IsLimited (limit_tool_output v).output
        × ((limit_tool_output v).truncated ≡ false → (limit_tool_output v).output ≡ v)
  limit-IsLimited (text t) = limit_string-IsShort t
  limit-IsLimited (array xs) = ground (arith, limit_items-AllLimited max_tool_output_entries xs)
  limit-IsLimited (object es) =
      ground (arith, limit_entries-EntriesLimited max_tool_output_entries es)
  limit-IsLimited null = (tt, λ e. refl)
  limit-IsLimited (boolean b) = (tt, λ e. refl)
  limit-IsLimited (number n) = (tt, λ e. refl)

  limit_items-AllLimited :
      (n : ℕ) (xs : JsonItems)
      → AllLimited (limit_items n xs).0
        × (count_items (limit_items n xs).0 ≤ n)
        × ((limit_items n xs).1 ≡ false → (limit_items n xs).0 ≡ xs)
  limit_items-AllLimited n nil = (tt, omega arith, λ e. refl)
  limit_items-AllLimited zero (cons x xs) = (tt, omega arith, λ e. cc)
  limit_items-AllLimited (suc n) (cons x xs) =
      ground (arith, limit-IsLimited x, limit_items-AllLimited n xs)

  limit_entries-EntriesLimited :
      (n : ℕ) (es : JsonEntries)
      → EntriesLimited (limit_entries n es).0
        × (count_entries (limit_entries n es).0 ≤ n)
        × ((limit_entries n es).1 ≡ false → (limit_entries n es).0 ≡ es)
  limit_entries-EntriesLimited n end = (tt, omega arith, λ e. refl)
  limit_entries-EntriesLimited zero (entry k v es) = (tt, omega arith, λ e. cc)
  limit_entries-EntriesLimited (suc n) (entry k v es) =
      ground (arith, limit-IsLimited v, limit_entries-EntriesLimited n es)

-- The limited output is within the limits of characters, lines and entries at every level, and where
-- it is not marked truncated it is the output that was given.
pub limit_tool_output-IsLimited :
    (v : JsonValue)
    → IsLimited (limit_tool_output v).output
      × (((limit_tool_output v).truncated ≡ true) ⊎ ((limit_tool_output v).output ≡ v))
limit_tool_output-IsLimited v = ground (arith, limit-IsLimited v)
