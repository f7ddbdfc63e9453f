-- ===== src/Canonical.antt =====
-- packages/protocol/src/canonical-json.ts: a JSON value as text, the keys of its objects sorted. A
-- value of the model is a tree with no undefined in it, so it has no cycle to refuse. How the
-- language writes a number is a parameter.
use ctrl_zebra.Prelude.{
  ℕ, ◌+◌, ◌-◌, ◌/◌, ◌%◌, true, false, ◌||◌, List, [], ◌∷◌, ◌++◌, map, ltb, ◌==◌, if◌then◌else◌,
}
use ctrl_zebra.Text.{Text, is_surrogate}
use ctrl_zebra.Messages.{
  JsonValue, JsonItems, JsonEntries, null, boolean, number, text, array, object, nil, cons, end,
  entry,
}
use ctrl_zebra.Tools.Json.{utf16, units_before}

abbrev pub hex_digit : ℕ → ℕ
hex_digit n = if ltb n 10 then b'0' + n else b'a' + (n - 10)

-- `\uXXXX`
abbrev pub unicode_escape : ℕ → Text
unicode_escape c =
    b'\\'
    ∷ b'u'
    ∷ hex_digit (c / 4096)
    ∷ hex_digit (c / 256 % 16)
    ∷ hex_digit (c / 16 % 16)
    ∷ hex_digit (c % 16)
    ∷ []

-- How `JSON.stringify` writes a code point of a string; a lone surrogate is escaped.
unfoldable pub escaped : ℕ → Text
escaped c =
    if c == 0x22
    then b'\\' ∷ 0x22 ∷ []
    else if c == 0x5c
    then b'\\' ∷ b'\\' ∷ []
    else if c == 0x08
    then b'\\' ∷ b'b' ∷ []
    else if c == 0x0c
    then b'\\' ∷ b'f' ∷ []
    else if c == 0x0a
    then b'\\' ∷ b'n' ∷ []
    else if c == 0x0d
    then b'\\' ∷ b'r' ∷ []
    else if c == 0x09
    then b'\\' ∷ b't' ∷ []
    else if ltb c 0x20 || is_surrogate c
    then unicode_escape c
    else c ∷ []

unfoldable pub escape_text : Text → Text
unfolding escaped
escape_text [] = []
escape_text (c ∷ cs) = escaped c ++ escape_text cs

abbrev pub quoted : Text → Text
quoted t = 0x22 ∷ (escape_text t ++ 0x22 ∷ [])

-- `join(",")`
unfoldable pub join_commas : List Text → Text
join_commas [] = []
join_commas (t ∷ []) = t
join_commas (t ∷ u ∷ ts) = t ++ b',' ∷ join_commas (u ∷ ts)

-- An entry with the text of its value; entries are sorted by their keys.
abbrev pub Written : Type 0
Written = Text × Text

unfoldable pub insert_entry : Written → List Written → List Written
unfolding units_before utf16
insert_entry e [] = e ∷ []
insert_entry e (f ∷ fs) =
    if units_before (utf16 f.0) (utf16 e.0) then f ∷ insert_entry e fs else e ∷ f ∷ fs

unfoldable pub sort_entries : List Written → List Written
unfolding insert_entry
sort_entries [] = []
sort_entries (e ∷ es) = insert_entry e (sort_entries es)

abbrev pub write_entry : Written → Text
write_entry (k, v) = quoted k ++ b':' ∷ v

abbrev pub write_object : List Written → Text
write_object es = b'{' ∷ (join_commas (map write_entry es) ++ b'}' ∷ [])

-- `JSON.stringify` of a number is `number_text`.
unfoldable mutual
  unfolding escape_text join_commas sort_entries

  pub canonicalize_json : (ℕ → Text) → JsonValue → Text
  canonicalize_json number_text null = b'n' ∷ b'u' ∷ b'l' ∷ b'l' ∷ []
  canonicalize_json number_text (boolean true) = b't' ∷ b'r' ∷ b'u' ∷ b'e' ∷ []
  canonicalize_json number_text (boolean false) = b'f' ∷ b'a' ∷ b'l' ∷ b's' ∷ b'e' ∷ []
  canonicalize_json number_text (number n) = number_text n
  canonicalize_json number_text (text t) = quoted t
  canonicalize_json number_text (array xs) =
      b'[' ∷ (join_commas (item_texts number_text xs) ++ b']' ∷ [])
  canonicalize_json number_text (object es) =
      write_object (sort_entries (entry_texts number_text es))

  pub item_texts : (ℕ → Text) → JsonItems → List Text
  item_texts number_text nil = []
  item_texts number_text (cons x xs) = canonicalize_json number_text x ∷ item_texts number_text xs

  pub entry_texts : (ℕ → Text) → JsonEntries → List Written
  entry_texts number_text end = []
  entry_texts number_text (entry k v es) =
      (k, canonicalize_json number_text v) ∷ entry_texts number_text es
