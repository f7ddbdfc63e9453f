-- ===== src/Text.antt =====
-- Texts, as the iterator of a JavaScript string yields them: a list of code points, a lone surrogate
-- being one of its own. packages/protocol/src/text-primitives.ts measures them in UTF-8.
use ctrl_zebra.Prelude.{ℕ, ◌+◌, Bool, true, ◌&&◌, not, List, [], ◌∷◌, leb, ltb, if◌then◌else◌}

abbrev pub Text : Type 0
Text = List ℕ

-- `value.length` counts UTF-16 code units; a code point above 0xffff takes two.
abbrev pub code_units : ℕ → ℕ
code_units c = if ltb 0xffff c then 2 else 1

unfoldable pub text_length : Text → ℕ
text_length [] = 0
text_length (c ∷ cs) = code_units c + text_length cs

unfoldable pub utf8_bytes_for_code_point : ℕ → ℕ
utf8_bytes_for_code_point c =
    if leb c 0x7f then 1 else if leb c 0x7ff then 2 else if leb c 0xffff then 3 else 4

-- A lone surrogate is encoded as U+FFFD, which takes three bytes, as many as the surrogate is given.
unfoldable pub utf8_byte_length : Text → ℕ
unfolding utf8_bytes_for_code_point
utf8_byte_length [] = 0
utf8_byte_length (c ∷ cs) = utf8_bytes_for_code_point c + utf8_byte_length cs

abbrev pub is_surrogate : ℕ → Bool
is_surrogate c = leb 0xd800 c && leb c 0xdfff

-- `value.isWellFormed()`
unfoldable pub is_well_formed : Text → Bool
is_well_formed [] = true
is_well_formed (c ∷ cs) = not (is_surrogate c) && is_well_formed cs
