-- ===== src/Edits/WorkspacePath.antt =====
-- packages/core/src/workspace-path.ts: the test of a path that a tool proposes. `toLowerCase` is that of
-- the letters A to Z: no other code point has a letter of the reserved names for its lower case.
pub mod Hosts
pub mod Below
use ctrl_zebra.Prelude.{
  ℕ, ◌+◌, Bool, true, false, not, ◌&&◌, ◌||◌, List, [], ◌∷◌, ◌++◌, Option, none, some, map, leb,
  ltb, ◌==◌, length, if◌then◌else◌,
}
use ctrl_zebra.Text.{Text, utf8_byte_length}
use ctrl_zebra.Tools.Json.{same_text}

abbrev pub max_workspace_path_characters : ℕ
max_workspace_path_characters = 4_096

abbrev pub max_workspace_path_bytes : ℕ
max_workspace_path_bytes = 16_384

-- The names of one device with each of its numbers.
abbrev numbered : ℕ → ℕ → ℕ → Text → List Text
numbered a b c [] = []
numbered a b c (d ∷ ds) = (a ∷ b ∷ c ∷ d ∷ []) ∷ numbered a b c ds

abbrev digits : Text
digits = b'1' ∷ b'2' ∷ b'3' ∷ b'4' ∷ b'5' ∷ b'6' ∷ b'7' ∷ b'8' ∷ b'9' ∷ []

-- Its order is of no matter, since it is only searched.
abbrev pub windows_reserved_device_names : List Text
windows_reserved_device_names =
    (b'c' ∷ b'o' ∷ b'n' ∷ [])
    ∷ (b'p' ∷ b'r' ∷ b'n' ∷ [])
    ∷ (b'a' ∷ b'u' ∷ b'x' ∷ [])
    ∷ (b'n' ∷ b'u' ∷ b'l' ∷ [])
    ∷ (numbered b'c' b'o' b'm' digits ++ numbered b'l' b'p' b't' digits)

unfoldable pub has_name : List Text → Text → Bool
unfolding same_text
has_name [] t = false
has_name (n ∷ ns) t = same_text n t || has_name ns t

-- `value.includes`, `startsWith` and `endsWith` of one character.
unfoldable pub includes : ℕ → Text → Bool
includes c [] = false
includes c (d ∷ ds) = d == c || includes c ds

abbrev pub starts_with : ℕ → Text → Bool
starts_with c [] = false
starts_with c (d ∷ ds) = d == c

unfoldable pub ends_with : ℕ → Text → Bool
ends_with c [] = false
ends_with c (d ∷ []) = d == c
ends_with c (d ∷ e ∷ es) = ends_with c (e ∷ es)

abbrev pub lower_case : ℕ → ℕ
lower_case c = if leb b'A' c && leb c b'Z' then c + 32 else c

-- `value.split`, at one character; it never gives an empty list.
abbrev pub push : ℕ → List Text → List Text
push c [] = (c ∷ []) ∷ []
push c (s ∷ ss) = (c ∷ s) ∷ ss

unfoldable pub split : ℕ → Text → List Text
split separator [] = [] ∷ []
split separator (c ∷ cs) =
    let rest = split separator cs in if c == separator then [] ∷ rest else push c rest

abbrev pub first : List Text → Text
first [] = []
first (s ∷ ss) = s

abbrev pub is_empty : Text → Bool
is_empty [] = true
is_empty (c ∷ cs) = false

abbrev pub is_dot : Text → Bool
is_dot (c ∷ []) = c == b'.'
is_dot _ = false

abbrev pub is_dot_dot : Text → Bool
is_dot_dot (c ∷ d ∷ []) = c == b'.' && d == b'.'
is_dot_dot _ = false

unfoldable pub is_safe_workspace_path_segment : Text → Bool
unfolding ends_with split has_name
is_safe_workspace_path_segment segment =
    not (
      is_empty segment
      || is_dot segment
      || is_dot_dot segment
      || ends_with b'.' segment
      || ends_with b' ' segment)
    && not (has_name windows_reserved_device_names (map lower_case (first (split b'.' segment))))

unfoldable pub all_safe : List Text → Bool
unfolding is_safe_workspace_path_segment
all_safe [] = true
all_safe (s ∷ ss) = is_safe_workspace_path_segment s && all_safe ss

unfoldable pub is_safe_workspace_path : ℕ → ℕ → Text → Bool
unfolding includes utf8_byte_length split all_safe
is_safe_workspace_path max_characters max_bytes path =
    not (
      is_empty path
      || starts_with b'/' path
      || includes b'\\' path
      || includes b':' path
      || ltb max_characters (length path)
      || ltb max_bytes (utf8_byte_length path))
    && all_safe (split b'/' path)
