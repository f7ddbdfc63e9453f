-- ===== src/Edits/WorkspacePath/Hosts.antt =====
-- How the hosts that packages/core/src/workspace-path.ts names follow a path: POSIX, and Windows as the
-- comment of isSafeWorkspacePath tells of it. Names are taken as they are spelled: that a file system
-- may ignore their case is left out, and so are links.
use ctrl_zebra.Prelude.{
  ℕ, ◌+◌, Bool, true, false, ◌&&◌, ◌||◌, leb, List, [], ◌∷◌, ◌++◌, Option, none, some, ◌==◌,
  if◌then◌else◌,
}
use ctrl_zebra.Text.{Text}
use ctrl_zebra.Edits.WorkspacePath.{push, is_empty, is_dot, is_dot_dot, includes}

pub data Platform : Type 0 where
  posix windows : Platform

-- A place in the file system: the names on the way to it, the last one first.
abbrev pub Place : Type 0
Place = List Text

abbrev pub parent : Place → Place
parent [] = []
parent (s ∷ ss) = ss

-- The characters between two segments, and a path cut at each of them.
abbrev pub separates : Platform → ℕ → Bool
separates posix c = c == b'/'
separates windows c = c == b'/' || c == b'\\'

unfoldable pub segments : Platform → Text → List Text
segments host [] = [] ∷ []
segments host (c ∷ cs) =
    let rest = segments host cs in if separates host c then [] ∷ rest else push c rest

-- Windows drops the dots and spaces at the end of a name.
abbrev pub is_dropped : ℕ → Bool
is_dropped c = c == b'.' || c == b' '

unfoldable pub stripped : Text → Text
stripped [] = []
stripped (c ∷ cs) = let rest = stripped cs in if is_empty rest && is_dropped c then [] else c ∷ rest

-- The devices of Windows, whose names are read in either case and with any extension.
abbrev pub devices : List Text
devices =
    (b'c' ∷ b'o' ∷ b'n' ∷ [])
    ∷ (b'p' ∷ b'r' ∷ b'n' ∷ [])
    ∷ (b'a' ∷ b'u' ∷ b'x' ∷ [])
    ∷ (b'n' ∷ b'u' ∷ b'l' ∷ [])
    ∷ (b'c' ∷ b'o' ∷ b'm' ∷ b'1' ∷ [])
    ∷ (b'c' ∷ b'o' ∷ b'm' ∷ b'2' ∷ [])
    ∷ (b'c' ∷ b'o' ∷ b'm' ∷ b'3' ∷ [])
    ∷ (b'c' ∷ b'o' ∷ b'm' ∷ b'4' ∷ [])
    ∷ (b'c' ∷ b'o' ∷ b'm' ∷ b'5' ∷ [])
    ∷ (b'c' ∷ b'o' ∷ b'm' ∷ b'6' ∷ [])
    ∷ (b'c' ∷ b'o' ∷ b'm' ∷ b'7' ∷ [])
    ∷ (b'c' ∷ b'o' ∷ b'm' ∷ b'8' ∷ [])
    ∷ (b'c' ∷ b'o' ∷ b'm' ∷ b'9' ∷ [])
    ∷ (b'l' ∷ b'p' ∷ b't' ∷ b'1' ∷ [])
    ∷ (b'l' ∷ b'p' ∷ b't' ∷ b'2' ∷ [])
    ∷ (b'l' ∷ b'p' ∷ b't' ∷ b'3' ∷ [])
    ∷ (b'l' ∷ b'p' ∷ b't' ∷ b'4' ∷ [])
    ∷ (b'l' ∷ b'p' ∷ b't' ∷ b'5' ∷ [])
    ∷ (b'l' ∷ b'p' ∷ b't' ∷ b'6' ∷ [])
    ∷ (b'l' ∷ b'p' ∷ b't' ∷ b'7' ∷ [])
    ∷ (b'l' ∷ b'p' ∷ b't' ∷ b'8' ∷ [])
    ∷ (b'l' ∷ b'p' ∷ b't' ∷ b'9' ∷ [])
    ∷ []

-- A small letter or a digit, in either case.
abbrev pub is_letter : ℕ → ℕ → Bool
is_letter a c = c == a || c + 32 == a && leb b'a' a && leb a b'z'

unfoldable pub spells : Text → Text → Bool
spells [] [] = true
spells [] (c ∷ cs) = false
spells (a ∷ bs) [] = false
spells (a ∷ bs) (c ∷ cs) = is_letter a c && spells bs cs

unfoldable pub spells_any : List Text → Text → Bool
unfolding spells
spells_any [] t = false
spells_any (n ∷ ns) t = spells n t || spells_any ns t

unfoldable pub stem : Text → Text
stem [] = []
stem (c ∷ cs) = let rest = stem cs in if c == b'.' then [] else c ∷ rest

-- How a host takes a name, none where it is that of a device.
unfoldable pub name_on : Platform → Text → Option Text
unfolding stripped stem spells_any
name_on posix s = some s
name_on windows s = if spells_any devices (stem s) then none else some (stripped s)

-- How a host follows one segment, and a path: an empty segment and `.` stay, `..` goes up. On
-- Windows a colon names a drive or a stream of a file; a path from a separator on leaves the place.
abbrev pub below : Place → Option Text → Option Place
below place none = none
below place (some s) = if is_empty s then some place else some (s ∷ place)

unfoldable pub enter : Platform → Text → Place → Option Place
unfolding name_on
enter host s place =
    if is_empty s || is_dot s
    then some place
    else if is_dot_dot s
    then some (parent place)
    else below place (name_on host s)

unfoldable pub follow : Platform → Option Place → List Text → Option Place
unfolding enter
follow host none ss = none
follow host (some place) [] = some place
follow host (some place) (s ∷ ss) = follow host (enter host s place) ss

abbrev pub is_absolute : Platform → Text → Bool
is_absolute host [] = false
is_absolute host (c ∷ cs) = separates host c

abbrev pub has_colon : Platform → Text → Bool
has_colon posix path = false
has_colon windows path = includes b':' path

-- The place that a path names when a host reads it in a place, none where that is no place of files.
unfoldable pub resolve : Platform → Place → Text → Option Place
unfolding follow segments includes
resolve host place path =
    if has_colon host path
    then none
    else follow host (some (if is_absolute host path then [] else place)) (segments host path)

unfoldable pub place_text : Place → Text
place_text [] = []
place_text (s ∷ ss) = place_text ss ++ b'/' ∷ s
