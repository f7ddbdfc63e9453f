-- ===== src/Edits/WorkspacePath/Below.antt =====
-- Where a path leads that packages/core/src/workspace-path.ts lets through.
use ctrl_zebra.Prelude.{
  ℕ, ◌≡◌, refl, sym, ◌∙◌, ap, arith, Bool, true, false, not, ◌&&◌, ◌||◌, leb, ltb, length, List, [],
  ◌∷◌, ◌++◌, Option, some, map, ◌==◌, Bool-cases, inl, inr,
}
use mathlib.Core.List.{append_assoc, append-nil}
use ctrl_zebra.Text.{Text, utf8_byte_length}
use ctrl_zebra.Tools.Json.{same_text}
use ctrl_zebra.Edits.WorkspacePath.{
  push, split, first, is_empty, is_dot, is_dot_dot, includes, starts_with, ends_with, lower_case,
  has_name, windows_reserved_device_names, is_safe_workspace_path_segment, all_safe,
  is_safe_workspace_path,
}
use ctrl_zebra.Edits.WorkspacePath.Hosts.{
  Platform, posix, windows, Place, segments, stripped, devices, spells, spells_any, stem, name_on,
  enter, follow, is_absolute, has_colon, resolve, place_text,
}

unfoldable pub joined : List Text → Text
joined [] = []
joined (s ∷ ss) = (b'/' ∷ s) ++ joined ss

joined-push :
    (c : ℕ) (cs : Text) (ss : List Text)
    → joined ss ≡ b'/' ∷ cs
    → joined (push c ss) ≡ b'/' ∷ c ∷ cs
unfolding joined
joined-push c cs [] h = cc
joined-push c cs (s ∷ ss) h = cc

joined-split : (path : Text) → joined (split b'/' path) ≡ b'/' ∷ path
unfolding split joined
joined-split [] = refl
joined-split (c ∷ cs) =
    let rest = joined-split cs in
    elim (Bool-cases (c == b'/')) [
      | inl slash ↦ let same : c ≡ b'/' = ground arith in simp same (ap (◌∷◌ b'/') rest)
      | inr other ↦ simp other (joined-push c cs (split b'/' cs) rest)
    ]

segments-split :
    (host : Platform) (path : Text)
    → includes b'\\' path ≡ false
    → segments host path ≡ split b'/' path
unfolding segments split includes
segments-split host [] h = refl
segments-split posix (c ∷ cs) h = let rest = segments-split posix cs in ground arith
segments-split windows (c ∷ cs) h = let rest = segments-split windows cs in ground arith

stripped-same : (s : Text) → ends_with b'.' s ≡ false → ends_with b' ' s ≡ false → stripped s ≡ s
unfolding stripped ends_with
stripped-same [] h k = refl
stripped-same (c ∷ []) h k = ground arith
stripped-same (c ∷ d ∷ cs) h k = let rest = stripped-same (d ∷ cs) h k in ground arith

first-push : (c : ℕ) (ss : List Text) → first (push c ss) ≡ c ∷ first ss
first-push c [] = refl
first-push c (s ∷ ss) = refl

stem-first : (s : Text) → stem s ≡ first (split b'.' s)
unfolding stem split
stem-first [] = refl
stem-first (c ∷ cs) =
    let rest = stem-first cs in let pushed = first-push c (split b'.' cs) in ground arith

abbrev is_small : Text → Bool
is_small [] = true
is_small (a ∷ bs) = not (leb b'A' a && leb a b'Z') && is_small bs

abbrev all_small : List Text → Bool
all_small [] = true
all_small (n ∷ ns) = is_small n && all_small ns

spells-lower :
    (n t : Text) → is_small n ≡ true → spells n t ≡ true → same_text n (map lower_case t) ≡ true
unfolding spells same_text
spells-lower [] [] h k = refl
spells-lower [] (c ∷ cs) h k = cc
spells-lower (a ∷ bs) [] h k = cc
spells-lower (a ∷ bs) (c ∷ cs) h k = let rest = spells-lower bs cs in ground arith

spells_any-has_name :
    (ns : List Text) (t : Text)
    → all_small ns ≡ true
    → spells_any ns t ≡ true
    → has_name ns (map lower_case t) ≡ true
unfolding spells_any has_name
spells_any-has_name [] t h k = cc
spells_any-has_name (n ∷ ns) t h k =
    let here = spells-lower n t in let rest = spells_any-has_name ns t in ground arith

-- The tests of a segment, one by one.
safe_tests :
    (e d dd dot space device : Bool)
    → (not (e || d || dd || dot || space) && not device) ≡ true
    → (e ≡ false) × (d ≡ false) × (dd ≡ false) × (dot ≡ false) × (space ≡ false) × (device ≡ false)
safe_tests e d dd dot space device h = ground arith

no_device :
    (s : Text)
    → has_name windows_reserved_device_names (map lower_case (first (split b'.' s))) ≡ false
    → spells_any devices (stem s) ≡ false
no_device s h = elim (Bool-cases (spells_any devices (stem s))) [
  | inl spelled ↦
      let named = spells_any-has_name devices (stem s) refl spelled in
      let same : stem s ≡ first (split b'.' s) = stem-first s in cc
  | inr other ↦ other
]

name_on-same :
    (host : Platform) (s : Text)
    → spells_any devices (stem s) ≡ false
    → stripped s ≡ s
    → name_on host s ≡ some s
unfolding name_on
name_on-same posix s h k = refl
name_on-same windows s h k = simp h (ap some k)

safe-enter :
    (host : Platform) (s : Text) (place : Place)
    → is_safe_workspace_path_segment s ≡ true
    → enter host s place ≡ some (s ∷ place)
unfolding is_safe_workspace_path_segment enter
safe-enter host s place h =
    let tests =
      safe_tests (is_empty s) (is_dot s) (is_dot_dot s) (ends_with b'.' s) (ends_with b' ' s)
        (has_name windows_reserved_device_names (map lower_case (first (split b'.' s)))) h in
    let named = name_on-same host s (no_device s tests.5) (stripped-same s tests.3 tests.4) in
    simp (tests.0, tests.1, tests.2, named) refl

both_hold : (a b : Bool) → (a && b) ≡ true → (a ≡ true) × (b ≡ true)
both_hold a b h = ground arith

-- That a host gets somewhere by some segments, and with what names.
abbrev pub Gets : Option Place → Text → Type 0
Gets found t = (p : Place) × (found ≡ some p) × (place_text p ≡ t)

follow-Gets :
    (host : Platform) (place : Place) (ss : List Text)
    → all_safe ss ≡ true
    → Gets (follow host (some place) ss) (place_text place ++ joined ss)
unfolding all_safe follow place_text joined
follow-Gets host place [] h = (place, refl, sym (append-nil (place_text place)))
follow-Gets host place (s ∷ ss) h =
    let safe = both_hold (is_safe_workspace_path_segment s) (all_safe ss) h in
    let here : enter host s place ≡ some (s ∷ place) = safe-enter host s place safe.0 in
    let (p, found, spelled) = follow-Gets host (s ∷ place) ss safe.1 in
    (
      p,
      ap (λ q. follow host q ss) here ∙ found,
      spelled ∙ append_assoc (place_text place) (b'/' ∷ s) (joined ss),
    )

path_tests :
    (empty slash back colon long large safe : Bool)
    → (not (empty || slash || back || colon || long || large) && safe) ≡ true
    → (slash ≡ false) × (back ≡ false) × (colon ≡ false) × (safe ≡ true)
path_tests empty slash back colon long large safe h = ground arith

relative :
    (host : Platform) (path : Text)
    → starts_with b'/' path ≡ false
    → includes b'\\' path ≡ false
    → is_absolute host path ≡ false
unfolding includes
relative host [] h k = refl
relative posix (c ∷ cs) h k = h
relative windows (c ∷ cs) h k = ground arith

no_colon :
    (host : Platform) (path : Text) → includes b':' path ≡ false → has_colon host path ≡ false
no_colon posix path h = refl
no_colon windows path h = h

-- Read in any place by a POSIX host or by Windows, a path that is let through names exactly the place
-- below it that the path spells, its separators and names unchanged: never up, and no other root,
-- drive, stream, device or shortened name.
pub is_safe_workspace_path-resolve :
    (host : Platform) (max_characters max_bytes : ℕ) (path : Text) (root : Place)
    → is_safe_workspace_path max_characters max_bytes path ≡ true
    → Gets (resolve host root path) (place_text root ++ b'/' ∷ path)
unfolding is_safe_workspace_path resolve
is_safe_workspace_path-resolve host max_characters max_bytes path root h =
    let (slash, back, colon, safe) =
      path_tests (is_empty path) (starts_with b'/' path) (includes b'\\' path) (includes b':' path)
        (ltb max_characters (length path)) (ltb max_bytes (utf8_byte_length path))
        (all_safe (split b'/' path)) h in
    let (p, found, spelled) = follow-Gets host root (split b'/' path) safe in
    simp (no_colon host path colon, relative host path slash back, segments-split host path back)
      (p, found, spelled ∙ ap (λ t. place_text root ++ t) (joined-split path))
