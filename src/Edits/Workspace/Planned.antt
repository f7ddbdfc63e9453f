-- ===== src/Edits/Workspace/Planned.antt =====
-- packages/core/src/workspace-edit.ts: what a plan that is accepted guarantees.
use ctrl_zebra.Prelude.{
  ℕ, suc, ◌+◌, ◌≡◌, ◌≢◌, ◌≤◌, refl, ◌∙◌, ap, subst, arith, Bool, true, false, not, ◌||◌, List, [],
  ◌∷◌, Option, none, some, Result, ok, err, ◌>>=◌, >>=-eq-ok, ok-injective, ltb, length,
  if◌then◌else◌, Bool-cases, Option-cases, inl, inr, All,
}
use ctrl_zebra.Text.{Text, utf8_byte_length}
use ctrl_zebra.Tools.Json.{same_text}
use ctrl_zebra.Tools.Json.Same.{same_text_refl}
use ctrl_zebra.Edits.Plan.{
  TextEdit, TextEditError, invalid_plan, overlapping, is_more, RawEdit, parse_text_edits, parse_all,
  arrange,
}
use ctrl_zebra.Edits.Plan.Apart.{IsApart}
use ctrl_zebra.Edits.Plan.Arranged.{arranged}
use ctrl_zebra.Edits.WorkspacePath.{has_name}
use ctrl_zebra.Edits.Workspace.{
  RawFile, WorkspaceEditFilePlan, invalid_workspace_plan, is_safe_workspace_edit_path, edits_of,
  all_bounded, planned_file, required, parse_workspace_edit_file, parse_files,
  compare_workspace_edit_files, insert_file, sort_files, add_replacements, check_files,
  parse_workspace_edit_plan, min_workspace_edit_files, max_workspace_edit_files,
  max_workspace_edit_aggregate_replacement_bytes,
}

-- One file of a plan.
abbrev pub IsFile : WorkspaceEditFilePlan → Type 0
IsFile f =
    (is_safe_workspace_edit_path f.path ≡ true) × (all_bounded f.edits ≡ true) × IsApart f.edits

-- No two files of a plan have one path or one uri.
abbrev pub IsOther : WorkspaceEditFilePlan → WorkspaceEditFilePlan → Type 0
IsOther f g = (f.path ≢ g.path) × (f.uri ≢ g.uri)

abbrev pub IsDistinct : List WorkspaceEditFilePlan → Type 0
IsDistinct [] = Unit
IsDistinct (f ∷ fs) = All (IsOther f) fs × IsDistinct fs

unfoldable pub replaced_bytes : List TextEdit → ℕ
replaced_bytes [] = 0
replaced_bytes (e ∷ es) = utf8_byte_length e.new_text + replaced_bytes es

unfoldable pub total_bytes : List WorkspaceEditFilePlan → ℕ
total_bytes [] = 0
total_bytes (f ∷ fs) = replaced_bytes f.edits + total_bytes fs

other_text : (s t : Text) → same_text s t ≡ false → s ≢ t
other_text s t h e =
    let same = subst (λ u. same_text s u ≡ true) e (same_text_refl s) in ground arith

add_replacements-total :
    (es : List TextEdit) (bytes total : ℕ)
    → bytes ≤ max_workspace_edit_aggregate_replacement_bytes
    → add_replacements es bytes ≡ some total
    → (total ≡ bytes + replaced_bytes es) × (total ≤ max_workspace_edit_aggregate_replacement_bytes)
unfolding add_replacements replaced_bytes
add_replacements-total [] bytes total b h = ground arith
add_replacements-total (e ∷ es) bytes total b h =
    let rest = add_replacements-total es (bytes + utf8_byte_length e.new_text) total in ground arith

abbrev IsFresh : List Text → List Text → WorkspaceEditFilePlan → Type 0
IsFresh paths uris f = (has_name paths f.path ≡ false) × (has_name uris f.uri ≡ false)

-- One step of the loop that does not fail.
check_files-cons :
    (paths uris : List Text) (bytes : ℕ) (f : WorkspaceEditFilePlan)
    (fs : List WorkspaceEditFilePlan)
    → check_files paths uris bytes (f ∷ fs) ≡ true
    → IsFresh paths uris f
      × ((total : ℕ) × (add_replacements f.edits bytes ≡ some total)
          × (check_files (f.path ∷ paths) (f.uri ∷ uris) total fs ≡ true))
unfolding check_files
check_files-cons paths uris bytes f fs h = elim (Option-cases (add_replacements f.edits bytes)) [
  | inl many ↦ ground arith
  | inr (total, few) ↦ (ground arith, (total, few, ground arith))
]

-- What is fresh with more seen is fresh with less.
IsFresh-before :
    (p u : Text) (paths uris : List Text) (f g : WorkspaceEditFilePlan)
    → f.path ≡ p
    → f.uri ≡ u
    → IsFresh (p ∷ paths) (u ∷ uris) g
    → IsOther f g × IsFresh paths uris g
unfolding has_name
IsFresh-before p u paths uris f g e e' h =
    let path_ : same_text p g.path ≡ false = ground arith in
    let uri_ : same_text u g.uri ≡ false = ground arith in
    ((other_text f.path g.path (rw e path_), other_text f.uri g.uri (rw e' uri_)), ground arith)

IsFresh-All :
    (paths uris : List Text) (f : WorkspaceEditFilePlan) (fs : List WorkspaceEditFilePlan)
    → All (IsFresh (f.path ∷ paths) (f.uri ∷ uris)) fs
    → All (IsOther f) fs × All (IsFresh paths uris) fs
IsFresh-All paths uris f [] h = (tt, tt)
IsFresh-All paths uris f (g ∷ fs) h =
    let here = IsFresh-before f.path f.uri paths uris f g refl refl h.0 in
    let rest = IsFresh-All paths uris f fs h.1 in ((here.0, rest.0), (here.1, rest.1))

check_files-IsDistinct :
    (paths uris : List Text) (bytes : ℕ) (fs : List WorkspaceEditFilePlan)
    → bytes ≤ max_workspace_edit_aggregate_replacement_bytes
    → check_files paths uris bytes fs ≡ true
    → All (IsFresh paths uris) fs
      × IsDistinct fs
      × (bytes + total_bytes fs ≤ max_workspace_edit_aggregate_replacement_bytes)
unfolding total_bytes
check_files-IsDistinct paths uris bytes [] b h = (tt, tt, omega arith)
check_files-IsDistinct paths uris bytes (f ∷ fs) b h =
    let (fresh, (total, few, later)) = check_files-cons paths uris bytes f fs h in
    let sum = add_replacements-total f.edits bytes total b few in
    let rest = check_files-IsDistinct (f.path ∷ paths) (f.uri ∷ uris) total fs sum.1 later in
    let split_ = IsFresh-All paths uris f fs rest.0 in
    ((fresh, split_.1), (split_.0, rest.1), omega (arith, sum.0, rest.2))

insert_file-All :
    (P : WorkspaceEditFilePlan → Type 0) (f : WorkspaceEditFilePlan)
    (fs : List WorkspaceEditFilePlan)
    → P f
    → All P fs
    → All P (insert_file f fs) × (length (insert_file f fs) ≡ suc (length fs))
unfolding insert_file
insert_file-All P f [] h all_ = ((h, tt), refl)
insert_file-All P f (g ∷ fs) h all_ =
    elim (Bool-cases (is_more (compare_workspace_edit_files f g))) [
      | inl later ↦
          let rest = insert_file-All P f fs h all_.1 in simp later ((all_.0, rest.0), ap suc rest.1)
      | inr here ↦ simp here ((h, all_), refl)
    ]

sort_files-All :
    (P : WorkspaceEditFilePlan → Type 0) (fs : List WorkspaceEditFilePlan)
    → All P fs
    → All P (sort_files fs) × (length (sort_files fs) ≡ length fs)
unfolding sort_files
sort_files-All P [] all_ = (tt, refl)
sort_files-All P (f ∷ fs) all_ =
    let rest = sort_files-All P fs all_.1 in
    let here = insert_file-All P f (sort_files fs) all_.0 rest.0 in (here.0, here.1 ∙ ap suc rest.1)

-- A test before a result that is a value.
passed :
    {E A : Type 0} (e : E) {v : A} (b : Bool) (r : Result E A)
    → (if b then err e else r) ≡ ok v
    → (b ≡ false) × (r ≡ ok v)
passed e true r h = cc
passed e false r h = (refl, h)

parse_text_edits-IsApart_ok :
    (values : List (Option RawEdit)) (edits : List TextEdit)
    → parse_text_edits values ≡ ok edits
    → IsApart edits
unfolding parse_text_edits
parse_text_edits-IsApart_ok values edits h =
    let (parsed, parses, arranges) =
      >>=-eq-ok (parse_all values) arrange
        (passed invalid_plan _ (parse_all values >>= arrange) h).1 in
    (arranged parsed edits arranges).0

edits_of-IsApart :
    (values : List (Option RawEdit)) (edits : List TextEdit)
    → edits_of (parse_text_edits values) ≡ ok edits
    → IsApart edits
edits_of-IsApart values edits h = of (parse_text_edits values) refl h
  where
    of :
        (r : Result TextEditError (List TextEdit))
        → parse_text_edits values ≡ r
        → edits_of r ≡ ok edits
        → IsApart edits
    of (ok es) e h = parse_text_edits-IsApart_ok values edits (e ∙ ap ok (ok-injective es edits h))
    of (err overlapping) e h = cc
    of (err invalid_plan) e h = cc

first_off : (a b c : Bool) → (not a || b || c) ≡ false → a ≡ true
first_off a b c h = ground arith

planned_file-IsFile :
    (raw : RawFile) (revision : ℕ) (edits : List TextEdit) (f : WorkspaceEditFilePlan)
    → is_safe_workspace_edit_path raw.path ≡ true
    → IsApart edits
    → planned_file raw revision edits ≡ ok f
    → IsFile f
planned_file-IsFile raw revision edits f safe apart h = elim (Bool-cases (all_bounded edits)) [
  | inl bounded ↦
      let made : WorkspaceEditFilePlan = record {
        path = raw.path;
        uri = raw.uri;
        original_revision = revision;
        edits = edits;
      } in
      let same : made ≡ f = ground arith in subst IsFile same (safe, bounded, apart)
  | inr unbounded ↦ ground arith
]

parse_workspace_edit_file-IsFile :
    (value : Option RawFile) (f : WorkspaceEditFilePlan)
    → parse_workspace_edit_file value ≡ ok f
    → IsFile f
unfolding parse_workspace_edit_file
parse_workspace_edit_file-IsFile none f h = cc
parse_workspace_edit_file-IsFile (some raw) f h =
    let (guards, inside) = passed invalid_workspace_plan _ _ h in
    let (revision, revises, then_) = >>=-eq-ok (required raw.original_revision) _ inside in
    let (edits, parses, plans) = >>=-eq-ok (edits_of (parse_text_edits raw.edits)) _ then_ in
    let apart = edits_of-IsApart raw.edits edits parses in
    planned_file-IsFile raw revision edits f (first_off _ _ _ guards) apart plans

parse_files-All :
    (values : List (Option RawFile)) (fs : List WorkspaceEditFilePlan)
    → parse_files values ≡ ok fs
    → All IsFile fs × (length fs ≡ length values)
unfolding parse_files
parse_files-All [] fs h =
    subst (λ gs. All IsFile gs × (length gs ≡ 0)) (ok-injective [] fs h) (tt, refl)
parse_files-All (v ∷ vs) fs h =
    let (f, parses, next) = >>=-eq-ok (parse_workspace_edit_file v) _ h in
    let (rest, others, made) = >>=-eq-ok (parse_files vs) _ next in
    let later = parse_files-All vs rest others in
    subst (λ gs. All IsFile gs × (length gs ≡ suc (length vs))) (ok-injective (f ∷ rest) fs made)
      ((parse_workspace_edit_file-IsFile v f parses, later.0), ap suc later.1)

from_zero : (n m : ℕ) → 0 + n ≤ m → n ≤ m
from_zero n m h = omega arith

within_files :
    (n : ℕ)
    → (ltb n min_workspace_edit_files || ltb max_workspace_edit_files n) ≡ false
    → (min_workspace_edit_files ≤ n) × (n ≤ max_workspace_edit_files)
within_files n h = ground arith

kept :
    {E A : Type 0} (e : E) {u v : A} (b : Bool)
    → ◌≡◌ {A = Result E A} (if b then ok u else err e) (ok v)
    → (b ≡ true) × (u ≡ v)
kept e true h = (refl, ok-injective _ _ h)
kept e false h = cc

-- What a plan is, whoever made it.
abbrev pub IsPlan : List WorkspaceEditFilePlan → Type 0
IsPlan files =
    (min_workspace_edit_files ≤ length files)
    × (length files ≤ max_workspace_edit_files)
    × All IsFile files
    × IsDistinct files
    × (total_bytes files ≤ max_workspace_edit_aggregate_replacement_bytes)

-- An accepted plan is for 2 to 128 files with distinct paths and distinct uris, each path safe, the
-- edits of each file apart from each other with bounded texts, and the new texts of all the files
-- together no longer than the bound on their bytes.
pub parse_workspace_edit_plan-IsPlan :
    (values : List (Option RawFile)) (files : List WorkspaceEditFilePlan)
    → parse_workspace_edit_plan (some values) ≡ ok files
    → IsPlan files
unfolding parse_workspace_edit_plan
parse_workspace_edit_plan-IsPlan values files h =
    let (count, inside) =
      passed invalid_workspace_plan
        (ltb (length values) min_workspace_edit_files
          || ltb max_workspace_edit_files (length values))
        _ h in
    let (parsed, parses, checks) = >>=-eq-ok (parse_files values) _ inside in
    let each = parse_files-All values parsed parses in
    let sorted = sort_files-All IsFile parsed each.0 in
    let (passes, same) =
      kept invalid_workspace_plan (check_files [] [] 0 (sort_files parsed)) checks in
    let distinct = check_files-IsDistinct [] [] 0 (sort_files parsed) (omega arith) passes in
    let many : length (sort_files parsed) ≡ length values = sorted.1 ∙ each.1 in
    let range = within_files (length (sort_files parsed)) (rw many count) in
    subst IsPlan same (range.0, range.1, sorted.0, distinct.1, from_zero _ _ distinct.2)
