-- ===== src/Edits/Workspace.antt =====
-- packages/core/src/workspace-edit.ts: the edits of several files as one plan. A value that is no record
-- with exactly the keys of its type is none; a revision that its schema accepts is a number.
pub mod Planned
use ctrl_zebra.Prelude.{
  ℕ, zero, suc, ◌+◌, Bool, true, false, not, ◌&&◌, ◌||◌, List, [], ◌∷◌, Option, none, some, Result,
  ok, err, ◌>>=◌, leb, ltb, ◌==◌, length, if◌then◌else◌,
}
use ctrl_zebra.Text.{Text, text_length, utf8_byte_length, is_well_formed}
use ctrl_zebra.Tools.Json.{utf16, units_before, same_text}
use ctrl_zebra.Edits.Plan.{
  TextEdit, RawEdit, TextEditError, invalid_plan, overlapping, Sign, less, same, more, or_else,
  is_more, parse_text_edits,
}
use ctrl_zebra.Edits.WorkspacePath.{
  includes, has_name, is_safe_workspace_path, max_workspace_path_characters,
  max_workspace_path_bytes,
}

abbrev pub min_workspace_edit_files : ℕ
min_workspace_edit_files = 2

abbrev pub max_workspace_edit_files : ℕ
max_workspace_edit_files = 128

abbrev pub max_workspace_edit_text_characters : ℕ
max_workspace_edit_text_characters = 65_536

abbrev pub max_workspace_edit_text_lines : ℕ
max_workspace_edit_text_lines = 2_000

abbrev pub max_workspace_edit_text_bytes : ℕ
max_workspace_edit_text_bytes = 262_144

abbrev pub max_workspace_edit_aggregate_replacement_bytes : ℕ
max_workspace_edit_aggregate_replacement_bytes = 1_048_576

abbrev pub max_approval_uri_characters : ℕ
max_approval_uri_characters = 4_096

pub record RawFile : Type 0 where
  pub path : Text
  pub uri : Text
  pub original_revision : Option ℕ
  pub edits : List (Option RawEdit)

pub record WorkspaceEditFilePlan : Type 0 where
  pub path : Text
  pub uri : Text
  pub original_revision : ℕ
  pub edits : List TextEdit

pub data WorkspaceEditError : Type 0 where
  invalid_workspace_plan overlapping_workspace_edit : WorkspaceEditError

-- The parts that `/\r\n|\r|\n/` splits a text into.
unfoldable pub line_breaks : Text → ℕ
line_breaks [] = 0
line_breaks (c ∷ []) = if c == b'\r' || c == b'\n' then 1 else 0
line_breaks (c ∷ d ∷ cs) =
    let rest = line_breaks (d ∷ cs) in
    if c == b'\r'
    then (if d == b'\n' then rest else suc rest)
    else if c == b'\n'
    then suc rest
    else rest

abbrev pub count_logical_lines : Text → ℕ
count_logical_lines [] = 0
count_logical_lines (c ∷ cs) = suc (line_breaks (c ∷ cs))

unfoldable pub is_bounded_workspace_edit_text : Text → Bool
unfolding is_well_formed includes line_breaks utf8_byte_length
is_bounded_workspace_edit_text t =
    is_well_formed t
    && not (includes 0 t)
    && leb (length t) max_workspace_edit_text_characters
    && leb (count_logical_lines t) max_workspace_edit_text_lines
    && leb (utf8_byte_length t) max_workspace_edit_text_bytes

unfoldable pub is_safe_workspace_edit_path : Text → Bool
is_safe_workspace_edit_path path =
    is_safe_workspace_path max_workspace_path_characters max_workspace_path_bytes path

-- The `catch` around `parseTextEdits`.
abbrev pub edits_of :
    Result TextEditError (List TextEdit) → Result WorkspaceEditError (List TextEdit)
edits_of (ok edits) = ok edits
edits_of (err overlapping) = err overlapping_workspace_edit
edits_of (err invalid_plan) = err invalid_workspace_plan

unfoldable pub all_bounded : List TextEdit → Bool
all_bounded [] = true
all_bounded (e ∷ es) = is_bounded_workspace_edit_text e.new_text && all_bounded es

abbrev pub planned_file :
    RawFile → ℕ → List TextEdit → Result WorkspaceEditError WorkspaceEditFilePlan
planned_file raw revision edits =
    if all_bounded edits
    then ok (record { path = raw.path; uri = raw.uri; original_revision = revision; edits = edits })
    else err invalid_workspace_plan

abbrev pub required : {A : Type 0} → Option A → Result WorkspaceEditError A
required none = err invalid_workspace_plan
required (some a) = ok a

unfoldable pub parse_workspace_edit_file :
    Option RawFile → Result WorkspaceEditError WorkspaceEditFilePlan
parse_workspace_edit_file value = do
  raw ← required value
  if not (is_safe_workspace_edit_path raw.path)
        || text_length raw.uri == 0
        || ltb max_approval_uri_characters (text_length raw.uri)
      then err invalid_workspace_plan
      else (do
        revision ← required raw.original_revision
        edits ← edits_of (parse_text_edits raw.edits)
        planned_file raw revision edits)

unfoldable pub parse_files :
    List (Option RawFile) → Result WorkspaceEditError (List WorkspaceEditFilePlan)
parse_files [] = ok []
parse_files (v ∷ vs) =
    let rest = parse_files vs in
    (do file ← parse_workspace_edit_file v; files ← rest; ok (file ∷ files))

-- `<` and `>` on strings compare UTF-16 code units.
unfoldable pub compare_strings : Text → Text → Sign
compare_strings left right =
    if units_before (utf16 left) (utf16 right)
    then less
    else if units_before (utf16 right) (utf16 left)
    then more
    else same

unfoldable pub compare_workspace_edit_files : WorkspaceEditFilePlan → WorkspaceEditFilePlan → Sign
compare_workspace_edit_files left right =
    or_else (compare_strings left.path right.path) (compare_strings left.uri right.uri)

unfoldable pub insert_file :
    WorkspaceEditFilePlan → List WorkspaceEditFilePlan → List WorkspaceEditFilePlan
insert_file f [] = f ∷ []
insert_file f (g ∷ gs) =
    if is_more (compare_workspace_edit_files f g) then g ∷ insert_file f gs else f ∷ g ∷ gs

unfoldable pub sort_files : List WorkspaceEditFilePlan → List WorkspaceEditFilePlan
sort_files [] = []
sort_files (f ∷ fs) = insert_file f (sort_files fs)

-- The bytes so far with those of the edits, or none once they are too many.
unfoldable pub add_replacements : List TextEdit → ℕ → Option ℕ
add_replacements [] bytes = some bytes
add_replacements (e ∷ es) bytes =
    let total = bytes + utf8_byte_length e.new_text in
    let rest = add_replacements es total in
    if ltb max_workspace_edit_aggregate_replacement_bytes total then none else rest

-- The loop over the files, with the sets of paths and of uris seen so far.
unfoldable pub check_files : List Text → List Text → ℕ → List WorkspaceEditFilePlan → Bool
check_files paths uris bytes [] = true
check_files paths uris bytes (f ∷ fs) =
    if has_name paths f.path || has_name uris f.uri
    then false
    else elim (add_replacements f.edits bytes) [
      | none ↦ false
      | some total ↦ check_files (f.path ∷ paths) (f.uri ∷ uris) total fs
    ]

unfoldable pub parse_workspace_edit_plan :
    Option (List (Option RawFile)) → Result WorkspaceEditError (List WorkspaceEditFilePlan)
parse_workspace_edit_plan value = do
  raws ← required value
  if ltb (length raws) min_workspace_edit_files || ltb max_workspace_edit_files (length raws)
      then err invalid_workspace_plan
      else (do
        parsed ← parse_files raws
        let files = sort_files parsed
        if check_files [] [] 0 files then ok files else err invalid_workspace_plan)
