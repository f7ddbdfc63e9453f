-- ===== src/Tests/EditTests.antt =====
-- A path and two edits that are let through.
use ctrl_zebra.Prelude.{ℕ, ◌≡◌, ◌↔◌, false, refl, [], ◌∷◌, ◌++◌, List, Option, some, ok, err, arith}
use mathlib.Core.List.{Perm}
use ctrl_zebra.Numbers.{nonneg}
use ctrl_zebra.Text.{Text, text_length, utf8_byte_length, is_well_formed}
use ctrl_zebra.Edits.WorkspacePath.{
  is_safe_workspace_path, max_workspace_path_characters, max_workspace_path_bytes,
}
use ctrl_zebra.Edits.WorkspacePath.{has_name, includes}
use ctrl_zebra.Edits.WorkspacePath.Hosts.{windows, resolve, place_text}
use ctrl_zebra.Edits.WorkspacePath.Below.{Gets, is_safe_workspace_path-resolve}
use ctrl_zebra.Edits.Workspace.{
  RawFile, WorkspaceEditFilePlan, parse_workspace_edit_plan, parse_files, parse_workspace_edit_file,
  is_safe_workspace_edit_path, sort_files, insert_file, compare_workspace_edit_files,
  compare_strings, check_files, add_replacements, all_bounded, is_bounded_workspace_edit_text,
  line_breaks,
}
use ctrl_zebra.Edits.Workspace.Planned.{IsPlan, parse_workspace_edit_plan-IsPlan}
use ctrl_zebra.Tools.Json.{utf16, units_before, same_text}
use ctrl_zebra.Edits.Plan.{TextEdit, overlapping, RawEdit, parse_all, parse_text_edits}
use ctrl_zebra.Edits.Plan.Apart.{IsApart}
use ctrl_zebra.Edits.Plan.Arranged.{parse_text_edits-IsApart}

abbrev note : Text
note = b'd' ∷ b'/' ∷ b'n' ∷ []

abbrev climb : Text
climb = b'.' ∷ b'.' ∷ b'/' ∷ b'n' ∷ []

climb_refused : is_safe_workspace_path 4096 16384 climb ≡ false
unfolding is_safe_workspace_path
climb_refused = refl

is_safe_workspace_path-resolve_example :
    Gets (resolve windows ((b'w' ∷ []) ∷ []) note) (place_text ((b'w' ∷ []) ∷ []) ++ b'/' ∷ note)
unfolding is_safe_workspace_path
is_safe_workspace_path-resolve_example =
    is_safe_workspace_path-resolve windows max_workspace_path_characters max_workspace_path_bytes
      note ((b'w' ∷ []) ∷ []) refl

abbrev raw_edit : ℕ → ℕ → Option RawEdit
raw_edit from to = some (record {
  start = some (record { line = nonneg 0; character = nonneg from });
  end = some (record { line = nonneg 0; character = nonneg to });
  new_text = some [];
})

abbrev edit : ℕ → ℕ → TextEdit
edit from to = record {
  range = record {
    start = record { line = 0; character = from };
    end = record { line = 0; character = to };
  };
  new_text = [];
}

abbrev given : List (Option RawEdit)
given = raw_edit 4 6 ∷ raw_edit 0 4 ∷ []

abbrev in_a_row : List TextEdit
in_a_row = edit 0 4 ∷ edit 4 6 ∷ []

parse_text_edits-IsApart_example :
    (parse_text_edits given ≡ ok in_a_row)
    ↔ (IsApart in_a_row × Perm in_a_row (edit 4 6 ∷ edit 0 4 ∷ []))
unfolding parse_all
parse_text_edits-IsApart_example =
    parse_text_edits-IsApart given (edit 4 6 ∷ edit 0 4 ∷ []) in_a_row (omega arith) (omega arith)
      refl

overlap_refused : parse_text_edits (raw_edit 0 4 ∷ raw_edit 3 6 ∷ []) ≡ err overlapping
unfolding parse_text_edits
overlap_refused = refl

abbrev raw_file : ℕ → Option RawFile
raw_file name = some (record {
  path = name ∷ [];
  uri = b'u' ∷ name ∷ [];
  original_revision = some 1;
  edits = raw_edit 0 4 ∷ [];
})

abbrev file : ℕ → WorkspaceEditFilePlan
file name = record {
  path = name ∷ [];
  uri = b'u' ∷ name ∷ [];
  original_revision = 1;
  edits = edit 0 4 ∷ [];
}

parse_workspace_edit_plan-IsPlan_example : IsPlan (file b'a' ∷ file b'b' ∷ [])
unfolding parse_workspace_edit_plan parse_files parse_workspace_edit_file
    is_safe_workspace_edit_path is_safe_workspace_path parse_text_edits sort_files insert_file
    compare_workspace_edit_files compare_strings check_files has_name add_replacements all_bounded
    is_bounded_workspace_edit_text text_length utf8_byte_length utf16 units_before same_text
    is_well_formed includes line_breaks
parse_workspace_edit_plan-IsPlan_example =
    parse_workspace_edit_plan-IsPlan (raw_file b'b' ∷ raw_file b'a' ∷ [])
      (file b'a' ∷ file b'b' ∷ []) refl
