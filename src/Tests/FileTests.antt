-- ===== src/Tests/FileTests.antt =====
-- A rename that is accepted, with a hash that is the same for every text.
use ctrl_zebra.Prelude.{ℕ, zero, suc, refl, [], ◌∷◌, Option, some}
use ctrl_zebra.Text.{Text, text_length, utf8_byte_length, is_well_formed}
use ctrl_zebra.Tools.Json.{same_text}
use ctrl_zebra.Edits.WorkspacePath.{includes, is_safe_workspace_path}
use ctrl_zebra.Edits.WorkspacePath.Hosts.{windows}
use ctrl_zebra.Edits.Workspace.{line_breaks}
use ctrl_zebra.Edits.Files.{
  FileRenamePlan, rename_operation, all_hex, is_safe_mutation_path, is_safe_uri,
  is_bounded_mutation_text, parse_file_rename_plan,
}
use ctrl_zebra.Edits.Files.Moves.{IsMove, parse_file_rename_plan-IsMove}

abbrev letters : ℕ → Text
letters zero = []
letters (suc n) = b'a' ∷ letters n

abbrev one_hash : Text → Option Text
one_hash t = some (letters 64)

abbrev renamed : FileRenamePlan
renamed = record {
  source_path = b'a' ∷ [];
  target_path = b'd' ∷ b'/' ∷ b'a' ∷ [];
  source_uri = b'u' ∷ [];
  target_uri = b'v' ∷ [];
  before_content = b'x' ∷ b'\n' ∷ [];
  before_hash = letters 64;
}

parse_file_rename_plan-IsMove_example : IsMove one_hash windows ((b'w' ∷ []) ∷ []) renamed
unfolding parse_file_rename_plan is_safe_mutation_path is_safe_workspace_path is_safe_uri
    is_bounded_mutation_text all_hex same_text text_length utf8_byte_length is_well_formed includes
    line_breaks
parse_file_rename_plan-IsMove_example =
    parse_file_rename_plan-IsMove one_hash
      (some (record { operation = rename_operation; plan = renamed })) renamed windows
      ((b'w' ∷ []) ∷ []) refl
