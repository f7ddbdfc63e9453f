-- ===== src/Edits/Files.antt =====
-- packages/core/src/file-create.ts and packages/core/src/file-delete-rename.ts: plans to create, delete
-- and rename one file. A value that is no record with exactly the keys of its plan, all of them
-- strings, is none. The hash of a text, which may throw, is a parameter.
pub mod Moves
use ctrl_zebra.Prelude.{
  ℕ, Bool, true, false, not, ◌&&◌, ◌||◌, List, [], ◌∷◌, Option, none, some, leb, ltb, ◌==◌, length,
  if◌then◌else◌,
}
use ctrl_zebra.Text.{Text, text_length, utf8_byte_length, is_well_formed}
use ctrl_zebra.Tools.Json.{same_text}
use ctrl_zebra.Edits.WorkspacePath.{
  includes, is_safe_workspace_path, max_workspace_path_characters, max_workspace_path_bytes,
}
use ctrl_zebra.Edits.Workspace.{count_logical_lines, line_breaks, max_approval_uri_characters}

abbrev pub max_file_create_content_characters : ℕ
max_file_create_content_characters = 65_536

abbrev pub max_file_create_content_lines : ℕ
max_file_create_content_lines = 2_000

abbrev pub max_file_create_content_bytes : ℕ
max_file_create_content_bytes = 262_144

pub record FileCreatePlan : Type 0 where
  pub path : Text
  pub uri : Text
  pub content : Text
  pub after_hash : Text

pub record FileDeletePlan : Type 0 where
  pub path : Text
  pub uri : Text
  pub before_content : Text
  pub before_hash : Text

pub record FileRenamePlan : Type 0 where
  pub source_path : Text
  pub target_path : Text
  pub source_uri : Text
  pub target_uri : Text
  pub before_content : Text
  pub before_hash : Text

-- A plan with the text of its key `operation`.
pub record Proposed (A : Type 0) : Type 0 where
  pub operation : Text
  pub plan : A

-- `checkpointHashSchema`
abbrev pub is_hex : ℕ → Bool
is_hex c = (leb b'a' c && leb c b'f') || (leb b'0' c && leb c b'9')

unfoldable pub all_hex : Text → Bool
all_hex [] = true
all_hex (c ∷ cs) = is_hex c && all_hex cs

abbrev pub is_checkpoint_hash : Text → Bool
is_checkpoint_hash t = length t == 64 && all_hex t

unfoldable pub is_safe_mutation_path : Text → Bool
is_safe_mutation_path path =
    is_safe_workspace_path max_workspace_path_characters max_workspace_path_bytes path

unfoldable pub is_safe_uri : Text → Bool
is_safe_uri uri = ltb 0 (text_length uri) && leb (text_length uri) max_approval_uri_characters

unfoldable pub is_bounded_mutation_text : Text → Bool
is_bounded_mutation_text t =
    is_well_formed t
    && not (includes 0 t)
    && leb (length t) max_file_create_content_characters
    && leb (count_logical_lines t) max_file_create_content_lines
    && leb (utf8_byte_length t) max_file_create_content_bytes

abbrev pub has_hash : Option Text → Text → Bool
has_hash none expected = false
has_hash (some actual) expected = same_text actual expected

-- `assertHash`
abbrev pub assert_hash : (Text → Option Text) → Text → Text → Bool
assert_hash hash_text content expected = has_hash (hash_text content) expected

abbrev pub accept : {A : Type 0} → Bool → A → Option A
accept true plan = some plan
accept false plan = none

abbrev pub create_operation : Text
create_operation = b'c' ∷ b'r' ∷ b'e' ∷ b'a' ∷ b't' ∷ b'e' ∷ []

abbrev pub delete_operation : Text
delete_operation = b'd' ∷ b'e' ∷ b'l' ∷ b'e' ∷ b't' ∷ b'e' ∷ []

abbrev pub rename_operation : Text
rename_operation = b'r' ∷ b'e' ∷ b'n' ∷ b'a' ∷ b'm' ∷ b'e' ∷ []

abbrev pub is_create_plan : (Text → Option Text) → Proposed FileCreatePlan → Bool
is_create_plan hash_text v =
    same_text v.operation create_operation
    && is_safe_mutation_path v.plan.path
    && is_safe_uri v.plan.uri
    && is_bounded_mutation_text v.plan.content
    && is_checkpoint_hash v.plan.after_hash
    && assert_hash hash_text v.plan.content v.plan.after_hash

unfoldable pub parse_file_create_plan :
    (Text → Option Text) → Option (Proposed FileCreatePlan) → Option FileCreatePlan
parse_file_create_plan hash_text none = none
parse_file_create_plan hash_text (some v) = accept (is_create_plan hash_text v) v.plan

abbrev pub is_delete_plan : (Text → Option Text) → Proposed FileDeletePlan → Bool
is_delete_plan hash_text v =
    same_text v.operation delete_operation
    && is_safe_mutation_path v.plan.path
    && is_safe_uri v.plan.uri
    && is_bounded_mutation_text v.plan.before_content
    && is_checkpoint_hash v.plan.before_hash
    && assert_hash hash_text v.plan.before_content v.plan.before_hash

unfoldable pub parse_file_delete_plan :
    (Text → Option Text) → Option (Proposed FileDeletePlan) → Option FileDeletePlan
parse_file_delete_plan hash_text none = none
parse_file_delete_plan hash_text (some v) = accept (is_delete_plan hash_text v) v.plan

abbrev pub is_rename_plan : (Text → Option Text) → Proposed FileRenamePlan → Bool
is_rename_plan hash_text v =
    same_text v.operation rename_operation
    && is_safe_mutation_path v.plan.source_path
    && is_safe_mutation_path v.plan.target_path
    && not (same_text v.plan.source_path v.plan.target_path)
    && is_safe_uri v.plan.source_uri
    && is_safe_uri v.plan.target_uri
    && not (same_text v.plan.source_uri v.plan.target_uri)
    && is_bounded_mutation_text v.plan.before_content
    && is_checkpoint_hash v.plan.before_hash
    && assert_hash hash_text v.plan.before_content v.plan.before_hash

unfoldable pub parse_file_rename_plan :
    (Text → Option Text) → Option (Proposed FileRenamePlan) → Option FileRenamePlan
parse_file_rename_plan hash_text none = none
parse_file_rename_plan hash_text (some v) = accept (is_rename_plan hash_text v) v.plan
