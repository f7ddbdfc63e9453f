-- ===== src/Tests/ContextTests.antt =====
-- A file that is shown with a first part of its text.
use ctrl_zebra.Prelude.{[], ◌∷◌, some, false, length, arith}
use ctrl_zebra.Numbers.{JsNumber, nonneg}
use ctrl_zebra.Messages.{ModelMessage}
use ctrl_zebra.Context.Files.{WorkspaceFileReference, Labels, project_within_budget}
use ctrl_zebra.Context.Files.Within.{IsWithin, project_within_budget-IsWithin}

abbrev bare : Labels
bare = record {
  heading = [];
  path = [];
  stale = [];
  truncated = [];
  opening = [];
  closing = [];
  yes_text = b'y' ∷ [];
  no_text = b'n' ∷ [];
  marker = [];
}

abbrev by_length : ModelMessage → JsNumber
by_length (ModelMessage.text role t) = nonneg (length t)
by_length m = nonneg 0

abbrev reference : WorkspaceFileReference
reference = record {
  path = b'p' ∷ [];
  stale = false;
  truncated = false;
  text = b'a' ∷ b'b' ∷ b'c' ∷ b'd' ∷ [];
}

project_within_budget-IsWithin_example :
    IsWithin bare by_length
      (some reference ∷ [])
      12
      (project_within_budget bare by_length 32 (some reference ∷ []) (nonneg 12))
project_within_budget-IsWithin_example =
    project_within_budget-IsWithin bare by_length 32 (some reference ∷ []) 12 (omega arith)
