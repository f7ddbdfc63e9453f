-- ===== src/Context/External.antt =====
-- packages/core/src/external-resource-context.ts: resources, prompts and files within one budget of
-- tokens. An attachment or a prompt that its schema refuses is none; the texts of the labels are a
-- parameter.
pub mod Sums
use ctrl_zebra.Prelude.{
  ℕ, ◌+◌, ◌-◌, Bool, true, false, List, [], ◌∷◌, ◌++◌, Option, none, some, Result, ok, err, ◌>>=◌,
  ◌>>◌, leb, ltb, length, if◌then◌else◌,
}
use ctrl_zebra.Numbers.{JsNumber, nonneg, max_safe_integer, bounded_count}
use ctrl_zebra.Text.{Text}
use ctrl_zebra.Messages.{MessageRole, ModelMessage}
use ctrl_zebra.Budget.Window.{max_model_context_window_tokens}
use ctrl_zebra.Context.Files
use ctrl_zebra.Context.Files.{WorkspaceFileReference, ContextError, project_within_budget}

abbrev pub max_external_resource_attachments : ℕ
max_external_resource_attachments = 32

pub data ExternalError : Type 0 where
  external_budget_error refused_attachment : ExternalError
  files_error : ContextError → ExternalError

pub record McpResourceAttachment : Type 0 where
  pub server_id : Text
  pub uri : Text
  pub mime_type : Text
  pub truncated : Bool
  pub text : Text

pub record ResourceLabels : Type 0 where
  pub heading : Text
  pub server : Text
  pub uri : Text
  pub mime : Text
  pub truncated : Text
  pub opening : Text
  pub closing : Text
  pub yes_text : Text
  pub no_text : Text

abbrev pub resource_message : ResourceLabels → McpResourceAttachment → ModelMessage
resource_message labels r = ModelMessage.text MessageRole.user (
    labels.heading
    ++ b'\n'
      ∷ (labels.server
          ++ (r.server_id
              ++ b'\n'
                ∷ (labels.uri
                    ++ (r.uri
                        ++ b'\n'
                          ∷ (labels.mime
                              ++ (r.mime_type
                                  ++ b'\n'
                                    ∷ (labels.truncated
                                        ++ ((if r.truncated
                                              then labels.yes_text
                                              else labels.no_text)
                                            ++ b'\n'
                                              ∷ (labels.opening
                                                  ++ b'\n'
                                                    ∷ (r.text ++ b'\n' ∷ labels.closing)))))))))))

unfoldable pub resource_messages :
    ResourceLabels → List (Option McpResourceAttachment) → Result ExternalError (List ModelMessage)
resource_messages labels [] = ok []
resource_messages labels (none ∷ rs) = err refused_attachment
resource_messages labels (some r ∷ rs) = do
  rest ← resource_messages labels rs
  ok (resource_message labels r ∷ rest)

-- A prompt is its projected text.
unfoldable pub prompt_messages : List (Option Text) → Result ExternalError (List ModelMessage)
prompt_messages [] = ok []
prompt_messages (none ∷ ps) = err refused_attachment
prompt_messages (some t ∷ ps) = do
  rest ← prompt_messages ps
  ok (ModelMessage.text MessageRole.user t ∷ rest)

-- What both loops add up, where the sum is a safe integer.
unfoldable pub sum_with : (ModelMessage → JsNumber) → ℕ → ModelMessage → Result ExternalError ℕ
unfolding bounded_count
sum_with count so_far m = elim (bounded_count max_model_context_window_tokens (count m)) [
  | none ↦ err external_budget_error
  | some n ↦
      if leb (so_far + n) max_safe_integer then ok (so_far + n) else err external_budget_error
]

unfoldable pub assert_within_budget :
    (ModelMessage → JsNumber) → ℕ → ℕ → List ModelMessage → Result ExternalError (Unit {0})
assert_within_budget count budget estimated [] = ok tt
assert_within_budget count budget estimated (m ∷ ms) = do
  sum ← sum_with count estimated m
  if ltb budget sum then err external_budget_error else assert_within_budget count budget sum ms

unfoldable pub count_messages :
    (ModelMessage → JsNumber) → ℕ → List ModelMessage → Result ExternalError ℕ
count_messages count total [] = ok total
count_messages count total (m ∷ ms) = do sum ← sum_with count total m; count_messages count sum ms

abbrev pub within :
    {A : Type 0}
    → (ModelMessage → JsNumber)
    → ℕ
    → List A
    → Result ExternalError (List ModelMessage)
    → Result ExternalError (List ModelMessage)
within count budget given messages =
    if ltb max_external_resource_attachments (length given)
    then err external_budget_error
    else (do ms ← messages; assert_within_budget count budget 0 ms; ok ms)

-- `projectExternalResourceContext`, for a budget that was tested.
unfoldable pub project_external_resource_context :
    ResourceLabels
    → (ModelMessage → JsNumber)
    → ℕ
    → List (Option McpResourceAttachment)
    → Result ExternalError (List ModelMessage)
project_external_resource_context labels count budget attachments =
    within count budget attachments (resource_messages labels attachments)

unfoldable pub project_external_prompt_context :
    (ModelMessage → JsNumber) → ℕ → List (Option Text) → Result ExternalError (List ModelMessage)
project_external_prompt_context count budget prompts =
    within count budget prompts (prompt_messages prompts)

abbrev pub from_files : {A : Type 0} → Result ContextError A → Result ExternalError A
from_files (ok a) = ok a
from_files (err e) = err (files_error e)

-- The files go before the rest.
abbrev pub joined_context :
    Files.Labels
    → (ModelMessage → JsNumber)
    → ℕ
    → ℕ
    → List (Option WorkspaceFileReference)
    → List ModelMessage
    → Result ExternalError (List ModelMessage)
joined_context file_labels count max_references budget references mcp_messages = do
  mcp_tokens ← count_messages count 0 mcp_messages
  if ltb budget mcp_tokens then err external_budget_error else (do
    workspace ← from_files (
        project_within_budget file_labels count max_references references
          (nonneg (budget - mcp_tokens)))
    let messages = workspace ++ mcp_messages
    assert_within_budget count budget 0 messages
    ok messages)

-- What follows the test of the budget.
abbrev pub external_context :
    Files.Labels
    → ResourceLabels
    → (ModelMessage → JsNumber)
    → ℕ
    → List (Option WorkspaceFileReference)
    → List (Option McpResourceAttachment)
    → List (Option Text)
    → Option ℕ
    → Result ExternalError (List ModelMessage)
external_context file_labels labels count max_references references attachments prompts none =
    err external_budget_error
external_context file_labels labels count max_references references attachments prompts
      (some budget) =
    do
      resources ← project_external_resource_context labels count budget attachments
      texts ← project_external_prompt_context count budget prompts
      joined_context file_labels count max_references budget references (resources ++ texts)

-- `projectExternalContext`
unfoldable pub project_external_context :
    Files.Labels
    → ResourceLabels
    → (ModelMessage → JsNumber)
    → ℕ
    → List (Option WorkspaceFileReference)
    → List (Option McpResourceAttachment)
    → List (Option Text)
    → JsNumber
    → Result ExternalError (List ModelMessage)
project_external_context file_labels labels count max_references references attachments prompts
      budget =
    external_context file_labels labels count max_references references attachments prompts
      (bounded_count max_model_context_window_tokens budget)
