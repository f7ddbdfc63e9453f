-- ===== src/Tests/ExternalTests.antt =====
-- A resource that is attached to a run.
use ctrl_zebra.Prelude.{◌≤◌, [], ◌∷◌, some, false, length, refl}
use ctrl_zebra.Numbers.{JsNumber, nonneg, bounded_count}
use ctrl_zebra.Messages.{ModelMessage}
use ctrl_zebra.Context.Files
use ctrl_zebra.Context.Files.{project_within_budget, project_files}
use ctrl_zebra.Context.External.{
  ResourceLabels, McpResourceAttachment, resource_message, resource_messages, prompt_messages,
  sum_with, assert_within_budget, count_messages, project_external_resource_context,
  project_external_prompt_context, project_external_context,
}
use ctrl_zebra.Context.External.Sums.{tokens, project_external_context-tokens}

abbrev file_labels : Files.Labels
file_labels = record {
  heading = [];
  path = [];
  stale = [];
  truncated = [];
  opening = [];
  closing = [];
  yes_text = [];
  no_text = [];
  marker = [];
}

abbrev labels : ResourceLabels
labels = record {
  heading = [];
  server = [];
  uri = [];
  mime = [];
  truncated = [];
  opening = [];
  closing = [];
  yes_text = [];
  no_text = [];
}

abbrev text_tokens : ModelMessage → JsNumber
text_tokens (ModelMessage.text role t) = nonneg (length t)
text_tokens m = nonneg 0

abbrev attachment : McpResourceAttachment
attachment = record {
  server_id = b's' ∷ [];
  uri = b'u' ∷ [];
  mime_type = b'm' ∷ [];
  truncated = false;
  text = b't' ∷ [];
}

project_external_context-tokens_example :
    tokens text_tokens (resource_message labels attachment ∷ []) ≤ 20
unfolding project_external_context project_external_resource_context project_external_prompt_context
    resource_messages prompt_messages assert_within_budget count_messages sum_with bounded_count
    project_within_budget project_files
project_external_context-tokens_example =
    project_external_context-tokens file_labels labels text_tokens 32 20 [] (some attachment ∷ [])
      [] (resource_message labels attachment ∷ []) refl
