-- ===== src/Context/External/Sums.antt =====
-- packages/core/src/external-resource-context.ts: the tokens of what is projected.
use ctrl_zebra.Prelude.{
  ℕ, ◌+◌, ◌-◌, ◌≡◌, ◌≤◌, ◌⊎◌, refl, subst, arith, Bool, true, false, List, [], ◌∷◌, ◌++◌, Option,
  none, some, Result, ok, err, >>=-eq-ok, ok-injective, ltb, if◌then◌else◌, inl, inr,
}
use ctrl_zebra.Numbers.{JsNumber, nonneg, bounded_count}
use ctrl_zebra.Messages.{ModelMessage}
use ctrl_zebra.Text.{Text}
use ctrl_zebra.Budget.Window.{max_model_context_window_tokens}
use ctrl_zebra.Context.Files
use ctrl_zebra.Context.Files.{WorkspaceFileReference, project_within_budget}
use ctrl_zebra.Context.External.{
  external_budget_error, ResourceLabels, McpResourceAttachment, sum_with, assert_within_budget,
  count_messages, from_files, joined_context, project_external_resource_context,
  project_external_prompt_context, external_context, project_external_context,
}

-- What a counter says of a message, where it says a natural number.
abbrev pub natural : JsNumber → ℕ
natural (JsNumber.nonneg n) = n
natural _ = 0

unfoldable pub tokens : (ModelMessage → JsNumber) → List ModelMessage → ℕ
tokens count [] = 0
tokens count (m ∷ ms) = natural (count m) + tokens count ms

sum_with-natural :
    (count : ModelMessage → JsNumber) (so_far sum : ℕ) (m : ModelMessage)
    → sum_with count so_far m ≡ ok sum
    → sum ≡ so_far + natural (count m)
unfolding sum_with
sum_with-natural count so_far sum m h = ground arith

passed :
    {E A : Type 0} (e : E) {v : A} (b : Bool) (r : Result E A)
    → (if b then err e else r) ≡ ok v
    → (b ≡ false) × (r ≡ ok v)
passed e true r h = cc
passed e false r h = (refl, h)

assert_within_budget-tokens :
    (count : ModelMessage → JsNumber) (budget estimated : ℕ) (ms : List ModelMessage)
    → estimated ≤ budget
    → assert_within_budget count budget estimated ms ≡ ok tt
    → estimated + tokens count ms ≤ budget
unfolding assert_within_budget tokens
assert_within_budget-tokens count budget estimated [] small h = omega arith
assert_within_budget-tokens count budget estimated (m ∷ ms) small h =
    let (sum, adds, next) = >>=-eq-ok (sum_with count estimated m) _ h in
    let (room, rest) = passed external_budget_error (ltb budget sum) _ next in
    let later = assert_within_budget-tokens count budget sum ms (ground arith) rest in
    let step = sum_with-natural count estimated sum m adds in omega (arith, later, step)

-- The last test is made of all the messages.
joined_context-tokens :
    (file_labels : Files.Labels) (count : ModelMessage → JsNumber) (max_references budget : ℕ)
    (references : List (Option WorkspaceFileReference)) (mcp_messages ms : List ModelMessage)
    → joined_context file_labels count max_references budget references mcp_messages ≡ ok ms
    → tokens count ms ≤ budget
joined_context-tokens file_labels count max_references budget references mcp_messages ms h =
    let (mcp, counted, next) = >>=-eq-ok (count_messages count 0 mcp_messages) _ h in
    let (fits, inside) = passed external_budget_error (ltb budget mcp) _ next in
    let (workspace, projected_, checks) =
      >>=-eq-ok
        (from_files (
          project_within_budget file_labels count max_references references
            (nonneg (budget - mcp))))
        _ inside in
    let (done_, passes, same) =
      >>=-eq-ok (assert_within_budget count budget 0 (workspace ++ mcp_messages)) _ checks in
    let sum =
      assert_within_budget-tokens count budget 0 (workspace ++ mcp_messages) (omega arith) passes in
    subst (λ xs. tokens count xs ≤ budget) (ok-injective (workspace ++ mcp_messages) ms same)
      (omega (arith, sum))

external_context-tokens :
    (file_labels : Files.Labels) (labels : ResourceLabels) (count : ModelMessage → JsNumber)
    (max_references budget : ℕ) (references : List (Option WorkspaceFileReference))
    (attachments : List (Option McpResourceAttachment)) (prompts : List (Option Text))
    (ms : List ModelMessage)
    → external_context file_labels labels count max_references references attachments prompts
        (some budget)
      ≡ ok ms
    → tokens count ms ≤ budget
external_context-tokens file_labels labels count max_references budget references attachments
      prompts ms h =
    let (resources, r, next) =
      >>=-eq-ok (project_external_resource_context labels count budget attachments) _ h in
    let (texts, t, last_) =
      >>=-eq-ok (project_external_prompt_context count budget prompts) _ next in
    joined_context-tokens file_labels count max_references budget references (resources ++ texts) ms
      last_

bounded_count-same :
    (bound n : ℕ)
    → (bounded_count bound (nonneg n) ≡ none) ⊎ (bounded_count bound (nonneg n) ≡ some n)
unfolding bounded_count
bounded_count-same bound n = ground arith

-- If files, resources and prompts are projected into messages, the messages have together at most
-- as many tokens as the budget that was given, by the counter that was given.
pub project_external_context-tokens :
    (file_labels : Files.Labels) (labels : ResourceLabels) (count : ModelMessage → JsNumber)
    (max_references budget : ℕ) (references : List (Option WorkspaceFileReference))
    (attachments : List (Option McpResourceAttachment)) (prompts : List (Option Text))
    (ms : List ModelMessage)
    → project_external_context file_labels labels count max_references references attachments
        prompts
        (nonneg budget)
      ≡ ok ms
    → tokens count ms ≤ budget
unfolding project_external_context
project_external_context-tokens file_labels labels count max_references budget references
      attachments prompts ms h =
    elim (bounded_count-same max_model_context_window_tokens budget) [
      | inl refused ↦
          let failed : err external_budget_error ≡ ok ms =
            subst
              (λ o.
                external_context file_labels labels count max_references references attachments
                  prompts o
                ≡ ok ms)
              refused h in
          cc
      | inr taken ↦
          external_context-tokens file_labels labels count max_references budget references
            attachments prompts ms
            (subst
              (λ o.
                external_context file_labels labels count max_references references attachments
                  prompts o
                ≡ ok ms)
              taken h)
    ]
