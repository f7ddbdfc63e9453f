-- ===== src/Context/Files.antt =====
-- packages/core/src/workspace-file-context.ts: workspace files as messages, within a budget of tokens.
-- A reference that its schema refuses is none. The texts of the labels are a parameter. The search
-- keeps `high + 1`, so that it is a natural number; it is given a number of rounds.
pub mod Within
use ctrl_zebra.Prelude.{
  ℕ, zero, suc, ◌+◌, ◌-◌, ◌/◌, Bool, true, false, List, [], ◌∷◌, ◌++◌, Option, none, some, Result,
  ok, err, ◌>>=◌, leb, ltb, ◌==◌, ◌||◌, length, take, if◌then◌else◌,
}
use ctrl_zebra.Numbers.{JsNumber, bounded_count}
use ctrl_zebra.Text.{Text}
use ctrl_zebra.Messages.{MessageRole, ModelMessage}
use ctrl_zebra.Budget.Window.{max_model_context_window_tokens}

pub record WorkspaceFileReference : Type 0 where
  pub path : Text
  pub stale : Bool
  pub truncated : Bool
  pub text : Text

pub record Labels : Type 0 where
  pub heading : Text
  pub path : Text
  pub stale : Text
  pub truncated : Text
  pub opening : Text
  pub closing : Text
  pub yes_text : Text
  pub no_text : Text
  pub marker : Text

pub data ContextError : Type 0 where
  budget_error refused_reference out_of_rounds : ContextError

-- A message that fits, with its tokens.
abbrev pub Fit : Type 0
Fit = ModelMessage × ℕ

-- `maxWorkspaceFileReferences` of the protocol is a parameter of what follows.
module _ (labels : Labels) (count : ModelMessage → JsNumber) where
  abbrev pub answer : Bool → Text
  answer b = if b then labels.yes_text else labels.no_text

  abbrev pub create_message : WorkspaceFileReference → Text → ModelMessage
  create_message r t = ModelMessage.text MessageRole.user (
      labels.heading
      ++ b'\n'
        ∷ (labels.path
            ++ (r.path
                ++ b'\n'
                  ∷ (labels.stale
                      ++ (answer r.stale
                          ++ b'\n'
                            ∷ (labels.truncated
                                ++ (answer r.truncated
                                    ++ b'\n'
                                      ∷ (labels.opening
                                          ++ b'\n' ∷ (t ++ b'\n' ∷ labels.closing)))))))))

  abbrev pub full_message : WorkspaceFileReference → ModelMessage
  full_message r = create_message r r.text

  -- With the first code points of its text.
  abbrev pub candidate : WorkspaceFileReference → ℕ → ModelMessage
  candidate r middle = create_message r (take middle r.text ++ b'\n' ∷ labels.marker)

  unfoldable pub count_message : ModelMessage → Result ContextError ℕ
  unfolding bounded_count
  count_message m = elim (bounded_count max_model_context_window_tokens (count m)) [
    | none ↦ err budget_error
    | some n ↦ ok n
  ]

  -- The `while` of `fitTruncatedMessage`.
  unfoldable pub search :
      WorkspaceFileReference → ℕ → ℕ → ℕ → ℕ → Option Fit → Result ContextError (Option Fit)
  unfolding count_message
  search r budget zero low top best = if ltb low top then err out_of_rounds else ok best
  search r budget (suc rounds) low top best =
      if ltb low top
      then (let middle = (low + (top - 1)) / 2 in
          (do
            tokens ← count_message (candidate r middle)
            if leb tokens budget
                then search r budget rounds (suc middle) top (some (candidate r middle, tokens))
                else search r budget rounds low middle best))
      else ok best

  unfoldable pub fit_truncated_message :
      WorkspaceFileReference → ℕ → Result ContextError (Option Fit)
  unfolding search
  fit_truncated_message r budget =
      if budget == 0
      then ok none
      else search r budget (suc (length r.text)) 0 (suc (length r.text)) none

  abbrev pub added :
      ModelMessage
      → Result ContextError (List ModelMessage)
      → Result ContextError (List ModelMessage)
  added m (ok ms) = ok (m ∷ ms)
  added m (err e) = err e

  -- What the loop does with a file that is cut, `rest` being the files after it.
  abbrev pub shown :
      Option Fit
      → (ℕ → Result ContextError (List ModelMessage))
      → ℕ
      → Result ContextError (List ModelMessage)
  shown none rest remaining = ok []
  shown (some (m, tokens)) rest remaining =
      if leb remaining tokens then ok (m ∷ []) else added m (rest (remaining - tokens))

  unfoldable pub project_files :
      List (Option WorkspaceFileReference) → ℕ → Result ContextError (List ModelMessage)
  unfolding count_message fit_truncated_message
  project_files [] remaining = ok []
  project_files (none ∷ rs) remaining = err refused_reference
  project_files (some r ∷ rs) remaining = do
    tokens ← count_message (full_message r)
    if leb tokens remaining
        then added (full_message r) (project_files rs (remaining - tokens))
        else (do best ← fit_truncated_message r remaining; shown best (project_files rs) remaining)

  -- After the test of the budget.
  abbrev pub projected :
      ℕ → List (Option WorkspaceFileReference) → Option ℕ → Result ContextError (List ModelMessage)
  projected max_references references none = err budget_error
  projected max_references references (some budget) =
      if ltb max_references (length references)
      then err budget_error
      else project_files references budget

  unfoldable pub project_within_budget :
      ℕ → List (Option WorkspaceFileReference) → JsNumber → Result ContextError (List ModelMessage)
  unfolding project_files
  project_within_budget max_references references budget =
      projected max_references references (bounded_count max_model_context_window_tokens budget)
