-- ===== src/History/Estimate.antt =====
-- `estimateModelMessages` of packages/core/src/history-pruner.ts.
use ctrl_zebra.Prelude.{ℕ, List, [], ◌∷◌, none, some, Result, ok, err, ◌>>=◌}
use ctrl_zebra.Numbers.{JsNumber, bounded_count}
use ctrl_zebra.Messages.{ModelMessage}
use ctrl_zebra.Budget.Window.{max_model_context_window_tokens}
use ctrl_zebra.History.{HistoryError, invalid_token_count, safe_add}

abbrev pub checked_count : (ModelMessage → JsNumber) → ModelMessage → Result HistoryError ℕ
checked_count count message = elim (bounded_count max_model_context_window_tokens (count message)) [
  | none ↦ err invalid_token_count
  | some n ↦ ok n
]

unfoldable pub estimate_from :
    (ModelMessage → JsNumber) → List ModelMessage → ℕ → Result HistoryError ℕ
estimate_from count [] total = ok total
estimate_from count (message ∷ rest) total = do
  n ← checked_count count message
  total' ← safe_add total n
  estimate_from count rest total'

unfoldable pub estimate_model_messages :
    (ModelMessage → JsNumber) → List ModelMessage → Result HistoryError ℕ
unfolding estimate_from
estimate_model_messages count messages = estimate_from count messages 0
