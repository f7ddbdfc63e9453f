-- ===== src/Budget/Window.antt =====
-- packages/core/src/token-budget.ts: the context window is shared among four categories.
pub mod Shares
use ctrl_zebra.Prelude.{
  ℕ, zero, suc, ◌+◌, ◌-◌, ◌*◌, ◌/◌, ◌≤◌, ◌<◌, ◌≡◌, true, List, [], ◌∷◌, ◌||◌, not, Result, ok, err,
  arith, leb, ltb, if◌then◌else◌, Bool-cases, inl, inr, refl,
}
use ctrl_zebra.Numbers.{JsNumber, nonneg, negative, other, is_safe_integer, max_safe_integer}

abbrev pub max_model_context_window_tokens : ℕ
max_model_context_window_tokens = 2_000_000

abbrev pub budget_weight_scale : ℕ
budget_weight_scale = 100

pub data BudgetCategory : Type 0 where
  system history files tools : BudgetCategory

abbrev pub budget_categories : List (BudgetCategory × ℕ)
budget_categories = (system, 10) ∷ (history, 50) ∷ (files, 25) ∷ (tools, 15) ∷ []

abbrev pub remainder_order : List BudgetCategory
remainder_order = system ∷ tools ∷ history ∷ files ∷ []

pub record Allocation : Type 0 where
  pub system_tokens : ℕ
  pub history_tokens : ℕ
  pub files_tokens : ℕ
  pub tools_tokens : ℕ

pub record TokenBudget : Type 0 where
  pub context_window_tokens : ℕ
  pub allocated : Allocation
  pub open allocated use *

pub data InvalidContextWindowError : Type 0 where
  invalid_context_window : InvalidContextWindowError

-- `allocated[property] = tokens`
abbrev pub assign : BudgetCategory → ℕ → Allocation → Allocation
assign system tokens a = record a { system_tokens = tokens }
assign history tokens a = record a { history_tokens = tokens }
assign files tokens a = record a { files_tokens = tokens }
assign tools tokens a = record a { tools_tokens = tokens }

-- `allocated[property] += 1`
abbrev pub increment : BudgetCategory → Allocation → Allocation
increment system a = record a { system_tokens = a.system_tokens + 1 }
increment history a = record a { history_tokens = a.history_tokens + 1 }
increment files a = record a { files_tokens = a.files_tokens + 1 }
increment tools a = record a { tools_tokens = a.tools_tokens + 1 }

abbrev pub total : Allocation → ℕ
total a = a.system_tokens + a.history_tokens + a.files_tokens + a.tools_tokens

-- The first loop: each category gets its weight, rounded down.
unfoldable pub allocate_weights : ℕ → List (BudgetCategory × ℕ) → Allocation → Allocation
allocate_weights window [] a = a
allocate_weights window ((property, weight) ∷ rest) a =
    allocate_weights window rest (assign property (window * weight / budget_weight_scale) a)

-- The second loop: `remainder` rounds, each gives a token to the next category of the order.
unfoldable pub spread_remainder :
    ℕ → List BudgetCategory → Allocation → Result InvalidContextWindowError Allocation
spread_remainder zero order a = ok a
spread_remainder (suc n) [] a = err invalid_context_window
spread_remainder (suc n) (property ∷ order) a = spread_remainder n order (increment property a)

abbrev pub no_tokens : Allocation
no_tokens = record { system_tokens = 0; history_tokens = 0; files_tokens = 0; tools_tokens = 0 }

abbrev pub with_window :
    ℕ → Result InvalidContextWindowError Allocation → Result InvalidContextWindowError TokenBudget
with_window window (ok a) = ok (record { context_window_tokens = window; allocated = a })
with_window window (err e) = err e

unfoldable pub share_out : ℕ → Result InvalidContextWindowError TokenBudget
unfolding allocate_weights spread_remainder
share_out window =
    let a = allocate_weights window budget_categories no_tokens in
    with_window window (spread_remainder (window - total a) remainder_order a)

unfoldable pub allocate_token_budget : JsNumber → Result InvalidContextWindowError TokenBudget
unfolding share_out
allocate_token_budget (nonneg n) =
    if not (is_safe_integer (nonneg n)) || leb n 0 || ltb max_model_context_window_tokens n
    then err invalid_context_window
    else share_out n
allocate_token_budget (negative n) = err invalid_context_window
allocate_token_budget other = err invalid_context_window
