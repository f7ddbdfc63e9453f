-- ===== src/Budget/Window/Shares.antt =====
-- The shares of the context window add up, and each is its weight up to one token.
use ctrl_zebra.Prelude.{ℕ, zero, suc, ◌+◌, ◌-◌, ◌*◌, ◌/◌, ◌≤◌, ◌<◌, ◌≡◌, refl, ok, arith}
use ctrl_zebra.Numbers.{nonneg}
use ctrl_zebra.Budget.Window.{
  Allocation, TokenBudget, total, increment, system, tools, history, remainder_order,
  spread_remainder, share_out, allocate_token_budget, max_model_context_window_tokens,
}

record IsSpread (r : ℕ) (a b : Allocation) : Type 0 where
  sum : total b ≡ total a + r
  system_low : a.system_tokens ≤ b.system_tokens
  system_high : b.system_tokens ≤ a.system_tokens + 1
  history_low : a.history_tokens ≤ b.history_tokens
  history_high : b.history_tokens ≤ a.history_tokens + 1
  files_low : a.files_tokens ≤ b.files_tokens
  files_high : b.files_tokens ≤ a.files_tokens + 1
  tools_low : a.tools_tokens ≤ b.tools_tokens
  tools_high : b.tools_tokens ≤ a.tools_tokens + 1

-- Fewer than four rounds never run past the end of the order.
IsSpread-small :
    (r : ℕ) (a : Allocation)
    → r < 4
    → (b : Allocation) × (spread_remainder r remainder_order a ≡ ok b) × IsSpread r a b
unfolding spread_remainder
IsSpread-small zero a h = (a, refl, omega arith)
IsSpread-small (suc zero) a h = (increment system a, refl, omega arith)
IsSpread-small (suc (suc zero)) a h = (increment tools (increment system a), refl, omega arith)
IsSpread-small (suc (suc (suc zero))) a h =
    (increment history (increment tools (increment system a)), refl, omega arith)
IsSpread-small (suc (suc (suc (suc r)))) a h = absurd (omega arith)

-- A share is its weight in hundredths of the window, rounded down, or one more.
abbrev pub IsShare : ℕ → ℕ → ℕ → Type 0
IsShare window weight share =
    (window * weight < (share + 1) * 100) × (share * 100 ≤ window * weight + 100)

pub record IsFairSplit (window : ℕ) (b : TokenBudget) : Type 0 where
  pub same_window : b.context_window_tokens ≡ window
  pub exact : total b.allocated ≡ window
  pub system_share : IsShare window 10 b.system_tokens
  pub history_share : IsShare window 50 b.history_tokens
  pub files_share : IsShare window 25 b.files_tokens
  pub tools_share : IsShare window 15 b.tools_tokens

abbrev weighted : ℕ → Allocation
weighted n = record {
  system_tokens = n * 10 / 100;
  history_tokens = n * 50 / 100;
  files_tokens = n * 25 / 100;
  tools_tokens = n * 15 / 100;
}

share_out-IsFairSplit : (n : ℕ) → (b : TokenBudget) × (share_out n ≡ ok b) × IsFairSplit n b
unfolding share_out
share_out-IsFairSplit n =
    let (a, e, s) = IsSpread-small (n - total (weighted n)) (weighted n) (omega arith) in
    (record { context_window_tokens = n; allocated = a }, rw e, omega arith)

-- A window of 1 to 2,000,000 tokens is shared out, with no error: the four shares add up to the
-- window, and each is its weight in hundredths, rounded down, or one token more.
pub allocate_token_budget-IsFairSplit :
    (n : ℕ)
    → 0 < n
    → n ≤ max_model_context_window_tokens
    → (b : TokenBudget) × (allocate_token_budget (nonneg n) ≡ ok b) × IsFairSplit n b
unfolding allocate_token_budget
allocate_token_budget-IsFairSplit n lo hi =
    let (b, e, s) = share_out-IsFairSplit n in (b, ground (arith, e), s)
