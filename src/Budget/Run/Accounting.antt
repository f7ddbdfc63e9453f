-- ===== src/Budget/Run/Accounting.antt =====
-- The accounting invariant of a Run, and what each observation reports under it.
use ctrl_zebra.Prelude.{
  ℕ, ◌≤◌, ◌<◌, ◌≡◌, ◌⊎◌, true, false, none, arith, value_or, min, ◌∙◌, Result, ok, err, ◌+◌,
}
use ctrl_zebra.Numbers.{nonneg, max_safe_integer}
use ctrl_zebra.Budget.Usage.{max_token_count, or_no_usage}
use ctrl_zebra.Budget.Usage.Merge.{IsBounded}
use ctrl_zebra.Budget.Run.{
  RunTokenBudgetConfiguration, RunTokenBudget, RunTokenBudgetObservation, quiet, warned, over,
  BudgetError, create, evaluate, effective_count, snapshot, project, observe_estimate,
  saturating_add, BudgetSource, estimate, actual, warning, exceeded,
}

-- What holds of a budget between two observations.
pub record IsSound (b : RunTokenBudget) : Type 0 where
  pub warning_positive : 0 < b.warning_tokens
  pub warning_within : b.warning_tokens ≤ b.max_tokens
  pub limit_bound : b.max_tokens ≤ max_token_count
  pub estimate_bound : b.estimated_tokens ≤ max_token_count
  pub usage_bound : IsBounded (or_no_usage b.actual_usage)
  pub actual_bound : value_or b.actual_tokens 0 ≤ max_token_count

pub create-IsSound :
    (c : RunTokenBudgetConfiguration) (b : RunTokenBudget) → create c ≡ ok b → IsSound b
unfolding create
create-IsSound c b h = ground arith

-- An overflow is about to be reported as the Provider's, with no count made up.
abbrev pub IsReportable : BudgetSource → RunTokenBudget → Type 0
IsReportable source b = b.actual_overflowed ≡ true → (source ≡ actual) × (b.actual_tokens ≡ none)

-- The report that fits the effective count: nothing below the warning or after it, one warning, and
-- the end from the limit on. No report is an error.
abbrev pub Reports :
    RunTokenBudget
    → BudgetSource
    → RunTokenBudget
    → Result BudgetError RunTokenBudgetObservation
    → Type 0
Reports b source b' (err e) = ⊥
Reports b source b' (ok quiet) =
    (effective_count b' < b'.max_tokens)
    × ((effective_count b' < b'.warning_tokens) ⊎ (b.warning_reported ≡ true))
    × (b'.warning_reported ≡ b.warning_reported)
Reports b source b' (ok (warned s)) =
    (b'.warning_tokens ≤ effective_count b')
    × (effective_count b' < b'.max_tokens)
    × (b.warning_reported ≡ false)
    × (b'.warning_reported ≡ true)
    × (s ≡ project warning source b')
Reports b source b' (ok (over s)) =
    (b'.max_tokens ≤ effective_count b')
    × (b'.warning_reported ≡ b.warning_reported)
    × (s ≡ project exceeded source b')

snapshot_over :
    (source : BudgetSource) (b : RunTokenBudget)
    → IsSound b
    → IsReportable source b
    → b.max_tokens ≤ effective_count b
    → snapshot exceeded source b ≡ ok (project exceeded source b)
unfolding snapshot effective_count
snapshot_over source b v r h = ground arith

snapshot_warning :
    (source : BudgetSource) (b : RunTokenBudget)
    → IsSound b
    → b.warning_tokens ≤ effective_count b
    → effective_count b < b.max_tokens
    → snapshot warning source b ≡ ok (project warning source b)
unfolding snapshot effective_count
snapshot_warning source b v h k = ground arith

pub evaluate-Reports :
    (source : BudgetSource) (b : RunTokenBudget)
    → IsSound b
    → IsReportable source b
    → let (b', r) = evaluate source b in
      Reports b source b' r × IsSound b' × (b'.estimated_tokens ≡ b.estimated_tokens)
unfolding evaluate
evaluate-Reports source b v r = ground (
  arith,
  snapshot_over source b v r,
  snapshot_warning source (record b { warning_reported = true }),
)

pub saturating_add-min :
    (a n : ℕ) → a ≤ max_token_count → saturating_add a n ≡ min (a + n) max_token_count
unfolding saturating_add
saturating_add-min a n h = ground arith

pub not_overflowed :
    (b : RunTokenBudget)
    → IsSound b
    → effective_count b < b.max_tokens
    → b.actual_overflowed ≡ false
unfolding effective_count
not_overflowed b v h = ground arith

abbrev pub estimated : ℕ → RunTokenBudget → RunTokenBudget
estimated n b = record b { estimated_tokens = saturating_add b.estimated_tokens n }

pub observe_estimate_lem :
    (n : ℕ) (b : RunTokenBudget)
    → n ≤ max_safe_integer
    → observe_estimate (nonneg n) b ≡ evaluate estimate (estimated n b)
unfolding observe_estimate
observe_estimate_lem n b h = ground arith

estimated-IsSound : (n : ℕ) (b : RunTokenBudget) → IsSound b → IsSound (estimated n b)
unfolding saturating_add
estimated-IsSound n b v = ground arith

-- While a Run is within its limit, an estimate of any safe size is added, saturating at the bound
-- for counts, and is answered without an error: with nothing below the warning and after it, with
-- the warning once, and with the end from the limit on. The accounting stays sound.
pub observe_estimate-Reports :
    (n : ℕ) (b : RunTokenBudget)
    → n ≤ max_safe_integer
    → IsSound b
    → effective_count b < b.max_tokens
    → let (b', r) = observe_estimate (nonneg n) b in
      Reports b estimate b' r
      × IsSound b'
      × (b'.estimated_tokens ≡ min (b.estimated_tokens + n) max_token_count)
observe_estimate-Reports n b hn v h =
    let (reports, sound, same) =
      evaluate-Reports estimate (estimated n b) (estimated-IsSound n b v)
        (λ e. absurd (cc (not_overflowed b v h))) in
    rw (observe_estimate_lem n b hn)
      (reports, sound, same ∙ saturating_add-min b.estimated_tokens n v.estimate_bound)
