-- ===== src/Tests/BudgetTests.antt =====
-- Budgets at concrete numbers.
use ctrl_zebra.Prelude.{◌≤◌, ◌≡◌, refl, ◌⊎◌, [], ◌∷◌, false, none, some, ok, arith, min, ◌+◌}
use ctrl_zebra.Numbers.{nonneg}
use ctrl_zebra.Budget.Window.{TokenBudget, allocate_token_budget}
use ctrl_zebra.Budget.Window.Shares.{IsFairSplit, allocate_token_budget-IsFairSplit}
use ctrl_zebra.Budget.Usage.{
  TokenUsage, RawTokenUsage, merge_token_usage, or_no_usage, max_token_count, parse_token_usage,
}
use ctrl_zebra.Budget.Usage.Merge.{IsMerge, merge_token_usage-IsMerge}
use ctrl_zebra.Budget.Run.{
  RunTokenBudget, observe_estimate, observe_usage, estimate, actual, effective_count,
}
use ctrl_zebra.Budget.Run.Accounting.{IsSound, Reports, observe_estimate-Reports}
use ctrl_zebra.Budget.Run.Charged.{Fits, Overflowed}
use ctrl_zebra.Budget.Run.Reported.{Ends, observe_usage-Reports}
use ctrl_zebra.Budget.Run.Warnings.{
  estimated, reported, warnings, warnings-le-one, observe_all, observe_all-sum,
}
use ctrl_zebra.Budget.Run.Guard.{
  RunTokenBudgetGuard, AbortReadings, Tells, guard_estimate, guard_estimate-Tells,
}

allocate_token_budget-IsFairSplit_example :
    (b : TokenBudget) × (allocate_token_budget (nonneg 8_191) ≡ ok b) × IsFairSplit 8_191 b
allocate_token_budget-IsFairSplit_example =
    allocate_token_budget-IsFairSplit 8_191 (omega arith) (omega arith)

abbrev some_usage : TokenUsage
some_usage = record { input_tokens = some 1_200_000; output_tokens = none; total_tokens = none }

merge_token_usage-IsMerge_example :
    IsMerge some_usage some_usage (merge_token_usage (some some_usage) some_usage)
merge_token_usage-IsMerge_example =
    merge_token_usage-IsMerge (some some_usage) some_usage (omega arith) (omega arith)

abbrev fresh : RunTokenBudget
fresh = record {
  configuration = record { max_tokens = 100; warning_tokens = 80 };
  estimated_tokens = 0;
  actual_usage = none;
  actual_tokens = none;
  actual_overflowed = false;
  warning_reported = false;
}

observe_estimate-Reports_example :
    let (b', r) = observe_estimate (nonneg 85) fresh in
    Reports fresh estimate b' r × IsSound b' × (b'.estimated_tokens ≡ min (0 + 85) max_token_count)
unfolding effective_count
observe_estimate-Reports_example =
    observe_estimate-Reports 85 fresh (omega arith) (omega arith) (omega arith)

abbrev raw_usage : RawTokenUsage
raw_usage = record {
  raw_input = some (nonneg 1_500_000);
  raw_output = some (nonneg 900_000);
  raw_total = none;
  has_other_keys = false;
}

abbrev read_usage : TokenUsage
read_usage = record {
  input_tokens = some 1_500_000;
  output_tokens = some 900_000;
  total_tokens = none;
}

observe_usage-Reports_example :
    let (b', r) = observe_usage raw_usage fresh in
    Reports fresh actual b' r
    × IsSound b'
    × (b'.estimated_tokens ≡ 0)
    × (Fits read_usage fresh b' ⊎ (Overflowed read_usage fresh b' × Ends b' r))
unfolding effective_count parse_token_usage ctrl_zebra.Budget.Usage.has_token_usage
observe_usage-Reports_example =
    observe_usage-Reports raw_usage read_usage fresh refl refl (omega arith) (omega arith)

warnings-le-one_example : warnings (estimated (nonneg 85) ∷ estimated (nonneg 5) ∷ []) fresh ≤ 1
warnings-le-one_example = warnings-le-one (estimated (nonneg 85) ∷ estimated (nonneg 5) ∷ []) fresh

observe_all-sum_example :
    (observe_all
      (estimated (nonneg 1_900_000) ∷ reported raw_usage ∷ estimated (nonneg 300_000) ∷ [])
      fresh).estimated_tokens
    ≡ max_token_count
observe_all-sum_example =
    observe_all-sum
      (estimated (nonneg 1_900_000) ∷ reported raw_usage ∷ estimated (nonneg 300_000) ∷ []) fresh
      (omega arith)

abbrev calm : AbortReadings
calm = record { on_entry = false; after_emit = false }

abbrev guard : RunTokenBudgetGuard
guard = record { budget = some fresh; emitted = [] }

guard_estimate-Tells_example :
    Tells calm
      (nonneg 120)
      guard
      (observe_estimate (nonneg 120) fresh).0
      (guard_estimate calm (nonneg 120) guard)
unfolding effective_count
guard_estimate-Tells_example =
    guard_estimate-Tells calm (nonneg 120) guard fresh refl (omega arith) (omega arith)
