-- ===== src/Budget/Run.antt =====
-- packages/core/src/run-token-budget.ts, with the schemas of packages/protocol/src/run-token-budget.ts:
-- the token accounting of one Run. A call that throws leaves the state it had reached.
pub mod Accounting
pub mod Charged
pub mod Reported
pub mod Warnings
pub mod Guard
use ctrl_zebra.Prelude.{
  ℕ, ◌+◌, ◌-◌, max, min, Bool, true, false, not, ◌&&◌, ◌||◌, Option, none, some, ltb, leb, ◌==◌,
  if◌then◌else◌, is_some, value_or, Result, ok, err,
}
use ctrl_zebra.Numbers.{JsNumber, bounded_count, max_safe_integer}
use ctrl_zebra.Budget.Usage.{
  TokenUsage, RawTokenUsage, TokenUsageMergeResult, parse_token_usage, merge_token_usage,
  has_token_usage, max_token_count,
}

pub record RunTokenBudgetConfiguration : Type 0 where
  pub max_tokens : ℕ
  pub warning_tokens : ℕ

-- `runTokenBudgetConfigurationSchema` on counts: the bounds, then the refinement.
abbrev pub is_valid_configuration : RunTokenBudgetConfiguration → Bool
is_valid_configuration c =
    leb c.max_tokens max_token_count
    && leb c.warning_tokens max_token_count
    && not (ltb c.max_tokens 1)
    && not (ltb c.warning_tokens 1)
    && not (ltb c.max_tokens c.warning_tokens)

pub data BudgetSource : Type 0 where
  estimate actual : BudgetSource

pub data BudgetState : Type 0 where
  warning exceeded : BudgetState

pub record RunTokenBudgetSnapshot : Type 0 where
  pub state : BudgetState
  pub source : BudgetSource
  pub max_tokens : ℕ
  pub warning_tokens : ℕ
  pub estimated_tokens : ℕ
  pub actual_tokens : Option ℕ
  pub effective_tokens : ℕ

abbrev is_exceeded : BudgetState → Bool
is_exceeded exceeded = true
is_exceeded warning = false

abbrev is_actual : BudgetSource → Bool
is_actual actual = true
is_actual estimate = false

abbrev fits_count : Option ℕ → Bool
fits_count none = true
fits_count (some n) = leb n max_token_count

-- `runTokenBudgetSnapshotSchema` on counts.
abbrev pub is_valid_snapshot : RunTokenBudgetSnapshot → Bool
is_valid_snapshot s =
    leb s.max_tokens max_token_count
    && leb s.warning_tokens max_token_count
    && leb s.estimated_tokens max_token_count
    && fits_count s.actual_tokens
    && leb s.effective_tokens max_token_count
    && not (ltb s.max_tokens 1)
    && not (ltb s.warning_tokens 1 || ltb s.max_tokens s.warning_tokens)
    && ((is_exceeded s.state
          && is_actual s.source
          && not (is_some s.actual_tokens)
          && s.effective_tokens == max_token_count)
        || s.effective_tokens == max s.estimated_tokens (value_or s.actual_tokens 0))
    && not (not (is_exceeded s.state) && ltb s.effective_tokens s.warning_tokens)
    && not (is_exceeded s.state && ltb s.effective_tokens s.max_tokens)

pub record RunTokenBudget : Type 0 where
  pub configuration : RunTokenBudgetConfiguration
  pub open configuration use *
  pub estimated_tokens : ℕ
  pub actual_usage : Option TokenUsage
  pub actual_tokens : Option ℕ
  pub actual_overflowed : Bool
  pub warning_reported : Bool

-- The errors that the budget and its guard throw; `snapshot_rejected` is the schema's.
pub data BudgetError : Type 0 where
  invalid_budget invalid_estimate snapshot_rejected aborted : BudgetError
  budget_exceeded : RunTokenBudgetSnapshot → BudgetError

pub data RunTokenBudgetObservation : Type 0 where
  quiet : RunTokenBudgetObservation
  warned : RunTokenBudgetSnapshot → RunTokenBudgetObservation
  over : RunTokenBudgetSnapshot → RunTokenBudgetObservation

unfoldable pub create : RunTokenBudgetConfiguration → Result BudgetError RunTokenBudget
create c =
    if is_valid_configuration c
    then ok (record {
      configuration = c;
      estimated_tokens = 0;
      actual_usage = none;
      actual_tokens = none;
      actual_overflowed = false;
      warning_reported = false;
    })
    else err invalid_budget

unfoldable pub saturating_add : ℕ → ℕ → ℕ
saturating_add left right =
    if ltb max_token_count right || ltb (max_token_count - right) left
    then max_token_count
    else left + right

unfoldable pub effective_count : RunTokenBudget → ℕ
effective_count b =
    if b.actual_overflowed
    then max_token_count
    else max b.estimated_tokens (value_or b.actual_tokens 0)

-- `snapshot`, up to the parse of its result.
unfoldable pub project : BudgetState → BudgetSource → RunTokenBudget → RunTokenBudgetSnapshot
unfolding effective_count
project state source b = record {
  state = state;
  source = source;
  max_tokens = b.max_tokens;
  warning_tokens = b.warning_tokens;
  estimated_tokens = b.estimated_tokens;
  actual_tokens = b.actual_tokens;
  effective_tokens = min (effective_count b) max_token_count;
}

unfoldable pub snapshot :
    BudgetState → BudgetSource → RunTokenBudget → Result BudgetError RunTokenBudgetSnapshot
unfolding project
snapshot state source b =
    if is_valid_snapshot (project state source b)
    then ok (project state source b)
    else err snapshot_rejected

abbrev as_over :
    Result BudgetError RunTokenBudgetSnapshot → Result BudgetError RunTokenBudgetObservation
as_over (ok s) = ok (over s)
as_over (err e) = err e

abbrev as_warned :
    Result BudgetError RunTokenBudgetSnapshot → Result BudgetError RunTokenBudgetObservation
as_warned (ok s) = ok (warned s)
as_warned (err e) = err e

abbrev pub Observed : Type 0
Observed = RunTokenBudget × Result BudgetError RunTokenBudgetObservation

-- The flag is set before the snapshot is made.
unfoldable pub evaluate : BudgetSource → RunTokenBudget → Observed
unfolding snapshot effective_count
evaluate source b =
    if leb b.max_tokens (effective_count b)
    then (b, as_over (snapshot exceeded source b))
    else if leb b.warning_tokens (effective_count b) && not b.warning_reported
    then (
      record b { warning_reported = true },
      as_warned (snapshot warning source (record b { warning_reported = true })),
    )
    else (b, ok quiet)

unfoldable pub add_estimate : RunTokenBudget → Option ℕ → Observed
unfolding evaluate saturating_add
add_estimate b none = (b, err invalid_estimate)
add_estimate b (some tokens) =
    evaluate estimate (record b { estimated_tokens = saturating_add b.estimated_tokens tokens })

-- `Number.isSafeInteger(tokens) && tokens >= 0`: any such number, however large.
unfoldable pub observe_estimate : JsNumber → RunTokenBudget → Observed
unfolding add_estimate bounded_count
observe_estimate tokens b = add_estimate b (bounded_count max_safe_integer tokens)

-- The result of `usageTokenCount`: a number, `undefined` or `"overflow"`.
pub data UsageTokenCount : Type 0 where
  counted : Option ℕ → UsageTokenCount
  overflow : UsageTokenCount

-- `Math.max` over the counts that are present.
abbrev pub largest : Option ℕ → Option ℕ → Option ℕ
largest none b = b
largest (some a) none = some a
largest (some a) (some b) = some (max a b)

unfoldable pub field_total : Option ℕ → Option ℕ → Option ℕ → UsageTokenCount
field_total (some i) (some o) t =
    if ltb (max_token_count - o) i
    then overflow
    else counted (largest t (largest (some (i + o)) (largest (some i) (some o))))
field_total i o t = counted (largest t (largest i o))

unfoldable pub usage_token_count : TokenUsage → UsageTokenCount
unfolding field_total
usage_token_count u = field_total u.input_tokens u.output_tokens u.total_tokens

-- What the count of a merged report, or an overflow, leaves in the fields of the budget.
unfoldable pub record_count : TokenUsage → UsageTokenCount → RunTokenBudget → RunTokenBudget
record_count u overflow b = record b {
  actual_usage = some u;
  actual_overflowed = true;
  actual_tokens = none;
}
record_count u (counted n) b = record b { actual_usage = some u; actual_tokens = n }

unfoldable pub record_usage : TokenUsageMergeResult → RunTokenBudget → RunTokenBudget
unfolding usage_token_count record_count
record_usage TokenUsageMergeResult.overflow b = record b {
  actual_overflowed = true;
  actual_tokens = none;
}
record_usage (TokenUsageMergeResult.merged u) b = record_count u (usage_token_count u) b

unfoldable pub add_usage : RunTokenBudget → Option TokenUsage → Observed
add_usage b none = (b, err invalid_estimate)
add_usage b (some usage) =
    if has_token_usage usage
    then evaluate actual (record_usage (merge_token_usage b.actual_usage usage) b)
    else (b, ok quiet)

unfoldable pub observe_usage : RawTokenUsage → RunTokenBudget → Observed
unfolding add_usage
observe_usage usage b = add_usage b (parse_token_usage usage)
