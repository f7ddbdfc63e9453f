-- ===== src/Budget/Run/Warnings.antt =====
-- Over a whole Run: how often it warns, and what its estimates come to.
use ctrl_zebra.Prelude.{
  ℕ, suc, ◌+◌, ◌≤◌, ◌≡◌, refl, Bool, true, false, List, [], ◌∷◌, arith, min, leb, Result, ok,
  if◌then◌else◌, Option, none, some, ◌∙◌, Bool-cases, inl, inr,
}
use ctrl_zebra.Numbers.{JsNumber, nonneg, negative, other, bounded_count, max_safe_integer}
use ctrl_zebra.Budget.Usage.{
  TokenUsage, RawTokenUsage, TokenUsageMergeResult, max_token_count, has_token_usage,
  merge_token_usage, parse_token_usage,
}
use ctrl_zebra.Budget.Run.{
  RunTokenBudget, RunTokenBudgetObservation, warned, BudgetError, Observed, BudgetSource, estimate,
  actual, observe_estimate, observe_usage, evaluate, add_estimate, add_usage, record_usage,
  record_count, saturating_add, snapshot,
}
use ctrl_zebra.Budget.Run.Accounting.{estimated as counted_in, saturating_add-min}
use ctrl_zebra.Budget.Run.Reported.{record_usage-flag}

pub data Observation : Type 0 where
  estimated : JsNumber → Observation
  reported : RawTokenUsage → Observation

unfoldable pub observe : Observation → RunTokenBudget → Observed
observe (estimated tokens) b = observe_estimate tokens b
observe (reported usage) b = observe_usage usage b

abbrev pub is_warning : Result BudgetError RunTokenBudgetObservation → Bool
is_warning (ok (warned s)) = true
is_warning _ = false

-- The warnings that a sequence of observations reports, whatever errors are caught on the way.
unfoldable pub warnings : List Observation → RunTokenBudget → ℕ
warnings [] b = 0
warnings (o ∷ os) b =
    let (b', r) = observe o b in
    let rest = warnings os b' in if is_warning r then suc rest else rest

-- The flag after a call, and what the call may have reported.
abbrev Flagged : RunTokenBudget → Observed → Type 0
Flagged b r =
    (b.warning_reported ≡ true → (r.0.warning_reported ≡ true) × (is_warning r.1 ≡ false))
    × (is_warning r.1 ≡ true → r.0.warning_reported ≡ true)

evaluate-Flagged : (source : BudgetSource) (b : RunTokenBudget) → Flagged b (evaluate source b)
unfolding evaluate snapshot
evaluate-Flagged source b = ground arith

add_estimate-Flagged : (b : RunTokenBudget) (o : Option ℕ) → Flagged b (add_estimate b o)
unfolding add_estimate
add_estimate-Flagged b none = ground arith
add_estimate-Flagged b (some n) =
    evaluate-Flagged estimate (record b { estimated_tokens = saturating_add b.estimated_tokens n })

add_usage-Flagged : (b : RunTokenBudget) (o : Option TokenUsage) → Flagged b (add_usage b o)
unfolding add_usage
add_usage-Flagged b none = ground arith
add_usage-Flagged b (some u) = elim (Bool-cases (has_token_usage u)) [
  | inl full ↦ rw full (
      let c = record_usage (merge_token_usage b.actual_usage u) b in
      ground (
        arith,
        evaluate-Flagged actual c,
        record_usage-flag (merge_token_usage b.actual_usage u) b,
      ))
  | inr empty ↦ rw empty (ground arith)
]

observe-Flagged : (o : Observation) (b : RunTokenBudget) → Flagged b (observe o b)
unfolding observe observe_estimate observe_usage
observe-Flagged (estimated tokens) b =
    add_estimate-Flagged b (bounded_count max_safe_integer tokens)
observe-Flagged (reported usage) b = add_usage-Flagged b (parse_token_usage usage)

warnings_flagged :
    (os : List Observation) (b : RunTokenBudget) → b.warning_reported ≡ true → warnings os b ≡ 0
unfolding warnings
warnings_flagged [] b h = refl
warnings_flagged (o ∷ os) b h =
    ground (arith, observe-Flagged o b, warnings_flagged os (observe o b).0)

-- However a Run's estimates and reports come, its budget gives at most one warning.
pub warnings-le-one : (os : List Observation) (b : RunTokenBudget) → warnings os b ≤ 1
unfolding warnings
warnings-le-one [] b = omega arith
warnings-le-one (o ∷ os) b = ground (
  arith,
  observe-Flagged o b,
  warnings_flagged os (observe o b).0,
  warnings-le-one os (observe o b).0,
)

unfoldable pub observe_all : List Observation → RunTokenBudget → RunTokenBudget
unfolding observe
observe_all [] b = b
observe_all (o ∷ os) b = observe_all os (observe o b).0

-- What an observation estimates: a report nothing, and so a number that is no safe count.
abbrev pub estimate_of : Observation → ℕ
estimate_of (estimated (nonneg n)) = if leb n max_safe_integer then n else 0
estimate_of (estimated (negative n)) = 0
estimate_of (estimated other) = 0
estimate_of (reported usage) = 0

abbrev pub sum : List Observation → ℕ
sum [] = 0
sum (o ∷ os) = estimate_of o + sum os

evaluate_keeps :
    (source : BudgetSource) (b : RunTokenBudget)
    → (evaluate source b).0.estimated_tokens ≡ b.estimated_tokens
unfolding evaluate
evaluate_keeps source b = ground arith

record_usage_keeps :
    (r : TokenUsageMergeResult) (b : RunTokenBudget)
    → (record_usage r b).estimated_tokens ≡ b.estimated_tokens
unfolding record_usage record_count
record_usage_keeps r b = ground arith

add_usage_keeps :
    (b : RunTokenBudget) (o : Option TokenUsage)
    → (add_usage b o).0.estimated_tokens ≡ b.estimated_tokens
unfolding add_usage
add_usage_keeps b none = refl
add_usage_keeps b (some u) = elim (Bool-cases (has_token_usage u)) [
  | inl full ↦
      let r = merge_token_usage b.actual_usage u in
      rw full (evaluate_keeps actual (record_usage r b) ∙ record_usage_keeps r b)
  | inr empty ↦ rw empty refl
]

observe-estimate_of :
    (o : Observation) (b : RunTokenBudget)
    → b.estimated_tokens ≤ max_token_count
    → (observe o b).0.estimated_tokens ≡ min (b.estimated_tokens + estimate_of o) max_token_count
unfolding observe observe_estimate observe_usage add_estimate bounded_count
observe-estimate_of (reported usage) b h =
    omega (arith, add_usage_keeps b (parse_token_usage usage))
observe-estimate_of (estimated (negative n)) b h = omega arith
observe-estimate_of (estimated other) b h = omega arith
observe-estimate_of (estimated (nonneg n)) b h = elim (Bool-cases (leb n max_safe_integer)) [
  | inl safe ↦
      simp safe
        (evaluate_keeps estimate (counted_in n b) ∙ saturating_add-min b.estimated_tokens n h)
  | inr large ↦ simp large (omega arith)
]

-- However the estimates and the reports of a Run come, and whatever they are answered with, its
-- estimate is the sum of the estimates that are safe counts, up to the bound for counts.
pub observe_all-sum :
    (os : List Observation) (b : RunTokenBudget)
    → b.estimated_tokens ≤ max_token_count
    → (observe_all os b).estimated_tokens ≡ min (b.estimated_tokens + sum os) max_token_count
unfolding observe_all
observe_all-sum [] b h = omega arith
observe_all-sum (o ∷ os) b h =
    let e = observe-estimate_of o b h in
    omega (arith, e, observe_all-sum os (observe o b).0 (omega (arith, e)))
