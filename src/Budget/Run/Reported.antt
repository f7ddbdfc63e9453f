-- ===== src/Budget/Run/Reported.antt =====
-- Usage that the Provider reports, in the accounting of a Run.
use ctrl_zebra.Prelude.{
  ◌≤◌, ◌<◌, ◌≡◌, refl, ◌⊎◌, true, false, some, arith, value_or, Result, ok, err, inl, inr,
}
use ctrl_zebra.Budget.Usage.{
  TokenUsage, RawTokenUsage, TokenUsageMergeResult, max_token_count, parse_token_usage,
  merge_token_usage, has_token_usage, or_no_usage,
}
use ctrl_zebra.Budget.Usage.Merge.{
  IsBounded, IsMerge, parse-IsBounded, merge_token_usage-IsMerge, count_of,
}
use ctrl_zebra.Budget.Run.{
  RunTokenBudget, quiet, warned, over, BudgetSource, BudgetError, RunTokenBudgetObservation,
  observe_usage, add_usage, record_usage, record_count, usage_token_count, UsageTokenCount, counted,
  overflow, actual, effective_count, evaluate, project, exceeded,
}
use ctrl_zebra.Budget.Run.Charged.{Fits, Overflowed, record_usage-Charged, evaluate-Charged}
use ctrl_zebra.Budget.Run.Accounting.{
  IsSound, IsReportable, Reports, evaluate-Reports, not_overflowed,
}

-- The count of a report is at least every field of it and never past the bound.
abbrev pub Covers : TokenUsage → UsageTokenCount → Type 0
Covers u (counted n) =
    (value_or n 0 ≤ max_token_count)
    × (count_of u.input_tokens ≤ value_or n 0)
    × (count_of u.output_tokens ≤ value_or n 0)
    × (count_of u.total_tokens ≤ value_or n 0)
Covers u overflow = Unit {0}

usage_token_count-Covers : (u : TokenUsage) → IsBounded u → Covers u (usage_token_count u)
unfolding usage_token_count
usage_token_count-Covers u h = ground arith

abbrev pub IsMerged : TokenUsageMergeResult → Type 0
IsMerged (TokenUsageMergeResult.merged u) = IsBounded u
IsMerged TokenUsageMergeResult.overflow = Unit {0}

merge_token_usage-IsMerged :
    (c : TokenUsage) (n : TokenUsage) (r : TokenUsageMergeResult) → IsMerge c n r → IsMerged r
merge_token_usage-IsMerged c n (TokenUsageMergeResult.merged u) h = ground arith
merge_token_usage-IsMerged c n TokenUsageMergeResult.overflow h = tt

record_count-IsSound :
    (u : TokenUsage) (c : UsageTokenCount) (b : RunTokenBudget)
    → IsBounded u
    → Covers u c
    → IsSound b
    → b.actual_overflowed ≡ false
    → IsSound (record_count u c b) × IsReportable actual (record_count u c b)
unfolding record_count
record_count-IsSound u overflow b m c v h = (ground arith, λ e. (refl, refl))
record_count-IsSound u (counted n) b m c v h = (ground arith, λ e. absurd (cc))

record_usage-IsSound :
    (r : TokenUsageMergeResult) (b : RunTokenBudget)
    → IsMerged r
    → IsSound b
    → b.actual_overflowed ≡ false
    → IsSound (record_usage r b) × IsReportable actual (record_usage r b)
unfolding record_usage
record_usage-IsSound TokenUsageMergeResult.overflow b m v h = (ground arith, λ e. (refl, refl))
record_usage-IsSound (TokenUsageMergeResult.merged u) b m v h =
    record_count-IsSound u (usage_token_count u) b m (usage_token_count-Covers u m) v h

observe_usage_lem :
    (raw : RawTokenUsage) (u : TokenUsage) (b : RunTokenBudget)
    → parse_token_usage raw ≡ some u
    → has_token_usage u ≡ true
    → observe_usage raw b ≡ evaluate actual (record_usage (merge_token_usage b.actual_usage u) b)
unfolding observe_usage
observe_usage_lem raw u b p h = rw (p, add_usage) (rw h)

pub record_usage-flag :
    (r : TokenUsageMergeResult) (b : RunTokenBudget)
    → (record_usage r b).warning_reported ≡ b.warning_reported
unfolding record_usage
record_usage-flag r b = ground arith

Reports-flag :
    (b c : RunTokenBudget) (source : BudgetSource) (b' : RunTokenBudget)
    (r : Result BudgetError RunTokenBudgetObservation)
    → b.warning_reported ≡ c.warning_reported
    → Reports b source b' r
    → Reports c source b' r
Reports-flag b c source b' (err e) f h = h
Reports-flag b c source b' (ok quiet) f h = ground arith
Reports-flag b c source b' (ok (warned s)) f h = ground arith
Reports-flag b c source b' (ok (over s)) f h = ground arith

-- An overflow ends the Run: no other report fits it.
abbrev pub Ends : RunTokenBudget → Result BudgetError RunTokenBudgetObservation → Type 0
Ends b (ok (over s)) = s ≡ project exceeded actual b
Ends b _ = ⊥

Reports-Ends :
    (b b' : RunTokenBudget) (r : Result BudgetError RunTokenBudgetObservation)
    → b'.actual_overflowed ≡ true
    → IsSound b'
    → Reports b actual b' r
    → Ends b' r
unfolding effective_count
Reports-Ends b b' (err e) o v h = h
Reports-Ends b b' (ok quiet) o v h = ground arith
Reports-Ends b b' (ok (warned s)) o v h = ground arith
Reports-Ends b b' (ok (over s)) o v h = h.2

-- While a Run is within its limit, a report that the schema accepts and that has a count is answered
-- without an error and in keeping with the effective count. Its counts are added to those reported
-- before, and what the Run has spent becomes input and output together, or the total where that is
-- more; where one of these passes the bound for counts, the overflow is recorded in their place and
-- ends the Run. The estimate is left as it was, and the accounting stays sound.
pub observe_usage-Reports :
    (raw : RawTokenUsage) (u : TokenUsage) (b : RunTokenBudget)
    → parse_token_usage raw ≡ some u
    → has_token_usage u ≡ true
    → IsSound b
    → effective_count b < b.max_tokens
    → let (b', r) = observe_usage raw b in
      Reports b actual b' r
      × IsSound b'
      × (b'.estimated_tokens ≡ b.estimated_tokens)
      × (Fits u b b' ⊎ (Overflowed u b b' × Ends b' r))
observe_usage-Reports raw u b p h v below =
    let m = merge_token_usage b.actual_usage u in
    let merge =
      merge_token_usage-IsMerge b.actual_usage u v.usage_bound (parse-IsBounded raw u p) in
    let merged = merge_token_usage-IsMerged (or_no_usage b.actual_usage) u m merge in
    let open_ = not_overflowed b v below in
    let (sound, reportable) = record_usage-IsSound m b merged v open_ in
    let (reports, sound', same) = evaluate-Reports actual (record_usage m b) sound reportable in
    let reports' = Reports-flag (record_usage m b) b actual _ _ (record_usage-flag m b) reports in
    let (kept, charged) =
      evaluate-Charged u b (record_usage m b) actual (record_usage-Charged u m b h merge open_) in
    rw (observe_usage_lem raw u b p h) (
      reports',
      sound',
      kept,
      elim charged [
        | inl fits ↦ inl fits
        | inr passed ↦ inr (passed, Reports-Ends b _ _ passed.1 sound' reports')
      ],
    )
