-- ===== src/Budget/Run/Charged.antt =====
-- What a report of the Provider leaves in the counts of a Run.
use ctrl_zebra.Prelude.{
  ℕ, ◌+◌, max, ◌≤◌, ◌<◌, ◌≡◌, refl, sym, subst, ◌⊎◌, true, false, none, some, arith, is_some, ◌||◌,
  Option, inl, inr,
}
use ctrl_zebra.Budget.Usage.{
  TokenUsage, TokenUsageMergeResult, max_token_count, has_token_usage, or_no_usage,
}
use ctrl_zebra.Budget.Usage.Merge.{IsMerge, count_of}
use ctrl_zebra.Budget.Run.{
  RunTokenBudget, record_usage, record_count, usage_token_count, field_total, UsageTokenCount,
  counted, overflow, BudgetSource, evaluate,
}

-- The counts of a Run with one more report, and what is spent by such counts.
abbrev pub input_with : RunTokenBudget → TokenUsage → ℕ
input_with b u = count_of (or_no_usage b.actual_usage).input_tokens + count_of u.input_tokens

abbrev pub output_with : RunTokenBudget → TokenUsage → ℕ
output_with b u = count_of (or_no_usage b.actual_usage).output_tokens + count_of u.output_tokens

abbrev pub total_with : RunTokenBudget → TokenUsage → ℕ
total_with b u = count_of (or_no_usage b.actual_usage).total_tokens + count_of u.total_tokens

abbrev pub Holds : TokenUsage → ℕ → ℕ → ℕ → Type 0
Holds u i o t =
    (count_of u.input_tokens ≡ i) × (count_of u.output_tokens ≡ o) × (count_of u.total_tokens ≡ t)

-- A report is charged: its counts are added to those before it, and input and output together, or the
-- total where that is more, are what the Run has spent; past the bound the overflow is recorded.
abbrev pub Fits : TokenUsage → RunTokenBudget → RunTokenBudget → Type 0
Fits u b b' =
    (input_with b u + output_with b u ≤ max_token_count)
    × (total_with b u ≤ max_token_count)
    × (b'.actual_overflowed ≡ false)
    × (b'.actual_tokens ≡ some (max (input_with b u + output_with b u) (total_with b u)))
    × Holds (or_no_usage b'.actual_usage) (input_with b u) (output_with b u) (total_with b u)

abbrev pub Overflowed : TokenUsage → RunTokenBudget → RunTokenBudget → Type 0
Overflowed u b b' =
    ((max_token_count < input_with b u + output_with b u) ⊎ (max_token_count < total_with b u))
    × (b'.actual_overflowed ≡ true)
    × (b'.actual_tokens ≡ none)

abbrev pub Charged : TokenUsage → RunTokenBudget → RunTokenBudget → Type 0
Charged u b b' = (b'.estimated_tokens ≡ b.estimated_tokens) × (Fits u b b' ⊎ Overflowed u b b')

-- What is spent by the counts of one report, or that they pass the bound.
abbrev Spent : Option ℕ → Option ℕ → Option ℕ → UsageTokenCount → Type 0
Spent i o t c =
    ((count_of i + count_of o ≤ max_token_count)
      × (c ≡ counted (some (max (count_of i + count_of o) (count_of t)))))
    ⊎ ((max_token_count < count_of i + count_of o) × (c ≡ overflow))

field_total-Spent :
    (i o t : Option ℕ)
    → (is_some i || is_some o || is_some t) ≡ true
    → count_of i ≤ max_token_count
    → count_of o ≤ max_token_count
    → Spent i o t (field_total i o t)
unfolding field_total
field_total-Spent none none none h a b = cc
field_total-Spent none none (some t) h a b = inl (omega arith, ground arith)
field_total-Spent none (some o) none h a b = inl (omega arith, ground arith)
field_total-Spent none (some o) (some t) h a b = inl (omega arith, ground arith)
field_total-Spent (some i) none none h a b = inl (omega arith, ground arith)
field_total-Spent (some i) none (some t) h a b = inl (omega arith, ground arith)
field_total-Spent (some i) (some o) none h a b = ground arith
field_total-Spent (some i) (some o) (some t) h a b = ground arith

merged_has :
    (c u m : TokenUsage)
    → has_token_usage u ≡ true
    → IsMerge c u (TokenUsageMergeResult.merged m)
    → (is_some m.input_tokens || is_some m.output_tokens || is_some m.total_tokens) ≡ true
unfolding has_token_usage
merged_has c u m h k = ground arith

record_count-Charged :
    (u m : TokenUsage) (b : RunTokenBudget)
    → has_token_usage u ≡ true
    → IsMerge (or_no_usage b.actual_usage) u (TokenUsageMergeResult.merged m)
    → b.actual_overflowed ≡ false
    → Charged u b (record_count m (usage_token_count m) b)
unfolding record_count usage_token_count
record_count-Charged u m b full (input, output, total) open_ =
    let spent =
      field_total-Spent m.input_tokens m.output_tokens m.total_tokens
        (merged_has (or_no_usage b.actual_usage) u m full (input, output, total)) input.2
        output.2 in
    elim spent [
      | inl (fits, counts) ↦ simp counts (
        refl,
        inl (
          omega (arith, fits, input.0, output.0),
          omega (arith, total.0, total.2),
          open_,
          ground arith,
          (input.0, output.0, total.0),
        ),
      )
      | inr (passes, counts) ↦
          simp counts (refl, inr (inl (omega (arith, passes, input.0, output.0)), refl, refl))
    ]

pub record_usage-Charged :
    (u : TokenUsage) (r : TokenUsageMergeResult) (b : RunTokenBudget)
    → has_token_usage u ≡ true
    → IsMerge (or_no_usage b.actual_usage) u r
    → b.actual_overflowed ≡ false
    → Charged u b (record_usage r b)
unfolding record_usage
record_usage-Charged u (TokenUsageMergeResult.merged m) b full merge open_ =
    record_count-Charged u m b full merge open_
record_usage-Charged u TokenUsageMergeResult.overflow b full merge open_ =
    (refl, inr (ground arith, refl, refl))

evaluate-state :
    (source : BudgetSource) (b : RunTokenBudget)
    → ((evaluate source b).0 ≡ b) ⊎ ((evaluate source b).0 ≡ record b { warning_reported = true })
unfolding evaluate
evaluate-state source b = ground arith

pub evaluate-Charged :
    (u : TokenUsage) (b b' : RunTokenBudget) (source : BudgetSource)
    → Charged u b b'
    → Charged u b (evaluate source b').0
evaluate-Charged u b b' source h = elim (evaluate-state source b') [
  | inl same ↦ subst (Charged u b) (sym same) h
  | inr flagged ↦ subst (Charged u b) (sym flagged) h
]
