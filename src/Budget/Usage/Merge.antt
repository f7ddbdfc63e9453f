-- ===== src/Budget/Usage/Merge.antt =====
-- Merging reports is addition field by field, or an overflow; no count passes the bound.
use ctrl_zebra.Prelude.{ℕ, ◌+◌, ◌≤◌, ◌<◌, ◌≡◌, ◌⊎◌, Option, some, arith, value_or, is_some, ◌||◌}
use ctrl_zebra.Budget.Usage.{
  TokenUsage, RawTokenUsage, TokenUsageMergeResult, parse_token_usage, merge_token_usage,
  max_token_count, or_no_usage,
}

abbrev pub count_of : Option ℕ → ℕ
count_of o = value_or o 0

pub record IsBounded (u : TokenUsage) : Type 0 where
  pub input_bound : count_of u.input_tokens ≤ max_token_count
  pub output_bound : count_of u.output_tokens ≤ max_token_count
  pub total_bound : count_of u.total_tokens ≤ max_token_count

pub parse-IsBounded :
    (raw : RawTokenUsage) (u : TokenUsage) → parse_token_usage raw ≡ some u → IsBounded u
unfolding parse_token_usage
parse-IsBounded raw u h = ground arith

-- One field of a merge.
abbrev pub IsSum : Option ℕ → Option ℕ → Option ℕ → Type 0
IsSum a b c =
    (count_of c ≡ count_of a + count_of b)
    × (is_some c ≡ (is_some a || is_some b))
    × (count_of c ≤ max_token_count)

abbrev pub Overflows : Option ℕ → Option ℕ → Type 0
Overflows a b = max_token_count < count_of a + count_of b

abbrev pub IsMerge : TokenUsage → TokenUsage → TokenUsageMergeResult → Type 0
IsMerge c n (TokenUsageMergeResult.merged u) =
    IsSum c.input_tokens n.input_tokens u.input_tokens
    × IsSum c.output_tokens n.output_tokens u.output_tokens
    × IsSum c.total_tokens n.total_tokens u.total_tokens
IsMerge c n TokenUsageMergeResult.overflow =
    Overflows c.input_tokens n.input_tokens
    ⊎ Overflows c.output_tokens n.output_tokens
    ⊎ Overflows c.total_tokens n.total_tokens

-- Of two bounded reports the merge is their sum field by field, a field being present if either has
-- it, and every count stays within the bound; an overflow is told only where the sum of some field
-- passes the bound.
pub merge_token_usage-IsMerge :
    (current : Option TokenUsage) (next : TokenUsage)
    → IsBounded (or_no_usage current)
    → IsBounded next
    → IsMerge (or_no_usage current) next (merge_token_usage current next)
unfolding merge_token_usage
merge_token_usage-IsMerge current next c n = ground arith
