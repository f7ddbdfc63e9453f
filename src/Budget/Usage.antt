-- ===== src/Budget/Usage.antt =====
-- packages/protocol/src/usage.ts: token counts that a Provider reports, bounded and merged.
-- A report may leave fields out. The schemas of zod read as their documentation says: `z.int()`
-- takes safe integers, and a strict object takes no other key.
pub mod Merge
use ctrl_zebra.Prelude.{
  ℕ, ◌+◌, ◌-◌, Bool, true, false, ◌||◌, Option, none, some, ltb, if◌then◌else◌, is_some,
}
use ctrl_zebra.Numbers.{JsNumber, bounded_count}

abbrev pub max_token_count : ℕ
max_token_count = 2_000_000

pub record TokenUsage : Type 0 where
  pub input_tokens : Option ℕ
  pub output_tokens : Option ℕ
  pub total_tokens : Option ℕ

-- What the Provider sends, before it is checked.
pub record RawTokenUsage : Type 0 where
  pub raw_input : Option JsNumber
  pub raw_output : Option JsNumber
  pub raw_total : Option JsNumber
  pub has_other_keys : Bool

-- `tokenCountSchema`
unfoldable pub token_count : JsNumber → Option ℕ
unfolding bounded_count
token_count x = bounded_count max_token_count x

-- `tokenCountSchema.optional()`: an absent field passes.
unfoldable pub optional_count : Option JsNumber → Option (Option ℕ)
unfolding token_count
optional_count none = some none
optional_count (some x) = elim (token_count x) [ none ↦ none | some n ↦ some (some n) ]

abbrev usage_of : Option (Option ℕ) → Option (Option ℕ) → Option (Option ℕ) → Option TokenUsage
usage_of (some i) (some o) (some t) =
    some (record { input_tokens = i; output_tokens = o; total_tokens = t })
usage_of _ _ _ = none

-- `tokenUsageSchema.safeParse`
unfoldable pub parse_token_usage : RawTokenUsage → Option TokenUsage
unfolding optional_count
parse_token_usage raw =
    if raw.has_other_keys
    then none
    else usage_of (optional_count raw.raw_input) (optional_count raw.raw_output)
        (optional_count raw.raw_total)

-- The outcome of a merge; `overflow` stands for `{ ok: false, reason: "overflow" }`.
pub data TokenCountMergeResult : Type 0 where
  merged : Option ℕ → TokenCountMergeResult
  overflow : TokenCountMergeResult

pub data TokenUsageMergeResult : Type 0 where
  merged : TokenUsage → TokenUsageMergeResult
  overflow : TokenUsageMergeResult

-- The subtraction is of a count that the schema bounds, so it does not go below zero.
unfoldable pub merge_token_count : Option ℕ → Option ℕ → TokenCountMergeResult
merge_token_count current none = TokenCountMergeResult.merged current
merge_token_count none (some next) = TokenCountMergeResult.merged (some next)
merge_token_count (some current) (some next) =
    if ltb (max_token_count - next) current
    then TokenCountMergeResult.overflow
    else TokenCountMergeResult.merged (some (current + next))

abbrev merged_usage :
    TokenCountMergeResult → TokenCountMergeResult → TokenCountMergeResult → TokenUsageMergeResult
merged_usage (TokenCountMergeResult.merged i) (TokenCountMergeResult.merged o)
      (TokenCountMergeResult.merged t) =
    TokenUsageMergeResult.merged (record { input_tokens = i; output_tokens = o; total_tokens = t })
merged_usage _ _ _ = TokenUsageMergeResult.overflow

abbrev no_usage : TokenUsage
no_usage = record { input_tokens = none; output_tokens = none; total_tokens = none }

-- `current?.inputTokens` of an absent `current` is absent.
abbrev pub or_no_usage : Option TokenUsage → TokenUsage
or_no_usage none = no_usage
or_no_usage (some usage) = usage

unfoldable pub merge_token_usage : Option TokenUsage → TokenUsage → TokenUsageMergeResult
unfolding merge_token_count
merge_token_usage current next =
    let c = or_no_usage current in
    merged_usage (merge_token_count c.input_tokens next.input_tokens)
      (merge_token_count c.output_tokens next.output_tokens)
      (merge_token_count c.total_tokens next.total_tokens)

unfoldable pub has_token_usage : TokenUsage → Bool
has_token_usage usage =
    is_some usage.input_tokens || is_some usage.output_tokens || is_some usage.total_tokens
