-- ===== src/Numbers.antt =====
-- JavaScript numbers as the guards of the source see them: `Number.isSafeInteger` and the order.
-- A value that no guard lets through needs no more than the constructor `other`.
use ctrl_zebra.Prelude.{ℕ, Bool, false, Option, none, some, leb, ltb, if◌then◌else◌}

-- `negative n` is -(n + 1); `other` is a fraction, NaN or an infinity.
pub data JsNumber : Type 0 where
  nonneg : ℕ → JsNumber
  negative : ℕ → JsNumber
  other : JsNumber

abbrev pub max_safe_integer : ℕ
max_safe_integer = 9_007_199_254_740_991

abbrev pub is_safe_integer : JsNumber → Bool
is_safe_integer (nonneg n) = leb n max_safe_integer
is_safe_integer (negative n) = ltb n max_safe_integer
is_safe_integer other = false

-- The value of `Number.isSafeInteger(x) && x >= 0 && x <= bound`, where that holds.
unfoldable pub bounded_count : ℕ → JsNumber → Option ℕ
bounded_count bound (nonneg n) =
    if leb n max_safe_integer then (if leb n bound then some n else none) else none
bounded_count bound (negative n) = none
bounded_count bound other = none
