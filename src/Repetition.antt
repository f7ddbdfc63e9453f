-- ===== src/Repetition.antt =====
-- packages/core/src/tool-repetition-detector.ts: consecutive calls of one tool with the same input.
-- How names and numbers are written is a parameter.
pub mod Runs
use ctrl_zebra.Prelude.{
  ℕ, suc, Bool, true, false, not, ◌||◌, ◌&&◌, List, [], ◌∷◌, ◌++◌, Option, none, some, leb, ltb,
  if◌then◌else◌,
}
use ctrl_zebra.Numbers.{JsNumber, bounded_count}
use ctrl_zebra.Text.{Text}
use ctrl_zebra.Messages.{ToolCall}
use ctrl_zebra.Tools.Json.{same_text}
use ctrl_zebra.Canonical.{canonicalize_json}

pub record Spelling : Type 0 where
  pub name_text : ℕ → Text
  pub number_text : ℕ → Text

abbrev pub max_tool_repetition_threshold : ℕ
max_tool_repetition_threshold = 10

pub record ToolRepetitionDetector : Type 0 where
  pub threshold : ℕ
  pub previous_fingerprint : Option Text
  pub consecutive_count : ℕ

pub record ToolRepetitionObservation : Type 0 where
  pub consecutive_count : ℕ
  pub threshold_reached : Bool

abbrev pub new_detector : ℕ → ToolRepetitionDetector
new_detector threshold = record {
  threshold = threshold;
  previous_fingerprint = none;
  consecutive_count = 0;
}

-- The constructor; none stands for its RangeError.
unfoldable pub create : JsNumber → Option ToolRepetitionDetector
create threshold = elim (bounded_count max_tool_repetition_threshold threshold) [
  | none ↦ none
  | some n ↦ (if leb 1 n then some (new_detector n) else none)
]

unfoldable pub fingerprint : Spelling → ToolCall → Text
fingerprint s call = s.name_text call.name ++ b'\n' ∷ canonicalize_json s.number_text call.input

abbrev pub is_previous : Text → Option Text → Bool
is_previous t none = false
is_previous t (some u) = same_text t u

unfoldable pub observe_fingerprint :
    Text → ToolRepetitionDetector → ToolRepetitionDetector × ToolRepetitionObservation
unfolding same_text
observe_fingerprint t d =
    let n = if is_previous t d.previous_fingerprint then suc d.consecutive_count else 1 in
    (
      record { threshold = d.threshold; previous_fingerprint = some t; consecutive_count = n },
      record { consecutive_count = n; threshold_reached = leb d.threshold n },
    )

unfoldable pub observe :
    Spelling
    → ToolCall
    → ToolRepetitionDetector
    → ToolRepetitionDetector × ToolRepetitionObservation
unfolding observe_fingerprint fingerprint
observe s call d = observe_fingerprint (fingerprint s call) d
