-- ===== src/Repetition/Runs.antt =====
-- packages/core/src/tool-repetition-detector.ts: what the count of the detector counts.
use ctrl_zebra.Prelude.{
  ℕ, suc, ◌≡◌, ◌≤◌, ◌↔◌, refl, ap, subst, ◌∙◌, arith, Bool, true, false, ◌&&◌, ◌==◌, List, [], ◌∷◌,
  ◌++◌, Option, none, some, if◌then◌else◌, Bool-cases, inl, inr,
}
use ctrl_zebra.Text.{Text}
use ctrl_zebra.Messages.{ToolCall}
use ctrl_zebra.Tools.Json.{same_text}
use ctrl_zebra.Tools.Json.Same.{same_text_refl, same_text-≡}
use ctrl_zebra.Edits.WorkspacePath.{includes}
use ctrl_zebra.Canonical.{canonicalize_json}
use ctrl_zebra.Repetition.{Spelling, ToolRepetitionDetector, fingerprint, observe, new_detector}

-- What the names of tools are like: no two are spelled alike, and none has a line break. The source
-- keeps them to `[a-z][a-z0-9_]{0,63}`.
pub record IsPlain (s : Spelling) : Type 0 where
  pub distinct : (m n : ℕ) → s.name_text m ≡ s.name_text n → m ≡ n
  pub unbroken : (n : ℕ) → includes b'\n' (s.name_text n) ≡ false

-- Two calls of one tool with the same canonical input.
abbrev pub same_call : Spelling → ToolCall → ToolCall → Bool
same_call s a b =
    a.name == b.name
    && same_text (canonicalize_json s.number_text a.input) (canonicalize_json s.number_text b.input)

-- How many calls at the head of a list are the same.
unfoldable pub leading_run : Spelling → List ToolCall → ℕ
unfolding same_text
leading_run s [] = 0
leading_run s (a ∷ []) = 1
leading_run s (a ∷ b ∷ calls) =
    let rest = leading_run s (b ∷ calls) in if same_call s a b then suc rest else 1

-- The calls observed, first to last, and a list of them, last to first.
unfoldable pub observe_all :
    Spelling → List ToolCall → ToolRepetitionDetector → ToolRepetitionDetector
unfolding observe
observe_all s [] d = d
observe_all s (call ∷ calls) d = observe_all s calls (observe s call d).0

abbrev pub last_first : List ToolCall → List ToolCall → List ToolCall
last_first [] before = before
last_first (call ∷ calls) before = last_first calls (call ∷ before)

same_text-append :
    (n m c d : Text)
    → includes b'\n' n ≡ false
    → includes b'\n' m ≡ false
    → same_text (n ++ b'\n' ∷ c) (m ++ b'\n' ∷ d) ≡ (same_text n m && same_text c d)
unfolding same_text includes
same_text-append [] [] c d h k = refl
same_text-append [] (y ∷ m) c d h k = ground arith
same_text-append (x ∷ n) [] c d h k = ground arith
same_text-append (x ∷ n) (y ∷ m) c d h k = let rest = same_text-append n m c d in ground arith

same_text-name_text :
    (s : Spelling) (m n : ℕ) → IsPlain s → same_text (s.name_text m) (s.name_text n) ≡ (m == n)
same_text-name_text s m n plain = elim (Bool-cases (m == n)) [
  | inl same ↦
      let e : m ≡ n = ground arith in
      let whole =
        subst (λ k. same_text (s.name_text m) (s.name_text k) ≡ true) e
          (same_text_refl (s.name_text m)) in
      cc
  | inr other ↦ elim (Bool-cases (same_text (s.name_text m) (s.name_text n))) [
    | inl spelled ↦ let e = plain.distinct m n (same_text-≡ _ _ spelled) in ground arith
    | inr apart ↦ cc
  ]
]

-- The fingerprints of two calls are the same just where the calls are.
fingerprint-same_call :
    (s : Spelling) (a b : ToolCall)
    → IsPlain s
    → same_text (fingerprint s a) (fingerprint s b) ≡ same_call s a b
unfolding fingerprint
fingerprint-same_call s a b plain =
    let parts =
      same_text-append (s.name_text a.name) (s.name_text b.name)
        (canonicalize_json s.number_text a.input) (canonicalize_json s.number_text b.input)
        (plain.unbroken a.name) (plain.unbroken b.name) in
    parts
    ∙ ap
        (λ t.
          t
          && same_text (canonicalize_json s.number_text a.input)
              (canonicalize_json s.number_text b.input))
        (same_text-name_text s a.name b.name plain)

abbrev previous : Spelling → List ToolCall → Option Text
previous s [] = none
previous s (call ∷ calls) = some (fingerprint s call)

abbrev Counts : Spelling → List ToolCall → ToolRepetitionDetector → Type 0
Counts s calls d =
    (d.previous_fingerprint ≡ previous s calls) × (d.consecutive_count ≡ leading_run s calls)

observe-Counts :
    (s : Spelling) (call : ToolCall) (before : List ToolCall) (d : ToolRepetitionDetector)
    → IsPlain s
    → Counts s before d
    → Counts s (call ∷ before) (observe s call d).0
unfolding observe leading_run
observe-Counts s call [] d plain h = ground arith
observe-Counts s call (b ∷ before) d plain h =
    let same = fingerprint-same_call s call b plain in ground arith

observe_all-Counts :
    (s : Spelling) (calls before : List ToolCall) (d : ToolRepetitionDetector)
    → IsPlain s
    → Counts s before d
    → Counts s (last_first calls before) (observe_all s calls d)
unfolding observe_all
observe_all-Counts s [] before d plain h = h
observe_all-Counts s (call ∷ calls) before d plain h =
    observe_all-Counts s calls (call ∷ before) (observe s call d).0 plain
      (observe-Counts s call before d plain h)

observe_all-threshold :
    (s : Spelling) (calls : List ToolCall) (d : ToolRepetitionDetector)
    → (observe_all s calls d).threshold ≡ d.threshold
unfolding observe_all
observe_all-threshold s [] d = refl
observe_all-threshold s (call ∷ calls) d = observe_all-threshold s calls (observe s call d).0

-- Where no two tools are spelled alike and no name has a line break: after any calls on a new detector,
-- the observation of one more counts how many calls up to this one have the same tool and canonical
-- input in a row, and the threshold is reached exactly where that many are at least the threshold.
pub observe-leading_run :
    (s : Spelling) (threshold : ℕ) (calls : List ToolCall) (call : ToolCall)
    → IsPlain s
    → let o = (observe s call (observe_all s calls (new_detector threshold))).1 in
      let run = leading_run s (call ∷ last_first calls []) in
      (o.consecutive_count ≡ run) × ((o.threshold_reached ≡ true) ↔ (threshold ≤ run))
unfolding observe
observe-leading_run s threshold calls call plain =
    let d = new_detector threshold in
    let before = observe_all-Counts s calls [] d plain (unfold leading_run in (refl, refl)) in
    let after = observe-Counts s call (last_first calls []) (observe_all s calls d) plain before in
    let same = observe_all-threshold s calls d in (after.1, ground arith)
