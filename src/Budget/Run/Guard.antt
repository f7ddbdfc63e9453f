-- ===== src/Budget/Run/Guard.antt =====
-- `RunTokenBudgetGuard` of packages/core/src/run-token-budget.ts. The abort signal is read before
-- an observation and after a snapshot is emitted, since the event sink may abort the Run.
use ctrl_zebra.Prelude.{
  ◌≤◌, ◌<◌, ◌≡◌, refl, sym, ◌⊎◌, leb, Bool, true, false, List, [], ◌∷◌, ◌++◌, Option, none, some,
  arith, Result, ok, err, if◌then◌else◌, Bool-cases, inl, inr,
}
use ctrl_zebra.Numbers.{JsNumber, nonneg, negative, other, bounded_count, max_safe_integer}
use ctrl_zebra.Budget.Usage.{RawTokenUsage}
use ctrl_zebra.Budget.Run.{
  RunTokenBudgetConfiguration, RunTokenBudget, RunTokenBudgetSnapshot, RunTokenBudgetObservation,
  quiet, warned, over, BudgetError, invalid_budget, invalid_estimate, snapshot_rejected, aborted,
  budget_exceeded, Observed, create, observe_estimate, observe_usage, effective_count, estimate,
  add_estimate,
}
use ctrl_zebra.Budget.Run.Accounting.{IsSound, Reports, observe_estimate-Reports}

pub record RunTokenBudgetGuard : Type 0 where
  pub budget : Option RunTokenBudget
  pub emitted : List RunTokenBudgetSnapshot

-- Whether the signal is aborted when it is read.
pub record AbortReadings : Type 0 where
  pub on_entry : Bool
  pub after_emit : Bool

abbrev pub Guarded : Type 0
Guarded = RunTokenBudgetGuard × Result BudgetError (Unit {0})

abbrev throw_if_aborted : Bool → Result BudgetError (Unit {0}) → Result BudgetError (Unit {0})
throw_if_aborted reading next = if reading then err aborted else next

unfoldable pub create_guard :
    Option RunTokenBudgetConfiguration → Result BudgetError RunTokenBudgetGuard
create_guard none = ok (record { budget = none; emitted = [] })
create_guard (some c) = elim (create c) [
  | ok b ↦ ok (record { budget = some b; emitted = [] })
  | err e ↦ err e
]

-- `#handle`, on the snapshots emitted so far, after the budget has answered.
unfoldable pub handle : AbortReadings → List RunTokenBudgetSnapshot → Observed → Guarded
handle signal emitted (b, err e) = (record { budget = some b; emitted = emitted }, err e)
handle signal emitted (b, ok quiet) = (record { budget = some b; emitted = emitted }, ok tt)
handle signal emitted (b, ok (warned s)) = (
  record { budget = some b; emitted = emitted ++ s ∷ [] },
  throw_if_aborted signal.after_emit (ok tt),
)
handle signal emitted (b, ok (over s)) = (
  record { budget = some b; emitted = emitted ++ s ∷ [] },
  throw_if_aborted signal.after_emit (err (budget_exceeded s)),
)

unfoldable pub guarded :
    AbortReadings
    → (RunTokenBudget → Observed)
    → RunTokenBudgetGuard
    → Option RunTokenBudget
    → Guarded
guarded signal observe g none = (g, ok tt)
guarded signal observe g (some b) =
    if signal.on_entry then (g, err aborted) else handle signal g.emitted (observe b)

unfoldable pub guard_estimate : AbortReadings → JsNumber → RunTokenBudgetGuard → Guarded
unfolding guarded
guard_estimate signal tokens g = guarded signal (observe_estimate tokens) g g.budget

unfoldable pub guard_usage : AbortReadings → RawTokenUsage → RunTokenBudgetGuard → Guarded
unfolding guarded
guard_usage signal usage g = guarded signal (observe_usage usage) g g.budget

-- `Number.isSafeInteger(tokens) && tokens >= 0`
abbrev pub IsCount : JsNumber → Type 0
IsCount (nonneg n) = n ≤ max_safe_integer
IsCount (negative n) = ⊥
IsCount other = ⊥

observe-Reports :
    (tokens : JsNumber) (b : RunTokenBudget)
    → IsCount tokens
    → IsSound b
    → effective_count b < b.max_tokens
    → Reports b estimate (observe_estimate tokens b).0 (observe_estimate tokens b).1
observe-Reports (nonneg n) b c v h = (observe_estimate-Reports n b c v h).0
observe-Reports (negative n) b c v h = absurd c
observe-Reports other b c v h = absurd c

-- What the caller learns from a guarded estimate, by what it throws: with no abort on entry the
-- budget has observed the number, and nothing else has touched it.
abbrev pub Tells :
    AbortReadings → JsNumber → RunTokenBudgetGuard → RunTokenBudget → Guarded → Type 0
Tells signal tokens g b (g', ok _) =
    (signal.on_entry ≡ false)
    × IsCount tokens
    × (effective_count b < b.max_tokens)
    × (g'.budget ≡ some b)
Tells signal tokens g b (g', err aborted) =
    ((signal.on_entry ≡ true) × (g' ≡ g))
    ⊎ ((signal.after_emit ≡ true) × IsCount tokens × (g'.budget ≡ some b))
Tells signal tokens g b (g', err (budget_exceeded s)) =
    (signal.on_entry ≡ false)
    × (signal.after_emit ≡ false)
    × IsCount tokens
    × (b.max_tokens ≤ effective_count b)
    × (g'.emitted ≡ g.emitted ++ s ∷ [])
    × (g'.budget ≡ some b)
Tells signal tokens g b (g', err invalid_estimate) =
    (signal.on_entry ≡ false) × ¬ (IsCount tokens) × (g' ≡ g)
Tells signal tokens g b (g', err invalid_budget) = ⊥
Tells signal tokens g b (g', err snapshot_rejected) = ⊥

handle-Tells :
    (signal : AbortReadings) (tokens : JsNumber) (g : RunTokenBudgetGuard) (b b' : RunTokenBudget)
    (r : Result BudgetError RunTokenBudgetObservation)
    → IsCount tokens
    → signal.on_entry ≡ false
    → Reports b estimate b' r
    → Tells signal tokens g b' (handle signal g.emitted (b', r))
unfolding handle
handle-Tells signal tokens g b b' (err e) c a h = absurd h
handle-Tells signal tokens g b b' (ok quiet) c a h = (a, c, h.0, refl)
handle-Tells signal tokens g b b' (ok (warned s)) c a h = elim (Bool-cases signal.after_emit) [
  | inl stop ↦ simp stop (inr (refl, c, refl))
  | inr go ↦ simp go (a, c, h.1, refl)
]
handle-Tells signal tokens g b b' (ok (over s)) c a h = elim (Bool-cases signal.after_emit) [
  | inl stop ↦ simp stop (inr (refl, c, refl))
  | inr go ↦ simp go (a, refl, c, h.0, refl, refl)
]

-- A number that is no safe count leaves the budget and the guard as they were.
refused_estimate :
    (tokens : JsNumber) (b : RunTokenBudget)
    → bounded_count max_safe_integer tokens ≡ none
    → observe_estimate tokens b ≡ (b, err invalid_estimate)
unfolding observe_estimate add_estimate
refused_estimate tokens b e = rw (e, add_estimate) refl

same_guard :
    (g : RunTokenBudgetGuard) (b : RunTokenBudget)
    → g.budget ≡ some b
    → ◌≡◌ {A = RunTokenBudgetGuard} (record { budget = some b; emitted = g.emitted }) g
same_guard g b e = λ i. record { budget = sym e i; emitted = g.emitted }

counted_or_not :
    (tokens : JsNumber)
    → IsCount tokens ⊎ (¬ (IsCount tokens) × (bounded_count max_safe_integer tokens ≡ none))
unfolding bounded_count
counted_or_not (negative n) = inr ((λ h. h), refl)
counted_or_not other = inr ((λ h. h), refl)
counted_or_not (nonneg n) = elim (Bool-cases (leb n max_safe_integer)) [
  | inl safe ↦ inl (ground arith)
  | inr large ↦ inr ((λ h. ground arith), ground arith)
]

-- With a sink that does not throw, and while a Run is within its limit, a guarded estimate of any number returns only for a safe count,
-- with the effective count still within the limit and no abort on entry; it throws the budget error
-- only for a count at the limit, with no abort read, after its snapshot was emitted; it refuses just
-- the numbers that are no safe counts, and then changes nothing; and every other throw is an abort
-- that was read, on entry with nothing changed.
pub guard_estimate-Tells :
    (signal : AbortReadings) (tokens : JsNumber) (g : RunTokenBudgetGuard) (b : RunTokenBudget)
    → g.budget ≡ some b
    → IsSound b
    → effective_count b < b.max_tokens
    → Tells signal tokens g (observe_estimate tokens b).0 (guard_estimate signal tokens g)
unfolding guard_estimate handle
guard_estimate-Tells signal tokens g b e v h =
    simp (e, guarded)
      (elim (Bool-cases signal.on_entry) [
        | inl stop ↦ simp stop (inl (refl, refl))
        | inr go ↦ simp go (elim (counted_or_not tokens) [
          | inl c ↦ handle-Tells signal tokens g b _ _ c go (observe-Reports tokens b c v h)
          | inr (not_count, e') ↦
              simp (refused_estimate tokens b e') (go, not_count, same_guard g b e)
        ])
      ])
