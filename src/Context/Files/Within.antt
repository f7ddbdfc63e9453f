-- ===== src/Context/Files/Within.antt =====
-- packages/core/src/workspace-file-context.ts: what is shown of the files.
use ctrl_zebra.Prelude.{
  ℕ, zero, suc, ◌+◌, ◌-◌, ◌/◌, ◌≡◌, ◌≤◌, ◌<◌, ◌⊎◌, inl, inr, refl, sym, ap, subst, arith, Bool,
  true, false, List, [], ◌∷◌, Option, none, some, Result, ok, err, ◌>>=◌, leb, ltb, ◌==◌, length,
  if◌then◌else◌, Bool-cases,
}
use ctrl_zebra.Numbers.{JsNumber, nonneg, bounded_count}
use ctrl_zebra.Messages.{ModelMessage}
use ctrl_zebra.Budget.Window.{max_model_context_window_tokens}
use ctrl_zebra.Context.Files.{
  WorkspaceFileReference, Labels, ContextError, out_of_rounds, full_message, candidate,
  count_message, Fit, search, fit_truncated_message, added, shown, project_files, projected,
  project_within_budget,
}

abbrev pub is_out : ContextError → Bool
is_out out_of_rounds = true
is_out _ = false

module _ (labels : Labels) (count : ModelMessage → JsNumber) where
  abbrev pub tokens_of : Result ContextError ℕ → ℕ
  tokens_of (ok n) = n
  tokens_of (err e) = 0

  unfoldable pub total : List ModelMessage → ℕ
  total [] = 0
  total (m ∷ ms) = tokens_of (count_message labels count m) + total ms

  -- A message for a file: the whole of it, or some first part of its text.
  abbrev pub IsShown : WorkspaceFileReference → ModelMessage → Type 0
  IsShown r m = (m ≡ full_message labels count r) ⊎ ((k : ℕ) × (m ≡ candidate labels count r k))

  -- One message for each of the first files, in their order.
  abbrev pub Shows : List (Option WorkspaceFileReference) → List ModelMessage → Type 0
  Shows refs [] = Unit
  Shows [] (m ∷ ms) = ⊥
  Shows (none ∷ refs) (m ∷ ms) = ⊥
  Shows (some r ∷ refs) (m ∷ ms) = IsShown r m × Shows refs ms

  abbrev pub IsWithin :
      List (Option WorkspaceFileReference) → ℕ → Result ContextError (List ModelMessage) → Type 0
  IsWithin refs budget (ok ms) = (total ms ≤ budget) × Shows refs ms
  IsWithin refs budget (err e) = is_out e ≡ false

  abbrev FitOk : WorkspaceFileReference → ℕ → Option Fit → Type 0
  FitOk r budget none = Unit
  FitOk r budget (some (m, t)) =
      (count_message labels count m ≡ ok t)
      × (t ≤ budget)
      × ((k : ℕ) × (m ≡ candidate labels count r k))

  abbrev SearchOk : WorkspaceFileReference → ℕ → Result ContextError (Option Fit) → Type 0
  SearchOk r budget (ok best) = FitOk r budget best
  SearchOk r budget (err e) = is_out e ≡ false

  count_message-err :
      (m : ModelMessage) (e : ContextError)
      → count_message labels count m ≡ err e
      → is_out e ≡ false
  unfolding count_message
  count_message-err m e h = ground arith

  after_count :
      (r : WorkspaceFileReference) (budget : ℕ) (c : Result ContextError ℕ)
      (fits : ℕ → Result ContextError (Option Fit)) (other : Result ContextError (Option Fit))
      → ((e : ContextError) → c ≡ err e → is_out e ≡ false)
      → ((t : ℕ) → c ≡ ok t → t ≤ budget → SearchOk r budget (fits t))
      → SearchOk r budget other
      → SearchOk r budget (c >>= λ t. if leb t budget then fits t else other)
  after_count r budget (err e) fits other he hf ho = he e refl
  after_count r budget (ok t) fits other he hf ho = elim (Bool-cases (leb t budget)) [
    | inl small ↦ simp small (hf t refl (ground arith))
    | inr large ↦ simp large ho
  ]

  search-SearchOk :
      (r : WorkspaceFileReference) (budget rounds low top : ℕ) (best : Option Fit)
      → top ≤ low + rounds
      → FitOk r budget best
      → SearchOk r budget (search labels count r budget rounds low top best)
  unfolding search
  search-SearchOk r budget zero low top best enough fine =
      let done_ : ltb low top ≡ false = ground arith in simp done_ fine
  search-SearchOk r budget (suc rounds) low top best enough fine = elim (Bool-cases (ltb low top)) [
    | inl more_ ↦
        let middle = (low + (top - 1)) / 2 in
        let bounds : (low ≤ middle) × (middle < top) = ground arith in
        simp more_ (
          after_count r budget (count_message labels count (candidate labels count r middle)) _ _
            (count_message-err (candidate labels count r middle))
            (λ t counted small.
              search-SearchOk r budget rounds (suc middle) top _ (omega arith)
                (counted, small, (middle, refl)))
            (search-SearchOk r budget rounds low middle best (omega arith) fine))
    | inr over_ ↦ simp over_ fine
  ]

  fit-SearchOk :
      (r : WorkspaceFileReference) (budget : ℕ)
      → SearchOk r budget (fit_truncated_message labels count r budget)
  unfolding fit_truncated_message
  fit-SearchOk r budget = elim (Bool-cases (budget == 0)) [
    | inl empty ↦ simp empty tt
    | inr left ↦ simp left (
        search-SearchOk r budget (suc (length r.text)) 0 (suc (length r.text)) none (omega arith)
          tt)
  ]

  added-IsWithin :
      (r : WorkspaceFileReference) (refs : List (Option WorkspaceFileReference)) (m : ModelMessage)
      (t budget : ℕ) (rest : Result ContextError (List ModelMessage))
      → count_message labels count m ≡ ok t
      → t ≤ budget
      → IsShown r m
      → IsWithin refs (budget - t) rest
      → IsWithin (some r ∷ refs) budget (added labels count m rest)
  unfolding total
  added-IsWithin r refs m t budget (ok ms) counted small seen h =
      let cost = ap tokens_of counted in (omega (arith, cost, h.0), (seen, h.1))
  added-IsWithin r refs m t budget (err e) counted small seen h = h

  shown-IsWithin :
      (r : WorkspaceFileReference) (refs : List (Option WorkspaceFileReference)) (budget : ℕ)
      (best : Option Fit) (rest : ℕ → Result ContextError (List ModelMessage))
      → FitOk r budget best
      → ((n : ℕ) → IsWithin refs n (rest n))
      → IsWithin (some r ∷ refs) budget (shown labels count best rest budget)
  unfolding total
  shown-IsWithin r refs budget none rest fine h = (omega arith, tt)
  shown-IsWithin r refs budget (some (m, t)) rest fine h = elim (Bool-cases (leb budget t)) [
    | inl last_ ↦
        let cost = ap tokens_of fine.0 in simp last_ (omega (arith, cost, fine.1), (inr fine.2, tt))
    | inr more_ ↦ simp more_ (
        added-IsWithin r refs m t budget (rest (budget - t)) fine.0 fine.1 (inr fine.2)
          (h (budget - t)))
  ]

  cut_file :
      (r : WorkspaceFileReference) (refs : List (Option WorkspaceFileReference)) (budget : ℕ)
      (best : Result ContextError (Option Fit)) (rest : ℕ → Result ContextError (List ModelMessage))
      → SearchOk r budget best
      → ((n : ℕ) → IsWithin refs n (rest n))
      → IsWithin (some r ∷ refs) budget (best >>= λ b. shown labels count b rest budget)
  cut_file r refs budget (err e) rest fine h = fine
  cut_file r refs budget (ok best) rest fine h = shown-IsWithin r refs budget best rest fine h

  one_file :
      (r : WorkspaceFileReference) (refs : List (Option WorkspaceFileReference)) (budget : ℕ)
      (c : Result ContextError ℕ) (rest : ℕ → Result ContextError (List ModelMessage))
      → count_message labels count (full_message labels count r) ≡ c
      → ((n : ℕ) → IsWithin refs n (rest n))
      → IsWithin (some r ∷ refs) budget (
          c >>= λ t.
          if leb t budget
          then added labels count (full_message labels count r) (rest (budget - t))
          else (fit_truncated_message labels count r budget >>= λ b.
              shown labels count b rest budget))
  one_file r refs budget (err e) rest counted h =
      count_message-err (full_message labels count r) e counted
  one_file r refs budget (ok t) rest counted h = elim (Bool-cases (leb t budget)) [
    | inl small ↦ simp small (
        added-IsWithin r refs (full_message labels count r) t budget (rest (budget - t)) counted
          (ground arith) (inl refl) (h (budget - t)))
    | inr large ↦ simp large (
        cut_file r refs budget (fit_truncated_message labels count r budget) rest
          (fit-SearchOk r budget) h)
  ]

  project_files-IsWithin :
      (refs : List (Option WorkspaceFileReference)) (budget : ℕ)
      → IsWithin refs budget (project_files labels count refs budget)
  unfolding project_files total
  project_files-IsWithin [] budget = (omega arith, tt)
  project_files-IsWithin (none ∷ refs) budget = refl
  project_files-IsWithin (some r ∷ refs) budget =
      one_file r refs budget (count_message labels count (full_message labels count r))
        (project_files labels count refs) refl (project_files-IsWithin refs)

bounded_count-some :
    (n : ℕ)
    → n ≤ max_model_context_window_tokens
    → bounded_count max_model_context_window_tokens (nonneg n) ≡ some n
unfolding bounded_count
bounded_count-some n h = ground arith

-- For any counter, budget and references, the projection ends, and its search is never cut short. The
-- messages that it gives are for the first of the references, in their order, each with the whole
-- text of its file or a first part of it, and together they are within the budget of tokens.
pub project_within_budget-IsWithin :
    (labels : Labels) (count : ModelMessage → JsNumber) (max_references : ℕ)
    (refs : List (Option WorkspaceFileReference)) (budget : ℕ)
    → budget ≤ max_model_context_window_tokens
    → IsWithin labels count refs budget
        (project_within_budget labels count max_references refs (nonneg budget))
unfolding project_within_budget
project_within_budget-IsWithin labels count max_references refs budget small =
    subst (λ o. IsWithin labels count refs budget (projected labels count max_references refs o))
      (sym (bounded_count-some budget small))
      (elim (Bool-cases (ltb max_references (length refs))) [
        | inl many ↦ simp many refl
        | inr few ↦ simp few (project_files-IsWithin labels count refs budget)
      ])
