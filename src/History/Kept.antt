-- ===== src/History/Kept.antt =====
-- Which messages a pruned history keeps: the system messages and the latest user message, and of a
-- call and its result both or none.
pub mod Cut
pub mod Whole
use ctrl_zebra.Prelude.{
  ℕ, zero, suc, ◌+◌, ◌≤◌, ◌<◌, ◌≡◌, ◌≢◌, refl, sym, ◌∙◌, ap, subst, ◌⊎◌, inl, inr, Bool, true,
  false, ◌||◌, List, [], ◌∷◌, ◌++◌, Option, some, none, arith, Bool-cases, Option-cases, get_elem?,
  length, All, ◌==◌, ==_iff,
}
use ctrl_zebra.Messages.{ModelMessage, ToolCall, ToolResult}
use ctrl_zebra.History.{
  ToolPair, HistoryUnit, has, pair_at, result_indexes, unit_indexes, any_protected, is_system_at,
  is_index, retained_indexes,
}
use ctrl_zebra.History.Pairs.{IsPair, AllDiffer, Differs}
use ctrl_zebra.History.Starts.{IsUnit, all_indexes, has-append, pair_at-call}
use ctrl_zebra.History.Units.{OldestFirst, IsDropped}

abbrev pub Among : ToolPair → List ToolPair → Type 0
Among p [] = ⊥
Among p (q ∷ qs) = (p ≡ q) ⊎ Among p qs

pub All-Among {ℓ} :
    (P : ToolPair → Type ℓ) (p : ToolPair) (ps : List ToolPair) → All P ps → Among p ps → P p
All-Among P p [] h a = absurd a
All-Among P p (q ∷ qs) h (inl e) = subst P (sym e) h.0
All-Among P p (q ∷ qs) h (inr a) = All-Among P p qs h.1 a

Differs-sym : (p q : ToolPair) → Differs p q → Differs q p
Differs-sym p q d = (λ e. d.0 (sym e), λ e. d.1 (sym e))

Among-Differs :
    (ps : List ToolPair) (p q : ToolPair)
    → AllDiffer ps
    → Among p ps
    → Among q ps
    → (p ≡ q) ⊎ Differs p q
Among-Differs [] p q d a b = absurd a
Among-Differs (r ∷ rs) p q d (inl e) (inl f) = inl (e ∙ sym f)
Among-Differs (r ∷ rs) p q d (inl e) (inr b) =
    inr (subst (λ t. Differs t q) (sym e) (All-Among (λ t. Differs r t) q rs d.0 b))
Among-Differs (r ∷ rs) p q d (inr a) (inl f) =
    inr
      (Differs-sym q p (subst (λ t. Differs t p) (sym f) (All-Among (λ t. Differs r t) p rs d.0 a)))
Among-Differs (r ∷ rs) p q d (inr a) (inr b) = Among-Differs rs p q d.1 a b

pair_at-Among : (i : ℕ) (ps : List ToolPair) (q : ToolPair) → pair_at i ps ≡ some q → Among q ps
unfolding pair_at
pair_at-Among i [] q e = cc
pair_at-Among i (p ∷ ps) q e = elim (Bool-cases (p.call_index == i)) [
  | inl same ↦ inl (ground arith)
  | inr other ↦ inr (pair_at-Among i ps q (ground arith))
]

Among-pair_at : (p : ToolPair) (ps : List ToolPair) → Among p ps → pair_at p.call_index ps ≢ none
unfolding pair_at
Among-pair_at p [] a e = a
Among-pair_at p (q ∷ qs) (inl e) f = ground arith
Among-pair_at p (q ∷ qs) (inr a) f = ground (arith, Among-pair_at p qs a)

Among-result :
    (p : ToolPair) (ps : List ToolPair) → Among p ps → has p.result_index (result_indexes ps) ≡ true
unfolding has result_indexes
Among-result p [] a = absurd a
Among-result p (q ∷ qs) (inl e) = ground arith
Among-result p (q ∷ qs) (inr a) = ground (arith, Among-result p qs a)

module _ (ms : List ModelMessage) (completed : List ℕ) (k : ℕ) (ps : List ToolPair)
    (pairs : All (IsPair ms completed k) ps) (differ : AllDiffer ps) where
  pub result_indexes-IsResult :
      (i : ℕ) (qs : List ToolPair)
      → All (IsPair ms completed k) qs
      → has i (result_indexes qs) ≡ true
      → (r : ToolResult) × (get_elem? ms i ≡ some (ModelMessage.tool_result r))
  unfolding has result_indexes
  result_indexes-IsResult i [] h e = cc
  result_indexes-IsResult i (q ∷ qs) h e = elim (Bool-cases (q.result_index == i)) [
    | inl same ↦ (h.0.is_result.0, rw (← (==_iff q.result_index i).0 same) h.0.is_result.1)
    | inr other ↦ result_indexes-IsResult i qs h.1 (ground arith)
  ]

  call-ne-result : (p q : ToolPair) → Among p ps → Among q ps → p.call_index ≢ q.result_index
  call-ne-result p q a b e =
      let (c, at, id, name) = (All-Among (IsPair ms completed k) p ps pairs a).is_call in
      let (r, at', id', name') = (All-Among (IsPair ms completed k) q ps pairs b).is_result in cc

  pub unit_together :
      (p : ToolPair) (i : ℕ) (o : Option ToolPair)
      → Among p ps
      → has i (result_indexes ps) ≡ false
      → pair_at i ps ≡ o
      → has p.call_index (unit_indexes i o) ≡ has p.result_index (unit_indexes i o)
  unfolding has
  unit_together p i none a free e =
      let start : p.call_index ≢ i =
        λ s. Among-pair_at p ps a (subst (λ t. pair_at t ps ≡ none) (sym s) e) in
      let skip : p.result_index ≢ i = λ s. cc (free, Among-result p ps a, s) in ground arith
  unit_together p i (some q) a free e =
      let b = pair_at-Among i ps q e in
      let skip : p.result_index ≢ i = λ s. cc (free, Among-result p ps a, s) in
      ground (arith, pair_at-call i ps q e, call-ne-result p q a b, Among-Differs ps p q differ a b)
