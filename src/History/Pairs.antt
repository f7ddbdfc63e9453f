-- ===== src/History/Pairs.antt =====
-- What `pairToolMessages` accepts: every pair joins a call and a later result of the same identifier
-- and tool name, and no message is in two pairs.
pub mod Loop
use ctrl_zebra.Prelude.{
  ℕ, zero, suc, ◌+◌, ◌≤◌, ◌<◌, ◌≡◌, ◌≢◌, refl, sym, subst, ◌∙◌, ap, ◌⊎◌, inl, inr, Bool, true,
  false, List, [], ◌∷◌, ◌++◌, Option, some, none, Result, ok, err, arith, Bool-cases, Option-cases,
  get_elem?, All, All-append, ◌==◌,
}
use ctrl_zebra.Messages.{ModelMessage, ToolCall, ToolResult, MessageRole}
use ctrl_zebra.History.{
  ToolPair, PendingCall, Pairing, HistoryError, find_pending, delete_pending, has, is_found,
  pair_call, pair_found, pair_message, pair_loop, pair_tool_messages, no_pairs, closed_pairs,
  result_indexes,
}

abbrev pub IsCallAt : List ModelMessage → ℕ → ℕ → ℕ → Type 0
IsCallAt ms i id name =
    (c : ToolCall) × (get_elem? ms i ≡ some (ModelMessage.tool_call c))
    × (c.id ≡ id)
    × (c.name ≡ name)

abbrev pub IsResultAt : List ModelMessage → ℕ → ℕ → ℕ → Type 0
IsResultAt ms i id name =
    (r : ToolResult) × (get_elem? ms i ≡ some (ModelMessage.tool_result r))
    × (r.call_id ≡ id)
    × (r.name ≡ name)

-- A pair at the index `k` of the loop, its identifier among those completed.
pub record IsPair (ms : List ModelMessage) (completed : List ℕ) (k : ℕ) (p : ToolPair)
    : Type 0 where
  pub id : ℕ
  pub name : ℕ
  pub is_call : IsCallAt ms p.call_index id name
  pub is_result : IsResultAt ms p.result_index id name
  pub is_completed : has id completed ≡ true
  pub ordered : p.call_index < p.result_index
  pub seen : p.result_index < k

pub record IsPending (ms : List ModelMessage) (completed : List ℕ) (k : ℕ) (p : PendingCall)
    : Type 0 where
  pub is_call : IsCallAt ms p.index p.call_id p.name
  pub is_open : has p.call_id completed ≡ false
  pub seen : p.index < k

abbrev pub Differs : ToolPair → ToolPair → Type 0
Differs p q = (p.call_index ≢ q.call_index) × (p.result_index ≢ q.result_index)

abbrev pub AllDiffer : List ToolPair → Type 0
AllDiffer [] = Unit {0}
AllDiffer (p ∷ ps) = All (λ q. Differs p q) ps × AllDiffer ps

pub AllDiffer-append :
    (ps : List ToolPair) (q : ToolPair)
    → AllDiffer ps
    → All (λ p. Differs p q) ps
    → AllDiffer (ps ++ q ∷ [])
AllDiffer-append [] q d h = (tt, tt)
AllDiffer-append (p ∷ ps) q d h =
    (All-append (λ r. Differs p r) ps (q ∷ []) d.0 (h.0, tt), AllDiffer-append ps q d.1 h.1)

pub record IsSound (ms : List ModelMessage) (k : ℕ) (s : Pairing) : Type 0 where
  pub pending : All (IsPending ms s.completed k) s.pending
  pub pairs : All (IsPair ms s.completed k) s.pairs
  pub differ : AllDiffer s.pairs

pub IsPending-later :
    (ms : List ModelMessage) (completed : List ℕ) (k : ℕ) (ps : List PendingCall)
    → All (IsPending ms completed k) ps
    → All (IsPending ms completed (suc k)) ps
IsPending-later ms completed k [] h = tt
IsPending-later ms completed k (p ∷ ps) h = (
  record { is_call = h.0.is_call; is_open = h.0.is_open; seen = omega arith },
  IsPending-later ms completed k ps h.1,
)

-- Completing an identifier keeps the pending calls of the other identifiers.
pub IsPending-delete :
    (ms : List ModelMessage) (completed : List ℕ) (k id : ℕ) (ps : List PendingCall)
    → All (IsPending ms completed k) ps
    → All (IsPending ms (id ∷ completed) (suc k)) (delete_pending id ps)
unfolding delete_pending
IsPending-delete ms completed k id [] h = tt
IsPending-delete ms completed k id (p ∷ ps) h =
    let rest = IsPending-delete ms completed k id ps h.1 in
    elim (Bool-cases (p.call_id == id)) [
      | inl same ↦ simp same rest
      | inr other ↦ simp other (
        record {
          is_call = h.0.is_call;
          is_open = unfold has in ground (arith, h.0.is_open);
          seen = omega arith;
        },
        rest,
      )
    ]

pub IsPair-later :
    (ms : List ModelMessage) (completed : List ℕ) (k id : ℕ) (ps : List ToolPair)
    → All (IsPair ms completed k) ps
    → All (IsPair ms (id ∷ completed) (suc k)) ps
IsPair-later ms completed k id [] h = tt
IsPair-later ms completed k id (p ∷ ps) h = (
  record {
    id = h.0.id;
    name = h.0.name;
    is_call = h.0.is_call;
    is_result = h.0.is_result;
    is_completed = unfold has in ground (arith, h.0.is_completed);
    ordered = h.0.ordered;
    seen = omega arith;
  },
  IsPair-later ms completed k id ps h.1,
)

pub IsPair-same :
    (ms : List ModelMessage) (completed : List ℕ) (k : ℕ) (ps : List ToolPair)
    → All (IsPair ms completed k) ps
    → All (IsPair ms completed (suc k)) ps
IsPair-same ms completed k [] h = tt
IsPair-same ms completed k (p ∷ ps) h = (
  record {
    id = h.0.id;
    name = h.0.name;
    is_call = h.0.is_call;
    is_result = h.0.is_result;
    is_completed = h.0.is_completed;
    ordered = h.0.ordered;
    seen = omega arith;
  },
  IsPair-same ms completed k ps h.1,
)

pub find_pending-IsPending :
    (ms : List ModelMessage) (completed : List ℕ) (k id : ℕ) (ps : List PendingCall)
    (p : PendingCall)
    → All (IsPending ms completed k) ps
    → find_pending id ps ≡ some p
    → IsPending ms completed k p × (p.call_id ≡ id)
unfolding find_pending
find_pending-IsPending ms completed k id [] p h e = cc
find_pending-IsPending ms completed k id (q ∷ qs) p h e = elim (Bool-cases (q.call_id == id)) [
  | inl same ↦
      let e' : q ≡ p = ground arith in
      subst (λ p. IsPending ms completed k p × (p.call_id ≡ id)) e' (h.0, ground arith)
  | inr other ↦ find_pending-IsPending ms completed k id qs p h.1 (ground arith)
]

-- A call that is still open stands in no pair, and a result at the index of the loop in none yet.
pub IsPending-Differs :
    (ms : List ModelMessage) (completed : List ℕ) (k : ℕ) (p : PendingCall) (qs : List ToolPair)
    → IsPending ms completed k p
    → All (IsPair ms completed k) qs
    → All (λ q. Differs q (record { call_index = p.index; result_index = k })) qs
IsPending-Differs ms completed k p [] h hs = tt
IsPending-Differs ms completed k p (q ∷ qs) h hs = (
  (
    λ e.
        let (c, at, id, name) = h.is_call in
        let (c', at', id', name') = hs.0.is_call in
        let same : c ≡ c' = cc in
        let open_ = h.is_open in
        let done_ = hs.0.is_completed in
        let ids : p.call_id ≡ hs.0.id = sym id ∙ ap (λ (t : ToolCall). t.id) same ∙ id' in cc,
    λ e. omega (arith, hs.0.seen),
  ),
  IsPending-Differs ms completed k p qs h hs.1,
)
