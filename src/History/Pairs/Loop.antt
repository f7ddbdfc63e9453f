-- ===== src/History/Pairs/Loop.antt =====
-- The loop of `pairToolMessages` keeps its pairs sound.
use ctrl_zebra.Prelude.{
  ℕ, suc, ◌+◌, ◌≡◌, refl, sym, subst, false, List, [], ◌∷◌, ◌++◌, Option, some, none, ok, arith,
  >>=-eq-ok, get_elem?, All, All-append,
}
use ctrl_zebra.Messages.{ModelMessage, ToolCall, ToolResult}
use ctrl_zebra.History.{
  ToolPair, PendingCall, Pairing, find_pending, delete_pending, has, pair_call, pair_found,
  pair_message, pair_loop, pair_tool_messages, no_pairs, closed_pairs,
}
use ctrl_zebra.History.Pairs.{
  IsSound, IsPair, IsPending, AllDiffer, AllDiffer-append, IsPending-later, IsPending-delete,
  IsPair-later, IsPair-same, find_pending-IsPending, IsPending-Differs,
}

abbrev pub opened : ℕ → ToolCall → Pairing → Pairing
opened k c s = record s {
  pending = record { call_id = c.id; index = k; name = c.name } ∷ s.pending;
}

opened-IsSound :
    (ms : List ModelMessage) (k : ℕ) (c : ToolCall) (s : Pairing)
    → get_elem? ms k ≡ some (ModelMessage.tool_call c)
    → has c.id s.completed ≡ false
    → IsSound ms k s
    → IsSound ms (suc k) (opened k c s)
opened-IsSound ms k c s at fresh v = record {
  pending = (
    record { is_call = (c, at, refl, refl); is_open = fresh; seen = omega arith },
    IsPending-later ms s.completed k s.pending v.pending,
  );
  pairs = IsPair-same ms s.completed k s.pairs v.pairs;
  differ = v.differ;
}

pair_call-IsSound :
    (ms : List ModelMessage) (k : ℕ) (c : ToolCall) (s s' : Pairing)
    → get_elem? ms k ≡ some (ModelMessage.tool_call c)
    → IsSound ms k s
    → pair_call k c s ≡ ok s'
    → IsSound ms (suc k) s'
unfolding pair_call
pair_call-IsSound ms k c s s' at v e =
    let same : opened k c s ≡ s' = ground arith in
    subst (IsSound ms (suc k)) same (opened-IsSound ms k c s at (ground arith) v)

abbrev joined : ℕ → ToolResult → PendingCall → Pairing → Pairing
joined k r p s = record {
  pending = delete_pending r.call_id s.pending;
  completed = r.call_id ∷ s.completed;
  pairs = s.pairs ++ record { call_index = p.index; result_index = k } ∷ [];
}

joined-IsSound :
    (ms : List ModelMessage) (k : ℕ) (r : ToolResult) (p : PendingCall) (s : Pairing)
    → get_elem? ms k ≡ some (ModelMessage.tool_result r)
    → p.name ≡ r.name
    → p.call_id ≡ r.call_id
    → IsPending ms s.completed k p
    → IsSound ms k s
    → IsSound ms (suc k) (joined k r p s)
unfolding has
joined-IsSound ms k r p s at name id h v = record {
  pending = IsPending-delete ms s.completed k r.call_id s.pending v.pending;
  pairs =
      All-append (IsPair ms (r.call_id ∷ s.completed) (suc k)) s.pairs _
        (IsPair-later ms s.completed k r.call_id s.pairs v.pairs)
        (
          record {
            id = p.call_id;
            name = p.name;
            is_call = h.is_call;
            is_result = (r, at, sym id, sym name);
            is_completed = ground arith;
            ordered = h.seen;
            seen = omega arith;
          },
          tt,
        );
  differ =
      AllDiffer-append s.pairs _ v.differ (IsPending-Differs ms s.completed k p s.pairs h v.pairs);
}

pair_found-IsSound :
    (ms : List ModelMessage) (k : ℕ) (r : ToolResult) (s s' : Pairing) (o : Option PendingCall)
    → get_elem? ms k ≡ some (ModelMessage.tool_result r)
    → find_pending r.call_id s.pending ≡ o
    → IsSound ms k s
    → pair_found k r s o ≡ ok s'
    → IsSound ms (suc k) s'
unfolding pair_found
pair_found-IsSound ms k r s s' none at f v e = cc
pair_found-IsSound ms k r s s' (some p) at f v e =
    let same : joined k r p s ≡ s' = ground arith in
    let (h, id) = find_pending-IsPending ms s.completed k r.call_id s.pending p v.pending f in
    subst (IsSound ms (suc k)) same (joined-IsSound ms k r p s at (ground arith) id h v)

pair_message-IsSound :
    (ms : List ModelMessage) (k : ℕ) (m : ModelMessage) (s s' : Pairing)
    → get_elem? ms k ≡ some m
    → IsSound ms k s
    → pair_message k m s ≡ ok s'
    → IsSound ms (suc k) s'
unfolding pair_message
pair_message-IsSound ms k (ModelMessage.tool_call c) s s' at v e =
    pair_call-IsSound ms k c s s' at v e
pair_message-IsSound ms k (ModelMessage.tool_result r) s s' at v e =
    pair_found-IsSound ms k r s s' (find_pending r.call_id s.pending) at refl v e
pair_message-IsSound ms k (ModelMessage.text role content) s s' at v e =
    let same : s ≡ s' = ground arith in
    subst (IsSound ms (suc k)) same (record {
      pending = IsPending-later ms s.completed k s.pending v.pending;
      pairs = IsPair-same ms s.completed k s.pairs v.pairs;
      differ = v.differ;
    })

-- The messages from the index `k` on.
abbrev pub IsSuffix : List ModelMessage → ℕ → List ModelMessage → Type 0
IsSuffix ms k rest = (j : ℕ) → get_elem? ms (k + j) ≡ get_elem? rest j

pub IsSuffix-head :
    (ms : List ModelMessage) (k : ℕ) (m : ModelMessage) (rest : List ModelMessage)
    → IsSuffix ms k (m ∷ rest)
    → get_elem? ms k ≡ some m
IsSuffix-head ms k m rest h = let e : k + 0 ≡ k = omega arith in rw e at (h 0)

pub IsSuffix-tail :
    (ms : List ModelMessage) (k : ℕ) (m : ModelMessage) (rest : List ModelMessage)
    → IsSuffix ms k (m ∷ rest)
    → IsSuffix ms (suc k) rest
IsSuffix-tail ms k m rest h j = let e : suc k + j ≡ k + suc j = omega arith in rw e (h (suc j))

pair_loop-IsSound :
    (ms : List ModelMessage) (k : ℕ) (rest : List ModelMessage) (s s' : Pairing)
    → IsSuffix ms k rest
    → IsSound ms k s
    → pair_loop k rest s ≡ ok s'
    → (n : ℕ) × IsSound ms n s'
unfolding pair_loop
pair_loop-IsSound ms k [] s s' suffix v e =
    let same : s ≡ s' = ground arith in (k, subst (IsSound ms k) same v)
pair_loop-IsSound ms k (m ∷ rest) s s' suffix v e =
    let (t, step, later) = >>=-eq-ok (pair_message k m s) _ e in
    pair_loop-IsSound ms (suc k) rest t s' (IsSuffix-tail ms k m rest suffix)
      (pair_message-IsSound ms k m s t (IsSuffix-head ms k m rest suffix) v step) later

closed_pairs-eq : (s : Pairing) (ps : List ToolPair) → closed_pairs s ≡ ok ps → s.pairs ≡ ps
closed_pairs-eq s ps e = ground arith

-- The pairs that are accepted: each joins a call to a later result of the same identifier and name,
-- and no call and no result is in two of them.
pub record IsPairing (ms : List ModelMessage) (ps : List ToolPair) : Type 0 where
  pub completed : List ℕ
  pub bound : ℕ
  pub pairs : All (IsPair ms completed bound) ps
  pub differ : AllDiffer ps

-- The pairs that `pairToolMessages` returns each join a call to a later result of the same identifier
-- and tool name, and no two of them share a call or a result.
pub pair_tool_messages-IsPairing :
    (ms : List ModelMessage) (ps : List ToolPair) → pair_tool_messages ms ≡ ok ps → IsPairing ms ps
unfolding pair_tool_messages
pair_tool_messages-IsPairing ms ps e =
    let (s, loop, closed) = >>=-eq-ok (pair_loop 0 ms no_pairs) closed_pairs e in
    let (n, v) =
      pair_loop-IsSound ms 0 ms no_pairs s (λ j. let e : 0 + j ≡ j = omega arith in rw e)
        (record { pending = tt; pairs = tt; differ = tt }) loop in
    let same = closed_pairs-eq s ps closed in
    subst (IsPairing ms) same
      (record { completed = s.completed; bound = n; pairs = v.pairs; differ = v.differ })
