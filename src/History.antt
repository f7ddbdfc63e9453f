-- ===== src/History.antt =====
-- packages/core/src/history-pruner.ts: a message history is cut to its token budget without parting
-- a tool call from its result. The token counter of the caller is a parameter.
pub mod Estimate
pub mod Validate
pub mod Pairs
pub mod Units
pub mod Starts
pub mod Kept
use ctrl_zebra.Prelude.{
  ℕ, zero, suc, ◌+◌, ◌-◌, Bool, true, false, not, ◌&&◌, ◌||◌, List, [], ◌∷◌, ◌++◌, map, Option,
  none, some, Result, ok, err, ◌>>=◌, ◌>>◌, guard, ltb, leb, ◌==◌, if◌then◌else◌, get_elem?, length,
}
use ctrl_zebra.Numbers.{JsNumber, bounded_count, max_safe_integer}
use ctrl_zebra.Messages.{ModelMessage, ToolCall, ToolResult, is_system, is_user}
use ctrl_zebra.Budget.Window.{max_model_context_window_tokens}

pub data HistoryError : Type 0 where
  invalid_history invalid_budget invalid_token_count : HistoryError

pub record ToolPair : Type 0 where
  pub call_index : ℕ
  pub result_index : ℕ

pub record HistoryUnit : Type 0 where
  pub indexes : List ℕ
  pub tokens : ℕ
  pub is_protected : Bool
  pub retained : Bool

pub record PrunedModelHistory : Type 0 where
  pub messages : List ModelMessage
  pub estimated_tokens : ℕ
  pub pruned : Bool
  pub over_budget : Bool

-- An entry of the map `pendingCalls`, and the map and set operations on it.
pub record PendingCall : Type 0 where
  pub call_id : ℕ
  pub index : ℕ
  pub name : ℕ

unfoldable pub find_pending : ℕ → List PendingCall → Option PendingCall
find_pending id [] = none
find_pending id (p ∷ ps) = if p.call_id == id then some p else find_pending id ps

unfoldable pub delete_pending : ℕ → List PendingCall → List PendingCall
delete_pending id [] = []
delete_pending id (p ∷ ps) =
    if p.call_id == id then delete_pending id ps else p ∷ delete_pending id ps

unfoldable pub has : ℕ → List ℕ → Bool
has n [] = false
has n (m ∷ ms) = m == n || has n ms

abbrev pub is_found : Option PendingCall → Bool
is_found none = false
is_found (some p) = true

-- The variables of the loop of `pairToolMessages`.
pub record Pairing : Type 0 where
  pub pending : List PendingCall
  pub completed : List ℕ
  pub pairs : List ToolPair

-- One round of the loop, at a message and its index.
unfoldable pub pair_call : ℕ → ToolCall → Pairing → Result HistoryError Pairing
unfolding find_pending has
pair_call index call s =
    if is_found (find_pending call.id s.pending) || has call.id s.completed
    then err invalid_history
    else ok (record s {
      pending = record { call_id = call.id; index = index; name = call.name } ∷ s.pending;
    })

unfoldable pub pair_found :
    ℕ → ToolResult → Pairing → Option PendingCall → Result HistoryError Pairing
pair_found index result s none = err invalid_history
pair_found index result s (some call) =
    if call.name == result.name
    then ok (record {
      pending = delete_pending result.call_id s.pending;
      completed = result.call_id ∷ s.completed;
      pairs = s.pairs ++ record { call_index = call.index; result_index = index } ∷ [];
    })
    else err invalid_history

unfoldable pub pair_message : ℕ → ModelMessage → Pairing → Result HistoryError Pairing
unfolding pair_call pair_found
pair_message index (ModelMessage.tool_call call) s = pair_call index call s
pair_message index (ModelMessage.tool_result result) s =
    pair_found index result s (find_pending result.call_id s.pending)
pair_message index (ModelMessage.text role content) s = ok s

unfoldable pub pair_loop : ℕ → List ModelMessage → Pairing → Result HistoryError Pairing
pair_loop index [] s = ok s
pair_loop index (message ∷ rest) s = do
  s' ← pair_message index message s
  pair_loop (suc index) rest s'

abbrev pub no_pairs : Pairing
no_pairs = record { pending = []; completed = []; pairs = [] }

abbrev pub closed_pairs : Pairing → Result HistoryError (List ToolPair)
closed_pairs s = elim s.pending [ [] ↦ ok s.pairs | p ∷ ps ↦ err invalid_history ]

unfoldable pub pair_tool_messages : List ModelMessage → Result HistoryError (List ToolPair)
unfolding pair_loop
pair_tool_messages messages = pair_loop 0 messages no_pairs >>= closed_pairs

abbrev pub is_user_at : Option ModelMessage → Bool
is_user_at none = false
is_user_at (some message) = is_user message

-- The loop of `findLatestUserIndex`, at the indexes below a bound, from the last one down.
unfoldable pub latest_user_below : List ModelMessage → ℕ → Option ℕ
latest_user_below messages zero = none
latest_user_below messages (suc index) = elim (is_user_at (get_elem? messages index)) [
  | true ↦ some index
  | false ↦ latest_user_below messages index
]

unfoldable pub find_latest_user_index : List ModelMessage → Option ℕ
find_latest_user_index messages = latest_user_below messages (length messages)

-- `messages.map` with the counter: each count is a nonnegative safe integer within the window.
unfoldable pub count_messages :
    (ModelMessage → JsNumber) → List ModelMessage → Result HistoryError (List ℕ)
count_messages count [] = ok []
count_messages count (message ∷ rest) =
    elim (bounded_count max_model_context_window_tokens (count message)) [
      | none ↦ err invalid_token_count
      | some n ↦ do ns ← count_messages count rest; ok (n ∷ ns)
    ]

-- `total + count`, which throws past the safe integers.
abbrev pub safe_add : ℕ → ℕ → Result HistoryError ℕ
safe_add total n =
    if leb (total + n) max_safe_integer then ok (total + n) else err invalid_token_count

unfoldable pub pair_at : ℕ → List ToolPair → Option ToolPair
pair_at index [] = none
pair_at index (p ∷ ps) = if p.call_index == index then some p else pair_at index ps

unfoldable pub result_indexes : List ToolPair → List ℕ
result_indexes [] = []
result_indexes (p ∷ ps) = p.result_index ∷ result_indexes ps

abbrev pub unit_indexes : ℕ → Option ToolPair → List ℕ
unit_indexes index none = index ∷ []
unit_indexes index (some pair) = pair.call_index ∷ pair.result_index ∷ []

unfoldable pub sum_indexes : List ℕ → List ℕ → ℕ → Result HistoryError ℕ
sum_indexes message_tokens [] total = ok total
sum_indexes message_tokens (i ∷ is) total = elim (get_elem? message_tokens i) [
  | none ↦ err invalid_token_count
  | some n ↦ (do total' ← safe_add total n; sum_indexes message_tokens is total')
]

abbrev pub is_system_at : Option ModelMessage → Bool
is_system_at none = false
is_system_at (some message) = is_system message

abbrev pub is_index : Option ℕ → ℕ → Bool
is_index none i = false
is_index (some latest) i = i == latest

unfoldable pub any_protected : List ModelMessage → Option ℕ → List ℕ → Bool
any_protected messages latest [] = false
any_protected messages latest (i ∷ is) =
    is_system_at (get_elem? messages i) || is_index latest i || any_protected messages latest is

-- The unit that starts at an index.
unfoldable pub unit_at :
    List ModelMessage → List ℕ → List ToolPair → Option ℕ → ℕ → Result HistoryError HistoryUnit
unit_at messages message_tokens pairs latest index =
    let indexes = unit_indexes index (pair_at index pairs) in
    do
      tokens ← sum_indexes message_tokens indexes 0
      ok (record {
        indexes = indexes;
        tokens = tokens;
        is_protected = any_protected messages latest indexes;
        retained = true;
      })

-- The loop of `createHistoryUnits` from an index on, for the rounds left.
unfoldable pub units_from :
    List ModelMessage
    → List ℕ
    → List ToolPair
    → Option ℕ
    → ℕ
    → ℕ
    → Result HistoryError (List HistoryUnit)
units_from messages message_tokens pairs latest zero index = ok []
units_from messages message_tokens pairs latest (suc rounds) index =
    elim (has index (result_indexes pairs)) [
      | true ↦ units_from messages message_tokens pairs latest rounds (suc index)
      | false ↦ (do
        unit ← unit_at messages message_tokens pairs latest index
        units ← units_from messages message_tokens pairs latest rounds (suc index)
        ok (unit ∷ units))
    ]

unfoldable pub create_history_units :
    List ModelMessage → List ℕ → List ToolPair → Option ℕ → Result HistoryError (List HistoryUnit)
create_history_units messages message_tokens pairs latest =
    units_from messages message_tokens pairs latest (length messages) 0

unfoldable pub sum_unit_tokens : List HistoryUnit → ℕ → Result HistoryError ℕ
sum_unit_tokens [] total = ok total
sum_unit_tokens (unit ∷ units) total = do
  total' ← safe_add total unit.tokens
  sum_unit_tokens units total'

-- The pruning loop: the units with their flags, the estimate that is left, and whether it pruned.
pub record Pruning : Type 0 where
  pub units : List HistoryUnit
  pub estimated_tokens : ℕ
  pub pruned : Bool

abbrev pub keep_unit : HistoryUnit → Pruning → Pruning
keep_unit unit p = record p { units = unit ∷ p.units }

-- Source: `break` once the estimate fits, `continue` at a protected unit. The estimate holds the
-- tokens of the units that are left, so the subtraction does not go below zero.
unfoldable pub prune_units : ℕ → List HistoryUnit → ℕ → Bool → Pruning
prune_units max_tokens [] estimated pruned = record {
  units = [];
  estimated_tokens = estimated;
  pruned = pruned;
}
prune_units max_tokens (unit ∷ units) estimated pruned = elim (leb estimated max_tokens) [
  | true ↦ record { units = unit ∷ units; estimated_tokens = estimated; pruned = pruned }
  | false ↦ (elim unit.is_protected [
    | true ↦ keep_unit unit (prune_units max_tokens units estimated pruned)
    | false ↦
        keep_unit (record unit { retained = false })
          (prune_units max_tokens units (estimated - unit.tokens) true)
  ])
]

unfoldable pub retained_indexes : List HistoryUnit → List ℕ
retained_indexes [] = []
retained_indexes (unit ∷ units) =
    if unit.retained then unit.indexes ++ retained_indexes units else retained_indexes units

-- `messages.filter` by index.
unfoldable pub filter_indexes : List ℕ → ℕ → List ModelMessage → List ModelMessage
filter_indexes kept index [] = []
filter_indexes kept index (message ∷ rest) =
    if has index kept
    then message ∷ filter_indexes kept (suc index) rest
    else filter_indexes kept (suc index) rest

unfoldable pub pruned_history : List ModelMessage → ℕ → Pruning → PrunedModelHistory
pruned_history messages max_tokens p = record {
  messages = if p.pruned then filter_indexes (retained_indexes p.units) 0 messages else messages;
  estimated_tokens = p.estimated_tokens;
  pruned = p.pruned;
  over_budget = ltb max_tokens p.estimated_tokens;
}

abbrev pub history_budget : JsNumber → Result HistoryError ℕ
history_budget max_tokens = elim (bounded_count max_model_context_window_tokens max_tokens) [
  | none ↦ err invalid_budget
  | some n ↦ ok n
]

unfoldable pub prune_model_history :
    List ModelMessage
    → JsNumber
    → (ModelMessage → JsNumber)
    → Result HistoryError PrunedModelHistory
prune_model_history messages max_tokens count = do
  limit ← history_budget max_tokens
  pairs ← pair_tool_messages messages
  message_tokens ← count_messages count messages
  let latest = find_latest_user_index messages
  units ← create_history_units messages message_tokens pairs latest
  estimated ← sum_unit_tokens units 0
  ok (pruned_history messages limit (prune_units limit units estimated false))
