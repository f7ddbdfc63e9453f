-- ===== src/Tests/HistoryTests.antt =====
-- The history pruner at a history with a tool call and its result.
use ctrl_zebra.Prelude.{true, false, ◌≡◌, refl, List, [], ◌∷◌, ok}
use ctrl_zebra.Messages.{MessageRole, ModelMessage, null, success}
use ctrl_zebra.History.{
  ToolPair, HistoryUnit, PrunedModelHistory, pair_tool_messages, prune_units, pair_message,
  delete_pending,
}
use ctrl_zebra.History.Pairs.Loop.{IsPairing, pair_tool_messages-IsPairing}
use ctrl_zebra.History.Units.{FirstFit, retained_tokens, prune_units-retains}

abbrev question : ModelMessage
question = ModelMessage.text MessageRole.user (b'a' ∷ [])

abbrev answer : ModelMessage
answer = ModelMessage.text MessageRole.assistant (b'b' ∷ [])

abbrev read_call : ModelMessage
read_call = ModelMessage.tool_call (record { id = 4; name = 9; input = null })

abbrev read_result : ModelMessage
read_result =
    ModelMessage.tool_result (record { call_id = 4; name = 9; outcome = success null false })

abbrev conversation : List ModelMessage
conversation = question ∷ read_call ∷ read_result ∷ answer ∷ question ∷ []

abbrev conversation_pairs : List ToolPair
conversation_pairs = record { call_index = 1; result_index = 2 } ∷ []

conversation-pairs : pair_tool_messages conversation ≡ ok conversation_pairs
unfolding pair_tool_messages pair_message delete_pending
conversation-pairs = refl

pair_tool_messages-IsPairing_example : IsPairing conversation conversation_pairs
pair_tool_messages-IsPairing_example =
    pair_tool_messages-IsPairing conversation conversation_pairs conversation-pairs

abbrev short_history : PrunedModelHistory
short_history = record {
  messages = answer ∷ question ∷ [];
  estimated_tokens = 6;
  pruned = true;
  over_budget = false;
}

abbrev two_units : List HistoryUnit
two_units =
    record { indexes = 0 ∷ []; tokens = 5; is_protected = true; retained = true }
    ∷ record { indexes = 1 ∷ []; tokens = 4; is_protected = false; retained = true }
    ∷ []

prune_units-retains_example :
    let r = prune_units 6 two_units 9 false in
    (r.estimated_tokens ≡ retained_tokens r.units) × FirstFit 6 0 two_units r.units
prune_units-retains_example = prune_units-retains 6 two_units (refl, (refl, tt))
