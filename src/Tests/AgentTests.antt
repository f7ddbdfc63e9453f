-- ===== src/Tests/AgentTests.antt =====
-- A run with a tool call, one that is refused, and observations of repeated calls.
use ctrl_zebra.Prelude.{
  ℕ, zero, suc, ◌+◌, true, false, ◌≡◌, ◌≤◌, ◌↔◌, refl, [], ◌∷◌, List, none, some, ok, err, arith,
}
use ctrl_zebra.Prelude.Steps.{Ends}
use ctrl_zebra.Numbers.{nonneg}
use ctrl_zebra.Text.{Text}
use ctrl_zebra.Messages.{null, ToolCall, ModelMessage, read}
use ctrl_zebra.Session.{SessionStatus, create, begin_run}
use ctrl_zebra.Edits.WorkspacePath.{includes}
use ctrl_zebra.Repetition.{Spelling, observe, new_detector}
use ctrl_zebra.Repetition.Runs.{IsPlain, observe_all, leading_run, last_first, observe-leading_run}
use ctrl_zebra.Tools.Execution.Types.{parsed, ran, AgentTool}
use ctrl_zebra.Agent.World.{
  stop, text_delta, tool_call, finish, ProviderStream, RunWorld, Runtime, invalid_transition,
}
use ctrl_zebra.Agent.Turn.{no_turn, stream_turn}
use ctrl_zebra.Agent.Run.{run}
use ctrl_zebra.Agent.Quiet.{Answered, Leaves, stream_turn-Within}
use ctrl_zebra.Agent.Ends.{IsEnded, IsFailed, run-IsEnded, run-busy}

abbrev look : ToolCall
look = record { id = 1; name = 7; input = null }

abbrev word : Text
word = b'o' ∷ b'k' ∷ []

abbrev spelled : Spelling
spelled = record { name_text = λ n. n ∷ []; number_text = λ n. n ∷ [] }

abbrev reader : AgentTool
reader = record {
  risk = read;
  input = parsed;
  preparation = none;
  execution = ran (some null) false;
}

-- The provider asks for a tool once, and then answers.
abbrev answers : ℕ → List ModelMessage → ProviderStream
answers zero messages = record { events = tool_call look ∷ finish stop ∷ []; failure = none }
answers (suc n) messages = record { events = text_delta word ∷ finish stop ∷ []; failure = none }

abbrev runtime : Runtime
runtime = record {
  stream = answers;
  host = λ n call. record { tool = some reader; workflow = none; result_bytes = λ r. 10 };
  count = λ m. nonneg 1;
  spelling = spelled;
  max_tool_steps = 2;
  history_token_budget = 100;
  run_token_budget = none;
  offer_tools = true;
  run_id = 5;
  threshold = 3;
  schema = record { accepts_call = λ c. true; accepts_result = λ r. true };
  loaded = ok [];
  external = ok [];
}

abbrev resting : RunWorld
resting = record {
  session = create 1 SessionStatus.idle;
  log = [];
  readings = [];
  guard = record { budget = none; emitted = [] };
  detector = new_detector 3;
  next_reasoning_block = 1;
  streams = 0;
  turn = no_turn;
}

abbrev busy : RunWorld
busy = record resting {
  session = record {
    session_id = 1;
    status = SessionStatus.streaming;
    run_owner = some 8;
    events = [];
  };
}

run-IsEnded_example :
    Ends (λ u w. IsEnded w.session) (λ e w. IsFailed e w.session) (run runtime 3 9 word resting)
unfolding create
run-IsEnded_example = run-IsEnded runtime 3 9 word resting refl (omega arith)

run-busy_example : run runtime 3 9 word busy ≡ (
  busy,
  err (
      invalid_transition
        (record { previous_status = SessionStatus.streaming; status = SessionStatus.preparing })),
)
run-busy_example = run-busy runtime 3 9 word busy refl (unfold ctrl_zebra.Session.owns_run in refl)

stream_turn-Within_example :
    Ends
      (Answered runtime 1 (λ m. m ≡ resting.session))
      (Leaves (λ m. m ≡ resting.session))
      (stream_turn runtime [] 1 resting)
stream_turn-Within_example = stream_turn-Within runtime [] 1 resting

abbrev plain_names : Spelling
plain_names = record { name_text = λ n. (n + 97) ∷ []; number_text = λ n. n ∷ [] }

plain_names-IsPlain : IsPlain plain_names
unfolding includes
plain_names-IsPlain = record {
  distinct = λ m n h. let e : n + 97 ≡ m + 97 = cc in omega (arith, e);
  unbroken = λ n. ground arith;
}

observe-leading_run_example :
    let o =
      (observe plain_names look (observe_all plain_names (look ∷ look ∷ []) (new_detector 3))).1 in
    let run = leading_run plain_names (look ∷ last_first (look ∷ look ∷ []) []) in
    (o.consecutive_count ≡ run) × ((o.threshold_reached ≡ true) ↔ (3 ≤ run))
observe-leading_run_example =
    observe-leading_run plain_names 3 (look ∷ look ∷ []) look plain_names-IsPlain
