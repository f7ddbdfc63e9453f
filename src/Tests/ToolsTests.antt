-- ===== src/Tests/ToolsTests.antt =====
-- Tool calls at concrete hosts, and the limiter at concrete outputs.
use ctrl_zebra.Prelude.{true, false, ◌≡◌, refl, [], ◌∷◌, some, ◌⊎◌, arith}
use ctrl_zebra.Messages.{JsonValue, null, boolean, array, cons, nil, execute}
use ctrl_zebra.Session.{SessionStatus, transition_to}
use ctrl_zebra.Tools.Output.{limit_tool_output}
use ctrl_zebra.Tools.Output.Limits.{IsLimited, limit_tool_output-IsLimited}
use ctrl_zebra.Tools.Output.Whole.{limit_tool_output_whole}
use ctrl_zebra.Tools.Execution.{
  execute_tool_call, execute_approval_required_tool, approve_and_execute, announce,
  consume_approval, use_approval, execute_tool_implementation,
}
use ctrl_zebra.Tools.Json.{tool_calls_equal}
use ctrl_zebra.Tools.Execution.Types.{
  parsed, Prepared, ran, ToolApprovalDecision, ApprovedToolConsumption, operation, AgentTool, Host,
  Request,
}
use ctrl_zebra.Tools.Execution.Monad.{
  World, running, approval_state, preparing, creating, deciding, consuming, executing, invalidating,
  ApprovalStatus,
}
use ctrl_zebra.Tools.Execution.Safety.{is_authorised}
use ctrl_zebra.Tools.Execution.Authorised.{workflow_is_bound, execute_tool_call-Authorised}

abbrev flags : JsonValue
flags = array (cons (boolean true) (cons null nil))

limit_tool_output-IsLimited_example :
    IsLimited (limit_tool_output flags).output
    × (((limit_tool_output flags).truncated ≡ true) ⊎ ((limit_tool_output flags).output ≡ flags))
limit_tool_output-IsLimited_example = limit_tool_output-IsLimited flags

limit_tool_output_whole_example :
    limit_tool_output flags ≡ record { output = flags; truncated = false }
limit_tool_output_whole_example = limit_tool_output_whole flags (omega arith, (tt, (tt, tt)))

abbrev command : Request
command = record { session_id = 1; run_id = 2; call = record { id = 3; name = 4; input = null } }

abbrev shell : AgentTool
shell = record {
  risk = execute;
  input = parsed;
  preparation = some Prepared.prepared;
  execution = ran (some (boolean true)) false;
}

abbrev agreeing_host : Host
agreeing_host = record {
  tool = some shell;
  workflow = some (
      operation (record {
        request =
            some (record { session_id = 1; run_id = some 2; risk = execute; call = command.call });
        decision = ToolApprovalDecision.approved;
        consumption = ApprovedToolConsumption.approved;
      }));
  result_bytes = λ r. 100;
}

abbrev streaming_world : World
streaming_world = record {
  session = record {
    session_id = 1;
    status = SessionStatus.streaming;
    run_owner = some 2;
    events = [];
  };
  log = [];
  readings = false ∷ [];
}

command_log :
    (execute_tool_call command agreeing_host streaming_world).0.log
    ≡ invalidating
      ∷ executing
      ∷ approval_state ApprovalStatus.consumed
      ∷ consuming
      ∷ approval_state ApprovalStatus.approved
      ∷ deciding
      ∷ approval_state ApprovalStatus.pending
      ∷ creating
      ∷ preparing
      ∷ running
      ∷ []
unfolding execute_tool_call transition_to execute_approval_required_tool approve_and_execute
    tool_calls_equal announce consume_approval use_approval execute_tool_implementation
command_log = refl

execute_tool_call-Authorised_example :
    is_authorised
      (workflow_is_bound command execute agreeing_host.workflow)
      execute
      (execute_tool_call command agreeing_host streaming_world).0.log
    ≡ true
unfolding is_authorised
execute_tool_call-Authorised_example =
    execute_tool_call-Authorised command agreeing_host shell streaming_world refl refl
