-- ===== src/Lib.antt =====
-- A verification library for the core of Ctrl Zebra, a coding agent that runs in an editor: a
-- host-independent core (packages/core), the contracts that its parts share (packages/protocol),
-- tools, model providers, an MCP client, and an editor extension with a chat view that host them.
--
-- One run of the agent takes a message history, cuts it to a token budget, asks a model for a turn,
-- executes the tool calls of the turn under a policy of approvals, and goes on until the model stops
-- or a limit is met. A Session's state machine says which of this may happen when, and a budget of
-- tokens is charged with every request and every report of usage. The library models these parts:
--
-- - Prelude, Numbers, Text: names of the libraries, results of fallible code, JavaScript numbers as
--   the guards see them, strings as lists of code points. Prelude.Steps is for code that changes a
--   state and may throw, with triples for what such a step asks and leaves.
-- - Agent (World, Turn, Run, Quiet, Given, Loop, Ends): packages/core/src/agent-runtime.ts,
--   packages/core/src/model-turn-stream.ts and packages/core/src/context-overflow-recovery.ts. run is
--   AgentRuntime.run, run_rounds its loop, catch_error its catch; stream_turn is the method stream of
--   ModelTurnStream, with a function on_ for each kind of event; recover_from_context_overflow is
--   recoverFromContextOverflow. The state RunWorld has the Session, the guard of the budget, the
--   detector of repetitions, the variables of the turn, and a log of the events.
-- - Repetition (Runs): packages/core/src/tool-repetition-detector.ts, on the texts of
--   packages/protocol/src/canonical-json.ts, which is Canonical.
-- - Messages: the values that pass between the parts, of packages/core/src/model-gateway.ts and
--   packages/protocol/src/tool.ts.
-- - Session (Invariant, Traces): packages/core/src/session-state-machine.ts. The record
--   SessionStateMachine has the fields of the class and the events emitted so far; create, begin_run
--   and transition_to are the constructor, beginRun and transitionTo, commit is #commit. A method
--   that throws is an error of a result.
-- - Budget.Window: packages/core/src/token-budget.ts; allocate_token_budget is allocateTokenBudget.
-- - Budget.Usage: packages/protocol/src/usage.ts; merge_token_usage is mergeTokenUsage.
-- - Budget.Run: packages/core/src/run-token-budget.ts with the schema of snapshots of
--   packages/protocol/src/run-token-budget.ts. observe_estimate, observe_usage, evaluate and snapshot
--   are the methods of RunTokenBudget; Budget.Run.Guard is RunTokenBudgetGuard, which reads the
--   abort signal around each event it emits.
-- - History (Pairs, Units, Starts, Kept, Estimate, Validate): packages/core/src/history-pruner.ts;
--   prune_model_history is pruneModelHistory, and each of its loops is a function on the rest of the
--   list; estimate_model_messages and validate_model_history are the two others that it exports.
-- - Tokens (Measured, Values, Estimates): packages/core/src/heuristic-token-counter.ts; count is the
--   method count of HeuristicModelMessageTokenCounter, write_json_value is writeJsonValue. What the
--   loops write is a list of functions on the counter.
-- - Context.Files (Within): packages/core/src/workspace-file-context.ts; project_within_budget is
--   projectWorkspaceFileContextWithinBudget, search the loop of fitTruncatedMessage.
--   Context.External (Sums): packages/core/src/external-resource-context.ts, with its functions.
-- - Retention (Attempts, Counts): packages/core/src/session-retention.ts; cleanup_expired_sessions is
--   cleanupExpiredSessions, sweep its loop over the candidates, delete_checkpoints what follows it. The
--   answers of the repository and of the checkpoint store are parameters, and the calls of delete are
--   kept in the state, so that they can be seen also where the cleanup throws.
-- - Retry (Ends, Calls): packages/core/src/provider-retry-policy.ts; stream is the method stream of
--   RetryingModelGateway, stream_with its loop, attempt one round of it. The gateway inside and the
--   jitter are parameters.
-- - Approval (Lifetime): packages/core/src/approval-state-machine.ts; ApprovalStateMachine, create and
--   transition_to are the class, its constructor and transitionTo.
-- - Approval.Service (Promises, Lives): packages/core/src/approval-service.ts. Its calls, an abort of a
--   signal and a throw of its sink are steps that come in any order; a promise is a number.
-- - Edits.Plan (Apart, Arranged): packages/core/src/text-edit.ts; parse_text_edits is parseTextEdits.
-- - Edits.WorkspacePath (Hosts, Below): packages/core/src/workspace-path.ts; is_safe_workspace_path is
--   isSafeWorkspacePath. How POSIX and Windows follow a path is described in Hosts, from the comments
--   of the source; the case of names and links are left out.
-- - Edits.Workspace (Planned): packages/core/src/workspace-edit.ts; parse_workspace_edit_plan is
--   parseWorkspaceEditPlan. Edits.Files (Moves): packages/core/src/file-create.ts and
--   packages/core/src/file-delete-rename.ts; the functions parse_file_ are those of the source.
-- - Tools.Output: packages/core/src/tool-output-limiter.ts; limit_tool_output is limitToolOutput.
-- - Tools.Json: packages/core/src/json-values.ts and toolCallsEqual.
-- - Tools.Execution: packages/core/src/tool-call-execution.ts, packages/core/src/approval-policy.ts
--   and packages/core/src/tool-approval.ts. execute_tool_call is ToolCallExecution.execute,
--   execute_approval_required_tool and execute_tool_implementation are its private methods. Code
--   that awaits is a sequence of steps on a World: the Session, a log of what others can observe,
--   and the values of signal.aborted at the reads to come. A step may throw; a try with a finally is
--   the function finally. What the tool and the approval workflow answer is part of the Host.
--
-- The parts meet as the source composes them: a run moves the Session, cuts its messages with
-- prune_model_history, streams a turn and executes its tool call with execute_tool_call; a tool call
-- moves the Session with transition_to of Session and cuts its output with limit_tool_output; the
-- pruner's bounds are those of Budget.Window. What the projection of external context gives is an
-- input of the run, and so is the counter of tokens.
--
-- Loops are structural recursion on the list or the value that they go through, or on the number of
-- rounds that the list's length gives (units_from, latest_user_below), or, in stream_with, on the
-- number of retries left, of which the source has two. The loop of a run is given a number of rounds;
-- one more than the limit of tool steps is enough, since a model that has made as many calls as the
-- limit cannot make another. The search for a text that fits has one round more than the text has
-- code points, which is enough since its range shrinks in each. Numbers are natural numbers, with the
-- guards on safe integers where the source has them. Identifiers, tool names and values of JSON
-- numbers are numbers, since they are only compared; where the name of a tool is written, its text is a
-- parameter, which is taken to be as toolNameSchema of packages/protocol/src/tool.ts has it.
--
-- Parameters are the streams of the model gateway and the jitter of its retries, the token counter of
-- the caller, the answers of tools, approval workflows, the session repository, the checkpoint store
-- and abort signals, the length of a serialized result, the hash of a text, the labels of projected
-- context, and how a number is written. Event sinks are lists; that a sink or invalidate returns
-- without throwing is taken for granted, except in Approval.Service.
--
-- Not modelled are the texts of error messages, which no code here reads back, and the reading of
-- untyped data, which is done by a schema library. Nor are the session stores, the built-in tools, the
-- MCP client and the provider adapters, which for the larger part await input and output
-- or third-party code, and the editor extension and the chat view, which are the user interface.
--
-- Tests holds runs on concrete inputs and instances of the theorems.
pub mod Prelude
pub mod Numbers
pub mod Text
pub mod Messages
pub mod Session
pub mod Canonical
pub mod Repetition
pub mod Budget
pub mod History
pub mod Tokens
pub mod Retention
pub mod Retry
pub mod Approval
pub mod Edits
pub mod Context
pub mod Agent
pub mod Tools
pub mod Tests
