-- ===== src/Session.antt =====
-- packages/core/src/session-state-machine.ts: the status of a Session and the events it emits.
-- A Session identifier and the object that owns a Run are only compared, so they are numbers. The
-- event sink of the host is the list of the events it was handed, oldest first.
pub mod Invariant
pub mod Traces
use ctrl_zebra.Prelude.{
  ℕ, ◌||◌, Bool, true, false, List, [], ◌∷◌, ◌++◌, Option, none, some, Result, ok, err,
  if◌then◌else◌, ◌==◌,
}

pub data SessionStatus : Type 0 where
  idle preparing streaming awaiting_approval executing_tool : SessionStatus
  completed truncated cancelled budget_exceeded failed interrupted : SessionStatus

pub Status-discrete : Discrete SessionStatus
Status-discrete = hlevel

abbrev pub legal_transitions : SessionStatus → List SessionStatus
legal_transitions SessionStatus.idle = SessionStatus.preparing ∷ []
legal_transitions SessionStatus.preparing =
    SessionStatus.streaming ∷ SessionStatus.cancelled ∷ SessionStatus.budget_exceeded
    ∷ SessionStatus.failed ∷ []
legal_transitions SessionStatus.streaming =
    SessionStatus.awaiting_approval ∷ SessionStatus.executing_tool ∷ SessionStatus.completed
    ∷ SessionStatus.truncated ∷ SessionStatus.cancelled ∷ SessionStatus.budget_exceeded
    ∷ SessionStatus.failed ∷ []
legal_transitions SessionStatus.awaiting_approval =
    SessionStatus.streaming ∷ SessionStatus.executing_tool ∷ SessionStatus.cancelled
    ∷ SessionStatus.budget_exceeded ∷ SessionStatus.failed ∷ []
legal_transitions SessionStatus.executing_tool =
    SessionStatus.streaming ∷ SessionStatus.cancelled ∷ SessionStatus.budget_exceeded
    ∷ SessionStatus.failed ∷ []
legal_transitions _ = []

abbrev pub run_reset_statuses : List SessionStatus
run_reset_statuses =
    SessionStatus.idle ∷ SessionStatus.completed ∷ SessionStatus.truncated ∷ SessionStatus.cancelled
    ∷ SessionStatus.budget_exceeded ∷ SessionStatus.failed ∷ SessionStatus.interrupted ∷ []

-- `===` on statuses.
abbrev pub same_status : SessionStatus → SessionStatus → Bool
same_status SessionStatus.idle SessionStatus.idle = true
same_status SessionStatus.preparing SessionStatus.preparing = true
same_status SessionStatus.streaming SessionStatus.streaming = true
same_status SessionStatus.awaiting_approval SessionStatus.awaiting_approval = true
same_status SessionStatus.executing_tool SessionStatus.executing_tool = true
same_status SessionStatus.completed SessionStatus.completed = true
same_status SessionStatus.truncated SessionStatus.truncated = true
same_status SessionStatus.cancelled SessionStatus.cancelled = true
same_status SessionStatus.budget_exceeded SessionStatus.budget_exceeded = true
same_status SessionStatus.failed SessionStatus.failed = true
same_status SessionStatus.interrupted SessionStatus.interrupted = true
same_status _ _ = false

-- `includes` and `has`.
abbrev pub includes : List SessionStatus → SessionStatus → Bool
includes [] s = false
includes (t ∷ ts) s = same_status t s || includes ts s

pub record InvalidSessionStatusTransitionError : Type 0 where
  pub previous_status : SessionStatus
  pub status : SessionStatus

pub record SessionStatusChangedEvent : Type 0 where
  pub session_id : ℕ
  pub previous_status : SessionStatus
  pub status : SessionStatus

pub record SessionStateMachine : Type 0 where
  pub session_id : ℕ
  pub status : SessionStatus
  pub run_owner : Option ℕ
  pub events : List SessionStatusChangedEvent

unfoldable pub create : ℕ → SessionStatus → SessionStateMachine
create session_id status = record {
  session_id = session_id;
  status = status;
  run_owner = none;
  events = [];
}

-- The statuses at which `commit` forgets the owner.
abbrev pub releases_owner : SessionStatus → Bool
releases_owner s =
    same_status s SessionStatus.completed
    || same_status s SessionStatus.truncated
    || same_status s SessionStatus.cancelled
    || same_status s SessionStatus.budget_exceeded
    || same_status s SessionStatus.failed

unfoldable pub commit : SessionStatus → SessionStateMachine → SessionStateMachine
commit status m = record {
  session_id = m.session_id;
  status = status;
  run_owner = if releases_owner status then none else m.run_owner;
  events =
      m.events
      ++ record { session_id = m.session_id; previous_status = m.status; status = status } ∷ [];
}

unfoldable pub begin_run :
    ℕ → SessionStateMachine → Result InvalidSessionStatusTransitionError SessionStateMachine
unfolding commit
begin_run owner m =
    if includes run_reset_statuses m.status
    then ok (commit SessionStatus.preparing (record m { run_owner = some owner }))
    else err (record { previous_status = m.status; status = SessionStatus.preparing })

-- `this.#runOwner === owner`
abbrev pub owns : Option ℕ → ℕ → Bool
owns none owner = false
owns (some o) owner = o == owner

unfoldable pub owns_run : SessionStateMachine → ℕ → Bool
owns_run m owner = owns m.run_owner owner

unfoldable pub transition_to :
    SessionStatus
    → SessionStateMachine
    → Result InvalidSessionStatusTransitionError SessionStateMachine
unfolding commit
transition_to status m =
    if includes (legal_transitions m.status) status
    then ok (commit status m)
    else err (record { previous_status = m.status; status = status })

-- `isActiveStatus` of agent-runtime.ts.
abbrev pub is_active_status : SessionStatus → Bool
is_active_status s =
    same_status s SessionStatus.preparing
    || same_status s SessionStatus.streaming
    || same_status s SessionStatus.awaiting_approval
    || same_status s SessionStatus.executing_tool
