-- ===== src/Approval.antt =====
-- packages/core/src/approval-state-machine.ts: the status of one approval and the events it emits,
-- which are a list, newest first. A request's identifier is a number.
pub mod Lifetime
pub mod Service
use ctrl_zebra.Prelude.{ℕ, ◌||◌, Bool, true, false, List, [], ◌∷◌, Result, ok, err, if◌then◌else◌}
use ctrl_zebra.Tools.Execution.Monad.{ApprovalStatus}

abbrev pub legal_transitions : ApprovalStatus → List ApprovalStatus
legal_transitions ApprovalStatus.pending =
    ApprovalStatus.approved ∷ ApprovalStatus.denied ∷ ApprovalStatus.cancelled
    ∷ ApprovalStatus.expired ∷ ApprovalStatus.invalidated ∷ []
legal_transitions ApprovalStatus.approved =
    ApprovalStatus.cancelled ∷ ApprovalStatus.expired ∷ ApprovalStatus.invalidated
    ∷ ApprovalStatus.consumed ∷ []
legal_transitions _ = []

-- `===` on statuses.
abbrev pub same_status : ApprovalStatus → ApprovalStatus → Bool
same_status ApprovalStatus.pending ApprovalStatus.pending = true
same_status ApprovalStatus.approved ApprovalStatus.approved = true
same_status ApprovalStatus.denied ApprovalStatus.denied = true
same_status ApprovalStatus.cancelled ApprovalStatus.cancelled = true
same_status ApprovalStatus.expired ApprovalStatus.expired = true
same_status ApprovalStatus.invalidated ApprovalStatus.invalidated = true
same_status ApprovalStatus.consumed ApprovalStatus.consumed = true
same_status _ _ = false

abbrev pub includes : List ApprovalStatus → ApprovalStatus → Bool
includes [] s = false
includes (t ∷ ts) s = same_status t s || includes ts s

pub record ApprovalStatusChangedEvent : Type 0 where
  pub request_id : ℕ
  pub previous_status : ApprovalStatus
  pub status : ApprovalStatus

pub record InvalidApprovalStatusTransitionError : Type 0 where
  pub previous_status : ApprovalStatus
  pub status : ApprovalStatus

pub record ApprovalStateMachine : Type 0 where
  pub request_id : ℕ
  pub status : ApprovalStatus
  pub events : List ApprovalStatusChangedEvent

unfoldable pub create : ℕ → ApprovalStatus → ApprovalStateMachine
create request_id status = record { request_id = request_id; status = status; events = [] }

unfoldable pub transition_to :
    ApprovalStatus
    → ApprovalStateMachine
    → Result InvalidApprovalStatusTransitionError ApprovalStateMachine
transition_to status m =
    if includes (legal_transitions m.status) status
    then ok (record {
      request_id = m.request_id;
      status = status;
      events =
          record { request_id = m.request_id; previous_status = m.status; status = status }
          ∷ m.events;
    })
    else err (record { previous_status = m.status; status = status })
