-- ===== src/Approval/Lifetime.antt =====
-- packages/core/src/approval-state-machine.ts: the life of an approval, over any calls.
use ctrl_zebra.Prelude.{ℕ, ◌+◌, ◌≤◌, ◌≡◌, refl, arith, true, List, [], ◌∷◌, Result, ok, err, length}
use ctrl_zebra.Tools.Execution.Monad.{ApprovalStatus}
use ctrl_zebra.Approval.{
  legal_transitions, includes, ApprovalStatusChangedEvent, InvalidApprovalStatusTransitionError,
  ApprovalStateMachine, create, transition_to,
}

abbrev pub after :
    ApprovalStateMachine
    → Result InvalidApprovalStatusTransitionError ApprovalStateMachine
    → ApprovalStateMachine
after m (ok m') = m'
after m (err e) = m

-- Calls of `transitionTo`, first to last; one that throws leaves the machine as it is.
unfoldable pub run : ApprovalStateMachine → List ApprovalStatus → ApprovalStateMachine
unfolding transition_to
run m [] = m
run m (s ∷ ss) = run (after m (transition_to s m)) ss

-- The events, newest first, lead from `pending` to a status by legal transitions of one request.
abbrev pub Leads : ℕ → List ApprovalStatusChangedEvent → ApprovalStatus → Type 0
Leads id [] status = status ≡ ApprovalStatus.pending
Leads id (e ∷ es) status =
    (e.request_id ≡ id)
    × (e.status ≡ status)
    × (includes (legal_transitions e.previous_status) e.status ≡ true)
    × Leads id es e.previous_status

-- How many changes of status are still possible.
abbrev changes_left : ApprovalStatus → ℕ
changes_left ApprovalStatus.pending = 2
changes_left ApprovalStatus.approved = 1
changes_left _ = 0

abbrev IsLively : ℕ → ApprovalStateMachine → Type 0
IsLively id m =
    (m.request_id ≡ id) × Leads id m.events m.status × (length m.events + changes_left m.status ≤ 2)

transition_to-fewer :
    (s t : ApprovalStatus)
    → includes (legal_transitions s) t ≡ true
    → changes_left t + 1 ≤ changes_left s
transition_to-fewer s t h = ground arith

after-IsLively :
    (id : ℕ) (m : ApprovalStateMachine) (s : ApprovalStatus)
    → IsLively id m
    → IsLively id (after m (transition_to s m))
unfolding transition_to
after-IsLively id m s h = ground (arith, transition_to-fewer m.status s)

run-IsLively :
    (id : ℕ) (ss : List ApprovalStatus) (m : ApprovalStateMachine)
    → IsLively id m
    → IsLively id (run m ss)
unfolding run
run-IsLively id [] m h = h
run-IsLively id (s ∷ ss) m h =
    run-IsLively id ss (after m (transition_to s m)) (after-IsLively id m s h)

-- Whatever statuses a pending approval is asked to take, it changes its status at most twice, and the
-- events lead from `pending` to its status by legal transitions, all of its own request: so it is
-- consumed at most once, and only from `approved`.
pub run-Leads :
    (id : ℕ) (ss : List ApprovalStatus)
    → let m = run (create id ApprovalStatus.pending) ss in
      Leads id m.events m.status × (length m.events ≤ 2)
unfolding create
run-Leads id ss =
    let h = run-IsLively id ss (create id ApprovalStatus.pending) (refl, refl, omega arith) in
    (h.1, omega arith)
