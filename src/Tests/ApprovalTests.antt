-- ===== src/Tests/ApprovalTests.antt =====
-- An approval that is given, used, and asked for once more.
use ctrl_zebra.Prelude.{◌≡◌, ◌≤◌, refl, List, [], ◌∷◌, length}
use ctrl_zebra.Tools.Execution.Monad.{ApprovalStatus}
use ctrl_zebra.Approval.{create, transition_to}
use ctrl_zebra.Approval.Lifetime.{run, Leads, run-Leads}

abbrev twice_used : List ApprovalStatus
twice_used = ApprovalStatus.approved ∷ ApprovalStatus.consumed ∷ ApprovalStatus.consumed ∷ []

twice_used-status :
    (run (create 7 ApprovalStatus.pending) twice_used).status ≡ ApprovalStatus.consumed
unfolding run create transition_to
twice_used-status = refl

run-Leads_example :
    let m = run (create 7 ApprovalStatus.pending) twice_used in
    Leads 7 m.events m.status × (length m.events ≤ 2)
run-Leads_example = run-Leads 7 twice_used
