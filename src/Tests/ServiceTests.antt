-- ===== src/Tests/ServiceTests.antt =====
-- Calls of the service that keeps the requests that wait for a decision.
use ctrl_zebra.Prelude.{◌≡◌, refl, List, [], ◌∷◌, true, false}
use ctrl_zebra.Approval.Service.{Call, requests, responds, aborts, new_service, resolved, run_calls}
use ctrl_zebra.Approval.Service.Promises.{IsOnce, waits, run_calls-IsOnce}
use ctrl_zebra.Approval.Service.Lives.{Leads, life, over, outcome_of, run_calls-Leads}

-- A request that is answered, one that is asked twice, and one whose signal is aborted.
abbrev asked : List Call
asked =
    requests 1 7
    ∷ requests 1 8
    ∷ requests 2 8
    ∷ responds (record { request_id = 1; approved = true })
    ∷ aborts 8
    ∷ []

run_calls-IsOnce_example : IsOnce (run_calls new_service asked)
run_calls-IsOnce_example = run_calls-IsOnce asked

run_calls-Leads_example :
    let s = run_calls new_service asked in
    Leads
      (life 0 s)
      (life 0 (run_calls s (responds (record { request_id = 1; approved = false }) ∷ [])))
run_calls-Leads_example =
    run_calls-Leads asked (responds (record { request_id = 1; approved = false }) ∷ []) 0

first_answered :
    life 0 (run_calls new_service asked)
    ≡ over (resolved (record { request_id = 1; approved = true }))
unfolding run_calls outcome_of waits
first_answered = refl
