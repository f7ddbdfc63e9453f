-- ===== src/Session/Traces.antt =====
-- The event log of a Session, as the host sees it.
use ctrl_zebra.Prelude.{
  ℕ, ◌≡◌, refl, ◌⊎◌, true, Bool-cases, inl, inr, ◌∙◌, List, [], ◌∷◌, ◌++◌, arith,
}
use ctrl_zebra.Session.{
  SessionStatus, SessionStatusChangedEvent, SessionStateMachine, create, begin_run, transition_to,
  legal_transitions, run_reset_statuses, includes,
}
use ctrl_zebra.Session.Invariant.{Call, begin, transition, step, run_calls}

-- A change of status that the table of transitions or the gate allows.
abbrev pub Allowed : SessionStatus → SessionStatus → Type 0
Allowed s t =
    (includes (legal_transitions s) t ≡ true)
    ⊎ ((includes run_reset_statuses s ≡ true) × (t ≡ SessionStatus.preparing))

-- The events lead from the status `s` to the status `t`, each starting where the last ended.
abbrev pub Chain : ℕ → SessionStatus → List SessionStatusChangedEvent → SessionStatus → Type 0
Chain id s [] t = s ≡ t
Chain id s (e ∷ es) t =
    (e.session_id ≡ id)
    × (e.previous_status ≡ s)
    × Allowed e.previous_status e.status
    × Chain id e.status es t

Chain-append :
    (id : ℕ) (s t u : SessionStatus) (es : List SessionStatusChangedEvent)
    → Chain id s es t
    → Allowed t u
    → Chain id s (es ++ record { session_id = id; previous_status = t; status = u } ∷ []) u
Chain-append id s t u [] c a = (refl, ground arith, a, refl)
Chain-append id s t u (e ∷ es) c a = (c.0, c.1, c.2, Chain-append id e.status t u es c.3 a)

abbrev pub Logs : SessionStatus → SessionStateMachine → Type 0
Logs s m = Chain m.session_id s m.events m.status

step-Logs : (s : SessionStatus) (m : SessionStateMachine) (c : Call) → Logs s m → Logs s (step m c)
unfolding step begin_run transition_to
step-Logs s m (begin o) h = elim (Bool-cases (includes run_reset_statuses m.status)) [
  | inl open_ ↦
      rw open_ (
        Chain-append m.session_id s m.status SessionStatus.preparing m.events h (inr (open_, refl)))
  | inr shut_ ↦ rw shut_ h
]
step-Logs s m (transition u) h = elim (Bool-cases (includes (legal_transitions m.status) u)) [
  | inl open_ ↦ rw open_ (Chain-append m.session_id s m.status u m.events h (inl open_))
  | inr shut_ ↦ rw shut_ h
]

run_calls-Logs :
    (s : SessionStatus) (m : SessionStateMachine) (cs : List Call)
    → Logs s m
    → Logs s (run_calls m cs)
unfolding run_calls
run_calls-Logs s m [] h = h
run_calls-Logs s m (c ∷ cs) h = run_calls-Logs s (step m c) cs (step-Logs s m c h)

run_calls_session :
    (m : SessionStateMachine) (cs : List Call) → (run_calls m cs).session_id ≡ m.session_id
unfolding run_calls step begin_run transition_to
run_calls_session m [] = refl
run_calls_session m (begin o ∷ cs) = run_calls_session (step m (begin o)) cs ∙ ground arith
run_calls_session m (transition s ∷ cs) =
    run_calls_session (step m (transition s)) cs ∙ ground arith

-- From a new Session, whatever is called, the emitted events lead from its first status to its
-- present one with no gap, and each is a change that the table of transitions or the gate allows.
pub events-Chain :
    (id : ℕ) (s : SessionStatus) (cs : List Call)
    → Chain id s (run_calls (create id s) cs).events (run_calls (create id s) cs).status
unfolding create
events-Chain id s cs =
    rw (run_calls_session (create id s) cs) at (run_calls-Logs s (create id s) cs refl)
