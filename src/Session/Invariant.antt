-- ===== src/Session/Invariant.antt =====
-- What the Session state machine guarantees of its status and its owner, over any calls.
use ctrl_zebra.Prelude.{
  ℕ, ◌≡◌, ◌≢◌, refl, ◌⊎◌, true, List, [], ◌∷◌, none, Result, ok, err, arith, is_some, is_ok, All,
}
use ctrl_zebra.Session.{
  SessionStatus, SessionStateMachine, begin_run, transition_to, is_active_status, releases_owner,
}

-- A client's call on the machine, and the machine it leaves: a call that throws changes nothing.
pub data Call : Type 0 where
  begin : ℕ → Call
  transition : SessionStatus → Call

abbrev pub after {ℓ} :
    {E : Type ℓ} → SessionStateMachine → Result E SessionStateMachine → SessionStateMachine
after m (ok m') = m'
after m (err e) = m

unfoldable pub step : SessionStateMachine → Call → SessionStateMachine
step m (begin owner) = after m (begin_run owner m)
step m (transition s) = after m (transition_to s m)

unfoldable pub run_calls : SessionStateMachine → List Call → SessionStateMachine
run_calls m [] = m
run_calls m (c ∷ cs) = run_calls (step m c) cs

-- An owner is recorded only while the status is active.
abbrev pub IsOwnedActive : SessionStateMachine → Type 0
IsOwnedActive m = is_some m.run_owner ≡ true → is_active_status m.status ≡ true

step-IsOwnedActive :
    (m : SessionStateMachine) (c : Call) → IsOwnedActive m → IsOwnedActive (step m c)
unfolding step begin_run transition_to
step-IsOwnedActive m (begin o) h = ground arith
step-IsOwnedActive m (transition s) h = ground arith

pub run_calls-IsOwnedActive :
    (m : SessionStateMachine) (cs : List Call) → IsOwnedActive m → IsOwnedActive (run_calls m cs)
unfolding run_calls
run_calls-IsOwnedActive m [] h = h
run_calls-IsOwnedActive m (c ∷ cs) h =
    run_calls-IsOwnedActive (step m c) cs (step-IsOwnedActive m c h)

-- A call that takes `preparing` by the gate `begin_run` alone, as the agent runtime does.
abbrev pub UsesGate : Call → Type 0
UsesGate (begin owner) = Unit {0}
UsesGate (transition s) = s ≢ SessionStatus.preparing

abbrev pub IsOwnedExactly : SessionStateMachine → Type 0
IsOwnedExactly m = is_some m.run_owner ≡ is_active_status m.status

step-IsOwnedExactly :
    (m : SessionStateMachine) (c : Call) → UsesGate c → IsOwnedExactly m → IsOwnedExactly (step m c)
unfolding step begin_run transition_to
step-IsOwnedExactly m (begin o) g h = ground arith
step-IsOwnedExactly m (transition s) g h = ground arith

-- If `preparing` is entered by `begin_run` alone, then through any calls, those that throw included,
-- an owner stays recorded exactly while the status is active.
pub run_calls-IsOwnedExactly :
    (m : SessionStateMachine) (cs : List Call)
    → All UsesGate cs
    → IsOwnedExactly m
    → IsOwnedExactly (run_calls m cs)
unfolding run_calls
run_calls-IsOwnedExactly m [] g h = h
run_calls-IsOwnedExactly m (c ∷ cs) g h =
    run_calls-IsOwnedExactly (step m c) cs g.1 (step-IsOwnedExactly m c g.0 h)

-- From an active status the machine can be cancelled, failed or stopped for its budget: the call
-- does not throw, the status is the one asked for, and no owner is left.
pub active-stops :
    (m : SessionStateMachine) (s : SessionStatus)
    → is_active_status m.status ≡ true
    → (s ≡ SessionStatus.cancelled)
      ⊎ (s ≡ SessionStatus.failed)
      ⊎ (s ≡ SessionStatus.budget_exceeded)
    → (is_ok (transition_to s m) ≡ true)
      × ((after m (transition_to s m)).status ≡ s)
      × ((after m (transition_to s m)).run_owner ≡ none)
unfolding transition_to
active-stops m s h k = ground arith

-- A Run that has ended stays ended until the gate opens it anew.
abbrev pub IsTransition : Call → Type 0
IsTransition (begin owner) = ⊥
IsTransition (transition s) = Unit {0}

step_terminal :
    (m : SessionStateMachine) (c : Call)
    → IsTransition c
    → releases_owner m.status ≡ true
    → step m c ≡ m
unfolding step transition_to
step_terminal m (begin o) t h = elim t [ ]
step_terminal m (transition s) t h = ground arith

-- At a status that ends a Run, `transition_to` changes nothing, however often and to whatever status
-- it is called.
pub terminal-run_calls :
    (m : SessionStateMachine) (cs : List Call)
    → All IsTransition cs
    → releases_owner m.status ≡ true
    → run_calls m cs ≡ m
unfolding run_calls
terminal-run_calls m [] t h = refl
terminal-run_calls m (c ∷ cs) t h = rw (step_terminal m c t.0 h) (terminal-run_calls m cs t.1 h)
