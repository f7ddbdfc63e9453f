-- ===== src/Tools/Execution/Monad.antt =====
-- What a tool call changes, and the steps that its code is made of. Actions are logged newest first.
use ctrl_zebra.Prelude.{Bool, true, false, ℕ, List, [], ◌∷◌, Result, ok, err}
use ctrl_zebra.Session.{
  SessionStatus, SessionStateMachine, InvalidSessionStatusTransitionError, transition_to,
}

-- `approvalStatusSchema` of packages/protocol/src/approval.ts.
pub data ApprovalStatus : Type 0 where
  pending approved denied cancelled expired invalidated consumed : ApprovalStatus

-- What the call does that others can see: events for the sink, calls of the host, diagnostics.
pub data Action : Type 0 where
  running : Action
  approval_state : ApprovalStatus → Action
  preparing creating deciding consuming executing invalidating diagnosed : Action

-- `readings` are the values of `signal.aborted` at the reads to come; past their end it is false.
pub record World : Type 0 where
  pub session : SessionStateMachine
  pub log : List Action
  pub readings : List Bool

pub data RunError : Type 0 where
  aborted : RunError
  invalid_transition : InvalidSessionStatusTransitionError → RunError
  invalid_approval : RunError
  thrown : ℕ → RunError

abbrev pub M : Type 0 → Type 0
M A = World → World × Result RunError A

abbrev pub pure : {A : Type 0} → A → M A
pure a w = (w, ok a)

abbrev pub throw : {A : Type 0} → RunError → M A
throw e w = (w, err e)

abbrev pub continue :
    {A B : Type 0} → World × Result RunError A → (A → M B) → World × Result RunError B
continue (w, ok a) f = f a w
continue (w, err e) f = (w, err e)

abbrev pub ◌>>=◌ : {A B : Type 0} → M A → (A → M B) → M B
◌>>=◌ step next w = continue (step w) next

abbrev pub ◌>>◌ : {B : Type 0} → M (Unit {0}) → M B → M B
step >> rest = step >>= λ done. rest

infixl 5 ◌>>=◌ ◌>>◌
abbrev pub read_signal : List Bool → World → World × Result RunError (Unit {0})
read_signal [] w = (w, ok tt)
read_signal (true ∷ later) w = (record w { readings = later }, err aborted)
read_signal (false ∷ later) w = (record w { readings = later }, ok tt)

-- `signal.throwIfAborted()`
unfoldable pub check_abort : M (Unit {0})
check_abort w = read_signal w.readings w

unfoldable pub emit : Action → M (Unit {0})
emit a w = (record w { log = a ∷ w.log }, ok tt)

abbrev pub moved :
    World
    → Result InvalidSessionStatusTransitionError SessionStateMachine
    → World × Result RunError (Unit {0})
moved w (ok m) = (record w { session = m }, ok tt)
moved w (err e) = (w, err (invalid_transition e))

unfoldable pub transition : SessionStatus → M (Unit {0})
transition s w = moved w (transition_to s w.session)

-- `try { body } finally { last }` for a last action that does not throw.
unfoldable pub finally : {A : Type 0} → M A → Action → M A
finally body last w = let r = body w in (record r.0 { log = last ∷ r.0.log }, r.1)
