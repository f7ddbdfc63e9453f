-- ===== src/Tools/Execution/Triples.antt =====
-- How the log of actions grows through the steps of Monad: what a step asks of the log and what it
-- leaves there when it returns, over an invariant that it keeps also when it throws.
use ctrl_zebra.Prelude.{Bool, true, false, List, [], ◌∷◌, ◌≡◌, refl, Result, ok, err, if◌then◌else◌}
use ctrl_zebra.Session.{
  SessionStatus, InvalidSessionStatusTransitionError, SessionStateMachine, transition_to,
}
use ctrl_zebra.Tools.Execution.Monad.{
  World, Action, RunError, M, pure, throw, continue, ◌>>◌, check_abort, emit, transition, finally,
  read_signal, moved,
}

abbrev pub Logs : Type 1
Logs = List Action → Type 0

abbrev pub Any : Logs
Any log = Unit

abbrev pub Ends : {A : Type 0} → Logs → World × Result RunError A → Type 0
Ends Q (w, ok a) = Q w.log
Ends Q (w, err e) = Unit

pub record Triple {A : Type 0} (I P : Logs) (m : M A) (Q : Logs) : Type 0 where
  pub holds : (w : World) → I w.log → P w.log → I (m w).0.log × Ends Q (m w)

abbrev continues :
    {A B : Type 0} {I Q R : Logs} (r : World × Result RunError A) (f : A → M B)
    → ((a : A) → Triple I Q (f a) R)
    → I r.0.log
    → Ends Q r
    → I (continue r f).0.log × Ends R (continue r f)
continues (w, ok a) f next kept ends = (next a).holds w kept ends
continues (w, err e) f next kept ends = (kept, tt)

abbrev over_reading :
    (I P : Logs) (readings : List Bool) (w : World)
    → I w.log
    → P w.log
    → I (read_signal readings w).0.log × Ends P (read_signal readings w)
over_reading I P [] w kept pre = (kept, pre)
over_reading I P (true ∷ later) w kept pre = (kept, tt)
over_reading I P (false ∷ later) w kept pre = (kept, pre)

abbrev over_move :
    (I P : Logs) (w : World) (r : Result InvalidSessionStatusTransitionError SessionStateMachine)
    → I w.log
    → P w.log
    → I (moved w r).0.log × Ends P (moved w r)
over_move I P w (ok m) kept pre = (kept, pre)
over_move I P w (err e) kept pre = (kept, tt)

abbrev over_end :
    {A : Type 0} (log : List Action) (w : World) (r : Result RunError A)
    → Ends Any (record w { log = log }, r)
over_end log w (ok a) = tt
over_end log w (err e) = tt

module _ {I : Logs} where
  pub pure-Triple : {A : Type 0} {P : Logs} (a : A) → Triple I P (pure a) Any
  pure-Triple a = record { holds = λ w kept pre. (kept, tt) }

  pub throw-Triple : {A : Type 0} {P Q : Logs} (e : RunError) → Triple I P (throw {A = A} e) Q
  throw-Triple e = record { holds = λ w kept pre. (kept, tt) }

  pub checked :
      {A : Type 0} {P Q : Logs} {k : M A} → Triple I P k Q → Triple I P (check_abort >> k) Q
  unfolding check_abort
  checked {P = P} {k = k} next = record {
    holds = λ w kept pre.
        let r = over_reading I P w.readings w kept pre in
        continues (read_signal w.readings w) (λ _. k) (λ _. next) r.0 r.1;
  }

  pub emitted :
      {A : Type 0} {P R : Logs} {k : M A} (a : Action) (Q : Logs)
      → ((log : List Action) → I log → P log → I (a ∷ log) × Q (a ∷ log))
      → Triple I Q k R
      → Triple I P (emit a >> k) R
  unfolding emit
  emitted a Q extend next = record {
    holds = λ w kept pre. let e = extend w.log kept pre in next.holds _ e.0 e.1;
  }

  pub went :
      {A : Type 0} {P Q : Logs} {k : M A} (s : SessionStatus)
      → Triple I P k Q
      → Triple I P (transition s >> k) Q
  unfolding transition
  went {P = P} {k = k} s next = record {
    holds = λ w kept pre.
        let r = over_move I P w (transition_to s w.session) kept pre in
        continues (moved w (transition_to s w.session)) (λ _. k) (λ _. next) r.0 r.1;
  }

  pub required :
      {A : Type 0} {P P' Q : Logs} {m : M A}
      → ((log : List Action) → P log → P' log)
      → Triple I P' m Q
      → Triple I P m Q
  required weaken t = record { holds = λ w kept pre. t.holds w kept (weaken w.log pre) }

  pub either :
      {A : Type 0} {P Q : Logs} {m m' : M A} (b : Bool)
      → (b ≡ true → Triple I P m Q)
      → Triple I P m' Q
      → Triple I P (if b then m else m') Q
  either true then_m else_m = then_m refl
  either false then_m else_m = else_m

  pub guarded :
      {A : Type 0} {P Q : Logs} {k : M A} (e : RunError) (b : Bool)
      → (b ≡ true → Triple I P k Q)
      → Triple I P ((if b then pure tt else throw e) >> k) Q
  guarded e true next = record { holds = (next refl).holds }
  guarded e false next = record { holds = λ w kept pre. (kept, tt) }

  pub finished :
      {A : Type 0} {P Q : Logs} {m : M A} (a : Action)
      → ((log : List Action) → I log → I (a ∷ log))
      → Triple I P m Q
      → Triple I P (finally m a) Any
  unfolding finally
  finished {m = m} a extend t = record {
    holds =
        λ w kept pre. (extend _ (t.holds w kept pre).0, over_end (a ∷ (m w).0.log) (m w).0 (m w).1);
  }
