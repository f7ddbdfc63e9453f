-- ===== src/Prelude/Steps.antt =====
-- Code that changes a state and may throw: what was written before a throw stays written. A triple
-- says what such a step asks and leaves, over an invariant that it keeps also when it throws.
use mathlib.Core.Path.{◌≡◌, refl}
use mathlib.Core.Bool.{Bool, true, false}
use ctrl_zebra.Prelude.Tests.{if◌then◌else◌}
use ctrl_zebra.Prelude.Results.{Result, ok, err}

abbrev pub Steps : Type 0 → Type 0 → Type 0 → Type 0
Steps S E A = S → S × Result E A

module _ {S E A : Type 0} where
  abbrev pub return : A → Steps S E A
  return a s = (s, ok a)

  abbrev pub raise : E → Steps S E A
  raise e s = (s, err e)

  abbrev pub lift : Result E A → Steps S E A
  lift r s = (s, r)

abbrev pub modify : {S E : Type 0} → (S → S) → Steps S E (Unit {0})
modify f s = (f s, ok tt)

abbrev pub proceed : {S E A B : Type 0} → S × Result E A → (A → Steps S E B) → S × Result E B
proceed (s, ok a) next = next a s
proceed (s, err e) next = (s, err e)

abbrev pub ◌>>=◌ : {S E A B : Type 0} → Steps S E A → (A → Steps S E B) → Steps S E B
◌>>=◌ step next s = proceed (step s) next

abbrev pub ◌>>◌ : {S E B : Type 0} → Steps S E (Unit {0}) → Steps S E B → Steps S E B
step >> rest = step >>= λ done. rest

infixl 5 ◌>>=◌ ◌>>◌
-- What holds of a value that is returned and of an error that is thrown, with the state there.
abbrev pub Ends : {S E A : Type 0} → (A → S → Type 0) → (E → S → Type 0) → S × Result E A → Type 0
Ends Q X (s, ok a) = Q a s
Ends Q X (s, err e) = X e s

pub record Triple {S E A : Type 0} (X : E → S → Type 0) (P : S → Type 0) (m : Steps S E A)
    (Q : A → S → Type 0) : Type 0 where
  pub holds : (s : S) → P s → Ends Q X (m s)

Ends-map :
    {S E A : Type 0} (X : E → S → Type 0) (Q Q' : A → S → Type 0) (r : S × Result E A)
    → ((a : A) (s : S) → Q a s → Q' a s)
    → Ends Q X r
    → Ends Q' X r
Ends-map X Q Q' (s, ok a) h e = h a s e
Ends-map X Q Q' (s, err x) h e = e

pub if-Ends :
    {S E A : Type 0} (Q : A → S → Type 0) (X : E → S → Type 0) (b : Bool) (r r' : S × Result E A)
    → (b ≡ true → Ends Q X r)
    → (b ≡ false → Ends Q X r')
    → Ends Q X (if b then r else r')
if-Ends Q X true r r' first second = first refl
if-Ends Q X false r r' first second = second refl

module _ {S E A : Type 0} {X : E → S → Type 0} {P : S → Type 0} {Q : A → S → Type 0} where
  pub return-Triple : (a : A) → ((s : S) → P s → Q a s) → Triple X P (return a) Q
  return-Triple a h = record { holds = h }

  pub raise-Triple : (e : E) → ((s : S) → P s → X e s) → Triple X P (raise e) Q
  raise-Triple e h = record { holds = h }

  pub lift-Triple :
      (r : Result E A)
      → ((a : A) (s : S) → r ≡ ok a → P s → Q a s)
      → ((e : E) (s : S) → r ≡ err e → P s → X e s)
      → Triple X P (lift r) Q
  lift-Triple (ok a) h k = record { holds = λ s. h a s refl }
  lift-Triple (err e) h k = record { holds = λ s. k e s refl }

  pub if-Triple :
      {m n : Steps S E A} (b : Bool)
      → (b ≡ true → Triple X P m Q)
      → (b ≡ false → Triple X P n Q)
      → Triple X P (if b then m else n) Q
  if-Triple true first second = first refl
  if-Triple false first second = second refl

  pub required-Triple :
      {P' : S → Type 0} {m : Steps S E A}
      → ((s : S) → P' s → P s)
      → Triple X P m Q
      → Triple X P' m Q
  required-Triple h t = record { holds = λ s pre. t.holds s (h s pre) }

  pub ensured-Triple :
      {Q' : A → S → Type 0} {m : Steps S E A}
      → ((a : A) (s : S) → Q a s → Q' a s)
      → Triple X P m Q
      → Triple X P m Q'
  ensured-Triple {Q' = Q'} {m = m} h t = record {
    holds = λ s pre. Ends-map X Q Q' (m s) h (t.holds s pre);
  }

raised-map :
    {S E A : Type 0} (X X' : E → S → Type 0) (Q : A → S → Type 0) (r : S × Result E A)
    → ((e : E) (s : S) → X e s → X' e s)
    → Ends Q X r
    → Ends Q X' r
raised-map X X' Q (s, ok a) h end = end
raised-map X X' Q (s, err x) h end = h x s end

module _ {S E A : Type 0} {X X' : E → S → Type 0} {P : S → Type 0} {Q : A → S → Type 0} where
  pub raised-Triple :
      {m : Steps S E A} → ((e : E) (s : S) → X e s → X' e s) → Triple X P m Q → Triple X' P m Q
  raised-Triple {m = m} h t = record { holds = λ s pre. raised-map X X' Q (m s) h (t.holds s pre) }

module _ {S E : Type 0} {X : E → S → Type 0} {P : S → Type 0} {Q : Unit {0} → S → Type 0} where
  pub modify-Triple : (f : S → S) → ((s : S) → P s → Q tt (f s)) → Triple X P (modify f) Q
  modify-Triple f h = record { holds = h }

abbrev after_step :
    {S E A B : Type 0} {X : E → S → Type 0} {Q : A → S → Type 0} {R : B → S → Type 0}
    (r : S × Result E A) (f : A → Steps S E B)
    → ((a : A) → Triple X (Q a) (f a) R)
    → Ends Q X r
    → Ends R X (proceed r f)
after_step (s, ok a) f next end = (next a).holds s end
after_step (s, err e) f next end = end

module _ {S E A B : Type 0} {X : E → S → Type 0} {P : S → Type 0} {Q : A → S → Type 0}
    {R : B → S → Type 0} where
  pub bind-Triple :
      {m : Steps S E A} {f : A → Steps S E B}
      → Triple X P m Q
      → ((a : A) → Triple X (Q a) (f a) R)
      → Triple X P (m >>= f) R
  bind-Triple {m = m} {f = f} first next = record {
    holds = λ s pre. after_step (m s) f next (first.holds s pre);
  }
