-- ===== src/History/Units.antt =====
-- What the pruning loop keeps and drops, unit by unit.
use ctrl_zebra.Prelude.{
  ℕ, zero, suc, length, if◌then◌else◌, inl, inr, ◌+◌, ◌-◌, ◌≤◌, ◌<◌, ◌≡◌, refl, sym, ap, ◌∙◌,
  Bool-cases, subst, ◌⊎◌, Bool, true, false, List, [], ◌∷◌, arith,
}
use ctrl_zebra.History.{HistoryUnit, prune_units}

abbrev pub total_tokens : List HistoryUnit → ℕ
total_tokens [] = 0
total_tokens (u ∷ us) = u.tokens + total_tokens us

abbrev pub weight : HistoryUnit → Bool → ℕ
weight u true = u.tokens
weight u false = 0

abbrev pub retained_tokens : List HistoryUnit → ℕ
retained_tokens [] = 0
retained_tokens (u ∷ us) = weight u u.retained + retained_tokens us

-- The units after the loop against those before it: unit by unit the same but for the flag, a
-- protected unit is kept, and once a unit is kept that could have been dropped, so are all later ones.
abbrev pub IsDropped : HistoryUnit → HistoryUnit → Type 0
IsDropped u v = (u.is_protected ≡ false) × (v ≡ record u { retained = false })

abbrev pub OldestFirst : List HistoryUnit → List HistoryUnit → Type 0
OldestFirst [] [] = Unit {0}
OldestFirst [] (v ∷ vs) = ⊥
OldestFirst (u ∷ us) [] = ⊥
OldestFirst (u ∷ us) (v ∷ vs) =
    ((IsDropped u v ⊎ ((u.is_protected ≡ true) × (v ≡ u))) × OldestFirst us vs)
    ⊎ ((v ≡ u) × (vs ≡ us))

pub prune_units-OldestFirst :
    (limit : ℕ) (us : List HistoryUnit) (e : ℕ) (p : Bool)
    → OldestFirst us (prune_units limit us e p).units
unfolding prune_units
prune_units-OldestFirst limit [] e p = tt
prune_units-OldestFirst limit (u ∷ us) e p = ground (
  arith,
  prune_units-OldestFirst limit us e p,
  prune_units-OldestFirst limit us (e - u.tokens) true,
)

abbrev pub AllRetained : List HistoryUnit → Type 0
AllRetained [] = Unit {0}
AllRetained (u ∷ us) = (u.retained ≡ true) × AllRetained us

AllRetained-tokens : (us : List HistoryUnit) → AllRetained us → retained_tokens us ≡ total_tokens us
AllRetained-tokens [] h = refl
AllRetained-tokens (u ∷ us) h = ground (arith, AllRetained-tokens us h.1)

-- The estimate that the loop leaves counts exactly the units kept.
pub prune_units-tokens :
    (limit : ℕ) (us : List HistoryUnit) (base e : ℕ) (p : Bool)
    → AllRetained us
    → e ≡ base + total_tokens us
    → (prune_units limit us e p).estimated_tokens
      ≡ base + retained_tokens (prune_units limit us e p).units
unfolding prune_units
prune_units-tokens limit [] base e p h eq = omega arith
prune_units-tokens limit (u ∷ us) base e p h eq = ground (
  arith,
  AllRetained-tokens us h.1,
  prune_units-tokens limit us (base + u.tokens) e p h.1,
  prune_units-tokens limit us base (e - u.tokens) true h.1,
)

-- A list of units with those dropped, of the first k, that are not protected.
unfoldable pub dropped : ℕ → List HistoryUnit → List HistoryUnit
dropped k [] = []
dropped zero (u ∷ us) = u ∷ us
dropped (suc k) (u ∷ us) =
    let rest = dropped k us in
    if u.is_protected then u ∷ rest else record u { retained = false } ∷ rest

-- Dropping from fewer than k units never gets down to the limit.
abbrev pub OverBefore : ℕ → ℕ → ℕ → List HistoryUnit → Type 0
OverBefore limit base zero us = Unit {0}
OverBefore limit base (suc k) us =
    (limit < base + retained_tokens (dropped k us)) × OverBefore limit base k us

OverBefore-cons :
    (limit base k : ℕ) (u : HistoryUnit) (us : List HistoryUnit)
    → u.retained ≡ true
    → limit < base + retained_tokens (u ∷ us)
    → OverBefore limit (base + weight u u.is_protected) k us
    → OverBefore limit base (suc k) (u ∷ us)
unfolding dropped
OverBefore-cons limit base zero u us kept first h = (first, tt)
OverBefore-cons limit base (suc k) u us kept first h =
    let rest = OverBefore-cons limit base k u us kept first h.1 in (ground arith, rest)

abbrev pub FirstFit : ℕ → ℕ → List HistoryUnit → List HistoryUnit → Type 0
FirstFit limit base us vs =
    (k : ℕ) × (vs ≡ dropped k us)
    × OverBefore limit base k us
    × ((base + retained_tokens vs ≤ limit) ⊎ (vs ≡ dropped (length us) us))

abbrev after_drop : HistoryUnit → HistoryUnit
after_drop u = if u.is_protected then u else record u { retained = false }

dropped-suc :
    (k : ℕ) (u : HistoryUnit) (us : List HistoryUnit)
    → dropped (suc k) (u ∷ us) ≡ after_drop u ∷ dropped k us
unfolding dropped
dropped-suc k u us = ground arith

after_drop-weight :
    (u : HistoryUnit)
    → u.retained ≡ true
    → weight (after_drop u) (after_drop u).retained ≡ weight u u.is_protected
after_drop-weight u h = ground arith

FirstFit-cons :
    (limit base : ℕ) (u : HistoryUnit) (us vs : List HistoryUnit)
    → u.retained ≡ true
    → limit < base + retained_tokens (u ∷ us)
    → FirstFit limit (base + weight u u.is_protected) us vs
    → FirstFit limit base (u ∷ us) (after_drop u ∷ vs)
FirstFit-cons limit base u us vs kept first (k, same, over, ends) = (
  suc k,
  ap (◌∷◌ (after_drop u)) same ∙ sym (dropped-suc k u us),
  OverBefore-cons limit base k u us kept first over,
  elim ends [
    | inl fits ↦ inl (omega (arith, fits, after_drop-weight u kept))
    | inr all ↦ inr (ap (◌∷◌ (after_drop u)) all ∙ sym (dropped-suc (length us) u us))
  ],
)

prune_units-fit :
    (limit e : ℕ) (u : HistoryUnit) (us : List HistoryUnit) (p : Bool)
    → e ≤ limit
    → (prune_units limit (u ∷ us) e p).units ≡ u ∷ us
unfolding prune_units
prune_units-fit limit e u us p h = ground arith

prune_units-keep :
    (limit e : ℕ) (u : HistoryUnit) (us : List HistoryUnit) (p : Bool)
    → limit < e
    → u.is_protected ≡ true
    → (prune_units limit (u ∷ us) e p).units ≡ after_drop u ∷ (prune_units limit us e p).units
unfolding prune_units
prune_units-keep limit e u us p h k = ground arith

prune_units-drop :
    (limit e : ℕ) (u : HistoryUnit) (us : List HistoryUnit) (p : Bool)
    → limit < e
    → u.is_protected ≡ false
    → (prune_units limit (u ∷ us) e p).units
      ≡ after_drop u ∷ (prune_units limit us (e - u.tokens) true).units
unfolding prune_units
prune_units-drop limit e u us p h k = ground arith

le_or_lt : (a b : ℕ) → (a ≤ b) ⊎ (b < a)
le_or_lt a b = omega arith

no_drop : (us : List HistoryUnit) → dropped 0 us ≡ us
unfolding dropped
no_drop [] = refl
no_drop (u ∷ us) = refl

prune_units-FirstFit :
    (limit : ℕ) (us : List HistoryUnit) (base e : ℕ) (p : Bool)
    → AllRetained us
    → e ≡ base + total_tokens us
    → FirstFit limit base us (prune_units limit us e p).units
prune_units-FirstFit limit [] base e p h eq = unfold prune_units dropped in (0, refl, tt, inr refl)
prune_units-FirstFit limit (u ∷ us) base e p h eq =
    let sum = AllRetained-tokens (u ∷ us) h in
    elim (le_or_lt e limit) [
      | inl fits ↦
          subst (FirstFit limit base (u ∷ us)) (sym (prune_units-fit limit e u us p fits))
            (0, sym (no_drop (u ∷ us)), tt, inl (omega (arith, eq, sum, fits)))
      | inr over ↦
          let first : limit < base + retained_tokens (u ∷ us) = omega (arith, eq, sum, over) in
          elim (Bool-cases u.is_protected) [
            | inl protects ↦
                let rest =
                  prune_units-FirstFit limit us (base + weight u u.is_protected) e p h.1
                    (ground (arith, protects)) in
                subst (FirstFit limit base (u ∷ us))
                  (sym (prune_units-keep limit e u us p over protects))
                  (FirstFit-cons limit base u us _ h.0 first rest)
            | inr drops ↦
                let rest =
                  prune_units-FirstFit limit us (base + weight u u.is_protected) (e - u.tokens) true
                    h.1 (ground (arith, drops)) in
                subst (FirstFit limit base (u ∷ us))
                  (sym (prune_units-drop limit e u us p over drops))
                  (FirstFit-cons limit base u us _ h.0 first rest)
          ]
    ]

-- The pruning loop, from the sum of the units, drops the units that are not protected among the first
-- k, for some k, and leaves all others as they were. It stops as soon as it can: with fewer of the
-- units gone over, those kept are over the limit; and it stops no earlier: those kept fit the limit,
-- or every unit that is not protected is dropped. Its estimate is the sum of the units kept.
pub prune_units-retains :
    (limit : ℕ) (us : List HistoryUnit)
    → AllRetained us
    → let r = prune_units limit us (total_tokens us) false in
      (r.estimated_tokens ≡ retained_tokens r.units) × FirstFit limit 0 us r.units
prune_units-retains limit us h =
    let e = total_tokens us in
    (
      omega (arith, prune_units-tokens limit us 0 e false h (omega arith)),
      prune_units-FirstFit limit us 0 e false h (omega arith),
    )
