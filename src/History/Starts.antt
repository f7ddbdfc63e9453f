-- ===== src/History/Starts.antt =====
-- The units that `createHistoryUnits` makes: which indexes they hold, and that they cover the rest.
use ctrl_zebra.Prelude.{
  ℕ, zero, suc, ◌+◌, ◌≤◌, ◌<◌, ◌≡◌, refl, subst, inl, inr, true, false, ◌||◌, List, [], ◌∷◌, ◌++◌,
  Option, some, none, ok, arith, >>=-eq-ok, ==_iff, Bool-cases, All, ◌==◌,
}
use ctrl_zebra.Messages.{ModelMessage}
use ctrl_zebra.History.{
  ToolPair, HistoryUnit, has, pair_at, result_indexes, unit_indexes, unit_at, units_from,
  any_protected,
}

-- A unit as it is made: where it starts, what it holds, and whether it is protected.
pub record IsUnit (ms : List ModelMessage) (pairs : List ToolPair) (latest : Option ℕ)
    (u : HistoryUnit) : Type 0 where
  pub start : ℕ
  pub not_result : has start (result_indexes pairs) ≡ false
  pub holds : u.indexes ≡ unit_indexes start (pair_at start pairs)
  pub guards : u.is_protected ≡ any_protected ms latest u.indexes
  pub fresh : u.retained ≡ true

abbrev pub all_indexes : List HistoryUnit → List ℕ
all_indexes [] = []
all_indexes (u ∷ us) = u.indexes ++ all_indexes us

pub has-append : (i : ℕ) (xs ys : List ℕ) → has i (xs ++ ys) ≡ (has i xs || has i ys)
unfolding has
has-append i [] ys = refl
has-append i (x ∷ xs) ys = ground (arith, has-append i xs ys)

pub pair_at-call :
    (i : ℕ) (pairs : List ToolPair) (p : ToolPair) → pair_at i pairs ≡ some p → p.call_index ≡ i
unfolding pair_at
pair_at-call i [] p e = cc
pair_at-call i (q ∷ qs) p e = elim (Bool-cases (q.call_index == i)) [
  | inl same ↦ ground arith
  | inr other ↦ pair_at-call i qs p (ground arith)
]

has-unit_indexes :
    (i : ℕ) (pairs : List ToolPair) (o : Option ToolPair)
    → pair_at i pairs ≡ o
    → has i (unit_indexes i o) ≡ true
unfolding has
has-unit_indexes i pairs none e = ground arith
has-unit_indexes i pairs (some p) e = ground (arith, pair_at-call i pairs p e)

module _ (ms : List ModelMessage) (tokens : List ℕ) (pairs : List ToolPair)
    (latest : Option ℕ) where
  unit_at-IsUnit :
      (i : ℕ) (u : HistoryUnit)
      → has i (result_indexes pairs) ≡ false
      → unit_at ms tokens pairs latest i ≡ ok u
      → IsUnit ms pairs latest u × (has i u.indexes ≡ true)
  unfolding unit_at
  unit_at-IsUnit i u free e =
      let holds : u.indexes ≡ unit_indexes i (pair_at i pairs) = ground arith in
      (
        record {
          start = i;
          not_result = free;
          holds = holds;
          guards = rw holds (ground arith);
          fresh = ground arith;
        },
        rw holds (has-unit_indexes i pairs (pair_at i pairs) refl),
      )

  -- Every unit is made so, and every index of the loop that is no result starts one.
  pub units_from-IsUnit :
      (rounds k : ℕ) (us : List HistoryUnit)
      → units_from ms tokens pairs latest rounds k ≡ ok us
      → All (IsUnit ms pairs latest) us
        × ((i : ℕ)
            → k ≤ i
            → i < k + rounds
            → has i (result_indexes pairs) ≡ false
            → has i (all_indexes us) ≡ true)
  unfolding units_from
  units_from-IsUnit zero k us e =
      let same : [] ≡ us = ground arith in
      (subst (All (IsUnit ms pairs latest)) same tt, λ i lo hi free. absurd (omega arith))
  units_from-IsUnit (suc rounds) k us e = elim (Bool-cases (has k (result_indexes pairs))) [
    | inl skip ↦
        (let (units, covers) = units_from-IsUnit rounds (suc k) us (rw (skip, units_from) at e) in
          (
            units,
            λ i lo hi free. elim (Bool-cases (i == k)) [
              | inl same ↦ absurd (cc (skip, free, (==_iff i k).0 same))
              | inr later ↦ covers i (ground arith) (omega arith) free
            ],
          ))
    | inr begin ↦
        (let (u, made, more) =
            >>=-eq-ok (unit_at ms tokens pairs latest k) _ (rw (begin, units_from) at e) in
          let (rest, later, done_) =
            >>=-eq-ok (units_from ms tokens pairs latest rounds (suc k)) _ more in
          let (unit, own) = unit_at-IsUnit k u begin made in
          let (units, covers) = units_from-IsUnit rounds (suc k) rest later in
          let whole : u ∷ rest ≡ us = ground arith in
          subst
            (λ us.
              All (IsUnit ms pairs latest) us
              × ((i : ℕ)
                  → k ≤ i
                  → i < k + suc rounds
                  → has i (result_indexes pairs) ≡ false
                  → has i (all_indexes us) ≡ true))
            whole
            (
              (unit, units),
              λ i lo hi free.
                  rw (has-append i u.indexes (all_indexes rest)) (elim (Bool-cases (i == k)) [
                    | inl same ↦ rw ((==_iff i k).0 same) (rw own)
                    | inr other ↦ let c = covers i (ground arith) (omega arith) free in ground arith
                  ]),
            ))
  ]
