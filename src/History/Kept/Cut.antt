-- ===== src/History/Kept/Cut.antt =====
-- The statement about `pruneModelHistory` as a whole.
use ctrl_zebra.Prelude.{
  ℕ, zero, suc, ◌+◌, ◌≤◌, ◌<◌, ◌≡◌, refl, sym, ◌∙◌, inl, inr, Bool, true, false, ◌||◌, ◌&&◌, not,
  List, [], ◌∷◌, Option, some, arith, Bool-cases, get_elem?, length, All, ◌==◌, ==_iff, ltb,
}
use ctrl_zebra.Messages.{ModelMessage}
use ctrl_zebra.History.{
  ToolPair, HistoryUnit, PrunedModelHistory, has, result_indexes, any_protected, is_system_at,
  is_index, is_user_at, retained_indexes, filter_indexes, pair_at, find_latest_user_index,
  latest_user_below,
}
use ctrl_zebra.History.Pairs.{IsPair}
use ctrl_zebra.History.Pairs.Loop.{IsPairing}
use ctrl_zebra.History.Starts.{IsUnit, all_indexes, has-append}
use ctrl_zebra.History.Units.{OldestFirst}
use ctrl_zebra.History.Kept.{Among, All-Among, unit_together, result_indexes-IsResult}

module _ (ms : List ModelMessage) (ps : List ToolPair) (latest : Option ℕ) where
  -- An index that must not be pruned.
  abbrev pub Guarded : ℕ → Type 0
  Guarded i = (is_system_at (get_elem? ms i) || is_index latest i) ≡ true

  any_protected-Guarded :
      (i : ℕ) (is : List ℕ) → Guarded i → has i is ≡ true → any_protected ms latest is ≡ true
  unfolding has any_protected
  any_protected-Guarded i [] g h = h
  any_protected-Guarded i (j ∷ js) g h = elim (Bool-cases (j == i)) [
    | inl same ↦ rw ((==_iff j i).0 same) (ground arith)
    | inr other ↦ ground (arith, any_protected-Guarded i js g)
  ]

  IsUnit-retained :
      (us : List HistoryUnit) → All (IsUnit ms ps latest) us → retained_indexes us ≡ all_indexes us
  unfolding retained_indexes
  IsUnit-retained [] h = refl
  IsUnit-retained (u ∷ us) h = ground (arith, h.0.fresh, IsUnit-retained us h.1)

  pub guarded-retained :
      (i : ℕ) (us vs : List HistoryUnit)
      → Guarded i
      → All (IsUnit ms ps latest) us
      → OldestFirst us vs
      → has i (all_indexes us) ≡ true
      → has i (retained_indexes vs) ≡ true
  unfolding retained_indexes
  guarded-retained i [] [] g h o e = e
  guarded-retained i [] (v ∷ vs) g h o e = absurd o
  guarded-retained i (u ∷ us) [] g h o e = absurd o
  guarded-retained i (u ∷ us) (v ∷ vs) g h (inl (inl dropped, rest)) e = ground (
    arith,
    has-append i u.indexes (all_indexes us),
    any_protected-Guarded i u.indexes g,
    h.0.guards,
    guarded-retained i us vs g h.1 rest,
  )
  guarded-retained i (u ∷ us) (v ∷ vs) g h (inl (inr kept, rest)) e = ground (
    arith,
    has-append i u.indexes (all_indexes us),
    has-append i u.indexes (retained_indexes vs),
    h.0.fresh,
    guarded-retained i us vs g h.1 rest,
  )
  guarded-retained i (u ∷ us) (v ∷ vs) g h (inr (same, tail)) e =
      rw (same, tail) (rw h.0.fresh (rw (IsUnit-retained us h.1) e))

abbrev pub SameIn : ℕ → ℕ → List HistoryUnit → Type 0
SameIn a b = All (λ u. has a u.indexes ≡ has b u.indexes)

pub retained_together :
    (a b : ℕ) (us vs : List HistoryUnit)
    → OldestFirst us vs
    → SameIn a b us
    → has a (retained_indexes vs) ≡ has b (retained_indexes vs)
unfolding retained_indexes has
retained_together a b [] [] o h = refl
retained_together a b [] (v ∷ vs) o h = absurd o
retained_together a b (u ∷ us) [] o h = absurd o
retained_together a b (u ∷ us) (v ∷ vs) (inl (e, rest)) h = ground (
  arith,
  has-append a v.indexes (retained_indexes vs),
  has-append b v.indexes (retained_indexes vs),
  retained_together a b us vs rest h.1,
)
retained_together a b (u ∷ us) (v ∷ vs) (inr (same, tail)) h =
    rw (same, tail) (all_together (u ∷ us) h)
  where
    all_together :
        (us : List HistoryUnit)
        → SameIn a b us
        → has a (retained_indexes us) ≡ has b (retained_indexes us)
    all_together [] h = refl
    all_together (u ∷ us) h = ground (
      arith,
      has-append a u.indexes (retained_indexes us),
      has-append b u.indexes (retained_indexes us),
      all_together us h.1,
    )

module _ (ms : List ModelMessage) (ps : List ToolPair) (latest : Option ℕ)
    (pairing : IsPairing ms ps) where
  pub SameIn-units :
      (p : ToolPair) (us : List HistoryUnit)
      → Among p ps
      → All (IsUnit ms ps latest) us
      → SameIn p.call_index p.result_index us
  SameIn-units p [] a h = tt
  SameIn-units p (u ∷ us) a h = (
    rw h.0.holds (
        unit_together ms pairing.completed pairing.bound ps pairing.pairs pairing.differ p h.0.start
          (pair_at h.0.start ps) a h.0.not_result refl),
    SameIn-units p us a h.1,
  )

latest-is_user :
    (ms : List ModelMessage) (n i : ℕ)
    → latest_user_below ms n ≡ some i
    → is_user_at (get_elem? ms i) ≡ true
unfolding latest_user_below
latest-is_user ms zero i e = cc
latest-is_user ms (suc n) i e = elim (Bool-cases (is_user_at (get_elem? ms n))) [
  | inl found ↦ let same : n ≡ i = ground arith in rw same at found
  | inr other ↦ latest-is_user ms n i (ground arith)
]

-- The indexes below `n`.
abbrev below : ℕ → List ℕ
below zero = []
below (suc n) = n ∷ below n

has-below : (i n : ℕ) → has i (below n) ≡ ltb i n
unfolding has
has-below i zero = ground arith
has-below i (suc n) = ground (arith, has-below i n)

filter_indexes-below :
    (n k : ℕ) (rest : List ModelMessage)
    → k + length rest ≤ n
    → filter_indexes (below n) k rest ≡ rest
unfolding filter_indexes
filter_indexes-below n k [] h = refl
filter_indexes-below n k (m ∷ rest) h =
    ground (arith, has-below k n, filter_indexes-below n (suc k) rest)

-- A system message or the latest user message.
abbrev pub must_stay : List ModelMessage → ℕ → Bool
must_stay ms i =
    ltb i (length ms) && (is_system_at (get_elem? ms i) || is_index (find_latest_user_index ms) i)

-- The messages of `h` are those of `ms` at some indexes, in order. Among these are all that must
-- stay, and of each pair both indexes or none.
pub record IsCut (ms : List ModelMessage) (ps : List ToolPair) (h : PrunedModelHistory)
    : Type 0 where
  pub kept : List ℕ
  pub filtered : h.messages ≡ filter_indexes kept 0 ms
  pub stays : (i : ℕ) → (must_stay ms i && not (has i kept)) ≡ false
  pub together : All (λ p. has p.call_index kept ≡ has p.result_index kept) ps

pub All-of-Among {ℓ} :
    (P : ToolPair → Type ℓ) (ps : List ToolPair) → ((p : ToolPair) → Among p ps → P p) → All P ps
All-of-Among P [] f = tt
All-of-Among P (p ∷ ps) f = (f p (inl refl), All-of-Among P ps (λ q a. f q (inr a)))

-- What must stay is no tool result.
pub must_stay-not_result :
    (ms : List ModelMessage) (ps : List ToolPair) (i : ℕ)
    → IsPairing ms ps
    → must_stay ms i ≡ true
    → has i (result_indexes ps) ≡ false
unfolding find_latest_user_index
must_stay-not_result ms ps i pairing m = elim (Bool-cases (has i (result_indexes ps))) [
  | inr free ↦ free
  | inl taken ↦
      (let (r, at) =
          result_indexes-IsResult ms pairing.completed pairing.bound ps pairing.pairs pairing.differ
            i ps pairing.pairs taken in
        ground (arith, latest-is_user ms (length ms) i))
]

get_elem?-length :
    (ms : List ModelMessage) (i : ℕ) (m : ModelMessage) → get_elem? ms i ≡ some m → i < length ms
get_elem?-length [] i m e = cc
get_elem?-length (x ∷ xs) zero m e = omega arith
get_elem?-length (x ∷ xs) (suc i) m e = omega (arith, get_elem?-length xs i m e)

pub uncut-IsCut :
    (ms : List ModelMessage) (ps : List ToolPair) (h : PrunedModelHistory)
    → IsPairing ms ps
    → h.messages ≡ ms
    → IsCut ms ps h
uncut-IsCut ms ps h pairing same = record {
  kept = below (length ms);
  filtered = same ∙ sym (filter_indexes-below (length ms) 0 ms (omega arith));
  stays = λ i. ground (arith, has-below i (length ms));
  together = All-of-Among _ ps λ p a.
      (let q = All-Among (IsPair ms pairing.completed pairing.bound) p ps pairing.pairs a in
        let c = get_elem?-length ms p.call_index _ q.is_call.1 in
        let r = get_elem?-length ms p.result_index _ q.is_result.1 in
        ground (arith, has-below p.call_index (length ms), has-below p.result_index (length ms)));
}
