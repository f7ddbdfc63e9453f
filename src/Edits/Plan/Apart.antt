-- ===== src/Edits/Plan/Apart.antt =====
-- Edits that do not meet, and the order that packages/core/src/text-edit.ts sorts them in.
use ctrl_zebra.Prelude.{◌≡◌, ◌≤◌, ◌<◌, ◌⊎◌, refl, arith, Bool, true, false, not, List, [], ◌∷◌, All}
use ctrl_zebra.Edits.Plan.{
  TextPosition, TextEdit, compare_positions, is_more, overlaps, any_overlap,
}

-- The order of positions in a text.
abbrev pub Precedes : TextPosition → TextPosition → Type 0
Precedes p q = (p.line < q.line) ⊎ ((p.line ≡ q.line) × (p.character < q.character))

abbrev pub Meets : TextPosition → TextPosition → Type 0
Meets p q = (p.line < q.line) ⊎ ((p.line ≡ q.line) × (p.character ≤ q.character))

-- The one edit starts before the other, and ends where the other starts at the latest.
abbrev pub IsBefore : TextEdit → TextEdit → Type 0
IsBefore a b = Precedes a.range.start b.range.start × Meets a.range.end b.range.start

abbrev pub IsApart : List TextEdit → Type 0
IsApart [] = Unit
IsApart (e ∷ es) = All (IsBefore e) es × IsApart es

-- The neighbours alone.
abbrev pub IsNext : TextEdit → List TextEdit → Type 0
IsNext a [] = Unit
IsNext a (b ∷ bs) = IsBefore a b × IsNext b bs

overlaps-IsBefore :
    (a b : TextEdit) → Meets a.range.start b.range.start → overlaps a b ≡ false → IsBefore a b
unfolding compare_positions
overlaps-IsBefore a b sorted h = ground arith

IsBefore-overlaps : (a b : TextEdit) → IsBefore a b → overlaps a b ≡ false
unfolding compare_positions
IsBefore-overlaps a b h = ground arith

IsBefore-trans : (a b c : TextEdit) → IsBefore a b → IsBefore b c → IsBefore a c
IsBefore-trans a b c h k = ground arith

IsBefore-All :
    (a b : TextEdit) (es : List TextEdit) → IsBefore a b → All (IsBefore b) es → All (IsBefore a) es
IsBefore-All a b [] h k = tt
IsBefore-All a b (e ∷ es) h k = (IsBefore-trans a b e h k.0, IsBefore-All a b es h k.1)

-- The start of the one edit is not after that of the other.
abbrev pub starts_by : TextEdit → TextEdit → Bool
starts_by a b = not (is_more (compare_positions a.range.start b.range.start))

abbrev pub Rises : TextEdit → List TextEdit → Type 0
Rises a [] = Unit
Rises a (e ∷ es) = (starts_by a e ≡ true) × Rises e es

abbrev pub IsRising : List TextEdit → Type 0
IsRising [] = Unit
IsRising (e ∷ es) = Rises e es

-- The test on neighbours is enough where the starts rise.
pub Rises-IsApart :
    (a : TextEdit) (es : List TextEdit) → Rises a es → any_overlap a es ≡ false → IsApart (a ∷ es)
unfolding any_overlap compare_positions
Rises-IsApart a [] r h = (tt, tt)
Rises-IsApart a (e ∷ es) r h =
    let here : IsBefore a e = ground arith in
    let rest = Rises-IsApart e es r.1 (ground arith) in
    ((here, IsBefore-All a e es here rest.0), rest)

pub IsApart-any_overlap :
    (a : TextEdit) (es : List TextEdit) → IsApart (a ∷ es) → any_overlap a es ≡ false
unfolding any_overlap
IsApart-any_overlap a [] h = refl
IsApart-any_overlap a (e ∷ es) h =
    let here = IsBefore-overlaps a e h.0.0 in
    let rest = IsApart-any_overlap e es h.1 in ground arith
