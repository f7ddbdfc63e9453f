-- ===== src/Edits/Plan.antt =====
-- packages/core/src/text-edit.ts: the edits of one file, parsed, sorted, and refused where two of them
-- overlap. What is a record with exactly the keys of its type is a value of it here, all else is none.
pub mod Apart
pub mod Arranged
use ctrl_zebra.Prelude.{
  ℕ, Bool, true, false, ◌&&◌, ◌||◌, List, [], ◌∷◌, Option, none, some, Result, ok, err, ◌>>=◌, leb,
  ltb, ◌==◌, length, if◌then◌else◌,
}
use ctrl_zebra.Numbers.{JsNumber, max_safe_integer, bounded_count}
use ctrl_zebra.Text.{Text}

abbrev pub max_text_edits : ℕ
max_text_edits = 256

pub record TextPosition : Type 0 where
  pub line : ℕ
  pub character : ℕ

pub record TextRange : Type 0 where
  pub start : TextPosition
  pub end : TextPosition

pub record TextEdit : Type 0 where
  pub range : TextRange
  pub new_text : Text

pub data TextEditError : Type 0 where
  invalid_plan overlapping : TextEditError

pub record RawPosition : Type 0 where
  pub line : JsNumber
  pub character : JsNumber

pub record RawEdit : Type 0 where
  pub start : Option RawPosition
  pub end : Option RawPosition
  pub new_text : Option Text

-- A difference of two safe integers, up to its sign.
pub data Sign : Type 0 where
  less same more : Sign

abbrev pub difference : ℕ → ℕ → Sign
difference a b = if ltb a b then less else if a == b then same else more

-- `||` on differences.
abbrev pub or_else : Sign → Sign → Sign
or_else same s = s
or_else r s = r

unfoldable pub compare_positions : TextPosition → TextPosition → Sign
compare_positions left right =
    or_else (difference left.line right.line) (difference left.character right.character)

unfoldable pub compare_text_edits : TextEdit → TextEdit → Sign
unfolding compare_positions
compare_text_edits left right =
    or_else (compare_positions left.range.start right.range.start)
      (compare_positions left.range.end right.range.end)

abbrev pub is_more : Sign → Bool
is_more more = true
is_more _ = false

abbrev pub is_less : Sign → Bool
is_less less = true
is_less _ = false

abbrev pub is_same : Sign → Bool
is_same same = true
is_same _ = false

abbrev pub required : {A : Type 0} → Option A → Result TextEditError A
required none = err invalid_plan
required (some a) = ok a

unfoldable pub parse_text_position : Option RawPosition → Result TextEditError TextPosition
unfolding bounded_count
parse_text_position value = do
  raw ← required value
  line ← required (bounded_count max_safe_integer raw.line)
  character ← required (bounded_count max_safe_integer raw.character)
  ok (record { line = line; character = character })

unfoldable pub parse_text_edit : Option RawEdit → Result TextEditError TextEdit
unfolding parse_text_position compare_positions
parse_text_edit value = do
  raw ← required value
  new_text ← required raw.new_text
  start ← parse_text_position raw.start
  end ← parse_text_position raw.end
  if is_more (compare_positions start end)
      then err invalid_plan
      else ok (record { range = record { start = start; end = end }; new_text = new_text })

-- `value.map(parseTextEdit)`
unfoldable pub parse_all : List (Option RawEdit) → Result TextEditError (List TextEdit)
unfolding parse_text_edit
parse_all [] = ok []
parse_all (v ∷ vs) =
    let rest = parse_all vs in (do edit ← parse_text_edit v; edits ← rest; ok (edit ∷ edits))

-- `sort(compareTextEdits)`, which is stable.
unfoldable pub insert_edit : TextEdit → List TextEdit → List TextEdit
unfolding compare_text_edits
insert_edit e [] = e ∷ []
insert_edit e (f ∷ fs) =
    if is_more (compare_text_edits e f) then f ∷ insert_edit e fs else e ∷ f ∷ fs

unfoldable pub sort_edits : List TextEdit → List TextEdit
unfolding insert_edit
sort_edits [] = []
sort_edits (e ∷ es) = insert_edit e (sort_edits es)

-- The test of the loop on two neighbours.
abbrev pub overlaps : TextEdit → TextEdit → Bool
overlaps previous current =
    is_less (compare_positions current.range.start previous.range.end)
    || is_same (compare_positions current.range.start previous.range.start)

unfoldable pub any_overlap : TextEdit → List TextEdit → Bool
unfolding compare_positions
any_overlap previous [] = false
any_overlap previous (current ∷ rest) = overlaps previous current || any_overlap current rest

abbrev pub has_overlap : List TextEdit → Bool
has_overlap [] = false
has_overlap (e ∷ es) = any_overlap e es

-- What follows the parsing.
unfoldable pub arrange : List TextEdit → Result TextEditError (List TextEdit)
unfolding sort_edits any_overlap
arrange parsed =
    let edits = sort_edits parsed in if has_overlap edits then err overlapping else ok edits

unfoldable pub parse_text_edits : List (Option RawEdit) → Result TextEditError (List TextEdit)
unfolding parse_all arrange
parse_text_edits values =
    if length values == 0 || ltb max_text_edits (length values)
    then err invalid_plan
    else (do parsed ← parse_all values; arrange parsed)
