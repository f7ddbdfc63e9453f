-- ===== src/Edits/Plan/Arranged.antt =====
-- packages/core/src/text-edit.ts: which edits are accepted, and in what order.
use ctrl_zebra.Prelude.{
  ◌≡◌, ◌↔◌, inl, inr, refl, sym, ◌∙◌, ap, subst, arith, true, false, List, [], ◌∷◌, Option, ◌≤◌,
  length, ok, Bool-cases, All,
}
use mathlib.Core.Bool.{Bool-set}
use mathlib.Core.Logic.Or
use mathlib.Core.List.{Perm, Mem, mem-cons_self, eq-or-mem_of_mem-cons, not-mem-nil}
use mathlib.Core.List.Perm
use ctrl_zebra.Edits.Plan.{
  TextEdit, compare_positions, compare_text_edits, is_more, insert_edit, sort_edits, has_overlap,
  arrange, RawEdit, max_text_edits, parse_all, parse_text_edits,
}
use ctrl_zebra.Edits.Plan.Apart.{
  IsBefore, IsApart, starts_by, Rises, IsRising, Rises-IsApart, IsApart-any_overlap,
}

TextEdit-set : IsSet TextEdit
TextEdit-set = hlevel

insert_edit-Perm : (e : TextEdit) (es : List TextEdit) → Perm (insert_edit e es) (e ∷ es)
unfolding insert_edit
insert_edit-Perm e [] = Perm.rfl
insert_edit-Perm e (f ∷ es) = elim (Bool-cases (is_more (compare_text_edits e f))) [
  | inl later ↦ simp later (Perm.trans (Perm.cons f (insert_edit-Perm e es)) (Perm.swap e f es))
  | inr here ↦ simp here Perm.rfl
]

sort_edits-Perm : (es : List TextEdit) → Perm (sort_edits es) es
unfolding sort_edits
sort_edits-Perm [] = Perm.rfl
sort_edits-Perm (e ∷ es) =
    Perm.trans (insert_edit-Perm e (sort_edits es)) (Perm.cons e (sort_edits-Perm es))

-- The sort compares the starts first.
more-starts_by : (e f : TextEdit) → is_more (compare_text_edits e f) ≡ true → starts_by f e ≡ true
unfolding compare_text_edits compare_positions
more-starts_by e f h = ground arith

other-starts_by : (e f : TextEdit) → is_more (compare_text_edits e f) ≡ false → starts_by e f ≡ true
unfolding compare_text_edits compare_positions
other-starts_by e f h = ground arith

starts_by_trans :
    (a b c : TextEdit) → starts_by a b ≡ true → starts_by b c ≡ true → starts_by a c ≡ true
unfolding compare_positions
starts_by_trans a b c h k = ground arith

insert_edit-Rises :
    (a e : TextEdit) (es : List TextEdit)
    → starts_by a e ≡ true
    → Rises a es
    → Rises a (insert_edit e es)
unfolding insert_edit
insert_edit-Rises a e [] h r = (h, tt)
insert_edit-Rises a e (f ∷ es) h r = elim (Bool-cases (is_more (compare_text_edits e f))) [
  | inl later ↦ simp later (r.0, insert_edit-Rises f e es (more-starts_by e f later) r.1)
  | inr here ↦ simp here (h, (other-starts_by e f here, r.1))
]

insert_edit-IsRising :
    (e : TextEdit) (es : List TextEdit) → IsRising es → IsRising (insert_edit e es)
unfolding insert_edit
insert_edit-IsRising e [] r = tt
insert_edit-IsRising e (f ∷ es) r = elim (Bool-cases (is_more (compare_text_edits e f))) [
  | inl later ↦ simp later (insert_edit-Rises f e es (more-starts_by e f later) r)
  | inr here ↦ simp here (other-starts_by e f here, r)
]

sort_edits-IsRising : (es : List TextEdit) → IsRising (sort_edits es)
unfolding sort_edits
sort_edits-IsRising [] = tt
sort_edits-IsRising (e ∷ es) = insert_edit-IsRising e (sort_edits es) (sort_edits-IsRising es)

IsRising-tail : (e : TextEdit) (es : List TextEdit) → Rises e es → IsRising es
IsRising-tail e [] r = tt
IsRising-tail e (f ∷ es) r = r.1

starts_by_refl : (a : TextEdit) → starts_by a a ≡ true
unfolding compare_positions
starts_by_refl a = ground arith

Rises-starts_by :
    (a b : TextEdit) (es : List TextEdit)
    → starts_by a b ≡ true
    → Rises b es
    → (x : TextEdit) → Mem x (b ∷ es)
    → starts_by a x ≡ true
Rises-starts_by a b [] h r x m =
    Or.elim (Bool-set (starts_by a x) true) (eq-or-mem_of_mem-cons m)
      (λ e. subst (λ y. starts_by a y ≡ true) (sym e) h) (λ t. elim (not-mem-nil t) [ ])
Rises-starts_by a b (f ∷ es) h r x m =
    Or.elim (Bool-set (starts_by a x) true) (eq-or-mem_of_mem-cons m)
      (λ e. subst (λ y. starts_by a y ≡ true) (sym e) h)
      (λ t. Rises-starts_by a f es (starts_by_trans a b f h r.0) r.1 x t)

IsBefore-starts_by : (a b : TextEdit) → IsBefore a b → starts_by b a ≡ false
unfolding compare_positions
IsBefore-starts_by a b h = ground arith

-- No edit that is apart from a first one starts by its start.
All-starts_by :
    (a : TextEdit) (es : List TextEdit)
    → All (IsBefore a) es
    → (x : TextEdit) → Mem x es
    → starts_by x a ≡ false
All-starts_by a [] h x m = elim (not-mem-nil m) [ ]
All-starts_by a (e ∷ es) h x m =
    Or.elim (Bool-set (starts_by x a) false) (eq-or-mem_of_mem-cons m)
      (λ eq. subst (λ y. starts_by y a ≡ false) (sym eq) (IsBefore-starts_by a e h.0))
      (λ t. All-starts_by a es h.1 x t)

heads_same :
    (a z : TextEdit) (es zs : List TextEdit)
    → IsApart (a ∷ es)
    → Rises z zs
    → Perm (a ∷ es) (z ∷ zs)
    → a ≡ z
heads_same a z es zs apart rises p =
    let below : starts_by z a ≡ true =
      Rises-starts_by z z zs (starts_by_refl z) rises a ((Perm.mem_iff p).0 mem-cons_self) in
    Or.elim (TextEdit-set a z) (eq-or-mem_of_mem-cons ((Perm.mem_iff p).1 mem-cons_self))
      (λ e. sym e) (λ t. let above = All-starts_by a es apart.0 z t in ground arith)

-- Edits that are apart have one rising order.
IsApart-IsRising : (xs zs : List TextEdit) → IsApart xs → IsRising zs → Perm xs zs → xs ≡ zs
IsApart-IsRising [] zs apart rising p = Perm.nil-eq p
IsApart-IsRising (a ∷ xs) [] apart rising p = Perm.eq-nil p
IsApart-IsRising (a ∷ xs) (z ∷ zs) apart rising p =
    let heads = heads_same a z xs zs apart rising p in
    let tails : Perm xs zs = Perm.cons_inv (Perm.trans p (Perm.symm (Perm.cons' heads Perm.rfl))) in
    let rest = IsApart-IsRising xs zs apart.1 (IsRising-tail z zs rising) tails in cc

IsRising-IsApart : (es : List TextEdit) → IsRising es → has_overlap es ≡ false → IsApart es
IsRising-IsApart [] r h = tt
IsRising-IsApart (e ∷ es) r h = Rises-IsApart e es r h

IsApart-has_overlap : (es : List TextEdit) → IsApart es → has_overlap es ≡ false
IsApart-has_overlap [] h = refl
IsApart-has_overlap (e ∷ es) h = IsApart-any_overlap e es h

pub arranged :
    (parsed edits : List TextEdit) → arrange parsed ≡ ok edits → IsApart edits × Perm edits parsed
unfolding arrange
arranged parsed edits h = elim (Bool-cases (has_overlap (sort_edits parsed))) [
  | inl bad ↦ ground arith
  | inr fine ↦
      let sorted : sort_edits parsed ≡ edits = ground arith in
      subst (λ es. IsApart es × Perm es parsed) sorted
        (IsRising-IsApart _ (sort_edits-IsRising parsed) fine, sort_edits-Perm parsed)
]

arrangeable :
    (parsed edits : List TextEdit) → IsApart edits → Perm edits parsed → arrange parsed ≡ ok edits
unfolding arrange
arrangeable parsed edits apart p =
    let sorted : edits ≡ sort_edits parsed =
      IsApart-IsRising edits (sort_edits parsed) apart (sort_edits-IsRising parsed)
        (Perm.trans p (Perm.symm (sort_edits-Perm parsed))) in
    let fine : has_overlap (sort_edits parsed) ≡ false =
      subst (λ es. has_overlap es ≡ false) sorted (IsApart-has_overlap edits apart) in
    rw fine (ap ok (sym sorted))

-- Of one to 256 values that parse, a plan is made exactly where the edits can be put in a row in which
-- each starts before the ones after it and ends by the start of each of them; and the plan is that
-- row, so it does not depend on the order in which the edits were given.
pub parse_text_edits-IsApart :
    (values : List (Option RawEdit)) (parsed edits : List TextEdit)
    → 1 ≤ length values
    → length values ≤ max_text_edits
    → parse_all values ≡ ok parsed
    → (parse_text_edits values ≡ ok edits) ↔ (IsApart edits × Perm edits parsed)
unfolding parse_text_edits
parse_text_edits-IsApart values parsed edits some_given within parses =
    let through : parse_text_edits values ≡ arrange parsed = ground arith in
    (λ h. arranged parsed edits (sym through ∙ h), λ h. through ∙ arrangeable parsed edits h.0 h.1)
