-- ===== src/Edits/Files/Moves.antt =====
-- packages/core/src/file-delete-rename.ts: where a plan of a rename leads.
use ctrl_zebra.Prelude.{
  ℕ, ◌≡◌, ◌≢◌, refl, sym, ◌∙◌, ap, subst, arith, Bool, true, false, not, ◌&&◌, [], ◌∷◌, ◌++◌,
  Option, none, some,
}
use ctrl_zebra.Text.{Text}
use ctrl_zebra.Tools.Json.{same_text}
use ctrl_zebra.Tools.Json.Same.{same_text_refl, same_text-≡}
use ctrl_zebra.Edits.WorkspacePath.Hosts.{Platform, Place, resolve, place_text}
use ctrl_zebra.Edits.WorkspacePath.Below.{Gets, is_safe_workspace_path-resolve}
use ctrl_zebra.Edits.Files.{
  FileRenamePlan, Proposed, is_safe_mutation_path, is_safe_uri, is_bounded_mutation_text,
  is_checkpoint_hash, has_hash, assert_hash, accept, is_rename_plan, parse_file_rename_plan,
}

append_cancel : (xs ys zs : Text) → xs ++ ys ≡ xs ++ zs → ys ≡ zs
append_cancel [] ys zs h = h
append_cancel (x ∷ xs) ys zs h = append_cancel xs ys zs cc

tail_same : (c : ℕ) (s t : Text) → ◌≡◌ {A = Text} (c ∷ s) (c ∷ t) → s ≡ t
tail_same c s t h = cc

is_safe_mutation_path-Gets :
    (host : Platform) (root : Place) (path : Text)
    → is_safe_mutation_path path ≡ true
    → Gets (resolve host root path) (place_text root ++ b'/' ∷ path)
unfolding is_safe_mutation_path
is_safe_mutation_path-Gets host root path h = is_safe_workspace_path-resolve host _ _ path root h

some_same : (p q : Place) → ◌≡◌ {A = Option Place} (some p) (some q) → p ≡ q
some_same p q h = cc

-- Two texts below one place are the same where a host gets to one place by both.
Gets-same :
    (root : Place) (s t : Text) (found other : Option Place)
    → Gets found (place_text root ++ b'/' ∷ s)
    → Gets other (place_text root ++ b'/' ∷ t)
    → found ≡ other
    → s ≡ t
Gets-same root s t found other (p, here, spelled) (q, there, written) e =
    let one : p ≡ q = some_same p q (sym here ∙ e ∙ there) in
    tail_same b'/' s t
      (append_cancel (place_text root) _ _ (sym spelled ∙ ap place_text one ∙ written))

has_hash-some :
    (actual : Option Text) (expected : Text)
    → has_hash actual expected ≡ true
    → actual ≡ some expected
has_hash-some none expected h = cc
has_hash-some (some t) expected h = ap some (same_text-≡ t expected h)

-- The tests of a rename, one by one.
rename_tests :
    (a b c d e f g h i j : Bool)
    → (a && b && c && not d && e && f && not g && h && i && j) ≡ true
    → (b ≡ true) × (c ≡ true) × (d ≡ false) × (j ≡ true)
rename_tests a b c d e f g h i j t = ground arith

accept-some : {A : Type 0} (b : Bool) (p q : A) → accept b p ≡ some q → (b ≡ true) × (p ≡ q)
accept-some true p q h = (refl, cc)
accept-some false p q h = cc

-- What a rename that is accepted does, from whatever place a host reads its paths in: both name exactly
-- the place below it that they spell, these are two places, and the text that is to be moved has the
-- hash that the plan was made with.
abbrev pub IsMove : (Text → Option Text) → Platform → Place → FileRenamePlan → Type 0
IsMove hash_text host root plan =
    Gets (resolve host root plan.source_path) (place_text root ++ b'/' ∷ plan.source_path)
    × Gets (resolve host root plan.target_path) (place_text root ++ b'/' ∷ plan.target_path)
    × (resolve host root plan.source_path ≢ resolve host root plan.target_path)
    × (hash_text plan.before_content ≡ some plan.before_hash)

-- A rename that is accepted moves a text from one place below the root to another, on POSIX and on
-- Windows: both paths name exactly the place that they spell, the two places differ as spelled, and
-- the text has the hash of the plan.
pub parse_file_rename_plan-IsMove :
    (hash_text : Text → Option Text) (value : Option (Proposed FileRenamePlan))
    (plan : FileRenamePlan) (host : Platform) (root : Place)
    → parse_file_rename_plan hash_text value ≡ some plan
    → IsMove hash_text host root plan
unfolding parse_file_rename_plan
parse_file_rename_plan-IsMove hash_text none plan host root h = cc
parse_file_rename_plan-IsMove hash_text (some v) plan host root h =
    let (holds, same) = accept-some (is_rename_plan hash_text v) v.plan plan h in
    let tests =
      rename_tests _ (is_safe_mutation_path v.plan.source_path)
        (is_safe_mutation_path v.plan.target_path) (same_text v.plan.source_path v.plan.target_path)
        (is_safe_uri v.plan.source_uri) (is_safe_uri v.plan.target_uri)
        (same_text v.plan.source_uri v.plan.target_uri)
        (is_bounded_mutation_text v.plan.before_content) (is_checkpoint_hash v.plan.before_hash)
        (assert_hash hash_text v.plan.before_content v.plan.before_hash) holds in
    let from = is_safe_mutation_path-Gets host root v.plan.source_path tests.0 in
    let to = is_safe_mutation_path-Gets host root v.plan.target_path tests.1 in
    subst (IsMove hash_text host root) same (
      from,
      to,
      (λ e.
          let one = Gets-same root v.plan.source_path v.plan.target_path _ _ from to e in
          let whole =
            subst (λ t. same_text v.plan.source_path t ≡ true) one
              (same_text_refl v.plan.source_path) in
          ground arith),
      has_hash-some _ _ tests.3,
    )
