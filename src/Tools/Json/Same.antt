-- ===== src/Tools/Json/Same.antt =====
-- Texts as packages/core/src/json-values.ts compares them.
use ctrl_zebra.Prelude.{◌≡◌, refl, arith, true, [], ◌∷◌}
use ctrl_zebra.Text.{Text}
use ctrl_zebra.Tools.Json.{same_text}

pub same_text_refl : (t : Text) → same_text t t ≡ true
unfolding same_text
same_text_refl [] = refl
same_text_refl (c ∷ t) = let rest = same_text_refl t in ground arith

pub same_text-≡ : (t u : Text) → same_text t u ≡ true → t ≡ u
unfolding same_text
same_text-≡ [] [] h = refl
same_text-≡ [] (d ∷ u) h = cc
same_text-≡ (c ∷ t) [] h = cc
same_text-≡ (c ∷ t) (d ∷ u) h =
    let head : c ≡ d = ground arith in let tail = same_text-≡ t u (ground arith) in cc
