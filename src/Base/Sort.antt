-- ===== src/Base/Sort.antt =====
-- Python's `sorted`, which is stable, by a strict order of the elements.
use mathlib.Core.Bool.{Bool}
use mathlib.Core.List.{List, [], ◌∷◌}
use Prim.Native.String.{String, compare}
use text.Mathlib.Text.{is_lt}
use autonomous_quant_tra.Base.Tests.{if◌then◌else◌}

-- `s < t` on texts: by the numbers of their characters.
abbrev pub text_lt : String → String → Bool
text_lt s t = is_lt (compare s t)

module _ {ℓ} {A : Type ℓ} (precedes : A → A → Bool) where
  -- The element comes before the first that does not precede it.
  abbrev pub insert_sorted : A → List A → List A
  insert_sorted x [] = x ∷ []
  insert_sorted x (y ∷ ys) =
      let rest = insert_sorted x ys in if precedes y x then y ∷ rest else x ∷ y ∷ ys

  abbrev pub sorted : List A → List A
  sorted [] = []
  sorted (x ∷ xs) = insert_sorted x (sorted xs)
