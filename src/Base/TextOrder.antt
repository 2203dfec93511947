-- ===== src/Base/TextOrder.antt =====
-- The order of texts is a strict linear order.
use Prim.Native.Nat.{Ordering}
use Prim.Native.String.compare
use Prim.Native.String.{String, [], ◌∷◌, compare}
use mathlib.Core.Path.{◌≡◌, refl}
use mathlib.Core.Bool.{Bool, true, false}
use native.Mathlib.Omega.{arith}
use text.Mathlib.TextEquality.{path_by_compare}
use autonomous_quant_tra.Base.Sort.{text_lt}

pub record IsStrictOrder {ℓ} {A : Type ℓ} (precedes : A → A → Bool) : Type ℓ where
  pub asym : (a b : A) → precedes a b ≡ true → precedes b a ≡ false
  pub trans : (a b c : A) → precedes a b ≡ true → precedes b c ≡ true → precedes a c ≡ true
  pub total : (a b : A) → precedes a b ≡ false → precedes b a ≡ false → a ≡ b

text_asym : (s t : String) → text_lt s t ≡ true → text_lt t s ≡ false
text_asym [] [] h = absurd (ground arith)
text_asym [] (d ∷ t) h = rw (compare.cons-nil d t) refl
text_asym (c ∷ s) [] h = let front = rw (compare.cons-nil c s) at h in absurd (ground arith)
text_asym (c ∷ s) (d ∷ t) h =
    let front = rw (compare.cons-cons c d s t) at h in
    rw (compare.cons-cons d c t s) (ground (arith, text_asym s t, front))

text_trans : (s t u : String) → text_lt s t ≡ true → text_lt t u ≡ true → text_lt s u ≡ true
text_trans s [] [] h k = absurd (ground arith)
text_trans [] [] (e ∷ u) h k = absurd (ground arith)
text_trans (c ∷ s) [] (e ∷ u) h k =
    let front = rw (compare.cons-nil c s) at h in absurd (ground arith)
text_trans s (d ∷ t) [] h k = let back = rw (compare.cons-nil d t) at k in absurd (ground arith)
text_trans [] (d ∷ t) (e ∷ u) h k = rw (compare.nil-cons e u) refl
text_trans (c ∷ s) (d ∷ t) (e ∷ u) h k =
    let first = rw (compare.cons-cons c d s t) at h in
    let second = rw (compare.cons-cons d e t u) at k in
    rw (compare.cons-cons c e s u) (ground (arith, text_trans s t u, first, second))

text_tied : (s t : String) → text_lt s t ≡ false → text_lt t s ≡ false → compare s t ≡ Ordering.eq
text_tied [] [] h k = ground arith
text_tied [] (d ∷ t) h k = let front = rw (compare.nil-cons d t) at h in absurd (ground arith)
text_tied (c ∷ s) [] h k = let front = rw (compare.nil-cons c s) at k in absurd (ground arith)
text_tied (c ∷ s) (d ∷ t) h k =
    let there = rw (compare.cons-cons c d s t) at h in
    let back = rw (compare.cons-cons d c t s) at k in
    rw (compare.cons-cons c d s t) (ground (arith, text_tied s t, there, back))

pub text-IsStrictOrder : IsStrictOrder text_lt
text-IsStrictOrder = record {
  asym = text_asym;
  trans = text_trans;
  total = λ s t h k. path_by_compare s t (text_tied s t h k);
}
