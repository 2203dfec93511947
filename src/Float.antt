-- ===== src/Float.antt =====
-- Python's `float`, as an interface. The operations are those that the code applies; their results
-- are rounded, so no law says that a sum is exact or associative. `rank` is the position of a number
-- in the order of all floats (an integer: the sign and magnitude bits), and comparisons are
-- comparisons of ranks. NaN and infinities are left out: the schemas refuse them.
pub mod Fixed
pub mod Order
use autonomous_quant_tra.Base.{
  ℕ, zero, suc, true, ◌+◌, ◌≤◌, ◌≡◌, Bool, ◌&&◌, ◌||◌, List, [], ◌∷◌, String, if◌then◌else◌, foldl,
}
use autonomous_quant_tra.Int.{ℤ, pos, negsuc, pos_part, neg_part, ◌≤ℤ◌, ltb_ℤ, leb_ℤ}

pub record Float {ℓ} (F : Type ℓ) : Type ℓ where
  pub rank : F → ℤ
  pub add : F → F → F
  pub sub : F → F → F
  pub mul : F → F → F
  pub div : F → F → F
  pub neg : F → F
  -- `decimal m k` is the float that the literal m / 10^k is read as.
  pub decimal : ℤ → ℕ → F
  -- `round(x, digits)`.
  pub round : F → ℕ → F
  -- `float(int(x))`.
  pub truncate : F → F
  -- `f"{x:.{digits}f}"`.
  pub format : F → ℕ → String
  -- `str(x)`, and `f"{x:.{digits}g}"`.
  pub repr : F → String
  pub general : F → ℕ → String

module _ {ℓ} {F : Type ℓ} ⦃fl : Float F⦄ where
  infixl 65 ◌⊕◌ ◌⊖◌
  infixl 70 ◌⊗◌ ◌⊘◌
  infix 50 ◌≼◌ ◌<?◌ ◌≤?◌ ◌==?◌
  abbrev pub ◌⊕◌ : F → F → F
  ◌⊕◌ = fl.add

  abbrev pub ◌⊖◌ : F → F → F
  ◌⊖◌ = fl.sub

  abbrev pub ◌⊗◌ : F → F → F
  ◌⊗◌ = fl.mul

  abbrev pub ◌⊘◌ : F → F → F
  ◌⊘◌ = fl.div

  abbrev pub minus : F → F
  minus = fl.neg

  abbrev pub ◌≼◌ : F → F → Type 0
  x ≼ y = fl.rank x ≤ℤ fl.rank y

  -- The tests `x < y` and `x <= y`.
  abbrev pub ◌<?◌ : F → F → Bool
  x <? y = ltb_ℤ (fl.rank x) (fl.rank y)

  abbrev pub ◌≤?◌ : F → F → Bool
  x ≤? y = leb_ℤ (fl.rank x) (fl.rank y)

  -- The tests `x == y`, and `if x:` of a number.
  abbrev pub ◌==?◌ : F → F → Bool
  x ==? y = (x ≤? y) && (y ≤? x)

  abbrev pub truthy : F → Bool
  truthy x = (x <? fl.decimal (pos 0) 0) || (fl.decimal (pos 0) 0 <? x)

  -- The literals `0.0`, `1.0`, `1e-9` and `-1e-9`.
  abbrev pub nought : F
  nought = fl.decimal (pos 0) 0

  abbrev pub one : F
  one = fl.decimal (pos 1) 0

  abbrev pub tiny : F
  tiny = fl.decimal (pos 1) 9

  abbrev pub minus_tiny : F
  minus_tiny = fl.decimal (negsuc 0) 9

  abbrev pub min : F → F → F
  min x y = if y <? x then y else x

  abbrev pub max : F → F → F
  max x y = if x <? y then y else x

  abbrev pub abs : F → F
  abs x = if x <? nought then minus x else x

  -- `sum(xs)` adds from the left.
  abbrev pub sum : List F → F
  sum = foldl ◌⊕◌ nought

-- What IEEE 754 promises of finite doubles under round-to-nearest: the operations are monotone, 0 is
-- neutral, and `x - y` is `x + (-y)`. Equations are between numbers (`-0.0 == 0.0`).
pub record IsFloat {ℓ} (F : Type ℓ) ⦃fl : Float F⦄ : Type ℓ where
  pub add_mono : (x y u v : F) → x ≼ y → u ≼ v → x ⊕ u ≼ y ⊕ v
  pub add_nought : (x : F) → x ⊕ nought ≡ x
  pub nought_add : (x : F) → nought ⊕ x ≡ x
  pub sub-eq-add_minus : (x y : F) → x ⊖ y ≡ x ⊕ minus y
  pub minus_anti : (x y : F) → x ≼ y → minus y ≼ minus x
  pub minus_nought : minus (fl.decimal (pos 0) 0) ≡ nought
  pub sub_self : (x : F) → x ⊖ x ≡ nought
  pub mul_mono : (x y c : F) → nought ≼ c → x ≼ y → x ⊗ c ≼ y ⊗ c
  pub nought_mul : (x : F) → nought ⊗ x ≡ nought
  pub tiny_nonneg : nought ≼ fl.decimal (pos 1) 9
  pub minus_tiny_nonpos : fl.decimal (negsuc 0) 9 ≼ nought
  pub div_nonneg : (x y : F) → nought ≼ x → (nought <? y) ≡ true → nought ≼ x ⊘ y
  pub whole_pos : (n : ℕ) → (nought <? fl.decimal (pos (suc n)) 0) ≡ true
  pub mul_comm : (x y : F) → x ⊗ y ≡ y ⊗ x
  pub mul_anti : (x y c : F) → c ≼ nought → x ≼ y → y ⊗ c ≼ x ⊗ c
  pub div_mono : (x y c : F) → (nought <? c) ≡ true → x ≼ y → x ⊘ c ≼ y ⊘ c
