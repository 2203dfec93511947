-- ===== src/Float/Fixed.antt =====
-- Fixed-point numbers, in units of 10^-9: a carrier in which the laws of `IsFloat` hold and in which
-- tests compute. Products, quotients and decimals are cut off towards zero.
use Prim.Native.String.{String}
use mathlib.Core.Path.{ap₂}
use native.Mathlib.Nat.{div-mul-le_self, le-div_iff_mul-le}
use autonomous_quant_tra.Base.{
  ℕ, zero, ◌<◌, ◌+◌, ◌*◌, ◌/◌, ◌^◌, suc, ◌≤◌, ◌≡◌, true, arith, if◌then◌else◌, ltb,
}
use autonomous_quant_tra.Int.{
  ℤ, pos, negsuc, pos_part, neg_part, sub_ℕ, ◌+ℤ◌, ◌-ℤ◌, neg_ℤ, ◌≤ℤ◌, int_laws, ltb_ℤ,
}
use autonomous_quant_tra.Float.{Float, IsFloat}

abbrev pub unit : ℕ
unit = 1_000_000_000

-- Of the four products of the parts at most one is not 0.
unfoldable pub mul_fixed : ℤ → ℤ → ℤ
mul_fixed a b =
    sub_ℕ ((pos_part a * pos_part b + neg_part a * neg_part b) / unit)
      ((pos_part a * neg_part b + neg_part a * pos_part b) / unit)

unfoldable pub div_fixed : ℤ → ℤ → ℤ
div_fixed a b =
    let size = (pos_part a + neg_part a) * unit / (pos_part b + neg_part b) in
    if ltb 0 (pos_part a * pos_part b + neg_part a * neg_part b) then pos size else sub_ℕ 0 size

unfoldable pub decimal_fixed : ℤ → ℕ → ℤ
decimal_fixed m k = sub_ℕ (pos_part m * unit / 10 ^ k) (neg_part m * unit / 10 ^ k)

unfoldable pub round_fixed : ℤ → ℕ → ℤ
round_fixed a digits =
    let step = unit / 10 ^ digits in sub_ℕ (pos_part a / step * step) (neg_part a / step * step)

-- A stand-in for Python's formatting: the texts are never read back.
unfoldable pub show_fixed : ℤ → ℕ → String
show_fixed a digits = "number"

instance abbrev pub fixed_float : Float ℤ
fixed_float = record {
  rank = λ a. a;
  add = ◌+ℤ◌;
  sub = ◌-ℤ◌;
  mul = mul_fixed;
  div = div_fixed;
  neg = neg_ℤ;
  decimal = decimal_fixed;
  round = round_fixed;
  truncate = λ a. round_fixed a 0;
  format = show_fixed;
  repr = λ a. show_fixed a 9;
  general = show_fixed;
}

scale_mono : (a b c : ℕ) → a ≤ b → a * c / unit ≤ b * c / unit
scale_mono a b c h = let product : a * c ≤ b * c = grind arith in omega arith

mul_fixed_mono : (x y c : ℤ) → pos 0 ≤ℤ c → x ≤ℤ y → mul_fixed x c ≤ℤ mul_fixed y c
unfolding mul_fixed
mul_fixed_mono (pos a) (pos b) (pos c) hc h = ground (arith, scale_mono a b c)
mul_fixed_mono (negsuc a) (pos b) (pos c) hc h = ground arith
mul_fixed_mono (negsuc a) (negsuc b) (pos c) hc h = ground (arith, scale_mono (suc b) (suc a) c)
mul_fixed_mono (pos a) (negsuc b) (pos c) hc h = absurd (omega arith)
mul_fixed_mono x y (negsuc c) hc h = absurd (omega arith)

nought_mul_fixed : (x : ℤ) → mul_fixed (pos 0) x ≡ pos 0
unfolding mul_fixed
nought_mul_fixed x = ground arith

div_fixed_nonneg : (x y : ℤ) → pos 0 ≤ℤ x → ltb_ℤ (pos 0) y ≡ true → pos 0 ≤ℤ div_fixed x y
unfolding div_fixed
div_fixed_nonneg (pos zero) (pos b) h k = ground arith
div_fixed_nonneg (pos (suc a)) (pos b) h k =
    let positive : 0 < suc a * b = ground arith in ground arith
div_fixed_nonneg (pos a) (negsuc b) h k = absurd (ground arith)
div_fixed_nonneg (negsuc a) y h k = absurd (omega arith)

mul_fixed_comm : (x y : ℤ) → mul_fixed x y ≡ mul_fixed y x
unfolding mul_fixed
mul_fixed_comm x y =
    let same_sign : pos_part x * pos_part y + neg_part x * neg_part y
        ≡ pos_part y * pos_part x + neg_part y * neg_part x =
      grind arith in
    let other_sign : pos_part x * neg_part y + neg_part x * pos_part y
        ≡ pos_part y * neg_part x + neg_part y * pos_part x =
      grind arith in
    ap₂ (λ p q. sub_ℕ (p / unit) (q / unit)) same_sign other_sign

mul_fixed_anti : (x y c : ℤ) → c ≤ℤ pos 0 → x ≤ℤ y → mul_fixed y c ≤ℤ mul_fixed x c
unfolding mul_fixed
mul_fixed_anti (pos a) (pos b) (negsuc c) hc h = ground (arith, scale_mono a b (suc c))
mul_fixed_anti (negsuc a) (pos b) (negsuc c) hc h = ground arith
mul_fixed_anti (negsuc a) (negsuc b) (negsuc c) hc h =
    ground (arith, scale_mono (suc b) (suc a) (suc c))
mul_fixed_anti (pos a) (negsuc b) (negsuc c) hc h = absurd (omega arith)
mul_fixed_anti x y (pos (suc c)) hc h = absurd (omega arith)
mul_fixed_anti x y (pos zero) hc h = ground arith

quotient_mono : (x y k : ℕ) → 0 < k → x ≤ y → x / k ≤ y / k
quotient_mono x y k positive h =
    let part : x / k * k ≤ x = div-mul-le_self x k in (le-div_iff_mul-le positive).1 (omega arith)

div_fixed_nonneg-eq : (a c : ℕ) → 0 < c → div_fixed (pos a) (pos c) ≡ pos (a * unit / c)
unfolding div_fixed
div_fixed_nonneg-eq zero c h = ground arith
div_fixed_nonneg-eq (suc a) c h = let positive : 0 < suc a * c = ground arith in ground arith

div_fixed_negative : (a c : ℕ) → div_fixed (negsuc a) (pos c) ≡ sub_ℕ 0 (suc a * unit / c)
unfolding div_fixed
div_fixed_negative a c = ground arith

div_fixed_mono : (x y c : ℤ) → ltb_ℤ (pos 0) c ≡ true → x ≤ℤ y → div_fixed x c ≤ℤ div_fixed y c
div_fixed_mono x y (negsuc c) hc h = absurd (ground arith)
div_fixed_mono (pos a) (negsuc b) (pos c) hc h = absurd (omega arith)
div_fixed_mono (pos a) (pos b) (pos c) hc h =
    let positive : 0 < c = ground arith in
    rw (div_fixed_nonneg-eq a c positive, div_fixed_nonneg-eq b c positive)
      (ground (arith, quotient_mono (a * unit) (b * unit) c))
div_fixed_mono (negsuc a) (pos b) (pos c) hc h =
    let positive : 0 < c = ground arith in
    rw (div_fixed_negative a c, div_fixed_nonneg-eq b c positive) (ground arith)
div_fixed_mono (negsuc a) (negsuc b) (pos c) hc h =
    let positive : 0 < c = ground arith in
    rw (div_fixed_negative a c, div_fixed_negative b c)
      (ground (arith, quotient_mono (suc b * unit) (suc a * unit) c))

whole_fixed_pos : (n : ℕ) → ltb_ℤ (decimal_fixed (pos 0) 0) (decimal_fixed (pos (suc n)) 0) ≡ true
unfolding decimal_fixed
whole_fixed_pos n = ground arith

pub fixed-IsFloat : IsFloat ℤ
unfolding decimal_fixed
fixed-IsFloat = record {
  add_mono = λ x y u v h k. omega int_laws;
  add_nought = λ x. omega int_laws;
  nought_add = λ x. omega int_laws;
  sub-eq-add_minus = λ x y. omega int_laws;
  minus_anti = λ x y h. omega int_laws;
  minus_nought = omega int_laws;
  sub_self = λ x. omega int_laws;
  mul_mono = λ x y c. mul_fixed_mono x y c;
  nought_mul = nought_mul_fixed;
  tiny_nonneg = omega arith;
  minus_tiny_nonpos = omega arith;
  div_nonneg = div_fixed_nonneg;
  whole_pos = whole_fixed_pos;
  mul_comm = mul_fixed_comm;
  mul_anti = mul_fixed_anti;
  div_mono = div_fixed_mono;
}

-- Named on an `unfolding` line, this opens the arithmetic for a test.
unfoldable pub computing : Unit {0}
unfolding ◌+ℤ◌ ◌-ℤ◌ neg_ℤ mul_fixed div_fixed decimal_fixed round_fixed show_fixed
computing = tt
