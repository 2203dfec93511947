-- ===== src/Float/Order.antt =====
-- Comparisons and the facts about rounding that the components use.
use autonomous_quant_tra.Base.{◌≡◌, true, false, arith}
use autonomous_quant_tra.Float.{Float, IsFloat, ◌⊕◌, ◌⊖◌, minus, ◌≼◌, ◌<?◌, nought}

module _ {F : Type 0} ⦃fl : Float F⦄ where
  pub not_lt_of_le : (x y : F) → y ≼ x → (x <? y) ≡ false
  not_lt_of_le x y h = ground arith

  pub le_of_not_lt : (x y : F) → (x <? y) ≡ false → y ≼ x
  le_of_not_lt x y h = ground arith

  pub le_of_lt : (x y : F) → (x <? y) ≡ true → x ≼ y
  le_of_lt x y h = ground arith

  pub lt_of_lt_le : (x y z : F) → (x <? y) ≡ true → y ≼ z → (x <? z) ≡ true
  lt_of_lt_le x y z h k = ground arith

  pub lt_of_le_lt : (x y z : F) → x ≼ y → (y <? z) ≡ true → (x <? z) ≡ true
  lt_of_le_lt x y z h k = ground arith

  pub le_refl : (x : F) → x ≼ x
  le_refl x = omega arith

  pub le_trans : (x y z : F) → x ≼ y → y ≼ z → x ≼ z
  le_trans x y z h k = omega arith

  module _ (laws : IsFloat F) where
    open laws use {
      add_mono, add_nought, nought_add, sub-eq-add_minus, minus_anti, minus_nought, sub_self,
    }

    -- A payment that is not negative does not raise what is left.
    pub sub_le : (x y : F) → nought ≼ y → x ⊖ y ≼ x
    sub_le x y h =
        let step =
          add_mono x x (minus y) nought (le_refl x) (rw minus_nought at (minus_anti nought y h)) in
        rw (sub-eq-add_minus x y) (rw (add_nought x) at step)

    -- Adding what is not negative does not lower a number.
    pub le-add : (x y : F) → nought ≼ y → x ≼ x ⊕ y
    le-add x y h = rw (add_nought x) at (add_mono x x nought y (le_refl x) h)

    pub le-add_left : (x y : F) → nought ≼ x → y ≼ x ⊕ y
    le-add_left x y h = rw (nought_add y) at (add_mono nought x y y h (le_refl y))

    pub sub_nonneg : (x y : F) → y ≼ x → nought ≼ x ⊖ y
    sub_nonneg x y h =
        let step = add_mono x x (minus x) (minus y) (le_refl x) (minus_anti y x h) in
        rw (sub-eq-add_minus x y) (rw (← sub-eq-add_minus x x, sub_self x) at step)
