-- ===== src/Cells/Governor/Score.antt =====
-- The penalties of the score.
use autonomous_quant_tra.Base.{◌≡◌, inl, inr, ℕ, true, arith, Bool-cases}
use autonomous_quant_tra.Int.{pos}
use autonomous_quant_tra.Float.{
  Float, IsFloat, ◌⊕◌, ◌⊖◌, ◌⊗◌, minus, ◌≼◌, ◌<?◌, ◌≤?◌, nought, one, max,
}
use autonomous_quant_tra.Float.Order.{le_refl, le_trans, le_of_lt, lt_of_lt_le, le-add, sub_nonneg}
use autonomous_quant_tra.Cells.Governor.{
  CellAllocationInputs, quality, tail_factor, net_of_cost, score_of, uncertainty_adjusted_score,
}

-- The inputs of a cell that is more correlated with the book, in a deeper drawdown, and in a regime that is
-- trusted less.
abbrev pub worse : {F : Type 0} → F → F → F → CellAllocationInputs F → CellAllocationInputs F
worse correlation drawdown regime i = record i {
  regime_stability = regime;
  correlation_penalty = correlation;
  drawdown = drawdown;
}

module _ {F : Type 0} ⦃fl : Float F⦄ (laws : IsFloat F) where
  open laws use {
    add_mono, sub-eq-add_minus, minus_anti, mul_mono, mul_comm, mul_anti, div_mono, whole_pos,
    nought_mul,
  }

  sub_anti : (x y z : F) → y ≼ z → x ⊖ z ≼ x ⊖ y
  sub_anti x y z h =
      rw (sub-eq-add_minus x z, sub-eq-add_minus x y)
        (add_mono x x (minus z) (minus y) (le_refl x) (minus_anti y z h))

  mul_mono_left : (x y c : F) → nought ≼ c → x ≼ y → c ⊗ x ≼ c ⊗ y
  mul_mono_left x y c hc h = rw (mul_comm c x, mul_comm c y) (mul_mono x y c hc h)

  mul_anti_left : (x y c : F) → c ≼ nought → x ≼ y → c ⊗ y ≼ c ⊗ x
  mul_anti_left x y c hc h = rw (mul_comm c x, mul_comm c y) (mul_anti x y c hc h)

  product_mono : (x x' y y' : F) → x ≼ x' → y ≼ y' → nought ≼ x' → nought ≼ y → x ⊗ y ≼ x' ⊗ y'
  product_mono x x' y y' hx hy x'_nonneg y_nonneg =
      le_trans (x ⊗ y) (x' ⊗ y) (x' ⊗ y') (mul_mono x x' y y_nonneg hx)
        (mul_mono_left y y' x' x'_nonneg hy)

  product_nonneg : (x y : F) → nought ≼ x → nought ≼ y → nought ≼ x ⊗ y
  product_nonneg x y hx hy = rw (nought_mul y) at (mul_mono nought x y hy hx)

  score_of_mono :
      (net q q' tail : F)
      → (nought <? tail) ≡ true
      → q ≼ q'
      → score_of net q tail ≼ score_of net q' tail
  unfolding score_of
  score_of_mono net q q' tail positive h = elim (Bool-cases (nought ≤? net)) [
    | inl gain ↦
        rw gain
          (div_mono (net ⊗ q) (net ⊗ q') tail positive (mul_mono_left q q' net (ground arith) h))
    | inr loss ↦ rw loss (
        mul_mono (net ⊗ (fl.decimal (pos 2) 0 ⊖ q)) (net ⊗ (fl.decimal (pos 2) 0 ⊖ q')) tail
          (le_of_lt nought tail positive)
          (mul_anti_left (fl.decimal (pos 2) 0 ⊖ q') (fl.decimal (pos 2) 0 ⊖ q) net (ground arith)
            (sub_anti (fl.decimal (pos 2) 0) q q' h)))
  ]

  tail_factor_pos : (i : CellAllocationInputs F) → (nought <? tail_factor i) ≡ true
  unfolding tail_factor
  tail_factor_pos i =
      let shortfall = max nought i.tail_risk.expected_shortfall in
      let shortfall_nonneg : nought ≼ max nought i.tail_risk.expected_shortfall = ground arith in
      lt_of_lt_le nought one (one ⊕ max nought i.tail_risk.expected_shortfall) (whole_pos 0)
        (le-add laws one (max nought i.tail_risk.expected_shortfall) shortfall_nonneg)

  quality_worse :
      (correlation drawdown regime : F) (i : CellAllocationInputs F)
      → nought ≼ regime
      → regime ≼ i.regime_stability
      → i.correlation_penalty ≼ correlation
      → correlation ≼ one
      → i.drawdown ≼ drawdown
      → drawdown ≼ one
      → quality (worse correlation drawdown regime i) ≼ quality i
  unfolding quality
  quality_worse correlation drawdown regime i r0 r1 c0 c1 d0 d1 =
      let apart = sub_anti one i.correlation_penalty correlation c0 in
      let steady = sub_anti one i.drawdown drawdown d0 in
      let apart_nonneg = sub_nonneg laws one correlation c1 in
      let steady_nonneg = sub_nonneg laws one drawdown d1 in
      let stable = le_trans nought regime i.regime_stability r0 r1 in
      let apart_before =
        le_trans nought (one ⊖ correlation) (one ⊖ i.correlation_penalty) apart_nonneg apart in
      product_mono (regime ⊗ (one ⊖ correlation))
        (i.regime_stability ⊗ (one ⊖ i.correlation_penalty)) (one ⊖ drawdown) (one ⊖ i.drawdown)
        (product_mono regime i.regime_stability (one ⊖ correlation) (one ⊖ i.correlation_penalty) r1
          apart stable apart_nonneg)
        steady (product_nonneg i.regime_stability (one ⊖ i.correlation_penalty) stable apart_before)
        steady_nonneg

  -- The penalties never help, whichever side of 0 the net edge is on: with a correlation penalty and a drawdown
  -- that are not smaller (each at most 1) and a regime stability that is not larger (at least 0), the score of a
  -- cell is not larger.
  pub score_worse :
      (correlation drawdown regime : F) (i : CellAllocationInputs F) (as_of : ℕ) (threshold : F)
      → nought ≼ regime
      → regime ≼ i.regime_stability
      → i.correlation_penalty ≼ correlation
      → correlation ≼ one
      → i.drawdown ≼ drawdown
      → drawdown ≼ one
      → (uncertainty_adjusted_score (worse correlation drawdown regime i) as_of threshold).value
        ≼ (uncertainty_adjusted_score i as_of threshold).value
  unfolding uncertainty_adjusted_score tail_factor net_of_cost
  score_worse correlation drawdown regime i as_of threshold r0 r1 c0 c1 d0 d1 =
      score_of_mono (net_of_cost i threshold) (quality (worse correlation drawdown regime i))
        (quality i) (tail_factor i) (tail_factor_pos i)
        (quality_worse correlation drawdown regime i r0 r1 c0 c1 d0 d1)
