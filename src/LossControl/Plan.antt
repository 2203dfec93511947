-- ===== src/LossControl/Plan.antt =====
-- What a stop plan guarantees.
use autonomous_quant_tra.Base.{◌≡◌, true, some, List, arith, Option-cases, inl, inr}
use autonomous_quant_tra.Exec.{ok}
use autonomous_quant_tra.Float.{Float, ◌⊕◌, ◌⊖◌, ◌⊗◌, ◌⊘◌, ◌≼◌, ◌<?◌, nought, one}
use autonomous_quant_tra.Sizing.{StopPlan, checked_plan}
use autonomous_quant_tra.LossControl.{Bar, LossControlEngine, atr, stop_at, plan}

module _ {F : Type 0} ⦃fl : Float F⦄ where
  -- A plan that passes the schema's checks.
  pub record IsPlan (p : StopPlan F) : Type 0 where
    pub entry_positive : (nought <? p.entry_price) ≡ true
    pub stop_positive : (nought <? p.stop_price) ≡ true
    pub target_positive : (nought <? p.profit_target) ≡ true
    pub below : (p.stop_price <? p.entry_price) ≡ true
    pub bounded : (nought ≼ p.gap_risk_score) × (p.gap_risk_score ≼ one)

  checked_plan-IsPlan : (p q : StopPlan F) → checked_plan p ≡ some q → (q ≡ p) × IsPlan p
  unfolding checked_plan
  checked_plan-IsPlan p q h = (
    ground arith,
    record {
      entry_positive = ground arith;
      stop_positive = ground arith;
      target_positive = ground arith;
      below = ground arith;
      bounded = (ground arith, ground arith);
    },
  )

  module _ (g : LossControlEngine F) (entry_price gap_risk_score : F) where
    stop_at-IsPlan :
        (a : F) (p : StopPlan F)
        → stop_at g entry_price gap_risk_score a ≡ ok p
        → IsPlan p
          × ((entry_price ⊖ (entry_price ⊖ g.atr_multiple ⊗ a)) ⊘ entry_price
              ≼ g.max_stop_distance_pct)
    unfolding stop_at
    stop_at-IsPlan a p h =
        let stop_price = entry_price ⊖ g.atr_multiple ⊗ a in
        let draft : StopPlan F = record {
          entry_price = fl.round entry_price 6;
          stop_price = fl.round stop_price 6;
          profit_target =
              fl.round (entry_price ⊕ g.profit_target_rr ⊗ (entry_price ⊖ stop_price)) 6;
          gap_risk_score = gap_risk_score;
        } in
        let passed : checked_plan draft ≡ some p = ground arith in
        let (same, good) = checked_plan-IsPlan draft p passed in (rw same good, ground arith)

    -- A plan that the engine returns has a positive entry, stop and target, the stop below the entry and a gap
    -- risk between 0 and 1; the average true range was known, and the stop's distance before rounding was
    -- within the limit.
    pub plan-IsPlan :
        (bars : List (Bar F)) (p : StopPlan F)
        → plan g bars entry_price gap_risk_score ≡ ok p
        → IsPlan p
          × ((a : F) × (atr bars ≡ some a)
              × ((entry_price ⊖ (entry_price ⊖ g.atr_multiple ⊗ a)) ⊘ entry_price
                  ≼ g.max_stop_distance_pct))
    unfolding plan
    plan-IsPlan bars p h = elim (Option-cases (atr bars)) [
      | inl missing ↦ absurd (ground arith)
      | inr (a, known) ↦
          let (good, near) = stop_at-IsPlan a p (ground arith) in (good, (a, known, near))
    ]
