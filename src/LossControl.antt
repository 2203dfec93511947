-- ===== src/LossControl.antt =====
-- The loss control engine (services/loss_control/engine.py), with the average true range
-- (services/market_data/service.py) that its stops are set by.
pub mod Plan
use autonomous_quant_tra.Base.{
  ℕ, String, zero, suc, Bool, true, false, not, ◌&&◌, Option, none, some, List, [], ◌∷◌, length,
  drop, if◌then◌else◌, ltb,
}
use Prim.Native.Nat.{◌-◌}
use autonomous_quant_tra.Int.{pos}
use autonomous_quant_tra.Exec.{Result, ok, err}
use autonomous_quant_tra.Float.{Float, ◌⊕◌, ◌⊖◌, ◌⊗◌, ◌⊘◌, ◌<?◌, ◌≤?◌, nought, max, abs, sum}
use autonomous_quant_tra.Sizing.{StopPlan, checked_plan}

-- What the components read of a bar.
pub record Bar (F : Type 0) : Type 0 where
  pub symbol : String
  pub ts : ℕ
  pub open_price : F
  pub high : F
  pub low : F
  pub close : F
  pub volume : ℕ

pub record LossControlEngine (F : Type 0) : Type 0 where
  pub atr_multiple : F
  pub max_stop_distance_pct : F
  pub profit_target_rr : F

-- The reasons of a NoStopPlanError, and the ValueError of the schema.
pub data PlanError : Type 0 where
  invalid_entry no_atr stop_below_zero too_far invalid_plan : PlanError

module _ {F : Type 0} ⦃fl : Float F⦄ where
  unfoldable pub ohlc_sane : Bar F → Bool
  ohlc_sane b =
      (b.low ≤? b.open_price)
      && (b.open_price ≤? b.high)
      && (b.low ≤? b.close)
      && (b.close ≤? b.high)

  unfoldable pub true_ranges : Bar F → List (Bar F) → List F
  true_ranges prev [] = []
  true_ranges prev (cur ∷ bars) =
      max (max (cur.high ⊖ cur.low) (abs (cur.high ⊖ prev.close))) (abs (cur.low ⊖ prev.close))
      ∷ true_ranges cur bars

  -- `sum(trs[-14:]) / len(trs[-14:])`, and `none` (a ValueError) for fewer than two bars
  unfoldable pub atr : List (Bar F) → Option F
  atr [] = none
  atr (b ∷ []) = none
  atr (b ∷ c ∷ bars) =
      let trs = true_ranges b (c ∷ bars) in
      let window = drop (length trs - 14) trs in
      some (sum window ⊘ fl.decimal (pos (length window)) 0)

  unfoldable pub stop_at : LossControlEngine F → F → F → F → Result PlanError (StopPlan F)
  stop_at g entry_price gap_risk_score a =
      let stop_price = entry_price ⊖ g.atr_multiple ⊗ a in
      let distance_pct = (entry_price ⊖ stop_price) ⊘ entry_price in
      let checked = checked_plan (record {
        entry_price = fl.round entry_price 6;
        stop_price = fl.round stop_price 6;
        profit_target = fl.round (entry_price ⊕ g.profit_target_rr ⊗ (entry_price ⊖ stop_price)) 6;
        gap_risk_score = gap_risk_score;
      }) in
      if stop_price ≤? nought
      then err stop_below_zero
      else if g.max_stop_distance_pct <? distance_pct
      then err too_far
      else elim checked [ none ↦ err invalid_plan | some p ↦ ok p ]

  unfoldable pub plan : LossControlEngine F → List (Bar F) → F → F → Result PlanError (StopPlan F)
  plan g bars entry_price gap_risk_score =
      if entry_price ≤? nought
      then err invalid_entry
      else elim (atr bars) [ none ↦ err no_atr | some a ↦ stop_at g entry_price gap_risk_score a ]
