-- ===== src/Sizing.antt =====
-- Position sizing (services/position_sizing/engine.py), and the stop plans and quotes that it reads
-- (packages/schemas/core.py). Of a proposal and of a stop plan only what sizing reads is kept.
pub mod Caps
use autonomous_quant_tra.Base.{
  ℕ, String, Bool, true, false, ◌&&◌, not, Option, none, some, List, [], ◌∷◌, ◌++◌, if◌then◌else◌,
  string_eq, ◌||◌,
}
use autonomous_quant_tra.Int.{pos}
use autonomous_quant_tra.Dict.{Dict, get_or}
use autonomous_quant_tra.Exec.{Result, ok, err}
use autonomous_quant_tra.Float.{Float, ◌⊕◌, ◌⊖◌, ◌⊗◌, ◌⊘◌, ◌<?◌, ◌≤?◌, nought, one, min, max}
use autonomous_quant_tra.Risk.{RiskConfig}

pub record Quote (F : Type 0) : Type 0 where
  pub symbol : String
  pub ts : ℕ
  pub bid : F
  pub ask : F

pub record StopPlan (F : Type 0) : Type 0 where
  pub entry_price : F
  pub stop_price : F
  pub profit_target : F
  pub gap_risk_score : F

pub record PortfolioContext (F : Type 0) : Type 0 where
  pub equity : F
  pub settled_cash : F
  pub existing_exposure : Dict String F
  pub theme_exposure : Dict String F
  pub symbol_themes : Dict String (List String)
  pub correlation_to_book : F
  pub adv_shares : F
  pub throttle_factor : F

pub record SizedProposal (F : Type 0) : Type 0 where
  pub symbol : String
  pub stop_plan : StopPlan F
  pub qty : F
  pub risk_amount : F
  pub notional : F
  pub calibrated_confidence : F

pub record PositionSizingEngine (F : Type 0) : Type 0 where
  pub last_risk_amount : Option F
  pub last_trade_was_loss : Bool
  pub history : List (String × F × F)

pub data SizingRejected : Type 0 where
  no_distance gap_risk too_small : SizingRejected

module _ {F : Type 0} ⦃fl : Float F⦄ where
  unfoldable pub mid : Quote F → F
  mid q = (q.bid ⊕ q.ask) ⊘ fl.decimal (pos 2) 0

  unfoldable pub spread : Quote F → F
  spread q = q.ask ⊖ q.bid

  -- The validator of `StopPlan`, its fields' bounds included; `none` is a `ValueError`.
  unfoldable pub checked_plan : StopPlan F → Option (StopPlan F)
  checked_plan s =
      if not ((nought <? s.entry_price) && (nought <? s.stop_price) && (nought <? s.profit_target))
      then none
      else if (s.gap_risk_score <? nought) || (one <? s.gap_risk_score)
      then none
      else if s.entry_price ≤? s.stop_price
      then none
      else some s

  unfoldable pub stop_distance : StopPlan F → F
  stop_distance s = s.entry_price ⊖ s.stop_price

  unfoldable pub record_trade_result : F → F → PositionSizingEngine F → PositionSizingEngine F
  record_trade_result realized_pnl risk_amount g = record g {
    last_trade_was_loss = realized_pnl <? nought;
    last_risk_amount = some risk_amount;
  }

  unfoldable pub risk_budget : RiskConfig F → PortfolioContext F → F → F
  risk_budget cfg ctx confidence =
      ctx.equity
      ⊗ cfg.per_trade_risk_budget_pct
      ⊗ ctx.throttle_factor
      ⊗ max (fl.decimal (pos 25) 2) (min one confidence)

  -- After a loss no more is risked than the last time.
  unfoldable pub capped_risk : Bool → Option F → F → F
  capped_risk lost none risk_amount = risk_amount
  capped_risk lost (some last) risk_amount =
      if lost && (last <? risk_amount) then last else risk_amount

  unfoldable pub theme_caps : PortfolioContext F → F → List String → F → F
  theme_caps ctx ceiling [] max_notional = max_notional
  theme_caps ctx ceiling (theme ∷ themes) max_notional =
      theme_caps ctx ceiling themes
        (min max_notional (max nought (ceiling ⊖ get_or theme nought ctx.theme_exposure)))

  -- The caps on the position, the cash, the liquidity and the themes.
  unfoldable pub notional_cap : RiskConfig F → PortfolioContext F → String → F → F
  notional_cap cfg ctx symbol entry =
      let already_held = get_or symbol nought ctx.existing_exposure in
      let room = max nought (ctx.equity ⊗ cfg.max_position_pct ⊖ already_held) in
      let liquid = ctx.adv_shares ⊗ cfg.max_adv_participation ⊗ entry in
      theme_caps ctx (ctx.equity ⊗ cfg.max_theme_exposure_pct) (get_or symbol [] ctx.symbol_themes)
        (min (min room ctx.settled_cash) liquid)

  unfoldable pub penalized_cap : RiskConfig F → PortfolioContext F → String → F → F
  penalized_cap cfg ctx symbol entry =
      let ceiling = notional_cap cfg ctx symbol entry in
      if cfg.correlation_penalty_threshold <? ctx.correlation_to_book
      then ceiling ⊗ cfg.correlation_penalty_factor
      else ceiling

  -- The quantity under the cap, after the spread, and cut to four places.
  unfoldable pub final_qty : F → F → F → Quote F → F
  final_qty qty entry max_notional quote =
      let capped = if max_notional <? qty ⊗ entry then max_notional ⊘ entry else qty in
      let wide = fl.decimal (pos 1) 2 <? spread quote ⊘ mid quote in
      let halved = if wide then capped ⊗ fl.decimal (pos 5) 1 else capped in
      fl.truncate (halved ⊗ fl.decimal (pos 10_000) 0) ⊘ fl.decimal (pos 10_000) 0

  unfoldable pub accept :
      String
      → StopPlan F
      → F
      → F
      → PositionSizingEngine F
      → Result SizingRejected (SizedProposal F) × PositionSizingEngine F
  accept symbol stop confidence qty g =
      let notional = qty ⊗ stop.entry_price in
      let actual_risk = qty ⊗ stop_distance stop in
      if (qty ≤? nought) || (notional <? one) then (err too_small, g) else (
        ok (record {
          symbol = symbol;
          stop_plan = stop;
          qty = qty;
          risk_amount = fl.round actual_risk 6;
          notional = fl.round notional 6;
          calibrated_confidence = confidence;
        }),
        record g { history = g.history ++ (symbol, qty, actual_risk) ∷ [] },
      )

  unfoldable pub size :
      RiskConfig F
      → String
      → StopPlan F
      → Quote F
      → PortfolioContext F
      → F
      → PositionSizingEngine F
      → Result SizingRejected (SizedProposal F) × PositionSizingEngine F
  size cfg symbol stop quote ctx confidence g =
      let risk_amount =
        capped_risk g.last_trade_was_loss g.last_risk_amount (risk_budget cfg ctx confidence) in
      let qty = risk_amount ⊘ stop_distance stop in
      let max_notional = penalized_cap cfg ctx symbol stop.entry_price in
      if stop_distance stop ≤? nought
      then (err no_distance, g)
      else if cfg.max_gap_risk_score <? stop.gap_risk_score
      then (err gap_risk, g)
      else accept symbol stop confidence (final_qty qty stop.entry_price max_notional quote) g
