-- ===== src/Risk.antt =====
-- The master risk controller (services/risk/master_controller.py) and its configuration
-- (packages/common/risk_config.py).
pub mod Gate
pub mod Exits
pub mod Config
pub mod Review
use autonomous_quant_tra.Base.{
  ℕ, String, Bool, true, false, not, ◌&&◌, ◌||◌, Option, none, some, List, [], ◌∷◌, ◌++◌, map, keep,
  contains, ◌==◌, string_eq, if◌then◌else◌,
}
use autonomous_quant_tra.Int.{pos}
use autonomous_quant_tra.Text.{concat}
use autonomous_quant_tra.Dict.{Dict, get_or}
use autonomous_quant_tra.Float.{
  Float, ◌⊕◌, ◌⊖◌, ◌⊗◌, ◌⊘◌, ◌<?◌, ◌≤?◌, truthy, nought, one, tiny, abs,
}
use autonomous_quant_tra.Schema.{Action, buy, sell, action_eq}
use autonomous_quant_tra.Approval.{
  Crypto, OrderIntent, RiskCheck, RiskState, normal, halt_new_entries, safe_exit,
  full_broker_disconnect, RiskApproval, RiskRejection, order_intent_hash, side_text,
}

-- `version`, a text that nothing reads, is left out.
pub record RiskConfig (F : Type 0) : Type 0 where
  pub per_trade_risk_budget_pct : F
  pub max_position_pct : F
  pub max_theme_exposure_pct : F
  pub max_adv_participation : F
  pub correlation_penalty_threshold : F
  pub correlation_penalty_factor : F
  pub max_total_exposure_pct : F
  pub max_leverage : F
  pub dd_reduced_size_at : F
  pub dd_no_new_entry_at : F
  pub dd_safe_mode_at : F
  pub reduced_size_factor : F
  pub max_gap_risk_score : F
  pub max_spread_pct : F
  pub stale_order_after_sec : F
  pub exposure_cap_stage : F

pub data ThrottleLevel : Type 0 where
  no_throttle reduced_size no_new_entry review_safe_mode : ThrottleLevel

pub data DataHealth : Type 0 where
  healthy degraded halt_entries : DataHealth

pub data SessionStatus : Type 0 where
  open_session closed halted : SessionStatus

pub record PortfolioRiskView (F : Type 0) : Type 0 where
  pub equity : F
  pub settled_cash : F
  pub total_exposure_notional : F
  pub position_notional : Dict String F
  pub position_qty : Dict String F
  pub theme_exposure : Dict String F
  pub symbol_themes : Dict String (List String)
  pub drawdown : F
  pub stop_plan_exists : Bool
  pub gap_risk_score : F
  pub adv_shares : F
  pub correlation_to_book : F
  pub reconciliation_ok : Bool
  pub data_health : DataHealth
  pub broker_connected : Bool
  pub spread_pct : F
  pub known_client_order_ids : List String
  pub signal_age_sec : F
  pub margin_requirement : F

-- What `review` appends to `decisions_log`, and returns.
pub data Decision (F : Type 0) : Type 0 where
  approved : RiskApproval F → Decision F
  rejected : RiskRejection → Decision F

-- The parts of the controller that change; its configuration and its key are parameters.
pub record MasterRiskController (F : Type 0) : Type 0 where
  pub state : RiskState
  pub decisions_log : List (Decision F)

module _ {F : Type 0} ⦃fl : Float F⦄ where
  -- `RiskConfig.__post_init__`: the values of which none may be negative.
  abbrev pub parameters : RiskConfig F → List F
  parameters cfg =
      cfg.per_trade_risk_budget_pct ∷ cfg.max_position_pct ∷ cfg.max_theme_exposure_pct
      ∷ cfg.max_adv_participation ∷ cfg.correlation_penalty_threshold
      ∷ cfg.correlation_penalty_factor ∷ cfg.max_total_exposure_pct ∷ cfg.max_leverage
      ∷ cfg.dd_reduced_size_at ∷ cfg.dd_no_new_entry_at ∷ cfg.dd_safe_mode_at
      ∷ cfg.reduced_size_factor ∷ cfg.max_gap_risk_score ∷ cfg.max_spread_pct
      ∷ cfg.stale_order_after_sec ∷ cfg.exposure_cap_stage ∷ []

  any_negative : List F → Bool
  any_negative [] = false
  any_negative (v ∷ vs) = (v <? nought) || any_negative vs

  -- `none` is a `ValueError`. Every field holds a float, as it is annotated; the source does not look at an int.
  unfoldable pub checked_config : RiskConfig F → Option (RiskConfig F)
  unfolding any_negative
  checked_config cfg =
      if one <? cfg.max_leverage
      then none
      else if one <? cfg.max_total_exposure_pct
      then none
      else if any_negative (parameters cfg)
      then none
      else some cfg

  unfoldable pub throttle_level : F → RiskConfig F → ThrottleLevel
  throttle_level drawdown cfg =
      if cfg.dd_safe_mode_at ≤? drawdown
      then review_safe_mode
      else if cfg.dd_no_new_entry_at ≤? drawdown
      then no_new_entry
      else if cfg.dd_reduced_size_at ≤? drawdown
      then reduced_size
      else no_throttle

  unfoldable pub throttle_factor : ThrottleLevel → RiskConfig F → F
  throttle_factor reduced_size cfg = cfg.reduced_size_factor
  throttle_factor _ cfg = one

unfoldable pub entry_allowed_by_state : RiskState → ThrottleLevel → Bool
entry_allowed_by_state full_broker_disconnect _ = false
entry_allowed_by_state halt_new_entries _ = false
entry_allowed_by_state safe_exit _ = false
entry_allowed_by_state normal no_new_entry = false
entry_allowed_by_state normal review_safe_mode = false
entry_allowed_by_state normal _ = true

unfoldable pub exit_allowed_by_state : RiskState → Bool
exit_allowed_by_state full_broker_disconnect = false
exit_allowed_by_state _ = true

unfoldable pub set_state :
    {F : Type 0} → RiskState → MasterRiskController F → MasterRiskController F
set_state state c = record c { state = state }
