-- ===== src/Risk/Config.antt =====
-- The configuration's limits, and the drawdown ladder.
use autonomous_quant_tra.Base.{
  ℕ, ◌≤◌, ◌≡◌, refl, String, false, Option, some, List, [], ◌∷◌, All, arith,
}
use autonomous_quant_tra.Float.{Float, IsFloat, ◌⊕◌, ◌⊗◌, ◌⊘◌, ◌≼◌, nought, one, tiny}
use autonomous_quant_tra.Float.Order.{le_refl}
use autonomous_quant_tra.Schema.{buy}
use autonomous_quant_tra.Approval.{Crypto, OrderIntent, RiskApproval}
use autonomous_quant_tra.Risk.{
  RiskConfig, PortfolioRiskView, MasterRiskController, approved, SessionStatus, ThrottleLevel,
  no_throttle, reduced_size, no_new_entry, review_safe_mode, parameters, any_negative,
  checked_config, throttle_level,
}
use autonomous_quant_tra.Risk.Review.{reference_price}
use autonomous_quant_tra.Risk.Gate.{reviewed, approved-EntryIsSafe}

abbrev pub severity : ThrottleLevel → ℕ
severity no_throttle = 0
severity reduced_size = 1
severity no_new_entry = 2
severity review_safe_mode = 3

module _ {F : Type 0} ⦃fl : Float F⦄ where
  -- A deeper drawdown is never throttled less, whatever the thresholds.
  pub throttle_level_mono :
      (d d' : F) (cfg : RiskConfig F)
      → d ≼ d'
      → severity (throttle_level d cfg) ≤ severity (throttle_level d' cfg)
  unfolding throttle_level
  throttle_level_mono d d' cfg h = ground arith

  none_negative : (vs : List F) → any_negative vs ≡ false → All (λ v. nought ≼ v) vs
  unfolding any_negative
  none_negative [] h = tt
  none_negative (v ∷ vs) h = (ground arith, none_negative vs (ground arith))

  -- A configuration that is accepted is the one given; it allows no leverage above 1 and no exposure
  -- above 100%, and none of its values is negative.
  pub checked_config_limits :
      (cfg : RiskConfig F) {cfg' : RiskConfig F}
      → checked_config cfg ≡ some cfg'
      → (cfg' ≡ cfg)
        × (cfg'.max_leverage ≼ one)
        × (cfg'.max_total_exposure_pct ≼ one)
        × All (λ v. nought ≼ v) (parameters cfg')
  unfolding checked_config
  checked_config_limits cfg {cfg'} e =
      let clean : any_negative (parameters cfg) ≡ false = ground arith in
      let same : cfg' ≡ cfg = ground arith in
      rw same (refl, ground arith, ground arith, none_negative (parameters cfg) clean)

  -- Under an accepted configuration no approved BUY levers the account: the exposure with the order is
  -- at most 1 + 1e-9 of the equity.
  pub approved_entry_is_unlevered :
      (crypto : Crypto) (given cfg : RiskConfig F) (session : SessionStatus) (now : ℕ)
      (approval_id : String) (i : OrderIntent F) (view : PortfolioRiskView F)
      (entry_price : Option F) (c : MasterRiskController F) {a : RiskApproval F}
      → IsFloat F
      → checked_config given ≡ some cfg
      → i.side ≡ buy
      → (reviewed crypto cfg session now approval_id i view entry_price c).0 ≡ approved a
      → (view.total_exposure_notional ⊕ i.qty ⊗ reference_price i entry_price) ⊘ view.equity
        ≼ one ⊕ tiny
  approved_entry_is_unlevered crypto given cfg session now approval_id i view entry_price c laws
        limits side e =
      let safe =
        approved-EntryIsSafe crypto cfg session now approval_id i view entry_price c side e in
      let cap =
        laws.add_mono cfg.max_leverage one tiny tiny (checked_config_limits given limits).1
          (le_refl {F = F} tiny) in
      let lever = safe.unlevered in omega arith
