-- ===== src/Risk/Review.antt =====
-- `MasterRiskController.review`: every order intent passes all checks or is rejected. The session
-- status is the calendar's at the instant `now`, and `approval_id` a fresh UUID. The checks' detail
-- texts are left out; a rejection's reasons are the failed checks' names.
use autonomous_quant_tra.Base.{
  ℕ, String, Bool, true, false, not, ◌&&◌, ◌||◌, Option, none, some, List, [], ◌∷◌, ◌++◌, map, keep,
  contains, ◌==◌, string_eq, if◌then◌else◌,
}
use autonomous_quant_tra.Text.{concat}
use autonomous_quant_tra.Dict.{Dict, get_or}
use autonomous_quant_tra.Float.{Float, ◌⊕◌, ◌⊗◌, ◌⊘◌, ◌<?◌, ◌≤?◌, truthy, nought, tiny, abs}
use autonomous_quant_tra.Schema.{Action, buy, sell, action_eq}
use autonomous_quant_tra.Approval.{
  Crypto, OrderIntent, RiskCheck, RiskState, RiskApproval, RiskRejection, order_intent_hash,
  side_text,
}
use autonomous_quant_tra.Risk.{
  RiskConfig, PortfolioRiskView, MasterRiskController, Decision, approved, rejected, SessionStatus,
  open_session, closed, halted, DataHealth, healthy, degraded, halt_entries, throttle_level,
  entry_allowed_by_state, exit_allowed_by_state,
}

abbrev pub check : String → Bool → RiskCheck
check name passed = record { name = name; passed = passed }

abbrev pub is_open : SessionStatus → Bool
is_open open_session = true
is_open closed = false
is_open halted = false

abbrev pub is_halted : SessionStatus → Bool
is_halted open_session = false
is_halted closed = false
is_halted halted = true

abbrev pub entries_halted : DataHealth → Bool
entries_halted healthy = false
entries_halted degraded = false
entries_halted halt_entries = true

abbrev pub failed : List RiskCheck → List RiskCheck
failed = keep λ c. not c.passed

module _ {F : Type 0} ⦃fl : Float F⦄ where
  -- `a or b or … or 0.0`
  abbrev pub first_price : List (Option F) → F
  first_price [] = nought
  first_price (none ∷ ps) = first_price ps
  first_price (some p ∷ ps) = if truthy p then p else first_price ps

  unfoldable pub reference_price : OrderIntent F → Option F → F
  reference_price i entry_price = first_price (entry_price ∷ i.limit_price ∷ i.stop_price ∷ [])

  abbrev pub is_buy : OrderIntent F → Bool
  is_buy i = i.side == buy

  abbrev pub is_exit : OrderIntent F → Bool
  is_exit i = (i.side == sell) && i.is_protective_exit

  unfoldable pub themes_ok : List String → Dict String F → F → F → Bool
  themes_ok [] exposure order_value cap = true
  themes_ok (theme ∷ themes) exposure order_value cap =
      not (cap ⊕ tiny <? get_or theme nought exposure ⊕ order_value)
      && themes_ok themes exposure order_value cap

  module _ (cfg : RiskConfig F) (i : OrderIntent F) (view : PortfolioRiskView F) where
    unfoldable pub leverage_ok : F → Bool
    leverage_ok order_value =
        (nought <? view.equity)
        && ((view.total_exposure_notional ⊕ order_value) ⊘ view.equity ≤? cfg.max_leverage ⊕ tiny)

    unfoldable pub exposure_ok : F → Bool
    exposure_ok order_value =
        view.total_exposure_notional ⊕ order_value
        ≤? view.equity ⊗ cfg.max_total_exposure_pct ⊗ cfg.exposure_cap_stage ⊕ tiny

    unfoldable pub concentration_ok : F → Bool
    concentration_ok order_value =
        themes_ok (get_or i.symbol [] view.symbol_themes) view.theme_exposure order_value
          (view.equity ⊗ cfg.max_theme_exposure_pct)

    -- The checks on price, state, size and funds.
    abbrev pub money_checks : RiskState → F → List RiskCheck
    money_checks state px =
        let order_value = i.qty ⊗ px in
        check "priceable_order" (not (is_buy i && (px ≤? nought)))
        ∷ check "risk_state" (
            if is_exit i
            then exit_allowed_by_state state
            else entry_allowed_by_state state (throttle_level view.drawdown cfg))
        ∷ check "leverage" (not (is_buy i) || leverage_ok order_value)
        ∷ (if is_buy i
            then check "cash_settled" (order_value ≤? view.settled_cash ⊕ tiny)
            else check "no_short" (i.qty ≤? get_or i.symbol nought view.position_qty ⊕ tiny))
        ∷ check "total_exposure" (not (is_buy i) || exposure_ok order_value)
        ∷ check "position_size"
            (not (is_buy i) || (order_value ≤? view.equity ⊗ cfg.max_position_pct ⊕ tiny))
        ∷ check "liquidity"
            (not (is_buy i) || (i.qty ≤? view.adv_shares ⊗ cfg.max_adv_participation ⊕ tiny))
        ∷ []

    -- The checks on the stop, the market, the data and the order's identity.
    abbrev pub context_checks : SessionStatus → F → List RiskCheck
    context_checks session px =
        check "stop_exists" (is_exit i || view.stop_plan_exists)
        ∷ check "theme_concentration" (not (is_buy i) || concentration_ok (i.qty ⊗ px))
        ∷ check "gap_risk" (is_exit i || (view.gap_risk_score ≤? cfg.max_gap_risk_score))
        ∷ check "broker_connected" view.broker_connected
        ∷ check "reconciliation" (is_exit i || view.reconciliation_ok)
        ∷ check "market_open" (is_open session || (is_exit i && not (is_halted session)))
        ∷ check "data_health" (is_exit i || not (entries_halted view.data_health))
        ∷ check "no_margin" (abs view.margin_requirement ≤? tiny)
        ∷ check "duplicate_order" (not (contains i.client_order_id view.known_client_order_ids))
        ∷ check "stale_order" (is_exit i || (view.signal_age_sec ≤? cfg.stale_order_after_sec))
        ∷ check "spread" (is_exit i || (view.spread_pct ≤? cfg.max_spread_pct))
        ∷ []

    unfoldable pub all_checks : RiskState → SessionStatus → F → List RiskCheck
    all_checks state session px = money_checks state px ++ context_checks session px

  module _ (crypto : Crypto) where
    abbrev pub message : String → String → String → Action → F → String → String
    message approval_id cid symbol side qty intent_hash = concat (
        approval_id
        ∷ "|"
        ∷ cid
        ∷ "|"
        ∷ symbol
        ∷ "|"
        ∷ side_text side
        ∷ "|"
        ∷ fl.repr qty
        ∷ "|"
        ∷ intent_hash
        ∷ [])

    unfoldable pub sign : OrderIntent F → String → String → String
    sign i approval_id intent_hash =
        crypto.hmac (message approval_id i.client_order_id i.symbol i.side i.qty intent_hash)

    unfoldable pub verify_signature : RiskApproval F → Bool
    verify_signature a =
        crypto.hmac (message a.approval_id a.client_order_id a.symbol a.side a.qty a.intent_hash)
        == a.signature

    abbrev pub log_decision : Decision F → MasterRiskController F → MasterRiskController F
    log_decision d c = record c { decisions_log = c.decisions_log ++ d ∷ [] }

    unfoldable pub approval_of :
        OrderIntent F → RiskState → ℕ → String → List RiskCheck → RiskApproval F
    unfolding sign
    approval_of i state now approval_id checks =
        let intent_hash = order_intent_hash crypto i none "DAY" in
        record {
          approval_id = approval_id;
          client_order_id = i.client_order_id;
          symbol = i.symbol;
          side = i.side;
          qty = i.qty;
          intent_hash = intent_hash;
          checks = checks;
          risk_state = state;
          approved_at = now;
          signature = sign i approval_id intent_hash;
        }

    abbrev pub rejection_of : OrderIntent F → ℕ → List RiskCheck → RiskRejection
    rejection_of i now checks = record {
      client_order_id = i.client_order_id;
      checks = checks;
      reasons = map (λ c. c.name) (failed checks);
      rejected_at = now;
    }

    abbrev pub decide :
        List RiskCheck → OrderIntent F → RiskState → ℕ → String → List RiskCheck → Decision F
    decide [] i state now approval_id checks = approved (approval_of i state now approval_id checks)
    decide (c ∷ cs) i state now approval_id checks = rejected (rejection_of i now checks)

    unfoldable pub review :
        RiskConfig F
        → SessionStatus
        → ℕ
        → String
        → OrderIntent F
        → PortfolioRiskView F
        → Option F
        → MasterRiskController F
        → Decision F × MasterRiskController F
    review cfg session now approval_id i view entry_price c =
        let checks = all_checks cfg i view c.state session (reference_price i entry_price) in
        let d = decide (failed checks) i c.state now approval_id checks in (d, log_decision d c)
