-- ===== src/Tests/Control.antt =====
-- Approvals and the risk controller.
use autonomous_quant_tra.Base.{
  ◌≡◌, refl, inl, Bool, true, false, none, some, [], ◌∷◌, ◌++◌, string_eq, All, arith,
}
use autonomous_quant_tra.Int.{ℤ}
use autonomous_quant_tra.Dict.{lookup}
use autonomous_quant_tra.Schema.{buy, sell, market, paper, Action, action_eq, type_eq}
use autonomous_quant_tra.Float.Fixed.{fixed_float, computing}
use autonomous_quant_tra.Approval.{
  Crypto, OrderIntent, RiskApproval, RiskApprovedOrder, normal, safe_exit, order_intent_hash,
}
use autonomous_quant_tra.Risk.{
  RiskConfig, PortfolioRiskView, MasterRiskController, approved, open_session, healthy,
  halt_entries, closed, throttle_level, checked_config, entry_allowed_by_state,
}
use autonomous_quant_tra.Risk.Review.{
  reference_price, all_checks, review, leverage_ok, exposure_ok, concentration_ok, themes_ok,
  approval_of, verify_signature,
}
use autonomous_quant_tra.Risk.Gate.{
  reviewed, Passed, approval_answers, EntryIsSafe, approved-EntryIsSafe,
}
use autonomous_quant_tra.Risk.Exits.{IsApproved, IsRejected, exit_is_approved, blocked_is_rejected}
use autonomous_quant_tra.Tests.{whole, micro}

-- Hashes that are the text itself.
abbrev pub plain : Crypto
plain = record { sha256 = λ s. s; hmac = λ s. s }

abbrev order : Action → Bool → OrderIntent ℤ
order side exits = record {
  client_order_id = "c1";
  proposal_id = "p1";
  symbol = "AAPL";
  side = side;
  qty = whole 2;
  order_type = market;
  limit_price = none;
  stop_price = none;
  environment = paper;
  is_protective_exit = exits;
  created_at = 7;
}

abbrev pub limits : RiskConfig ℤ
limits = record {
  per_trade_risk_budget_pct = micro 10_000;
  max_position_pct = micro 100_000;
  max_theme_exposure_pct = micro 250_000;
  max_adv_participation = micro 10_000;
  correlation_penalty_threshold = micro 700_000;
  correlation_penalty_factor = micro 500_000;
  max_total_exposure_pct = micro 1_000_000;
  max_leverage = micro 1_000_000;
  dd_reduced_size_at = micro 50_000;
  dd_no_new_entry_at = micro 80_000;
  dd_safe_mode_at = micro 100_000;
  reduced_size_factor = micro 500_000;
  max_gap_risk_score = micro 800_000;
  max_spread_pct = micro 10_000;
  stale_order_after_sec = whole 300;
  exposure_cap_stage = micro 1_000_000;
}

abbrev book : PortfolioRiskView ℤ
book = record {
  equity = whole 10_000;
  settled_cash = whole 5_000;
  total_exposure_notional = whole 1_000;
  position_notional = [];
  position_qty = ("AAPL", whole 10) ∷ [];
  theme_exposure = [];
  symbol_themes = [];
  drawdown = whole 0;
  stop_plan_exists = true;
  gap_risk_score = whole 0;
  adv_shares = whole 1_000_000;
  correlation_to_book = whole 0;
  reconciliation_ok = true;
  data_health = healthy;
  broker_connected = true;
  spread_pct = whole 0;
  known_client_order_ids = "c0" ∷ [];
  signal_age_sec = whole 0;
  margin_requirement = whole 0;
}

abbrev pub controller : MasterRiskController ℤ
controller = record { state = normal; decisions_log = [] }

abbrev stopped : MasterRiskController ℤ
stopped = record { state = safe_exit; decisions_log = [] }

abbrev pub purchase : OrderIntent ℤ
purchase = order buy false

abbrev pub given : RiskApproval ℤ
given = approval_of plain purchase normal 9 "a1" (
    all_checks limits purchase book normal open_session
      (reference_price purchase (some (whole 50))))

purchase_is_approved :
    (reviewed plain limits open_session 9 "a1" purchase book (some (whole 50)) controller).0
    ≡ approved given
unfolding computing review all_checks reference_price leverage_ok exposure_ok concentration_ok
    themes_ok throttle_level entry_allowed_by_state lookup
purchase_is_approved = refl

approval_answers_example :
    (given.client_order_id ≡ "c1")
    × (given.symbol ≡ "AAPL")
    × (given.side ≡ buy)
    × (given.qty ≡ whole 2)
    × (given.intent_hash ≡ order_intent_hash plain purchase none "DAY")
    × (verify_signature plain given ≡ true)
    × All Passed given.checks
    × ((reviewed plain limits open_session 9 "a1" purchase book
          (some (whole 50))
          controller).1.decisions_log
        ≡ [] ++ approved given ∷ [])
approval_answers_example =
    approval_answers plain limits open_session 9 "a1" purchase book (some (whole 50)) controller
      purchase_is_approved

approved-EntryIsSafe_example :
    EntryIsSafe plain limits open_session 9 "a1" purchase book
      (some (whole 50))
      controller
      (reference_price purchase (some (whole 50)))
approved-EntryIsSafe_example =
    approved-EntryIsSafe plain limits open_session 9 "a1" purchase book (some (whole 50)) controller
      refl purchase_is_approved

-- Everything that an entry would need is missing.
abbrev storm : PortfolioRiskView ℤ
storm = record book {
  drawdown = micro 300_000;
  reconciliation_ok = false;
  data_health = halt_entries;
  stop_plan_exists = false;
}

exit_is_approved_example :
    IsApproved plain limits closed 9 "a1" (order sell true) storm none stopped
unfolding computing lookup
exit_is_approved_example =
    exit_is_approved plain limits closed 9 "a1" (order sell true) storm none stopped refl refl
      (λ e. ground arith) (omega arith) refl (λ e. ground arith) (omega arith) refl

blocked_is_rejected_example :
    IsRejected plain limits open_session 9 "a1" (order sell false) book none stopped
blocked_is_rejected_example =
    blocked_is_rejected plain limits open_session 9 "a1" (order sell false) book none stopped
      (inl (λ e. ground arith, refl))

limits_are_accepted : checked_config limits ≡ some limits
unfolding computing checked_config
limits_are_accepted = refl

abbrev pub sent : RiskApprovedOrder ℤ
sent = record { intent = purchase; approval = given }
