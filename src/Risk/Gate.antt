-- ===== src/Risk/Gate.antt =====
-- What an approval of the controller guarantees.
use autonomous_quant_tra.Base.{
  ℕ, ◌≡◌, refl, ap, ◌∙◌, inl, inr, String, true, false, Option, none, List, [], ◌∷◌, ◌++◌, All,
  contains, arith, eq_iff, string_eq, Bool-cases,
}
use autonomous_quant_tra.Float.{Float, ◌⊕◌, ◌⊗◌, ◌⊘◌, ◌≼◌, ◌<?◌, ◌≤?◌, nought, tiny, abs}
use autonomous_quant_tra.Schema.{buy, action_eq}
use autonomous_quant_tra.Approval.{
  Crypto, OrderIntent, RiskCheck, normal, RiskApproval, order_intent_hash,
}
use autonomous_quant_tra.Risk.{
  RiskConfig, PortfolioRiskView, MasterRiskController, Decision, approved, SessionStatus,
  open_session, throttle_level, entry_allowed_by_state,
}
use autonomous_quant_tra.Risk.Review.{
  reference_price, is_buy, is_exit, leverage_ok, exposure_ok, all_checks, failed, verify_signature,
  approval_of, decide, review,
}

abbrev pub Passed : RiskCheck → Type 0
Passed c = c.passed ≡ true

pub All-Passed : (cs : List RiskCheck) → failed cs ≡ [] → All Passed cs
All-Passed [] h = tt
All-Passed (c ∷ cs) h = elim (Bool-cases c.passed) [
  | inl pass ↦ (pass, All-Passed cs (ground arith))
  | inr fail ↦ absurd (ground arith)
]

pub none_failed : (cs : List RiskCheck) → All Passed cs → failed cs ≡ []
none_failed [] h = refl
none_failed (c ∷ cs) h = ground (arith, none_failed cs h.1)

module _ {F : Type 0} ⦃fl : Float F⦄ (crypto : Crypto) (cfg : RiskConfig F)
    (session : SessionStatus) (now : ℕ) (approval_id : String) (i : OrderIntent F)
    (view : PortfolioRiskView F) (entry_price : Option F) (c : MasterRiskController F) where
  abbrev pub checks_of : List RiskCheck
  checks_of = all_checks cfg i view c.state session (reference_price i entry_price)

  abbrev pub reviewed : Decision F × MasterRiskController F
  reviewed = review crypto cfg session now approval_id i view entry_price c

  decide-approved :
      (cs : List RiskCheck) {a : RiskApproval F}
      → decide crypto cs i c.state now approval_id checks_of ≡ approved a
      → (cs ≡ []) × (a ≡ approval_of crypto i c.state now approval_id checks_of)
  decide-approved [] e = ground arith
  decide-approved (x ∷ xs) e = absurd (cc)

  approved_checks : {a : RiskApproval F} → reviewed.0 ≡ approved a → All Passed checks_of
  unfolding review
  approved_checks e = All-Passed checks_of (decide-approved (failed checks_of) e).0

  approved_is :
      {a : RiskApproval F}
      → reviewed.0 ≡ approved a
      → a ≡ approval_of crypto i c.state now approval_id checks_of
  unfolding review
  approved_is e = (decide-approved (failed checks_of) e).1

  -- An approval answers the reviewed intent: it carries its id, symbol, side, quantity and hash, its
  -- signature verifies, every check of it passed, and the log gained exactly this decision.
  pub approval_answers :
      {a : RiskApproval F}
      → reviewed.0 ≡ approved a
      → (a.client_order_id ≡ i.client_order_id)
        × (a.symbol ≡ i.symbol)
        × (a.side ≡ i.side)
        × (a.qty ≡ i.qty)
        × (a.intent_hash ≡ order_intent_hash crypto i none "DAY")
        × (verify_signature crypto a ≡ true)
        × All Passed a.checks
        × (reviewed.1.decisions_log ≡ c.decisions_log ++ approved a ∷ [])
  unfolding verify_signature approval_of review
  approval_answers e =
      let passed = approved_checks e in
      let same = approved_is e in
      rw same (
        refl,
        refl,
        refl,
        refl,
        refl,
        (eq_iff _ _).1 refl,
        passed,
        ap (λ d. c.decisions_log ++ d ∷ []) (e ∙ ap approved same),
      )

  -- What holds of an entry that may be sent.
  pub record EntryIsSafe (px : F) : Type 0 where
    pub priced : (px ≤? nought) ≡ false
    pub no_stop : c.state ≡ normal
    pub below_ladder :
        ((cfg.dd_no_new_entry_at ≤? view.drawdown) ≡ false)
        × ((cfg.dd_safe_mode_at ≤? view.drawdown) ≡ false)
    pub funded : i.qty ⊗ px ≼ view.settled_cash ⊕ tiny
    pub unlevered :
        (view.total_exposure_notional ⊕ i.qty ⊗ px) ⊘ view.equity ≼ cfg.max_leverage ⊕ tiny
    pub solvent : (nought <? view.equity) ≡ true
    pub exposed :
        view.total_exposure_notional ⊕ i.qty ⊗ px
        ≼ view.equity ⊗ cfg.max_total_exposure_pct ⊗ cfg.exposure_cap_stage ⊕ tiny
    pub sized : i.qty ⊗ px ≼ view.equity ⊗ cfg.max_position_pct ⊕ tiny
    pub liquid : i.qty ≼ view.adv_shares ⊗ cfg.max_adv_participation ⊕ tiny
    pub stop_planned : view.stop_plan_exists ≡ true
    pub gap_bounded : view.gap_risk_score ≼ cfg.max_gap_risk_score
    pub connected : view.broker_connected ≡ true
    pub reconciled : view.reconciliation_ok ≡ true
    pub in_session : session ≡ open_session
    pub unmargined : abs view.margin_requirement ≼ tiny
    pub fresh_id : contains i.client_order_id view.known_client_order_ids ≡ false
    pub fresh_signal : view.signal_age_sec ≼ cfg.stale_order_after_sec
    pub narrow_spread : view.spread_pct ≼ cfg.max_spread_pct

  buy_is_no_exit : i.side ≡ buy → (is_buy i ≡ true) × (is_exit i ≡ false)
  buy_is_no_exit h = ground arith

  -- An approved BUY has a price, is reviewed in the NORMAL state below the drawdown ladder's halt, is
  -- covered by settled cash, within the caps on leverage, exposure, position and liquidity (each up to
  -- 1e-9), has a stop plan, and is backed by a connected and reconciled broker, an open session, a new
  -- id, a fresh signal and a narrow spread.
  pub approved-EntryIsSafe :
      {a : RiskApproval F}
      → i.side ≡ buy
      → reviewed.0 ≡ approved a
      → EntryIsSafe (reference_price i entry_price)
  unfolding all_checks leverage_ok exposure_ok entry_allowed_by_state throttle_level
  approved-EntryIsSafe side e =
      let passed = approved_checks e in
      let (purchase, entry) = buy_is_no_exit side in
      record {
        priced = ground arith;
        no_stop = ground arith;
        below_ladder = ground arith;
        funded = ground arith;
        unlevered = ground arith;
        solvent = ground arith;
        exposed = ground arith;
        sized = ground arith;
        liquid = ground arith;
        stop_planned = ground arith;
        gap_bounded = ground arith;
        connected = ground arith;
        reconciled = ground arith;
        in_session = ground arith;
        unmargined = ground arith;
        fresh_id = ground arith;
        fresh_signal = ground arith;
        narrow_spread = ground arith;
      }
