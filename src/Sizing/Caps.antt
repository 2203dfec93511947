-- ===== src/Sizing/Caps.antt =====
-- What bounds a position before it is rounded.
use autonomous_quant_tra.Base.{
  ◌≡◌, inl, inr, String, true, List, [], ◌∷◌, contains, All, All-contains, Bool, some, ◌||◌, refl,
  arith, string_eq, eq_iff, ◌==◌, Bool-cases,
}
use autonomous_quant_tra.Dict.{get_or}
use autonomous_quant_tra.Float.{Float, ◌⊖◌, ◌⊗◌, ◌≼◌, ◌<?◌, ◌≤?◌, ◌⊘◌, nought, one, min, max}
use autonomous_quant_tra.Float.Order.{le_refl}
use autonomous_quant_tra.Exec.{OnOk, OnOk-mono}
use autonomous_quant_tra.Risk.{RiskConfig}
use autonomous_quant_tra.Sizing.{
  PortfolioContext, PositionSizingEngine, capped_risk, record_trade_result, theme_caps, StopPlan,
  Quote, SizedProposal, final_qty, penalized_cap, stop_distance, accept, size, risk_budget,
  notional_cap,
}

module _ {F : Type 0} ⦃fl : Float F⦄ where
  -- No more than the budget is risked, nor, after a loss, more than the last time.
  capped_risk-le :
      (lost : Bool) (last budget : F)
      → (capped_risk lost (some last) budget ≼ budget)
        × (lost ≡ true → capped_risk lost (some last) budget ≼ last)
  unfolding capped_risk
  capped_risk-le lost last budget = ground arith

  -- The proposal's quantity is the one of the risk `r`: divided by the stop's distance, cut to the cap, halved on a
  -- wide spread and truncated.
  abbrev pub IsSizedBy :
      RiskConfig F
      → StopPlan F
      → Quote F
      → PortfolioContext F
      → String
      → F
      → SizedProposal F
      → Type 0
  IsSizedBy cfg stop quote ctx symbol r p =
      p.qty
      ≡ final_qty (r ⊘ stop_distance stop) stop.entry_price
          (penalized_cap cfg ctx symbol stop.entry_price) quote

  -- It is sized by a risk that is at most `last` and at most the budget.
  abbrev pub RisksAtMost :
      RiskConfig F
      → StopPlan F
      → Quote F
      → PortfolioContext F
      → String
      → F
      → F
      → SizedProposal F
      → Type 0
  RisksAtMost cfg stop quote ctx symbol confidence last p =
      (r : F) × (r ≼ last)
      × (r ≼ risk_budget cfg ctx confidence)
      × IsSizedBy cfg stop quote ctx symbol r p

  accept-qty :
      (symbol : String) (stop : StopPlan F) (confidence qty : F) (g : PositionSizingEngine F)
      → OnOk (λ p. p.qty ≡ qty) (accept symbol stop confidence qty g).0
  unfolding accept
  accept-qty symbol stop confidence qty g =
      elim (Bool-cases ((qty ≤? nought) || (qty ⊗ stop.entry_price <? one))) [
        | inl small ↦ rw small tt
        | inr enough ↦ rw enough refl
      ]

  size-IsSizedBy :
      (cfg : RiskConfig F) (symbol : String) (stop : StopPlan F) (quote : Quote F)
      (ctx : PortfolioContext F) (confidence : F) (g : PositionSizingEngine F)
      → OnOk
          (IsSizedBy cfg stop quote ctx symbol
            (capped_risk g.last_trade_was_loss g.last_risk_amount (risk_budget cfg ctx confidence)))
          (size cfg symbol stop quote ctx confidence g).0
  unfolding size
  size-IsSizedBy cfg symbol stop quote ctx confidence g =
      elim (Bool-cases (stop_distance stop ≤? nought)) [
        | inl flat ↦ rw flat tt
        | inr distant ↦ elim (Bool-cases (cfg.max_gap_risk_score <? stop.gap_risk_score)) [
          | inl gaps ↦ rw (distant, gaps) tt
          | inr fine ↦ rw (distant, fine) (accept-qty symbol stop confidence _ g)
        ]
      ]

  -- After a trade that lost money, a proposal that `size` makes is sized by a risk that is at most what that trade
  -- risked and at most the budget, whatever the confidence and the context.
  pub no_martingale :
      (cfg : RiskConfig F) (symbol : String) (stop : StopPlan F) (quote : Quote F)
      (ctx : PortfolioContext F) (confidence realized_pnl risk_amount : F)
      (g : PositionSizingEngine F)
      → (realized_pnl <? nought) ≡ true
      → OnOk
          (RisksAtMost cfg stop quote ctx symbol confidence risk_amount)
          (size cfg symbol stop quote ctx confidence
            (record_trade_result realized_pnl risk_amount g)).0
  unfolding record_trade_result
  no_martingale cfg symbol stop quote ctx confidence realized_pnl risk_amount g lost =
      let budget = risk_budget cfg ctx confidence in
      let (within, no_more) = capped_risk-le (realized_pnl <? nought) risk_amount budget in
      let r = capped_risk (realized_pnl <? nought) (some risk_amount) budget in
      OnOk-mono (IsSizedBy cfg stop quote ctx symbol r)
        (RisksAtMost cfg stop quote ctx symbol confidence risk_amount) _
        (λ p sized. (r, no_more lost, within, sized))
        (size-IsSizedBy cfg symbol stop quote ctx confidence
          (record_trade_result realized_pnl risk_amount g))

  theme_caps-le :
      (ctx : PortfolioContext F) (ceiling : F) (themes : List String) (top : F)
      → theme_caps ctx ceiling themes top ≼ top
  unfolding theme_caps
  theme_caps-le ctx ceiling [] top = le_refl top
  theme_caps-le ctx ceiling (t ∷ themes) top =
      let room = max nought (ceiling ⊖ get_or t nought ctx.theme_exposure) in
      let rest = theme_caps-le ctx ceiling themes (min top room) in
      let less : min top room ≼ top = ground arith in omega arith

  theme_caps-theme :
      (ctx : PortfolioContext F) (ceiling : F) (theme : String) (themes : List String) (top : F)
      → contains theme themes ≡ true
      → theme_caps ctx ceiling themes top
        ≼ max nought (ceiling ⊖ get_or theme nought ctx.theme_exposure)
  unfolding theme_caps
  theme_caps-theme ctx ceiling theme [] top h = absurd (cc)
  theme_caps-theme ctx ceiling theme (t ∷ themes) top h = elim (Bool-cases (theme == t)) [
    | inr other ↦ theme_caps-theme ctx ceiling theme themes _ (rw other at h)
    | inl same ↦
        let e = (eq_iff theme t).0 same in
        let room = max nought (ceiling ⊖ get_or t nought ctx.theme_exposure) in
        let rest = theme_caps-le ctx ceiling themes (min top room) in
        let less : min top room ≼ room = ground arith in rw e (omega arith)
  ]

  -- The notional that sizing starts from is at most the settled cash, the room under the position's cap (or 0),
  -- the liquidity cap, and the room (or 0) of each theme that the symbol has, if it has any.
  pub notional_cap-le :
      (cfg : RiskConfig F) (ctx : PortfolioContext F) (symbol : String) (entry : F)
      → let ceiling = notional_cap cfg ctx symbol entry in
        (ceiling ≼ ctx.settled_cash)
        × (ceiling
            ≼ max nought
                (ctx.equity ⊗ cfg.max_position_pct ⊖ get_or symbol nought ctx.existing_exposure))
        × (ceiling ≼ ctx.adv_shares ⊗ cfg.max_adv_participation ⊗ entry)
        × All
            (λ theme.
              ceiling
              ≼ max nought (
                  ctx.equity ⊗ cfg.max_theme_exposure_pct ⊖ get_or theme nought ctx.theme_exposure))
            (get_or symbol [] ctx.symbol_themes)
  unfolding notional_cap
  notional_cap-le cfg ctx symbol entry =
      let room =
        max nought
          (ctx.equity ⊗ cfg.max_position_pct ⊖ get_or symbol nought ctx.existing_exposure) in
      let liquid = ctx.adv_shares ⊗ cfg.max_adv_participation ⊗ entry in
      let top = min (min room ctx.settled_cash) liquid in
      let themes = get_or symbol [] ctx.symbol_themes in
      let whole = theme_caps-le ctx (ctx.equity ⊗ cfg.max_theme_exposure_pct) themes top in
      let cash : top ≼ ctx.settled_cash = ground arith in
      let held : top ≼ room = ground arith in
      let traded : top ≼ liquid = ground arith in
      (
        omega arith,
        omega arith,
        omega arith,
        All-contains _ themes (λ theme listed.
            theme_caps-theme ctx (ctx.equity ⊗ cfg.max_theme_exposure_pct) theme themes top listed),
      )
