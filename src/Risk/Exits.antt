-- ===== src/Risk/Exits.antt =====
-- MASTER STOP: what the state blocks, and what it must not block.
use autonomous_quant_tra.Base.{
  ℕ, ◌≡◌, ◌≢◌, ◌⊎◌, refl, inl, inr, String, true, false, Option, List, [], ◌∷◌, All, contains,
  arith, string_eq,
}
use autonomous_quant_tra.Dict.{get_or}
use autonomous_quant_tra.Float.{Float, ◌⊕◌, ◌≼◌, ◌<?◌, nought, tiny, abs}
use autonomous_quant_tra.Schema.{sell, action_eq}
use autonomous_quant_tra.Approval.{Crypto, OrderIntent, RiskCheck, normal, full_broker_disconnect}
use autonomous_quant_tra.Risk.{
  RiskConfig, PortfolioRiskView, MasterRiskController, Decision, approved, rejected, SessionStatus,
  halted, entry_allowed_by_state, exit_allowed_by_state,
}
use autonomous_quant_tra.Risk.Review.{
  is_exit, all_checks, failed, approval_of, rejection_of, decide, review,
}
use autonomous_quant_tra.Risk.Gate.{Passed, All-Passed, none_failed, checks_of, reviewed}

module _ {F : Type 0} ⦃fl : Float F⦄ (crypto : Crypto) (cfg : RiskConfig F)
    (session : SessionStatus) (now : ℕ) (approval_id : String) (i : OrderIntent F)
    (view : PortfolioRiskView F) (entry_price : Option F) (c : MasterRiskController F) where
  abbrev checks : List RiskCheck
  checks = checks_of crypto cfg session now approval_id i view entry_price c

  abbrev outcome : Decision F × MasterRiskController F
  outcome = reviewed crypto cfg session now approval_id i view entry_price c

  abbrev pub IsApproved : Type 0
  IsApproved = outcome.0 ≡ approved (approval_of crypto i c.state now approval_id checks)

  abbrev pub IsRejected : Type 0
  IsRejected = outcome.0 ≡ rejected (rejection_of crypto i now checks)

  approved_of_passed : All Passed checks → IsApproved
  unfolding review
  approved_of_passed h = rw (none_failed checks h)

  decide-cases :
      (cs : List RiskCheck)
      → (cs ≡ [])
        ⊎ (decide crypto cs i c.state now approval_id checks
            ≡ rejected (rejection_of crypto i now checks))
  decide-cases [] = inl refl
  decide-cases (x ∷ xs) = inr refl

  rejected_of_failure : ¬ All Passed checks → IsRejected
  unfolding review
  rejected_of_failure h = elim (decide-cases (failed checks)) [
    | inl none ↦ absurd (h (All-Passed checks none))
    | inr e ↦ e
  ]

  -- MASTER STOP blocks no protective exit: a protective SELL of no more than is held (up to 1e-9) is
  -- approved in every state but the broker's disconnection, whatever the drawdown, the data health, the
  -- reconciliation, the stop plan, the gap risk, the spread and the signal's age, provided that the
  -- broker is connected, the market is not halted, no margin is required and the id is new.
  pub exit_is_approved :
      i.side ≡ sell
      → i.is_protective_exit ≡ true
      → c.state ≢ full_broker_disconnect
      → i.qty ≼ get_or i.symbol nought view.position_qty ⊕ tiny
      → view.broker_connected ≡ true
      → session ≢ halted
      → abs view.margin_requirement ≼ tiny
      → contains i.client_order_id view.known_client_order_ids ≡ false
      → IsApproved
  unfolding all_checks exit_allowed_by_state
  exit_is_approved side exit state held connected market margin id =
      approved_of_passed (ground arith)

  -- In every state but NORMAL each order that is no protective exit is rejected; after a disconnection
  -- every order is; and so is, in any state, a SELL of more than is held and 1e-9.
  pub blocked_is_rejected :
      ((c.state ≢ normal) × (is_exit i ≡ false))
        ⊎ (c.state ≡ full_broker_disconnect)
        ⊎ ((i.side ≡ sell) × ((get_or i.symbol nought view.position_qty ⊕ tiny <? i.qty) ≡ true))
      → IsRejected
  unfolding all_checks entry_allowed_by_state exit_allowed_by_state
  blocked_is_rejected h = rejected_of_failure (λ passed. ground arith)
