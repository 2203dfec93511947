-- ===== src/Tests/Gate.antt =====
-- The audit before a trade.
use autonomous_quant_tra.Base.{◌≡◌, true, false, some, [], ◌∷◌, string_eq}
use autonomous_quant_tra.Int.{ℤ}
use autonomous_quant_tra.Exec.{ok, OnOk}
use autonomous_quant_tra.Float.{nought, one}
use autonomous_quant_tra.Float.Fixed.{fixed_float}
use autonomous_quant_tra.Schema.{live}
use autonomous_quant_tra.Audit.{
  decide_buy, AuditOutput, AuditTriggerContext, Submission, AuditModel, IndependentAuditor,
  mock_audit, is_mandatory, audit,
}
use autonomous_quant_tra.Audit.Closed.{IsPassedBy, audit_closed}
use autonomous_quant_tra.Tests.{whole, micro}
use autonomous_quant_tra.Tests.Watch.{planned}
use autonomous_quant_tra.Tests.Control.{purchase}

abbrev submission : Submission ℤ
submission = record {
  decision = record {
    symbol = "AAPL";
    action = decide_buy;
    confidence = micro 700_000;
    expected_horizon = "1w";
    key_evidence = "earnings" ∷ [];
  };
  sized = record {
    symbol = "AAPL";
    stop_plan = planned;
    qty = purchase.qty;
    risk_amount = whole 1;
    notional = whole 50;
    calibrated_confidence = micro 500_000;
  };
  proposal_id = "p1";
  intent = purchase;
  context = record { now = 40; signal_age = 5; stale_after = 1_800 };
}

abbrev triggers : AuditTriggerContext ℤ
triggers = record {
  notional_vs_typical = one;
  volatility = nought;
  event_within_horizon = false;
  model_disagreement = nought;
  new_alpha = false;
  first_live_use = false;
  rapid_price_move = false;
  complex_stop = false;
  low_liquidity = false;
  risk_score = nought;
  data_uncertain = false;
}

abbrev model : AuditModel ℤ (AuditOutput ℤ)
model = record {
  name = "mock-audit";
  model_family = "mock-audit-family";
  audit = λ s. ok (mock_audit s);
}

abbrev auditor : IndependentAuditor ℤ (AuditOutput ℤ)
auditor = record { model = some model; environment = live; audit_all = false }

audit_closed_example :
    OnOk
      (IsPassedBy some submission (is_mandatory some auditor triggers) (some model))
      (audit some auditor triggers submission)
    × (live ≡ live → is_mandatory some auditor triggers ≡ true)
audit_closed_example = audit_closed some submission auditor triggers
