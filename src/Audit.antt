-- ===== src/Audit.antt =====
-- The independent audit before a trade (services/decision/audit.py, packages/schemas/audit.py). A model's
-- answer is of a type `R`, and `model_validate`, what pydantic makes of it, is a parameter. The texts of a
-- conflict are left out; instants and durations are numbers of microseconds.
pub mod Closed
use autonomous_quant_tra.Base.{
  ℕ, String, Bool, true, false, not, ◌&&◌, ◌||◌, Option, none, some, List, [], ◌∷◌, ◌++◌, ltb, ◌==◌,
  if◌then◌else◌, string_eq,
}
use autonomous_quant_tra.Int.{pos}
use autonomous_quant_tra.Dict.{Dict, get_or}
use autonomous_quant_tra.Exec.{Result, ok, err}
use autonomous_quant_tra.Float.{Float, ◌⊖◌, ◌⊗◌, ◌⊘◌, ◌<?◌, ◌≤?◌, nought, one, max, abs}
use autonomous_quant_tra.Schema.{Action, buy, sell, Environment, research, paper, live}
use autonomous_quant_tra.Approval.{OrderIntent}
use autonomous_quant_tra.Sizing.{SizedProposal, stop_distance}

pub data DecisionAction : Type 0 where
  decide_buy decide_sell decide_hold decide_wait decide_no_trade decide_avoid : DecisionAction

-- What the audit reads of a decision.
pub record DecisionOutput (F : Type 0) : Type 0 where
  pub symbol : String
  pub action : DecisionAction
  pub confidence : F
  pub expected_horizon : String
  pub key_evidence : List String

pub record AuditContext : Type 0 where
  pub now : ℕ
  pub signal_age : ℕ
  pub stale_after : ℕ

pub data AuditVerdict : Type 0 where
  pass reject review : AuditVerdict

pub record DetectedConflict (F : Type 0) : Type 0 where
  pub check : String
  pub severity : F

pub record AuditOutput (F : Type 0) : Type 0 where
  pub decision_id : String
  pub client_order_id : String
  pub verdict : AuditVerdict
  pub detected_conflicts : List (DetectedConflict F)
  pub severity : F
  pub model : String
  pub model_family : String
  pub forced : Bool
  pub audited_at : ℕ

-- AuditUnavailableError, and what a model raises.
pub data AuditError : Type 0 where
  audit_unavailable model_failed : AuditError

pub record AuditTriggerContext (F : Type 0) : Type 0 where
  pub notional_vs_typical : F
  pub volatility : F
  pub event_within_horizon : Bool
  pub model_disagreement : F
  pub new_alpha : Bool
  pub first_live_use : Bool
  pub rapid_price_move : Bool
  pub complex_stop : Bool
  pub low_liquidity : Bool
  pub risk_score : F
  pub data_uncertain : Bool

-- What is audited; the proposal of a sized proposal is its symbol and its id.
pub record Submission (F : Type 0) : Type 0 where
  pub decision : DecisionOutput F
  pub sized : SizedProposal F
  pub proposal_id : String
  pub intent : OrderIntent F
  pub context : AuditContext

pub record AuditModel (F R : Type 0) : Type 0 where
  pub name : String
  pub model_family : String
  pub audit : Submission F → Result AuditError R

pub record IndependentAuditor (F R : Type 0) : Type 0 where
  pub model : Option (AuditModel F R)
  pub environment : Environment
  pub audit_all : Bool

-- `DecisionAction` and `Action` are compared by their texts.
abbrev pub same_side : DecisionAction → Action → Bool
same_side decide_buy buy = true
same_side decide_sell sell = true
same_side _ _ = false

abbrev pub is_live : Environment → Bool
is_live research = false
is_live paper = false
is_live live = true

abbrev pub is_empty : List String → Bool
is_empty [] = true
is_empty (e ∷ evidence) = false

module _ {F : Type 0} ⦃fl : Float F⦄ where
  -- A literal of one decimal place, and of two.
  abbrev pub tenths : ℕ → F
  tenths n = fl.decimal (pos n) 1

  abbrev pub hundredths : ℕ → F
  hundredths n = fl.decimal (pos n) 2

  -- `_HORIZON_MAX_STOP`
  abbrev pub horizon_max_stop : Dict String F
  horizon_max_stop =
      ("1d", hundredths 6)
      ∷ ("1w", hundredths 12)
      ∷ ("1m", hundredths 20)
      ∷ ("3m", hundredths 30)
      ∷ ("6m", hundredths 40)
      ∷ []

  abbrev pub conflict_if : Bool → String → F → List (DetectedConflict F)
  conflict_if true check severity = (record { check = check; severity = severity }) ∷ []
  conflict_if false check severity = []

  abbrev pub conflicts_on_order : Submission F → List (DetectedConflict F)
  conflicts_on_order s =
      conflict_if
        (not (s.decision.symbol == s.intent.symbol) || not (s.sized.symbol == s.intent.symbol))
        "symbol_match" one
      ++ (conflict_if (not (same_side s.decision.action s.intent.side)) "side_match" one
          ++ (conflict_if
                (max (fl.decimal (pos 1) 6) (s.sized.qty ⊗ fl.decimal (pos 1) 3)
                  <? abs (s.intent.qty ⊖ s.sized.qty))
                "quantity_consistency" one
              ++ conflict_if (s.sized.qty ⊗ fl.decimal (pos 10) 0 <? s.intent.qty)
                  "quantity_magnitude" one))

  -- A stop plan is always there.
  abbrev pub conflicts_on_stop : Submission F → List (DetectedConflict F)
  conflicts_on_stop s =
      conflict_if (s.sized.stop_plan.entry_price ≤? s.sized.stop_plan.stop_price) "stop_direction"
        one
      ++ conflict_if
          (get_or s.decision.expected_horizon (hundredths 40) horizon_max_stop
            <? stop_distance s.sized.stop_plan ⊘ s.sized.stop_plan.entry_price)
          "horizon_stop_consistency" (tenths 6)

  abbrev pub conflicts_on_context : Submission F → List (DetectedConflict F)
  conflicts_on_context s =
      conflict_if
        ((s.decision.confidence <? tenths 4)
          && (nought <? s.sized.notional)
          && (nought <? s.sized.risk_amount)
          && (s.sized.calibrated_confidence <? tenths 4))
        "confidence_size_consistency" (tenths 4)
      ++ (conflict_if (ltb s.context.stale_after s.context.signal_age) "stale_signal" (tenths 8)
          ++ conflict_if (is_empty s.decision.key_evidence) "thesis_consistency" (tenths 5))

  unfoldable pub conflicts_of : Submission F → List (DetectedConflict F)
  conflicts_of s = conflicts_on_order s ++ (conflicts_on_stop s ++ conflicts_on_context s)

  -- `max((c["severity"] for c in conflicts), default=0.0)`
  abbrev pub largest : F → List (DetectedConflict F) → F
  largest so_far [] = so_far
  largest so_far (c ∷ conflicts) = largest (max so_far c.severity) conflicts

  abbrev pub max_severity : List (DetectedConflict F) → F
  max_severity [] = nought
  max_severity (c ∷ conflicts) = largest c.severity conflicts

  unfoldable pub verdict_of : F → AuditVerdict
  verdict_of severity =
      if tenths 8 ≤? severity then reject else if tenths 5 ≤? severity then review else pass

  -- `MockAuditModel.audit`
  unfoldable pub mock_audit : Submission F → AuditOutput F
  mock_audit s =
      let conflicts = conflicts_of s in
      record {
        decision_id = s.proposal_id;
        client_order_id = s.intent.client_order_id;
        verdict = verdict_of (max_severity conflicts);
        detected_conflicts = conflicts;
        severity = max_severity conflicts;
        model = "mock-audit";
        model_family = "mock-audit-family";
        forced = false;
        audited_at = s.context.now;
      }

  unfoldable pub audit_required : AuditTriggerContext F → F → F → Bool
  audit_required t high_vol_threshold disagreement_threshold =
      (fl.decimal (pos 2) 0 <? t.notional_vs_typical)
      || (high_vol_threshold <? t.volatility)
      || t.event_within_horizon
      || (disagreement_threshold <? t.model_disagreement)
      || t.new_alpha
      || t.first_live_use
      || t.rapid_price_move
      || t.complex_stop
      || t.low_liquidity
      || (tenths 7 <? t.risk_score)
      || t.data_uncertain

  module _ {R : Type 0} (model_validate : R → Option (AuditOutput F)) where
    unfoldable pub is_mandatory : IndependentAuditor F R → AuditTriggerContext F → Bool
    is_mandatory a triggers =
        if is_live a.environment
        then true
        else a.audit_all || audit_required triggers (hundredths 4) (tenths 5)

    unfoldable pub skipped_audit : Submission F → AuditOutput F
    skipped_audit s = record {
      decision_id = s.proposal_id;
      client_order_id = s.intent.client_order_id;
      verdict = pass;
      detected_conflicts = [];
      severity = nought;
      model = "none";
      model_family = "none";
      forced = false;
      audited_at = s.context.now;
    }

    unfoldable pub rejected_audit : AuditModel F R → Bool → Submission F → AuditOutput F
    rejected_audit m mandatory s = record {
      decision_id = s.proposal_id;
      client_order_id = s.intent.client_order_id;
      verdict = reject;
      detected_conflicts = [];
      severity = one;
      model = m.name;
      model_family = m.model_family;
      forced = mandatory;
      audited_at = s.context.now;
    }

    abbrev pub judged :
        Environment
        → Bool
        → AuditModel F R
        → Submission F
        → Option (AuditOutput F)
        → Result AuditError (AuditOutput F)
    judged environment mandatory m s (some out) = ok (record out { forced = mandatory })
    judged environment mandatory m s none =
        if is_live environment then err audit_unavailable else ok (rejected_audit m mandatory s)

    abbrev pub answered :
        Environment
        → Bool
        → AuditModel F R
        → Submission F
        → Result AuditError R
        → Result AuditError (AuditOutput F)
    answered environment mandatory m s (err e) = if mandatory then err audit_unavailable else err e
    answered environment mandatory m s (ok raw) =
        judged environment mandatory m s (model_validate raw)

    abbrev pub audited_by :
        Environment
        → Bool
        → Option (AuditModel F R)
        → Submission F
        → Result AuditError (AuditOutput F)
    audited_by environment mandatory none s =
        if mandatory then err audit_unavailable else ok (skipped_audit s)
    audited_by environment mandatory (some m) s = answered environment mandatory m s (m.audit s)

    -- `IndependentAuditor.audit`
    unfoldable pub audit :
        IndependentAuditor F R
        → AuditTriggerContext F
        → Submission F
        → Result AuditError (AuditOutput F)
    audit a triggers s = audited_by a.environment (is_mandatory a triggers) a.model s
