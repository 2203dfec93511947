-- ===== src/Audit/Closed.antt =====
-- Which orders an audit lets through.
use autonomous_quant_tra.Base.{
  ◌≡◌, refl, inl, inr, ◌⊎◌, Bool, true, false, Option, none, some, Bool-cases,
}
use autonomous_quant_tra.Exec.{Result, ok, err, OnOk}
use autonomous_quant_tra.Float.{Float}
use autonomous_quant_tra.Schema.{Environment, live}
use autonomous_quant_tra.Audit.{
  AuditOutput, pass, AuditError, AuditTriggerContext, Submission, AuditModel, IndependentAuditor,
  is_live, is_mandatory, skipped_audit, rejected_audit, judged, answered, audited_by, audit,
}

module _ {F : Type 0} ⦃fl : Float F⦄ {R : Type 0} (model_validate : R → Option (AuditOutput F))
    (s : Submission F) where
  -- The output is the model's own: it answered, its answer is of the schema, and the verdict is its verdict.
  abbrev pub IsModels : Option (AuditModel F R) → AuditOutput F → Type 0
  IsModels model out =
      (m : AuditModel F R) × (raw : R) × (own : AuditOutput F) × (model ≡ some m)
      × (m.audit s ≡ ok raw)
      × (model_validate raw ≡ some own)
      × (out.verdict ≡ own.verdict)

  -- The output of an audit that may be left out, without a model.
  abbrev pub IsSkipped : Bool → Option (AuditModel F R) → AuditOutput F → Type 0
  IsSkipped mandatory model out =
      (mandatory ≡ false) × (model ≡ none) × (out ≡ skipped_audit model_validate s)

  -- An order that passes was passed by the model, or needed no audit and had no model.
  abbrev pub IsPassedBy : Bool → Option (AuditModel F R) → AuditOutput F → Type 0
  IsPassedBy mandatory model out =
      out.verdict ≡ pass → IsModels model out ⊎ IsSkipped mandatory model out

  module _ (environment : Environment) (mandatory : Bool) where
    judged-IsPassedBy :
        (m : AuditModel F R) (raw : R) (found : Option (AuditOutput F))
        → m.audit s ≡ ok raw
        → model_validate raw ≡ found
        → OnOk
            (IsPassedBy mandatory (some m))
            (judged model_validate environment mandatory m s found)
    unfolding rejected_audit
    judged-IsPassedBy m raw (some own) answer valid =
        λ passed. inl (m, raw, own, refl, answer, valid, refl)
    judged-IsPassedBy m raw none answer valid = elim (Bool-cases (is_live environment)) [
      | inl closed ↦ rw closed tt
      | inr open_ ↦ rw open_ (λ passed. absurd (cc))
    ]

    answered-IsPassedBy :
        (m : AuditModel F R) (answer : Result AuditError R)
        → m.audit s ≡ answer
        → OnOk
            (IsPassedBy mandatory (some m))
            (answered model_validate environment mandatory m s answer)
    answered-IsPassedBy m (ok raw) h = judged-IsPassedBy m raw (model_validate raw) h refl
    answered-IsPassedBy m (err e) h = elim (Bool-cases mandatory) [
      | inl needed ↦ rw needed tt
      | inr free ↦ rw free tt
    ]

    audited_by-IsPassedBy :
        (model : Option (AuditModel F R))
        → OnOk
            (IsPassedBy mandatory model)
            (audited_by model_validate environment mandatory model s)
    audited_by-IsPassedBy (some m) = answered-IsPassedBy m (m.audit s) refl
    audited_by-IsPassedBy none = elim (Bool-cases mandatory) [
      | inl needed ↦ rw needed tt
      | inr free ↦ rw free (λ passed. inr (refl, refl, refl))
    ]

  -- An order passes the audit only if the model answered, its answer has the schema and its verdict is PASS, or
  -- if the audit was not mandatory and there is no model. In LIVE it is always mandatory, so that there every
  -- failure (no model, an exception, an answer of another form) raises or rejects.
  pub audit_closed :
      (a : IndependentAuditor F R) (triggers : AuditTriggerContext F)
      → OnOk
          (IsPassedBy (is_mandatory model_validate a triggers) a.model)
          (audit model_validate a triggers s)
        × (a.environment ≡ live → is_mandatory model_validate a triggers ≡ true)
  unfolding audit is_mandatory
  audit_closed a triggers = (
    audited_by-IsPassedBy a.environment (is_mandatory model_validate a triggers) a.model,
    λ h. rw h refl,
  )
