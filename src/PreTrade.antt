-- ===== src/PreTrade.antt =====
-- The log of the orders before they are sent, the near misses and the orders that wait for a human
-- (services/pdca/audit_log.py). Texts for people (a summary, a detail, a reason) are left out, save the
-- reviewer and the resolution; an instant is a number of microseconds, and its year and month are a parameter.
pub mod Laws
pub mod Summary
use autonomous_quant_tra.Base.{
  ℕ, ◌+◌, String, Bool, true, false, not, ◌&&◌, ◌||◌, Option, none, some, List, [], ◌∷◌, ◌++◌, map,
  keep, length, contains, Eq, eqb, ◌==◌, ◌≡◌, ◌↔◌, if◌then◌else◌, string_eq, nat_eq, arith,
}
use autonomous_quant_tra.Dict.{Dict, lookup, insert, values, get_or}
use autonomous_quant_tra.Exec.{Result, ok, err}
use autonomous_quant_tra.Audit.{AuditVerdict, pass, reject, review, AuditOutput, DetectedConflict}

pub data NearMissKind : Type 0 where
  wrong_side quantity_error duplicate stale_order symbol_mismatch no_stop hash_mismatch other :
      NearMissKind

abbrev kind_index : NearMissKind → ℕ
kind_index wrong_side = 0
kind_index quantity_error = 1
kind_index duplicate = 2
kind_index stale_order = 3
kind_index symbol_mismatch = 4
kind_index no_stop = 5
kind_index hash_mismatch = 6
kind_index other = 7

pub kind_iff : (a b : NearMissKind) → (eqb (kind_index a) (kind_index b) ≡ true) ↔ (a ≡ b)
kind_iff a b = ground arith

instance abbrev pub kind_eq : Eq NearMissKind
kind_eq = record { beq = λ a b. eqb (kind_index a) (kind_index b); beq_iff = kind_iff }

pub data Stage : Type 0 where
  at_audit at_risk at_execution : Stage

-- `_CONFLICT_TO_KIND`
abbrev pub conflict_to_kind : Dict String NearMissKind
conflict_to_kind =
    ("side_match", wrong_side)
    ∷ ("quantity_consistency", quantity_error)
    ∷ ("quantity_magnitude", quantity_error)
    ∷ ("symbol_match", symbol_mismatch)
    ∷ ("stop_exists", no_stop)
    ∷ ("stale_signal", stale_order)
    ∷ []

pub record NearMiss : Type 0 where
  pub at : ℕ
  pub kind : NearMissKind
  pub stage : Stage
  pub decision_id : String
  pub client_order_id : String

pub record HumanReviewItem (F : Type 0) : Type 0 where
  pub at : ℕ
  pub client_order_id : String
  pub decision_id : String
  pub severity : F
  pub resolved_by : String
  pub resolution : String

-- Of the risk's answer and the broker's, whether they are there.
pub record PreTradeRecord (F : Type 0) : Type 0 where
  pub client_order_id : String
  pub decision_id : String
  pub created_at : ℕ
  pub audit_result : Option (AuditOutput F)
  pub has_risk_result : Bool
  pub approved_snapshot_hash : String
  pub broker_submitted : Bool
  pub has_broker_ack : Bool
  pub fills : List String
  pub final_state : String
  pub protective_exit : Bool

pub record PreTradeAuditLog (F : Type 0) : Type 0 where
  pub records : Dict String (PreTradeRecord F)
  pub near_misses : List NearMiss
  pub human_review_queue : List (HumanReviewItem F)

pub data LogError : Type 0 where
  no_such_record reviewer_unnamed no_pending_review : LogError

-- `not item.resolution`
abbrev pub is_pending : {F : Type 0} → HumanReviewItem F → Bool
is_pending i = i.resolution == ""

abbrev pub is_verdict : AuditVerdict → AuditVerdict → Bool
is_verdict pass pass = true
is_verdict reject reject = true
is_verdict review review = true
is_verdict _ _ = false

-- The elements of a set, each once, as first met.
abbrev pub distinct {ℓ} : {A : Type ℓ} ⦃e : Eq A⦄ → List A → List A → List A
distinct seen [] = []
distinct seen (x ∷ xs) = if contains x seen then distinct seen xs else x ∷ distinct (x ∷ seen) xs

-- `xs or {other}`
abbrev pub or_other : List NearMissKind → List NearMissKind
or_other [] = other ∷ []
or_other (k ∷ kinds) = k ∷ kinds

abbrev pub is_some : {A : Type 0} → Option A → Bool
is_some none = false
is_some (some a) = true

module _ {F : Type 0} where
  -- `open` of the source, which is a word of the language here.
  unfoldable pub open_record :
      String → String → ℕ → PreTradeAuditLog F → PreTradeRecord F × PreTradeAuditLog F
  open_record client_order_id decision_id at log =
      let rec : PreTradeRecord F = record {
        client_order_id = client_order_id;
        decision_id = decision_id;
        created_at = at;
        audit_result = none;
        has_risk_result = false;
        approved_snapshot_hash = "";
        broker_submitted = false;
        has_broker_ack = false;
        fills = [];
        final_state = "";
        protective_exit = false;
      } in
      (rec, record log { records = insert client_order_id rec log.records })

  abbrev pub found_record : Option (PreTradeRecord F) → Result LogError (PreTradeRecord F)
  found_record none = err no_such_record
  found_record (some r) = ok r

  unfoldable pub get : String → PreTradeAuditLog F → Result LogError (PreTradeRecord F)
  get client_order_id log = found_record (lookup client_order_id log.records)

  abbrev pub traceable : PreTradeRecord F → Bool
  traceable r =
      if not r.broker_submitted
      then true
      else (is_some r.audit_result || r.protective_exit)
        && r.has_risk_result
        && not (r.approved_snapshot_hash == "")
        && not (r.final_state == "")

  unfoldable pub is_fully_traceable : String → PreTradeAuditLog F → Result LogError Bool
  is_fully_traceable client_order_id log = elim (lookup client_order_id log.records) [
    | none ↦ err no_such_record
    | some r ↦ ok (traceable r)
  ]

  unfoldable pub record_near_miss : NearMiss → PreTradeAuditLog F → PreTradeAuditLog F
  record_near_miss miss log = record log { near_misses = log.near_misses ++ (miss ∷ []) }

  unfoldable pub queue_human_review :
      String → String → ℕ → F → PreTradeAuditLog F → HumanReviewItem F × PreTradeAuditLog F
  queue_human_review client_order_id decision_id at severity log =
      let item : HumanReviewItem F = record {
        at = at;
        client_order_id = client_order_id;
        decision_id = decision_id;
        severity = severity;
        resolved_by = "";
        resolution = "";
      } in
      (item, record log { human_review_queue = log.human_review_queue ++ (item ∷ []) })

  abbrev pub later :
      HumanReviewItem F → Option (List (HumanReviewItem F)) → Option (List (HumanReviewItem F))
  later i none = none
  later i (some items) = some (i ∷ items)

  -- The loop of `resolve_human_review`: the queue with its first pending item of the order resolved.
  abbrev pub resolve_first :
      String → String → String → List (HumanReviewItem F) → Option (List (HumanReviewItem F))
  resolve_first client_order_id resolved_by resolution [] = none
  resolve_first client_order_id resolved_by resolution (i ∷ items) =
      let rest = resolve_first client_order_id resolved_by resolution items in
      if i.client_order_id == client_order_id && is_pending i
      then some (record i { resolved_by = resolved_by; resolution = resolution } ∷ items)
      else later i rest

  abbrev pub requeued :
      PreTradeAuditLog F → Option (List (HumanReviewItem F)) → Result LogError (PreTradeAuditLog F)
  requeued log none = err no_pending_review
  requeued log (some items) = ok (record log { human_review_queue = items })

  unfoldable pub resolve_human_review :
      String → String → String → PreTradeAuditLog F → Result LogError (PreTradeAuditLog F)
  resolve_human_review client_order_id resolved_by resolution log =
      if resolved_by == ""
      then err reviewer_unnamed
      else requeued log
          (resolve_first client_order_id resolved_by resolution log.human_review_queue)

  unfoldable pub pending_human_reviews : PreTradeAuditLog F → List (HumanReviewItem F)
  pending_human_reviews log = keep is_pending log.human_review_queue

  abbrev pub kinds_of : List (DetectedConflict F) → List NearMissKind
  kinds_of conflicts =
      or_other (distinct [] (map (λ c. get_or c.check other conflict_to_kind) conflicts))

  abbrev pub record_kinds :
      ℕ → String → String → List NearMissKind → PreTradeAuditLog F → PreTradeAuditLog F
  record_kinds at decision_id client_order_id [] log = log
  record_kinds at decision_id client_order_id (k ∷ kinds) log =
      record_kinds at decision_id client_order_id kinds (
        record_near_miss
          (record {
            at = at;
            kind = k;
            stage = at_audit;
            decision_id = decision_id;
            client_order_id = client_order_id;
          })
          log)

  unfoldable pub record_audit_rejection :
      AuditOutput F → ℕ → String → String → PreTradeAuditLog F → PreTradeAuditLog F
  record_audit_rejection audit_result at decision_id client_order_id log =
      record_kinds at decision_id client_order_id (kinds_of audit_result.detected_conflicts) log

pub record SafetySummary : Type 0 where
  pub pre_trade_audits : ℕ
  pub audit_pass : ℕ
  pub audit_reject : ℕ
  pub prevented_potential_errors : ℕ
  pub prevented_by_kind : Dict NearMissKind ℕ
  pub critical_execution_errors : ℕ

abbrev pub count_kinds : List NearMiss → Dict NearMissKind ℕ → Dict NearMissKind ℕ
count_kinds [] by_kind = by_kind
count_kinds (n ∷ misses) by_kind =
    count_kinds misses (insert n.kind (get_or n.kind 0 by_kind + 1) by_kind)

abbrev pub has_verdict : {F : Type 0} → AuditVerdict → PreTradeRecord F → Bool
has_verdict v r = elim r.audit_result [ none ↦ false | some out ↦ is_verdict out.verdict v ]

abbrev pub in_month : (ℕ → ℕ × ℕ) → ℕ → ℕ → ℕ → Bool
in_month year_month year month at = (year_month at).0 == year && (year_month at).1 == month

module _ {F : Type 0} (year_month : ℕ → ℕ × ℕ) where
  unfoldable pub monthly_safety_summary : ℕ → ℕ → PreTradeAuditLog F → SafetySummary
  monthly_safety_summary year month log =
      let month_records =
        keep (λ r. in_month year_month year month r.created_at) (values log.records) in
      let audits = keep (λ r. is_some r.audit_result) month_records in
      let misses = keep (λ n. in_month year_month year month n.at) log.near_misses in
      record {
        pre_trade_audits = length audits;
        audit_pass = length (keep (has_verdict pass) audits);
        audit_reject = length (keep (has_verdict reject) audits);
        prevented_potential_errors = length misses;
        prevented_by_kind = count_kinds misses [];
        critical_execution_errors = length (keep (λ r. r.final_state == "UNKNOWN") month_records);
      }
