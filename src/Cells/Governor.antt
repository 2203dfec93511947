-- ===== src/Cells/Governor.antt =====
-- The allocation governor (services/capital_cells/allocation_governor.py) and the estimates that it reads
-- (estimation.py). Of the tail risk only what the score reads is kept; the texts of a refusal are left out.
pub mod Score
use autonomous_quant_tra.Base.{
  ℕ, String, Bool, true, false, not, ◌&&◌, ◌||◌, List, [], ◌∷◌, ◌++◌, length, map, sorted, ltb,
  contains, ◌==◌, if◌then◌else◌, string_eq,
}
use autonomous_quant_tra.Int.{pos}
use autonomous_quant_tra.Dict.{Dict, insert}
use autonomous_quant_tra.Exec.{Result, ok, err}
use autonomous_quant_tra.Float.{
  Float, ◌⊕◌, ◌⊖◌, ◌⊗◌, ◌⊘◌, ◌<?◌, ◌≤?◌, nought, one, minus_tiny, min, max,
}

-- The ValueErrors of the records and of the reserve.
pub data GovernorError : Type 0 where
  out_of_range unordered_range reserves_exceed_capital : GovernorError

pub record PointEstimate (F : Type 0) : Type 0 where
  pub value : F
  pub confidence : F
  pub sample_size : ℕ
  pub method_version : String
  pub as_of : ℕ

pub record RangeEstimate (F : Type 0) : Type 0 where
  pub low : F
  pub base : F
  pub high : F
  pub confidence : F
  pub sample_size : ℕ
  pub method_version : String
  pub as_of : ℕ

pub record TailRiskMetrics (F : Type 0) : Type 0 where
  pub expected_shortfall : F
  pub sample_size : ℕ

pub record CellAllocationInputs (F : Type 0) : Type 0 where
  pub cell_id : String
  pub net_edge : RangeEstimate F
  pub regime_stability : F
  pub capacity : RangeEstimate F
  pub tail_risk : TailRiskMetrics F
  pub correlation_penalty : F
  pub drawdown : F
  pub cost_drag : F

pub record AllocationReserve (F : Type 0) : Type 0 where
  pub total_capital : F
  pub unallocated_capital : F
  pub cash_reserve : F
  pub risk_reserve : F

pub record CellCreationProposal (F : Type 0) : Type 0 where
  pub proposed_cell_id : String
  pub alpha_hypothesis : String
  pub existing_hypotheses : List String
  pub opportunity_availability : PointEstimate F
  pub independence_evidence : PointEstimate F
  pub expected_incremental_value : RangeEstimate F
  pub operational_capacity_available : Bool

pub data Reason : Type 0 where
  not_distinct uncertain_opportunity uncertain_independence unclear_value no_capacity : Reason

pub record CellCreationDecision : Type 0 where
  pub approved : Bool
  pub reasons : List Reason

pub record CellCreationGovernor (F : Type 0) : Type 0 where
  pub min_confidence : F
  pub min_incremental_value : F

abbrev pub min_ℕ : ℕ → ℕ → ℕ
min_ℕ a b = if ltb b a then b else a

abbrev pub method_version : String
method_version = "UNCERTAINTY_ADJUSTED_EDGE_V1"

-- A cell's id beside its score.
abbrev pub Ranked : Type 0 → Type 0
Ranked F = String × PointEstimate F

abbrev pub reason_if : Bool → Reason → List Reason
reason_if true reason = reason ∷ []
reason_if false reason = []

abbrev pub no_reason : List Reason → Bool
no_reason [] = true
no_reason (r ∷ reasons) = false

module _ {F : Type 0} ⦃fl : Float F⦄ where
  -- `0.0 <= x <= 1.0`
  abbrev pub in_unit : F → Bool
  in_unit x = (nought ≤? x) && (x ≤? one)

  -- The `__post_init__`s.
  unfoldable pub checked_point : PointEstimate F → Result GovernorError (PointEstimate F)
  checked_point p = if in_unit p.confidence then ok p else err out_of_range

  unfoldable pub checked_range : RangeEstimate F → Result GovernorError (RangeEstimate F)
  checked_range r =
      if not ((r.low ≤? r.base) && (r.base ≤? r.high))
      then err unordered_range
      else if in_unit r.confidence
      then ok r
      else err out_of_range

  unfoldable pub checked_inputs :
      CellAllocationInputs F → Result GovernorError (CellAllocationInputs F)
  checked_inputs i =
      if in_unit i.regime_stability && in_unit i.correlation_penalty && in_unit i.drawdown
      then ok i
      else err out_of_range

  unfoldable pub net_of_cost : CellAllocationInputs F → F → F
  net_of_cost i low_confidence_threshold =
      (if i.net_edge.confidence <? low_confidence_threshold
        then i.net_edge.low
        else i.net_edge.base)
      ⊖ i.cost_drag

  unfoldable pub quality : CellAllocationInputs F → F
  quality i = i.regime_stability ⊗ (one ⊖ i.correlation_penalty) ⊗ (one ⊖ i.drawdown)

  unfoldable pub tail_factor : CellAllocationInputs F → F
  tail_factor i = one ⊕ max nought i.tail_risk.expected_shortfall

  -- A negative edge is amplified by what diminishes a positive one.
  unfoldable pub score_of : F → F → F → F
  score_of net q tail =
      if nought ≤? net then net ⊗ q ⊘ tail else net ⊗ (fl.decimal (pos 2) 0 ⊖ q) ⊗ tail

  unfoldable pub uncertainty_adjusted_score : CellAllocationInputs F → ℕ → F → PointEstimate F
  uncertainty_adjusted_score i as_of low_confidence_threshold = record {
    value = score_of (net_of_cost i low_confidence_threshold) (quality i) (tail_factor i);
    confidence = min (min i.net_edge.confidence i.capacity.confidence) i.regime_stability;
    sample_size =
        min_ℕ (min_ℕ i.net_edge.sample_size i.capacity.sample_size) i.tail_risk.sample_size;
    method_version = method_version;
    as_of = as_of;
  }

  abbrev pub higher : Ranked F → Ranked F → Bool
  higher (c, p) (d, q) = q.value <? p.value

  unfoldable pub rank_cells : List (CellAllocationInputs F) → ℕ → List (Ranked F)
  rank_cells inputs as_of = sorted higher (
      map
        (λ (i : CellAllocationInputs F).
          (i.cell_id, uncertainty_adjusted_score i as_of (fl.decimal (pos 6) 1)))
        inputs)

  unfoldable pub allocatable_to_cells : AllocationReserve F → F
  allocatable_to_cells r = r.total_capital ⊖ r.unallocated_capital ⊖ r.cash_reserve ⊖ r.risk_reserve

  unfoldable pub checked_reserve : AllocationReserve F → Result GovernorError (AllocationReserve F)
  checked_reserve r =
      if allocatable_to_cells r <? minus_tiny then err reserves_exceed_capital else ok r

  unfoldable pub qualifying : F → List (Ranked F) → List String
  qualifying min_score_to_fund [] = []
  qualifying min_score_to_fund ((cell_id, score) ∷ ranked) =
      let rest = qualifying min_score_to_fund ranked in
      if min_score_to_fund ≤? score.value then cell_id ∷ rest else rest

  abbrev pub equal_parts : F → List String → Dict String F → Dict String F
  equal_parts per_cell [] allocations = allocations
  equal_parts per_cell (cell_id ∷ cell_ids) allocations =
      equal_parts per_cell cell_ids (insert cell_id per_cell allocations)

  -- `float(len(...))` is the literal of the length.
  abbrev pub parts : F → List String → Dict String F
  parts allocatable [] = []
  parts allocatable (c ∷ cs) =
      equal_parts (allocatable ⊘ fl.decimal (pos (length (c ∷ cs))) 0) (c ∷ cs) []

  abbrev pub left_over : F → List String → F
  left_over allocatable [] = allocatable
  left_over allocatable (c ∷ cs) = nought

  abbrev pub with_reserve :
      Dict String F
      → Result GovernorError (AllocationReserve F)
      → Result GovernorError (Dict String F × AllocationReserve F)
  with_reserve allocations (err e) = err e
  with_reserve allocations (ok r) = ok (allocations, r)

  unfoldable pub allocate_with_reserve :
      F → List (Ranked F) → F → F → F → Result GovernorError (Dict String F × AllocationReserve F)
  allocate_with_reserve total_capital ranked min_score_to_fund cash_fraction risk_fraction =
      let cash_reserve = total_capital ⊗ cash_fraction in
      let risk_reserve = total_capital ⊗ risk_fraction in
      let allocatable = total_capital ⊖ cash_reserve ⊖ risk_reserve in
      let funded = qualifying min_score_to_fund ranked in
      if not (in_unit cash_fraction)
      then err out_of_range
      else if not (in_unit risk_fraction)
      then err out_of_range
      else if one <? cash_fraction ⊕ risk_fraction
      then err reserves_exceed_capital
      else with_reserve (parts allocatable funded) (
          checked_reserve (record {
            total_capital = total_capital;
            unallocated_capital = left_over allocatable funded;
            cash_reserve = cash_reserve;
            risk_reserve = risk_reserve;
          }))

  -- `normal` is `strip().lower()` on texts.
  module _ (normal : String → String) (g : CellCreationGovernor F) where
    unfoldable pub conservative_value : RangeEstimate F → F
    conservative_value v = if v.confidence <? g.min_confidence then v.low else v.base

    unfoldable pub reasons_against : CellCreationProposal F → List Reason
    reasons_against p =
        reason_if (contains (normal p.alpha_hypothesis) (map normal p.existing_hypotheses))
          not_distinct
        ++ (reason_if (p.opportunity_availability.confidence <? g.min_confidence)
              uncertain_opportunity
            ++ (reason_if (p.independence_evidence.confidence <? g.min_confidence)
                  uncertain_independence
                ++ (reason_if
                      (conservative_value p.expected_incremental_value <? g.min_incremental_value)
                      unclear_value
                    ++ reason_if (not p.operational_capacity_available) no_capacity)))

    unfoldable pub review : CellCreationProposal F → CellCreationDecision
    review p =
        let reasons = reasons_against p in
        record { approved = no_reason reasons; reasons = reasons }
