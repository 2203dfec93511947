-- ===== src/Tests/Capital.antt =====
-- Capital, data and incidents.
use autonomous_quant_tra.Base.{
  arith, ◌*◌, ◌≡◌, ◌≢◌, refl, true, false, none, List, [], ◌∷◌, All, ℕ, string_eq, nat_eq,
}
use autonomous_quant_tra.Int.{ℤ, neg_ℤ}
use autonomous_quant_tra.Float.{◌≼◌, ◌⊗◌}
use autonomous_quant_tra.Float.Fixed.{fixed_float, fixed-IsFloat, computing}
use autonomous_quant_tra.LossControl.{Bar}
use autonomous_quant_tra.Allocation.{Candidate, allocate, IsFunded, allocate-IsFunded}
use autonomous_quant_tra.Integrity.{
  DataIntegrityEngine, times, validate_bars, found_in, bars_issues, bar_issues, extreme,
}
use autonomous_quant_tra.Integrity.Clean.{Ascending, CleanAfter, validate_bars-Clean}
use autonomous_quant_tra.Recovery.{
  RecoveryCall, reports, resumes, major, minor, run, new_manager, IsReviewed, run-IsReviewed,
}
use autonomous_quant_tra.Cells.Governor.{
  RangeEstimate, CellAllocationInputs, uncertainty_adjusted_score,
}
use autonomous_quant_tra.Cells.Governor.Score.{worse, score_worse}
use autonomous_quant_tra.Tests.{whole, micro}
use autonomous_quant_tra.Tests.Watch.{planned}
use autonomous_quant_tra.Tests.Control.{limits}

abbrev candidate : ℕ → Candidate ℤ
candidate n = record {
  sized = record {
    symbol = "AAPL";
    stop_plan = planned;
    qty = whole 1;
    risk_amount = whole 1;
    notional = whole n;
    calibrated_confidence = micro 500_000;
  };
  return_low = micro 10_000;
  return_high = micro (n * 1_000);
}

abbrev candidates : List (Candidate ℤ)
candidates = candidate 40 ∷ candidate 70 ∷ candidate 20 ∷ []

allocate-IsFunded_example :
    IsFunded
      (whole 1_000 ⊗ limits.max_total_exposure_pct ⊗ limits.exposure_cap_stage)
      (whole 100)
      (whole 10)
      candidates
      (allocate limits candidates (whole 1_000) (whole 100) (whole 10))
allocate-IsFunded_example = allocate-IsFunded limits candidates (whole 1_000) (whole 100) (whole 10)

abbrev bar_at : ℕ → ℕ → Bar ℤ
bar_at t close = record {
  symbol = "AAPL";
  ts = t;
  open_price = whole close;
  high = whole close;
  low = whole close;
  close = whole close;
  volume = 500;
}

abbrev bars : List (Bar ℤ)
bars = bar_at 1 100 ∷ bar_at 2 110 ∷ bar_at 3 105 ∷ []

abbrev data_engine : DataIntegrityEngine ℤ
data_engine = record {
  max_daily_move = micro 500_000;
  stale_after = 900;
  max_volume = 1_000;
  issues = [];
}

validate_bars-Clean_example :
    (bars ≢ [])
    × Ascending (times bars)
    × CleanAfter data_engine "AAPL" [] none bars
    × (data_engine.issues ≡ data_engine.issues)
unfolding computing validate_bars found_in bars_issues bar_issues extreme
validate_bars-Clean_example = validate_bars-Clean data_engine "AAPL" bars refl

abbrev faults : List RecoveryCall
faults =
    reports "broker" "position mismatch" major 1
    ∷ reports "data" "stale quote" minor 2
    ∷ resumes 1 false 3
    ∷ resumes 0 false 4
    ∷ resumes 0 true 5
    ∷ []

run-IsReviewed_example :
    All IsReviewed (run (λ t. "instant") (λ n. "0001") new_manager faults).incidents
run-IsReviewed_example = run-IsReviewed (λ t. "instant") (λ n. "0001") faults

abbrev losing : RangeEstimate ℤ
losing = record {
  low = neg_ℤ (micro 30_000);
  base = neg_ℤ (micro 20_000);
  high = micro 10_000;
  confidence = micro 700_000;
  sample_size = 40;
  method_version = "m";
  as_of = 1;
}

abbrev weak_cell : CellAllocationInputs ℤ
weak_cell = record {
  cell_id = "alpha";
  net_edge = losing;
  regime_stability = micro 900_000;
  capacity = losing;
  tail_risk = record { expected_shortfall = micro 50_000; sample_size = 40 };
  correlation_penalty = micro 100_000;
  drawdown = micro 50_000;
  cost_drag = micro 1_000;
}

score_worse_example :
    (uncertainty_adjusted_score
      (worse (micro 400_000) (micro 200_000) (micro 500_000) weak_cell)
      2
      (micro 600_000)).value
    ≼ (uncertainty_adjusted_score weak_cell 2 (micro 600_000)).value
unfolding computing
score_worse_example =
    score_worse fixed-IsFloat (micro 400_000) (micro 200_000) (micro 500_000) weak_cell 2
      (micro 600_000) (omega arith) (omega arith) (omega arith) (omega arith) (omega arith)
      (omega arith)
