-- ===== src/Tests/Money.antt =====
-- The running costs.
use autonomous_quant_tra.Base.{◌≡◌, not, List, [], ◌∷◌, keep}
use autonomous_quant_tra.Int.{ℤ}
use autonomous_quant_tra.Float.{◌≼◌}
use autonomous_quant_tra.Float.Fixed.{fixed_float, fixed-IsFloat}
use autonomous_quant_tra.Costs.{
  OperatingCostEngine, ai, project_net_pnl, two_pnl, CostCall, records, fee, run, is_fee,
}
use autonomous_quant_tra.Costs.Fees.{fees_are_free}
use autonomous_quant_tra.Tests.{whole}

abbrev no_costs : OperatingCostEngine ℤ
no_costs = record { entries = [] }

abbrev month : List (CostCall ℤ)
month = records (record { category = ai; amount = whole 20 }) ∷ fee (whole 3) ∷ fee (whole 2) ∷ []

fees_are_free_example :
    (two_pnl (whole 100) (run month no_costs)
      ≡ two_pnl (whole 100) (run (keep (λ call. not (is_fee call)) month) no_costs))
    × (project_net_pnl (two_pnl (whole 100) (run month no_costs)) ≼ whole 100)
fees_are_free_example = fees_are_free month no_costs (whole 100) fixed-IsFloat tt
