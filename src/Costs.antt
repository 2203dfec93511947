-- ===== src/Costs.antt =====
-- The running costs of the system and the two profits (services/cost_manager/engine.py). Notes and instants of a cost
-- are left out.
pub mod Fees
use autonomous_quant_tra.Base.{
  ℕ, ◌+◌, Bool, true, false, not, ◌||◌, List, [], ◌∷◌, ◌++◌, map, keep, length, ltb, Eq, nat_eq,
  eqb, ◌==◌, ◌≡◌, ◌↔◌, if◌then◌else◌, arith,
}
use autonomous_quant_tra.Int.{pos}
use autonomous_quant_tra.Dict.{Dict, insert, get_or}
use autonomous_quant_tra.Exec.{Result, ok, err}
use autonomous_quant_tra.Float.{Float, ◌⊕◌, ◌⊖◌, ◌⊗◌, ◌⊘◌, ◌<?◌, ◌≤?◌, minus, nought, sum}

pub data CostCategory : Type 0 where
  ai market_data news institutional options_data server db monitoring broker_fee transaction_fee
        fx :
      CostCategory

abbrev category_index : CostCategory → ℕ
category_index ai = 0
category_index market_data = 1
category_index news = 2
category_index institutional = 3
category_index options_data = 4
category_index server = 5
category_index db = 6
category_index monitoring = 7
category_index broker_fee = 8
category_index transaction_fee = 9
category_index fx = 10

pub category_iff :
    (a b : CostCategory) → (eqb (category_index a) (category_index b) ≡ true) ↔ (a ≡ b)
category_iff a b = ground arith

instance abbrev pub category_eq : Eq CostCategory
category_eq = record {
  beq = λ a b. eqb (category_index a) (category_index b);
  beq_iff = category_iff;
}

pub record CostEntry (F : Type 0) : Type 0 where
  pub category : CostCategory
  pub amount : F

pub record TwoPnl (F : Type 0) : Type 0 where
  pub trading_pnl : F
  pub operating_costs : F

pub record OperatingCostEngine (F : Type 0) : Type 0 where
  pub entries : List (CostEntry F)

pub data CostError : Type 0 where
  negative_cost division_by_zero : CostError

-- `category in _ALREADY_IN_TRADING_PNL`
abbrev pub already_in_trading_pnl : CostCategory → Bool
already_in_trading_pnl transaction_fee = true
already_in_trading_pnl broker_fee = true
already_in_trading_pnl _ = false

pub data DataRoiVerdict : Type 0 where
  keep_it testing dormant cancel : DataRoiVerdict

pub record DataRoiEngine (F : Type 0) : Type 0 where
  pub min_observations : ℕ
  pub on_returns : List F
  pub off_returns : List F

-- What is asked of the cost engine.
pub data CostCall (F : Type 0) : Type 0 where
  records : CostEntry F → CostCall F
  fee : F → CostCall F

module _ {F : Type 0} ⦃fl : Float F⦄ where
  unfoldable pub project_net_pnl : TwoPnl F → F
  project_net_pnl p = p.trading_pnl ⊖ p.operating_costs

  unfoldable pub record_cost :
      CostEntry F → OperatingCostEngine F → Result CostError (Unit {0}) × OperatingCostEngine F
  record_cost entry e =
      if entry.amount <? nought
      then (err negative_cost, e)
      else (ok tt, record { entries = e.entries ++ (entry ∷ []) })

  unfoldable pub record_transaction_fee :
      F → OperatingCostEngine F → Result CostError (Unit {0}) × OperatingCostEngine F
  record_transaction_fee amount e =
      if amount ≤? nought
      then (ok tt, e)
      else record_cost (record { category = transaction_fee; amount = amount }) e

  abbrev pub is_charged : CostEntry F → Bool
  is_charged entry = not (already_in_trading_pnl entry.category)

  unfoldable pub total : OperatingCostEngine F → F
  total e = sum (map (λ entry. entry.amount) (keep is_charged e.entries))

  unfoldable pub trading_fees_total : OperatingCostEngine F → F
  trading_fees_total e = sum (
      map (λ entry. entry.amount) (keep (λ entry. already_in_trading_pnl entry.category) e.entries))

  abbrev pub add_category : List (CostEntry F) → Dict CostCategory F → Dict CostCategory F
  add_category [] out = out
  add_category (entry ∷ entries) out =
      add_category entries
        (insert entry.category (get_or entry.category nought out ⊕ entry.amount) out)

  unfoldable pub by_category : OperatingCostEngine F → Dict CostCategory F
  by_category e = add_category e.entries []

  unfoldable pub two_pnl : F → OperatingCostEngine F → TwoPnl F
  two_pnl trading_pnl e = record { trading_pnl = trading_pnl; operating_costs = total e }

  unfoldable pub record_session : F → F → DataRoiEngine F → DataRoiEngine F
  record_session premium_on_return premium_off_return e = record e {
    on_returns = e.on_returns ++ (premium_on_return ∷ []);
    off_returns = e.off_returns ++ (premium_off_return ∷ []);
  }

  abbrev pub verdict_on : F → F → DataRoiVerdict
  verdict_on monthly_cost net =
      if monthly_cost <? net
      then keep_it
      else if nought <? net
      then testing
      else if minus monthly_cost ⊘ fl.decimal (pos 2) 0 <? net
      then dormant
      else cancel

  unfoldable pub evaluate : F → F → DataRoiEngine F → Result CostError DataRoiVerdict
  evaluate monthly_cost equity e =
      let count = length e.on_returns in
      let incremental = (sum e.on_returns ⊖ sum e.off_returns) ⊘ fl.decimal (pos count) 0 in
      let monthly_edge_value = incremental ⊗ equity ⊗ fl.decimal (pos 21) 0 in
      if ltb count e.min_observations
      then ok testing
      else if count == 0
      then err division_by_zero
      else ok (verdict_on monthly_cost (monthly_edge_value ⊖ monthly_cost))

  abbrev pub perform : CostCall F → OperatingCostEngine F → OperatingCostEngine F
  perform (records entry) e = (record_cost entry e).1
  perform (fee amount) e = (record_transaction_fee amount e).1

  unfoldable pub run : List (CostCall F) → OperatingCostEngine F → OperatingCostEngine F
  run [] e = e
  run (call ∷ calls) e = run calls (perform call e)

  abbrev pub is_fee : CostCall F → Bool
  is_fee (records entry) = (entry.category == transaction_fee) || (entry.category == broker_fee)
  is_fee (fee amount) = true
