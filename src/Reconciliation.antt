-- ===== src/Reconciliation.antt =====
-- Broker reconciliation (services/reconciliation/engine.py): the ledger against what the broker
-- reports. The broker's answer is an argument, and `none` its disconnection; the texts that a mismatch
-- carries are left out, but for the symbol.
pub mod Laws
use autonomous_quant_tra.Base.{
  String, Bool, true, false, Option, none, some, List, [], ◌∷◌, ◌++◌, if◌then◌else◌, string_eq,
}
use autonomous_quant_tra.Dict.{Dict, lookup, insert, has_key}
use autonomous_quant_tra.Float.{Float, ◌⊕◌, ◌⊖◌, ◌<?◌, abs}
use autonomous_quant_tra.Approval.{halt_new_entries, full_broker_disconnect}
use autonomous_quant_tra.Ledger.{Ledger, PositionLot}
use autonomous_quant_tra.Risk.{MasterRiskController, set_state}
use autonomous_quant_tra.Settlement.{BrokerCashBalance}

pub record BrokerPosition (F : Type 0) : Type 0 where
  pub symbol : String
  pub qty : F
  pub avg_cost : F

pub data Mismatch : Type 0 where
  broker_unreachable cash_differs : Mismatch
  missing_at_broker qty_differs missing_in_ledger : String → Mismatch

module _ {F : Type 0} where
  -- `{p.symbol: p for p in positions}`
  unfoldable pub by_symbol :
      List (BrokerPosition F) → Dict String (BrokerPosition F) → Dict String (BrokerPosition F)
  by_symbol [] d = d
  by_symbol (p ∷ ps) d = by_symbol ps (insert p.symbol p d)

  unfoldable pub missing_symbols :
      Dict String (PositionLot F) → Dict String (BrokerPosition F) → List Mismatch
  missing_symbols lots [] = []
  missing_symbols lots ((sym, p) ∷ ps) =
      if has_key sym lots
      then missing_symbols lots ps
      else missing_in_ledger sym ∷ missing_symbols lots ps

module _ {F : Type 0} ⦃fl : Float F⦄ (cash_tolerance qty_tolerance : F) where
  unfoldable pub lot_mismatch : String → F → Option (BrokerPosition F) → List Mismatch
  lot_mismatch sym qty none = missing_at_broker sym ∷ []
  lot_mismatch sym qty (some p) =
      if qty_tolerance <? abs (p.qty ⊖ qty) then qty_differs sym ∷ [] else []

  unfoldable pub lot_mismatches :
      Dict String (PositionLot F) → Dict String (BrokerPosition F) → List Mismatch
  lot_mismatches [] ps = []
  lot_mismatches ((sym, lot) ∷ lots) ps =
      lot_mismatch sym lot.qty (lookup sym ps) ++ lot_mismatches lots ps

  unfoldable pub cash_mismatch : BrokerCashBalance F → Ledger F → List Mismatch
  cash_mismatch cash l =
      if cash_tolerance <? abs (cash.settled_cash ⊕ cash.unsettled_cash ⊖ l.cash)
      then cash_differs ∷ []
      else []

  unfoldable pub compare_books :
      BrokerCashBalance F → Dict String (BrokerPosition F) → Ledger F → List Mismatch
  compare_books cash ps l =
      cash_mismatch cash l ++ (lot_mismatches l.positions ps ++ missing_symbols l.positions ps)

  -- A mismatch stops new entries.
  abbrev pub react : List Mismatch → MasterRiskController F → MasterRiskController F
  react [] c = c
  react (m ∷ ms) c = set_state halt_new_entries c

  unfoldable pub reconcile :
      Option (BrokerCashBalance F × List (BrokerPosition F))
      → Ledger F
      → MasterRiskController F
      → List Mismatch × MasterRiskController F
  reconcile none l c = (broker_unreachable ∷ [], set_state full_broker_disconnect c)
  reconcile (some (cash, positions)) l c =
      let report = compare_books cash (by_symbol positions []) l in (report, react report c)
