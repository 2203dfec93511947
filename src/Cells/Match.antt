-- ===== src/Cells/Match.antt =====
-- The reconciliation of the cells with the master's ledger (services/capital_cells/reconciliation.py). The
-- texts of a mismatch are left out, but for the symbol. Python goes through the symbols, a set, in no order;
-- here they are in the order in which they are met.
use autonomous_quant_tra.Base.{
  ◌≡◌, ap, sym as symm, refl, inl, inr, String, true, false, Option, none, some, List, [], ◌∷◌,
  ◌++◌, map, ◌==◌, contains, All, All-contains, if◌then◌else◌, string_eq, arith, Bool-cases, ◌∙◌,
  eq_iff,
}
use autonomous_quant_tra.Dict.{Dict, keys, values}
use autonomous_quant_tra.Float.{Float, ◌⊕◌, ◌⊖◌, ◌<?◌, ◌≼◌, abs, sum}
use autonomous_quant_tra.Approval.{halt_new_entries}
use autonomous_quant_tra.Ledger.{Ledger}
use autonomous_quant_tra.Ledger as Master
use autonomous_quant_tra.Risk.{MasterRiskController, set_state}
use autonomous_quant_tra.Reconciliation.Laws.{append-nil_left, append-nil_right}
use autonomous_quant_tra.Cells.Book.{CellLedger, position_qty}

pub data CellMismatch : Type 0 where
  cash : CellMismatch
  position : String → CellMismatch

pub record CellReconciliationEngine (F : Type 0) : Type 0 where
  pub unallocated_master_cash : F
  pub adjustments : F
  pub cash_tolerance : F
  pub qty_tolerance : F

module _ {F : Type 0} ⦃fl : Float F⦄ (engine : CellReconciliationEngine F) where
  abbrev pub cell_cash_total : Dict String (CellLedger F) → F
  cell_cash_total cells = sum (map (λ (c : CellLedger F). c.cash) (values cells))

  abbrev pub expected_cash : Dict String (CellLedger F) → F
  expected_cash cells = cell_cash_total cells ⊕ engine.unallocated_master_cash ⊕ engine.adjustments

  abbrev pub cell_total : String → Dict String (CellLedger F) → F
  cell_total symbol cells = sum (map (position_qty symbol) (values cells))

  unfoldable pub cash_check : Ledger F → Dict String (CellLedger F) → List CellMismatch
  cash_check master cells =
      if engine.cash_tolerance <? abs (expected_cash cells ⊖ master.cash) then cash ∷ [] else []

  unfoldable pub symbol_check : Ledger F → Dict String (CellLedger F) → String → List CellMismatch
  symbol_check master cells symbol =
      if engine.qty_tolerance <? abs (cell_total symbol cells ⊖ Master.position_qty symbol master)
      then position symbol ∷ []
      else []

  abbrev pub cell_symbols : Dict String (CellLedger F) → List String
  cell_symbols [] = []
  cell_symbols ((cell_id, c) ∷ cells) = keys c.positions ++ cell_symbols cells

  -- A set: what is met again is passed over.
  unfoldable pub check_symbols :
      Ledger F → Dict String (CellLedger F) → List String → List String → List CellMismatch
  check_symbols master cells seen [] = []
  check_symbols master cells seen (symbol ∷ symbols) =
      let rest = check_symbols master cells (symbol ∷ seen) symbols in
      if contains symbol seen then rest else symbol_check master cells symbol ++ rest

  unfoldable pub compare_cells : Ledger F → Dict String (CellLedger F) → List CellMismatch
  compare_cells master cells =
      cash_check master cells
      ++ check_symbols master cells [] (keys master.positions ++ cell_symbols cells)

  abbrev pub respond :
      List CellMismatch → Option (MasterRiskController F) → Option (MasterRiskController F)
  respond [] controller = controller
  respond (m ∷ ms) none = none
  respond (m ∷ ms) (some c) = some (set_state halt_new_entries c)

  unfoldable pub reconcile :
      Ledger F
      → Dict String (CellLedger F)
      → Option (MasterRiskController F)
      → List CellMismatch × Option (MasterRiskController F)
  reconcile master cells controller =
      let report = compare_cells master cells in (report, respond report controller)

  module _ (master : Ledger F) (cells : Dict String (CellLedger F)) where
    symbol_check_close :
        (symbol : String)
        → symbol_check master cells symbol ≡ []
        → abs (cell_total symbol cells ⊖ Master.position_qty symbol master) ≼ engine.qty_tolerance
    unfolding symbol_check
    symbol_check_close symbol h = ground arith

    check_symbols_close :
        (symbol : String) (seen symbols : List String)
        → check_symbols master cells seen symbols ≡ []
        → contains symbol symbols ≡ true
        → contains symbol seen ≡ false
        → abs (cell_total symbol cells ⊖ Master.position_qty symbol master) ≼ engine.qty_tolerance
    unfolding check_symbols
    check_symbols_close symbol seen [] h present fresh = absurd (ground arith)
    check_symbols_close symbol seen (s ∷ symbols) h present fresh =
        let rest = check_symbols master cells (s ∷ seen) symbols in
        let first = symbol_check master cells s in
        elim (Bool-cases (symbol == s)) [
          | inl same ↦
              let e = (eq_iff symbol s).0 same in
              let unseen : contains s seen ≡ false = rw e at fresh in
              rw e (symbol_check_close s (append-nil_left first rest (rw unseen at h)))
          | inr other ↦
              let quiet : check_symbols master cells (s ∷ seen) symbols ≡ [] =
                elim (Bool-cases (contains s seen)) [
                  | inl known ↦ rw known at h
                  | inr unseen ↦ append-nil_right first rest (rw unseen at h)
                ] in
              check_symbols_close symbol (s ∷ seen) symbols quiet (rw other at present)
                (rw other fresh)
        ]

    -- The cells' total of a symbol is within the tolerance of the master's quantity.
    abbrev pub Close : String → Type 0
    Close symbol =
        abs (cell_total symbol cells ⊖ Master.position_qty symbol master) ≼ engine.qty_tolerance

    -- A report is empty only if the cells' cash, with what is not allocated and the adjustments, is within the
    -- tolerance of the master's, and, for every symbol that the master or a cell holds, the cells' total is
    -- within the tolerance of the master's quantity; the controller, if there is one, is then as it was.
    pub reconcile-Close :
        (controller : Option (MasterRiskController F)) {after : Option (MasterRiskController F)}
        → reconcile master cells controller ≡ ([], after)
        → (abs (expected_cash cells ⊖ master.cash) ≼ engine.cash_tolerance)
          × All Close (keys master.positions ++ cell_symbols cells)
          × (after ≡ controller)
    unfolding reconcile compare_cells cash_check
    reconcile-Close controller h =
        let symbols = keys master.positions ++ cell_symbols cells in
        let cash_part = cash_check master cells in
        let rest = check_symbols master cells [] symbols in
        let empty : cash_part ++ rest ≡ [] = ap (λ r. r.0) h in
        let even = append-nil_left cash_part rest empty in
        let quiet = append-nil_right cash_part rest empty in
        (
          ground arith,
          All-contains Close symbols
              (λ symbol present. check_symbols_close symbol [] symbols quiet present refl),
          symm (ap (λ r. r.1) h) ∙ ap (λ m. respond m controller) empty,
        )
