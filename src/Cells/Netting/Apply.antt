-- ===== src/Cells/Netting/Apply.antt =====
-- The crosses are posted to the cells (services/capital_cells/netting.py): all sales, then all purchases.
use autonomous_quant_tra.Base.{
  ℕ, String, List, [], ◌∷◌, ◌++◌, map, if◌then◌else◌, string_eq, pair_eq,
}
use autonomous_quant_tra.Text.{concat}
use autonomous_quant_tra.Dict.{Dict, insert, get_or, has_key}
use autonomous_quant_tra.Exec.{Result, ok, err, pure, ◌>>=◌}
use autonomous_quant_tra.Float.{Float, ◌⊕◌, ◌⊖◌, ◌⊗◌, minus, nought}
use autonomous_quant_tra.Cells.{CellError, unknown_cell}
use autonomous_quant_tra.Cells.Book.{CellLedger, OnCells, on_cell, record_internal_cross}
use autonomous_quant_tra.Cells.Fills.{check_sales, check_cash}
use autonomous_quant_tra.Cells.Netting.{InternalCross, NettingResult, method_text}

-- A leg: the cell, the signed quantity, the peer, and the cross.
pub record Leg (F : Type 0) : Type 0 where
  pub cell_id : String
  pub signed_qty : F
  pub peer : String
  pub cross : InternalCross F

module _ {F : Type 0} ⦃fl : Float F⦄ where
  -- What the crosses sell of each cell's symbol, and what they do to each cell's cash.
  unfoldable pub cross_demands :
      Dict String (CellLedger F)
      → List (InternalCross F)
      → Dict (String × String) F
      → Dict String F
      → Result CellError (Dict (String × String) F × Dict String F)
  cross_demands cells [] sell_qty cash_delta = ok (sell_qty, cash_delta)
  cross_demands cells (c ∷ crosses) sell_qty cash_delta =
      let key : String × String = (c.sell_cell_id, c.symbol) in
      let notional = c.qty ⊗ c.transfer_price in
      let paid =
        insert c.buy_cell_id (get_or c.buy_cell_id nought cash_delta ⊖ notional) cash_delta in
      let received = insert c.sell_cell_id (get_or c.sell_cell_id nought paid ⊕ notional) paid in
      let rest =
        cross_demands cells crosses (insert key (get_or key nought sell_qty ⊕ c.qty) sell_qty)
          received in
      if has_key c.buy_cell_id cells
      then (if has_key c.sell_cell_id cells then rest else err unknown_cell)
      else err unknown_cell

  abbrev pub all_crosses : NettingResult F → List (InternalCross F)
  all_crosses [] = []
  all_crosses ((symbol, r) ∷ result) = r.crosses ++ all_crosses result

  -- `_validate_crosses`
  unfoldable pub validate_crosses :
      Dict String (CellLedger F) → List (InternalCross F) → Result CellError (Unit {0})
  validate_crosses cells crosses = elim (cross_demands cells crosses [] []) [
    | err e ↦ err e
    | ok (sell_qty, cash_delta) ↦ elim (check_sales cells sell_qty) [
      | err e ↦ err e
      | ok u ↦ check_cash cells cash_delta
    ]
  ]

  abbrev pub sell_leg : InternalCross F → Leg F
  sell_leg c = record {
    cell_id = c.sell_cell_id;
    signed_qty = minus c.qty;
    peer = c.buy_cell_id;
    cross = c;
  }

  abbrev pub buy_leg : InternalCross F → Leg F
  buy_leg c = record {
    cell_id = c.buy_cell_id;
    signed_qty = c.qty;
    peer = c.sell_cell_id;
    cross = c;
  }

  abbrev pub leg_note : Leg F → String
  leg_note leg = concat (
      "internal cross vs "
      ∷ leg.peer
      ∷ " @ "
      ∷ fl.general leg.cross.transfer_price 4
      ∷ " ("
      ∷ method_text leg.cross.transfer_price_method
      ∷ ")"
      ∷ [])

  unfoldable pub post_legs : ℕ → List (Leg F) → OnCells F (Unit {0})
  post_legs at [] = pure tt
  post_legs at (leg ∷ legs) =
      on_cell leg.cell_id (
        record_internal_cross leg.cross.symbol leg.signed_qty leg.cross.transfer_price at
          (leg_note leg))
      >>= λ u. post_legs at legs

  unfoldable pub apply_crosses_to_cells : NettingResult F → ℕ → OnCells F (Unit {0})
  apply_crosses_to_cells result at cells = elim (validate_crosses cells (all_crosses result)) [
    | err e ↦ (err e, cells)
    | ok u ↦
        post_legs at (map sell_leg (all_crosses result) ++ map buy_leg (all_crosses result)) cells
  ]
