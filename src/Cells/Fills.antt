-- ===== src/Cells/Fills.antt =====
-- The allocation of a broker's fill to the cells (services/capital_cells/fill_allocation.py).
use autonomous_quant_tra.Base.{
  ℕ, String, Bool, true, not, ◌&&◌, none, some, List, [], ◌∷◌, ◌++◌, keep, sorted, ◌==◌,
  if◌then◌else◌, string_eq, pair_eq,
}
use autonomous_quant_tra.Int.{pos}
use autonomous_quant_tra.Dict.{Dict, lookup, insert, get_or, has_key}
use autonomous_quant_tra.Exec.{Result, ok, err, pure, ◌>>=◌}
use autonomous_quant_tra.Float.{
  Float, ◌⊕◌, ◌⊖◌, ◌⊗◌, ◌⊘◌, minus, ◌<?◌, ◌≤?◌, nought, tiny, minus_tiny, sum,
}
use autonomous_quant_tra.Schema.{Action, buy, sell, action_eq}
use autonomous_quant_tra.Cells.{
  CellError, short_sell, overdraw, unknown_cell, mixed_order, over_filled, CellOrderIntent,
  by_intent_id,
}
use autonomous_quant_tra.Cells.Book.{CellLedger, OnCells, on_cell, position_qty, record_broker_fill}

pub record CellFillAllocation (F : Type 0) : Type 0 where
  pub cell_id : String
  pub symbol : String
  pub side : Action
  pub qty : F
  pub price : F
  pub fees : F

module _ {F : Type 0} ⦃fl : Float F⦄ where
  -- Whether the others share the first one's symbol and side.
  abbrev pub uniform : CellOrderIntent F → List (CellOrderIntent F) → Bool
  uniform i [] = true
  uniform i (j ∷ intents) = (j.symbol == i.symbol) && (j.side == i.side) && uniform i intents

  abbrev pub one_order : List (CellOrderIntent F) → Bool
  one_order [] = true
  one_order (i ∷ intents) = uniform i intents

  abbrev pub intent_quantities : List (CellOrderIntent F) → List F
  intent_quantities [] = []
  intent_quantities (i ∷ intents) = i.qty ∷ intent_quantities intents

  module _ (fill_qty fill_price fill_fees total_requested : F) where
    -- One share, which is left out if it is at most 1e-9.
    unfoldable pub share :
        CellOrderIntent F → F → List (CellFillAllocation F) → List (CellFillAllocation F)
    share i qty rest =
        if qty ≤? tiny
        then rest
        else (record {
          cell_id = i.cell_id;
          symbol = i.symbol;
          side = i.side;
          qty = qty;
          price = fill_price;
          fees = fill_fees ⊗ (qty ⊘ fill_qty);
        })
          ∷ rest

    -- The loop over the ordered intents: the last one gets what is left.
    unfoldable pub shares : F → List (CellOrderIntent F) → List (CellFillAllocation F)
    shares allocated_qty [] = []
    shares allocated_qty (i ∷ []) = share i (fill_qty ⊖ allocated_qty) []
    shares allocated_qty (i ∷ j ∷ intents) =
        let qty = fl.round (i.qty ⊘ total_requested ⊗ fill_qty) 6 in
        share i qty (shares (allocated_qty ⊕ qty) (j ∷ intents))

  unfoldable pub allocate :
      List (CellOrderIntent F) → F → F → F → Result CellError (List (CellFillAllocation F))
  allocate [] fill_qty fill_price fill_fees = ok []
  allocate (i ∷ intents) fill_qty fill_price fill_fees =
      let total_requested = sum (intent_quantities (i ∷ intents)) in
      if fill_qty ≤? nought
      then ok []
      else if not (one_order (i ∷ intents))
      then err mixed_order
      else if total_requested ≤? nought
      then ok []
      else if total_requested ⊕ fl.decimal (pos 1) 6 <? fill_qty
      then err over_filled
      else ok (
          shares fill_qty fill_price fill_fees total_requested nought
            (sorted by_intent_id (i ∷ intents)))

  -- What the allocations sell of each cell's symbol, and what they do to each cell's cash.
  unfoldable pub demands :
      Dict String (CellLedger F)
      → List (CellFillAllocation F)
      → Dict (String × String) F
      → Dict String F
      → Result CellError (Dict (String × String) F × Dict String F)
  demands cells [] sell_qty cash_delta = ok (sell_qty, cash_delta)
  demands cells (a ∷ allocations) sell_qty cash_delta =
      let key : String × String = (a.cell_id, a.symbol) in
      let before = get_or a.cell_id nought cash_delta in
      let sale = a.side == sell in
      let sold =
        if sale then insert key (get_or key nought sell_qty ⊕ a.qty) sell_qty else sell_qty in
      let gross = if sale then before ⊕ a.qty ⊗ a.price else before ⊖ a.qty ⊗ a.price in
      let rest = demands cells allocations sold (insert a.cell_id (gross ⊖ a.fees) cash_delta) in
      if has_key a.cell_id cells then rest else err unknown_cell

  unfoldable pub check_sales :
      Dict String (CellLedger F) → Dict (String × String) F → Result CellError (Unit {0})
  check_sales cells [] = ok tt
  check_sales cells (((cell_id, symbol), qty) ∷ sales) =
      let rest = check_sales cells sales in
      elim (lookup cell_id cells) [
        | none ↦ err unknown_cell
        | some cell ↦ if position_qty symbol cell ⊕ tiny <? qty then err short_sell else rest
      ]

  unfoldable pub check_cash :
      Dict String (CellLedger F) → Dict String F → Result CellError (Unit {0})
  check_cash cells [] = ok tt
  check_cash cells ((cell_id, delta) ∷ deltas) =
      let rest = check_cash cells deltas in
      elim (lookup cell_id cells) [
        | none ↦ err unknown_cell
        | some cell ↦ if cell.cash ⊕ delta <? minus_tiny then err overdraw else rest
      ]

  unfoldable pub validate_allocations :
      Dict String (CellLedger F) → List (CellFillAllocation F) → Result CellError (Unit {0})
  validate_allocations cells allocations = elim (demands cells allocations [] []) [
    | err e ↦ err e
    | ok (sell_qty, cash_delta) ↦ elim (check_sales cells sell_qty) [
      | err e ↦ err e
      | ok u ↦ check_cash cells cash_delta
    ]
  ]

  abbrev pub signed : Action → F → F
  signed buy qty = qty
  signed sell qty = minus qty

  unfoldable pub post_fills : ℕ → List (CellFillAllocation F) → OnCells F (Unit {0})
  post_fills at [] = pure tt
  post_fills at (a ∷ allocations) =
      on_cell a.cell_id (
        record_broker_fill a.symbol (signed a.side a.qty) a.price a.fees at
          "broker fill allocation (§11)")
      >>= λ u. post_fills at allocations

  unfoldable pub apply_allocations_to_cells : List (CellFillAllocation F) → ℕ → OnCells F (Unit {0})
  apply_allocations_to_cells allocations at cells = elim (validate_allocations cells allocations) [
    | err e ↦ (err e, cells)
    | ok u ↦
        post_fills at
          (keep (λ a. a.side == sell) allocations ++ keep (λ a. a.side == buy) allocations) cells
  ]
