-- ===== src/Cells/Book.antt =====
-- A cell's virtual ledger (services/capital_cells/ledger.py). A lot has the fields of the master's.
-- `entry_id`, a random UUID that nothing reads, is left out.
pub mod Refinement
use autonomous_quant_tra.Base.{
  ℕ, String, Bool, true, false, not, Option, none, some, List, [], ◌∷◌, ◌++◌, if◌then◌else◌,
  string_eq,
}
use autonomous_quant_tra.Text.{concat, or_text}
use autonomous_quant_tra.Dict.{Dict, lookup, insert, erase}
use autonomous_quant_tra.Exec.{Exec, Result, ok, err, pure, raise}
use autonomous_quant_tra.Float.{
  Float, ◌⊕◌, ◌⊖◌, ◌⊗◌, ◌⊘◌, minus, ◌<?◌, ◌≤?◌, truthy, nought, tiny, minus_tiny,
}
use autonomous_quant_tra.Ledger.{PositionLot}
use autonomous_quant_tra.Cells.{CellError, short_sell, overdraw, zero_division, unknown_cell}

pub data CellEntryKind : Type 0 where
  allocation broker_fill broker_fee internal_cross : CellEntryKind

pub record CellLedgerEntry (F : Type 0) : Type 0 where
  pub at : ℕ
  pub cell_id : String
  pub kind : CellEntryKind
  pub amount : F
  pub symbol : Option String
  pub qty : F
  pub price : F
  pub virtual_realized_pnl : F
  pub note : String

pub record CellLedger (F : Type 0) : Type 0 where
  pub cell_id : String
  pub entries : List (CellLedgerEntry F)
  pub cash : F
  pub positions : Dict String (PositionLot F)
  pub virtual_realized_pnl : F

abbrev pub Cell : Type 0 → Type 0 → Type 0
Cell F A = Exec CellError (CellLedger F) A

-- Changes of the cells, which stand in a dictionary by id.
abbrev pub OnCells : Type 0 → Type 0 → Type 0
OnCells F A = Exec CellError (Dict String (CellLedger F)) A

-- A call on `cells[cell_id]`.
unfoldable pub on_cell :
    {F : Type 0} → String → Exec CellError (CellLedger F) (Unit {0}) → OnCells F (Unit {0})
on_cell cell_id call cells = elim (lookup cell_id cells) [
  | none ↦ (err unknown_cell, cells)
  | some cell ↦ (let (r, after) = call cell in (r, insert cell_id after cells))
]

module _ {F : Type 0} ⦃fl : Float F⦄ where
  abbrev pub new_cell : String → CellLedger F
  new_cell cell_id = record {
    cell_id = cell_id;
    entries = [];
    cash = nought;
    positions = [];
    virtual_realized_pnl = nought;
  }

  unfoldable pub allocate_cash : F → ℕ → String → Cell F Unit
  allocate_cash amount at note c =
      let candidate = c.cash ⊕ amount in
      if candidate <? minus_tiny then (err overdraw, c) else (
        ok tt,
        record c {
          entries =
              c.entries
              ++ (record {
                at = at;
                cell_id = c.cell_id;
                kind = allocation;
                amount = amount;
                symbol = none;
                qty = nought;
                price = nought;
                virtual_realized_pnl = nought;
                note = note;
              })
                ∷ [];
          cash = candidate;
        },
      )

  -- The lot after the fill (`none` removes it) and the profit that a sale realizes.
  unfoldable pub bought_lot :
      String → F → F → Option (PositionLot F) → Result CellError (Option (PositionLot F) × F)
  bought_lot symbol side_qty price none =
      let new_qty = nought ⊕ side_qty in
      if not (truthy new_qty)
      then err zero_division
      else ok (
        some (record {
          symbol = symbol;
          qty = new_qty;
          avg_cost = (nought ⊕ side_qty ⊗ price) ⊘ new_qty;
        }),
        nought,
      )
  bought_lot symbol side_qty price (some lot) =
      let new_qty = lot.qty ⊕ side_qty in
      if not (truthy new_qty)
      then err zero_division
      else ok (
        some (record {
          symbol = symbol;
          qty = new_qty;
          avg_cost = (lot.qty ⊗ lot.avg_cost ⊕ side_qty ⊗ price) ⊘ new_qty;
        }),
        nought,
      )

  unfoldable pub sold_lot :
      String → F → F → Option (PositionLot F) → Result CellError (Option (PositionLot F) × F)
  sold_lot symbol sell_qty price none = err short_sell
  sold_lot symbol sell_qty price (some lot) =
      let remaining = lot.qty ⊖ sell_qty in
      if lot.qty ⊕ tiny <? sell_qty
      then err short_sell
      else ok (
        if remaining ≤? tiny
            then none
            else some (record { symbol = symbol; qty = remaining; avg_cost = lot.avg_cost }),
        (price ⊖ lot.avg_cost) ⊗ sell_qty,
      )

  unfoldable pub new_lot :
      String → F → F → Option (PositionLot F) → Result CellError (Option (PositionLot F) × F)
  new_lot symbol side_qty price lot =
      if nought <? side_qty
      then bought_lot symbol side_qty price lot
      else sold_lot symbol (minus side_qty) price lot

  abbrev pub kept_lots :
      String → Option (PositionLot F) → Dict String (PositionLot F) → Dict String (PositionLot F)
  kept_lots symbol none positions = erase symbol positions
  kept_lots symbol (some lot) positions = insert symbol lot positions

  module _ (kind : CellEntryKind) (symbol : String) (side_qty price fees : F) (at : ℕ)
      (note : String) where
    -- The lines under "commit".
    unfoldable pub commit_trade : Option (PositionLot F) → F → CellLedger F → CellLedger F
    commit_trade lot realized c = record c {
      positions = kept_lots symbol lot c.positions;
      cash = c.cash ⊕ minus side_qty ⊗ price;
      virtual_realized_pnl = c.virtual_realized_pnl ⊕ realized;
      entries =
          c.entries
          ++ (record {
            at = at;
            cell_id = c.cell_id;
            kind = kind;
            amount = minus side_qty ⊗ price;
            symbol = some symbol;
            qty = side_qty;
            price = price;
            virtual_realized_pnl = realized;
            note = note;
          })
            ∷ [];
    }

    unfoldable pub commit_fees : CellLedger F → CellLedger F
    commit_fees c =
        if truthy fees
        then record c {
          cash = c.cash ⊖ fees;
          entries =
              c.entries
              ++ (record {
                at = at;
                cell_id = c.cell_id;
                kind = broker_fee;
                amount = minus fees;
                symbol = some symbol;
                qty = nought;
                price = nought;
                virtual_realized_pnl = nought;
                note = concat ("fees for " ∷ or_text note symbol ∷ []);
              })
                ∷ [];
        }
        else c

    abbrev pub book_lot : Result CellError (Option (PositionLot F) × F) → Cell F Unit
    book_lot (err e) c = (err e, c)
    book_lot (ok planned) c =
        if c.cash ⊕ minus side_qty ⊗ price ⊖ fees <? minus_tiny
        then (err overdraw, c)
        else (ok tt, commit_fees (commit_trade planned.0 planned.1 c))

    -- `_apply_fill`
    unfoldable pub apply_fill : Cell F Unit
    apply_fill c = book_lot (new_lot symbol side_qty price (lookup symbol c.positions)) c

  unfoldable pub record_broker_fill : String → F → F → F → ℕ → String → Cell F Unit
  record_broker_fill symbol side_qty price fees at note =
      apply_fill broker_fill symbol side_qty price fees at note

  unfoldable pub record_internal_cross : String → F → F → ℕ → String → Cell F Unit
  record_internal_cross symbol side_qty price at note =
      apply_fill internal_cross symbol side_qty price nought at note

  unfoldable pub position_qty : String → CellLedger F → F
  position_qty symbol c = elim (lookup symbol c.positions) [ none ↦ nought | some lot ↦ lot.qty ]
