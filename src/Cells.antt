-- ===== src/Cells.antt =====
-- Capital cells (services/capital_cells): what the cells' ledgers, the netting of their intents, the
-- allocation of fills and the cells' stops share. A cell's intent is packages/schemas/capital_cell.py's.
pub mod Book
pub mod Fills
pub mod Governor
pub mod Match
pub mod Netting
pub mod Stops
use autonomous_quant_tra.Base.{
  ℕ, String, Bool, true, false, Option, none, some, List, [], ◌∷◌, if◌then◌else◌, string_eq,
  pair_eq, text_lt,
}
use autonomous_quant_tra.Dict.{Dict, lookup, insert, get_or}
use autonomous_quant_tra.Float.{Float, ◌⊕◌, ◌⊖◌, ◌⊗◌, nought}
use autonomous_quant_tra.Schema.{Action}

-- CellShortSellError, CellOverdrawError, a division by 0, UnknownCellError (or another KeyError),
-- DuplicateIntentIdError, and the ValueErrors of the components. No code raises `out_of_fuel`.
pub data CellError : Type 0 where
  short_sell overdraw zero_division unknown_cell duplicate_intent misattributed mixed_order
        over_filled duplicate_stop unknown_stop not_positive out_of_fuel :
      CellError

pub record CellOrderIntent (F : Type 0) : Type 0 where
  pub intent_id : String
  pub cell_id : String
  pub symbol : String
  pub side : Action
  pub qty : F
  pub created_at : ℕ

-- `key=lambda i: i.intent_id`
abbrev pub by_intent_id : {F : Type 0} → CellOrderIntent F → CellOrderIntent F → Bool
by_intent_id i j = text_lt i.intent_id j.intent_id
