-- ===== src/Cells/Netting.antt =====
-- The netting of the cells' intents (services/capital_cells/netting.py). The transfer price of a symbol
-- is a parameter.
pub mod Apply
pub mod Loop
pub mod Order
use autonomous_quant_tra.Base.{
  ℕ, zero, suc, ◌+◌, String, Bool, true, false, not, ◌&&◌, Option, none, some, List, [], ◌∷◌, ◌++◌,
  map, length, keep, sorted, contains, ◌==◌, if◌then◌else◌, string_eq, pair_eq,
}
use autonomous_quant_tra.Int.{pos}
use autonomous_quant_tra.Text.{concat}
use autonomous_quant_tra.Dict.{Dict, lookup, insert, get_or, has_key, values}
use autonomous_quant_tra.Exec.{Exec, Result, ok, err, pure, raise, ◌>>=◌}
use autonomous_quant_tra.Float.{
  Float, ◌⊕◌, ◌⊖◌, ◌⊗◌, minus, ◌<?◌, ◌≤?◌, nought, tiny, minus_tiny, min, abs, sum,
}
use autonomous_quant_tra.Schema.{Action, buy, sell, action_eq}
use autonomous_quant_tra.Cells.{
  CellError, short_sell, overdraw, unknown_cell, duplicate_intent, misattributed, out_of_fuel,
  CellOrderIntent, by_intent_id,
}
use autonomous_quant_tra.Cells.Book.{CellLedger, position_qty, record_internal_cross}

-- `TransferPriceMethod` has one member, whose value is the text.
pub data TransferPriceMethod : Type 0 where
  arrival_mid_v1 : TransferPriceMethod

abbrev pub method_text : TransferPriceMethod → String
method_text arrival_mid_v1 = "ARRIVAL_MID_V1"

pub record InternalCross (F : Type 0) : Type 0 where
  pub symbol : String
  pub buy_cell_id : String
  pub sell_cell_id : String
  pub qty : F
  pub transfer_price : F
  pub transfer_price_method : TransferPriceMethod

pub record SymbolNetResult (F : Type 0) : Type 0 where
  pub symbol : String
  pub gross_buy_qty : F
  pub gross_sell_qty : F
  pub internal_cross_qty : F
  pub net_broker_side : Option Action
  pub net_broker_qty : F
  pub crosses : List (InternalCross F)
  pub contributing_intents : List (CellOrderIntent F)
  pub residual_intents : List (CellOrderIntent F)

-- `NettingResult` holds one result for each symbol.
abbrev pub NettingResult : Type 0 → Type 0
NettingResult F = Dict String (SymbolNetResult F)

pub record NettingEngine (F : Type 0) : Type 0 where
  pub transfer_price_fn : String → F
  pub method : TransferPriceMethod

-- An intent beside what remains of it.
abbrev pub Open : Type 0 → Type 0
Open F = CellOrderIntent F × F

-- What the `while` has found: the crosses, and what remains of each intent.
pub record Matched (F : Type 0) : Type 0 where
  pub crosses : List (InternalCross F)
  pub buy_remaining : List (Open F)
  pub sell_remaining : List (Open F)

module _ {F : Type 0} ⦃fl : Float F⦄ where
  -- `_validate_batch`: the first loop, which adds up what each cell sells of each symbol.
  unfoldable pub sell_demand :
      Dict String (CellLedger F)
      → List (CellOrderIntent F)
      → List String
      → Dict (String × String) F
      → Result CellError (Dict (String × String) F)
  sell_demand cells [] seen demand = ok demand
  sell_demand cells (i ∷ intents) seen demand =
      let key : String × String = (i.cell_id, i.symbol) in
      let more =
        if i.side == sell then insert key (get_or key nought demand ⊕ i.qty) demand else demand in
      let rest = sell_demand cells intents (i.intent_id ∷ seen) more in
      if contains i.intent_id seen
      then err duplicate_intent
      else if has_key i.cell_id cells
      then rest
      else err unknown_cell

  -- The second loop: no cell sells more than it holds.
  unfoldable pub check_held :
      Dict String (CellLedger F) → Dict (String × String) F → Result CellError (Unit {0})
  check_held cells [] = ok tt
  check_held cells (((cell_id, symbol), demand) ∷ demands) =
      let rest = check_held cells demands in
      elim (lookup cell_id cells) [
        | none ↦ err unknown_cell
        | some cell ↦ if position_qty symbol cell ⊕ tiny <? demand then err short_sell else rest
      ]

  unfoldable pub validate_batch :
      List (CellOrderIntent F) → Dict String (CellLedger F) → Result CellError (Unit {0})
  validate_batch intents cells = elim (sell_demand cells intents [] []) [
    | err e ↦ err e
    | ok demands ↦ check_held cells demands
  ]

  -- `by_symbol.setdefault(intent.symbol, []).append(intent)`
  unfoldable pub group :
      List (CellOrderIntent F)
      → Dict String (List (CellOrderIntent F))
      → Dict String (List (CellOrderIntent F))
  group [] groups = groups
  group (i ∷ intents) groups =
      group intents (insert i.symbol (get_or i.symbol [] groups ++ i ∷ []) groups)

  -- One side of a symbol's intents, by id.
  unfoldable pub one_side : Action → List (CellOrderIntent F) → List (CellOrderIntent F)
  one_side side intents = sorted by_intent_id (keep (λ i. i.side == side) intents)

  abbrev pub quantities : List (CellOrderIntent F) → List F
  quantities [] = []
  quantities (i ∷ intents) = i.qty ∷ quantities intents

  abbrev pub untouched : List (CellOrderIntent F) → List (Open F)
  untouched [] = []
  untouched (i ∷ intents) = (i, i.qty) ∷ untouched intents

  -- An intent with at most 1e-9 left is passed.
  abbrev pub still_open : Open F → List (Open F) → List (Open F)
  still_open (i, left) rest = if left ≤? tiny then rest else (i, left) ∷ rest

  abbrev pub passed : Open F → List (Open F) → List (Open F)
  passed (i, left) rest = if left ≤? tiny then (i, left) ∷ rest else rest

  abbrev pub noted : Bool → InternalCross F → List (InternalCross F) → List (InternalCross F)
  noted large cross crosses = if large then cross ∷ crosses else crosses

  -- What one round adds to what the rounds after it find.
  abbrev pub after_round :
      InternalCross F → Open F → Open F → Option (Matched F) → Option (Matched F)
  after_round cross b s none = none
  after_round cross b s (some m) = some (record {
    crosses = noted (tiny <? cross.qty) cross m.crosses;
    buy_remaining = passed b m.buy_remaining;
    sell_remaining = passed s m.sell_remaining;
  })

  unfoldable pub net_side : F → Option Action
  net_side net_qty =
      if tiny <? net_qty then some buy else if net_qty <? minus_tiny then some sell else none

  unfoldable pub residual : List (Open F) → List (CellOrderIntent F)
  residual [] = []
  residual ((i, left) ∷ leftovers) =
      if tiny <? left then (record i { qty = left }) ∷ residual leftovers else residual leftovers

  abbrev pub leftovers : Option Action → Matched F → List (Open F)
  leftovers (some buy) m = m.buy_remaining
  leftovers (some sell) m = m.sell_remaining
  leftovers none m = m.sell_remaining

  abbrev pub cross_quantities : List (InternalCross F) → List F
  cross_quantities [] = []
  cross_quantities (c ∷ crosses) = c.qty ∷ cross_quantities crosses

  -- `__post_init__`
  unfoldable pub checked_net : SymbolNetResult F → Result CellError (SymbolNetResult F)
  checked_net r =
      if fl.decimal (pos 1) 6 <? abs (sum (quantities r.residual_intents) ⊖ r.net_broker_qty)
      then err misattributed
      else ok r

  abbrev pub net_result : String → List (CellOrderIntent F) → F → F → Matched F → SymbolNetResult F
  net_result symbol intents gross_buy gross_sell m =
      let net_qty = gross_buy ⊖ gross_sell in
      record {
        symbol = symbol;
        gross_buy_qty = gross_buy;
        gross_sell_qty = gross_sell;
        internal_cross_qty = sum (cross_quantities m.crosses);
        net_broker_side = net_side net_qty;
        net_broker_qty = abs net_qty;
        crosses = m.crosses;
        contributing_intents = intents;
        residual_intents = residual (leftovers (net_side net_qty) m);
      }

  abbrev pub netted :
      String
      → List (CellOrderIntent F)
      → F
      → F
      → Option (Matched F)
      → Result CellError (SymbolNetResult F)
  netted symbol intents gross_buy gross_sell none = err out_of_fuel
  netted symbol intents gross_buy gross_sell (some m) =
      checked_net (net_result symbol intents gross_buy gross_sell m)

  module _ (engine : NettingEngine F) where
    abbrev pub cross_of : String → CellOrderIntent F → CellOrderIntent F → F → InternalCross F
    cross_of symbol b s qty = record {
      symbol = symbol;
      buy_cell_id = b.cell_id;
      sell_cell_id = s.cell_id;
      qty = qty;
      transfer_price = engine.transfer_price_fn symbol;
      transfer_price_method = engine.method;
    }

    -- The `while` of `_net_symbol`, on fuel.
    unfoldable pub cross_loop : String → ℕ → List (Open F) → List (Open F) → Option (Matched F)
    cross_loop symbol fuel [] sells =
        some (record { crosses = []; buy_remaining = []; sell_remaining = sells })
    cross_loop symbol fuel (b ∷ buys) [] =
        some (record { crosses = []; buy_remaining = b ∷ buys; sell_remaining = [] })
    cross_loop symbol zero (b ∷ buys) (s ∷ sells) = none
    cross_loop symbol (suc fuel) ((b, x) ∷ buys) ((s, y) ∷ sells) =
        let qty = min x y in
        after_round (cross_of symbol b s qty) (b, x ⊖ qty) (s, y ⊖ qty)
          (cross_loop symbol fuel (still_open (b, x ⊖ qty) buys) (still_open (s, y ⊖ qty) sells))

    unfoldable pub cross_all :
        String → List (CellOrderIntent F) → List (CellOrderIntent F) → Option (Matched F)
    cross_all symbol buys sells =
        cross_loop symbol (length buys + length sells) (untouched buys) (untouched sells)

    -- `_net_symbol`
    unfoldable pub net_symbol :
        String → List (CellOrderIntent F) → Result CellError (SymbolNetResult F)
    net_symbol symbol intents =
        let buys = one_side buy intents in
        let sells = one_side sell intents in
        netted symbol intents (sum (quantities buys)) (sum (quantities sells))
          (cross_all symbol buys sells)

    unfoldable pub net_groups :
        Dict String (List (CellOrderIntent F)) → Result CellError (NettingResult F)
    net_groups [] = ok []
    net_groups ((symbol, intents) ∷ groups) =
        let rest = net_groups groups in
        elim (net_symbol symbol intents) [
          | err e ↦ err e
          | ok r ↦ elim rest [ err e ↦ err e | ok rs ↦ ok ((symbol, r) ∷ rs) ]
        ]

    unfoldable pub net :
        List (CellOrderIntent F) → Dict String (CellLedger F) → Result CellError (NettingResult F)
    net intents cells = elim (validate_batch intents cells) [
      | err e ↦ err e
      | ok u ↦ net_groups (group intents [])
    ]

  -- The properties of a result, and `broker_orders`.
  abbrev pub total : (SymbolNetResult F → F) → NettingResult F → F
  total flow result = sum (map flow (values result))

  unfoldable pub gross_buy_flow : NettingResult F → F
  gross_buy_flow result = total (λ r. r.gross_buy_qty) result

  unfoldable pub gross_sell_flow : NettingResult F → F
  gross_sell_flow result = total (λ r. r.gross_sell_qty) result

  unfoldable pub internal_cross_volume : NettingResult F → F
  internal_cross_volume result = total (λ r. r.internal_cross_qty) result

  unfoldable pub net_broker_flow : NettingResult F → F
  net_broker_flow result = total (λ r. r.net_broker_qty) result

  unfoldable pub broker_orders : NettingResult F → List (String × (Action × F))
  broker_orders [] = []
  broker_orders ((symbol, r) ∷ result) =
      let rest = broker_orders result in
      elim r.net_broker_side [
        | none ↦ rest
        | some side ↦
            if tiny <? r.net_broker_qty then (r.symbol, (side, r.net_broker_qty)) ∷ rest else rest
      ]
