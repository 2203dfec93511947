-- ===== src/Cells/Stops.antt =====
-- The cells' stops and what their exits reserve (services/capital_cells/stops.py). The eight hexadecimal
-- digits of a reservation's id are the text that `fresh_id` gives for the number of ids drawn so far.
pub mod Exits
use autonomous_quant_tra.Base.{
  ℕ, ◌+◌, String, Bool, true, false, not, ◌&&◌, Option, none, some, List, [], ◌∷◌, ◌++◌, map, keep,
  ◌==◌, if◌then◌else◌, string_eq,
}
use autonomous_quant_tra.Text.{concat}
use autonomous_quant_tra.Dict.{Dict, lookup, insert, erase, get_or, has_key, keys, values}
use autonomous_quant_tra.Exec.{Exec, Result, ok, err, pure, raise, ◌>>=◌}
use autonomous_quant_tra.Float.{Float, ◌⊕◌, ◌⊖◌, ◌<?◌, ◌≤?◌, nought, tiny, max, sum}
use autonomous_quant_tra.Schema.{sell}
use autonomous_quant_tra.Ledger.{PositionLot}
use autonomous_quant_tra.Cells.{CellOrderIntent}
use autonomous_quant_tra.Cells.Book.{CellLedger, position_qty}

-- DuplicateStopIdError, UnknownStopError, OversellError, DuplicateSellReservationError,
-- UnknownSellReservationError, and the ValueError of a quantity.
pub data StopError : Type 0 where
  duplicate_stop unknown_stop oversell duplicate_reservation unknown_reservation not_positive :
      StopError

pub data StopScope : Type 0 where
  cell_scope symbol_scope portfolio_scope : StopScope

pub record CellStopPlan (F : Type 0) : Type 0 where
  pub stop_id : String
  pub cell_id : String
  pub symbol : String
  pub stop_price : F
  pub scope : StopScope
  pub reason : String

pub record SellReservation (F : Type 0) : Type 0 where
  pub reservation_id : String
  pub cell_id : String
  pub symbol : String
  pub qty : F

pub record SellReservationLedger (F : Type 0) : Type 0 where
  pub master_long_qty : Dict String F
  pub reservations : Dict String (SellReservation F)

pub record CellStopRegistry (F : Type 0) : Type 0 where
  pub sell_reservations : SellReservationLedger F
  pub stops : Dict String (CellStopPlan F)
  pub ids_drawn : ℕ

-- An exit that is planned: the cell, the symbol and the quantity.
pub record Exit (F : Type 0) : Type 0 where
  pub cell_id : String
  pub symbol : String
  pub exit_qty : F

module _ {F : Type 0} ⦃fl : Float F⦄ where
  unfoldable pub sync_master_long_qty :
      String → F → SellReservationLedger F → SellReservationLedger F
  sync_master_long_qty symbol qty l = record l {
    master_long_qty = insert symbol qty l.master_long_qty;
  }

  -- `reserved_qty(symbol)`, and with a cell's id as well.
  abbrev pub counts : String → Option String → SellReservation F → Bool
  counts symbol none r = r.symbol == symbol
  counts symbol (some cell_id) r = (r.symbol == symbol) && (r.cell_id == cell_id)

  unfoldable pub reserved_qty : String → Option String → SellReservationLedger F → F
  reserved_qty symbol cell_id l = sum (
      map (λ (r : SellReservation F). r.qty) (keep (counts symbol cell_id) (values l.reservations)))

  unfoldable pub available_to_reserve : String → SellReservationLedger F → F
  available_to_reserve symbol l =
      max nought (get_or symbol nought l.master_long_qty ⊖ reserved_qty symbol none l)

  -- `check_can_reserve` raises unless this holds.
  unfoldable pub can_reserve : String → F → SellReservationLedger F → Bool
  can_reserve symbol qty l = not (available_to_reserve symbol l ⊕ tiny <? qty)

  unfoldable pub reserve_sell :
      String → String → String → F → Exec StopError (SellReservationLedger F) (SellReservation F)
  reserve_sell reservation_id cell_id symbol qty l =
      let reservation : SellReservation F = record {
        reservation_id = reservation_id;
        cell_id = cell_id;
        symbol = symbol;
        qty = qty;
      } in
      if qty ≤? nought
      then (err not_positive, l)
      else if has_key reservation_id l.reservations
      then (err duplicate_reservation, l)
      else if can_reserve symbol qty l
      then (
        ok reservation,
        record l { reservations = insert reservation_id reservation l.reservations },
      )
      else (err oversell, l)

  unfoldable pub release : String → Exec StopError (SellReservationLedger F) Unit
  release reservation_id l =
      if has_key reservation_id l.reservations
      then (ok tt, record l { reservations = erase reservation_id l.reservations })
      else (err unknown_reservation, l)

  unfoldable pub register : CellStopPlan F → Exec StopError (CellStopRegistry F) (CellStopPlan F)
  register plan r =
      if has_key plan.stop_id r.stops
      then (err duplicate_stop, r)
      else (ok plan, record r { stops = insert plan.stop_id plan r.stops })

  unfoldable pub get : String → CellStopRegistry F → Result StopError (CellStopPlan F)
  get stop_id r = elim (lookup stop_id r.stops) [ none ↦ err unknown_stop | some plan ↦ ok plan ]

  unfoldable pub cancel : String → Exec StopError (CellStopRegistry F) Unit
  cancel stop_id r =
      if has_key stop_id r.stops
      then (ok tt, record r { stops = erase stop_id r.stops })
      else (err unknown_stop, r)

  unfoldable pub stops_for_cell : String → CellStopRegistry F → List (CellStopPlan F)
  stops_for_cell cell_id r = keep (λ (s : CellStopPlan F). s.cell_id == cell_id) (values r.stops)

  -- The pairs of a cell and a symbol that a scope reaches.
  abbrev pub holding : CellLedger F → String → Bool
  holding c symbol = tiny <? position_qty symbol c

  unfoldable pub holders : String → Dict String (CellLedger F) → List (String × String)
  holders symbol [] = []
  holders symbol ((cell_id, c) ∷ cells) =
      let rest = holders symbol cells in if holding c symbol then (cell_id, symbol) ∷ rest else rest

  unfoldable pub all_holdings : Dict String (CellLedger F) → List (String × String)
  all_holdings [] = []
  all_holdings ((cell_id, c) ∷ cells) =
      map (λ symbol. (cell_id, symbol)) (keep (holding c) (keys c.positions)) ++ all_holdings cells

  unfoldable pub targets : CellStopPlan F → Dict String (CellLedger F) → List (String × String)
  targets plan cells = elim plan.scope [
    | cell_scope ↦ (plan.cell_id, plan.symbol) ∷ []
    | symbol_scope ↦ holders plan.symbol cells
    | portfolio_scope ↦ all_holdings cells
  ]

  -- Step 1: what each target holds beyond what is reserved for it.
  abbrev pub exit_of : SellReservationLedger F → String → String → CellLedger F → Exit F
  exit_of l cell_id symbol c = record {
    cell_id = cell_id;
    symbol = symbol;
    exit_qty = position_qty symbol c ⊖ reserved_qty symbol (some cell_id) l;
  }

  abbrev pub add_exit : Exit F → List (Exit F) → List (Exit F)
  add_exit x planned = if x.exit_qty ≤? tiny then planned else x ∷ planned

  abbrev pub plan_exit :
      SellReservationLedger F
      → String
      → String
      → Option (CellLedger F)
      → List (Exit F)
      → List (Exit F)
  plan_exit l cell_id symbol none planned = planned
  plan_exit l cell_id symbol (some c) planned = add_exit (exit_of l cell_id symbol c) planned

  unfoldable pub plan_exits :
      SellReservationLedger F → Dict String (CellLedger F) → List (String × String) → List (Exit F)
  plan_exits l cells [] = []
  plan_exits l cells ((cell_id, symbol) ∷ pairs) =
      plan_exit l cell_id symbol (lookup cell_id cells) (plan_exits l cells pairs)

  -- Step 2: the demand for each symbol fits.
  unfoldable pub demand_by_symbol : List (Exit F) → Dict String F → Dict String F
  demand_by_symbol [] demand = demand
  demand_by_symbol (x ∷ planned) demand =
      demand_by_symbol planned (insert x.symbol (get_or x.symbol nought demand ⊕ x.exit_qty) demand)

  unfoldable pub demands_fit : SellReservationLedger F → Dict String F → Bool
  demands_fit l [] = true
  demands_fit l ((symbol, demand) ∷ demands) = can_reserve symbol demand l && demands_fit l demands

  module _ (fresh_id : ℕ → String) (stop_id : String) (at : ℕ) where
    abbrev pub id_of : Exit F → ℕ → String
    id_of x n = concat (stop_id ∷ ":" ∷ x.cell_id ∷ ":" ∷ x.symbol ∷ ":" ∷ fresh_id n ∷ [])

    abbrev pub intent_of : Exit F → ℕ → CellOrderIntent F
    intent_of x n = record {
      intent_id = id_of x n;
      cell_id = x.cell_id;
      symbol = x.symbol;
      side = sell;
      qty = x.exit_qty;
      created_at = at;
    }

    abbrev pub answered :
        CellOrderIntent F
        → Result StopError (SellReservation F)
        → Result StopError (CellOrderIntent F)
    answered i (err e) = err e
    answered i (ok made) = ok i

    -- Step 3
    abbrev pub reserve_exit : Exit F → Exec StopError (CellStopRegistry F) (CellOrderIntent F)
    reserve_exit x r =
        let (answer, after) =
          reserve_sell (id_of x r.ids_drawn) x.cell_id x.symbol x.exit_qty r.sell_reservations in
        (
          answered (intent_of x r.ids_drawn) answer,
          record r { sell_reservations = after; ids_drawn = r.ids_drawn + 1 },
        )

    unfoldable pub commit :
        List (Exit F) → Exec StopError (CellStopRegistry F) (List (CellOrderIntent F))
    commit [] = pure []
    commit (x ∷ planned) =
        reserve_exit x >>= λ intent. (commit planned >>= λ intents. pure (intent ∷ intents))

    abbrev pub planned_exits :
        CellStopPlan F → Dict String (CellLedger F) → CellStopRegistry F → List (Exit F)
    planned_exits plan cells r = plan_exits r.sell_reservations cells (targets plan cells)

    unfoldable pub fire :
        Dict String (CellLedger F)
        → Result StopError (CellStopPlan F)
        → Exec StopError (CellStopRegistry F) (List (CellOrderIntent F))
    fire cells (err e) r = (err e, r)
    fire cells (ok plan) r =
        let planned = planned_exits plan cells r in
        if demands_fit r.sell_reservations (demand_by_symbol planned [])
        then commit planned r
        else (err oversell, r)

    unfoldable pub trigger :
        Dict String (CellLedger F) → Exec StopError (CellStopRegistry F) (List (CellOrderIntent F))
    trigger cells r = fire cells (get stop_id r) r
