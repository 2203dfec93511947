-- ===== src/Tests/Cells.antt =====
-- The cells.
use mathlib.Core.List.{Permᴰ}
use autonomous_quant_tra.Base.{arith, ◌≡◌, refl, some, [], ◌∷◌, ◌++◌, string_eq, All, String}
use autonomous_quant_tra.Int.{ℤ}
use autonomous_quant_tra.Dict.{Dict, keys, lookup}
use autonomous_quant_tra.Exec.{OnOk}
use autonomous_quant_tra.Float.{◌≼◌, ◌⊖◌, abs}
use autonomous_quant_tra.Float.Fixed.{fixed_float, fixed-IsFloat, computing}
use autonomous_quant_tra.Schema.{buy, sell}
use autonomous_quant_tra.Ledger.{record_fill}
use autonomous_quant_tra.Ledger as Master
use autonomous_quant_tra.Cells.{CellOrderIntent}
use autonomous_quant_tra.Cells.Book.{CellLedger, broker_fill, apply_fill, position_qty}
use autonomous_quant_tra.Cells.Book.Refinement.{Agrees, apply_fill-Agrees}
use autonomous_quant_tra.Cells.Netting.{
  NettingEngine, arrival_mid_v1, Matched, cross_all, net_symbol,
}
use autonomous_quant_tra.Cells.Netting.Loop.{cross_all_ends}
use autonomous_quant_tra.Cells.Netting.Order.{plan_of, net_symbol_permuted}
use autonomous_quant_tra.Cells.Match.{
  CellReconciliationEngine, reconcile, reconcile-Close, compare_cells, cash_check, check_symbols,
  symbol_check, Close, cell_symbols, expected_cash,
}
use autonomous_quant_tra.Cells.Stops.{
  CellStopRegistry, SellReservationLedger, CellStopPlan, symbol_scope, trigger,
}
use autonomous_quant_tra.Cells.Stops.Exits.{IsExit, trigger-IsExit}
use autonomous_quant_tra.Tests.{whole}
use autonomous_quant_tra.Tests.Accounts.{account}
use autonomous_quant_tra.Tests.Control.{controller}

abbrev cell : CellLedger ℤ
cell = record {
  cell_id = "alpha";
  entries = [];
  cash = account.cash;
  positions = account.positions;
  virtual_realized_pnl = account.realized_pnl;
}

apply_fill-Agrees_example :
    Agrees broker_fill "AAPL"
      (whole 2)
      (whole 100)
      (whole 1)
      7
      ""
      account
      cell
      (record_fill "AAPL" (whole 2) (whole 100) (whole 1) 7 "" account)
      (apply_fill broker_fill "AAPL" (whole 2) (whole 100) (whole 1) 7 "" cell)
unfolding computing
apply_fill-Agrees_example =
    apply_fill-Agrees broker_fill "AAPL" (whole 2) (whole 100) (whole 1) 7 "" account cell
      fixed-IsFloat (omega arith)
      (record { same_cash = refl; same_positions = refl; same_pnl = refl })

abbrev engine : NettingEngine ℤ
engine = record { transfer_price_fn = λ symbol. whole 50; method = arrival_mid_v1 }

abbrev wanted : CellOrderIntent ℤ
wanted = record {
  intent_id = "i1";
  cell_id = "beta";
  symbol = "AAPL";
  side = buy;
  qty = whole 5;
  created_at = 1;
}

abbrev wanted_too : CellOrderIntent ℤ
wanted_too = record {
  intent_id = "i2";
  cell_id = "gamma";
  symbol = "AAPL";
  side = buy;
  qty = whole 3;
  created_at = 1;
}

abbrev offered : CellOrderIntent ℤ
offered = record {
  intent_id = "i3";
  cell_id = "alpha";
  symbol = "AAPL";
  side = sell;
  qty = whole 6;
  created_at = 1;
}

cross_all_ends_example :
    (m : Matched ℤ) × (cross_all engine "AAPL" (wanted ∷ wanted_too ∷ []) (offered ∷ []) ≡ some m)
cross_all_ends_example =
    cross_all_ends fixed-IsFloat engine "AAPL" (wanted ∷ wanted_too ∷ []) (offered ∷ [])

net_symbol_permuted_example :
    plan_of (net_symbol engine "AAPL" (wanted ∷ wanted_too ∷ offered ∷ []))
    ≡ plan_of (net_symbol engine "AAPL" (wanted_too ∷ wanted ∷ offered ∷ []))
net_symbol_permuted_example =
    net_symbol_permuted engine "AAPL" (Permᴰ.swap refl refl)
      ((refl, (refl, tt)), ((refl, tt), (tt, tt)))

abbrev matching : CellReconciliationEngine ℤ
matching = record {
  unallocated_master_cash = whole 0;
  adjustments = whole 0;
  cash_tolerance = whole 0;
  qty_tolerance = whole 0;
}

abbrev one_cell : Dict String (CellLedger ℤ)
one_cell = ("alpha", cell) ∷ []

reconcile-Close_example :
    (abs (expected_cash matching one_cell ⊖ account.cash) ≼ whole 0)
    × All
        (Close matching account one_cell)
        (keys account.positions ++ cell_symbols matching one_cell)
    × (some controller ≡ some controller)
unfolding computing reconcile compare_cells cash_check check_symbols symbol_check
    Master.position_qty position_qty lookup
reconcile-Close_example = reconcile-Close matching account one_cell (some controller) refl

abbrev stop : CellStopPlan ℤ
stop = record {
  stop_id = "s1";
  cell_id = "alpha";
  symbol = "AAPL";
  stop_price = whole 40;
  scope = symbol_scope;
  reason = "thesis";
}

abbrev claims : SellReservationLedger ℤ
claims = record { master_long_qty = ("AAPL", whole 10) ∷ []; reservations = [] }

abbrev registry : CellStopRegistry ℤ
registry = record { sell_reservations = claims; stops = ("s1", stop) ∷ []; ids_drawn = 0 }

trigger-IsExit_example :
    OnOk (All (IsExit one_cell claims)) (trigger (λ n. "0a1b2c3d") "s1" 9 one_cell registry).0
trigger-IsExit_example = trigger-IsExit one_cell (λ n. "0a1b2c3d") "s1" 9 registry
