-- ===== src/Tests/Accounts.antt =====
-- Ledger, settlement and reservations.
use autonomous_quant_tra.Base.{◌+◌, ◌≡◌, ◌++◌, refl, none, List, [], ◌∷◌, All, arith, string_eq}
use autonomous_quant_tra.Int.{ℤ, neg_ℤ}
use autonomous_quant_tra.Dict.{lookup, insert}
use autonomous_quant_tra.Float.{◌⊕◌, ◌≼◌, minus, ◌⊗◌, nought}
use autonomous_quant_tra.Float.Fixed.{fixed_float, fixed-IsFloat, computing, decimal_fixed}
use autonomous_quant_tra.Ledger.{
  Ledger, plan, position_qty, EquitySnapshot, open_ledger, EntryKind, record_fill, append_entry,
  deposit,
}
use autonomous_quant_tra.Ledger.Calls.{
  Call, deposits, fills, snapshots, run, run_open-IsSound, FeesNonneg,
}
use autonomous_quant_tra.Ledger.Invariant.{IsSound}
use autonomous_quant_tra.Ledger.Fill.{Guarded, record_fill-Guarded}
use autonomous_quant_tra.Ledger.Moves.{expected_qty, record_fill_moves}
use autonomous_quant_tra.Ledger.Snapshot.{run-mark}
use autonomous_quant_tra.Settlement.{
  SettlementManager, settlement_lag, on_sell, process_settlements, buying_power,
}
use autonomous_quant_tra.Settlement.Laws.{sale_waits}
use autonomous_quant_tra.Reservation.{CapitalReservationLedger, reserve}
use autonomous_quant_tra.Reservation.Laws.{Entitled, GivesBack, reserve-Entitled, release-reserve}
use autonomous_quant_tra.Tests.{whole}

abbrev pub account : Ledger ℤ
account = record {
  currency = "USD";
  entries = [];
  cash = whole 1000;
  positions = ("AAPL", record { symbol = "AAPL"; qty = whole 10; avg_cost = whole 50 }) ∷ [];
  realized_pnl = whole 0;
  fees_paid = whole 0;
  initial_cash = whole 1000;
  high_water_mark = whole 1000;
}

abbrev day : List (Call ℤ)
day =
    deposits (whole 500) 1 "deposit"
    ∷ fills "AAPL" (whole 10) (whole 100) (whole 1) 2 ""
    ∷ snapshots (("AAPL", whole 90) ∷ [])
    ∷ fills "AAPL" (neg_ℤ (whole 4)) (whole 120) (whole 1) 3 ""
    ∷ fills "AAPL" (neg_ℤ (whole 40)) (whole 120) (whole 1) 4 ""
    ∷ []

abbrev opened : Ledger ℤ
opened = record {
  currency = "USD";
  entries =
      record {
        at = 0;
        kind = EntryKind.cash;
        amount = whole 1000;
        symbol = none;
        qty = whole 0;
        price = whole 0;
        realized_pnl = whole 0;
        note = "initial funding";
      }
      ∷ [];
  cash = whole 1000;
  positions = [];
  realized_pnl = whole 0;
  fees_paid = whole 0;
  initial_cash = whole 1000;
  high_water_mark = whole 1000;
}

free_of_charge : All FeesNonneg day
unfolding decimal_fixed
free_of_charge = (tt, (omega arith, (tt, (omega arith, (omega arith, tt)))))

run_open-IsSound_example : IsSound (run opened day)
unfolding open_ledger deposit append_entry computing
run_open-IsSound_example =
    run_open-IsSound fixed-IsFloat (whole 1000) "USD" 0 day free_of_charge refl

one_dollar : nought {F = ℤ} ≼ whole 1
unfolding decimal_fixed
one_dollar = omega arith

record_fill-Guarded_example :
    Guarded "AAPL"
      (neg_ℤ (whole 4))
      (whole 120)
      (whole 1)
      3
      ""
      account
      fixed-IsFloat
      one_dollar
      (record_fill "AAPL" (neg_ℤ (whole 4)) (whole 120) (whole 1) 3 "" account)
record_fill-Guarded_example =
    record_fill-Guarded "AAPL" (neg_ℤ (whole 4)) (whole 120) (whole 1) 3 "" account fixed-IsFloat
      one_dollar

abbrev sold : Ledger ℤ
sold = (record_fill "AAPL" (neg_ℤ (whole 4)) (whole 120) (whole 1) 3 "" account).1

record_fill_moves_example :
    (position_qty "AAPL" sold ≡ expected_qty (position_qty "AAPL" account) (neg_ℤ (whole 4)))
    × (sold.cash ≡ whole 1000 ⊕ minus (neg_ℤ (whole 4)) ⊗ whole 120 ⊕ minus (whole 1))
unfolding computing record_fill plan lookup insert append_entry
record_fill_moves_example =
    record_fill_moves "AAPL" (neg_ℤ (whole 4)) (whole 120) (whole 1) 3 "" account "AAPL"
      fixed-IsFloat one_dollar (refl, tt) refl

run-mark_example : whole 1000 ≼ (run account day).high_water_mark
run-mark_example = run-mark account day (tt, (tt, (tt, (tt, (tt, tt)))))

abbrev marked : Ledger ℤ
marked = record account { high_water_mark = whole 1700 }

abbrev seen : EquitySnapshot ℤ
seen = record {
  cash = whole 1000;
  positions_value = whole 700;
  equity = whole 1700;
  high_water_mark = whole 1700;
  drawdown = whole 0;
}

abbrev shop : SettlementManager ℤ
shop = record {
  settled_cash = whole 100;
  pending =
      record { amount = whole 20; settles_at = 50 }
      ∷ record { amount = whole 30; settles_at = 70 }
      ∷ [];
}

sale_waits_example :
    let after = process_settlements 60 (on_sell (whole 9) 55 shop) in
    let without = process_settlements 60 shop in
    (after.0 ≡ without.0)
    × (buying_power after.1 ≡ buying_power without.1)
    × (after.1.pending
        ≡ without.1.pending ++ record { amount = whole 9; settles_at = 55 + settlement_lag } ∷ [])
sale_waits_example = sale_waits (whole 9) 55 60 shop (omega arith)

abbrev pool : CapitalReservationLedger ℤ
pool = record {
  total_cash = whole 100;
  reservations =
      ("r1", record { reservation_id = "r1"; cell_id = "a"; amount = whole 30; note = "" }) ∷ [];
}

reserve-Entitled_example :
    Entitled "r2" "a" (whole 20) "" pool "a" (reserve "r2" "a" (whole 20) "" pool)
reserve-Entitled_example = reserve-Entitled "r2" "a" (whole 20) "" pool "a"

release-reserve_example :
    GivesBack "r2" "a" (whole 20) "" pool (reserve "r2" "a" (whole 20) "" pool)
release-reserve_example = release-reserve "r2" "a" (whole 20) "" pool
