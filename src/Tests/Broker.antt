-- ===== src/Tests/Broker.antt =====
-- The paper broker.
use autonomous_quant_tra.Base.{arith, ◌≡◌, refl, none, some, List, [], ◌∷◌, string_eq}
use autonomous_quant_tra.Int.{ℤ}
use autonomous_quant_tra.Dict.{lookup}
use autonomous_quant_tra.Float.Fixed.{fixed_float, fixed-IsFloat, computing}
use autonomous_quant_tra.Schema.{acknowledged, buy, sell, market, limit, filled, state_eq}
use autonomous_quant_tra.Broker.{BrokerOrderRequest}
use autonomous_quant_tra.Paper.{execute, PaperBroker, PaperOrder, Market, no_fault, partial_fill}
use autonomous_quant_tra.Paper.Run.{
  PaperCall, submits, cancels, polls, settles, injects, run, run-closed,
}
use autonomous_quant_tra.Paper.Positions.{Long, run-Long}
use autonomous_quant_tra.Paper.Covered.{IsCovered}
use autonomous_quant_tra.Tests.{whole}

abbrev purchase : BrokerOrderRequest ℤ
purchase = record {
  client_order_id = "c1";
  symbol = "AAA";
  side = buy;
  qty = whole 10;
  order_type = market;
  limit_price = none;
  stop_price = none;
}

abbrev sale : BrokerOrderRequest ℤ
sale = record {
  client_order_id = "c2";
  symbol = "AAA";
  side = sell;
  qty = whole 4;
  order_type = limit;
  limit_price = some (whole 90);
  stop_price = none;
}

abbrev filled_order : PaperOrder ℤ
filled_order = record {
  request = purchase;
  broker_order_id = "b0";
  state = filled;
  filled_qty = whole 10;
  fills = [];
}

abbrev oversold : PaperOrder ℤ
oversold = record {
  request = record sale { client_order_id = "c3"; qty = whole 40 };
  broker_order_id = "b3";
  state = acknowledged;
  filled_qty = whole 0;
  fills = [];
}

abbrev holder : PaperBroker ℤ
holder = record {
  settled_cash = whole 1_000;
  unsettled_cash = whole 0;
  orders = ("c1", filled_order) ∷ [];
  positions = ("AAA", record { symbol = "AAA"; qty = whole 10; avg_cost = whole 100 }) ∷ [];
  all_fills = [];
  fault = no_fault;
  ids_drawn = 2;
}

abbrev quoted : Market ℤ
quoted = record {
  quote_of = λ symbol. record { symbol = symbol; ts = 0; bid = whole 99; ask = whole 101 };
  now = 5;
  fee_bps = whole 1;
  slippage_bps = whole 2;
  fresh_id = λ n. "id";
}

abbrev calls : List (Market ℤ × PaperCall ℤ)
calls =
    (quoted, submits purchase)
    ∷ (quoted, cancels "c1")
    ∷ (quoted, injects partial_fill)
    ∷ (quoted, submits sale)
    ∷ (quoted, polls)
    ∷ (quoted, cancels "c2")
    ∷ (quoted, settles)
    ∷ []

run-closed_example : lookup "c1" (run holder calls).orders ≡ some filled_order
unfolding lookup
run-closed_example = run-closed "c1" filled_order refl holder calls (refl, tt) refl

run-Long_example :
    Long (run holder calls).positions
    × IsCovered quoted sell oversold
        (run holder calls)
        (execute quoted "c3" oversold (run holder calls)).1
unfolding computing
run-Long_example = run-Long fixed-IsFloat holder calls quoted "c3" oversold (omega arith, tt)
