-- ===== src/Paper.antt =====
-- The paper broker (packages/broker_adapters/paper.py): orders, positions and cash in memory. Quotes,
-- the clock's reading, the rates and the random ids are the market that it is asked in. What the
-- schemas refuse (a price that rounds to 0) is left out.
pub mod Calls
pub mod Covered
pub mod Positions
pub mod Run
use autonomous_quant_tra.Base.{
  ℕ, ◌+◌, String, Bool, true, false, not, ◌&&◌, ◌||◌, Option, none, some, List, [], ◌∷◌, ◌++◌,
  if◌then◌else◌, string_eq, ◌==◌, contains,
}
use autonomous_quant_tra.Int.{pos}
use autonomous_quant_tra.Dict.{Dict, lookup, insert, erase}
use autonomous_quant_tra.Exec.{Result, ok, err}
use autonomous_quant_tra.Float.{Float, ◌⊕◌, ◌⊖◌, ◌⊗◌, ◌⊘◌, ◌<?◌, ◌≤?◌, nought, tiny, max}
use autonomous_quant_tra.Schema.{
  Action, buy, sell, OrderType, market, limit, stop, OrderState, submitted, acknowledged,
  partially_filled, filled, cancelled, rejected, action_eq, state_eq,
}
use autonomous_quant_tra.Broker.{BrokerOrderRequest, BrokerFill, BrokerError, bad_request}
use autonomous_quant_tra.Reconciliation.{BrokerPosition}
use autonomous_quant_tra.Sizing.{Quote, mid}

pub data Fault : Type 0 where
  no_fault timeout disconnect partial_fill : Fault

-- `_PaperOrder`
pub record PaperOrder (F : Type 0) : Type 0 where
  pub request : BrokerOrderRequest F
  pub broker_order_id : String
  pub state : OrderState
  pub filled_qty : F
  pub fills : List (BrokerFill F)

pub record PaperBroker (F : Type 0) : Type 0 where
  pub settled_cash : F
  pub unsettled_cash : F
  pub orders : Dict String (PaperOrder F)
  pub positions : Dict String (BrokerPosition F)
  pub all_fills : List (BrokerFill F)
  pub fault : Fault
  pub ids_drawn : ℕ

-- `uuid.uuid4()` is the text that `fresh_id` gives for the number of ids drawn so far.
pub record Market (F : Type 0) : Type 0 where
  pub quote_of : String → Quote F
  pub now : ℕ
  pub fee_bps : F
  pub slippage_bps : F
  pub fresh_id : ℕ → String

abbrev pub is_partial : Fault → Bool
is_partial no_fault = false
is_partial timeout = false
is_partial disconnect = false
is_partial partial_fill = true

module _ {F : Type 0} ⦃fl : Float F⦄ (m : Market F) where
  abbrev ten_thousand : F
  ten_thousand = fl.decimal (pos 10_000) 0

  abbrev cent : F
  cent = fl.decimal (pos 1) 2

  unfoldable pub slippage : Quote F → F
  slippage q = mid q ⊗ m.slippage_bps ⊘ ten_thousand

  unfoldable pub limit_fill : Action → F → Quote F → Option F
  limit_fill buy limit_price q = if q.ask ≤? limit_price then some q.ask else none
  limit_fill sell limit_price q = if limit_price ≤? q.bid then some q.bid else none

  -- A protective sell stop is triggered by a bid at its price or below.
  unfoldable pub stop_fill : Action → F → Quote F → Option F
  stop_fill buy stop_price q = none
  stop_fill sell stop_price q =
      if q.bid ≤? stop_price then some (max cent (q.bid ⊖ slippage q)) else none

  unfoldable pub market_fill : Action → Quote F → F
  market_fill buy q = q.ask ⊕ slippage q
  market_fill sell q = max cent (q.bid ⊖ slippage q)

  -- `_fill_price`: `none` rests, and a price that is missing fails an assertion.
  unfoldable pub fill_price :
      OrderType → BrokerOrderRequest F → Quote F → Result BrokerError (Option F)
  fill_price market req q = ok (some (market_fill req.side q))
  fill_price limit req q = elim req.limit_price [
    | none ↦ err bad_request
    | some p ↦ ok (limit_fill req.side p q)
  ]
  fill_price stop req q = elim req.stop_price [
    | none ↦ err bad_request
    | some p ↦ ok (stop_fill req.side p q)
  ]

  -- `_cannot_fill`: an order that has fills is not rejected any more.
  unfoldable pub cannot_fill : PaperOrder F → PaperOrder F
  cannot_fill po = if po.filled_qty ≤? tiny then record po { state = rejected } else po

  -- The fill is noted on the order and in the broker's list.
  unfoldable pub book : String → PaperOrder F → F → F → F → PaperBroker F → PaperBroker F
  book cid po qty px fees b =
      let req = po.request in
      let fill : BrokerFill F = record {
        broker_fill_id = m.fresh_id b.ids_drawn;
        client_order_id = req.client_order_id;
        symbol = req.symbol;
        side = req.side;
        qty = qty;
        price = fl.round px 6;
        fees = fl.round fees 6;
        ts = m.now;
      } in
      let total = po.filled_qty ⊕ qty in
      record b {
        orders =
            insert cid
              (record po {
                fills = po.fills ++ fill ∷ [];
                filled_qty = total;
                state = if req.qty ⊖ tiny ≤? total then filled else partially_filled;
              })
              b.orders;
        all_fills = b.all_fills ++ fill ∷ [];
        ids_drawn = b.ids_drawn + 1;
      }

  abbrev pub keep_order : String → PaperOrder F → PaperBroker F → PaperBroker F
  keep_order cid po b = record b { orders = insert cid po b.orders }

  -- The position after a purchase, and after a sale.
  unfoldable pub bought : String → F → F → Option (BrokerPosition F) → BrokerPosition F
  bought symbol qty cost none = record {
    symbol = symbol;
    qty = nought ⊕ qty;
    avg_cost = fl.round ((nought ⊕ cost) ⊘ (nought ⊕ qty)) 6;
  }
  bought symbol qty cost (some p) = record {
    symbol = symbol;
    qty = p.qty ⊕ qty;
    avg_cost = fl.round ((p.qty ⊗ p.avg_cost ⊕ cost) ⊘ (p.qty ⊕ qty)) 6;
  }

  unfoldable pub sold :
      String
      → F
      → BrokerPosition F
      → Dict String (BrokerPosition F)
      → Dict String (BrokerPosition F)
  sold symbol qty p positions =
      if p.qty ⊖ qty ≤? tiny
      then erase symbol positions
      else insert symbol (record { symbol = symbol; qty = p.qty ⊖ qty; avg_cost = p.avg_cost })
          positions

  unfoldable pub fill_buy : String → PaperOrder F → F → F → PaperBroker F → PaperBroker F
  fill_buy cid po qty px b =
      let symbol = po.request.symbol in
      let cost = qty ⊗ px in
      let fees = cost ⊗ m.fee_bps ⊘ ten_thousand in
      if b.settled_cash ⊕ tiny <? cost ⊕ fees
      then keep_order cid (cannot_fill po) b
      else book cid po qty px fees (record b {
        settled_cash = b.settled_cash ⊖ (cost ⊕ fees);
        positions = insert symbol (bought symbol qty cost (lookup symbol b.positions)) b.positions;
      })

  -- Proceeds are unsettled until the next day.
  unfoldable pub sell_from :
      String → PaperOrder F → F → F → Option (BrokerPosition F) → PaperBroker F → PaperBroker F
  sell_from cid po qty px none b = keep_order cid (cannot_fill po) b
  sell_from cid po qty px (some p) b =
      let cost = qty ⊗ px in
      let fees = cost ⊗ m.fee_bps ⊘ ten_thousand in
      if p.qty ⊕ tiny <? qty
      then keep_order cid (cannot_fill po) b
      else book cid po qty px fees (record b {
        positions = sold po.request.symbol qty p b.positions;
        unsettled_cash = b.unsettled_cash ⊕ (cost ⊖ fees);
      })

  abbrev pub fill_side : Action → String → PaperOrder F → F → F → PaperBroker F → PaperBroker F
  fill_side buy cid po qty px b = fill_buy cid po qty px b
  fill_side sell cid po qty px b = sell_from cid po qty px (lookup po.request.symbol b.positions) b

  -- What is outstanding is filled, or half of it.
  unfoldable pub fill_at : String → PaperOrder F → F → PaperBroker F → PaperBroker F
  fill_at cid po px b =
      let outstanding = po.request.qty ⊖ po.filled_qty in
      let qty = if is_partial b.fault then outstanding ⊘ fl.decimal (pos 2) 0 else outstanding in
      if outstanding ≤? tiny then b else fill_side po.request.side cid po qty px b

  abbrev pub fill_maybe : String → PaperOrder F → Option F → PaperBroker F → PaperBroker F
  fill_maybe cid po none b = b
  fill_maybe cid po (some px) b = fill_at cid po px b

  abbrev pub try_fill :
      String
      → PaperOrder F
      → Result BrokerError (Option F)
      → PaperBroker F
      → Result BrokerError (Unit {0}) × PaperBroker F
  try_fill cid po (err x) b = (err x, b)
  try_fill cid po (ok px) b = (ok tt, fill_maybe cid po px b)

  -- `_execute`
  unfoldable pub execute :
      String → PaperOrder F → PaperBroker F → Result BrokerError (Unit {0}) × PaperBroker F
  execute cid po b =
      try_fill cid po (fill_price po.request.order_type po.request (m.quote_of po.request.symbol)) b
