-- ===== src/Paper/Calls.antt =====
-- The broker's methods, and the interface that they fill.
use autonomous_quant_tra.Base.{
  ℕ, ◌+◌, String, Bool, true, false, Option, none, some, List, [], ◌∷◌, length, drop, keep, leb,
  if◌then◌else◌, string_eq, contains,
}
use autonomous_quant_tra.Dict.{lookup, insert, has_key, values}
use autonomous_quant_tra.Exec.{Exec, ok, err, pure, gets, raise_if, modify, ◌>>=◌, ◌>>◌}
use autonomous_quant_tra.Float.{Float, ◌⊕◌, ◌⊖◌, nought, max}
use autonomous_quant_tra.Schema.{
  OrderState, submitted, acknowledged, partially_filled, cancelled, state_eq,
}
use autonomous_quant_tra.Settlement.{BrokerCashBalance}
use autonomous_quant_tra.Broker.{
  BrokerAdapter, BrokerOrderRequest, BrokerAck, BrokerFill, BrokerOrderStatus, BrokerError,
  duplicate_client_order_id, timed_out, disconnected, no_such_order,
}
use autonomous_quant_tra.Reconciliation.{BrokerPosition}
use autonomous_quant_tra.Paper.{
  Fault, no_fault, timeout, disconnect, partial_fill, PaperOrder, PaperBroker, Market, execute,
}

abbrev pub is_disconnect : Fault → Bool
is_disconnect no_fault = false
is_disconnect timeout = false
is_disconnect disconnect = true
is_disconnect partial_fill = false

abbrev pub is_timeout : Fault → Bool
is_timeout no_fault = false
is_timeout timeout = true
is_timeout disconnect = false
is_timeout partial_fill = false

-- The states in which an order rests at the broker.
abbrev pub resting : OrderState → Bool
resting s = contains s (acknowledged ∷ partially_filled ∷ [])

module _ {F : Type 0} ⦃fl : Float F⦄ (m : Market F) where
  abbrev pub Paper : Type 0 → Type 0
  Paper A = Exec BrokerError (PaperBroker F) A

  -- `_check_disconnect`, with what the method does after it.
  unfoldable pub connected : {A : Type 0} → Paper A → Paper A
  connected method b = if is_disconnect b.fault then (err disconnected, b) else method b

  abbrev pub new_order : BrokerOrderRequest F → String → PaperOrder F
  new_order req id = record {
    request = req;
    broker_order_id = id;
    state = acknowledged;
    filled_qty = nought;
    fills = [];
  }

  -- The order is entered, acknowledged, and tried at once.
  unfoldable pub enter : BrokerOrderRequest F → Paper Unit
  enter req b =
      let po = new_order req (m.fresh_id b.ids_drawn) in
      execute m req.client_order_id po
        (record b { orders = insert req.client_order_id po b.orders; ids_drawn = b.ids_drawn + 1 })

  -- A timeout is injected after the order has landed.
  unfoldable pub answer : BrokerOrderRequest F → String → Paper BrokerAck
  answer req id = do
    raise_if (← gets (λ b. is_timeout b.fault)) timed_out
    pure (record {
      client_order_id = req.client_order_id;
      broker_order_id = id;
      accepted = true;
      reason = "";
    })

  unfoldable pub place : BrokerOrderRequest F → Paper BrokerAck
  place req = do id ← gets (λ b. m.fresh_id b.ids_drawn); enter req >>= λ u. answer req id

  unfoldable pub place_new : BrokerOrderRequest F → Paper BrokerAck
  place_new req = do
    raise_if (← gets (λ b. has_key req.client_order_id b.orders)) duplicate_client_order_id
    place req

  unfoldable pub submit_order : BrokerOrderRequest F → Paper BrokerAck
  submit_order req = connected (place_new req)

  unfoldable pub settle : PaperBroker F → PaperBroker F
  settle b = record b { settled_cash = b.settled_cash ⊕ b.unsettled_cash; unsettled_cash = nought }

  -- One order of the loop of `poll_resting_orders`.
  unfoldable pub poll_one : String → PaperOrder F → Paper Unit
  poll_one cid po = if resting po.state then execute m cid po else pure tt

  unfoldable pub poll_orders : List (String × PaperOrder F) → Paper Unit
  poll_orders [] = pure tt
  poll_orders ((cid, po) ∷ rest) = poll_one cid po >>= λ u. poll_orders rest

  unfoldable pub new_fills : ℕ → Paper (List (BrokerFill F))
  new_fills before = gets (λ b. drop before b.all_fills)

  unfoldable pub poll_now : Paper (List (BrokerFill F))
  poll_now b = (poll_orders b.orders >>= λ u. new_fills (length b.all_fills)) b

  unfoldable pub poll_resting_orders : Paper (List (BrokerFill F))
  poll_resting_orders = connected poll_now

  abbrev pub cancel_ack : String → String → Bool → String → BrokerAck
  cancel_ack cid id accepted reason = record {
    client_order_id = cid;
    broker_order_id = id;
    accepted = accepted;
    reason = reason;
  }

  -- The text of a refusal, `not cancellable from …`, is cut before the state.
  unfoldable pub cancel_known : String → Option (PaperOrder F) → Paper BrokerAck
  cancel_known cid none = pure (cancel_ack cid "" false "unknown order")
  cancel_known cid (some po) =
      if resting po.state
      then (do
        modify (λ b. record b { orders = insert cid (record po { state = cancelled }) b.orders })
        pure (cancel_ack cid po.broker_order_id true ""))
      else pure (cancel_ack cid po.broker_order_id false "not cancellable")

  unfoldable pub cancel_order : String → Paper BrokerAck
  cancel_order cid = connected (λ b. cancel_known cid (lookup cid b.orders) b)

  abbrev pub status_of : String → PaperOrder F → BrokerOrderStatus F
  status_of cid po = record {
    client_order_id = cid;
    broker_order_id = po.broker_order_id;
    state = po.state;
    filled_qty = po.filled_qty;
    remaining_qty = max nought (po.request.qty ⊖ po.filled_qty);
  }

  unfoldable pub get_order_status : String → Paper (BrokerOrderStatus F)
  get_order_status cid = connected (λ b. elim (lookup cid b.orders) [
    | none ↦ (err no_such_order, b)
    | some po ↦ (ok (status_of cid po), b)
  ])

  unfoldable pub get_positions : Paper (List (BrokerPosition F))
  get_positions = connected (gets (λ b. values b.positions))

  unfoldable pub get_cash : Paper (BrokerCashBalance F)
  get_cash = connected (
      gets (λ b. record {
        settled_cash = fl.round b.settled_cash 6;
        unsettled_cash = fl.round b.unsettled_cash 6;
      }))

  unfoldable pub open_statuses : List (String × PaperOrder F) → List (BrokerOrderStatus F)
  open_statuses [] = []
  open_statuses ((cid, po) ∷ rest) =
      if contains po.state (submitted ∷ acknowledged ∷ partially_filled ∷ [])
      then status_of cid po ∷ open_statuses rest
      else open_statuses rest

  unfoldable pub get_open_orders : Paper (List (BrokerOrderStatus F))
  get_open_orders = connected (gets (λ b. open_statuses b.orders))

  unfoldable pub get_fills : ℕ → Paper (List (BrokerFill F))
  get_fills since = connected (gets (λ b. keep (λ f. leb since f.ts) b.all_fills))

  -- The paper broker as a broker of the execution engine.
  abbrev pub paper_adapter : BrokerAdapter F (PaperBroker F)
  paper_adapter = record {
    submit_order = submit_order;
    cancel_order = cancel_order;
    get_order_status = get_order_status;
    get_fills = get_fills;
    poll_resting_orders = some poll_resting_orders;
  }
