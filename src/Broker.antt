-- ===== src/Broker.antt =====
-- What a broker offers (packages/broker_adapters/base.py, packages/schemas/core.py): an interface, which
-- the execution engine takes as a parameter. `B` is the broker's own state.
use autonomous_quant_tra.Base.{ℕ, String, Bool, Option, List}
use autonomous_quant_tra.Exec.{Exec}
use autonomous_quant_tra.Schema.{Action, OrderState, OrderType}

pub record BrokerOrderRequest (F : Type 0) : Type 0 where
  pub client_order_id : String
  pub symbol : String
  pub side : Action
  pub qty : F
  pub order_type : OrderType
  pub limit_price : Option F
  pub stop_price : Option F

pub record BrokerAck : Type 0 where
  pub client_order_id : String
  pub broker_order_id : String
  pub accepted : Bool
  pub reason : String

pub record BrokerFill (F : Type 0) : Type 0 where
  pub broker_fill_id : String
  pub client_order_id : String
  pub symbol : String
  pub side : Action
  pub qty : F
  pub price : F
  pub fees : F
  pub ts : ℕ

pub record BrokerOrderStatus (F : Type 0) : Type 0 where
  pub client_order_id : String
  pub broker_order_id : String
  pub state : OrderState
  pub filled_qty : F
  pub remaining_qty : F

-- DuplicateClientOrderIdError, BrokerTimeoutError, BrokerDisconnectedError, and the KeyError of an id
-- that the broker does not know, and an assertion that fails.
pub data BrokerError : Type 0 where
  duplicate_client_order_id timed_out disconnected no_such_order bad_request : BrokerError

-- `poll_resting_orders` is a method that only some brokers have.
pub record BrokerAdapter (F B : Type 0) : Type 0 where
  pub submit_order : BrokerOrderRequest F → Exec BrokerError B BrokerAck
  pub cancel_order : String → Exec BrokerError B BrokerAck
  pub get_order_status : String → Exec BrokerError B (BrokerOrderStatus F)
  pub get_fills : ℕ → Exec BrokerError B (List (BrokerFill F))
  pub poll_resting_orders : Option (Exec BrokerError B (List (BrokerFill F)))
