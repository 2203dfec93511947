-- ===== src/Execution.antt =====
-- The execution engine (services/execution/engine.py): the only way from an approved order to the
-- broker. The broker is a parameter, and so are the clock's reading (`now`) and `on_fill`, whose calls
-- are listed in `fills_seen` in their order (a callback that raises is left out).
pub mod Calls
pub mod Gate
pub mod Frame
pub mod Once
use autonomous_quant_tra.Base.{
  ℕ, String, Bool, true, false, not, ◌&&◌, ◌||◌, Option, none, some, List, [], ◌∷◌, ◌++◌, contains,
  keep, ◌==◌, string_eq, if◌then◌else◌,
}
use autonomous_quant_tra.Int.{pos, ◌-ℤ◌}
use autonomous_quant_tra.Dict.{Dict, lookup, insert, has_key, keys}
use autonomous_quant_tra.Exec.{
  Exec, Result, ok, err, pure, raise, gets, raise_if, modify, ◌>>=◌, ◌>>◌,
}
use autonomous_quant_tra.Text.{concat, prefix}
use autonomous_quant_tra.Float.{Float, ◌<?◌}
use autonomous_quant_tra.Schema.{
  OrderState, Environment, risk_approved, submitted, acknowledged, partially_filled, filled,
  cancelled, rejected, expired, unknown, cancel_requested, state_eq, environment_eq,
}
use autonomous_quant_tra.Approval.{
  Crypto, OrderIntent, RiskApprovedOrder, ApprovedOrderSnapshot, RiskState, halt_new_entries,
  full_broker_disconnect, matches_intent,
}
use autonomous_quant_tra.Orders.{
  OrderStateMachine, OrderRecord, OrderError, create, get, restore, transition,
}
use autonomous_quant_tra.Risk.{RiskConfig, MasterRiskController, set_state}
use autonomous_quant_tra.Risk.Review.{verify_signature}
use autonomous_quant_tra.Store
use autonomous_quant_tra.Store.{
  DurableOrderStore, DurableOrderRecord, StoreError, is_known, record_submission, update_state,
}
use autonomous_quant_tra.Broker.{
  BrokerAdapter, BrokerError, BrokerOrderRequest, BrokerAck, BrokerFill, BrokerOrderStatus,
  disconnected, timed_out, duplicate_client_order_id, no_such_order,
}

pub record ExecutionEngine (F B : Type 0) : Type 0 where
  pub broker : B
  pub risk_controller : MasterRiskController F
  pub state_machine : OrderStateMachine
  pub store : Option (DurableOrderStore F)
  pub submitted_orders : Dict String (RiskApprovedOrder F)
  pub snapshots : Dict String (ApprovedOrderSnapshot F)
  pub fills_seen : List (BrokerFill F)

pub data EngineError : Type 0 where
  unauthorized_order order_tamper duplicate_order : EngineError
  order_error : OrderError → EngineError
  store_error : StoreError → EngineError
  broker_error : BrokerError → EngineError

-- What the engine is made with, and does not change.
pub record Setup (F : Type 0) : Type 0 where
  pub crypto : Crypto
  pub config : RiskConfig F
  pub environment : Environment
  pub has_on_fill : Bool
  -- `t.replace(year=2000)`
  pub in_2000 : ℕ → ℕ

abbrev pub Engine : Type 0 → Type 0 → Type 0 → Type 0
Engine F B A = Exec EngineError (ExecutionEngine F B) A

module _ {F B : Type 0} where
  abbrev pub on_machine : {A : Type 0} → Exec OrderError OrderStateMachine A → Engine F B A
  on_machine m e =
      let (r, s) = m e.state_machine in
      (elim r [ ok a ↦ ok a | err x ↦ err (order_error x) ], record e { state_machine = s })

  -- A call of the store, when one is configured.
  abbrev pub on_store : Exec StoreError (DurableOrderStore F) Unit → Engine F B Unit
  on_store m e = elim e.store [
    | none ↦ (ok tt, e)
    | some s ↦
        let (r, s') = m s in
        (elim r [ ok a ↦ ok a | err x ↦ err (store_error x) ], record e { store = some s' })
  ]

  -- A call of the broker, with its exception as a value, or passed on.
  abbrev pub attempt : {A : Type 0} → Exec BrokerError B A → Engine F B (Result BrokerError A)
  attempt m e = let (r, b) = m e.broker in (ok r, record e { broker = b })

  abbrev pub lift : {A : Type 0} → Result BrokerError A → Engine F B A
  lift (ok a) = pure a
  lift (err x) = raise (broker_error x)

  abbrev pub on_broker : {A : Type 0} → Exec BrokerError B A → Engine F B A
  on_broker m = attempt m >>= lift

  abbrev pub set_risk_state : RiskState → Engine F B Unit
  set_risk_state state =
      modify (λ e. record e { risk_controller = set_state state e.risk_controller })
      -- `_sync_store`

  unfoldable pub sync_store : String → OrderState → ℕ → Engine F B Unit
  sync_store cid state now = on_store (update_state cid state now)

abbrev pub reported_states : List OrderState
reported_states = partially_filled ∷ filled ∷ cancelled ∷ rejected ∷ expired ∷ []

abbrev pub fill_states : List OrderState
fill_states = partially_filled ∷ filled ∷ []

module _ {F B : Type 0} ⦃fl : Float F⦄ (setup : Setup F) (broker : BrokerAdapter F B) where
  unfoldable pub checked_snapshot :
      RiskApprovedOrder F
      → Option (ApprovedOrderSnapshot F)
      → Result EngineError (ApprovedOrderSnapshot F)
  checked_snapshot order none = err order_tamper
  checked_snapshot order (some s) =
      if not (s.risk_approval_id == order.approval.approval_id)
      then err order_tamper
      else if not (matches_intent setup.crypto s order.intent)
      then err order_tamper
      else ok s

  abbrev pub known_to_store : String → Option (DurableOrderStore F) → Bool
  known_to_store cid none = false
  known_to_store cid (some s) = is_known cid s

  -- The tests before anything is changed.
  unfoldable pub gate :
      RiskApprovedOrder F
      → Option (ApprovedOrderSnapshot F)
      → ExecutionEngine F B
      → Result EngineError (ApprovedOrderSnapshot F)
  gate order snapshot e =
      let intent = order.intent in
      if not (verify_signature setup.crypto order.approval)
      then err unauthorized_order
      else if not (intent.environment == setup.environment)
      then err unauthorized_order
      else if has_key intent.client_order_id e.submitted_orders
          || known_to_store intent.client_order_id e.store
      then err duplicate_order
      else checked_snapshot order snapshot

  abbrev pub request_of : ApprovedOrderSnapshot F → BrokerOrderRequest F
  request_of s = record {
    client_order_id = s.client_order_id;
    symbol = s.symbol;
    side = s.side;
    qty = s.qty;
    order_type = s.order_type;
    limit_price = s.limit_price;
    stop_price = s.stop_price;
  }

  -- The broker's fills for the order are passed to `on_fill`.
  unfoldable pub route_fills : String → OrderState → ℕ → Engine F B Unit
  route_fills cid state now =
      if contains state fill_states && setup.has_on_fill
      then (do
        fills ← on_broker (broker.get_fills (setup.in_2000 now))
        modify (λ e. record e {
          fills_seen = e.fills_seen ++ keep (λ f. f.client_order_id == cid) fills;
        }))
      else pure tt

  -- A transition, mirrored in the store.
  unfoldable pub move_to : String → OrderState → String → ℕ → Engine F B Unit
  move_to cid state reason now = do
    on_machine (transition cid state now reason none)
    sync_store cid state now

  unfoldable pub settle_to : String → OrderState → String → ℕ → Engine F B Unit
  settle_to cid state reason now = move_to cid state reason now >>= λ u. route_fills cid state now

  -- What `poll_order` does with the broker's status.
  unfoldable pub follow_status : String → ℕ → BrokerOrderStatus F → Engine F B OrderState
  follow_status cid now status = do
    current ← on_machine (get cid)
    if not (status.state == current.state) && contains status.state reported_states
        then settle_to cid status.state "broker status poll" now
        else pure tt
    r ← on_machine (get cid)
    pure r.state

  unfoldable pub poll_order : String → ℕ → Engine F B OrderState
  poll_order cid now = on_broker (broker.get_order_status cid) >>= follow_status cid now
