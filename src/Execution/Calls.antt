-- ===== src/Execution/Calls.antt =====
-- `submit`, and the calls that follow orders up: `sync_open_orders`, `resolve_unknown`,
-- `recover_from_store` and `check_stale_orders` (services/execution/engine.py).
use autonomous_quant_tra.Base.{
  ℕ, ◌+◌, String, Bool, true, false, not, ◌&&◌, ◌||◌, Option, none, some, List, [], ◌∷◌, ◌++◌, ◌==◌,
  string_eq, if◌then◌else◌,
}
use autonomous_quant_tra.Int.{pos, ◌-ℤ◌}
use autonomous_quant_tra.Dict.{insert, keys, has_key}
use autonomous_quant_tra.Exec.{Result, ok, err, pure, raise, gets, modify, ◌>>=◌, ◌>>◌}
use autonomous_quant_tra.Text.{concat, prefix}
use autonomous_quant_tra.Float.{Float, ◌<?◌}
use autonomous_quant_tra.Schema.{
  OrderState, risk_approved, submitted, acknowledged, partially_filled, rejected, unknown,
  cancel_requested, state_eq,
}
use autonomous_quant_tra.Approval.{
  RiskApprovedOrder, ApprovedOrderSnapshot, halt_new_entries, full_broker_disconnect,
}
use autonomous_quant_tra.Orders.{create, get, restore, transition}
use autonomous_quant_tra.Store.{DurableOrderStore, DurableOrderRecord, record_submission, all}
use autonomous_quant_tra.Broker.{
  BrokerAdapter, BrokerError, BrokerAck, BrokerFill, BrokerOrderStatus, disconnected, timed_out,
  duplicate_client_order_id, no_such_order, bad_request,
}
use autonomous_quant_tra.Execution.{
  Engine, broker_error, Setup, on_machine, on_store, on_broker, attempt, set_risk_state, sync_store,
  gate, request_of, settle_to, poll_order,
}

module _ {F B : Type 0} ⦃fl : Float F⦄ (setup : Setup F) (broker : BrokerAdapter F B) where
  abbrev pub checked :
      RiskApprovedOrder F → Option (ApprovedOrderSnapshot F) → Engine F B (ApprovedOrderSnapshot F)
  checked order snapshot e = (gate setup broker order snapshot e, e)

  -- What is noted before the broker is called.
  unfoldable pub register : RiskApprovedOrder F → ApprovedOrderSnapshot F → ℕ → Engine F B Unit
  register order s now = do
    let cid = order.intent.client_order_id
    modify (λ e. record e { snapshots = insert cid s e.snapshots })
    on_machine (create cid)
    let reason =
        concat ("approval " ∷ order.approval.approval_id ∷ " snapshot " ∷ prefix 12 s.hash ∷ [])
    on_machine (transition cid risk_approved now reason none)
    modify (λ e. record e { submitted_orders = insert cid order e.submitted_orders })
    on_machine (transition cid submitted now "" none)
    on_store (record_submission cid s.decision_id order.approval.approval_id s submitted now)

  unfoldable pub acknowledge : String → ℕ → String → Engine F B Unit
  acknowledge cid now broker_order_id = do
    let payload = some (("broker_order_id", broker_order_id) ∷ [])
    on_machine (transition cid acknowledged now "" payload)
    sync_store cid acknowledged now

  -- What follows from the broker's answer, or from its exception.
  unfoldable pub after_send : String → ℕ → Result BrokerError BrokerAck → Engine F B OrderState
  after_send cid now (err timed_out) = do
    on_machine (transition cid unknown now "broker timeout — reconciliation required" none)
    sync_store cid unknown now
    set_risk_state halt_new_entries
    pure unknown
  after_send cid now (err disconnected) = do
    on_machine (transition cid unknown now "broker disconnected mid-submit" none)
    sync_store cid unknown now
    set_risk_state full_broker_disconnect
    pure unknown
  after_send cid now (err duplicate_client_order_id) =
      raise (broker_error duplicate_client_order_id)
  after_send cid now (err no_such_order) = raise (broker_error no_such_order)
  after_send cid now (err bad_request) = raise (broker_error bad_request)
  after_send cid now (ok ack) =
      if not ack.accepted
      then (do
        on_machine (transition cid rejected now ack.reason none)
        sync_store cid rejected now
        pure rejected)
      else (acknowledge cid now ack.broker_order_id >>= λ u. poll_order setup broker cid now)

  unfoldable pub deliver : RiskApprovedOrder F → ℕ → ApprovedOrderSnapshot F → Engine F B OrderState
  deliver order now s =
      attempt (broker.submit_order (request_of setup broker s))
      >>= after_send order.intent.client_order_id now

  -- The part of `submit` that a cleared order gets to.
  unfoldable pub send : RiskApprovedOrder F → ℕ → ApprovedOrderSnapshot F → Engine F B OrderState
  send order now s = register order s now >>= λ u. deliver order now s

  unfoldable pub submit :
      RiskApprovedOrder F → Option (ApprovedOrderSnapshot F) → ℕ → Engine F B OrderState
  submit order snapshot now = checked order snapshot >>= send order now

  -- An order that rests at the broker is polled.
  unfoldable pub poll_resting : String → ℕ → Engine F B Unit
  poll_resting cid now = do
    r ← on_machine (get cid)
    if (r.state == acknowledged) || (r.state == partially_filled)
        then poll_order setup broker cid now >> pure tt
        else pure tt

  unfoldable pub poll_all : List String → ℕ → Engine F B Unit
  poll_all [] now = pure tt
  poll_all (cid ∷ cids) now = poll_resting cid now >> poll_all cids now

  abbrev pub new_fills : Engine F B (List (BrokerFill F))
  new_fills = elim broker.poll_resting_orders [ none ↦ pure [] | some poll ↦ on_broker poll ]

  abbrev pub poll_known : ℕ → List (BrokerFill F) → Engine F B (List (BrokerFill F))
  poll_known now fills e = (poll_all (keys e.state_machine.orders) now >> pure fills) e

  -- A disconnection is noted, and no fill is reported.
  unfoldable pub sync_open_orders : ℕ → Engine F B (List (BrokerFill F))
  sync_open_orders now e =
      let (r, e') = (new_fills >>= poll_known now) e in
      elim r [
        | err (broker_error disconnected) ↦ (set_risk_state full_broker_disconnect >> pure []) e'
        | other ↦ (other, e')
      ]

  unfoldable pub resolve_answer :
      String → ℕ → Result BrokerError (BrokerOrderStatus F) → Engine F B OrderState
  resolve_answer cid now (err disconnected) = pure unknown
  resolve_answer cid now (err no_such_order) = pure unknown
  resolve_answer cid now (err timed_out) = raise (broker_error timed_out)
  resolve_answer cid now (err bad_request) = raise (broker_error bad_request)
  resolve_answer cid now (err duplicate_client_order_id) =
      raise (broker_error duplicate_client_order_id)
  resolve_answer cid now (ok status) = do
    r ← on_machine (get cid)
    if r.state == unknown
        then settle_to setup broker cid status.state "resolved via broker reconciliation" now
        else pure tt
    q ← on_machine (get cid)
    pure q.state

  unfoldable pub resolve_unknown : String → ℕ → Engine F B OrderState
  resolve_unknown cid now = attempt (broker.get_order_status cid) >>= resolve_answer cid now

  -- A row that the machine does not know is entered: whether it was.
  unfoldable pub enter_row : DurableOrderRecord F → Engine F B Bool
  enter_row r = do
    known ← gets (λ e. has_key r.client_order_id e.state_machine.orders)
    if known then pure false else (do
      on_machine (restore r.client_order_id r.state)
      modify (λ e. record e { snapshots = insert r.client_order_id r.snapshot e.snapshots })
      pure true)

  unfoldable pub recover_rows : List (DurableOrderRecord F) → ℕ → Engine F B ℕ
  recover_rows [] recovered = pure recovered
  recover_rows (r ∷ rows) recovered =
      enter_row r >>= λ entered. recover_rows rows (if entered then recovered + 1 else recovered)

  abbrev pub stored_rows : Option (DurableOrderStore F) → List (DurableOrderRecord F)
  stored_rows none = []
  stored_rows (some s) = all s

  unfoldable pub recover_from_store : Engine F B ℕ
  recover_from_store e = recover_rows (stored_rows e.store) 0 e

  -- Entry orders that rest for too long are cancelled; protective exits are not.
  unfoldable pub is_stale : RiskApprovedOrder F → OrderState → ℕ → Bool
  is_stale order state now =
      let age = fl.decimal (pos now -ℤ pos order.intent.created_at) 6 in
      (state == acknowledged)
      && not order.intent.is_protective_exit
      && (setup.config.stale_order_after_sec <? age)

  unfoldable pub cancel_stale : String → RiskApprovedOrder F → ℕ → Engine F B Unit
  cancel_stale cid order now = do
    let age = fl.decimal (pos now -ℤ pos order.intent.created_at) 6
    let reason = concat ("stale after " ∷ fl.format age 0 ∷ "s (§47)" ∷ [])
    on_broker (broker.cancel_order cid)
    on_machine (transition cid cancel_requested now reason none)
    pure tt

  unfoldable pub poll_cancelled : String → ℕ → Engine F B Bool
  poll_cancelled cid now = poll_order setup broker cid now >> pure true

  unfoldable pub drop_stale : String → RiskApprovedOrder F → ℕ → Engine F B Bool
  drop_stale cid order now = cancel_stale cid order now >>= λ u. poll_cancelled cid now

  -- Whether the order was stale, and was cancelled.
  unfoldable pub sweep_order : String → RiskApprovedOrder F → ℕ → Engine F B Bool
  sweep_order cid order now = do
    r ← on_machine (get cid)
    if is_stale order r.state now then drop_stale cid order now else pure false

  unfoldable pub stale_loop :
      List (String × RiskApprovedOrder F) → ℕ → List String → Engine F B (List String)
  stale_loop [] now stale = pure stale
  stale_loop ((cid, order) ∷ rest) now stale = sweep_order cid order now >>= λ found.
      stale_loop rest now (if found then stale ++ cid ∷ [] else stale)

  unfoldable pub check_stale_orders : ℕ → Engine F B (List String)
  check_stale_orders now e = stale_loop e.submitted_orders now [] e
