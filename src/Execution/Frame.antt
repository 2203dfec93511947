-- ===== src/Execution/Frame.antt =====
-- The engine's methods but `register` leave its submitted orders as they are.
use autonomous_quant_tra.Base.{
  ℕ, ◌≡◌, refl, ◌∙◌, ◌+◌, inl, inr, String, List, [], ◌∷◌, ◌++◌, string_eq, arith, if◌then◌else◌,
  Bool-cases,
}
use autonomous_quant_tra.Dict.{keys}
use autonomous_quant_tra.Exec.{Exec, Result, ok, err, ◌>>=◌, pure, bind-err, bind-ok, Result-cases}
use autonomous_quant_tra.Float.{Float}
use autonomous_quant_tra.Schema.{OrderState, environment_eq, state_eq}
use autonomous_quant_tra.Approval.{RiskApprovedOrder}
use autonomous_quant_tra.Store.{DurableOrderRecord}
use autonomous_quant_tra.Broker.{
  BrokerAdapter, BrokerError, BrokerAck, BrokerOrderStatus, BrokerFill, disconnected, timed_out,
  duplicate_client_order_id, no_such_order, bad_request,
}
use autonomous_quant_tra.Orders.{get}
use autonomous_quant_tra.Execution.{
  ExecutionEngine, Engine, Setup, sync_store, route_fills, settle_to, move_to, follow_status,
  on_broker, poll_order, attempt,
}
use autonomous_quant_tra.Execution.Calls.{
  acknowledge, after_send, poll_resting, sync_open_orders, resolve_unknown, enter_row, recover_rows,
  cancel_stale, poll_cancelled, drop_stale, stale_loop, poll_all, poll_known, new_fills,
  sweep_order, resolve_answer,
}

module _ {F B : Type 0} ⦃fl : Float F⦄ (setup : Setup F) (broker : BrokerAdapter F B) where
  route_fills-submitted :
      (j : String) (state : OrderState) (now : ℕ) (e : ExecutionEngine F B)
      → (route_fills setup broker j state now e).1.submitted_orders ≡ e.submitted_orders
  unfolding route_fills
  route_fills-submitted j state now e = ground arith

  module _ {A C : Type 0} where
    bind-submitted :
        (m : Engine F B A) (k : A → Engine F B C) (e : ExecutionEngine F B)
        → (m e).1.submitted_orders ≡ e.submitted_orders
        → ((a : A) (e' : ExecutionEngine F B) → (k a e').1.submitted_orders ≡ e'.submitted_orders)
        → ((m >>= k) e).1.submitted_orders ≡ e.submitted_orders
    bind-submitted m k e p q = elim (Result-cases (m e).0) [
      | inl (a, r) ↦ rw (bind-ok m k e r) (q a (m e).1 ∙ p)
      | inr (x, r) ↦ rw (bind-err m k e r) p
    ]

  move_to-submitted :
      (j : String) (state : OrderState) (reason : String) (now : ℕ) (e : ExecutionEngine F B)
      → (move_to setup broker j state reason now e).1.submitted_orders ≡ e.submitted_orders
  unfolding move_to sync_store
  move_to-submitted j state reason now e = ground arith

  settle_to-submitted :
      (j : String) (state : OrderState) (reason : String) (now : ℕ) (e : ExecutionEngine F B)
      → (settle_to setup broker j state reason now e).1.submitted_orders ≡ e.submitted_orders
  unfolding settle_to
  settle_to-submitted j state reason now e =
      bind-submitted (move_to setup broker j state reason now)
        (λ u. route_fills setup broker j state now) e (move_to-submitted j state reason now e)
        (λ u. route_fills-submitted j state now)

  on_broker-submitted :
      {A : Type 0} (m : Exec BrokerError B A) (e : ExecutionEngine F B)
      → (on_broker m e).1.submitted_orders ≡ e.submitted_orders
  on_broker-submitted m e = ground arith

  follow_status-submitted :
      (j : String) (now : ℕ) (status : BrokerOrderStatus F) (e : ExecutionEngine F B)
      → (follow_status setup broker j now status e).1.submitted_orders ≡ e.submitted_orders
  unfolding follow_status
  follow_status-submitted j now status e = ground (
    arith,
    settle_to-submitted j status.state "broker status poll" now
        (record e { state_machine = (get j e.state_machine).1 }),
  )

  pub poll_order-submitted :
      (j : String) (now : ℕ) (e : ExecutionEngine F B)
      → (poll_order setup broker j now e).1.submitted_orders ≡ e.submitted_orders
  unfolding poll_order
  poll_order-submitted j now e =
      bind-submitted (on_broker (broker.get_order_status j)) (follow_status setup broker j now) e
        (on_broker-submitted (broker.get_order_status j) e) (follow_status-submitted j now)

  poll_resting-submitted :
      (j : String) (now : ℕ) (e : ExecutionEngine F B)
      → (poll_resting setup broker j now e).1.submitted_orders ≡ e.submitted_orders
  unfolding poll_resting
  poll_resting-submitted j now e =
      ground
        (arith, poll_order-submitted j now (record e { state_machine = (get j e.state_machine).1 }))

  poll_all-submitted :
      (cids : List String) (now : ℕ) (e : ExecutionEngine F B)
      → (poll_all setup broker cids now e).1.submitted_orders ≡ e.submitted_orders
  unfolding poll_all
  poll_all-submitted [] now e = refl
  poll_all-submitted (j ∷ cids) now e =
      bind-submitted (poll_resting setup broker j now) (λ u. poll_all setup broker cids now) e
        (poll_resting-submitted j now e) (λ u. poll_all-submitted cids now)

  poll_known-submitted :
      (now : ℕ) (fills : List (BrokerFill F)) (e : ExecutionEngine F B)
      → (poll_known setup broker now fills e).1.submitted_orders ≡ e.submitted_orders
  poll_known-submitted now fills e =
      bind-submitted (poll_all setup broker (keys e.state_machine.orders) now) (λ u. pure fills) e
        (poll_all-submitted (keys e.state_machine.orders) now e) (λ u e'. refl)

  new_fills-submitted :
      (e : ExecutionEngine F B) → (new_fills setup broker e).1.submitted_orders ≡ e.submitted_orders
  new_fills-submitted e = ground arith

  pub sync_open_orders-submitted :
      (now : ℕ) (e : ExecutionEngine F B)
      → (sync_open_orders setup broker now e).1.submitted_orders ≡ e.submitted_orders
  unfolding sync_open_orders
  sync_open_orders-submitted now e =
      let body =
        bind-submitted (new_fills setup broker) (poll_known setup broker now) e
          (new_fills-submitted e) (λ fills. poll_known-submitted now fills) in
      ground arith

  resolve_answer-submitted :
      (j : String) (now : ℕ) (answer : Result BrokerError (BrokerOrderStatus F))
      (e : ExecutionEngine F B)
      → (resolve_answer setup broker j now answer e).1.submitted_orders ≡ e.submitted_orders
  unfolding resolve_answer
  resolve_answer-submitted j now (err x) e = ground arith
  resolve_answer-submitted j now (ok status) e = ground (
    arith,
    settle_to-submitted j status.state "resolved via broker reconciliation" now
        (record e { state_machine = (get j e.state_machine).1 }),
  )

  pub resolve_unknown-submitted :
      (j : String) (now : ℕ) (e : ExecutionEngine F B)
      → (resolve_unknown setup broker j now e).1.submitted_orders ≡ e.submitted_orders
  unfolding resolve_unknown
  resolve_unknown-submitted j now e =
      bind-submitted (attempt (broker.get_order_status j)) (resolve_answer setup broker j now) e
        refl (resolve_answer-submitted j now)

  enter_row-submitted :
      (r : DurableOrderRecord F) (e : ExecutionEngine F B)
      → (enter_row setup broker r e).1.submitted_orders ≡ e.submitted_orders
  unfolding enter_row
  enter_row-submitted r e = ground arith

  pub recover_rows-submitted :
      (rows : List (DurableOrderRecord F)) (n : ℕ) (e : ExecutionEngine F B)
      → (recover_rows setup broker rows n e).1.submitted_orders ≡ e.submitted_orders
  unfolding recover_rows
  recover_rows-submitted [] n e = refl
  recover_rows-submitted (r ∷ rows) n e =
      bind-submitted (enter_row setup broker r)
        (λ b. recover_rows setup broker rows (if b then n + 1 else n)) e (enter_row-submitted r e)
        (λ b. recover_rows-submitted rows (if b then n + 1 else n))

  cancel_stale-submitted :
      (j : String) (order : RiskApprovedOrder F) (now : ℕ) (e : ExecutionEngine F B)
      → (cancel_stale setup broker j order now e).1.submitted_orders ≡ e.submitted_orders
  unfolding cancel_stale
  cancel_stale-submitted j order now e = ground arith

  poll_cancelled-submitted :
      (j : String) (now : ℕ) (e : ExecutionEngine F B)
      → (poll_cancelled setup broker j now e).1.submitted_orders ≡ e.submitted_orders
  unfolding poll_cancelled
  poll_cancelled-submitted j now e = ground (arith, poll_order-submitted j now e)

  drop_stale-submitted :
      (j : String) (order : RiskApprovedOrder F) (now : ℕ) (e : ExecutionEngine F B)
      → (drop_stale setup broker j order now e).1.submitted_orders ≡ e.submitted_orders
  unfolding drop_stale
  drop_stale-submitted j order now e =
      bind-submitted (cancel_stale setup broker j order now)
        (λ u. poll_cancelled setup broker j now) e (cancel_stale-submitted j order now e)
        (λ u. poll_cancelled-submitted j now)

  sweep_order-submitted :
      (j : String) (order : RiskApprovedOrder F) (now : ℕ) (e : ExecutionEngine F B)
      → (sweep_order setup broker j order now e).1.submitted_orders ≡ e.submitted_orders
  unfolding sweep_order
  sweep_order-submitted j order now e = ground (
    arith,
    drop_stale-submitted j order now (record e { state_machine = (get j e.state_machine).1 }),
  )

  pub stale_loop-submitted :
      (items : List (String × RiskApprovedOrder F)) (now : ℕ) (stale : List String)
      (e : ExecutionEngine F B)
      → (stale_loop setup broker items now stale e).1.submitted_orders ≡ e.submitted_orders
  unfolding stale_loop
  stale_loop-submitted [] now stale e = refl
  stale_loop-submitted ((j, order) ∷ items) now stale e =
      bind-submitted (sweep_order setup broker j order now)
        (λ found. stale_loop setup broker items now (if found then stale ++ j ∷ [] else stale)) e
        (sweep_order-submitted j order now e)
        (λ found. stale_loop-submitted items now (if found then stale ++ j ∷ [] else stale))

  acknowledge-submitted :
      (j : String) (now : ℕ) (broker_order_id : String) (e : ExecutionEngine F B)
      → (acknowledge setup broker j now broker_order_id e).1.submitted_orders ≡ e.submitted_orders
  unfolding acknowledge sync_store
  acknowledge-submitted j now broker_order_id e = ground arith

  pub after_send-submitted :
      (j : String) (now : ℕ) (answer : Result BrokerError BrokerAck) (e : ExecutionEngine F B)
      → (after_send setup broker j now answer e).1.submitted_orders ≡ e.submitted_orders
  unfolding after_send sync_store
  after_send-submitted j now (err timed_out) e = ground arith
  after_send-submitted j now (err disconnected) e = ground arith
  after_send-submitted j now (err duplicate_client_order_id) e = refl
  after_send-submitted j now (err no_such_order) e = refl
  after_send-submitted j now (err bad_request) e = refl
  after_send-submitted j now (ok ack) e = elim (Bool-cases ack.accepted) [
    | inr refused ↦ rw refused (ground arith)
    | inl accepted ↦ rw accepted (
        bind-submitted (acknowledge setup broker j now ack.broker_order_id)
          (λ u. poll_order setup broker j now) e (acknowledge-submitted j now ack.broker_order_id e)
          (λ u. poll_order-submitted j now))
  ]
