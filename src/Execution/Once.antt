-- ===== src/Execution/Once.antt =====
-- No id is submitted twice, whatever is called in between.
use autonomous_quant_tra.Base.{
  ℕ, ◌≡◌, inl, inr, String, true, Option, List, [], ◌∷◌, string_eq, arith,
}
use autonomous_quant_tra.Dict.{has_key}
use autonomous_quant_tra.Dict.Laws.{lookup-insert, lookup-insert_self}
use autonomous_quant_tra.Exec.{ok, err, bind-err, bind-ok, Result-cases}
use autonomous_quant_tra.Float.{Float}
use autonomous_quant_tra.Schema.{OrderState, environment_eq, state_eq}
use autonomous_quant_tra.Approval.{RiskApprovedOrder, ApprovedOrderSnapshot}
use autonomous_quant_tra.Risk.Review.{verify_signature}
use autonomous_quant_tra.Broker.{BrokerAdapter}
use autonomous_quant_tra.Execution.{
  ExecutionEngine, EngineError, duplicate_order, Setup, gate, poll_order,
}
use autonomous_quant_tra.Execution.Frame.{
  after_send-submitted, stale_loop-submitted, recover_rows-submitted, resolve_unknown-submitted,
  sync_open_orders-submitted, poll_order-submitted,
}
use autonomous_quant_tra.Execution.Calls.{
  checked, register, stored_rows, deliver, send, submit, sync_open_orders, resolve_unknown,
  recover_from_store, check_stale_orders,
}

-- The calls that are made on an engine, each with the clock's reading.
pub data Call (F : Type 0) : Type 0 where
  submits : RiskApprovedOrder F → Option (ApprovedOrderSnapshot F) → ℕ → Call F
  polls resolves : String → ℕ → Call F
  syncs sweeps : ℕ → Call F
  recovers : Call F

module _ {F B : Type 0} ⦃fl : Float F⦄ (setup : Setup F) (broker : BrokerAdapter F B) where
  unfoldable pub step : ExecutionEngine F B → Call F → ExecutionEngine F B
  step e (submits order snapshot now) = (submit setup broker order snapshot now e).1
  step e (polls cid now) = (poll_order setup broker cid now e).1
  step e (resolves cid now) = (resolve_unknown setup broker cid now e).1
  step e (syncs now) = (sync_open_orders setup broker now e).1
  step e (sweeps now) = (check_stale_orders setup broker now e).1
  step e recovers = (recover_from_store setup broker e).1

  unfoldable pub run : ExecutionEngine F B → List (Call F) → ExecutionEngine F B
  run e [] = e
  run e (c ∷ cs) = run (step e c) cs

  module _ (cid : String) where
    -- The engine has submitted an order under the id.
    abbrev pub Has : ExecutionEngine F B → Type 0
    Has e = has_key cid e.submitted_orders ≡ true

    register-Has :
        (order : RiskApprovedOrder F) (s : ApprovedOrderSnapshot F) (now : ℕ)
        (e : ExecutionEngine F B)
        → Has e
        → Has (register setup broker order s now e).1
    unfolding register
    register-Has order s now e h =
        ground (arith, lookup-insert cid order.intent.client_order_id order e.submitted_orders)

  deliver-submitted :
      (order : RiskApprovedOrder F) (now : ℕ) (s : ApprovedOrderSnapshot F)
      (e : ExecutionEngine F B)
      → (deliver setup broker order now s e).1.submitted_orders ≡ e.submitted_orders
  unfolding deliver
  deliver-submitted order now s e =
      after_send-submitted setup broker order.intent.client_order_id now _ _

  register-ok :
      (order : RiskApprovedOrder F) (s : ApprovedOrderSnapshot F) (now : ℕ)
      (e : ExecutionEngine F B)
      → ((register setup broker order s now e).0 ≡ ok tt)
      → Has order.intent.client_order_id (register setup broker order s now e).1
  unfolding register
  register-ok order s now e h =
      ground (arith, lookup-insert_self order.intent.client_order_id order e.submitted_orders)

  module _ (cid : String) where
    send-Has :
        (order : RiskApprovedOrder F) (now : ℕ) (s : ApprovedOrderSnapshot F)
        (e : ExecutionEngine F B)
        → Has cid e
        → Has cid (send setup broker order now s e).1
    unfolding send
    send-Has order now s e h = elim (Result-cases (register setup broker order s now e).0) [
      | inl (u, q) ↦
          rw
            (
              bind-ok (register setup broker order s now) (λ u. deliver setup broker order now s) e
                  q,
              deliver-submitted order now s (register setup broker order s now e).1,
            )
            (register-Has cid order s now e h)
      | inr (x, q) ↦
          rw
            (bind-err (register setup broker order s now) (λ u. deliver setup broker order now s) e
              q)
            (register-Has cid order s now e h)
    ]

    submit-Has :
        (order : RiskApprovedOrder F) (snapshot : Option (ApprovedOrderSnapshot F)) (now : ℕ)
        (e : ExecutionEngine F B)
        → Has cid e
        → Has cid (submit setup broker order snapshot now e).1
    unfolding submit
    submit-Has order snapshot now e h = elim (Result-cases (gate setup broker order snapshot e)) [
      | inl (s, q) ↦
          rw (bind-ok (checked setup broker order snapshot) (send setup broker order now) e q)
            (send-Has order now s e h)
      | inr (x, q) ↦
          rw (bind-err (checked setup broker order snapshot) (send setup broker order now) e q) h
    ]

    step-Has : (e : ExecutionEngine F B) (c : Call F) → Has cid e → Has cid (step e c)
    unfolding step recover_from_store check_stale_orders
    step-Has e (submits order snapshot now) h = submit-Has order snapshot now e h
    step-Has e (polls j now) h = rw (poll_order-submitted setup broker j now e) h
    step-Has e (resolves j now) h = rw (resolve_unknown-submitted setup broker j now e) h
    step-Has e (syncs now) h = rw (sync_open_orders-submitted setup broker now e) h
    step-Has e (sweeps now) h = rw (stale_loop-submitted setup broker e.submitted_orders now [] e) h
    step-Has e recovers h =
        rw (recover_rows-submitted setup broker (stored_rows setup broker e.store) 0 e) h

    run-Has : (e : ExecutionEngine F B) (cs : List (Call F)) → Has cid e → Has cid (run e cs)
    unfolding run
    run-Has e [] h = h
    run-Has e (c ∷ cs) h = run-Has (step e c) cs (step-Has e c h)

  module _ (order : RiskApprovedOrder F) (snapshot : Option (ApprovedOrderSnapshot F)) (now : ℕ)
      (e : ExecutionEngine F B) where
    submit-send :
        {s : ApprovedOrderSnapshot F}
        → gate setup broker order snapshot e ≡ ok s
        → submit setup broker order snapshot now e ≡ send setup broker order now s e
    unfolding submit
    submit-send = bind-ok (checked setup broker order snapshot) (send setup broker order now) e

    submit-stopped :
        {x : EngineError}
        → gate setup broker order snapshot e ≡ err x
        → submit setup broker order snapshot now e ≡ (err x, e)
    unfolding submit
    submit-stopped = bind-err (checked setup broker order snapshot) (send setup broker order now) e

    send-accepted :
        (s : ApprovedOrderSnapshot F) {state : OrderState}
        → (send setup broker order now s e).0 ≡ ok state
        → Has order.intent.client_order_id (send setup broker order now s e).1
    unfolding send
    send-accepted s accepted = elim (Result-cases (register setup broker order s now e).0) [
      | inr (x, r) ↦ absurd (ground (arith))
      | inl (u, r) ↦
          rw
            (
              bind-ok (register setup broker order s now) (λ u. deliver setup broker order now s) e
                  r,
              deliver-submitted order now s (register setup broker order s now e).1,
            )
            (register-ok order s now e r)
    ]

    -- An order that is accepted is among the submitted ones.
    accepted-Has :
        {state : OrderState}
        → (submit setup broker order snapshot now e).0 ≡ ok state
        → Has order.intent.client_order_id (submit setup broker order snapshot now e).1
    accepted-Has accepted = elim (Result-cases (gate setup broker order snapshot e)) [
      | inr (x, q) ↦ absurd (let stop = submit-stopped q in cc)
      | inl (s, q) ↦ rw (submit-send q) (send-accepted s (rw (submit-send q) at accepted))
    ]

    known-gate :
        Has order.intent.client_order_id e
        → verify_signature setup.crypto order.approval ≡ true
        → order.intent.environment ≡ setup.environment
        → gate setup broker order snapshot e ≡ err duplicate_order
    unfolding gate
    known-gate known signed here =
        let same = (environment_eq.beq_iff order.intent.environment setup.environment).1 here in
        rw (signed, same, known)

  -- Once an order was accepted, every later order under its id that is signed and of the engine's
  -- environment is refused as a duplicate and changes nothing, whatever was called in between.
  pub submit_once :
      (order order' : RiskApprovedOrder F) (snapshot snapshot' : Option (ApprovedOrderSnapshot F))
      (now now' : ℕ) (e : ExecutionEngine F B) (cs : List (Call F)) {state : OrderState}
      → (submit setup broker order snapshot now e).0 ≡ ok state
      → order'.intent.client_order_id ≡ order.intent.client_order_id
      → verify_signature setup.crypto order'.approval ≡ true
      → order'.intent.environment ≡ setup.environment
      → let later = run (submit setup broker order snapshot now e).1 cs in
        submit setup broker order' snapshot' now' later ≡ (err duplicate_order, later)
  submit_once order order' snapshot snapshot' now now' e cs accepted same signed here =
      let later = run (submit setup broker order snapshot now e).1 cs in
      let known =
        run-Has order'.intent.client_order_id (submit setup broker order snapshot now e).1 cs
          (rw same (accepted-Has order snapshot now e accepted)) in
      submit-stopped order' snapshot' now' later
        (known-gate order' snapshot' now' later known signed here)
