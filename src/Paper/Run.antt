-- ===== src/Paper/Run.antt =====
-- The calls that change a paper broker, and what they do to its orders.
use autonomous_quant_tra.Base.{
  ◌≡◌, ◌+◌, refl, inl, inr, String, false, Option, none, some, List, [], ◌∷◌, ◌==◌, length,
  string_eq, arith, Bool-cases,
}
use autonomous_quant_tra.Dict.{Dict, lookup, insert, has_key}
use autonomous_quant_tra.Dict.Laws.{lookup-insert, IsDict, insert-IsDict}
use autonomous_quant_tra.Exec.{Exec, Result, ok, err, bind-keeps}
use autonomous_quant_tra.Float.{Float, ◌⊖◌, ◌⊘◌, ◌≤?◌, ◌<?◌, ◌⊕◌, ◌⊗◌, tiny}
use autonomous_quant_tra.Schema.{Action, buy, sell, cancelled, state_eq}
use autonomous_quant_tra.Broker.{BrokerOrderRequest, BrokerError}
use autonomous_quant_tra.Reconciliation.{BrokerPosition}
use autonomous_quant_tra.Paper.{
  Fault, PaperOrder, PaperBroker, Market, execute, fill_at, fill_maybe, fill_buy, sell_from, book,
  fill_side, try_fill, ten_thousand,
}
use autonomous_quant_tra.Paper.Calls.{
  submit_order, settle, poll_now, new_fills, poll_orders, poll_one, poll_resting_orders,
  cancel_order, cancel_known, enter, resting, is_disconnect, connected, new_order, place, place_new,
  answer, is_timeout,
}

-- The calls, with the injection of a fault among them.
pub data PaperCall (F : Type 0) : Type 0 where
  submits : BrokerOrderRequest F → PaperCall F
  cancels : String → PaperCall F
  polls settles : PaperCall F
  injects : Fault → PaperCall F

module _ {F : Type 0} ⦃fl : Float F⦄ where
  unfoldable pub step : Market F → PaperBroker F → PaperCall F → PaperBroker F
  step m b (submits req) = (submit_order m req b).1
  step m b (cancels cid) = (cancel_order m cid b).1
  step m b polls = (poll_resting_orders m b).1
  step m b settles = settle m b
  step m b (injects fault) = record b { fault = fault }

  -- Each call is made in a market of its own.
  unfoldable pub run : PaperBroker F → List (Market F × PaperCall F) → PaperBroker F
  run b [] = b
  run b ((m, c) ∷ calls) = run (step m b c) calls

  -- What holds of the orders holds after an attempt, if it does after a write to the order attempted.
  module _ (P : Dict String (PaperOrder F) → Type 0) (m : Market F) (cid : String) where
    fill_buy-orders :
        (po : PaperOrder F) (qty px : F) (b : PaperBroker F)
        → ((q : PaperOrder F) → P (insert cid q b.orders))
        → P (fill_buy m cid po qty px b).orders
    unfolding fill_buy book
    fill_buy-orders po qty px b w =
        elim (Bool-cases
          (b.settled_cash ⊕ tiny <? qty ⊗ px ⊕ qty ⊗ px ⊗ m.fee_bps ⊘ ten_thousand m)) [
            | inl short ↦ rw short (w _)
            | inr covered ↦ rw covered (w _)
          ]

    sell_from-orders :
        (po : PaperOrder F) (qty px : F) (held : Option (BrokerPosition F)) (b : PaperBroker F)
        → ((q : PaperOrder F) → P (insert cid q b.orders))
        → P (sell_from m cid po qty px held b).orders
    unfolding sell_from book
    sell_from-orders po qty px none b w = w _
    sell_from-orders po qty px (some p) b w = elim (Bool-cases (p.qty ⊕ tiny <? qty)) [
      | inl short ↦ rw short (w _)
      | inr covered ↦ rw covered (w _)
    ]

    side-orders :
        (side : Action) (po : PaperOrder F) (qty px : F) (b : PaperBroker F)
        → ((q : PaperOrder F) → P (insert cid q b.orders))
        → P (fill_side m side cid po qty px b).orders
    side-orders buy po qty px b w = fill_buy-orders po qty px b w
    side-orders sell po qty px b w =
        sell_from-orders po qty px (lookup po.request.symbol b.positions) b w

    fill_maybe-orders :
        (po : PaperOrder F) (px : Option F) (b : PaperBroker F)
        → P b.orders
        → ((q : PaperOrder F) → P (insert cid q b.orders))
        → P (fill_maybe m cid po px b).orders
    unfolding fill_at
    fill_maybe-orders po none b h w = h
    fill_maybe-orders po (some px) b h w =
        elim (Bool-cases (po.request.qty ⊖ po.filled_qty ≤? tiny)) [
          | inl done ↦ rw done h
          | inr due ↦ rw due (side-orders po.request.side po _ px b w)
        ]

    try_fill-orders :
        (po : PaperOrder F) (px : Result BrokerError (Option F)) (b : PaperBroker F)
        → P b.orders
        → ((q : PaperOrder F) → P (insert cid q b.orders))
        → P (try_fill m cid po px b).1.orders
    try_fill-orders po (err x) b h w = h
    try_fill-orders po (ok px) b h w = fill_maybe-orders po px b h w

    execute-orders :
        (po : PaperOrder F) (b : PaperBroker F)
        → P b.orders
        → ((q : PaperOrder F) → P (insert cid q b.orders))
        → P (execute m cid po b).1.orders
    unfolding execute
    execute-orders po b h w = try_fill-orders po _ b h w

  pub connected-keeps :
      {A : Type 0} (P : PaperBroker F → Type 0) (m : Market F)
      (method : Exec BrokerError (PaperBroker F) A) (b : PaperBroker F)
      → P b
      → P (method b).1
      → P (connected m method b).1
  unfolding connected
  connected-keeps P m method b h next = elim (Bool-cases (is_disconnect b.fault)) [
    | inl lost ↦ rw lost h
    | inr there ↦ rw there next
  ]

  module _ (j : String) (kept : PaperOrder F) where
    -- The order is on the books as it was, and no id has two entries.
    abbrev Keeps : Dict String (PaperOrder F) → Type 0
    Keeps orders = (lookup j orders ≡ some kept) × IsDict orders

    insert-Keeps :
        (cid : String) (q : PaperOrder F) (orders : Dict String (PaperOrder F))
        → (j == cid) ≡ false
        → Keeps orders
        → Keeps (insert cid q orders)
    insert-Keeps cid q orders other h =
        (rw (lookup-insert j cid q orders, other) h.0, insert-IsDict cid q orders h.1)

    execute-Keeps :
        (m : Market F) (cid : String) (po : PaperOrder F) (b : PaperBroker F)
        → (j == cid) ≡ false
        → Keeps b.orders
        → Keeps (execute m cid po b).1.orders
    execute-Keeps m cid po b other h =
        execute-orders Keeps m cid po b h (λ q. insert-Keeps cid q b.orders other h)

    -- What the entries list for the order does not rest.
    abbrev Quiet : Dict String (PaperOrder F) → Type 0
    Quiet entries = (po : PaperOrder F) → lookup j entries ≡ some po → resting po.state ≡ false

    tail-Quiet :
        (cid : String) (po : PaperOrder F) (entries : Dict String (PaperOrder F))
        → IsDict ((cid, po) ∷ entries)
        → Quiet ((cid, po) ∷ entries)
        → Quiet entries
    unfolding lookup
    tail-Quiet cid po entries u quiet q found = ground (arith, string_eq.beq_iff j cid, quiet q)

    poll_one-Keeps :
        (m : Market F) (cid : String) (po : PaperOrder F) (entries : Dict String (PaperOrder F))
        (b : PaperBroker F)
        → Quiet ((cid, po) ∷ entries)
        → Keeps b.orders
        → Keeps (poll_one m cid po b).1.orders
    unfolding poll_one lookup
    poll_one-Keeps m cid po entries b quiet h = elim (Bool-cases (resting po.state)) [
      | inr closed ↦ rw closed h
      | inl rests ↦ elim (Bool-cases (j == cid)) [
        | inr other ↦ rw rests (execute-Keeps m cid po b other h)
        | inl same ↦ absurd (ground (arith, quiet po))
      ]
    ]

    poll_orders-Keeps :
        (m : Market F) (entries : Dict String (PaperOrder F)) (b : PaperBroker F)
        → IsDict entries
        → Quiet entries
        → Keeps b.orders
        → Keeps (poll_orders m entries b).1.orders
    unfolding poll_orders
    poll_orders-Keeps m [] b u quiet h = h
    poll_orders-Keeps m ((cid, po) ∷ entries) b u quiet h =
        let first = poll_one-Keeps m cid po entries b quiet h in
        bind-keeps (λ b. Keeps b.orders) (poll_one m cid po) (λ u. poll_orders m entries) b first
          (λ u0.
            poll_orders-Keeps m entries (poll_one m cid po b).1 u.1
              (tail-Quiet cid po entries u quiet) first)

    module _ (closed : resting kept.state ≡ false) where
      Keeps-Quiet : (orders : Dict String (PaperOrder F)) → Keeps orders → Quiet orders
      Keeps-Quiet orders h po found = ground arith

      cancel_known-Keeps :
          (m : Market F) (cid : String) (found : Option (PaperOrder F)) (b : PaperBroker F)
          → lookup cid b.orders ≡ found
          → Keeps b.orders
          → Keeps (cancel_known m cid found b).1.orders
      unfolding cancel_known
      cancel_known-Keeps m cid none b e h = h
      cancel_known-Keeps m cid (some po) b e h = elim (Bool-cases (resting po.state)) [
        | inr stays ↦ rw stays h
        | inl rests ↦ elim (Bool-cases (j == cid)) [
          | inr other ↦
              rw rests (insert-Keeps cid (record po { state = cancelled }) b.orders other h)
          | inl same ↦ absurd (ground (arith, string_eq.beq_iff j cid))
        ]
      ]

      -- A new id is not that of the order.
      enter-Keeps :
          (m : Market F) (req : BrokerOrderRequest F) (b : PaperBroker F)
          → has_key req.client_order_id b.orders ≡ false
          → Keeps b.orders
          → Keeps (enter m req b).1.orders
      unfolding enter
      enter-Keeps m req b fresh h =
          let other : (j == req.client_order_id) ≡ false =
            ground (arith, string_eq.beq_iff j req.client_order_id) in
          let po = new_order m req (m.fresh_id b.ids_drawn) in
          execute-Keeps m req.client_order_id po
            (record b {
              orders = insert req.client_order_id po b.orders;
              ids_drawn = b.ids_drawn + 1;
            })
            other (insert-Keeps req.client_order_id po b.orders other h)

      answer-Keeps :
          (m : Market F) (req : BrokerOrderRequest F) (id : String) (b : PaperBroker F)
          → Keeps b.orders
          → Keeps (answer m req id b).1.orders
      unfolding answer
      answer-Keeps m req id b h = elim (Bool-cases (is_timeout b.fault)) [
        | inl late ↦ rw late h
        | inr timely ↦ rw timely h
      ]

      place_new-Keeps :
          (m : Market F) (req : BrokerOrderRequest F) (b : PaperBroker F)
          → Keeps b.orders
          → Keeps (place_new m req b).1.orders
      unfolding place_new place
      place_new-Keeps m req b h = elim (Bool-cases (has_key req.client_order_id b.orders)) [
        | inl known ↦ rw known h
        | inr fresh ↦ rw fresh (
            bind-keeps (λ b. Keeps b.orders) (enter m req)
              (λ u. answer m req (m.fresh_id b.ids_drawn)) b (enter-Keeps m req b fresh h)
              (λ u.
                answer-Keeps m req (m.fresh_id b.ids_drawn) (enter m req b).1
                  (enter-Keeps m req b fresh h)))
      ]

      poll_now-Keeps :
          (m : Market F) (b : PaperBroker F) → Keeps b.orders → Keeps (poll_now m b).1.orders
      unfolding poll_now new_fills
      poll_now-Keeps m b h =
          let polled = poll_orders-Keeps m b.orders b h.1 (Keeps-Quiet b.orders h) h in
          bind-keeps (λ b. Keeps b.orders) (poll_orders m b.orders)
            (λ u. new_fills m (length b.all_fills)) b polled (λ u. polled)

      step-Keeps :
          (m : Market F) (b : PaperBroker F) (c : PaperCall F)
          → Keeps b.orders
          → Keeps (step m b c).orders
      unfolding step submit_order enter cancel_order cancel_known poll_resting_orders settle
      step-Keeps m b (submits req) h =
          connected-keeps (λ b. Keeps b.orders) m (place_new m req) b h (place_new-Keeps m req b h)
      step-Keeps m b (cancels cid) h =
          connected-keeps (λ b. Keeps b.orders) m (λ b. cancel_known m cid (lookup cid b.orders) b)
            b h (cancel_known-Keeps m cid (lookup cid b.orders) b refl h)
      step-Keeps m b polls h =
          connected-keeps (λ b. Keeps b.orders) m (poll_now m) b h (poll_now-Keeps m b h)
      step-Keeps m b settles h = h
      step-Keeps m b (injects fault) h = h

      -- An order that is filled, cancelled or rejected stays exactly as it is, whatever is submitted (a second
      -- time under its id too), cancelled, polled or settled afterwards, in whatever markets and under
      -- whatever faults.
      pub run-closed :
          (b : PaperBroker F) (calls : List (Market F × PaperCall F))
          → IsDict b.orders
          → lookup j b.orders ≡ some kept
          → lookup j (run b calls).orders ≡ some kept
      unfolding run
      run-closed b [] u found = found
      run-closed b ((m, c) ∷ calls) u found =
          let (found', u') = step-Keeps m b c (found, u) in run-closed (step m b c) calls u' found'
