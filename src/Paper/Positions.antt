-- ===== src/Paper/Positions.antt =====
-- What the broker holds.
use autonomous_quant_tra.Base.{
  ◌≡◌, ◌+◌, refl, inl, inr, String, Bool, false, Option, none, some, List, [], ◌∷◌, arith,
  Bool-cases, if◌then◌else◌, string_eq, length,
}
use autonomous_quant_tra.Int.{pos}
use autonomous_quant_tra.Dict.{Dict, lookup, insert, has_key}
use autonomous_quant_tra.Dict.Laws.{AllValues, insert-AllValues, erase-AllValues, lookup-AllValues}
use autonomous_quant_tra.Exec.{Result, ok, err, bind-keeps}
use autonomous_quant_tra.Float.{Float, IsFloat, ◌≼◌, nought, ◌⊖◌, ◌⊘◌, ◌≤?◌, ◌<?◌, ◌⊕◌, ◌⊗◌, tiny}
use autonomous_quant_tra.Float.Order.{le-add, le-add_left, le_trans, le_refl}
use autonomous_quant_tra.Schema.{Action, buy, sell}
use autonomous_quant_tra.Broker.{BrokerOrderRequest, BrokerError}
use autonomous_quant_tra.Reconciliation.{BrokerPosition}
use autonomous_quant_tra.Paper.{
  PaperOrder, PaperBroker, Market, execute, fill_at, fill_maybe, fill_buy, sell_from, book,
  fill_side, try_fill, is_partial, ten_thousand, bought, sold,
}
use autonomous_quant_tra.Paper.Calls.{
  submit_order, cancel_order, settle, poll_resting_orders, poll_now, new_fills, poll_orders,
  poll_one, cancel_known, enter, resting, is_timeout, new_order, place, place_new, answer,
}
use autonomous_quant_tra.Paper.Run.{
  PaperCall, submits, cancels, polls, settles, injects, step, run, connected-keeps,
}
use autonomous_quant_tra.Paper.Covered.{IsCovered, execute-IsCovered}

module _ {F : Type 0} ⦃fl : Float F⦄ where
  -- No position is short.
  abbrev pub Long : Dict String (BrokerPosition F) → Type 0
  Long = AllValues (λ (p : BrokerPosition F). nought ≼ p.qty)

  module _ (laws : IsFloat F) where
    open laws use {tiny_nonneg, div_nonneg, whole_pos}

    bought_long :
        (m : Market F) (symbol : String) (qty cost : F) (held : Option (BrokerPosition F))
        → nought ≼ qty
        → ((p : BrokerPosition F) → held ≡ some p → nought ≼ p.qty)
        → nought ≼ (bought m symbol qty cost held).qty
    unfolding bought
    bought_long m symbol qty cost none q h =
        le_trans nought qty _ q (le-add_left laws nought qty (le_refl (nought {F = F})))
    bought_long m symbol qty cost (some p) q h =
        le_trans nought p.qty _ (h p refl) (le-add laws p.qty qty q)

    sold-Long :
        (m : Market F) (symbol : String) (qty : F) (p : BrokerPosition F)
        (positions : Dict String (BrokerPosition F))
        → Long positions
        → Long (sold m symbol qty p positions)
    unfolding sold
    sold-Long m symbol qty p positions h = elim (Bool-cases (p.qty ⊖ qty ≤? tiny)) [
      | inl gone ↦ rw gone (erase-AllValues _ symbol positions h)
      | inr left ↦ rw left (
          insert-AllValues (λ (p : BrokerPosition F). nought ≼ p.qty) symbol _ positions
            (ground (arith, tiny_nonneg)) h)
    ]

    module _ (m : Market F) (cid : String) (po : PaperOrder F) where
      fill_buy-Long :
          (qty px : F) (b : PaperBroker F)
          → nought ≼ qty
          → Long b.positions
          → Long (fill_buy m cid po qty px b).positions
      unfolding fill_buy book
      fill_buy-Long qty px b q h =
          let symbol = po.request.symbol in
          elim (Bool-cases
            (b.settled_cash ⊕ tiny <? qty ⊗ px ⊕ qty ⊗ px ⊗ m.fee_bps ⊘ ten_thousand m)) [
              | inl short ↦ rw short h
              | inr covered ↦ rw covered (
                  insert-AllValues (λ (p : BrokerPosition F). nought ≼ p.qty) symbol _ b.positions
                    (bought_long m symbol qty (qty ⊗ px) (lookup symbol b.positions) q (λ p.
                      lookup-AllValues (λ (p : BrokerPosition F). nought ≼ p.qty) symbol b.positions
                        h))
                    h)
            ]

      sell_from-Long :
          (qty px : F) (held : Option (BrokerPosition F)) (b : PaperBroker F)
          → Long b.positions
          → Long (sell_from m cid po qty px held b).positions
      unfolding sell_from book
      sell_from-Long qty px none b h = h
      sell_from-Long qty px (some p) b h = elim (Bool-cases (p.qty ⊕ tiny <? qty)) [
        | inl short ↦ rw short h
        | inr covered ↦ rw covered (sold-Long m po.request.symbol qty p b.positions h)
      ]

      fill_side-Long :
          (side : Action) (qty px : F) (b : PaperBroker F)
          → nought ≼ qty
          → Long b.positions
          → Long (fill_side m side cid po qty px b).positions
      fill_side-Long buy qty px b q h = fill_buy-Long qty px b q h
      fill_side-Long sell qty px b q h =
          sell_from-Long qty px (lookup po.request.symbol b.positions) b h

      -- Half of what is not negative is not negative.
      part_nonneg :
          (partial : Bool) (x : F)
          → (x ≤? tiny) ≡ false
          → nought ≼ (if partial then x ⊘ fl.decimal (pos 2) 0 else x)
      part_nonneg partial x h =
          let x_nonneg : nought ≼ x = ground (arith, tiny_nonneg) in
          ground (arith, div_nonneg x (fl.decimal (pos 2) 0) x_nonneg, whole_pos 1)

      fill_maybe-Long :
          (px : Option F) (b : PaperBroker F)
          → Long b.positions
          → Long (fill_maybe m cid po px b).positions
      unfolding fill_at
      fill_maybe-Long none b h = h
      fill_maybe-Long (some px) b h =
          let outstanding = po.request.qty ⊖ po.filled_qty in
          elim (Bool-cases (po.request.qty ⊖ po.filled_qty ≤? tiny)) [
            | inl done ↦ rw done h
            | inr due ↦ rw due (
                fill_side-Long po.request.side _ px b
                  (part_nonneg (is_partial b.fault) (po.request.qty ⊖ po.filled_qty) due) h)
          ]

      try_fill-Long :
          (px : Result BrokerError (Option F)) (b : PaperBroker F)
          → Long b.positions
          → Long (try_fill m cid po px b).1.positions
      try_fill-Long (err x) b h = h
      try_fill-Long (ok px) b h = fill_maybe-Long px b h

      execute-Long : (b : PaperBroker F) → Long b.positions → Long (execute m cid po b).1.positions
      unfolding execute
      execute-Long b h = try_fill-Long _ b h

    module _ (m : Market F) where
      poll_one-Long :
          (cid : String) (po : PaperOrder F) (b : PaperBroker F)
          → Long b.positions
          → Long (poll_one m cid po b).1.positions
      unfolding poll_one
      poll_one-Long cid po b h = elim (Bool-cases (resting po.state)) [
        | inl rests ↦ rw rests (execute-Long m cid po b h)
        | inr closed ↦ rw closed h
      ]

      poll_orders-Long :
          (entries : Dict String (PaperOrder F)) (b : PaperBroker F)
          → Long b.positions
          → Long (poll_orders m entries b).1.positions
      unfolding poll_orders
      poll_orders-Long [] b h = h
      poll_orders-Long ((cid, po) ∷ entries) b h =
          let first = poll_one-Long cid po b h in
          bind-keeps (λ b. Long b.positions) (poll_one m cid po) (λ u. poll_orders m entries) b
            first (λ u. poll_orders-Long entries (poll_one m cid po b).1 first)

      answer-Long :
          (req : BrokerOrderRequest F) (id : String) (b : PaperBroker F)
          → Long b.positions
          → Long (answer m req id b).1.positions
      unfolding answer
      answer-Long req id b h = elim (Bool-cases (is_timeout b.fault)) [
        | inl late ↦ rw late h
        | inr timely ↦ rw timely h
      ]

      place_new-Long :
          (req : BrokerOrderRequest F) (b : PaperBroker F)
          → Long b.positions
          → Long (place_new m req b).1.positions
      unfolding place_new place enter
      place_new-Long req b h = elim (Bool-cases (has_key req.client_order_id b.orders)) [
        | inl known ↦ rw known h
        | inr fresh ↦ rw fresh (
            let entered =
              execute-Long m req.client_order_id (new_order m req (m.fresh_id b.ids_drawn))
                (record b {
                  orders =
                      insert req.client_order_id (new_order m req (m.fresh_id b.ids_drawn))
                        b.orders;
                  ids_drawn = b.ids_drawn + 1;
                })
                h in
            bind-keeps (λ b. Long b.positions) (enter m req)
              (λ u. answer m req (m.fresh_id b.ids_drawn)) b entered
              (λ u. answer-Long req (m.fresh_id b.ids_drawn) (enter m req b).1 entered))
      ]

      cancel_known-Long :
          (cid : String) (found : Option (PaperOrder F)) (b : PaperBroker F)
          → Long b.positions
          → Long (cancel_known m cid found b).1.positions
      unfolding cancel_known
      cancel_known-Long cid none b h = h
      cancel_known-Long cid (some po) b h = elim (Bool-cases (resting po.state)) [
        | inl rests ↦ rw rests h
        | inr stays ↦ rw stays h
      ]

      poll_now-Long : (b : PaperBroker F) → Long b.positions → Long (poll_now m b).1.positions
      unfolding poll_now new_fills
      poll_now-Long b h =
          let polled = poll_orders-Long b.orders b h in
          bind-keeps (λ b. Long b.positions) (poll_orders m b.orders)
            (λ u. new_fills m (length b.all_fills)) b polled (λ u. polled)

      step-Long :
          (b : PaperBroker F) (c : PaperCall F) → Long b.positions → Long (step m b c).positions
      unfolding step submit_order cancel_order poll_resting_orders settle
      step-Long b (submits req) h =
          connected-keeps (λ b. Long b.positions) m (place_new m req) b h (place_new-Long req b h)
      step-Long b (cancels cid) h =
          connected-keeps (λ b. Long b.positions) m
            (λ b. cancel_known m cid (lookup cid b.orders) b) b h
            (cancel_known-Long cid (lookup cid b.orders) b h)
      step-Long b polls h =
          connected-keeps (λ b. Long b.positions) m (poll_now m) b h (poll_now-Long b h)
      step-Long b settles h = h
      step-Long b (injects fault) h = h

    run_calls-Long :
        (b : PaperBroker F) (calls : List (Market F × PaperCall F))
        → Long b.positions
        → Long (run b calls).positions
    unfolding run
    run_calls-Long b [] h = h
    run_calls-Long b ((m, c) ∷ calls) h = run_calls-Long (step m b c) calls (step-Long m b c h)

    -- A broker that starts without a short position holds none, however its calls go; and whatever order is
    -- executed next, in whatever market, either nothing is traded (the fills, the positions and the cash stay),
    -- or one fill of the order's symbol and side is added: a purchase that the settled cash pays for with its
    -- fees, or a sale of at most what is held, up to the tolerance.
    pub run-Long :
        (b : PaperBroker F) (calls : List (Market F × PaperCall F)) (m : Market F) (cid : String)
        (po : PaperOrder F)
        → Long b.positions
        → let after = run b calls in
          Long after.positions × IsCovered m po.request.side po after (execute m cid po after).1
    run-Long b calls m cid po h =
        (run_calls-Long b calls h, execute-IsCovered m cid po (run b calls))
