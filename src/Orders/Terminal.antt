-- ===== src/Orders/Terminal.antt =====
-- FILLED, CANCELLED, REJECTED and EXPIRED are final.
use autonomous_quant_tra.Base.{
  ◌≡◌, ◌↔◌, String, true, some, List, [], ◌∷◌, arith, eq_iff, string_eq, contains,
}
use autonomous_quant_tra.Dict.{lookup}
use autonomous_quant_tra.Dict.Laws.{lookup-insert}
use autonomous_quant_tra.Schema.{OrderState, state_eq}
use autonomous_quant_tra.Orders.{
  OrderStateMachine, OrderRecord, allowed, terminal_states, advance, new_record, step_of,
}
use autonomous_quant_tra.Orders.Steps.{Call, step, run, step_cases}

-- The whitelist leaves no way out of a state exactly if it is terminal.
pub terminal_iff : (s : OrderState) → (contains s terminal_states ≡ true) ↔ (allowed s ≡ [])
unfolding allowed terminal_states
terminal_iff s = ground arith

module _ (cid : String) (r : OrderRecord) (final : contains r.state terminal_states ≡ true) where
  abbrev Holds : OrderStateMachine → Type 0
  Holds m = lookup cid m.orders ≡ some r

  step-Holds : (m : OrderStateMachine) (c : Call) → Holds m → Holds (step m c)
  step-Holds m c h =
      step_cases Holds m h c
        (λ j s entered missing.
          ground (arith, lookup-insert cid j (new_record j s) m.orders, eq_iff cid j))
        λ j to now reason payload q found listed. ground (
          arith,
          lookup-insert cid j (advance q (step_of j q to now reason payload)) m.orders,
          eq_iff cid j,
          (terminal_iff r.state).0 final,
        )

  -- Once an order is in a terminal state, nothing that is called afterwards changes its record.
  pub terminal_is_final : (m : OrderStateMachine) (cs : List Call) → Holds m → Holds (run m cs)
  unfolding run
  terminal_is_final m [] h = h
  terminal_is_final m (c ∷ cs) h = terminal_is_final (step m c) cs (step-Holds m c h)
