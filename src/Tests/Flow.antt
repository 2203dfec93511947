-- ===== src/Tests/Flow.antt =====
-- Order lifecycle.
use autonomous_quant_tra.Base.{◌≡◌, refl, true, none, some, List, [], ◌∷◌, contains, string_eq, All}
use autonomous_quant_tra.Dict.{lookup, insert}
use autonomous_quant_tra.Schema.{created, risk_approved, submitted, acknowledged, filled, state_eq}
use autonomous_quant_tra.Orders.{
  OrderStateMachine, OrderRecord, StateTransition, init, allowed, terminal_states, create,
  transition,
}
use autonomous_quant_tra.Orders.Steps.{Call, creates, transitions, step, run}
use autonomous_quant_tra.Orders.History.{IsEventSourced, run-init-IsEventSourced}
use autonomous_quant_tra.Orders.Terminal.{terminal_is_final}
use autonomous_quant_tra.Orders.Submission.{visited, IsFresh, run_through_gates}

abbrev session : List Call
session =
    creates "c1"
    ∷ transitions "c1" risk_approved 1 "approved" none
    ∷ transitions "c1" filled 2 "too early" none
    ∷ transitions "c1" submitted 3 "sent" none
    ∷ creates "c1"
    ∷ []

run-init-IsEventSourced_example : IsEventSourced (run init session)
run-init-IsEventSourced_example = run-init-IsEventSourced session

abbrev approval : StateTransition
approval = record {
  client_order_id = "c1";
  from_state = created;
  to_state = risk_approved;
  at = 1;
  reason = "approved";
  broker_payload = none;
}

abbrev sent : StateTransition
sent = record {
  client_order_id = "c1";
  from_state = risk_approved;
  to_state = submitted;
  at = 3;
  reason = "sent";
  broker_payload = none;
}

abbrev submitted_order : OrderRecord
submitted_order = record {
  client_order_id = "c1";
  state = submitted;
  version = 3;
  transitions = approval ∷ sent ∷ [];
}

IsFresh-session : All IsFresh session
IsFresh-session = (tt, (tt, (tt, (tt, (tt, tt)))))

run_through_gates_example :
    (contains submitted (visited submitted_order.transitions) ≡ true)
    × (contains risk_approved (visited submitted_order.transitions) ≡ true)
unfolding run step create transition allowed lookup insert
run_through_gates_example = run_through_gates session "c1" submitted_order IsFresh-session refl refl

abbrev filled_order : OrderRecord
filled_order = record { client_order_id = "c9"; state = filled; version = 1; transitions = [] }

abbrev recovered : OrderStateMachine
recovered = record { orders = ("c9", filled_order) ∷ []; event_log = [] }

terminal_is_final_example :
    lookup "c9" (run recovered (transitions "c9" acknowledged 5 "late" none ∷ session)).orders
    ≡ some filled_order
unfolding lookup terminal_states
terminal_is_final_example =
    terminal_is_final "c9" filled_order refl recovered
      (transitions "c9" acknowledged 5 "late" none ∷ session) refl
