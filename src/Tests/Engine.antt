-- ===== src/Tests/Engine.antt =====
-- The execution engine with a broker that acknowledges every order.
use autonomous_quant_tra.Base.{◌≡◌, refl, ◌⊎◌, none, some, [], ◌∷◌, if◌then◌else◌, true, string_eq}
use autonomous_quant_tra.Int.{ℤ}
use autonomous_quant_tra.Exec.{ok, err, pure}
use autonomous_quant_tra.Dict.{lookup, insert}
use autonomous_quant_tra.Schema.{paper, acknowledged, state_eq, environment_eq}
use autonomous_quant_tra.Float.Fixed.{fixed_float, computing}
use autonomous_quant_tra.Approval.{
  ApprovedOrderSnapshot, from_approved, matches_intent, canonical_order_payload, join_bars,
  order_intent_hash,
}
use autonomous_quant_tra.Orders.{init, create, transition, get, allowed}
use autonomous_quant_tra.Risk.Review.{verify_signature, approval_of, sign}
use autonomous_quant_tra.Store
use autonomous_quant_tra.Store.{
  DurableOrderStore, record_submission, update_state, is_known, duplicate_row, no_row,
}
use autonomous_quant_tra.Store.Laws.{written, record_submission_lem}
use autonomous_quant_tra.Broker.{BrokerAdapter}
use autonomous_quant_tra.Execution.{
  ExecutionEngine, EngineError, duplicate_order, Setup, gate, checked_snapshot, poll_order,
  follow_status, settle_to, follow_status, move_to, sync_store, route_fills,
}
use autonomous_quant_tra.Execution.Calls.{submit, register, deliver, send, after_send, acknowledge}
use autonomous_quant_tra.Execution.Gate.{IsCleared, submit_gated}
use autonomous_quant_tra.Execution.Once.{polls, syncs, recovers, run, submit_once}
use autonomous_quant_tra.Tests.Control.{plain, sent, limits, controller}

abbrev agreeable : BrokerAdapter ℤ (Unit {0})
agreeable = record {
  submit_order = λ r. pure (record {
    client_order_id = r.client_order_id;
    broker_order_id = "b1";
    accepted = true;
    reason = "";
  });
  cancel_order = λ cid.
      pure (record { client_order_id = cid; broker_order_id = "b1"; accepted = true; reason = "" });
  get_order_status = λ cid. pure (record {
    client_order_id = cid;
    broker_order_id = "b1";
    state = acknowledged;
    filled_qty = fixed_float.decimal (autonomous_quant_tra.Int.pos 0) 0;
    remaining_qty = fixed_float.decimal (autonomous_quant_tra.Int.pos 0) 0;
  });
  get_fills = λ since. pure [];
  poll_resting_orders = none;
}

abbrev made_with : Setup ℤ
made_with = record {
  crypto = plain;
  config = limits;
  environment = paper;
  has_on_fill = true;
  in_2000 = λ t. t;
}

abbrev idle : ExecutionEngine ℤ (Unit {0})
idle = record {
  broker = tt;
  risk_controller = controller;
  state_machine = init;
  store = none;
  submitted_orders = [];
  snapshots = [];
  fills_seen = [];
}

abbrev frozen : ApprovedOrderSnapshot ℤ
frozen = from_approved plain sent "s1" "d1" "u1" none "momentum" "k1" none

submit_gated_example :
    ((x : EngineError) × (submit made_with agreeable sent none 9 idle ≡ (err x, idle)))
    ⊎ ((s : ApprovedOrderSnapshot ℤ) × IsCleared made_with agreeable sent none idle s)
submit_gated_example = submit_gated made_with agreeable sent none idle 9

submit_once_example :
    let later =
      run made_with agreeable
        (submit made_with agreeable sent (some frozen) 9 idle).1
        (polls "c1" 10 ∷ syncs 11 ∷ recovers ∷ []) in
    submit made_with agreeable sent (some frozen) 12 later ≡ (err duplicate_order, later)
unfolding follow_status move_to submit register deliver send after_send acknowledge gate
    checked_snapshot poll_order settle_to sync_store route_fills verify_signature approval_of sign
    matches_intent from_approved canonical_order_payload join_bars order_intent_hash computing
    create transition get allowed lookup insert
submit_once_example =
    submit_once made_with agreeable sent sent (some frozen) (some frozen) 9 12 idle
      (polls "c1" 10 ∷ syncs 11 ∷ recovers ∷ []) refl refl refl refl

abbrev table : DurableOrderStore ℤ
table = record { environment = paper; rows = [] }

record_submission_lem_example :
    let (r, s') = record_submission "c1" "d1" "a1" frozen acknowledged 5 table in
    (r ≡ (if is_known "c1" table then err duplicate_row else ok tt))
    × (Store.get "c1" s' ≡ some (written "c1" "d1" "a1" frozen acknowledged 5 table))
unfolding Store.get lookup
record_submission_lem_example =
    record_submission_lem "c1" "d1" "a1" frozen acknowledged 5 table "c1"

abbrev full : DurableOrderStore ℤ
full = record {
  environment = paper;
  rows = ("c1", written "c1" "d1" "a1" frozen acknowledged 5 table) ∷ [];
}
