-- ===== src/Orders.antt =====
-- The order state machine (services/execution/state_machine.py): a whitelist of transitions, one
-- record for each order, and an append-only event log. Instants are numbers of microseconds, and the
-- clock's reading is an argument. `get` and the others return the record itself in Python; no caller
-- writes to it, so a copy serves.
pub mod Steps
pub mod History
pub mod Terminal
pub mod Submission
use autonomous_quant_tra.Base.{
  ℕ, ◌+◌, String, Bool, true, false, not, Option, List, [], ◌∷◌, ◌++◌, contains, keep, string_eq,
}
use autonomous_quant_tra.Dict.{Dict, lookup, insert, has_key, values}
use autonomous_quant_tra.Exec.{Exec, pure, gets, or_raise, raise_if, modify, ◌>>=◌, ◌>>◌}
use autonomous_quant_tra.Schema.{
  OrderState, created, risk_approved, submitted, acknowledged, partially_filled, filled,
  cancel_requested, cancelled, rejected, expired, unknown, state_eq,
}

-- ALLOWED_TRANSITIONS
unfoldable pub allowed : OrderState → List OrderState
allowed created = risk_approved ∷ rejected ∷ []
allowed risk_approved = submitted ∷ expired ∷ rejected ∷ []
allowed submitted = acknowledged ∷ rejected ∷ unknown ∷ []
allowed acknowledged =
    partially_filled ∷ filled ∷ cancel_requested ∷ expired ∷ rejected ∷ unknown ∷ []
allowed partially_filled = filled ∷ cancel_requested ∷ unknown ∷ []
allowed cancel_requested = cancelled ∷ filled ∷ partially_filled ∷ unknown ∷ []
allowed unknown = acknowledged ∷ partially_filled ∷ filled ∷ cancelled ∷ rejected ∷ expired ∷ []
allowed filled = []
allowed cancelled = []
allowed rejected = []
allowed expired = []

-- TERMINAL_STATES
unfoldable pub terminal_states : List OrderState
terminal_states = filled ∷ cancelled ∷ rejected ∷ expired ∷ []

pub record StateTransition : Type 0 where
  pub client_order_id : String
  pub from_state : OrderState
  pub to_state : OrderState
  pub at : ℕ
  pub reason : String
  pub broker_payload : Option (Dict String String)

pub record OrderRecord : Type 0 where
  pub client_order_id : String
  pub state : OrderState
  pub version : ℕ
  pub transitions : List StateTransition

pub record OrderStateMachine : Type 0 where
  pub orders : Dict String OrderRecord
  pub event_log : List StateTransition

pub data OrderError : Type 0 where
  illegal_transition key_error : OrderError

abbrev pub init : OrderStateMachine
init = record { orders = []; event_log = [] }

abbrev pub new_record : String → OrderState → OrderRecord
new_record cid s = record { client_order_id = cid; state = s; version = 1; transitions = [] }

abbrev pub put : String → OrderRecord → OrderStateMachine → OrderStateMachine
put cid r m = record m { orders = insert cid r m.orders }

unfoldable pub restore : String → OrderState → Exec OrderError OrderStateMachine OrderRecord
restore cid s = do
  raise_if (← gets (λ m. has_key cid m.orders)) illegal_transition
  modify (put cid (new_record cid s))
  pure (new_record cid s)

unfoldable pub create : String → Exec OrderError OrderStateMachine OrderRecord
create cid = do
  raise_if (← gets (λ m. has_key cid m.orders)) illegal_transition
  modify (put cid (new_record cid created))
  pure (new_record cid created)

unfoldable pub get : String → Exec OrderError OrderStateMachine OrderRecord
get cid = do or_raise (← gets (λ m. lookup cid m.orders)) key_error

abbrev pub advance : OrderRecord → StateTransition → OrderRecord
advance r t = record r {
  state = t.to_state;
  version = r.version + 1;
  transitions = r.transitions ++ t ∷ [];
}

abbrev pub step_of :
    String → OrderRecord → OrderState → ℕ → String → Option (Dict String String) → StateTransition
step_of cid r to now reason payload = record {
  client_order_id = cid;
  from_state = r.state;
  to_state = to;
  at = now;
  reason = reason;
  broker_payload = payload;
}

unfoldable pub transition :
    String
    → OrderState
    → ℕ
    → String
    → Option (Dict String String)
    → Exec OrderError OrderStateMachine OrderRecord
transition cid to now reason payload = do
  r ← or_raise (← gets (λ m. lookup cid m.orders)) key_error
  raise_if (not (contains to (allowed r.state))) illegal_transition
  let t = step_of cid r to now reason payload
  modify (λ m. record m {
    orders = insert cid (advance r t) m.orders;
    event_log = m.event_log ++ t ∷ [];
  })
  pure (advance r t)

unfoldable pub orders_in_state : List OrderState → OrderStateMachine → List OrderRecord
orders_in_state states m = keep (λ r. contains r.state states) (values m.orders)

unfoldable pub has_unknown : OrderStateMachine → Bool
unfolding orders_in_state
has_unknown m = elim (orders_in_state (unknown ∷ []) m) [ [] ↦ false | r ∷ rs ↦ true ]
