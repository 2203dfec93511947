-- ===== src/Schema.antt =====
-- The enumerations of packages/schemas/core.py and packages/common/environment.py that the
-- components share, with Python's `is` and `in` on them.
use autonomous_quant_tra.Base.{ℕ, ◌≡◌, ◌↔◌, arith, true, Eq, eqb}

pub data Action : Type 0 where
  buy sell : Action

pub data OrderState : Type 0 where
  created risk_approved submitted acknowledged partially_filled filled cancel_requested cancelled
        rejected expired unknown :
      OrderState

pub data OrderType : Type 0 where
  market limit stop : OrderType

pub data Environment : Type 0 where
  research paper live : Environment

abbrev action_index : Action → ℕ
action_index buy = 0
action_index sell = 1

pub action_iff : (a b : Action) → (eqb (action_index a) (action_index b) ≡ true) ↔ (a ≡ b)
action_iff a b = ground arith

instance abbrev pub action_eq : Eq Action
action_eq = record { beq = λ a b. eqb (action_index a) (action_index b); beq_iff = action_iff }

abbrev state_index : OrderState → ℕ
state_index created = 0
state_index risk_approved = 1
state_index submitted = 2
state_index acknowledged = 3
state_index partially_filled = 4
state_index filled = 5
state_index cancel_requested = 6
state_index cancelled = 7
state_index rejected = 8
state_index expired = 9
state_index unknown = 10

pub state_iff : (a b : OrderState) → (eqb (state_index a) (state_index b) ≡ true) ↔ (a ≡ b)
state_iff a b = ground arith

instance abbrev pub state_eq : Eq OrderState
state_eq = record { beq = λ a b. eqb (state_index a) (state_index b); beq_iff = state_iff }

abbrev type_index : OrderType → ℕ
type_index market = 0
type_index limit = 1
type_index stop = 2

pub type_iff : (a b : OrderType) → (eqb (type_index a) (type_index b) ≡ true) ↔ (a ≡ b)
type_iff a b = ground arith

instance abbrev pub type_eq : Eq OrderType
type_eq = record { beq = λ a b. eqb (type_index a) (type_index b); beq_iff = type_iff }

abbrev environment_index : Environment → ℕ
environment_index research = 0
environment_index paper = 1
environment_index live = 2

pub environment_iff :
    (a b : Environment) → (eqb (environment_index a) (environment_index b) ≡ true) ↔ (a ≡ b)
environment_iff a b = ground arith

instance abbrev pub environment_eq : Eq Environment
environment_eq = record {
  beq = λ a b. eqb (environment_index a) (environment_index b);
  beq_iff = environment_iff;
}
