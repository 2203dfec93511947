-- ===== src/Orders/Steps.antt =====
-- What one call does to the machine, and the calls as a sequence.
use autonomous_quant_tra.Base.{
  ℕ, ◌≡◌, refl, String, true, Option, none, some, List, [], ◌∷◌, ◌++◌, Option-cases, string_eq,
  Bool-cases, inl, inr, contains,
}
use autonomous_quant_tra.Dict.{Dict, lookup, insert}
use autonomous_quant_tra.Schema.{OrderState, created, state_eq}
use autonomous_quant_tra.Orders.{
  OrderStateMachine, OrderRecord, allowed, create, restore, transition, new_record, put, advance,
  step_of,
}

-- The machine after a transition of the record `r`.
abbrev pub after_step :
    String
    → OrderRecord
    → OrderState
    → ℕ
    → String
    → Option (Dict String String)
    → OrderStateMachine
    → OrderStateMachine
after_step cid r to now reason payload m =
    let t = step_of cid r to now reason payload in
    record m { orders = insert cid (advance r t) m.orders; event_log = m.event_log ++ t ∷ [] }

-- A transition is taken exactly when the order exists and the whitelist has the step; otherwise it
-- raises and nothing changes.
pub data Transition (cid : String) (to : OrderState) (now : ℕ) (reason : String)
    (payload : Option (Dict String String)) (m : OrderStateMachine)
    : OrderStateMachine → Type 0 where
  taken :
      (r : OrderRecord)
      → lookup cid m.orders ≡ some r
      → contains to (allowed r.state) ≡ true
      → Transition cid to now reason payload m (after_step cid r to now reason payload m)
  refused : Transition cid to now reason payload m m

pub transition-Transition :
    (cid : String) (to : OrderState) (now : ℕ) (reason : String)
    (payload : Option (Dict String String)) (m : OrderStateMachine)
    → Transition cid to now reason payload m (transition cid to now reason payload m).1
unfolding transition
transition-Transition cid to now reason payload m = elim (Option-cases (lookup cid m.orders)) [
  | inl missing ↦ rw missing refused
  | inr (r, found) ↦ elim (Bool-cases (contains to (allowed r.state))) [
    | inl listed ↦ rw (found, listed) (taken r found listed)
    | inr unlisted ↦ rw (found, unlisted) refused
  ]
]

-- What callers may do to the machine.
pub data Call : Type 0 where
  creates : String → Call
  restores : String → OrderState → Call
  transitions : String → OrderState → ℕ → String → Option (Dict String String) → Call

unfoldable pub step : OrderStateMachine → Call → OrderStateMachine
step m (creates cid) = (create cid m).1
step m (restores cid s) = (restore cid s m).1
step m (transitions cid to now reason payload) = (transition cid to now reason payload m).1

unfoldable pub run : OrderStateMachine → List Call → OrderStateMachine
run m [] = m
run m (c ∷ cs) = run (step m c) cs

-- The state that a call enters a new order in.
abbrev pub Enters : Call → OrderState → Type 0
Enters (creates cid) s = s ≡ created
Enters (restores cid t) s = s ≡ t
Enters (transitions cid to now reason payload) s = ⊥

-- To show a property of the machine after a call: it must survive the entry of a new order, and each
-- whitelisted transition.
module _ (P : OrderStateMachine → Type 0) (m : OrderStateMachine) (same : P m) where
  pub step_cases :
      (c : Call)
      → ((cid : String) (s : OrderState)
          → Enters c s
          → lookup cid m.orders ≡ none
          → P (put cid (new_record cid s) m))
      → ((cid : String) (to : OrderState) (now : ℕ) (reason : String)
            (payload : Option (Dict String String)) (r : OrderRecord)
          → lookup cid m.orders ≡ some r
          → contains to (allowed r.state) ≡ true
          → P (after_step cid r to now reason payload m))
      → P (step m c)
  unfolding step create restore
  step_cases (creates cid) enters moves = elim (Option-cases (lookup cid m.orders)) [
    | inl missing ↦ rw (missing, step) (enters cid created refl missing)
    | inr (r, found) ↦ rw (found, step) same
  ]
  step_cases (restores cid s) enters moves = elim (Option-cases (lookup cid m.orders)) [
    | inl missing ↦ rw (missing, step) (enters cid s refl missing)
    | inr (r, found) ↦ rw (found, step) same
  ]
  step_cases (transitions cid to now reason payload) enters moves =
      settle (transition-Transition cid to now reason payload m)
    where
      settle : {m' : OrderStateMachine} → Transition cid to now reason payload m m' → P m'
      settle (taken r found listed) = moves cid to now reason payload r found listed
      settle refused = same
