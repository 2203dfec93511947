-- ===== src/Orders/Submission.antt =====
-- No order gets to the broker's states around the risk approval and the submission.
use autonomous_quant_tra.Base.{
  ◌≡◌, refl, inl, inr, String, true, false, Option, none, some, List, [], ◌∷◌, map, arith,
  string_eq, ◌==◌, contains, contains_head, contains_tail, Bool-cases, All,
}
use autonomous_quant_tra.Dict.{lookup}
use autonomous_quant_tra.Dict.Laws.{lookup-insert}
use autonomous_quant_tra.Schema.{
  OrderState, created, risk_approved, submitted, acknowledged, partially_filled, filled,
  cancel_requested, cancelled, unknown, expired, state_eq,
}
use autonomous_quant_tra.Orders.{
  OrderStateMachine, OrderRecord, StateTransition, init, allowed, new_record, advance, step_of,
}
use autonomous_quant_tra.Orders.Steps.{
  Call, step, run, step_cases, Enters, creates, restores, transitions,
}
use autonomous_quant_tra.Orders.History.{Leads, Leads-append}

-- The states that mean that the broker has, or may have, the order.
abbrev pub at_broker : List OrderState
at_broker =
    submitted ∷ acknowledged ∷ partially_filled ∷ filled ∷ cancel_requested ∷ cancelled ∷ unknown
    ∷ []

abbrev pub visited : List StateTransition → List OrderState
visited = map λ t. t.to_state

-- The calls of a session that recovers nothing from the durable store.
abbrev pub IsFresh : Call → Type 0
IsFresh (creates cid) = Unit
IsFresh (restores cid s) = ⊥
IsFresh (transitions cid to now reason payload) = Unit

abbrev FromCreated : Option OrderRecord → Type 0
FromCreated none = Unit
FromCreated (some r) = Leads created r.transitions r.state

abbrev AllFromCreated : OrderStateMachine → Type 0
AllFromCreated m = (cid : String) → FromCreated (lookup cid m.orders)

Enters-fresh : (c : Call) (s : OrderState) → IsFresh c → Enters c s → s ≡ created
Enters-fresh (creates cid) s fresh e = e
Enters-fresh (restores cid t) s fresh e = absurd fresh
Enters-fresh (transitions cid to now reason payload) s fresh e = absurd e

step-AllFromCreated :
    (m : OrderStateMachine) (c : Call) → IsFresh c → AllFromCreated m → AllFromCreated (step m c)
step-AllFromCreated m c fresh h =
    step_cases AllFromCreated m h c
      (λ cid s entered missing j.
        rw (lookup-insert j cid (new_record cid s) m.orders) (elim (Bool-cases (j == cid)) [
          | inl same ↦ rw (same, Enters-fresh c s fresh entered) refl
          | inr other ↦ rw other (h j)
        ]))
      λ cid to now reason payload r found listed j.
        let t = step_of cid r to now reason payload in
        rw (lookup-insert j cid (advance r t) m.orders) (elim (Bool-cases (j == cid)) [
          | inl same ↦
              rw same
                (Leads-append created r.transitions r.state t (rw found at (h cid)) refl listed)
          | inr other ↦ rw other (h j)
        ])

run-AllFromCreated :
    (m : OrderStateMachine) (cs : List Call)
    → All IsFresh cs
    → AllFromCreated m
    → AllFromCreated (run m cs)
unfolding run
run-AllFromCreated m [] fresh h = h
run-AllFromCreated m (c ∷ cs) fresh h =
    run-AllFromCreated (step m c) cs fresh.1 (step-AllFromCreated m c fresh.0 h)

-- A zone of states that can be entered at one state only is entered through it.
module _ (zone : List OrderState) (gate : OrderState)
    (entry : (s u : OrderState)
      → contains u (allowed s) ≡ true
      → contains u zone ≡ true
      → contains s zone ≡ false
      → u ≡ gate) where
  through_gate :
      (s t : OrderState) (xs : List StateTransition)
      → Leads s xs t
      → contains t zone ≡ true
      → contains s zone ≡ false
      → contains gate (visited xs) ≡ true
  through_gate s t [] h inside outside = ground (arith, inside, outside, h)
  through_gate s t (x ∷ xs) h inside outside = elim (Bool-cases (contains x.to_state zone)) [
    | inl entered ↦
        contains_head gate x.to_state (visited xs) (entry s x.to_state h.1 entered outside)
    | inr still ↦
        contains_tail gate x.to_state (visited xs) (through_gate x.to_state t xs h.2 inside still)
  ]

broker_entry :
    (s u : OrderState)
    → contains u (allowed s) ≡ true
    → contains u at_broker ≡ true
    → contains s at_broker ≡ false
    → u ≡ submitted
unfolding allowed
broker_entry s u = ground arith

-- The states that only an order with a risk approval is in.
abbrev approved : List OrderState
approved = risk_approved ∷ expired ∷ at_broker

approval_entry :
    (s u : OrderState)
    → contains u (allowed s) ≡ true
    → contains u approved ≡ true
    → contains s approved ≡ false
    → u ≡ risk_approved
unfolding allowed
approval_entry s u = ground arith

approved_of_broker : (t : OrderState) → contains t at_broker ≡ true → contains t approved ≡ true
approved_of_broker t h = ground arith

-- Whatever a session calls that recovers nothing from the durable store: an order that the broker
-- has or may have (or has filled or cancelled) went through SUBMITTED, and before that through
-- RISK_APPROVED.
pub run_through_gates :
    (cs : List Call) (cid : String) (r : OrderRecord)
    → All IsFresh cs
    → lookup cid (run init cs).orders ≡ some r
    → contains r.state at_broker ≡ true
    → (contains submitted (visited r.transitions) ≡ true)
      × (contains risk_approved (visited r.transitions) ≡ true)
unfolding lookup
run_through_gates cs cid r fresh found there =
    let leads : Leads created r.transitions r.state =
      rw found at (run-AllFromCreated init cs fresh (λ j. tt) cid) in
    (
      through_gate at_broker submitted broker_entry created r.state r.transitions leads there refl,
      through_gate approved risk_approved approval_entry created r.state r.transitions leads
          (approved_of_broker r.state there) refl,
    )
