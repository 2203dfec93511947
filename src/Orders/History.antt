-- ===== src/Orders/History.antt =====
-- Event sourcing: every record is the outcome of its own transitions, and those are the entries that
-- the event log holds for it.
use autonomous_quant_tra.Base.{
  ℕ, ◌+◌, ◌≡◌, refl, sym, ap, ◌∙◌, inl, inr, String, true, false, Option, none, some, List, [], ◌∷◌,
  ◌++◌, arith, eq_iff, string_eq, ◌==◌, contains, keep, keep-append, length, length-append,
  Bool-cases,
}
use mathlib.Core.List.{append-nil}
use autonomous_quant_tra.Dict.{Dict, lookup}
use autonomous_quant_tra.Dict.Laws.{lookup-insert}
use autonomous_quant_tra.Schema.{OrderState, state_eq}
use autonomous_quant_tra.Orders.{
  OrderStateMachine, OrderRecord, StateTransition, init, allowed, new_record, put, advance, step_of,
}
use autonomous_quant_tra.Orders.Steps.{Call, step, run, step_cases, after_step}

-- The transitions lead from `s` to `t`, each from where the last one ended, and each is whitelisted.
abbrev pub Leads : OrderState → List StateTransition → OrderState → Type 0
Leads s [] t = s ≡ t
Leads s (x ∷ xs) t =
    (x.from_state ≡ s) × (contains x.to_state (allowed s) ≡ true) × Leads x.to_state xs t

pub Leads-append :
    (s : OrderState) (xs : List StateTransition) (t : OrderState) (x : StateTransition)
    → Leads s xs t
    → x.from_state ≡ t
    → contains x.to_state (allowed t) ≡ true
    → Leads s (xs ++ x ∷ []) x.to_state
Leads-append s [] t x h from listed = rw h (from, listed, refl)
Leads-append s (y ∷ ys) t x h from listed =
    (h.0, h.1, Leads-append y.to_state ys t x h.2 from listed)

-- The log's entries for one order, in order.
abbrev pub entries_of : String → List StateTransition → List StateTransition
entries_of cid = keep (λ t. t.client_order_id == cid)

pub record IsSourced (cid : String) (r : OrderRecord) (log : List StateTransition) : Type 0 where
  pub start : OrderState
  pub named : r.client_order_id ≡ cid
  pub leads : Leads start r.transitions r.state
  pub counted : r.version ≡ length r.transitions + 1
  pub logged : entries_of cid log ≡ r.transitions

abbrev pub Sourced : String → Option OrderRecord → List StateTransition → Type 0
Sourced cid none log = entries_of cid log ≡ []
Sourced cid (some r) log = IsSourced cid r log

abbrev pub IsEventSourced : OrderStateMachine → Type 0
IsEventSourced m = (cid : String) → Sourced cid (lookup cid m.orders) m.event_log

entries-append_self :
    (cid : String) (log : List StateTransition) (t : StateTransition)
    → t.client_order_id ≡ cid
    → entries_of cid (log ++ t ∷ []) ≡ entries_of cid log ++ t ∷ []
entries-append_self cid log t e =
    rw
      (keep-append (λ x. x.client_order_id == cid) log (t ∷ []), (eq_iff t.client_order_id cid).1 e)

entries-append_ne :
    (cid : String) (log : List StateTransition) (t : StateTransition)
    → (t.client_order_id == cid) ≡ false
    → entries_of cid (log ++ t ∷ []) ≡ entries_of cid log
entries-append_ne cid log t e =
    rw (keep-append (λ x. x.client_order_id == cid) log (t ∷ []), e) (append-nil _)

Sourced-append_ne :
    (cid : String) (o : Option OrderRecord) (log : List StateTransition) (t : StateTransition)
    → (t.client_order_id == cid) ≡ false
    → Sourced cid o log
    → Sourced cid o (log ++ t ∷ [])
Sourced-append_ne cid none log t e h = entries-append_ne cid log t e ∙ h
Sourced-append_ne cid (some r) log t e h = record {
  start = h.start;
  named = h.named;
  leads = h.leads;
  counted = h.counted;
  logged = entries-append_ne cid log t e ∙ h.logged;
}

advance-IsSourced :
    (cid : String) (r : OrderRecord) (log : List StateTransition) (t : StateTransition)
    → IsSourced cid r log
    → t.client_order_id ≡ cid
    → t.from_state ≡ r.state
    → contains t.to_state (allowed r.state) ≡ true
    → IsSourced cid (advance r t) (log ++ t ∷ [])
advance-IsSourced cid r log t h named from listed = record {
  start = h.start;
  named = h.named;
  leads = Leads-append h.start r.transitions r.state t h.leads from listed;
  counted = omega (arith, h.counted, length-append r.transitions (t ∷ []));
  logged = entries-append_self cid log t named ∙ ap (λ xs. xs ++ t ∷ []) h.logged;
}

new-IsSourced :
    (cid j : String) (s : OrderState) (log : List StateTransition)
    → j ≡ cid
    → entries_of cid log ≡ []
    → IsSourced j (new_record cid s) log
new-IsSourced cid j s log e empty = record {
  start = s;
  named = sym e;
  leads = refl;
  counted = omega arith;
  logged = rw e empty;
}

enter-IsEventSourced :
    (m : OrderStateMachine) (cid : String) (s : OrderState)
    → IsEventSourced m
    → lookup cid m.orders ≡ none
    → IsEventSourced (put cid (new_record cid s) m)
enter-IsEventSourced m cid s h missing j =
    rw (lookup-insert j cid (new_record cid s) m.orders) (elim (Bool-cases (j == cid)) [
      | inl same ↦
          rw same
            (new-IsSourced cid j s m.event_log ((eq_iff j cid).0 same) (rw missing at (h cid)))
      | inr other ↦ rw other (h j)
    ])

move-IsEventSourced :
    (m : OrderStateMachine) (cid : String) (to : OrderState) (now : ℕ) (reason : String)
    (payload : Option (Dict String String)) (r : OrderRecord)
    → IsEventSourced m
    → lookup cid m.orders ≡ some r
    → contains to (allowed r.state) ≡ true
    → IsEventSourced (after_step cid r to now reason payload m)
move-IsEventSourced m cid to now reason payload r h found listed j =
    let t = step_of cid r to now reason payload in
    rw (lookup-insert j cid (advance r t) m.orders) (elim (Bool-cases (j == cid)) [
      | inl same ↦
          let e = (eq_iff j cid).0 same in
          rw (same, e)
            (advance-IsSourced cid r m.event_log t (rw found at (h cid)) refl refl listed)
      | inr other ↦ rw other (
          Sourced-append_ne j (lookup j m.orders) m.event_log t
            (ground (arith, eq_iff cid j, eq_iff j cid)) (h j))
    ])

step-IsEventSourced :
    (m : OrderStateMachine) (c : Call) → IsEventSourced m → IsEventSourced (step m c)
step-IsEventSourced m c h =
    step_cases IsEventSourced m h c (λ cid s entered. enter-IsEventSourced m cid s h)
      (λ cid to now reason payload r. move-IsEventSourced m cid to now reason payload r h)

run-IsEventSourced :
    (m : OrderStateMachine) (cs : List Call) → IsEventSourced m → IsEventSourced (run m cs)
unfolding run
run-IsEventSourced m [] h = h
run-IsEventSourced m (c ∷ cs) h = run-IsEventSourced (step m c) cs (step-IsEventSourced m c h)

-- Whatever is called on a new machine, every order's state is reached from the state it was entered
-- in by its own transitions, each of them whitelisted; its version counts them; and they are the
-- event log's entries for it, in order. An id that was never entered has none.
pub run-init-IsEventSourced : (cs : List Call) → IsEventSourced (run init cs)
unfolding lookup
run-init-IsEventSourced cs = run-IsEventSourced init cs (λ cid. refl)
