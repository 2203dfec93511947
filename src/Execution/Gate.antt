-- ===== src/Execution/Gate.antt =====
-- What reaches the broker.
use autonomous_quant_tra.Base.{
  ℕ, ◌≡◌, refl, ◌⊎◌, inl, inr, true, false, Option, none, some, ◌==◌, string_eq, arith, Bool-cases,
  eq_iff,
}
use autonomous_quant_tra.Dict.{lookup}
use autonomous_quant_tra.Exec.{ok, err, Result-cases, bind-err}
use autonomous_quant_tra.Float.{Float}
use autonomous_quant_tra.Schema.{environment_eq}
use autonomous_quant_tra.Approval.{RiskApprovedOrder, ApprovedOrderSnapshot, matches_intent}
use autonomous_quant_tra.Risk.Review.{verify_signature}
use autonomous_quant_tra.Store.{DurableOrderStore, is_known}
use autonomous_quant_tra.Broker.{BrokerAdapter}
use autonomous_quant_tra.Execution.{
  ExecutionEngine, EngineError, Setup, gate, checked_snapshot, known_to_store,
}
use autonomous_quant_tra.Execution.Calls.{checked, send, submit}

module _ {F B : Type 0} ⦃fl : Float F⦄ (setup : Setup F) (broker : BrokerAdapter F B)
    (order : RiskApprovedOrder F) (snapshot : Option (ApprovedOrderSnapshot F))
    (e : ExecutionEngine F B) where
  -- What holds of an order that goes further.
  pub record IsCleared (s : ApprovedOrderSnapshot F) : Type 0 where
    pub given : snapshot ≡ some s
    pub signed : verify_signature setup.crypto order.approval ≡ true
    pub same_environment : order.intent.environment ≡ setup.environment
    pub not_submitted : lookup order.intent.client_order_id e.submitted_orders ≡ none
    pub not_stored :
        (st : DurableOrderStore F)
        → e.store ≡ some st
        → is_known order.intent.client_order_id st ≡ false
    pub frozen_for : s.risk_approval_id ≡ order.approval.approval_id
    pub untampered : matches_intent setup.crypto s order.intent ≡ true

  checked_snapshot-cases :
      (given : Option (ApprovedOrderSnapshot F)) (s : ApprovedOrderSnapshot F)
      → checked_snapshot setup broker order given ≡ ok s
      → (given ≡ some s)
        × (s.risk_approval_id ≡ order.approval.approval_id)
        × (matches_intent setup.crypto s order.intent ≡ true)
  unfolding checked_snapshot
  checked_snapshot-cases none s h = absurd (cc)
  checked_snapshot-cases (some x) s h =
      elim (Bool-cases (x.risk_approval_id == order.approval.approval_id)) [
        | inr other ↦ absurd (ground arith)
        | inl same ↦ elim (Bool-cases (matches_intent setup.crypto x order.intent)) [
          | inr changed ↦ absurd (ground arith)
          | inl kept ↦ let e : x ≡ s = ground arith in rw (← e) (refl, (eq_iff _ _).0 same, kept)
        ]
      ]

  unknown_to_store :
      (store : Option (DurableOrderStore F)) (st : DurableOrderStore F)
      → known_to_store setup broker order.intent.client_order_id store ≡ false
      → store ≡ some st
      → is_known order.intent.client_order_id st ≡ false
  unknown_to_store none st h stored = absurd (cc)
  unknown_to_store (some s) st h stored = let same : s ≡ st = ground arith in rw (← same) h

  gate-IsCleared :
      (s : ApprovedOrderSnapshot F) → gate setup broker order snapshot e ≡ ok s → IsCleared s
  unfolding gate
  gate-IsCleared s h =
      let (given, frozen_for, untampered) = checked_snapshot-cases snapshot s (ground arith) in
      record {
        given = given;
        signed = ground arith;
        same_environment = ground arith;
        not_submitted = ground arith;
        not_stored = λ st stored. unknown_to_store e.store st (ground arith) stored;
        frozen_for = frozen_for;
        untampered = untampered;
      }

  -- Nothing is sent and nothing at all changes unless the approval's signature verifies, the environment is
  -- the engine's, the id is neither among the engine's submitted orders nor, where there is a durable store,
  -- known to the store, and the snapshot was given, frozen for this very approval, and matches the intent.
  pub submit_gated :
      (now : ℕ)
      → ((x : EngineError) × (submit setup broker order snapshot now e ≡ (err x, e)))
        ⊎ ((s : ApprovedOrderSnapshot F) × IsCleared s)
  unfolding submit
  submit_gated now = elim (Result-cases (gate setup broker order snapshot e)) [
    | inl (s, cleared) ↦ inr (s, gate-IsCleared s cleared)
    | inr (x, stopped) ↦
        inl (
          x,
          bind-err (checked setup broker order snapshot) (send setup broker order now) e stopped,
        )
  ]
