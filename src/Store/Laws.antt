-- ===== src/Store/Laws.antt =====
-- What the store gives back.
use autonomous_quant_tra.Base.{
  ℕ, ◌≡◌, inl, inr, String, none, some, string_eq, ◌==◌, arith, if◌then◌else◌, Option-cases,
}
use autonomous_quant_tra.Dict.{lookup}
use autonomous_quant_tra.Dict.Laws.{lookup-insert}
use autonomous_quant_tra.Exec.{ok, err}
use autonomous_quant_tra.Schema.{OrderState}
use autonomous_quant_tra.Approval.{ApprovedOrderSnapshot}
use autonomous_quant_tra.Store.{
  DurableOrderRecord, DurableOrderStore, duplicate_row, no_row, get, is_known, record_submission,
  update_state,
}

module _ {F : Type 0} (cid decision_id approval_id : String) (snapshot : ApprovedOrderSnapshot F)
    (state : OrderState) (at : ℕ) (s : DurableOrderStore F) where
  abbrev pub written : DurableOrderRecord F
  written = record {
    client_order_id = cid;
    decision_id = decision_id;
    risk_approval_id = approval_id;
    snapshot = snapshot;
    state = state;
    environment = s.environment;
    created_at = at;
    updated_at = at;
  }

  -- Only a new id is recorded, and then every id but this one reads as before; an id that is known raises,
  -- and its row stays.
  pub record_submission_lem :
      (j : String)
      → let (r, s') = record_submission cid decision_id approval_id snapshot state at s in
        (r ≡ (if is_known cid s then err duplicate_row else ok tt))
        × (get j s' ≡ (
            if j == cid
            then elim (get cid s) [ none ↦ some written | some row ↦ some row ]
            else get j s))
  unfolding record_submission get is_known
  record_submission_lem j =
      ground (arith, lookup-insert j cid written s.rows, string_eq.beq_iff j cid)

  -- The state of an order that is stored is overwritten, and the instant of its creation stays.
  pub update_state_lem :
      (j : String)
      → let (r, s') = update_state cid state at s in
        (r ≡ (if is_known cid s then ok tt else err no_row))
        × (get j s' ≡ (
            if j == cid
            then elim (get cid s) [
              | none ↦ none
              | some row ↦ some (record row { state = state; updated_at = at })
            ]
            else get j s))
  unfolding update_state get is_known
  update_state_lem j = elim (Option-cases (lookup cid s.rows)) [
    | inl missing ↦ ground (arith, string_eq.beq_iff j cid)
    | inr (row, found) ↦ ground (
      arith,
      lookup-insert j cid (record row { state = state; updated_at = at }) s.rows,
      string_eq.beq_iff j cid,
    )
  ]
