-- ===== src/AuditStore/Laws.antt =====
-- What the audit trail gives back.
use autonomous_quant_tra.Base.{
  ℕ, ◌≡◌, refl, String, none, some, string_eq, ◌==◌, if◌then◌else◌, Bool-cases, inl, inr,
}
use autonomous_quant_tra.Dict.{lookup, insert}
use autonomous_quant_tra.Dict.Laws.{lookup-insert, lookup-insert_self}
use autonomous_quant_tra.AuditStore.{DurableAuditStore, merged, upsert, audit_row}

-- Two upserts of one order leave one row: the last text and instant, the first decision and creation; other
-- orders' rows are as they were.
pub upsert_twice :
    (cid d d' text text' : String) (at at' : ℕ) (s : DurableAuditStore) (j : String)
    → lookup cid s.rows ≡ none
    → audit_row j (upsert cid d' text' at' (upsert cid d text at s)) ≡ (
        if j == cid
        then some (record {
          client_order_id = cid;
          decision_id = d;
          record_json = text';
          environment = s.environment;
          created_at = at;
          updated_at = at';
        })
        else audit_row j s)
unfolding upsert audit_row merged
upsert_twice cid d d' text text' at at' s j free =
    let first = merged cid d text at s.environment none in
    rw
      (
        free,
        lookup-insert_self cid first s.rows,
        lookup-insert j cid (record first { record_json = text'; updated_at = at' })
            (insert cid first s.rows),
        lookup-insert j cid first s.rows,
      )
      (elim (Bool-cases (j == cid)) [ inl same ↦ rw same refl | inr other ↦ rw other refl ])
