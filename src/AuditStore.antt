-- ===== src/AuditStore.antt =====
-- The durable audit trail (`DurableAuditStore` in packages/common/durable_store.py): one row for each
-- order, rewritten by each `upsert`.
pub mod Laws
use autonomous_quant_tra.Base.{ℕ, String, Option, none, some, List, string_eq}
use autonomous_quant_tra.Dict.{Dict, lookup, insert, values}
use autonomous_quant_tra.Schema.{Environment}

pub record DurableAuditRecord : Type 0 where
  pub client_order_id : String
  pub decision_id : String
  pub record_json : String
  pub environment : Environment
  pub created_at : ℕ
  pub updated_at : ℕ

pub record DurableAuditStore : Type 0 where
  pub environment : Environment
  pub rows : Dict String DurableAuditRecord

-- `ON CONFLICT(client_order_id) DO UPDATE SET record_json, updated_at`
unfoldable pub merged :
    String → String → String → ℕ → Environment → Option DurableAuditRecord → DurableAuditRecord
merged cid decision_id record_json at environment none = record {
  client_order_id = cid;
  decision_id = decision_id;
  record_json = record_json;
  environment = environment;
  created_at = at;
  updated_at = at;
}
merged cid decision_id record_json at environment (some r) = record r {
  record_json = record_json;
  updated_at = at;
}

unfoldable pub upsert : String → String → String → ℕ → DurableAuditStore → DurableAuditStore
upsert cid decision_id record_json at s = record s {
  rows =
      insert cid (merged cid decision_id record_json at s.environment (lookup cid s.rows)) s.rows;
}

unfoldable pub audit_row : String → DurableAuditStore → Option DurableAuditRecord
audit_row cid s = lookup cid s.rows

unfoldable pub audit_rows : DurableAuditStore → List DurableAuditRecord
audit_rows s = values s.rows
