-- ===== src/Store.antt =====
-- The durable order store (packages/common/durable_store.py): a table with one row for each client
-- order id. SQLite keeps the rows; a table with a primary key is a dictionary here, and a row holds the
-- snapshot itself where the table has its JSON text.
pub mod Laws
use autonomous_quant_tra.Base.{ℕ, String, Bool, Option, List, string_eq}
use autonomous_quant_tra.Dict.{Dict, lookup, insert, has_key, values}
use autonomous_quant_tra.Exec.{Exec, gets, or_raise, raise_if, modify, ◌>>=◌, ◌>>◌}
use autonomous_quant_tra.Schema.{OrderState, Environment}
use autonomous_quant_tra.Approval.{ApprovedOrderSnapshot}

pub record DurableOrderRecord (F : Type 0) : Type 0 where
  pub client_order_id : String
  pub decision_id : String
  pub risk_approval_id : String
  pub snapshot : ApprovedOrderSnapshot F
  pub state : OrderState
  pub environment : Environment
  pub created_at : ℕ
  pub updated_at : ℕ

pub record DurableOrderStore (F : Type 0) : Type 0 where
  pub environment : Environment
  pub rows : Dict String (DurableOrderRecord F)

pub data StoreError : Type 0 where
  duplicate_row no_row : StoreError

module _ {F : Type 0} where
  unfoldable pub is_known : String → DurableOrderStore F → Bool
  is_known cid s = has_key cid s.rows

  unfoldable pub get : String → DurableOrderStore F → Option (DurableOrderRecord F)
  get cid s = lookup cid s.rows

  unfoldable pub all : DurableOrderStore F → List (DurableOrderRecord F)
  all s = values s.rows

  unfoldable pub record_submission :
      String
      → String
      → String
      → ApprovedOrderSnapshot F
      → OrderState
      → ℕ
      → Exec StoreError (DurableOrderStore F) Unit
  record_submission cid decision_id risk_approval_id snapshot state at = do
    raise_if (← gets (λ s. has_key cid s.rows)) duplicate_row
    modify (λ s. record s {
      rows =
          insert cid
            (record {
              client_order_id = cid;
              decision_id = decision_id;
              risk_approval_id = risk_approval_id;
              snapshot = snapshot;
              state = state;
              environment = s.environment;
              created_at = at;
              updated_at = at;
            })
            s.rows;
    })

  unfoldable pub update_state : String → OrderState → ℕ → Exec StoreError (DurableOrderStore F) Unit
  update_state cid state at = do
    r ← or_raise (← gets (λ s. lookup cid s.rows)) no_row
    modify
        (λ s. record s { rows = insert cid (record r { state = state; updated_at = at }) s.rows })
