-- ===== src/Approval.antt =====
-- Order intents, risk approvals and the approved-order snapshot (packages/schemas/core.py and
-- packages/schemas/audit.py). Hashing is a parameter: `sha256` of the UTF-8 text in hexadecimal, and
-- `hmac` under the controller's key. Texts for people (the details of a check, a rejection's reasons
-- beyond the checks' names) are left out.
use autonomous_quant_tra.Base.{
  ℕ, String, Bool, ◌&&◌, Option, none, some, List, [], ◌∷◌, ◌==◌, string_eq, if◌then◌else◌,
}
use autonomous_quant_tra.Text.{concat}
use autonomous_quant_tra.Float.{Float, ◌==?◌}
use autonomous_quant_tra.Schema.{
  Action, buy, sell, OrderType, market, limit, stop, Environment, action_eq, type_eq,
}

pub record Crypto : Type 0 where
  pub sha256 : String → String
  pub hmac : String → String

pub record OrderIntent (F : Type 0) : Type 0 where
  pub client_order_id : String
  pub proposal_id : String
  pub symbol : String
  pub side : Action
  pub qty : F
  pub order_type : OrderType
  pub limit_price : Option F
  pub stop_price : Option F
  pub environment : Environment
  pub is_protective_exit : Bool
  pub created_at : ℕ

pub record RiskCheck : Type 0 where
  pub name : String
  pub passed : Bool

pub data RiskState : Type 0 where
  normal halt_new_entries safe_exit full_broker_disconnect : RiskState

pub record RiskApproval (F : Type 0) : Type 0 where
  pub approval_id : String
  pub client_order_id : String
  pub symbol : String
  pub side : Action
  pub qty : F
  pub intent_hash : String
  pub checks : List RiskCheck
  pub risk_state : RiskState
  pub approved_at : ℕ
  pub signature : String

pub record RiskRejection : Type 0 where
  pub client_order_id : String
  pub checks : List RiskCheck
  pub reasons : List String
  pub rejected_at : ℕ

pub record RiskApprovedOrder (F : Type 0) : Type 0 where
  pub intent : OrderIntent F
  pub approval : RiskApproval F

pub record ApprovedOrderSnapshot (F : Type 0) : Type 0 where
  pub snapshot_id : String
  pub client_order_id : String
  pub order_intent_id : String
  pub symbol : String
  pub side : Action
  pub qty : F
  pub order_type : OrderType
  pub limit_price : Option F
  pub stop_price : Option F
  pub take_profit : Option F
  pub time_in_force : String
  pub strategy_id : String
  pub decision_id : String
  pub skeptic_id : String
  pub risk_approval_id : String
  pub audit_id : String
  pub created_at : ℕ
  pub hash : String

-- `side.value` and `order_type.value`
abbrev pub side_text : Action → String
side_text buy = "BUY"
side_text sell = "SELL"

abbrev pub type_text : OrderType → String
type_text market = "MARKET"
type_text limit = "LIMIT"
type_text stop = "STOP"

-- `"|".join(parts)`
unfoldable pub join_bars : List String → String
join_bars [] = ""
join_bars (s ∷ []) = s
join_bars (s ∷ t ∷ rest) = concat (s ∷ "|" ∷ join_bars (t ∷ rest) ∷ [])

module _ {F : Type 0} ⦃fl : Float F⦄ where
  abbrev pub price_text : Option F → String
  price_text none = ""
  price_text (some p) = fl.general p 10

  unfoldable pub canonical_order_payload :
      String → Action → F → OrderType → Option F → Option F → Option F → String → String → String
  canonical_order_payload symbol side qty order_type limit_price stop_price take_profit
        time_in_force client_order_id =
      join_bars (
        symbol
        ∷ side_text side
        ∷ fl.general qty 10
        ∷ type_text order_type
        ∷ price_text limit_price
        ∷ price_text stop_price
        ∷ price_text take_profit
        ∷ time_in_force
        ∷ client_order_id
        ∷ [])

  module _ (crypto : Crypto) where
    unfoldable pub order_intent_hash : OrderIntent F → Option F → String → String
    order_intent_hash i take_profit time_in_force = crypto.sha256 (
        canonical_order_payload i.symbol i.side i.qty i.order_type i.limit_price i.stop_price
          take_profit time_in_force i.client_order_id)

    -- The validator of `RiskApprovedOrder`: `none` is a `ValueError`.
    unfoldable pub approved_order : OrderIntent F → RiskApproval F → Option (RiskApprovedOrder F)
    approved_order i a =
        if (a.client_order_id == i.client_order_id)
          && (a.symbol == i.symbol)
          && (a.side == i.side)
          && (a.qty ==? i.qty)
          && (a.intent_hash == order_intent_hash i none "DAY")
        then some (record { intent = i; approval = a })
        else none

    -- `ApprovedOrderSnapshot.from_approved`, with the ids that it is given and the instant `at`, or the
    -- intent's own.
    unfoldable pub from_approved :
        RiskApprovedOrder F
        → String
        → String
        → String
        → Option F
        → String
        → String
        → Option ℕ
        → ApprovedOrderSnapshot F
    from_approved order snapshot_id decision_id audit_id take_profit strategy_id skeptic_id at =
        let i = order.intent in
        record {
          snapshot_id = snapshot_id;
          client_order_id = i.client_order_id;
          order_intent_id = i.proposal_id;
          symbol = i.symbol;
          side = i.side;
          qty = i.qty;
          order_type = i.order_type;
          limit_price = i.limit_price;
          stop_price = i.stop_price;
          take_profit = take_profit;
          time_in_force = "DAY";
          strategy_id = strategy_id;
          decision_id = decision_id;
          skeptic_id = skeptic_id;
          risk_approval_id = order.approval.approval_id;
          audit_id = audit_id;
          created_at = elim at [ none ↦ i.created_at | some t ↦ t ];
          hash = crypto.sha256 (
              canonical_order_payload i.symbol i.side i.qty i.order_type i.limit_price i.stop_price
                take_profit "DAY" i.client_order_id);
        }

    unfoldable pub matches_intent : ApprovedOrderSnapshot F → OrderIntent F → Bool
    matches_intent s i =
        crypto.sha256 (
          canonical_order_payload i.symbol i.side i.qty i.order_type i.limit_price i.stop_price
            s.take_profit s.time_in_force i.client_order_id)
        == s.hash
