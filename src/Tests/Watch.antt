-- ===== src/Tests/Watch.antt =====
-- Reconciliation, heartbeats, sizing, stop plans and the audit trail.
use autonomous_quant_tra.Base.{◌≡◌, ◌⊎◌, All, refl, false, none, some, [], ◌∷◌, string_eq}
use autonomous_quant_tra.Int.{ℤ, neg_ℤ}
use autonomous_quant_tra.Exec.{OnOk}
use autonomous_quant_tra.Dict.{lookup, insert, get_or}
use autonomous_quant_tra.Float.{◌⊕◌, ◌⊖◌, ◌≼◌, ◌⊗◌, ◌⊘◌, abs, max, nought}
use autonomous_quant_tra.Float.Fixed.{fixed_float, computing}
use autonomous_quant_tra.Approval.{halt_new_entries, full_broker_disconnect}
use autonomous_quant_tra.Settlement.{BrokerCashBalance}
use autonomous_quant_tra.Reconciliation.{
  BrokerPosition, by_symbol, reconcile, compare_books, cash_mismatch, lot_mismatch, lot_mismatches,
  missing_symbols,
}
use autonomous_quant_tra.Reconciliation.Laws.{Agrees, reconcile-Agrees, mismatch_halts}
use autonomous_quant_tra.Heartbeat.{Heartbeat, HeartbeatRegistry, service_ok, status_eq}
use autonomous_quant_tra.Sizing.{
  PositionSizingEngine, PortfolioContext, record_trade_result, size, Quote, notional_cap,
}
use autonomous_quant_tra.Sizing.Caps.{RisksAtMost, no_martingale, notional_cap-le}
use autonomous_quant_tra.Schema.{paper}
use autonomous_quant_tra.AuditStore.{DurableAuditStore}
use autonomous_quant_tra.Sizing.{StopPlan, checked_plan}
use autonomous_quant_tra.LossControl.{Bar, LossControlEngine, plan, atr, true_ranges, stop_at}
use autonomous_quant_tra.LossControl.Plan.{IsPlan, plan-IsPlan}
use autonomous_quant_tra.Tests.{whole, micro}
use autonomous_quant_tra.Tests.Accounts.{account}
use autonomous_quant_tra.Tests.Control.{controller, limits}

abbrev reported : BrokerCashBalance ℤ
reported = record { settled_cash = whole 700; unsettled_cash = whole 300 }

abbrev shares : BrokerPosition ℤ
shares = record { symbol = "AAPL"; qty = whole 10; avg_cost = whole 50 }

reconcile-Agrees_example :
    (abs (whole 700 ⊕ whole 300 ⊖ whole 1000) ≼ micro 50_000)
    × Agrees
        (micro 50_000)
        (micro 100)
        (lookup "AAPL" account.positions)
        (lookup "AAPL" (by_symbol (shares ∷ []) []))
    × (controller ≡ controller)
unfolding computing reconcile compare_books cash_mismatch lot_mismatch lot_mismatches
    missing_symbols by_symbol lookup insert
reconcile-Agrees_example =
    reconcile-Agrees (micro 50_000) (micro 100) reported (shares ∷ []) account controller "AAPL"
      refl

mismatch_halts_example :
    let (found, c') =
      reconcile (micro 50_000) (micro 100) (some (reported, [])) account controller in
    (found ≡ []) ⊎ (c'.state ≡ halt_new_entries) ⊎ (c'.state ≡ full_broker_disconnect)
mismatch_halts_example =
    mismatch_halts (micro 50_000) (micro 100) reported [] account controller (some (reported, []))

abbrev beat : Heartbeat
beat = record { service = "risk"; at = 40; status = service_ok }

abbrev registry : HeartbeatRegistry
registry = record { stale_after = 30; latest = ("risk", beat) ∷ [] }

abbrev loser : PositionSizingEngine ℤ
loser = record { last_risk_amount = none; last_trade_was_loss = false; history = [] }

abbrev context : PortfolioContext ℤ
context = record {
  equity = whole 10_000;
  settled_cash = whole 3_000;
  existing_exposure = [];
  theme_exposure = ("ai", whole 2_000) ∷ [];
  symbol_themes = ("NVDA", "ai" ∷ []) ∷ [];
  correlation_to_book = whole 0;
  adv_shares = whole 1_000_000;
  throttle_factor = whole 1;
}

notional_cap-le_example :
    let ceiling = notional_cap limits context "NVDA" (whole 100) in
    (ceiling ≼ whole 3_000)
    × (ceiling
        ≼ max nought (
            whole 10_000 ⊗ limits.max_position_pct
            ⊖ get_or "NVDA" nought context.existing_exposure))
    × (ceiling ≼ whole 1_000_000 ⊗ limits.max_adv_participation ⊗ whole 100)
    × All
        (λ theme.
          ceiling
          ≼ max nought (
              whole 10_000 ⊗ limits.max_theme_exposure_pct
              ⊖ get_or theme nought context.theme_exposure))
        ("ai" ∷ [])
unfolding lookup
notional_cap-le_example = notional_cap-le limits context "NVDA" (whole 100)

abbrev empty_trail : DurableAuditStore
empty_trail = record { environment = paper; rows = [] }

abbrev bar : Bar ℤ
bar = record {
  symbol = "AAPL";
  ts = 0;
  volume = 1;
  open_price = whole 100;
  high = whole 101;
  low = whole 99;
  close = whole 100;
}

abbrev stops : LossControlEngine ℤ
stops = record {
  atr_multiple = whole 2;
  max_stop_distance_pct = micro 150_000;
  profit_target_rr = whole 2;
}

abbrev pub planned : StopPlan ℤ
planned = record {
  entry_price = whole 100;
  stop_price = whole 96;
  profit_target = whole 108;
  gap_risk_score = whole 0;
}

abbrev two_sided : Quote ℤ
two_sided = record { symbol = "NVDA"; ts = 0; bid = whole 100; ask = whole 100 }

no_martingale_example :
    OnOk
      (RisksAtMost limits planned two_sided context "NVDA" (whole 1) (whole 20))
      (size limits "NVDA" planned two_sided context
        (whole 1)
        (record_trade_result (neg_ℤ (whole 5)) (whole 20) loser)).0
unfolding computing
no_martingale_example =
    no_martingale limits "NVDA" planned two_sided context (whole 1) (neg_ℤ (whole 5)) (whole 20)
      loser refl

plan-IsPlan_example :
    IsPlan planned
    × ((a : ℤ) × (atr (bar ∷ bar ∷ []) ≡ some a)
        × ((whole 100 ⊖ (whole 100 ⊖ whole 2 ⊗ a)) ⊘ whole 100 ≼ micro 150_000))
unfolding computing plan atr true_ranges stop_at checked_plan
plan-IsPlan_example = plan-IsPlan stops (whole 100) (whole 0) (bar ∷ bar ∷ []) planned refl
