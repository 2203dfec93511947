-- ===== src/Tests/Days.antt =====
-- The log of the orders, and the trading calendar.
use autonomous_quant_tra.Base.{
  keep, length, ◌&&◌, ◌==◌, Bool, ℕ, ◌+◌, ◌/◌, ◌≡◌, ◌≢◌, ◌≤◌, ◌<◌, refl, true, false, some, [], ◌∷◌,
  contains, string_eq, arith, nat_eq,
}
use autonomous_quant_tra.Int.{ℤ}
use autonomous_quant_tra.Exec.{Result, ok}
use autonomous_quant_tra.Dict.{lookup, get_or}
use autonomous_quant_tra.Audit.{pass}
use autonomous_quant_tra.PreTrade.{
  kind_eq, PreTradeRecord, HumanReviewItem, PreTradeAuditLog, resolve_human_review,
  pending_human_reviews, other, stale_order, NearMiss, at_audit, monthly_safety_summary,
  NearMissKind,
}
use autonomous_quant_tra.PreTrade.Laws.{pending_after, resolve_human_review-pending}
use autonomous_quant_tra.PreTrade.Summary.{of_kind, summary_counts, total}
use autonomous_quant_tra.Calendar.{
  TradingCalendar, static_provider, date, next_trading_day, status, weekday, is_trading_day,
  year_of, session_hours, CalendarError,
}
use autonomous_quant_tra.Calendar.Session.{
  IsFirst, NoHoliday, next_trading_day-IsFirst, status_open,
}
use autonomous_quant_tra.Tests.{micro}

abbrev parked : HumanReviewItem ℤ
parked = record {
  at = 5;
  client_order_id = "c1";
  decision_id = "d1";
  severity = micro 600_000;
  resolved_by = "";
  resolution = "";
}

abbrev miss : NearMissKind → NearMiss
miss kind = record {
  at = 33;
  kind = kind;
  stage = at_audit;
  decision_id = "d1";
  client_order_id = "c1";
}

abbrev recorded : PreTradeRecord ℤ
recorded = record {
  client_order_id = "c1";
  decision_id = "d1";
  created_at = 40;
  audit_result = some (record {
    decision_id = "d1";
    client_order_id = "c1";
    verdict = pass;
    detected_conflicts = [];
    severity = micro 0;
    model = "mock-audit";
    model_family = "mock-audit-family";
    forced = true;
    audited_at = 40;
  });
  has_risk_result = true;
  approved_snapshot_hash = "h";
  broker_submitted = true;
  has_broker_ack = false;
  fills = [];
  final_state = "UNKNOWN";
  protective_exit = false;
}

abbrev month_of : ℕ → ℕ × ℕ
month_of at = (2026, at / 31 + 1)

abbrev log : PreTradeAuditLog ℤ
log = record {
  records = ("c1", recorded) ∷ [];
  near_misses = miss other ∷ miss stale_order ∷ miss other ∷ [];
  human_review_queue = parked ∷ parked ∷ [];
}

resolve_human_review-pending_example :
    pending_after (resolve_human_review "c1" "ann" "declined" log) ≡ some (parked ∷ [])
unfolding pending_human_reviews
resolve_human_review-pending_example =
    resolve_human_review-pending "c1" "ann" "declined" refl log refl

summary_counts_example :
    let s = monthly_safety_summary month_of 2026 2 log in
    let within = λ (at : ℕ). ((month_of at).0 == 2026) && ((month_of at).1 == 2) in
    let misses = keep (λ (n : NearMiss). within n.at) log.near_misses in
    (s.pre_trade_audits ≡ 1)
    × (s.critical_execution_errors ≡ 1)
    × (s.audit_pass ≡ 1)
    × (s.audit_reject ≡ 0)
    × (s.prevented_potential_errors ≡ length misses)
    × (get_or other 0 s.prevented_by_kind ≡ length (of_kind other misses))
    × (total s.prevented_by_kind ≡ length misses)
summary_counts_example = summary_counts month_of 2026 2 other log

abbrev calendar : TradingCalendar
calendar = record { provider = static_provider; circuit_breaker_active = false }

abbrev day_before : ℕ
day_before = date 2025 12 24

after_holiday-IsStop : is_trading_day calendar (day_before + 2) ≢ ok false
unfolding is_trading_day date year_of lookup
after_holiday-IsStop shut =
    let found : Path (Result CalendarError Bool) (ok true) (ok false) = shut in absurd (cc)

next_trading_day-IsFirst_example :
    IsFirst calendar (day_before + 1) (day_before + 2) (next_trading_day calendar 2 day_before)
unfolding is_trading_day date year_of lookup
next_trading_day-IsFirst_example =
    next_trading_day-IsFirst calendar 2 day_before (day_before + 2) (omega arith) (omega arith)
      after_holiday-IsStop

status_open_example :
    (false ≡ false)
    × (weekday day_before < 5)
    × NoHoliday calendar day_before
    × (570 ≤ 600)
    × (600 < 960)
    × (contains day_before (static_provider.early_closes (year_of day_before)) ≡ true → 600 < 780)
unfolding status session_hours is_trading_day date year_of lookup
status_open_example = status_open calendar day_before 600 refl
