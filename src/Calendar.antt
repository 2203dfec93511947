-- ===== src/Calendar.antt =====
-- The trading calendar (packages/common/calendar.py). A date is its ordinal (`date.toordinal()`, day 1 the first of
-- January of year 1) and a time of day its minute; the change of an instant to New York's date and time is a
-- parameter, as is the provider of the holidays.
pub mod Session
use Prim.Native.Nat.{◌%◌}
use autonomous_quant_tra.Base.{
  ℕ, zero, suc, ◌+◌, ◌-◌, ◌*◌, ◌/◌, Bool, true, false, ◌&&◌, ◌||◌, Option, none, some, List, [],
  ◌∷◌, map, contains, ltb, leb, Eq, eqb, ◌==◌, if◌then◌else◌, nat_eq,
}
use autonomous_quant_tra.Dict.{Dict, lookup, get_or}
use autonomous_quant_tra.Exec.{Result, ok, err}

pub data SessionStatus : Type 0 where
  open_ closed halted : SessionStatus

pub record SessionHours : Type 0 where
  pub open_et : ℕ
  pub close_et : ℕ

abbrev pub regular : SessionHours
regular = record { open_et = 9 * 60 + 30; close_et = 16 * 60 }

abbrev pub early_close : SessionHours
early_close = record { open_et = 9 * 60 + 30; close_et = 13 * 60 }

pub data CalendarError : Type 0 where
  no_calendar_data out_of_fuel : CalendarError

pub record CalendarProvider : Type 0 where
  pub holidays : ℕ → Result CalendarError (List ℕ)
  pub early_closes : ℕ → List ℕ

-- `d.weekday()`, Monday being 0.
abbrev pub weekday : ℕ → ℕ
weekday d = (d + 6) % 7

-- The year of a date: whole cycles of 400, 100, 4 and 1 years.
unfoldable pub year_of : ℕ → ℕ
year_of d =
    let n = d - 1 in
    let n400 = n % 146_097 in
    let n100 = n400 % 36_524 in
    let n4 = n100 % 1_461 in
    let year = n / 146_097 * 400 + n400 / 36_524 * 100 + n100 / 1_461 * 4 + n4 / 365 + 1 in
    if n4 / 365 == 4 || n400 / 36_524 == 4 then year - 1 else year

abbrev pub is_leap : ℕ → Bool
is_leap y = y % 4 == 0 && (ltb 0 (y % 100) || y % 400 == 0)

-- The days of a common year before a month.
abbrev pub days_before : Dict ℕ ℕ
days_before =
    (1, 0)
    ∷ (2, 31)
    ∷ (3, 59)
    ∷ (4, 90)
    ∷ (5, 120)
    ∷ (6, 151)
    ∷ (7, 181)
    ∷ (8, 212)
    ∷ (9, 243)
    ∷ (10, 273)
    ∷ (11, 304)
    ∷ (12, 334)
    ∷ []

-- `date(y, m, d)`
unfoldable pub date : ℕ → ℕ → ℕ → ℕ
date y m d =
    let before = y - 1 in
    before * 365
    + before / 4
    - before / 100
    + before / 400
    + get_or m 0 days_before
    + (if ltb 2 m && is_leap y then 1 else 0)
    + d

-- `_HOLIDAYS` and `_EARLY`
abbrev pub static_holidays : Dict ℕ (List ℕ)
static_holidays =
    (
      2025,
      date 2025 1 1
          ∷ date 2025 1 20
          ∷ date 2025 2 17
          ∷ date 2025 4 18
          ∷ date 2025 5 26
          ∷ date 2025 6 19
          ∷ date 2025 7 4
          ∷ date 2025 9 1
          ∷ date 2025 11 27
          ∷ date 2025 12 25
          ∷ [],
    )
    ∷ (
      2026,
      date 2026 1 1
          ∷ date 2026 1 19
          ∷ date 2026 2 16
          ∷ date 2026 4 3
          ∷ date 2026 5 25
          ∷ date 2026 6 19
          ∷ date 2026 7 3
          ∷ date 2026 9 7
          ∷ date 2026 11 26
          ∷ date 2026 12 25
          ∷ [],
    )
    ∷ []

abbrev pub static_early : Dict ℕ (List ℕ)
static_early =
    (2025, date 2025 7 3 ∷ date 2025 11 28 ∷ date 2025 12 24 ∷ [])
    ∷ (2026, date 2026 11 27 ∷ date 2026 12 24 ∷ [])
    ∷ []

abbrev pub or_refuse : Option (List ℕ) → Result CalendarError (List ℕ)
or_refuse none = err no_calendar_data
or_refuse (some days) = ok days

abbrev pub static_provider : CalendarProvider
static_provider = record {
  holidays = λ year. or_refuse (lookup year static_holidays);
  early_closes = λ year. get_or year [] static_early;
}

pub record TradingCalendar : Type 0 where
  pub provider : CalendarProvider
  pub circuit_breaker_active : Bool

abbrev pub not_holiday : ℕ → Result CalendarError (List ℕ) → Result CalendarError Bool
not_holiday d (err e) = err e
not_holiday d (ok days) = ok (if contains d days then false else true)

unfoldable pub is_trading_day : TradingCalendar → ℕ → Result CalendarError Bool
is_trading_day c d =
    if ltb (weekday d) 5 then not_holiday d (c.provider.holidays (year_of d)) else ok false

abbrev pub hours_of :
    TradingCalendar → ℕ → Result CalendarError Bool → Result CalendarError (Option SessionHours)
hours_of c d (err e) = err e
hours_of c d (ok false) = ok none
hours_of c d (ok true) =
    ok (some (if contains d (c.provider.early_closes (year_of d)) then early_close else regular))

unfoldable pub session_hours : TradingCalendar → ℕ → Result CalendarError (Option SessionHours)
session_hours c d = hours_of c d (is_trading_day c d)

abbrev pub status_in :
    ℕ → Result CalendarError (Option SessionHours) → Result CalendarError SessionStatus
status_in now_t (err e) = err e
status_in now_t (ok none) = ok closed
status_in now_t (ok (some hours)) =
    if leb hours.open_et now_t && ltb now_t hours.close_et then ok open_ else ok closed

abbrev pub open_only : Result CalendarError SessionStatus → Result CalendarError Bool
open_only (err e) = err e
open_only (ok open_) = ok true
open_only (ok closed) = ok false
open_only (ok halted) = ok false

-- `status`, at New York's date and time of day.
unfoldable pub status : TradingCalendar → ℕ × ℕ → Result CalendarError SessionStatus
status c at_et =
    if c.circuit_breaker_active then ok halted else status_in at_et.1 (session_hours c at_et.0)

-- `is_open`
unfoldable pub is_open : TradingCalendar → ℕ × ℕ → Result CalendarError Bool
is_open c at_et = open_only (status c at_et)

-- The loop's test of the day `nxt`, where `rest` is what the loop gives from the day after.
abbrev pub stop_or : ℕ → Result CalendarError ℕ → Result CalendarError Bool → Result CalendarError ℕ
stop_or nxt rest (err e) = err e
stop_or nxt rest (ok true) = ok nxt
stop_or nxt rest (ok false) = rest

-- The loop of `next_trading_day`, on fuel.
abbrev pub skip_on : TradingCalendar → ℕ → ℕ → Result CalendarError ℕ
skip_on c zero nxt = err out_of_fuel
skip_on c (suc fuel) nxt = stop_or nxt (skip_on c fuel (nxt + 1)) (is_trading_day c nxt)

unfoldable pub next_trading_day : TradingCalendar → ℕ → ℕ → Result CalendarError ℕ
next_trading_day c fuel d = skip_on c fuel (d + 1)
