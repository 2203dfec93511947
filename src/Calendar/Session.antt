-- ===== src/Calendar/Session.antt =====
-- When the market is open, and the day that it opens next.
use autonomous_quant_tra.Base.{
  ap, sym, ℕ, zero, suc, ◌+◌, ◌≡◌, ◌≢◌, ◌≤◌, ◌<◌, refl, inl, inr, ◌⊎◌, Bool, true, false, Option,
  none, some, List, contains, ltb, if◌then◌else◌, nat_eq, arith, Bool-cases,
}
use autonomous_quant_tra.Exec.{Result, ok, err}
use autonomous_quant_tra.Calendar.{
  SessionStatus, open_, halted, SessionHours, regular, early_close, CalendarError, weekday, year_of,
  TradingCalendar, not_holiday, is_trading_day, hours_of, session_hours, status_in, status, skip_on,
  stop_or, next_trading_day,
}

module _ (c : TradingCalendar) where
  -- The market is closed on none of the days from `first` on, up to but without `last`.
  abbrev pub ClosedUntil : ℕ → ℕ → Type 0
  ClosedUntil first last = (d : ℕ) → first ≤ d → d < last → is_trading_day c d ≡ ok false

  -- What the search finds, when it stops: a trading day, or a year without data.
  abbrev pub IsFirst : ℕ → ℕ → Result CalendarError ℕ → Type 0
  IsFirst first last (ok found) =
      (found ≤ last)
      × (is_trading_day c found ≡ ok true)
      × ((d : ℕ) → first ≤ d → d < found → is_trading_day c d ≡ ok false)
  IsFirst first last (err e) =
      (d : ℕ) × (d ≤ last)
      × (is_trading_day c d ≡ err e)
      × ((k : ℕ) → first ≤ k → k < d → is_trading_day c k ≡ ok false)

  before_or_at : (a b : ℕ) → a ≤ b → (a ≡ b) ⊎ (a + 1 ≤ b)
  before_or_at a b h = ground arith

  from_next :
      (first last : ℕ)
      → is_trading_day c first ≡ ok false
      → ClosedUntil (first + 1) last
      → ClosedUntil first last
  from_next first last now later d h below = elim (before_or_at first d h) [
    | inl same ↦ rw (sym same) now
    | inr after ↦ later d after below
  ]

  IsFirst-earlier :
      (first last : ℕ) (r : Result CalendarError ℕ)
      → is_trading_day c first ≡ ok false
      → IsFirst (first + 1) last r
      → IsFirst first last r
  IsFirst-earlier first last (ok found) now h = (h.0, h.1, from_next first found now h.2)
  IsFirst-earlier first last (err e) now (d, le, fails, later) =
      (d, le, fails, from_next first d now later)

  IsFirst-now :
      (first last : ℕ)
      → first ≤ last
      → is_trading_day c first ≡ ok true
      → IsFirst first last (ok first)
  IsFirst-now first last h now = (h, now, λ d up down. absurd (omega arith))

  IsFirst-fails :
      (first last : ℕ) (e : CalendarError)
      → first ≤ last
      → is_trading_day c first ≡ err e
      → IsFirst first last (err e)
  IsFirst-fails first last e h now = (first, h, now, λ d up down. absurd (omega arith))

  stop_or-IsFirst :
      (first last : ℕ) (rest : Result CalendarError ℕ) (today : Result CalendarError Bool)
      → is_trading_day c first ≡ today
      → first ≤ last
      → (today ≡ ok false → IsFirst (first + 1) last rest)
      → IsFirst first last (stop_or first rest today)
  stop_or-IsFirst first last rest (err e) now h later = IsFirst-fails first last e h now
  stop_or-IsFirst first last rest (ok true) now h later = IsFirst-now first last h now
  stop_or-IsFirst first last rest (ok false) now h later =
      IsFirst-earlier first last rest now (later refl)

  skip_on-IsFirst :
      (fuel first last : ℕ)
      → first ≤ last
      → last < first + fuel
      → is_trading_day c last ≢ ok false
      → IsFirst first last (skip_on c fuel first)
  skip_on-IsFirst zero first last h below stops = absurd (omega arith)
  skip_on-IsFirst (suc fuel) first last h below stops =
      stop_or-IsFirst first last (skip_on c fuel (first + 1)) (is_trading_day c first) refl h
        (λ now. elim (before_or_at first last h) [
          | inl same ↦ absurd (stops (rw (sym same) now))
          | inr after ↦ skip_on-IsFirst fuel (first + 1) last after (omega arith) stops
        ])

  -- The search for the next trading day ends: with as much fuel as there are days up to one that is not closed,
  -- it gives the first trading day after `d`, or fails at the first day that cannot be judged, if none is before.
  pub next_trading_day-IsFirst :
      (fuel d last : ℕ)
      → d < last
      → last ≤ d + fuel
      → is_trading_day c last ≢ ok false
      → IsFirst (d + 1) last (next_trading_day c fuel d)
  unfolding next_trading_day
  next_trading_day-IsFirst fuel d last later near stops =
      skip_on-IsFirst fuel (d + 1) last (omega arith) (omega arith) stops

  in_hours :
      (now_t : ℕ) (found : Result CalendarError (Option SessionHours))
      → status_in now_t found ≡ ok open_
      → (hours : SessionHours) × (found ≡ ok (some hours))
        × (hours.open_et ≤ now_t)
        × (now_t < hours.close_et)
  in_hours now_t (err e) h = absurd (cc)
  in_hours now_t (ok none) h = absurd (cc)
  in_hours now_t (ok (some hours)) h = (hours, refl, ground arith, ground arith)

  hours_of-open :
      (d : ℕ) (today : Result CalendarError Bool) (hours : SessionHours)
      → hours_of c d today ≡ ok (some hours)
      → (today ≡ ok true)
        × (hours
            ≡ (if contains d (c.provider.early_closes (year_of d)) then early_close else regular))
  hours_of-open d (err e) hours h = absurd (cc)
  hours_of-open d (ok false) hours h = absurd (cc)
  hours_of-open d (ok true) hours h = (refl, cc)

  hours_within :
      (now_t : ℕ) (early : Bool) (hours : SessionHours)
      → hours ≡ (if early then early_close else regular)
      → hours.open_et ≤ now_t
      → now_t < hours.close_et
      → (570 ≤ now_t) × (now_t < 960) × (early ≡ true → now_t < 780)
  hours_within now_t true hours h from to =
      let opens = ap (λ x. x.open_et) h in
      let closes = ap (λ x. x.close_et) h in (omega arith, omega arith, λ early. omega arith)
  hours_within now_t false hours h from to =
      let opens = ap (λ x. x.open_et) h in
      let closes = ap (λ x. x.close_et) h in (omega arith, omega arith, λ early. absurd (cc))

  not_halted :
      (broken : Bool) (found : Result CalendarError SessionStatus)
      → (if broken then ok halted else found) ≡ ok open_
      → (broken ≡ false) × (found ≡ ok open_)
  not_halted true found h = absurd (cc)
  not_halted false found h = (refl, h)

  -- The year of the date has data, and the date is none of its holidays.
  abbrev pub NoHoliday : ℕ → Type 0
  NoHoliday d =
      (days : List ℕ) × (c.provider.holidays (year_of d) ≡ ok days) × (contains d days ≡ false)

  not_holiday-ok :
      (d : ℕ) (found : Result CalendarError (List ℕ))
      → not_holiday d found ≡ ok true
      → (days : List ℕ) × (found ≡ ok days) × (contains d days ≡ false)
  not_holiday-ok d (err e) h = absurd (cc)
  not_holiday-ok d (ok days) h = (days, refl, ground arith)

  is_trading_day-ok : (d : ℕ) → is_trading_day c d ≡ ok true → (weekday d < 5) × NoHoliday d
  unfolding is_trading_day
  is_trading_day-ok d h = elim (Bool-cases (ltb (weekday d) 5)) [
    | inl working ↦
        (ground arith, not_holiday-ok d (c.provider.holidays (year_of d)) (rw working at h))
    | inr weekend ↦
        let shut : Path (Result CalendarError Bool) (ok false) (ok true) = rw weekend at h in
        absurd (cc)
  ]

  -- The market is open only if no circuit breaker is, on a day from Monday to Friday that is no holiday of its year,
  -- from half past nine to four, and to one if the day closes early.
  pub status_open :
      (d now_t : ℕ)
      → status c (d, now_t) ≡ ok open_
      → (c.circuit_breaker_active ≡ false)
        × (weekday d < 5)
        × NoHoliday d
        × (570 ≤ now_t)
        × (now_t < 960)
        × (contains d (c.provider.early_closes (year_of d)) ≡ true → now_t < 780)
  unfolding status session_hours
  status_open d now_t h =
      let (quiet, on_day) =
        not_halted c.circuit_breaker_active (status_in now_t (session_hours c d)) h in
      let (hours, found, from, to) = in_hours now_t (session_hours c d) on_day in
      let (trading, which) = hours_of-open d (is_trading_day c d) hours found in
      let (working, free) = is_trading_day-ok d trading in
      let early = contains d (c.provider.early_closes (year_of d)) in
      let (opens, closes, soon) = hours_within now_t early hours which from to in
      (quiet, working, free, opens, closes, soon)
