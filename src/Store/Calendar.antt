-- ===== src/Store/Calendar.antt =====
-- `periodStart` of src/core/store.ts: the start of a day, week or month of the UTC calendar.
use agentworth.Prelude.{
  ℕ, ◌+◌, ◌-◌, ◌*◌, ◌/◌, ◌%◌, ◌≤◌, ◌<◌, ◌≡◌, refl, sym, ap, ◌∙◌, ◌⊎◌, inl, inr, zero, suc, arith,
}
use agentworth.Prelude.Calendar.{ms_per_day, day_of, weekday, day_of_month}
use agentworth.Types.{Period, day, week, month}
use agentworth.Store.{period_start}

-- The longest that a period lasts, in days.
pub period_length : Period → ℕ
period_length day = 1
period_length week = 7
period_length month = 31

day_of_month-lt : (ms : ℕ) → day_of_month ms < 31
unfolding day_of_month
day_of_month-lt ms = omega arith

-- The day of the start of a month is its first.
month_start-first : (ms : ℕ) → day_of_month ((day_of ms - day_of_month ms) * ms_per_day) ≡ 0
unfolding day_of_month
month_start-first ms = omega arith

-- The instants at which a period starts: midnight, of a Monday, or of the first of a month.
abbrev pub Starts : Period → ℕ → Type 0
Starts day t = t % ms_per_day ≡ 0
Starts week t = (t % ms_per_day ≡ 0) × (weekday t ≡ 1)
Starts month t = (t % ms_per_day ≡ 0) × (day_of_month t ≡ 0)

-- The year's day of a day of the calendar, which is counted as in `day_of_month`.
year_day : ℕ → ℕ
year_day z =
    let of_era = z % 146_097 in
    let year = (of_era - of_era / 1460 + of_era / 36_524 - of_era / 146_096) / 365 in
    of_era - (365 * year + year / 4 - year / 100)

month_day : ℕ → ℕ
month_day y = y - (153 * ((5 * y + 2) / 153) + 2) / 5

month_day-next : (y : ℕ) → month_day (y + 1) ≤ month_day y + 1
unfolding month_day
month_day-next y = omega arith

month_day-zero : month_day 0 ≡ 0
unfolding month_day
month_day-zero = refl

year_day-before : (z : ℕ) → 0 < year_day (z + 1) → year_day (z + 1) ≡ year_day z + 1
unfolding year_day
year_day-before z h = omega arith

day_of-start : (d : ℕ) → day_of (d * ms_per_day) ≡ d
day_of-start d = omega arith

midnight : (d : ℕ) → (d * ms_per_day) % ms_per_day ≡ 0
midnight d = omega arith

day_of_mono : (t now : ℕ) → t ≤ now → day_of t ≤ day_of now
day_of_mono t now h = omega arith

since_start : (now k : ℕ) → (day_of now - k) * ms_per_day ≤ now
since_start now k = omega arith

from_days : (t start : ℕ) → t % ms_per_day ≡ 0 → day_of t ≤ start → t ≤ start * ms_per_day
from_days t start h b = omega arith

days_since_monday : ℕ → ℕ
days_since_monday d = ((d + 4) % 7 + 6) % 7

since_monday-lt : (d : ℕ) → days_since_monday d < 7
unfolding days_since_monday
since_monday-lt d = omega arith

monday : (d : ℕ) → 4 ≤ d → (d - days_since_monday d + 4) % 7 ≡ 1
unfolding days_since_monday
monday d h = omega arith

monday-latest : (d e : ℕ) → (e + 4) % 7 ≡ 1 → e ≤ d → e ≤ d - days_since_monday d
unfolding days_since_monday
monday-latest d e h b = omega arith

-- The day of the month, from 0, of a day.
date_of : ℕ → ℕ
date_of d = month_day (year_day (d + 719_468))

date_of-day : (ms : ℕ) → day_of_month ms ≡ date_of (day_of ms)
unfolding day_of_month date_of month_day year_day
date_of-day ms = refl

zero_or : (n : ℕ) → (n ≡ 0) ⊎ (0 < n)
zero_or zero = inl refl
zero_or (suc n) = inr (omega arith)

date_of-next : (d : ℕ) → date_of (d + 1) ≤ date_of d + 1
unfolding date_of
date_of-next d =
    let z = d + 719_468 in
    let moved : year_day (d + 1 + 719_468) ≡ year_day (z + 1) = ap year_day (omega arith) in
    elim (zero_or (year_day (z + 1))) [
      | inl e ↦ rw (moved ∙ e, month_day-zero) (omega arith)
      | inr e ↦ rw (moved ∙ year_day-before z e) (month_day-next (year_day z))
    ]

plus_zero : (n : ℕ) → n + 0 ≡ n
plus_zero n = omega arith

plus_suc : (n k : ℕ) → n + suc k ≡ n + k + 1
plus_suc n k = omega arith

-- As many days after a first of a month, the date is at most that.
date_of-after : (first k : ℕ) → date_of first ≡ 0 → date_of (first + k) ≤ k
date_of-after first zero h = rw (plus_zero first) (omega (arith, h))
date_of-after first (suc k) h =
    rw (plus_suc first k) (omega (arith, date_of-after first k h, date_of-next (first + k)))

month-latest : (d e : ℕ) → date_of e ≡ 0 → e ≤ d → e ≤ d - date_of d
month-latest d e h b =
    let n = date_of-after e (d - e) h in
    let same : date_of (e + (d - e)) ≡ date_of d = ap date_of (omega arith) in omega arith

-- The period of an instant, from Monday 5 January 1970 on, is a calendar's: it starts at midnight, a
-- week on a Monday and a month on its first, by UTC; it started at the latest such moment that is not
-- after the instant; and that was less than a day, a week or 31 days ago.
pub period_start-latest :
    (now : ℕ) (p : Period)
    → 4 ≤ day_of now
    → Starts p (period_start now p)
      × (period_start now p ≤ now)
      × (now < period_start now p + period_length p * ms_per_day)
      × ((t : ℕ) → Starts p t → t ≤ now → t ≤ period_start now p)
unfolding period_start period_length days_since_monday
period_start-latest now day h =
    (midnight (day_of now), omega arith, omega arith, λ t s b. omega arith)
period_start-latest now week h =
    let start = day_of now - days_since_monday (day_of now) in
    let n = since_monday-lt (day_of now) in
    (
      (midnight start, rw (day_of-start start) (monday (day_of now) h)),
      since_start now (days_since_monday (day_of now)),
      omega arith,
      λ t s b.
          from_days t start s.0 (monday-latest (day_of now) (day_of t) s.1 (day_of_mono t now b)),
    )
period_start-latest now month h =
    let start = day_of now - day_of_month now in
    let n = day_of_month-lt now in
    (
      (midnight start, month_start-first now),
      since_start now (day_of_month now),
      omega arith,
      λ t s b. from_days t start s.0 (
          rw (date_of-day now) (
            month-latest (day_of now) (day_of t) (sym (date_of-day t) ∙ s.1)
              (day_of_mono t now b))),
    )
