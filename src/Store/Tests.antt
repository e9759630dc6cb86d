-- ===== src/Store/Tests.antt =====
-- Runs of `periodStart` on concrete instants.
use agentworth.Prelude.{ℕ, ◌+◌, ◌*◌, ◌%◌, arith, ◌≤◌, ◌<◌, ◌≡◌, refl}
use agentworth.Prelude.Calendar.{ms_per_day, day_of_month}
use agentworth.Types.{week, month}
use agentworth.Store.{period_start}
use agentworth.Store.Calendar.{Starts, period_length, period_start-latest}

-- 29 February 2024, 12:00.
abbrev leap_day : ℕ
leap_day = 1_709_208_000_000

leap_month : period_start leap_day month ≡ 1_706_745_600_000
unfolding period_start day_of_month
leap_month = refl

-- The Monday before.
leap_week : period_start leap_day week ≡ 1_708_905_600_000
unfolding period_start
leap_week = refl

period_start-latest_example :
    ((period_start leap_day month % ms_per_day ≡ 0)
      × (day_of_month (period_start leap_day month) ≡ 0))
    × (period_start leap_day month ≤ leap_day)
    × (leap_day < period_start leap_day month + period_length month * ms_per_day)
    × ((t : ℕ) → Starts month t → t ≤ leap_day → t ≤ period_start leap_day month)
period_start-latest_example = period_start-latest leap_day month (omega arith)
