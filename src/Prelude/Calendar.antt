-- ===== src/Prelude/Calendar.antt =====
-- The UTC calendar of JavaScript's `Date` on instants in milliseconds since the epoch.
use Prim.Native.Nat.{ℕ, ◌+◌, ◌-◌, ◌*◌, ◌/◌, ◌%◌}

abbrev pub ms_per_day : ℕ
ms_per_day = 86_400_000

-- Days since 1 January 1970, a Thursday.
abbrev pub day_of : ℕ → ℕ
day_of ms = ms / ms_per_day

-- `getUTCDay`: 0 is Sunday.
abbrev pub weekday : ℕ → ℕ
weekday ms = (day_of ms + 4) % 7

-- The day of the month, from 0, by the proleptic Gregorian calendar; `z` counts the days from
-- 1 March of the year 0, so that a leap day is the last of its year.
unfoldable pub day_of_month : ℕ → ℕ
day_of_month ms =
    let z = day_of ms + 719_468 in
    let of_era = z % 146_097 in
    let year = (of_era - of_era / 1460 + of_era / 36_524 - of_era / 146_096) / 365 in
    let of_year = of_era - (365 * year + year / 4 - year / 100) in
    let month = (5 * of_year + 2) / 153 in of_year - (153 * month + 2) / 5
