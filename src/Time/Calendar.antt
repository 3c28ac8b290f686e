-- ===== src/Time/Calendar.antt =====
-- The Gregorian calendar by the length of its months: the description that src/time.rs is held to.
use accelrd.Prelude.{ℕ, ◌+◌, ◌==◌, Bool, not, ◌&&◌, ◌||◌, if◌then◌else◌, ltb, ◌≤◌}
use accelrd.Prelude.Int.{ℤ, pos, ◌+ℤ◌, rem_euclid}
use accelrd.Time.{Ymd}

unfoldable pub is_leap : ℤ → Bool
unfolding rem_euclid
is_leap y = rem_euclid y 4 == 0 && (not (rem_euclid y 100 == 0) || rem_euclid y 400 == 0)

unfoldable pub days_in_month : Bool → ℕ → ℕ
days_in_month leap m =
    if m == 2
    then (if leap then 29 else 28)
    else (if (m == 4 || m == 6) || (m == 9 || m == 11) then 30 else 31)

unfoldable pub next_day : Ymd → Ymd
unfolding days_in_month is_leap ◌+ℤ◌
next_day t =
    if ltb t.day (days_in_month (is_leap t.year) t.month)
    then record { year = t.year; month = t.month; day = t.day + 1 }
    else if ltb t.month 12
    then record { year = t.year; month = t.month + 1; day = 1 }
    else record { year = t.year +ℤ pos 1; month = 1; day = 1 }

-- A day of the calendar.
pub record IsDay (t : Ymd) : Type 0 where
  pub month_in : (1 ≤ t.month) × (t.month ≤ 12)
  pub day_in : (1 ≤ t.day) × (t.day ≤ days_in_month (is_leap t.year) t.month)
