-- ===== src/Time/Months.antt =====
-- The months of a year that starts in March: month_day of src/time.rs.
use accelrd.Prelude.{ℕ, ◌+◌, ◌≡◌, ◌<◌, ◌⊎◌, arith, true, false, Bool}
use accelrd.Prelude.Int.{ℤ, pos, ◌+ℤ◌}
use accelrd.Time.{month_day}
use accelrd.Time.Calendar.{is_leap, days_in_month, next_day, IsDay}

-- The day stands in a year from March, which ends in the February of the next year.
pub data InYear (leap : Bool) (doy : ℕ) : Type 0 where
  usual : doy < 365 → InYear leap doy
  leap_day : leap ≡ true → doy ≡ 365 → InYear leap doy

pub month_day-next :
    (y : ℤ) (doy : ℕ)
    → InYear (is_leap (y +ℤ pos 1)) (doy + 1)
    → month_day y (doy + 1) ≡ next_day (month_day y doy)
unfolding month_day next_day days_in_month
month_day-next y doy h = ground arith

pub month_day-IsDay :
    (y : ℤ) (doy : ℕ) → InYear (is_leap (y +ℤ pos 1)) doy → IsDay (month_day y doy)
unfolding month_day days_in_month
month_day-IsDay y doy h = ground arith

-- The last day of a year from March, a 28 or a 29 February, and the 1 March after it.
pub month_day-last :
    (y : ℤ) (doy : ℕ)
    → ((doy ≡ 364) × (is_leap (y +ℤ pos 1) ≡ false)) ⊎ ((doy ≡ 365) × (is_leap (y +ℤ pos 1) ≡ true))
    → month_day (y +ℤ pos 1) 0 ≡ next_day (month_day y doy)
unfolding month_day next_day days_in_month
month_day-last y doy h = ground arith
