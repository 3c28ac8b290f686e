-- ===== src/Time.antt =====
-- src/time.rs: RFC 3339 time stamps of UNIX times, without a calendar library.
pub mod Years
pub mod Calendar
pub mod Months
pub mod Succession
pub mod Texts
pub mod Order
use accelrd.Prelude.{
  ℕ, zero, suc, ◌+◌, ◌-◌, ◌*◌, ◌/◌, ◌≡◌, refl, Bool, true, false, if◌then◌else◌, ltb, leb, Text,
  codes, ◌++◌, [], ◌∷◌, length, arith,
}
use accelrd.Prelude.Int.{
  ℤ, pos, negsuc, minus_i64, ◌+ℤ◌, ◌-ℤ◌, ◌*ℕ◌, div_trunc, div_euclid, rem_euclid, is_negative,
  pos_part,
}
use accelrd.Prelude.Decimal.{show_number}

-- The tuple (year, month, day); the casts of the month and the day to u32 keep them.
pub record Ymd : Type 0 where
  pub year : ℤ
  pub month : ℕ
  pub day : ℕ

-- The year of an era of 400 years, from March, that holds a day of the era.
unfoldable pub year_of_era : ℕ → ℕ
year_of_era doe = (doe - doe / 1460 + doe / 36524 - doe / 146096) / 365

unfoldable pub day_of_year : (doe yoe : ℕ) → ℕ
day_of_year doe yoe = doe - (365 * yoe + yoe / 4 - yoe / 100)

-- The era of a day that is counted from 0000-03-01.
unfoldable pub era_of : ℤ → ℤ
unfolding div_trunc ◌-ℤ◌
era_of z = if is_negative z then div_trunc (z -ℤ pos 146096) 146097 else div_trunc z 146097

unfoldable pub month_day : (y : ℤ) (doy : ℕ) → Ymd
unfolding ◌+ℤ◌
month_day y doy =
    let mp = (5 * doy + 2) / 153 in
    let d = doy - (153 * mp + 2) / 5 + 1 in
    let m = if ltb mp 10 then mp + 3 else mp - 9 in
    record { year = if leb m 2 then y +ℤ pos 1 else y; month = m; day = d }

unfoldable pub ymd_of_era : (era : ℤ) (doe : ℕ) → Ymd
unfolding ◌+ℤ◌ ◌*ℕ◌ month_day year_of_era day_of_year
ymd_of_era era doe =
    let yoe = year_of_era doe in month_day (pos yoe +ℤ era *ℕ 400) (day_of_year doe yoe)

unfoldable pub days_to_ymd : ℤ → Ymd
unfolding ◌+ℤ◌ ◌-ℤ◌ ◌*ℕ◌ era_of ymd_of_era
days_to_ymd days_since_epoch =
    let z = days_since_epoch +ℤ pos 719468 in
    ymd_of_era (era_of z) (pos_part (z -ℤ era_of z *ℕ 146097))

-- `{n:0w}`: at least `w` characters, with zeros before the digits.
unfoldable pub zeros : ℕ → Text
zeros zero = []
zeros (suc n) = b'0' ∷ zeros n

unfoldable pub pad : (width n : ℕ) → Text
unfolding zeros show_number
pad width n = zeros (width - length (show_number n)) ++ show_number n

unfoldable pub pad_year : ℤ → Text
unfolding pad
pad_year (pos y) = pad 4 y
pad_year (negsuc y) = b'-' ∷ pad 3 (suc y)

unfoldable pub rfc3339 : Ymd → (h m s : ℕ) → Text
unfolding pad pad_year
rfc3339 t h m s =
    pad_year t.year
    ++ codes "-"
    ++ pad 2 t.month
    ++ codes "-"
    ++ pad 2 t.day
    ++ codes "T"
    ++ pad 2 h
    ++ codes ":"
    ++ pad 2 m
    ++ codes ":"
    ++ pad 2 s
    ++ codes "Z"

unfoldable pub rfc3339_at : ℤ → Text
unfolding div_euclid rem_euclid days_to_ymd rfc3339
rfc3339_at unix_secs =
    rfc3339 (days_to_ymd (div_euclid unix_secs 86400)) (rem_euclid (div_euclid unix_secs 3600) 24)
      (rem_euclid (div_euclid unix_secs 60) 60) (rem_euclid unix_secs 60)

-- The closure that `now_minus_secs` returns, for the clock's `now`; a clock before the epoch reads 0.
unfoldable pub now_minus_secs : (now secs : ℕ) → Text
unfolding rfc3339_at minus_i64
now_minus_secs now secs = rfc3339_at (minus_i64 now secs)

unfoldable pub now_rfc3339 : (now : ℕ) → Text
unfolding rfc3339_at
now_rfc3339 now = rfc3339_at (pos now)
