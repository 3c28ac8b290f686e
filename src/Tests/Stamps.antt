-- ===== src/Tests/Stamps.antt =====
-- The unit tests of src/time.rs and other time stamps.
use accelrd.Prelude.{◌≡◌, refl, codes, compare, cmp_text, leb, min, ◌+◌, some, arith}
use accelrd.Prelude.Int.{pos, negsuc, ◌+ℤ◌}
use accelrd.Time.{rfc3339_at, now_rfc3339, now_minus_secs, days_to_ymd}
use accelrd.Time.Calendar.{next_day, IsDay}
use accelrd.Time.Succession.{days_to_ymd-next, days_to_ymd-IsDay}
use accelrd.Time.Order.{cmp_text-rfc3339_at}
use accelrd.Prober.Pair.{within_cadence}
use accelrd.Prober.Pair.Cadence.{within_cadence-now_minus_secs}

epoch : rfc3339_at (pos 0) ≡ codes "1970-01-01T00:00:00Z"
unfolding rfc3339_at
epoch = refl

known_date_2026 : rfc3339_at (pos 1778157296) ≡ codes "2026-05-07T12:34:56Z"
unfolding rfc3339_at
known_date_2026 = refl

before_epoch : rfc3339_at (negsuc 0) ≡ codes "1969-12-31T23:59:59Z"
unfolding rfc3339_at
before_epoch = refl

leap_day : rfc3339_at (pos 951782400) ≡ codes "2000-02-29T00:00:00Z"
unfolding rfc3339_at
leap_day = refl

days_to_ymd-next_example : days_to_ymd (pos 58 +ℤ pos 1) ≡ next_day (days_to_ymd (pos 58))
days_to_ymd-next_example = days_to_ymd-next (pos 58)

days_to_ymd-IsDay_example : IsDay (days_to_ymd (negsuc 719467))
days_to_ymd-IsDay_example = days_to_ymd-IsDay (negsuc 719467)

cmp_text-rfc3339_at_example :
    cmp_text (rfc3339_at (pos 951782399)) (rfc3339_at (pos 951782400)) ≡ compare 951782399 951782400
cmp_text-rfc3339_at_example = cmp_text-rfc3339_at 951782399 951782400 (omega arith) (omega arith)

within_cadence-now_minus_secs_example :
    within_cadence
      (now_minus_secs 1778157296 21600)
      (some (now_rfc3339 1778157000))
      (some (now_rfc3339 1778100000))
    ≡ leb 1778157296 (min 1778157000 1778100000 + 21600)
within_cadence-now_minus_secs_example =
    within_cadence-now_minus_secs 1778157296 21600 1778157000 1778100000 (omega arith) (omega arith)
      (omega arith) (omega arith)
