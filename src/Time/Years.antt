-- ===== src/Time/Years.antt =====
-- The years of an era, which start in March: year_of_era and day_of_year of src/time.rs.
use accelrd.Prelude.{ℕ, ◌+◌, ◌-◌, ◌*◌, ◌/◌, ◌≡◌, ◌<◌, ◌≤◌, ◌⊎◌, arith}
use accelrd.Time.{year_of_era}

-- The day of the era on which a year starts.
abbrev pub start : ℕ → ℕ
start y = 365 * y + y / 4 - y / 100

-- The first day of the year is not after `doe`, and that of the next year is.
pub year_of_era-bounds :
    (doe : ℕ)
    → doe < 146097
    → (year_of_era doe ≤ 399)
      × (start (year_of_era doe) ≤ doe)
      × ((doe < start (year_of_era doe + 1)) ⊎ ((doe ≡ 146096) × (year_of_era doe ≡ 399)))
unfolding year_of_era
year_of_era-bounds doe h = omega arith

-- The year is determined by where its days lie.
pub year_of_era_unique :
    (doe y : ℕ)
    → doe < 146097
    → y ≤ 399
    → start y ≤ doe
    → (doe < start (y + 1)) ⊎ (y ≡ 399)
    → year_of_era doe ≡ y
unfolding year_of_era
year_of_era_unique doe y h k lo hi = omega arith
