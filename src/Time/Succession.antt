-- ===== src/Time/Succession.antt =====
-- The calendar days that days_to_ymd of src/time.rs gives to successive day numbers.
use accelrd.Prelude.{
  ℕ, ◌+◌, ◌%◌, ◌==◌, ◌≡◌, ◌∙◌, ap, ◌≢◌, refl, ◌<◌, ◌≤◌, ◌⊎◌, arith, true, false, Bool, inl, inr,
  not, ◌&&◌, ◌||◌, Bool-cases, ltb, ltb→lt,
}
use accelrd.Prelude.Int.{
  ℤ, pos, negsuc, ◌+ℤ◌, ◌-ℤ◌, ◌*ℕ◌, div_trunc, div_euclid, rem_euclid, pos_part,
}
use accelrd.Time.{Ymd, month_day, ymd_of_era, era_of, days_to_ymd, year_of_era, day_of_year}
use accelrd.Time.Calendar.{is_leap, next_day, IsDay}
use accelrd.Time.Months.{InYear, month_day-next, month_day-IsDay, month_day-last}
use accelrd.Time.Years.{year_of_era-bounds, year_of_era_unique, start}

-- The leap years of every era are those of the first.
leap : ℕ → Bool
leap y = y % 4 == 0 && (not (y % 100 == 0) || y % 400 == 0)

is_leap-era : (era : ℤ) (y : ℕ) → y ≤ 399 → is_leap (pos y +ℤ era *ℕ 400 +ℤ pos 1) ≡ leap (y + 1)
unfolding is_leap rem_euclid ◌+ℤ◌ ◌*ℕ◌ leap
is_leap-era (pos e) y h = ground arith
is_leap-era (negsuc e) y h = ground arith

year_of : ℤ → ℕ → ℤ
year_of era y = pos y +ℤ era *ℕ 400

year_of_suc : (era : ℤ) (y : ℕ) → year_of era (y + 1) ≡ year_of era y +ℤ pos 1
unfolding year_of ◌+ℤ◌ ◌*ℕ◌
year_of_suc era y = ground arith

year_of-next_era : (era : ℤ) → year_of (era +ℤ pos 1) 0 ≡ year_of era 399 +ℤ pos 1
unfolding year_of ◌+ℤ◌ ◌*ℕ◌
year_of-next_era era = ground arith

abbrev IsLeap : ℕ → Type 0
IsLeap y = (y % 4 ≡ 0) × ((y % 100 ≢ 0) ⊎ (y % 400 ≡ 0))

abbrev IsCommon : ℕ → Type 0
IsCommon y = (y % 4 ≢ 0) ⊎ ((y % 100 ≡ 0) × (y % 400 ≢ 0))

leap-IsLeap : (y : ℕ) → IsLeap y → leap y ≡ true
unfolding leap
leap-IsLeap y h = ground (arith, h)

leap-IsCommon : (y : ℕ) → IsCommon y → leap y ≡ false
unfolding leap
leap-IsCommon y h = ground (arith, h)

-- Where a day of an era stands in its year.
place :
    (doe : ℕ)
    → doe < 146097
    → (day_of_year doe (year_of_era doe) < 365)
      ⊎ (IsLeap (year_of_era doe + 1) × (day_of_year doe (year_of_era doe) ≡ 365))
unfolding day_of_year
place doe h = omega (arith, year_of_era-bounds doe h)

-- What follows a day of an era, within the era.
record SameYear (doe : ℕ) : Type 0 where
  year : year_of_era (doe + 1) ≡ year_of_era doe
  doy : day_of_year (doe + 1) (year_of_era doe) ≡ day_of_year doe (year_of_era doe) + 1

record NewYear (doe : ℕ) : Type 0 where
  year : year_of_era (doe + 1) ≡ year_of_era doe + 1
  doy : day_of_year (doe + 1) (year_of_era doe + 1) ≡ 0
  ended :
      ((day_of_year doe (year_of_era doe) ≡ 364) × IsCommon (year_of_era doe + 1))
      ⊎ ((day_of_year doe (year_of_era doe) ≡ 365) × IsLeap (year_of_era doe + 1))

same_year :
    (doe : ℕ)
    → doe + 1 < 146097
    → (doe + 1 < start (year_of_era doe + 1)) ⊎ (year_of_era doe ≡ 399)
    → SameYear doe
unfolding day_of_year
same_year doe h k = record {
  year =
      year_of_era_unique (doe + 1) (year_of_era doe) h (omega (arith, year_of_era-bounds doe))
        (omega (arith, year_of_era-bounds doe)) k;
  doy = omega (arith, year_of_era-bounds doe);
}

new_year :
    (doe : ℕ)
    → doe + 1 < 146097
    → doe + 1 ≡ start (year_of_era doe + 1)
    → (year_of_era doe < 399)
    → NewYear doe
unfolding day_of_year
new_year doe h k l = record {
  year =
      year_of_era_unique (doe + 1) (year_of_era doe + 1) h (omega arith) (omega arith)
        (omega arith);
  doy = omega arith;
  ended = ground (arith, year_of_era-bounds doe);
}

follows : (doe : ℕ) → doe + 1 < 146097 → SameYear doe ⊎ NewYear doe
follows doe h = ground (arith, year_of_era-bounds doe, same_year doe h, new_year doe h)

ymd_of_era-eq :
    (era : ℤ) (doe yoe doy : ℕ)
    → year_of_era doe ≡ yoe
    → day_of_year doe yoe ≡ doy
    → ymd_of_era era doe ≡ month_day (year_of era yoe) doy
unfolding ymd_of_era year_of
ymd_of_era-eq era doe yoe doy e f = rw (e, f) refl

is_leap-IsLeap :
    (era : ℤ) (y : ℕ) → y ≤ 399 → IsLeap (y + 1) → is_leap (year_of era y +ℤ pos 1) ≡ true
unfolding year_of
is_leap-IsLeap era y h k = is_leap-era era y h ∙ leap-IsLeap (y + 1) k

is_leap-IsCommon :
    (era : ℤ) (y : ℕ) → y ≤ 399 → IsCommon (y + 1) → is_leap (year_of era y +ℤ pos 1) ≡ false
unfolding year_of
is_leap-IsCommon era y h k = is_leap-era era y h ∙ leap-IsCommon (y + 1) k

-- A day of an era in its year.
InYear-year_of :
    (era : ℤ) (y doy : ℕ)
    → y ≤ 399
    → (doy < 365) ⊎ (IsLeap (y + 1) × (doy ≡ 365))
    → InYear (is_leap (year_of era y +ℤ pos 1)) doy
InYear-year_of era y doy h (inl e) = InYear.usual e
InYear-year_of era y doy h (inr e) = InYear.leap_day (is_leap-IsLeap era y h e.0) e.1

ymd_of_era-IsDay : (era : ℤ) (doe : ℕ) → doe < 146097 → IsDay (ymd_of_era era doe)
ymd_of_era-IsDay era doe h = rw (ymd_of_era-eq era doe _ _ refl refl) (
    month_day-IsDay _ _
      (InYear-year_of era (year_of_era doe) _ (year_of_era-bounds doe h).0 (place doe h)))

ymd_of_era-same :
    (era : ℤ) (doe : ℕ)
    → doe + 1 < 146097
    → SameYear doe
    → ymd_of_era era (doe + 1) ≡ next_day (ymd_of_era era doe)
ymd_of_era-same era doe h e =
    rw (ymd_of_era-eq era (doe + 1) _ _ e.year e.doy, ymd_of_era-eq era doe _ _ refl refl)
      (month_day-next _ _ (
        InYear-year_of era (year_of_era doe) _ (omega (arith, year_of_era-bounds doe))
          (rw (← e.doy, ← e.year) (place (doe + 1) h))))

ymd_of_era-new :
    (era : ℤ) (doe : ℕ)
    → doe + 1 < 146097
    → NewYear doe
    → ymd_of_era era (doe + 1) ≡ next_day (ymd_of_era era doe)
ymd_of_era-new era doe h e =
    rw
      (
        ymd_of_era-eq era (doe + 1) _ _ e.year e.doy,
        ymd_of_era-eq era doe _ _ refl refl,
        year_of_suc era (year_of_era doe),
      )
      (month_day-last _ _ (
        ground (
          arith,
          e.ended,
          is_leap-IsLeap era (year_of_era doe) k,
          is_leap-IsCommon era (year_of_era doe) k,
        )))
  where
    k : year_of_era doe ≤ 399
    k = omega (arith, year_of_era-bounds doe)

ymd_of_era-next :
    (era : ℤ) (doe : ℕ)
    → doe + 1 < 146097
    → ymd_of_era era (doe + 1) ≡ next_day (ymd_of_era era doe)
ymd_of_era-next era doe h = elim (follows doe h) [
  | inl e ↦ ymd_of_era-same era doe h e
  | inr e ↦ ymd_of_era-new era doe h e
]

last_year : (year_of_era 146096 ≡ 399) × (day_of_year 146096 399 ≡ 365)
unfolding year_of_era day_of_year
last_year = (refl, refl)

first_year : (year_of_era 0 ≡ 0) × (day_of_year 0 0 ≡ 0)
unfolding year_of_era day_of_year
first_year = (refl, refl)

era_ends : (era : ℤ) → ymd_of_era (era +ℤ pos 1) 0 ≡ next_day (ymd_of_era era 146096)
era_ends era =
    rw
      (
        ymd_of_era-eq (era +ℤ pos 1) 0 _ _ first_year.0 first_year.1,
        ymd_of_era-eq era 146096 _ _ last_year.0 last_year.1,
        year_of-next_era era,
      )
      (month_day-last _ _ (inr (refl, is_leap-IsLeap era 399 (omega arith) (refl, inr refl))))

-- The day of its era on which a day stands.
doe_of : ℤ → ℕ
doe_of z = pos_part (z -ℤ era_of z *ℕ 146097)

era_of-euclid : (z : ℤ) → era_of z ≡ div_euclid z 146097
unfolding era_of div_trunc div_euclid ◌-ℤ◌
era_of-euclid (pos n) = refl
era_of-euclid (negsuc n) = ground arith

doe_of-euclid : (z : ℤ) → doe_of z ≡ rem_euclid z 146097
unfolding doe_of rem_euclid div_euclid ◌-ℤ◌ ◌*ℕ◌
doe_of-euclid (pos n) = rw (era_of-euclid (pos n)) (ground arith)
doe_of-euclid (negsuc n) = rw (era_of-euclid (negsuc n)) (ground arith)

doe_of_bound : (z : ℤ) → doe_of z < 146097
unfolding rem_euclid
doe_of_bound (pos n) = rw (doe_of-euclid (pos n)) (omega arith)
doe_of_bound (negsuc n) = rw (doe_of-euclid (negsuc n)) (omega arith)

inside :
    (z : ℤ)
    → rem_euclid z 146097 + 1 < 146097
    → (div_euclid (z +ℤ pos 1) 146097 ≡ div_euclid z 146097)
      × (rem_euclid (z +ℤ pos 1) 146097 ≡ rem_euclid z 146097 + 1)
unfolding rem_euclid div_euclid ◌+ℤ◌
inside (pos n) h = ground arith
inside (negsuc n) h = ground arith

across :
    (z : ℤ)
    → rem_euclid z 146097 ≡ 146096
    → (div_euclid (z +ℤ pos 1) 146097 ≡ div_euclid z 146097 +ℤ pos 1)
      × (rem_euclid (z +ℤ pos 1) 146097 ≡ 0)
unfolding rem_euclid div_euclid ◌+ℤ◌
across (pos n) h = ground arith
across (negsuc n) h = ground arith

ymd_of : ℤ → Ymd
ymd_of z = ymd_of_era (era_of z) (doe_of z)

ymd_of-euclid : (z : ℤ) → ymd_of z ≡ ymd_of_era (div_euclid z 146097) (rem_euclid z 146097)
unfolding ymd_of
ymd_of-euclid z = rw (era_of-euclid z, doe_of-euclid z) refl

ymd_of-next : (z : ℤ) → ymd_of (z +ℤ pos 1) ≡ next_day (ymd_of z)
ymd_of-next z =
    rw (ymd_of-euclid (z +ℤ pos 1), ymd_of-euclid z)
      (elim (Bool-cases (ltb (rem_euclid z 146097 + 1) 146097)) [
        | inl e ↦
            let k = inside z (ltb→lt _ _ e) in rw (k.0, k.1) (ymd_of_era-next _ _ (ltb→lt _ _ e))
        | inr e ↦
            let k : rem_euclid z 146097 ≡ 146096 =
              ground (arith, doe_of_bound z, doe_of-euclid z) in
            let l = across z k in rw (l.0, l.1, k) (era_ends _)
      ])

shift : (n : ℤ) → n +ℤ pos 1 +ℤ pos 719468 ≡ n +ℤ pos 719468 +ℤ pos 1
unfolding ◌+ℤ◌
shift n = ground arith

-- Each day number is the calendar day after that of the number before it, before the epoch too.
pub days_to_ymd-next : (n : ℤ) → days_to_ymd (n +ℤ pos 1) ≡ next_day (days_to_ymd n)
unfolding days_to_ymd ymd_of doe_of
days_to_ymd-next n = ap ymd_of (shift n) ∙ ymd_of-next (n +ℤ pos 719468)

-- Every day number is a day of the calendar.
pub days_to_ymd-IsDay : (n : ℤ) → IsDay (days_to_ymd n)
unfolding days_to_ymd doe_of
days_to_ymd-IsDay n = ymd_of_era-IsDay _ _ (doe_of_bound (n +ℤ pos 719468))
