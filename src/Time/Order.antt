-- ===== src/Time/Order.antt =====
-- Later UNIX times have later time stamps: rfc3339_at of src/time.rs.
use Prim.Native.Nat.Ordering.{lt}
use accelrd.Prelude.{
  ℕ, suc, zero, ◌+◌, ◌-◌, ◌/◌, ◌%◌, ◌≡◌, refl, ◌<◌, ◌≤◌, inl, inr, arith, cmp_text, ap, sym, ◌∙◌,
  Bool-cases, ltb, ltb→lt, Bool, compare, cmp_text-flip, cmp_text_refl, flip, Ordering-cases,
}
use accelrd.Prelude.Int.{pos, ◌+ℤ◌, pos_part}
use accelrd.Time.{Ymd, rfc3339, rfc3339_at, days_to_ymd}
use accelrd.Time.Calendar.{next_day, IsDay, days_in_month, is_leap}
use accelrd.Time.Succession.{days_to_ymd-next, days_to_ymd-IsDay}
use accelrd.Time.Texts.{Stamp, Fits, Earlier, text_of, text_of_lem, text_of-lt}

-- A calendar day after another, from the year 0.
data After (t u : Ymd) : Type 0 where
  year : pos_part t.year < pos_part u.year → After t u
  month : t.year ≡ u.year → t.month < u.month → After t u
  day : t.year ≡ u.year → t.month ≡ u.month → t.day < u.day → After t u

-- The year is not before the year 0.
abbrev IsAd : Ymd → Type 0
IsAd t = t.year ≡ pos (pos_part t.year)

next_day-IsAd : (t : Ymd) → IsAd t → IsAd (next_day t)
unfolding next_day ◌+ℤ◌
next_day-IsAd t e = ground (arith, e)

next_day-After : (t : Ymd) → IsAd t → IsDay t → After t (next_day t)
unfolding next_day ◌+ℤ◌
next_day-After t e d = ground (arith, e, d)

After-trans : (t u v : Ymd) → After t u → After u v → After t v
After-trans t u v h k = ground (arith, h, k)

pos_suc : (n : ℕ) → pos (suc n) ≡ pos n +ℤ pos 1
unfolding ◌+ℤ◌
pos_suc n = ground arith

days_to_ymd-suc : (n : ℕ) → days_to_ymd (pos (suc n)) ≡ next_day (days_to_ymd (pos n))
days_to_ymd-suc n = ap days_to_ymd (pos_suc n) ∙ days_to_ymd-next (pos n)

-- The epoch.
epoch : days_to_ymd (pos 0) ≡ record { year = pos 1970; month = 1; day = 1 }
unfolding days_to_ymd
epoch = refl

days_to_ymd-IsAd : (n : ℕ) → IsAd (days_to_ymd (pos n))
days_to_ymd-IsAd zero = rw epoch refl
days_to_ymd-IsAd (suc n) = rw (days_to_ymd-suc n) (next_day-IsAd _ (days_to_ymd-IsAd n))

days_to_ymd_mono : (k n m : ℕ) → suc (k + n) ≡ m → After (days_to_ymd (pos n)) (days_to_ymd (pos m))
days_to_ymd_mono zero n m e =
    let e' : m ≡ suc n = omega arith in
    rw (e', days_to_ymd-suc n) (next_day-After _ (days_to_ymd-IsAd n) (days_to_ymd-IsDay (pos n)))
days_to_ymd_mono (suc k) n m e =
    let e' : m ≡ suc (suc (k + n)) = omega arith in
    rw (e', days_to_ymd-suc (suc (k + n)))
      (After-trans _ _ _ (days_to_ymd_mono k n (suc (k + n)) refl)
        (next_day-After _ (days_to_ymd-IsAd (suc (k + n))) (days_to_ymd-IsDay (pos (suc (k + n))))))

-- The last day of the year 9999.
last_day : days_to_ymd (pos 2932896) ≡ record { year = pos 9999; month = 12; day = 31 }
unfolding days_to_ymd
last_day = refl

-- The first second of the year 10000.
abbrev pub four_digits : ℕ
four_digits = 253402300800

After-year : (t u : Ymd) → After t u → IsAd t → IsAd u → pos_part t.year ≤ pos_part u.year
After-year t u h i j = ground (arith, h, i, j)

year_of_last_day : pos_part (days_to_ymd (pos 2932896)).year ≡ 9999
year_of_last_day = rw last_day refl

year_fits : (n : ℕ) → n < 2932897 → pos_part (days_to_ymd (pos n)).year < 10000
year_fits n h = elim (Bool-cases (ltb n 2932896)) [
  | inl e ↦
      let e' : n < 2932896 = ltb→lt n 2932896 e in
      let le =
        After-year _ _ (days_to_ymd_mono (2932895 - n) n 2932896 (omega arith)) (days_to_ymd-IsAd n)
          (days_to_ymd-IsAd 2932896) in
      omega (arith, le, year_of_last_day)
  | inr e ↦ let e' : n ≡ 2932896 = ground arith in rw e' (omega (arith, year_of_last_day))
]

-- The stamp of second `r` of a day.
stamp : Ymd → ℕ → Stamp
stamp t n = record {
  year = pos_part t.year;
  month = t.month;
  day = t.day;
  hour = n / 3600 % 24;
  minute = n / 60 % 60;
  second = n % 60;
}

month_length : (leap : Bool) (m : ℕ) → days_in_month leap m ≤ 31
unfolding days_in_month
month_length leap m = ground arith

stamp-Fits : (t : Ymd) (n : ℕ) → pos_part t.year < 10000 → IsDay t → Fits (stamp t n)
unfolding stamp
stamp-Fits t n h d = ground (arith, d, month_length (is_leap t.year) t.month)

stamp-text_of :
    (t : Ymd) (n : ℕ)
    → IsAd t
    → Fits (stamp t n)
    → rfc3339 t (n / 3600 % 24) (n / 60 % 60) (n % 60) ≡ text_of (stamp t n)
unfolding stamp
stamp-text_of t n e f =
    ap
      (λ y.
        rfc3339 (record { year = y; month = t.month; day = t.day }) (n / 3600 % 24) (n / 60 % 60)
          (n % 60))
      e
    ∙ text_of_lem _ f

stamp_of : ℕ → Stamp
stamp_of n = stamp (days_to_ymd (pos (n / 86400))) n

stamp_of-Fits : (n : ℕ) → n < four_digits → Fits (stamp_of n)
unfolding stamp_of
stamp_of-Fits n h = stamp-Fits _ n (year_fits (n / 86400) (omega arith)) (days_to_ymd-IsDay _)

rfc3339_at-text_of : (n : ℕ) → n < four_digits → rfc3339_at (pos n) ≡ text_of (stamp_of n)
unfolding rfc3339_at stamp_of
rfc3339_at-text_of n h = stamp-text_of _ n (days_to_ymd-IsAd (n / 86400)) (stamp_of-Fits n h)

After-Earlier :
    (t u : Ymd) (a b : ℕ) → IsAd t → IsAd u → After t u → Earlier (stamp t a) (stamp u b)
unfolding stamp
After-Earlier t u a b i j h = ground (arith, h, i, j)

same_day : (t : Ymd) (a b : ℕ) → a < b → a / 86400 ≡ b / 86400 → Earlier (stamp t a) (stamp t b)
unfolding stamp
same_day t a b h e = ground arith

stamp_of-Earlier : (a b : ℕ) → a < b → Earlier (stamp_of a) (stamp_of b)
unfolding stamp_of
stamp_of-Earlier a b h = elim (Bool-cases (ltb (a / 86400) (b / 86400))) [
  | inl e ↦
      let e' : a / 86400 < b / 86400 = ltb→lt _ _ e in
      After-Earlier _ _ a b (days_to_ymd-IsAd _) (days_to_ymd-IsAd _)
        (days_to_ymd_mono (b / 86400 - suc (a / 86400)) _ _ (omega arith))
  | inr e ↦ let e' : b / 86400 ≡ a / 86400 = ground arith in rw e' (same_day _ a b h (sym e'))
]

rfc3339_at-lt :
    (a b : ℕ) → a < b → b < four_digits → cmp_text (rfc3339_at (pos a)) (rfc3339_at (pos b)) ≡ lt
rfc3339_at-lt a b h k =
    rw (rfc3339_at-text_of a (omega arith), rfc3339_at-text_of b k)
      (text_of-lt _ _ (stamp_of-Fits b k) (stamp_of-Earlier a b h))

-- From the epoch to the end of the year 9999, time stamps compare as texts the way their times do.
pub cmp_text-rfc3339_at :
    (a b : ℕ)
    → a < four_digits
    → b < four_digits
    → cmp_text (rfc3339_at (pos a)) (rfc3339_at (pos b)) ≡ compare a b
cmp_text-rfc3339_at a b h k = elim (Ordering-cases (compare a b)) [
  | inl e ↦ rw e (rfc3339_at-lt a b (ground arith) k)
  | inr (inl e) ↦ rw e (let e' : a ≡ b = ground arith in rw e' (cmp_text_refl _))
  | inr (inr e) ↦ rw e (cmp_text-flip _ _ ∙ ap flip (rfc3339_at-lt b a (ground arith) h))
]
