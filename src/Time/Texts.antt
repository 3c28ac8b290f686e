-- ===== src/Time/Texts.antt =====
-- The order of the time stamps of src/time.rs as texts, which is how the prober compares them.
use Prim.Native.Nat.Ordering.{lt}
use accelrd.Prelude.{
  ℕ, ◌+◌, ◌/◌, ◌%◌, ◌≡◌, refl, ◌<◌, ◌⊎◌, inl, inr, arith, Text, [], ◌∷◌, cmp_text, ltb, ltb→lt, ap,
  Bool-cases,
}
use accelrd.Prelude.Int.{pos}
use accelrd.Prelude.Decimal.{show_number, show_digits}
use accelrd.Time.{pad, zeros, rfc3339, pad_year}

-- A number of two digits before a text.
two : ℕ → Text → Text
two n s = (48 + n / 10) ∷ (48 + n % 10) ∷ s

pad-two : (n : ℕ) → n < 100 → pad 2 n ≡ two n []
unfolding pad two show_number show_digits zeros
pad-two n h = ground arith

pad-four : (n : ℕ) → n < 10000 → pad 4 n ≡ two (n / 100) (two (n % 100) [])
unfolding pad two show_number show_digits zeros
pad-four n h = ground arith

two-lt : (a b : ℕ) (s t : Text) → a < b → b < 100 → cmp_text (two a s) (two b t) ≡ lt
unfolding two cmp_text
two-lt a b s t h k = ground arith

-- Equal fields are passed over, with the separator after them.
two-skip :
    (a b c : ℕ) (s t : Text)
    → a ≡ b
    → cmp_text s t ≡ lt
    → cmp_text (two a (c ∷ s)) (two b (c ∷ t)) ≡ lt
unfolding two cmp_text
two-skip a b c s t e h = ground arith

-- A stamp of fixed width: year, month, day, hour, minute and second.
pub record Stamp : Type 0 where
  pub year : ℕ
  pub month : ℕ
  pub day : ℕ
  pub hour : ℕ
  pub minute : ℕ
  pub second : ℕ

pub record Fits (t : Stamp) : Type 0 where
  pub year_fits : t.year < 10000
  pub month_fits : t.month < 100
  pub day_fits : t.day < 100
  pub hour_fits : t.hour < 100
  pub minute_fits : t.minute < 100
  pub second_fits : t.second < 100

tail_of : (t : Stamp) → Text
tail_of t =
    two t.month
      (b'-' ∷ two t.day (b'T' ∷ two t.hour (b':' ∷ two t.minute (b':' ∷ two t.second (b'Z' ∷ [])))))

pub text_of : (t : Stamp) → Text
text_of t = two (t.year / 100) (two (t.year % 100) (b'-' ∷ tail_of t))

pub text_of_lem :
    (t : Stamp)
    → Fits t
    → rfc3339 (record { year = pos t.year; month = t.month; day = t.day }) t.hour t.minute t.second
      ≡ text_of t
unfolding rfc3339 pad_year text_of tail_of two
text_of_lem t f =
    rw
      (
        pad-four t.year f.year_fits,
        pad-two t.month f.month_fits,
        pad-two t.day f.day_fits,
        pad-two t.hour f.hour_fits,
        pad-two t.minute f.minute_fits,
        pad-two t.second f.second_fits,
      )
      refl

-- The order of the stamps, field by field.
pub data Earlier (t u : Stamp) : Type 0 where
  by_year : t.year < u.year → Earlier t u
  by_month : t.year ≡ u.year → t.month < u.month → Earlier t u
  by_day : t.year ≡ u.year → t.month ≡ u.month → t.day < u.day → Earlier t u
  by_hour : t.year ≡ u.year → t.month ≡ u.month → t.day ≡ u.day → t.hour < u.hour → Earlier t u
  by_minute :
      t.year ≡ u.year
      → t.month ≡ u.month
      → t.day ≡ u.day
      → t.hour ≡ u.hour
      → t.minute < u.minute
      → Earlier t u
  by_second :
      t.year ≡ u.year
      → t.month ≡ u.month
      → t.day ≡ u.day
      → t.hour ≡ u.hour
      → t.minute ≡ u.minute
      → t.second < u.second
      → Earlier t u

tail_of-lt :
    (t u : Stamp) → Fits u → t.year ≡ u.year → Earlier t u → cmp_text (tail_of t) (tail_of u) ≡ lt
unfolding tail_of
tail_of-lt t u g e (Earlier.by_year h) = absurd (omega arith)
tail_of-lt t u g e (Earlier.by_month _ h) = two-lt _ _ _ _ h g.month_fits
tail_of-lt t u g e (Earlier.by_day _ k h) = two-skip _ _ _ _ _ k (two-lt _ _ _ _ h g.day_fits)
tail_of-lt t u g e (Earlier.by_hour _ k l h) =
    two-skip _ _ _ _ _ k (two-skip _ _ _ _ _ l (two-lt _ _ _ _ h g.hour_fits))
tail_of-lt t u g e (Earlier.by_minute _ k l m h) =
    two-skip _ _ _ _ _ k
      (two-skip _ _ _ _ _ l (two-skip _ _ _ _ _ m (two-lt _ _ _ _ h g.minute_fits)))
tail_of-lt t u g e (Earlier.by_second _ k l m n h) = two-skip _ _ _ _ _ k (
    two-skip _ _ _ _ _ l
      (two-skip _ _ _ _ _ m (two-skip _ _ _ _ _ n (two-lt _ _ _ _ h g.second_fits))))

two-same : (a b : ℕ) (s t : Text) → a ≡ b → cmp_text s t ≡ lt → cmp_text (two a s) (two b t) ≡ lt
unfolding two cmp_text
two-same a b s t e h = ground arith

year-le : (t u : Stamp) → Earlier t u → (t.year < u.year) ⊎ (t.year ≡ u.year)
year-le t u h = ground (arith, h)

pub text_of-lt : (t u : Stamp) → Fits u → Earlier t u → cmp_text (text_of t) (text_of u) ≡ lt
unfolding text_of
text_of-lt t u g h = elim (year-le t u h) [
  | inl k ↦ elim (Bool-cases (ltb (t.year / 100) (u.year / 100))) [
    | inl e ↦ two-lt _ _ _ _ (ltb→lt _ _ e) (omega (arith, g.year_fits))
    | inr e ↦ two-same _ _ _ _ (ground arith) (two-lt _ _ _ _ (ground arith) (omega arith))
  ]
  | inr k ↦
      two-same _ _ _ _ (ap (λ y. y / 100) k)
        (two-skip _ _ _ _ _ (ap (λ y. y % 100) k) (tail_of-lt t u g k h))
]
