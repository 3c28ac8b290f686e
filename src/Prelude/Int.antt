-- ===== src/Prelude/Int.antt =====
-- `i64`: integers over the native numbers, with the division of Rust that the source calls. The
-- values of the source stay far below 2 ^ 63.
use accelrd.Prelude.{
  ℕ, suc, ◌+◌, ◌-◌, ◌*◌, ◌/◌, ◌%◌, ◌≤◌, if◌then◌else◌, leb, Bool, true, false, ◌^◌, ◌<◌, ◌≡◌, ltb,
  arith,
}

pub data ℤ : Type 0 where
  pos negsuc : ℕ → ℤ

abbrev pub pos_part : ℤ → ℕ
pos_part (pos n) = n
pos_part (negsuc n) = 0

abbrev pub neg_part : ℤ → ℕ
neg_part (pos n) = 0
neg_part (negsuc n) = suc n

-- a - b, as an integer.
abbrev pub sub_ℕ : ℕ → ℕ → ℤ
sub_ℕ a b = if leb b a then pos (a - b) else negsuc (b - a - 1)

infixl 65 ◌+ℤ◌ ◌-ℤ◌
infixl 70 ◌*ℕ◌
infix 50 ◌≤ℤ◌
unfoldable pub ◌+ℤ◌ : ℤ → ℤ → ℤ
a +ℤ b = sub_ℕ (pos_part a + pos_part b) (neg_part a + neg_part b)

unfoldable pub ◌-ℤ◌ : ℤ → ℤ → ℤ
a -ℤ b = sub_ℕ (pos_part a + neg_part b) (neg_part a + pos_part b)

-- An integer times a natural number.
unfoldable pub ◌*ℕ◌ : ℤ → ℕ → ℤ
a *ℕ k = sub_ℕ (pos_part a * k) (neg_part a * k)

abbrev pub ◌≤ℤ◌ : ℤ → ℤ → Type 0
a ≤ℤ b = pos_part a + neg_part b ≤ pos_part b + neg_part a

abbrev pub is_negative : ℤ → Bool
is_negative (pos _) = false
is_negative (negsuc _) = true

-- `/`, which rounds to zero, by a positive number.
unfoldable pub div_trunc : ℤ → ℕ → ℤ
div_trunc (pos n) k = pos (n / k)
div_trunc (negsuc n) k = sub_ℕ 0 (suc n / k)

-- `div_euclid` and `rem_euclid` by a positive number.
unfoldable pub div_euclid : ℤ → ℕ → ℤ
div_euclid (pos n) k = pos (n / k)
div_euclid (negsuc n) k = negsuc (n / k)

unfoldable pub rem_euclid : ℤ → ℕ → ℕ
rem_euclid (pos n) k = n % k
rem_euclid (negsuc n) k = k - 1 - n % k

-- `a - b` of two unsigned 64-bit numbers, or of their casts, as an i64: it wraps.
unfoldable pub minus_i64 : (a b : ℕ) → ℤ
minus_i64 a b =
    let d = (a + 2 ^ 64 - b % 2 ^ 64) % 2 ^ 64 in
    if ltb d (2 ^ 63) then pos d else negsuc (2 ^ 64 - 1 - d)

pub minus_i64-pos : (a b : ℕ) → b ≤ a → a < 2 ^ 63 → minus_i64 a b ≡ pos (a - b)
unfolding minus_i64
minus_i64-pos a b h k =
    let e : (a + 2 ^ 64 - b % 2 ^ 64) % 2 ^ 64 ≡ a - b = omega arith in rw e (ground (arith, h, k))
