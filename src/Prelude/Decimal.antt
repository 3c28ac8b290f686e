-- ===== src/Prelude/Decimal.antt =====
-- `to_string` of an unsigned integer of at most 64 bits, and `parse` of what it prints.
use accelrd.Prelude.{
  ℕ, ltb→lt, zero, suc, ◌+◌, ◌*◌, ◌/◌, ◌%◌, ◌^◌, ◌<◌, ◌≡◌, ◌∙◌, ap, [], ◌∷◌, Text, ltb,
  if◌then◌else◌, arith, some, keep_if, Bool-cases, inl, inr,
}
use accelrd.Prelude.Strings.{digits_from, parse_digits, parse_below, u64_bound}

-- The digits of a number, before the text `acc`; twenty are enough for 64 bits.
unfoldable pub show_digits : (fuel : ℕ) → ℕ → Text → Text
show_digits zero n acc = acc
show_digits (suc fuel) n acc =
    let more = show_digits fuel (n / 10) ((48 + n % 10) ∷ acc) in
    if ltb n 10 then (48 + n) ∷ acc else more

unfoldable pub show_number : ℕ → Text
unfolding show_digits
show_number n = show_digits 20 n []

digits_from-digit :
    (a d : ℕ) (s : Text) → d < 10 → digits_from a ((48 + d) ∷ s) ≡ digits_from (a * 10 + d) s
unfolding digits_from
digits_from-digit a d s h = ground arith

parse_digits-digit : (d : ℕ) (s : Text) → d < 10 → parse_digits ((48 + d) ∷ s) ≡ digits_from d s
unfolding parse_digits
parse_digits-digit d s h = ground (arith, digits_from-digit 0 d s)

parse_digits-show_digits :
    (fuel n : ℕ) (acc : Text)
    → n < 10 ^ suc fuel
    → parse_digits (show_digits (suc fuel) n acc) ≡ digits_from n acc
unfolding show_digits
parse_digits-show_digits zero n acc h = ground (arith, parse_digits-digit n acc)
parse_digits-show_digits (suc fuel) n acc h = elim (Bool-cases (ltb n 10)) [
  | inl e ↦ rw e (parse_digits-digit n acc (ltb→lt n 10 e))
  | inr e ↦ rw e (
      parse_digits-show_digits fuel (n / 10) ((48 + n % 10) ∷ acc) (omega arith)
      ∙ digits_from-digit (n / 10) (n % 10) acc (omega arith)
      ∙ ap (λ m. digits_from m acc) (omega arith))
]

pub parse_below-show_number :
    (n : ℕ) → n < u64_bound → parse_below u64_bound (show_number n) ≡ some n
unfolding parse_below show_number digits_from
parse_below-show_number n h =
    ap (keep_if (λ m. ltb m u64_bound)) (parse_digits-show_digits 19 n [] (omega arith))
    ∙ ground arith
