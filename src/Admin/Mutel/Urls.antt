-- ===== src/Admin/Mutel/Urls.antt =====
-- `urlencode` of src/admin/mutel.rs against a decoder of percent escapes.
use accelrd.Prelude.{
  ℕ, ◌+◌, ◌*◌, ◌-◌, ◌/◌, ◌%◌, ◌≡◌, ◌<◌, ◌∙◌, ap, refl, true, false, ltb, ◌==◌, ◌||◌, Bool-cases,
  inl, inr, [], ◌∷◌, All, Text, if◌then◌else◌, arith,
}
use accelrd.Admin.Mutel.{is_plain, upper_digit, urlencode}

-- The value of a digit of `{:X}`.
unfoldable digit_value : ℕ → ℕ
digit_value c = if ltb c 65 then c - 48 else c - 55

-- A decoder: `%` and two digits stand for a byte, and any other byte for itself.
unfoldable pub percent_decode : Text → Text
unfolding digit_value
percent_decode [] = []
percent_decode (c ∷ []) = c ∷ []
percent_decode (c ∷ d ∷ []) = c ∷ d ∷ []
percent_decode (c ∷ d ∷ e ∷ s) =
    let after = percent_decode s in
    let next = percent_decode (d ∷ e ∷ s) in
    if c == 37 then (16 * digit_value d + digit_value e) ∷ after else c ∷ next

-- A byte that a path may hold: one that `urlencode` keeps, or `%`.
abbrev pub IsPathByte : ℕ → Type 0
IsPathByte b = (is_plain b || (b == 37)) ≡ true

percent_decode-plain :
    (c : ℕ) (s : Text) → (c == 37) ≡ false → percent_decode (c ∷ s) ≡ c ∷ percent_decode s
unfolding percent_decode
percent_decode-plain c [] h = refl
percent_decode-plain c (d ∷ []) h = refl
percent_decode-plain c (d ∷ e ∷ s) h = rw h refl

percent_decode-escape :
    (d e : ℕ) (s : Text)
    → percent_decode (37 ∷ d ∷ e ∷ s) ≡ (16 * digit_value d + digit_value e) ∷ percent_decode s
unfolding percent_decode
percent_decode-escape d e s = refl

digit_value-upper_digit : (n : ℕ) → n < 16 → digit_value (upper_digit n) ≡ n
unfolding digit_value upper_digit
digit_value-upper_digit n h = ground arith

is_plain-not_escape : (b : ℕ) → is_plain b ≡ true → (b == 37) ≡ false
unfolding is_plain
is_plain-not_escape b h = ground (arith, h)

digits :
    (b : ℕ)
    → b < 256
    → 16 * digit_value (upper_digit (b / 16)) + digit_value (upper_digit (b % 16)) ≡ b
digits b h = omega (
  arith,
  digit_value-upper_digit (b / 16) (omega arith),
  digit_value-upper_digit (b % 16) (omega arith),
)

upper_digit-is_plain : (n : ℕ) → n < 16 → is_plain (upper_digit n) ≡ true
unfolding is_plain upper_digit
upper_digit-is_plain n h = ground arith

-- For every text of bytes, decoding the escapes of its encoding gives the text back, and the encoding holds nothing but letters, digits, `-`, `_`, `.`, `~` and `%`.
pub percent_decode-urlencode :
    (s : Text)
    → All (λ b. b < 256) s
    → (percent_decode (urlencode s) ≡ s) × All IsPathByte (urlencode s)
unfolding urlencode percent_decode
percent_decode-urlencode [] h = (refl, tt)
percent_decode-urlencode (b ∷ s) h =
    let rest = percent_decode-urlencode s h.1 in
    elim (Bool-cases (is_plain b)) [
      | inl e ↦ rw e (
        percent_decode-plain b (urlencode s) (is_plain-not_escape b e) ∙ ap (λ l. b ∷ l) rest.0,
        (rw e refl, rest.1),
      )
      | inr e ↦
          let high = upper_digit-is_plain (b / 16) (omega arith) in
          let low = upper_digit-is_plain (b % 16) (omega arith) in
          rw e (
            percent_decode-escape (upper_digit (b / 16)) (upper_digit (b % 16)) (urlencode s)
                ∙ (ap (λ n. n ∷ percent_decode (urlencode s)) (digits b h.0)
                    ∙ ap (λ l. b ∷ l) rest.0),
            (refl, (rw high refl, (rw low refl, rest.1))),
          )
    ]
