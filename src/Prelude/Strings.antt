-- ===== src/Prelude/Strings.antt =====
-- The `str` methods that the source's parsers call, over bytes. White space is ASCII's: the
-- other Unicode spaces do not occur in the inputs that the source parses.
use accelrd.Prelude.{
  ℕ, Bool, not, ◌&&◌, ◌||◌, List, [], ◌∷◌, Text, ◌==◌, leb, if◌then◌else◌, starts_with, is_empty,
  keep_if, ltb, map_option, ◌+◌, ◌-◌, ◌*◌, Option, none, some,
}

abbrev pub is_space : ℕ → Bool
is_space c = c == 32 || (leb 9 c && leb c 13)

unfoldable pub trim_start : Text → Text
trim_start [] = []
trim_start (c ∷ s) = let rest = trim_start s in if is_space c then rest else c ∷ s

unfoldable pub reverse : Text → Text → Text
reverse [] acc = acc
reverse (c ∷ s) acc = reverse s (c ∷ acc)

unfoldable pub trim_end : Text → Text
unfolding trim_start reverse
trim_end s = reverse (trim_start (reverse s [])) []

unfoldable pub trim : Text → Text
unfolding trim_start trim_end
trim s = trim_end (trim_start s)

unfoldable pub ends_with : Text → Text → Bool
unfolding reverse
ends_with s p = starts_with (reverse s []) (reverse p [])

-- `str::contains` of a text.
unfoldable pub contains : Text → Text → Bool
unfolding starts_with
contains [] p = starts_with [] p
contains (c ∷ s) p = starts_with (c ∷ s) p || contains s p

-- `split_whitespace`: the pieces between runs of white space, none of them empty. The helper has
-- the piece that is being read, its last byte first.
unfoldable pub flush : Text → List Text → List Text
unfolding reverse
flush [] pieces = pieces
flush (c ∷ piece) pieces = reverse (c ∷ piece) [] ∷ pieces

unfoldable pub words_from : (space : ℕ → Bool) → Text → Text → List Text
unfolding flush
words_from space piece [] = flush piece []
words_from space piece (c ∷ s) =
    let ended = words_from space [] s in
    let longer = words_from space (c ∷ piece) s in if space c then flush piece ended else longer

unfoldable pub split_whitespace : Text → List Text
unfolding words_from
split_whitespace s = words_from is_space [] s

-- `u8::is_ascii_whitespace`, which lacks the vertical tab.
abbrev pub is_ascii_space : ℕ → Bool
is_ascii_space c = is_space c && not (c == 11)

unfoldable pub split_ascii_whitespace : Text → List Text
unfolding words_from
split_ascii_whitespace s = words_from is_ascii_space [] s

-- `split(sep)`: always at least one piece.
unfoldable pub split : ℕ → Text → List Text
split sep [] = [] ∷ []
split sep (c ∷ s) = elim (split sep s) [
  | [] ↦ []
  | piece ∷ pieces ↦ if c == sep then [] ∷ piece ∷ pieces else (c ∷ piece) ∷ pieces
]

unfoldable pub strip_cr : Text → Text
strip_cr [] = []
strip_cr (c ∷ []) = if c == 13 then [] else c ∷ []
strip_cr (c ∷ d ∷ s) = c ∷ strip_cr (d ∷ s)

-- `split_once`
unfoldable pub split_once : ℕ → Text → Option (Text × Text)
split_once sep [] = none
split_once sep (c ∷ s) =
    let rest = split_once sep s in
    if c == sep then some ([], s) else map_option (λ p. (c ∷ p.0, p.1)) rest

-- `lines()`: the pieces that line feeds end, each without a carriage return before its line feed,
-- and what follows the last line feed unless that is empty.
unfoldable pub lines_of : List Text → List Text
unfolding strip_cr
lines_of [] = []
lines_of (p ∷ []) = if is_empty p then [] else p ∷ []
lines_of (p ∷ q ∷ ps) = strip_cr p ∷ lines_of (q ∷ ps)

unfoldable pub lines : Text → List Text
unfolding split lines_of
lines s = lines_of (split b'\n' s)

abbrev is_digit : ℕ → Bool
is_digit c = leb b'0' c && leb c b'9'

unfoldable pub digits_from : ℕ → Text → Option ℕ
digits_from acc [] = some acc
digits_from acc (c ∷ s) =
    let rest = digits_from (acc * 10 + (c - b'0')) s in if is_digit c then rest else none

-- An optional sign `+` and at least one digit.
unfoldable pub parse_digits : Text → Option ℕ
unfolding digits_from
parse_digits [] = none
parse_digits (c ∷ rest) =
    if c == b'+'
    then (if is_empty rest then none else digits_from 0 rest)
    else digits_from 0 (c ∷ rest)

-- `parse` for an unsigned integer below `bound`.
unfoldable pub parse_below : (bound : ℕ) → Text → Option ℕ
unfolding parse_digits
parse_below bound s = keep_if (λ n. ltb n bound) (parse_digits s)

-- `strip_prefix` and `strip_suffix`.
unfoldable pub strip_prefix : Text → Text → Option Text
strip_prefix s [] = some s
strip_prefix [] (b ∷ p) = none
strip_prefix (a ∷ s) (b ∷ p) = let rest = strip_prefix s p in if a == b then rest else none

unfoldable pub strip_suffix : Text → Text → Option Text
unfolding reverse strip_prefix
strip_suffix s p = map_option (λ t. reverse t []) (strip_prefix (reverse s []) (reverse p []))

-- `2 ^ 64`, the bound of `u64` and `usize`.
abbrev pub u64_bound : ℕ
u64_bound = 18446744073709551616
