-- ===== src/Probe/Printed.antt =====
-- The line that src/probe/mod.rs prints and that src/prober/results.rs reads.
use accelrd.Prelude.{
  ℕ, ◌<◌, ◌≡◌, refl, ap, true, false, Bool, List, [], ◌∷◌, ◌++◌, Option, none, some, Text, codes,
  Result, All, starts_with, ◌==◌, arith, if◌then◌else◌,
}
use accelrd.Prelude.Strings.{
  lines, lines_of, split, strip_cr, trim, trim_start, trim_end, ends_with, reverse, is_space,
}
use accelrd.Prober.Results.{ProbeRecord, parse, parse_lines}

-- Text without line breaks.
abbrev pub IsLine : Text → Type 0
IsLine = All (λ c. 13 < c)

-- The pieces of a text are never none.
record Pieces (l : List Text) : Type 0 where
  piece : Text
  pieces : List Text
  are : l ≡ piece ∷ pieces

split-Pieces : (s : Text) → Pieces (split b'\n' s)
unfolding split
split-Pieces [] = record { piece = []; pieces = []; are = refl }
split-Pieces (c ∷ s) = go (c == b'\n') (split b'\n' s) (split-Pieces s)
  where
    go :
        (b : Bool) (l : List Text)
        → Pieces l
        → Pieces (elim l [
          | [] ↦ []
          | piece ∷ pieces ↦ if b then [] ∷ piece ∷ pieces else (c ∷ piece) ∷ pieces
        ])
    go true l p = rw p.are (record { piece = []; pieces = p.piece ∷ p.pieces; are = refl })
    go false l p = rw p.are (record { piece = c ∷ p.piece; pieces = p.pieces; are = refl })

split-line : (s rest : Text) → IsLine s → split b'\n' (s ++ (b'\n' ∷ rest)) ≡ s ∷ split b'\n' rest
unfolding split
split-line [] rest h = let p = split-Pieces rest in rw p.are refl
split-line (c ∷ s) rest h = rw (split-line s rest h.1) (ground (arith, h))

lines-line : (s rest : Text) → IsLine s → lines (s ++ (b'\n' ∷ rest)) ≡ strip_cr s ∷ lines rest
unfolding lines lines_of
lines-line s rest h = let p = split-Pieces rest in rw (split-line s rest h, p.are) refl

strip_cr-line : (s : Text) → IsLine s → strip_cr s ≡ s
unfolding strip_cr
strip_cr-line [] h = refl
strip_cr-line (c ∷ []) h = ground (arith, h)
strip_cr-line (c ∷ d ∷ s) h = rw (strip_cr-line (d ∷ s) h.1) refl

reverse-append : (s acc : Text) → reverse (reverse s acc) [] ≡ reverse acc s
unfolding reverse
reverse-append [] acc = refl
reverse-append (c ∷ s) acc = reverse-append s (c ∷ acc)

trim_start-solid :
    (b : ℕ) (s : Text) → is_space b ≡ false → starts_with s (b ∷ []) ≡ true → trim_start s ≡ s
unfolding trim_start starts_with
trim_start-solid b [] e h = refl
trim_start-solid b (c ∷ s) e h = let k : c ≡ b = ground (arith, h) in rw (k, e) refl

-- Text that starts and ends with a brace is trimmed.
trim-braces :
    (s : Text) → starts_with s (codes "{") ≡ true → ends_with s (codes "}") ≡ true → trim s ≡ s
unfolding trim trim_end ends_with
trim-braces [] h k = refl
trim-braces (c ∷ s) h k =
    rw (trim_start-solid b'{' (c ∷ s) refl h, trim_start-solid b'}' (reverse (c ∷ s) []) refl k)
      (reverse-append (c ∷ s) [])

module _ {F64 : Type 0} (from_str : Text → Option (ProbeRecord F64)) where
  -- Other output before the record: lines that do not read as one.
  pub record IsNoise (l : Text) : Type 0 where
    pub is_line : IsLine l
    pub no_record : from_str (trim l) ≡ none

  -- What `println` writes of some lines.
  abbrev pub print_lines : List Text → Text
  print_lines [] = []
  print_lines (l ∷ ls) = l ++ (b'\n' ∷ print_lines ls)

  parse_lines-noise :
      (l : Text) (rest : List Text)
      → IsNoise l
      → parse_lines from_str (strip_cr l ∷ rest) ≡ parse_lines from_str rest
  unfolding parse_lines
  parse_lines-noise l rest h = rw (strip_cr-line l h.is_line, h.no_record) (if_same _ _)
    where
      if_same : {A : Type 0} (b : Bool) (a : A) → (if b then a else a) ≡ a
      if_same true a = refl
      if_same false a = refl

  pub append_assoc : (a b c : Text) → a ++ b ++ c ≡ a ++ (b ++ c)
  append_assoc [] b c = refl
  append_assoc (x ∷ a) b c = ap (λ l. x ∷ l) (append_assoc a b c)

  pub parse-noise :
      (ls : List Text) (rest : Text)
      → All IsNoise ls
      → parse from_str (print_lines ls ++ rest) ≡ parse from_str rest
  unfolding parse
  parse-noise [] rest h = refl
  parse-noise (l ∷ ls) rest h =
      rw
        (
          append_assoc l (b'\n' ∷ print_lines ls) rest,
          lines-line l (print_lines ls ++ rest) h.0.is_line,
          parse_lines-noise l (lines (print_lines ls ++ rest)) h.0,
        )
        (parse-noise ls rest h.1)

  -- A line of JSON, as `serde_json` writes a struct and reads it back: in braces, with control
  -- characters escaped.
  pub record IsJson (line : Text) (r : ProbeRecord F64) : Type 0 where
    pub is_line : IsLine line
    pub opens : starts_with line (codes "{") ≡ true
    pub closes : ends_with line (codes "}") ≡ true
    pub reads : from_str line ≡ some r

  pub parse-json :
      (line : Text) (r : ProbeRecord F64) (rest : Text)
      → IsJson line r
      → parse from_str (line ++ (b'\n' ∷ rest)) ≡ Result.ok r
  unfolding parse parse_lines
  parse-json line r rest h =
      rw
        (
          lines-line line rest h.is_line,
          strip_cr-line line h.is_line,
          trim-braces line h.opens h.closes,
          h.opens,
          h.closes,
          h.reads,
        )
        refl
