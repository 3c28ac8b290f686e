-- ===== src/Probe/Perftest/Rows.antt =====
-- Where the reader of src/probe/perftest.rs finds the summary, and when it finds none.
use accelrd.Prelude.{
  ◌≡◌, ◌↔◌, inl, inr, refl, ap, sym, ◌∙◌, true, false, Bool-cases, List, [], ◌∷◌, ◌++◌, Option,
  none, some, Text, codes, Result, All, context_option, starts_with, arith,
}
use accelrd.Prelude.Strings.{trim, lines, contains}
use accelrd.Probe.Perftest.{
  Summary, is_header, is_separator, parse_row, first_row, parse_lines, parse, parse_required,
}

-- The word stands somewhere in the line.
abbrev pub Names : Text → Text → Type 0
Names line word = (a : Text) × (b : Text) × (line ≡ a ++ (word ++ b))

abbrev pub IsHeader : Text → Type 0
IsHeader line =
    Names line (codes "#bytes") × Names line (codes "#iterations") × Names line (codes "MsgRate")

starts_with-append : (word b : Text) → starts_with (word ++ b) word ≡ true
unfolding starts_with
starts_with-append [] b = refl
starts_with-append (c ∷ word) b = ground (arith, starts_with-append word b)

starts_with-suffix :
    (line word : Text) → starts_with line word ≡ true → (b : Text) × (line ≡ word ++ b)
unfolding starts_with
starts_with-suffix line [] h = (line, refl)
starts_with-suffix [] (d ∷ word) h = absurd (cc (h))
starts_with-suffix (c ∷ line) (d ∷ word) h =
    let r = starts_with-suffix line word (ground (arith, h)) in
    let same : c ≡ d = ground (arith, h) in (r.0, rw (same, r.1) refl)

contains-Names : (line word : Text) → contains line word ≡ true → Names line word
unfolding contains
contains-Names [] word h = let r = starts_with-suffix [] word h in ([], r.0, r.1)
contains-Names (c ∷ line) word h = elim (Bool-cases (starts_with (c ∷ line) word)) [
  | inl e ↦ let r = starts_with-suffix (c ∷ line) word e in ([], r.0, r.1)
  | inr e ↦ let r = contains-Names line word (cc (e, h)) in (c ∷ r.0, r.1, ap (λ l. c ∷ l) r.2)
]

starts_with-contains : (line word : Text) → starts_with line word ≡ true → contains line word ≡ true
unfolding contains
starts_with-contains [] word h = h
starts_with-contains (c ∷ line) word h = rw h refl

contains-append : (a word b : Text) → contains (a ++ (word ++ b)) word ≡ true
unfolding contains
contains-append [] word b = starts_with-contains (word ++ b) word (starts_with-append word b)
contains-append (c ∷ a) word b = ground (arith, contains-append a word b)

Names-contains : (line word : Text) → Names line word → contains line word ≡ true
Names-contains line word (a, b, e) = ap (λ l. contains l word) e ∙ contains-append a word b

pub is_header_iff : (line : Text) → (is_header line ≡ true) ↔ IsHeader line
unfolding is_header
is_header_iff line = (
  λ h. (
    contains-Names line (codes "#bytes") (ground (arith, h)),
    contains-Names line (codes "#iterations") (ground (arith, h)),
    contains-Names line (codes "MsgRate") (ground (arith, h)),
  ),
  λ (b, i, m).
      rw
        (
          Names-contains line (codes "#bytes") b,
          Names-contains line (codes "#iterations") i,
          Names-contains line (codes "MsgRate") m,
        )
        refl,
)

not_header : (line : Text) → ¬ (IsHeader line) → is_header line ≡ false
not_header line h = elim (Bool-cases (is_header line)) [
  | inl e ↦ absurd (h ((is_header_iff line).0 e))
  | inr e ↦ e
]

module _ {F64 : Type 0} (parse_f64 : Text → Option F64) where
  first_row-append :
      (seps : List Text) (row : Text) (rest : List Text)
      → All (λ l. is_separator parse_f64 l ≡ true) seps
      → is_separator parse_f64 row ≡ false
      → first_row parse_f64 (seps ++ (row ∷ rest)) ≡ parse_row parse_f64 (trim row)
  unfolding first_row
  first_row-append [] row rest h f = rw f refl
  first_row-append (l ∷ seps) row rest h f = rw (h.0) (first_row-append seps row rest h.1 f)

  parse_lines-append :
      (before rows : List Text) (header : Text) (s : Summary F64)
      → All (λ l. ¬ (IsHeader l)) before
      → is_header header ≡ true
      → first_row parse_f64 rows ≡ some s
      → parse_lines parse_f64 (before ++ (header ∷ rows)) ≡ some s
  unfolding parse_lines
  parse_lines-append [] rows header s h e f = rw (e, f) refl
  parse_lines-append (l ∷ before) rows header s h e f =
      rw (not_header l h.0) (parse_lines-append before rows header s h.1 e f)

  -- Where the first line after the first header that is neither blank nor dashes reads as a row, the summary is that row's, whatever
  -- stands before the header and after the row. A header is a line with the words `#bytes`, `#iterations` and `MsgRate`.
  pub parse_required-parse_row :
      (stdout : Text) (before seps rest : List Text) (header row : Text) (s : Summary F64)
      → lines stdout ≡ before ++ (header ∷ (seps ++ (row ∷ rest)))
      → All (λ l. ¬ (IsHeader l)) before
      → IsHeader header
      → All (λ l. is_separator parse_f64 l ≡ true) seps
      → is_separator parse_f64 row ≡ false
      → parse_row parse_f64 (trim row) ≡ some s
      → parse_required parse_f64 stdout ≡ Result.ok s
  unfolding parse_required parse
  parse_required-parse_row stdout before seps rest header row s e h k j f g =
      rw
        (
          e,
          parse_lines-append before _ header s h ((is_header_iff header).1 k)
              (first_row-append seps row rest j f ∙ g),
        )
        refl

  -- No line that follows a header, blank lines and dashes apart, reads as a row.
  abbrev pub NoRow : List Text → Type 0
  NoRow l =
      (before seps rest : List Text) (header row : Text)
      → l ≡ before ++ (header ∷ (seps ++ (row ∷ rest)))
      → IsHeader header
      → All (λ x. is_separator parse_f64 x ≡ true) seps
      → is_separator parse_f64 row ≡ false
      → parse_row parse_f64 (trim row) ≡ none

  first_row-none :
      (l : List Text)
      → ((seps rest : List Text) (row : Text)
          → l ≡ seps ++ (row ∷ rest)
          → All (λ x. is_separator parse_f64 x ≡ true) seps
          → is_separator parse_f64 row ≡ false
          → parse_row parse_f64 (trim row) ≡ none)
      → first_row parse_f64 l ≡ none
  unfolding first_row
  first_row-none [] h = refl
  first_row-none (x ∷ l) h = elim (Bool-cases (is_separator parse_f64 x)) [
    | inl e ↦ rw e (
        first_row-none l
          (λ seps rest row q k f. h (x ∷ seps) rest row (ap (λ t. x ∷ t) q) (e, k) f))
    | inr e ↦ rw e (h [] l x refl tt e)
  ]

  NoRow-parse_lines : (l : List Text) → NoRow l → parse_lines parse_f64 l ≡ none
  unfolding parse_lines
  NoRow-parse_lines [] h = refl
  NoRow-parse_lines (x ∷ l) h =
      let later = NoRow-parse_lines l (λ before seps rest header row q.
        h (x ∷ before) seps rest header row (ap (λ t. x ∷ t) q)) in
      elim (Bool-cases (is_header x)) [
        | inl e ↦
            rw
              (
                e,
                first_row-none l (λ seps rest row q.
                    h [] seps rest x row (ap (λ t. x ∷ t) q) ((is_header_iff x).0 e)),
                later,
              )
              refl
        | inr e ↦ rw e later
      ]

  parse_lines-none :
      (before l : List Text)
      → parse_lines parse_f64 (before ++ l) ≡ none
      → parse_lines parse_f64 l ≡ none
  unfolding parse_lines
  parse_lines-none [] l h = h
  parse_lines-none (x ∷ before) l h = parse_lines-none before l (ground (arith, h))

  parse_lines-header :
      (header : Text) (rows : List Text)
      → is_header header ≡ true
      → parse_lines parse_f64 (header ∷ rows) ≡ none
      → first_row parse_f64 rows ≡ none
  unfolding parse_lines
  parse_lines-header header rows e h = ground (arith, e, h)

  parse_lines-NoRow : (l : List Text) → parse_lines parse_f64 l ≡ none → NoRow l
  parse_lines-NoRow l h before seps rest header row q k j f =
      let tail = header ∷ (seps ++ (row ∷ rest)) in
      let at_header = parse_lines-none before tail (rw (sym q) h) in
      sym (first_row-append seps row rest j f)
      ∙ parse_lines-header header (seps ++ (row ∷ rest)) ((is_header_iff header).1 k) at_header

  context_none :
      (m : Text) (o : Option (Summary F64)) → context_option m o ≡ Result.err m → o ≡ none
  context_none m none h = refl
  context_none m (some x) h = absurd (cc (h))

  -- The reader fails, with its one message, exactly when for every header the first line after it that is neither blank nor dashes,
  -- where there is one, does not read as a row.
  pub parse_required-err :
      (stdout : Text)
      → (parse_required parse_f64 stdout
          ≡ Result.err (codes "perftest output had no parseable summary row"))
        ↔ NoRow (lines stdout)
  unfolding parse_required parse
  parse_required-err stdout = (
    λ h. parse_lines-NoRow (lines stdout) (context_none _ _ h),
    λ h. rw (NoRow-parse_lines (lines stdout) h) refl,
  )
