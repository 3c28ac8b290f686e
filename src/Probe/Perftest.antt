-- ===== src/Probe/Perftest.antt =====
-- src/probe/perftest.rs: the command line of ib_send_bw and the reader of its summary.
pub mod Rows
use accelrd.Prelude.{
  ℕ, Bool, not, ◌&&◌, ◌||◌, List, [], ◌∷◌, ◌++◌, Option, none, some, Text, codes, Result,
  context_option, if◌then◌else◌, and_then, starts_with, is_empty, map_option,
}
use accelrd.Prelude.Strings.{lines, trim, contains, split_whitespace, parse_below, u64_bound}
use accelrd.Prelude.Decimal.{show_number}

pub record Summary (F64 : Type 0) : Type 0 where
  pub bytes : ℕ
  pub iterations : ℕ
  pub bw_peak_gbps : F64
  pub bw_avg_gbps : F64
  pub msg_rate_mpps : F64

abbrev server_arg : Option Text → List Text
server_arg none = []
server_arg (some s) = s ∷ []

-- The program and its arguments.
unfoldable pub build_cmd : Option Text → Text → (port duration_secs : ℕ) → List Text
unfolding show_number
build_cmd server device port duration_secs =
    (codes "ib_send_bw"
      ∷ codes "-F"
      ∷ codes "--report_gbits"
      ∷ codes "-d"
      ∷ device
      ∷ codes "-p"
      ∷ show_number port
      ∷ codes "--duration"
      ∷ show_number duration_secs
      ∷ [])
    ++ server_arg server

unfoldable pub is_header : Text → Bool
unfolding contains
is_header line =
    contains line (codes "#bytes")
    && contains line (codes "#iterations")
    && contains line (codes "MsgRate")

-- `parse_f64` is `str::parse::<f64>`.
module _ {F64 : Type 0} (parse_f64 : Text → Option F64) where
  -- The five first columns.
  unfoldable pub parse_columns : List Text → Option (Summary F64)
  unfolding parse_below
  parse_columns (a ∷ b ∷ c ∷ d ∷ e ∷ _) = and_then (parse_below u64_bound a) λ bytes.
      and_then (parse_below u64_bound b) λ iterations. and_then (parse_f64 c) λ bw_peak_gbps.
        and_then (parse_f64 d) λ bw_avg_gbps.
          map_option
            (λ msg_rate_mpps. record {
              bytes = bytes;
              iterations = iterations;
              bw_peak_gbps = bw_peak_gbps;
              bw_avg_gbps = bw_avg_gbps;
              msg_rate_mpps = msg_rate_mpps;
            })
            (parse_f64 e)
  parse_columns _ = none

  unfoldable pub parse_row : Text → Option (Summary F64)
  unfolding split_whitespace parse_columns
  parse_row row = parse_columns (split_whitespace row)

  -- The lines that the reader passes over after a header.
  abbrev pub is_separator : Text → Bool
  is_separator next = is_empty (trim next) || starts_with (trim next) (codes "---")

  -- The first line after a header that is no separator.
  unfoldable pub first_row : List Text → Option (Summary F64)
  unfolding parse_row
  first_row [] = none
  first_row (next ∷ rest) =
      let later = first_row rest in if is_separator next then later else parse_row (trim next)

  unfoldable pub parse_lines : List Text → Option (Summary F64)
  unfolding is_header first_row
  parse_lines [] = none
  parse_lines (line ∷ rest) =
      let later = parse_lines rest in
      if not (is_header line)
      then later
      else elim (first_row rest) [ some s ↦ some s | none ↦ later ]

  unfoldable pub parse : Text → Option (Summary F64)
  unfolding lines parse_lines
  parse stdout = parse_lines (lines stdout)

  unfoldable pub parse_required : Text → Result (Summary F64)
  unfolding parse
  parse_required stdout =
      context_option (codes "perftest output had no parseable summary row") (parse stdout)
