-- ===== src/Tests/Links.antt =====
-- The unit tests of src/probe/perftest.rs, and runs of one probe.
use accelrd.Prelude.{
  ℕ, ◌≡◌, ◌↔◌, refl, ◌+◌, ◌*◌, ltb, true, false, [], ◌∷◌, List, Option, none, some, Text, codes,
  ◌++◌, ok, err, arith, if◌then◌else◌, starts_with,
}
use accelrd.Prelude.Strings.{parse_digits, lines, trim, split}
use accelrd.Probe.{done}
use accelrd.Probe.Perftest.{
  Summary, build_cmd, parse, parse_required, is_header, is_separator, parse_row,
}
use accelrd.Probe.Perftest.Rows.{
  IsHeader, is_header_iff, NoRow, parse_required-parse_row, parse_required-err,
}
use accelrd.Probe.Run.{Output, Runtime, IsClock, run_client, perftest_port}
use accelrd.Probe.Run.Attempts.{Returned, run_client-Returned}

-- A float is read as its whole part.
abbrev whole : List Text → Option ℕ
whole [] = none
whole (s ∷ _) = parse_digits s

parse_f64 : Text → Option ℕ
unfolding split parse_digits
parse_f64 s = whole (split b'.' s)

abbrev header_line : Text
header_line =
    codes " #bytes     #iterations    BW peak[Gb/sec]    BW average[Gb/sec]   MsgRate[Mpps]"

abbrev row_line : Text
row_line = codes " 65536      5000             89.60              89.40                0.179173"

abbrev dashes : Text
dashes = codes "----------------------"

abbrev sample : Text
sample =
    dashes
    ++ (b'\n'
        ∷ (codes "                    Send BW Test"
            ++ (b'\n'
                ∷ (header_line ++ (b'\n' ∷ (row_line ++ (b'\n' ∷ (dashes ++ (b'\n' ∷ [])))))))))

abbrev summary : Summary ℕ
summary = record {
  bytes = 65536;
  iterations = 5000;
  bw_peak_gbps = 89;
  bw_avg_gbps = 89;
  msg_rate_mpps = 0;
}

parses_gbits_summary : parse parse_f64 sample ≡ some summary
unfolding parse parse_f64 starts_with trim
parses_gbits_summary = refl

malformed_input : parse parse_f64 (codes "nothing useful here") ≡ none
unfolding parse parse_f64 starts_with trim
malformed_input = refl

lines_of_sample :
    lines sample
    ≡ (dashes ∷ codes "                    Send BW Test" ∷ [])
      ++ (header_line ∷ ([] ++ (row_line ∷ dashes ∷ [])))
unfolding lines
lines_of_sample = refl

sample_header : is_header header_line ≡ true
unfolding is_header starts_with
sample_header = refl

without_words : (line : Text) → is_header line ≡ false → ¬ (IsHeader line)
without_words line e h = absurd (cc (e, (is_header_iff line).1 h))

dashes_before : is_header dashes ≡ false
unfolding is_header starts_with
dashes_before = refl

title_before : is_header (codes "                    Send BW Test") ≡ false
unfolding is_header starts_with
title_before = refl

row_is_row : is_separator parse_f64 row_line ≡ false
unfolding trim starts_with
row_is_row = refl

row_reads : parse_row parse_f64 (trim row_line) ≡ some summary
unfolding parse_row parse_f64 trim
row_reads = refl

parse_required-parse_row_example : parse_required parse_f64 sample ≡ ok summary
parse_required-parse_row_example =
    parse_required-parse_row parse_f64 sample
      (dashes ∷ codes "                    Send BW Test" ∷ []) [] (dashes ∷ []) header_line row_line
      summary lines_of_sample
      (without_words dashes dashes_before, (without_words _ title_before, tt))
      ((is_header_iff header_line).0 sample_header) tt row_is_row row_reads

parse_required-err_example :
    (parse_required parse_f64 (codes "nothing useful here")
      ≡ err (codes "perftest output had no parseable summary row"))
    ↔ NoRow parse_f64 (lines (codes "nothing useful here"))
parse_required-err_example = parse_required-err parse_f64 (codes "nothing useful here")

-- The outside is the time in milliseconds; the server listens from the third second on, and a run
-- takes a tenth of a second.
abbrev refused_output : Output
refused_output = record {
  success = false;
  status = codes "exit status: 1";
  stdout = [];
  stderr = codes "Couldn't connect to 10.0.0.7:18515";
}

abbrev good_output : Output
good_output = record {
  success = true;
  status = codes "exit status: 0";
  stdout = sample;
  stderr = [];
}

abbrev runtime : Runtime ℕ
runtime = record {
  output = λ cmd t. (ok (if ltb t 3000 then refused_output else good_output), t + 100);
  now = λ t. t;
  sleep = λ d t. t + d;
}

runtime-IsClock : IsClock runtime
runtime-IsClock = record { output_forward = λ cmd s. omega arith; sleep_lasts = λ d s. omega arith }

run_client-Returned_example :
    Returned parse_f64 runtime
      (build_cmd (some (codes "10.0.0.7")) (codes "mlx5_0") perftest_port 30)
      (0 + 60 * 1000)
      0
      (run_client parse_f64 runtime (codes "10.0.0.7") (codes "mlx5_0") 30 60 0)
run_client-Returned_example =
    run_client-Returned parse_f64 runtime runtime-IsClock (codes "10.0.0.7") (codes "mlx5_0") 30 60
      0

-- Three attempts that cannot connect, and a fourth.
retries :
    run_client parse_f64 runtime (codes "10.0.0.7") (codes "mlx5_0") 30 60 0
    ≡ some (done summary, 3900)
unfolding run_client parse_f64 starts_with trim
retries = refl
