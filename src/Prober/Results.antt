-- ===== src/Prober/Results.antt =====
-- src/prober/results.rs: the record that a probe pod prints on its standard output.
use accelrd.Prelude.{
  ℕ, Bool, not, ◌||◌, List, [], ◌∷◌, Option, none, some, Text, codes, Result, err, if◌then◌else◌,
  starts_with,
}
use accelrd.Prelude.Strings.{lines, trim, ends_with}

-- `f64` is a type of the platform that the program only prints and reads here.
pub record ProbeRecord (F64 : Type 0) : Type 0 where
  pub side : Text
  pub ok : Bool
  pub server : Option Text
  pub device : Text
  pub bytes : Option ℕ
  pub bw_peak_gbps : Option F64
  pub bw_avg_gbps : Option F64
  pub msg_rate_mpps : Option F64
  pub duration_s : F64
  pub message : Option Text
  pub src_rack : Option Text
  pub partner_node : Option Text

-- `from_str` is `serde_json::from_str::<ProbeRecord>`.
module _ {F64 : Type 0} (from_str : Text → Option (ProbeRecord F64)) where
  -- The loop over the lines: the first line in braces that reads as a record.
  unfoldable pub parse_lines : List Text → Result (ProbeRecord F64)
  parse_lines [] = err (codes "parse probe stdout")
  parse_lines (line ∷ rest) =
      let trimmed = trim line in
      let later = parse_lines rest in
      if not (starts_with trimmed (codes "{")) || not (ends_with trimmed (codes "}"))
      then later
      else elim (from_str trimmed) [ some r ↦ Result.ok r | none ↦ later ]

  unfoldable pub parse : Text → Result (ProbeRecord F64)
  unfolding parse_lines
  parse stdout = parse_lines (lines stdout)
