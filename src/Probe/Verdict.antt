-- ===== src/Probe/Verdict.antt =====
-- From the outcome of a probe to the verdict of the prober: src/probe/mod.rs, the line on the standard
-- output of a client pod, and src/prober/reconcile.rs.
use accelrd.Prelude.{
  ◌≡◌, refl, ◌∙◌, ap, ◌++◌, ◌∷◌, List, Option, some, none, Text, codes, Result, ok, err, All, true,
  false, if◌then◌else◌, map_option, Bool,
}
use accelrd.Prober.Annotations.{Verdict, fail}
use accelrd.Prober.Config
use accelrd.Prober.Template.{Template}
use accelrd.Prober.Cluster.{Api, World}
use accelrd.Prober.Pods.{Phase, succeeded, failed_phase, read_record}
use accelrd.Prober.Results.{ProbeRecord, parse}
use accelrd.Prober.Reconcile.{Libraries, verdict_of}
use accelrd.Probe.{Record, Resolved, Outcome, done, failed, build_record}
use accelrd.Probe.Session.{Exit, exit_of}
use accelrd.Probe.Printed.{IsNoise, IsJson, print_lines, append_assoc, parse-noise, parse-json}

-- The fields of a printed record under their names, which are those that the prober reads.
abbrev pub as_read : {F64 : Type 0} → Record F64 → ProbeRecord F64
as_read r = record {
  side = r.side;
  ok = r.ok;
  server = r.server;
  device = r.device;
  bytes = r.bytes;
  bw_peak_gbps = r.bw_peak_gbps;
  bw_avg_gbps = r.bw_avg_gbps;
  msg_rate_mpps = r.msg_rate_mpps;
  duration_s = r.duration_s;
  message = r.message;
  src_rack = r.src_rack;
  partner_node = r.partner_node;
}

-- The phase of a pod whose process exits with this result.
abbrev pub phase_of : Result (Unit {0}) → Phase
phase_of (ok _) = succeeded
phase_of (err _) = failed_phase

-- What the prober is to make of an outcome.
abbrev pub expected : {F64 : Type 0} → Record F64 → Outcome F64 → Verdict F64
expected r (done s) = Verdict.ok (as_read r)
expected r (failed m) = fail (codes "client pod phase Failed")

module _ {S Pod F64 : Type 0} (api : Api S Pod) (lib : Libraries F64)
    (from_value : Template → Result Pod) (settings : Config.Resolved) (zero : F64)
    (to_string : Record F64 → Option Text) where
  -- What the log of the pod holds: noise, what the probe printed, and anything after it.
  pub record Logged (name : Text) (exit : Exit F64) (s : S) : Type 0 where
    pub before : List Text
    pub after : Text
    pub noise : All (IsNoise lib.from_str) before
    pub log :
        (api.logs name s).0 ≡ some (print_lines lib.from_str before ++ (exit.printed ++ after))

  verdict_of-read :
      (name line : Text) (r : ProbeRecord F64) (before : List Text) (after : Text)
      (log : Option Text)
      → log ≡ some (print_lines lib.from_str before ++ (line ++ codes "\n" ++ after))
      → All (IsNoise lib.from_str) before
      → IsJson lib.from_str line r
      → elim log [ none ↦ err (codes "read probe logs") | some text ↦ parse lib.from_str text ]
        ≡ ok r
  verdict_of-read name line r before after log e h j =
      rw
        (
          e,
          append_assoc lib.from_str line (codes "\n") after,
          parse-noise lib.from_str before (line ++ (b'\n' ∷ after)) h,
        )
        (parse-json lib.from_str line r after j)

  verdict_of-succeeded :
      (name : Text) (w : World S) (r : ProbeRecord F64)
      → elim (api.logs name w.outside).0 [
        | none ↦ err (codes "read probe logs")
        | some text ↦ parse lib.from_str text
      ]
        ≡ ok r
      → r.ok ≡ true
      → map_option (λ p. p.0) (verdict_of api lib from_value settings succeeded name w)
        ≡ some (Verdict.ok r)
  unfolding verdict_of read_record
  verdict_of-succeeded name w r e f = rw (e, f) refl

  exit_of-some :
      (r : Record F64) (line : Text)
      → to_string r ≡ some line
      → (exit_of zero to_string r).printed ≡ line ++ codes "\n"
  unfolding exit_of
  exit_of-some r line e = rw (exit_of, e) refl

  exit_of-result :
      (r : Record F64) (line : Text)
      → to_string r ≡ some line
      → phase_of (exit_of zero to_string r).result ≡ (if r.ok then succeeded else failed_phase)
  unfolding exit_of
  exit_of-result r line e = rw (exit_of, e) (go r.ok _)
    where
      go :
          (b : Bool) (m : Text)
          → phase_of (if b then ok tt else err m) ≡ (if b then succeeded else failed_phase)
      go true m = refl
      go false m = refl

  verdict_of-failed :
      (name : Text) (w : World S)
      → map_option (λ p. p.0) (verdict_of api lib from_value settings failed_phase name w)
        ≡ some (fail (codes "client pod phase Failed"))
  unfolding verdict_of
  verdict_of-failed name w = refl

  -- When serde_json writes and reads the record, and the log holds what the probe printed among lines that do not read
  -- as a record, then a probe with a summary leads to the verdict `ok` with the measured numbers, and one that failed to the
  -- verdict `fail` with the phase of its pod as the reason: the message that the probe printed is not read.
  pub verdict_of-build_record :
      (args : Resolved) (device : Text) (duration_s : F64) (outcome : Outcome F64)
      (name line : Text) (w : World S)
      → let r = build_record args device duration_s outcome in
        to_string r ≡ some line
        → IsJson lib.from_str line (as_read r)
        → Logged name (exit_of zero to_string r) w.outside
        → map_option
            (λ p. p.0)
            (verdict_of api lib from_value settings
              (phase_of (exit_of zero to_string r).result)
              name
              w)
          ≡ some (expected r outcome)
  unfolding build_record
  verdict_of-build_record args device d (done s) name line w e j h =
      rw (exit_of-result (build_record args device d (done s)) line e) (
        verdict_of-succeeded name w (as_read (build_record args device d (done s)))
          (verdict_of-read name line _ h.before h.after _
            (h.log
              ∙ ap (λ t. some (print_lines lib.from_str h.before ++ (t ++ h.after)))
                  (exit_of-some _ line e))
            h.noise j)
          refl)
  verdict_of-build_record args device d (failed m) name line w e j h =
      rw (exit_of-result (build_record args device d (failed m)) line e) (verdict_of-failed name w)
