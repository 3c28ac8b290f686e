-- ===== src/Tests/Verdicts.antt =====
-- The verdict on a client pod whose probe measured ninety gigabits.
use accelrd.Prelude.{
  ℕ, ◌≡◌, refl, true, false, [], ◌∷◌, Option, none, some, Text, codes, ◌=t◌, Result, ok, arith,
  if◌then◌else◌, map_option, starts_with,
}
use accelrd.Prelude.Strings.{ends_with, trim}
use accelrd.Prober.Config
use accelrd.Prober.Template.{Template}
use accelrd.Prober.Results.{ProbeRecord}
use accelrd.Prober.Cluster.{Api, World, missing}
use accelrd.Prober.Reconcile.{Libraries, verdict_of}
use accelrd.Probe.{Resolved, ProbeMode, Outcome, Record, done, build_record}
use accelrd.Probe.Session.{exit_of}
use accelrd.Probe.Printed.{IsNoise, IsJson}
use accelrd.Probe.Verdict.{as_read, phase_of, expected, Logged, verdict_of-build_record}

abbrev args : Resolved
args = record {
  mode = ProbeMode.client;
  server = some (codes "10.0.0.7");
  device = none;
  duration_secs = 30;
  connect_timeout_secs = 60;
  otlp_endpoint = codes "http://127.0.0.1:4318";
  service_name = codes "accelrd-probe";
  src_rack = some (codes "r1");
  partner_node = some (codes "n2");
}

abbrev outcome : Outcome ℕ
outcome = done (record {
  bytes = 65536;
  iterations = 5000;
  bw_peak_gbps = 90;
  bw_avg_gbps = 89;
  msg_rate_mpps = 0;
})

abbrev record_of_run : Record ℕ
record_of_run = record {
  side = codes "client";
  ok = true;
  server = some (codes "10.0.0.7");
  device = codes "mlx5_0";
  bytes = some 65536;
  bw_peak_gbps = some 90;
  bw_avg_gbps = some 89;
  msg_rate_mpps = some 0;
  duration_s = 31;
  message = none;
  src_rack = some (codes "r1");
  partner_node = some (codes "n2");
}

-- A writer and a reader that know one record.
abbrev to_string : Record ℕ → Option Text
to_string _ = some (codes "{1}")

from_str : Text → Option (ProbeRecord ℕ)
unfolding ◌=t◌
from_str line = if line =t codes "{1}" then some (as_read record_of_run) else none

abbrev lib : Libraries ℕ
lib = record { from_str = from_str; fixed = λ n v. []; hash_hex = λ a b n. [] }

abbrev api : Api ℕ Text
api = record {
  create = λ pod t. (ok (some pod), t);
  get_pod = λ name t. (missing, t);
  logs = λ name t. (some (codes "starting\n{1}\nbye\n"), t);
  delete = λ name t. (true, t);
  patch_node = λ name body t. (true, t);
  now = λ t. t;
  sleep_until = λ until t. t;
  now_rfc3339 = λ t. [];
  unix_secs = λ t. 7;
}

abbrev from_value : Template → Result Text
from_value _ = ok []

abbrev settings : Config.Resolved
settings = record {
  otlp_endpoint = [];
  service_name = [];
  cadence_secs = 21600;
  reconcile_interval_secs = 300;
  probe_image = none;
  namespace = codes "accelrd";
  test_duration_secs = 30;
  max_concurrent_pairs = 4;
  probe_resources = [];
  once = false;
}

abbrev world : World ℕ
world = record { outside = 0; log = [] }

json : IsJson from_str (codes "{1}") (as_read (build_record args (codes "mlx5_0") 31 outcome))
unfolding from_str build_record starts_with ends_with
json = record { is_line = omega arith; opens = refl; closes = refl; reads = refl }

starting : IsNoise from_str (codes "starting")
unfolding from_str trim starts_with
starting = record { is_line = omega arith; no_record = refl }

logged :
    Logged api lib from_value settings 0 to_string
      (codes "p")
      (exit_of 0 to_string (build_record args (codes "mlx5_0") 31 outcome))
      0
unfolding exit_of build_record
logged = record {
  before = codes "starting" ∷ [];
  after = codes "bye\n";
  noise = (starting, tt);
  log = refl;
}

verdict_of-build_record_example :
    map_option
      (λ p. p.0)
      (verdict_of api lib from_value settings
        (phase_of (exit_of 0 to_string (build_record args (codes "mlx5_0") 31 outcome)).result)
        (codes "p")
        world)
    ≡ some (expected (build_record args (codes "mlx5_0") 31 outcome) outcome)
verdict_of-build_record_example =
    verdict_of-build_record api lib from_value settings 0 to_string args (codes "mlx5_0") 31 outcome
      (codes "p") (codes "{1}") world refl json logged
