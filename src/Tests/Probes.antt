-- ===== src/Tests/Probes.antt =====
-- Probes against an API server whose pods get an address at once and end after four seconds.
use accelrd.Prelude.{
  cmp_text, text_ord, refl, ℕ, ◌≡◌, true, false, [], ◌∷◌, none, some, Text, codes, Result, leb,
  if◌then◌else◌, arith, ◌++◌,
}
use accelrd.Prober.Cluster.{Api, IsClock, World, Returns, found}
use accelrd.Prelude.Dict.{get, insert}
use accelrd.Prober.Config.{Resolved}
use accelrd.Prober.Results.{ProbeRecord}
use accelrd.Prober.Annotations.{Verdict}
use accelrd.Prober.Pods.{await_pod_ip, await_terminal}
use accelrd.Prober.Pods.Waiting.{
  IpAnswer, PhaseAnswer, await_pod_ip-Returns, await_terminal-Returns,
}
use accelrd.Prober.Template.{Template, resources_of, resources_of_lem}
use accelrd.Prober.Reconcile.{Libraries, probe_pair, probe_loopback}
use accelrd.Prober.Reconcile.Outcome.{
  all_deleted, pods, reports, PairReport, LoopbackReport, probe_pair-Returns,
  probe_loopback-Returns,
}

-- The outside is the time in milliseconds; a pod is its name.
abbrev api : Api ℕ Text
api = record {
  create = λ pod t. (Result.ok (some pod), t);
  get_pod = λ name t. (
    found (record {
      pod_ip = some (codes "10.0.0.7");
      phase = some (if leb 4000 t then codes "Succeeded" else codes "Running");
    }),
    t,
  );
  logs = λ name t. (some (codes "{\"side\":\"client\"}"), t);
  delete = λ name t. (true, t);
  patch_node = λ name body t. (true, t);
  now = λ t. t;
  sleep_until = λ until t. if leb until t then t else until;
  now_rfc3339 = λ t. codes "2026-05-07T00:00:00Z";
  unix_secs = λ t. 7;
}

api-IsClock : IsClock api
api-IsClock = record {
  sleep_reaches = λ t s. ground arith;
  get_pod_forward = λ name s. omega arith;
}

-- The record that every line in braces reads as, with bandwidths in whole gigabits.
abbrev measured : ProbeRecord ℕ
measured = record {
  side = codes "client";
  ok = true;
  server = none;
  device = codes "mlx5_0";
  bytes = none;
  bw_peak_gbps = some 95;
  bw_avg_gbps = some 90;
  msg_rate_mpps = none;
  duration_s = 5;
  message = none;
  src_rack = none;
  partner_node = none;
}

abbrev pub lib : Libraries ℕ
lib = record {
  from_str = λ line. some measured;
  fixed = λ digits v. v ∷ [];
  hash_hex = λ a b secs. a ++ b;
}

-- A pod is named after its template and its node.
abbrev from_value : Template → Result Text
from_value t = Result.ok (t.generate_name ++ t.node_name)

abbrev args : Resolved
args = record {
  otlp_endpoint = [];
  service_name = [];
  cadence_secs = 3600;
  reconcile_interval_secs = 60;
  probe_image = some (codes "probe");
  namespace = codes "accelrd";
  test_duration_secs = 5;
  max_concurrent_pairs = 4;
  probe_resources = (codes "squat.ai/infiniband", codes "1") ∷ [];
  once = false;
}

abbrev start : World ℕ
start = record { outside = 0; log = [] }

probe_pair-Returns_example :
    Returns (probe_pair api lib from_value args (codes "r1") (codes "a") (codes "b")) start (λ _ w.
      (all_deleted [] (pods w.log) ≡ true)
      × (v : Verdict ℕ) × PairReport lib.fixed
          (codes "r1")
          (codes "a")
          (codes "b")
          v
          (reports w.log))
probe_pair-Returns_example =
    probe_pair-Returns api api-IsClock lib from_value args 0 (codes "r1") (codes "a") (codes "b")

probe_loopback-Returns_example :
    Returns (probe_loopback api lib from_value args (codes "r1") (codes "a")) start (λ _ w.
      (all_deleted [] (pods w.log) ≡ true)
      × (v : Verdict ℕ) × LoopbackReport lib.fixed (codes "r1") (codes "a") v (reports w.log))
probe_loopback-Returns_example =
    probe_loopback-Returns api api-IsClock lib from_value args 0 (codes "r1") (codes "a")

await_pod_ip-Returns_example :
    Returns (await_pod_ip api (codes "a-s") 60000) start (IpAnswer api (codes "a-s") 60000 start)
await_pod_ip-Returns_example =
    await_pod_ip-Returns api api-IsClock (codes "a-s") 60000 start (omega arith)

await_terminal-Returns_example :
    Returns
      (await_terminal api (codes "a-c") 125000)
      start
      (PhaseAnswer api (codes "a-c") 125000 start)
await_terminal-Returns_example =
    await_terminal-Returns api api-IsClock (codes "a-c") 125000 start (omega arith)

resources_of_lem_example :
    get (codes "squat.ai/infiniband") (resources_of args).requests
    ≡ get (codes "squat.ai/infiniband") (resources_of args).limits
unfolding cmp_text
resources_of_lem_example = resources_of_lem args (codes "squat.ai/infiniband") refl refl

requested : get (codes "squat.ai/infiniband") (resources_of args).requests ≡ some (codes "1")
unfolding resources_of get cmp_text insert
requested = refl
