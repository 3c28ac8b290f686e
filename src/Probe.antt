-- ===== src/Probe.antt =====
-- src/probe/mod.rs: one side of a bandwidth test, its settings and the record that it prints.
pub mod Perftest
pub mod Run
pub mod Session
pub mod Printed
pub mod Verdict
use accelrd.Prelude.{
  ℕ, Bool, true, false, not, List, [], ◌∷◌, ◌++◌, Option, none, some, Text, codes, ◌=t◌, Result, ok,
  err, if◌then◌else◌, or_else, unwrap_or, keep_if, map_option, is_empty,
}
use accelrd.Prelude.Strings.{trim}
use accelrd.Prober.Settings.{env_string, env_u64}
use accelrd.Probe.Perftest.{Summary}

pub data ProbeMode : Type 0 where
  server client : ProbeMode

unfoldable pub mode_slug : ProbeMode → Text
mode_slug server = codes "server"
mode_slug client = codes "client"

-- `FromStr`; the debug form of the text in the message is a parameter.
unfoldable pub from_str : (debug : Text → Text) → Text → Result ProbeMode
from_str debug s =
    if s =t codes "server"
    then ok server
    else if s =t codes "client"
    then ok client
    else err (codes "invalid mode " ++ (debug s ++ codes "; expected 'server' or 'client'"))

pub record ProbeArgs : Type 0 where
  pub mode : ProbeMode
  pub server : Option Text
  pub device : Option Text
  pub duration_secs : Option ℕ
  pub connect_timeout_secs : Option ℕ
  pub otlp_endpoint : Option Text
  pub service_name : Option Text
  pub src_rack : Option Text
  pub partner_node : Option Text

pub record Resolved : Type 0 where
  pub mode : ProbeMode
  pub server : Option Text
  pub device : Option Text
  pub duration_secs : ℕ
  pub connect_timeout_secs : ℕ
  pub otlp_endpoint : Text
  pub service_name : Text
  pub src_rack : Option Text
  pub partner_node : Option Text

-- `var` is `std::env::var`.
module _ (var : Text → Option Text) where
  unfoldable pub resolve : ProbeArgs → Resolved
  unfolding env_string env_u64
  resolve a = record {
    mode = a.mode;
    server = or_else a.server (env_string var (codes "ACCELRD_PROBE_SERVER"));
    device = or_else a.device (env_string var (codes "ACCELRD_PROBE_DEVICE"));
    duration_secs =
        unwrap_or (or_else a.duration_secs (env_u64 var (codes "ACCELRD_PROBE_DURATION_SECS"))) 30;
    connect_timeout_secs =
        unwrap_or
          (or_else a.connect_timeout_secs
            (env_u64 var (codes "ACCELRD_PROBE_CONNECT_TIMEOUT_SECS")))
          60;
    otlp_endpoint =
        unwrap_or (or_else a.otlp_endpoint (env_string var (codes "ACCELRD_OTLP_ENDPOINT")))
          (codes "http://127.0.0.1:4318");
    service_name =
        unwrap_or (or_else a.service_name (env_string var (codes "OTEL_SERVICE_NAME")))
          (codes "accelrd-probe");
    src_rack = or_else a.src_rack (env_string var (codes "ACCELRD_PROBE_SRC_RACK"));
    partner_node = or_else a.partner_node (env_string var (codes "ACCELRD_PROBE_PARTNER_NODE"));
  }

  -- `read_to_string` is that of `std::fs`.
  unfoldable pub node_name : (read_to_string : Text → Option Text) → Text
  unfolding trim
  node_name read_to_string =
      unwrap_or
        (keep_if (λ s. not (is_empty s))
          (or_else (keep_if (λ s. not (is_empty s)) (var (codes "NODE_NAME"))) (
            or_else (keep_if (λ s. not (is_empty s)) (var (codes "HOSTNAME")))
              (map_option trim (read_to_string (codes "/proc/sys/kernel/hostname"))))))
        (codes "unknown")

-- `f64` is a type of the platform.
pub data Outcome (F64 : Type 0) : Type 0 where
  done : Summary F64 → Outcome F64
  failed : Text → Outcome F64

pub record Record (F64 : Type 0) : Type 0 where
  pub side : Text
  pub ok : Bool
  pub server : Option Text
  pub device : Text
  pub bytes : Option ℕ
  pub bw_peak_gbps : Option F64
  pub bw_avg_gbps : Option F64
  pub msg_rate_mpps : Option F64
  pub duration_s : F64
  pub message : Option Text
  pub src_rack : Option Text
  pub partner_node : Option Text

module _ {F64 : Type 0} where
  -- The record before the outcome is known.
  unfoldable pub common : Resolved → Text → F64 → Record F64
  unfolding mode_slug
  common args device duration_s = record {
    side = mode_slug args.mode;
    ok = false;
    server = args.server;
    device = device;
    bytes = none;
    bw_peak_gbps = none;
    bw_avg_gbps = none;
    msg_rate_mpps = none;
    duration_s = duration_s;
    message = none;
    src_rack = args.src_rack;
    partner_node = args.partner_node;
  }

  unfoldable pub build_record : Resolved → Text → F64 → Outcome F64 → Record F64
  unfolding common
  build_record args device duration_s (done s) = record (common args device duration_s) {
    ok = true;
    bytes = some s.bytes;
    bw_peak_gbps = some s.bw_peak_gbps;
    bw_avg_gbps = some s.bw_avg_gbps;
    msg_rate_mpps = some s.msg_rate_mpps;
  }
  build_record args device duration_s (failed msg) = record (common args device duration_s) {
    ok = false;
    message = some msg;
  }
