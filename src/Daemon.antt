-- ===== src/Daemon.antt =====
-- The daemon's settings, of src/config.rs, the node's name and the use of Kubernetes, of src/k8s, and the start of `run` in src/lifecycle.rs.
pub mod Placed
use accelrd.Prelude.{
  ℕ, Bool, not, ◌&&◌, List, Option, some, Text, codes, is_empty, is_some, or_else, unwrap_or,
  map_option, keep_if,
}
use accelrd.Prelude.Strings.{trim}
use accelrd.Prober.Settings.{env_string, env_u64}
use accelrd.Sensors.{AcceleratorId, Accelerator}
use accelrd.Sensors.Sysfs.{Fs}
use accelrd.Sensors.Inventory.{enumerate_all}
use accelrd.Topology.{LldpNeighbor, NodeTopology}
use accelrd.Topology.Discover.Domains.{Seen, Settings, discover}

pub record Args : Type 0 where
  pub otlp_endpoint : Option Text
  pub live_interval_secs : Option ℕ
  pub preflight_interval_secs : Option ℕ
  pub block : Option Text
  pub rack : Option Text
  pub service_name : Option Text
  pub node_name : Option Text
  pub once : Bool
  pub no_k8s : Bool
  pub no_lldp : Bool
  pub lldp_timeout_secs : Option ℕ

pub record Resolved : Type 0 where
  pub otlp_endpoint : Text
  pub live_interval_secs : ℕ
  pub preflight_interval_secs : ℕ
  pub block : Option Text
  pub rack : Option Text
  pub service_name : Text
  pub node_name : Option Text
  pub once : Bool
  pub no_k8s : Bool
  pub no_lldp : Bool
  pub lldp_timeout_secs : ℕ

module _ (var : Text → Option Text) where
  unfoldable pub resolve : Args → Resolved
  unfolding env_string env_u64
  resolve a = record {
    otlp_endpoint =
        unwrap_or (or_else a.otlp_endpoint (env_string var (codes "ACCELRD_OTLP_ENDPOINT")))
          (codes "http://127.0.0.1:4318");
    live_interval_secs =
        unwrap_or (or_else a.live_interval_secs (env_u64 var (codes "ACCELRD_LIVE_INTERVAL_SECS")))
          5;
    preflight_interval_secs =
        unwrap_or
          (or_else a.preflight_interval_secs
            (env_u64 var (codes "ACCELRD_PREFLIGHT_INTERVAL_SECS")))
          30;
    block = or_else a.block (env_string var (codes "ACCELRD_BLOCK"));
    rack = or_else a.rack (env_string var (codes "ACCELRD_RACK"));
    service_name =
        unwrap_or (or_else a.service_name (env_string var (codes "OTEL_SERVICE_NAME")))
          (codes "accelrd");
    node_name = or_else a.node_name (env_string var (codes "NODE_NAME"));
    once = a.once;
    no_k8s = a.no_k8s;
    no_lldp = a.no_lldp;
    lldp_timeout_secs =
        unwrap_or (or_else a.lldp_timeout_secs (env_u64 var (codes "ACCELRD_LLDP_TIMEOUT_SECS")))
          60;
  }

  unfoldable pub node_name : (read : Text → Option Text) → Resolved → Text
  unfolding trim
  node_name read args =
      unwrap_or
        (or_else args.node_name (
          or_else (keep_if (λ s. not (is_empty s)) (var (codes "NODE_NAME"))) (
            keep_if (λ s. not (is_empty s))
              (map_option trim (read (codes "/proc/sys/kernel/hostname"))))))
        (codes "unknown")

  -- `exists` is that of `Path`; `is_set` tells of a variable, whatever its value.
  unfoldable pub looks_in_cluster : (exists is_set : Text → Bool) → Bool
  looks_in_cluster exists is_set =
      exists (codes "/var/run/secrets/kubernetes.io/serviceaccount/token")
      && is_set (codes "KUBERNETES_SERVICE_HOST")

  unfoldable pub enabled : (exists is_set : Text → Bool) → Resolved → Bool
  unfolding looks_in_cluster
  enabled exists is_set args = not args.no_k8s && looks_in_cluster exists is_set

module _ (fs : Fs) (var : Text → Option Text) (hash : List Text → ℕ)
    (keys_order : List AcceleratorId → List AcceleratorId)
    (values_order : List Seen → List Seen) where
  -- `run` up to the inventory: what the sensors find, and its places in the topology.
  unfoldable pub inventory :
      Resolved → (heard : List LldpNeighbor) → NodeTopology × List Accelerator
  unfolding enumerate_all discover
  inventory args heard =
      discover fs var hash keys_order values_order
        (record { block = args.block; rack = args.rack; no_lldp = args.no_lldp }) heard
        (enumerate_all fs)
