-- ===== src/Prober/Config.antt =====
-- src/prober/mod.rs: the resolved settings of the prober.
use accelrd.Prelude.{ℕ, Bool, List, Option, Text}

pub record Resolved : Type 0 where
  pub otlp_endpoint : Text
  pub service_name : Text
  pub cadence_secs : ℕ
  pub reconcile_interval_secs : ℕ
  pub probe_image : Option Text
  pub namespace : Text
  pub test_duration_secs : ℕ
  pub max_concurrent_pairs : ℕ
  pub probe_resources : List (Text × Text)
  pub once : Bool
