-- ===== src/Preflight.antt =====
-- src/preflight/mod.rs and the cycle of src/telemetry/preflight.rs.
pub mod Cycle
pub mod Publishing
pub mod Aggregate
pub mod Health
use accelrd.Prelude.{
  ℕ, Bool, true, false, not, ◌||◌, List, [], ◌∷◌, Option, none, some, Text, codes, any,
  if◌then◌else◌,
}
use accelrd.Sensors.{Accelerator}

pub data CheckScope : Type 0 where
  single_accelerator node_local node_topology cluster : CheckScope

pub data Status : Type 0 where
  pass warn fail skipped : Status

unfoldable pub status_slug : Status → Text
status_slug pass = codes "pass"
status_slug warn = codes "warn"
status_slug fail = codes "fail"
status_slug skipped = codes "skipped"

pub record CheckOutcome : Type 0 where
  pub status : Status
  pub message : Option Text

-- `PreflightCheck`, with what `run` answers for an accelerator or for none.
pub record PreflightCheck : Type 0 where
  pub name : Text
  pub scope : CheckScope
  pub applies_to : Accelerator → Bool
  pub run : Option Accelerator → CheckOutcome

pub data NodeReadiness : Type 0 where
  ready degraded not_ready unknown : NodeReadiness

unfoldable pub label_value : NodeReadiness → Text
label_value ready = codes "true"
label_value degraded = codes "degraded"
label_value not_ready = codes "false"
label_value unknown = codes "unknown"

abbrev pub is_bad : Status → Bool
is_bad fail = true
is_bad warn = true
is_bad _ = false

abbrev pub is_pass : Status → Bool
is_pass pass = true
is_pass _ = false

unfoldable pub aggregate : List Status → NodeReadiness
aggregate outcomes =
    if any is_bad outcomes then degraded else if any is_pass outcomes then ready else unknown
