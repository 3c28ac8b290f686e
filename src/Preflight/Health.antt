-- ===== src/Preflight/Health.antt =====
-- src/preflight/health.rs and placeholder.rs: the checks, with the readings that they attach, and
-- `default_registry` of src/preflight/mod.rs.
pub mod Disks
pub mod Registry
use accelrd.Prelude.{
  ℕ, ◌+◌, ◌-◌, ◌*◌, ◌^◌, Bool, true, false, not, ◌||◌, ◌++◌, List, [], ◌∷◌, Option, none, some,
  Text, codes, ◌=t◌, any, keep, foldl, find, map_option, unwrap_or, starts_with, ltb, if◌then◌else◌,
}
use accelrd.Prelude.Decimal.{show_number}
use accelrd.Sensors.{
  Vendor, amd, nvidia, intel, other, vendor_slug, Coverage, full, identification_only, failed,
  AcceleratorId, Accelerator, Measurement, Floats,
}
use accelrd.Sensors.Common.{join_path, read_u64}
use accelrd.Sensors.Sysfs.{Fs, file_name, hwmon_temperature_celsius}
use accelrd.Sensors.Host.{snapshot}
use accelrd.Preflight.{
  CheckScope, single_accelerator, node_local, Status, pass, warn, fail, skipped, CheckOutcome,
  PreflightCheck,
}

-- `CheckOutcome` with its measurements.
pub record Outcome (F64 : Type 0) : Type 0 where
  pub outcome : CheckOutcome
  pub measurements : List (Measurement F64)

pub record Check (F64 : Type 0) : Type 0 where
  pub name : Text
  pub scope : CheckScope
  pub run : Option Accelerator → Outcome F64

-- The check as the cycle runs it; the default `applies_to` holds for every accelerator.
abbrev pub without_measurements : {F64 : Type 0} → Check F64 → PreflightCheck
without_measurements c = record {
  name = c.name;
  scope = c.scope;
  applies_to = λ _. true;
  run = λ a. (c.run a).outcome;
}

-- The bytes of ` °C`, ` ≥ ` and ` — `.
abbrev degrees : Text
degrees = 0x20 ∷ 0xc2 ∷ 0xb0 ∷ 0x43 ∷ []

abbrev at_least : Text
at_least = 0x20 ∷ 0xe2 ∷ 0x89 ∷ 0xa5 ∷ 0x20 ∷ []

abbrev long_dash : Text
long_dash = 0x20 ∷ 0xe2 ∷ 0x80 ∷ 0x94 ∷ 0x20 ∷ []

unfoldable pub expected_driver : Vendor → Text
expected_driver amd = codes "amdgpu"
expected_driver nvidia = codes "nvidia"
expected_driver intel = codes "i915 or xe"
expected_driver other = codes "?"

unfoldable pub accepts_driver : Vendor → Text → Bool
accepts_driver amd name = name =t codes "amdgpu"
accepts_driver nvidia name = name =t codes "nvidia"
accepts_driver intel name = name =t codes "i915" || name =t codes "xe"
accepts_driver other name = false

-- `Display` of an id.
unfoldable pub show_id : AcceleratorId → Text
unfolding show_number vendor_slug
show_id id =
    codes "card"
    ++ (show_number id.drm_index
        ++ (codes " [" ++ (id.pci_addr ++ (codes "] " ++ vendor_slug id.vendor))))

module _ {F64 : Type 0} where
  -- The constructors of `CheckOutcome`.
  abbrev pub plain : Status → Option Text → Outcome F64
  plain status message = record {
    outcome = record { status = status; message = message };
    measurements = [];
  }

  -- `accel_or_skip!`
  abbrev pub accel_or_skip : (Accelerator → Outcome F64) → Option Accelerator → Outcome F64
  accel_or_skip run none = plain skipped none
  accel_or_skip run (some a) = run a

  abbrev pub measured : Status → Option Text → List (Measurement F64) → Outcome F64
  measured status message measurements = record {
    outcome = record { status = status; message = message };
    measurements = measurements;
  }

  unfoldable pub sensor_readable_on : Accelerator → Coverage → Outcome F64
  unfolding show_id
  sensor_readable_on a failed =
      plain fail (some (codes "sensor backend reports Failed coverage for " ++ show_id a.id))
  sensor_readable_on a identification_only = plain pass none
  sensor_readable_on a full = plain pass none

  unfoldable pub sensor_readable : Check F64
  unfolding sensor_readable_on
  sensor_readable = record {
    name = codes "sensor.readable";
    scope = single_accelerator;
    run = accel_or_skip (λ a. sensor_readable_on a a.coverage);
  }

  unfoldable pub always_pass : Check F64
  always_pass = record {
    name = codes "placeholder.always_pass";
    scope = single_accelerator;
    run = λ _. plain pass (some (codes "placeholder check; real preflights TBD"));
  }

module _ {F64 : Type 0} (fs : Fs) (f : Floats F64) where
  abbrev has_render_node : Option (List Text) → Bool
  has_render_node none = false
  has_render_node (some entries) = any (λ e. starts_with e (codes "renderD")) entries

  unfoldable pub drm_render_node_present : Check F64
  unfolding join_path starts_with
  drm_render_node_present = record {
    name = codes "drm.render_node_present";
    scope = single_accelerator;
    run = accel_or_skip λ a.
        let drm_dir = join_path a.device_dir (codes "drm") in
        if has_render_node (fs.read_dir drm_dir)
        then plain pass none
        else plain fail (some (codes "no renderD node under " ++ drm_dir));
  }

  -- The three arms on a temperature.
  unfoldable pub judge_temperature : (threshold temp_c : F64) → Outcome F64
  judge_temperature threshold temp_c =
      let measurements =
        record {
          name = codes "accel.preflight.temperature";
          unit = codes "Cel";
          value = temp_c;
          attrs = [];
        }
        ∷ [] in
      if f.ge temp_c threshold
      then measured fail
          (some (
            codes "temperature "
            ++ (f.show_tenths temp_c
                ++ ((degrees ++ at_least)
                    ++ (f.show threshold ++ (degrees ++ codes " threshold"))))))
          measurements
      else if f.ge temp_c (f.sub threshold (f.of_nat 10))
      then measured warn
          (some (
            codes "temperature "
            ++ (f.show_tenths temp_c
                ++ (degrees ++ (codes " is within 10" ++ (degrees ++ codes " of threshold"))))))
          measurements
      else measured pass none measurements

  unfoldable pub temperature_below_throttle : (threshold : F64) → Check F64
  unfolding hwmon_temperature_celsius judge_temperature
  temperature_below_throttle threshold = record {
    name = codes "temperature.below_throttle";
    scope = single_accelerator;
    run = accel_or_skip λ a. elim (hwmon_temperature_celsius fs f a.device_dir) [
      | none ↦ plain skipped (some (codes "no hwmon temp1_input on this accelerator"))
      | some temp_c ↦ judge_temperature threshold temp_c
    ];
  }

  -- A floor under a number of bytes: fails with the message below it.
  unfoldable pub judge_floor :
      (name : Text) (attrs : List (Text × Text)) (value floor : ℕ) (message : Text) → Outcome F64
  judge_floor name attrs value floor message =
      let measurements =
        record { name = name; unit = codes "By"; value = f.of_nat value; attrs = attrs } ∷ [] in
      if ltb value floor
      then measured fail (some message) measurements
      else measured pass none measurements

  unfoldable pub floor_of : (min_free_bytes : ℕ) → Accelerator → Outcome F64
  unfolding read_u64 join_path judge_floor show_number
  floor_of min_free_bytes a =
      elim (read_u64 fs.read (join_path a.device_dir (codes "mem_info_vram_total"))) [
        | none ↦ plain skipped (some (codes "missing mem_info_vram_total"))
        | some total ↦
            let free =
              total
              - unwrap_or (read_u64 fs.read (join_path a.device_dir (codes "mem_info_vram_used")))
                  0 in
            judge_floor (codes "accel.preflight.memory.free") [] free min_free_bytes (
              codes "free "
              ++ (show_number free
                  ++ (codes " < required " ++ (show_number min_free_bytes ++ codes " bytes"))))
      ]

  unfoldable pub memory_floor_on : ℕ → Accelerator → Coverage → Outcome F64
  unfolding floor_of
  memory_floor_on min_free_bytes a identification_only =
      plain skipped (some (codes "identification-only sensor cannot report free memory"))
  memory_floor_on min_free_bytes a full = floor_of min_free_bytes a
  memory_floor_on min_free_bytes a failed = floor_of min_free_bytes a

  unfoldable pub memory_floor : (min_free_bytes : ℕ) → Check F64
  unfolding memory_floor_on
  memory_floor min_free_bytes = record {
    name = codes "memory.floor";
    scope = single_accelerator;
    run = accel_or_skip (λ a. memory_floor_on min_free_bytes a a.coverage);
  }

  unfoldable pub driver_loaded_on : Accelerator → Option Text → Outcome F64
  unfolding file_name accepts_driver expected_driver
  driver_loaded_on a none = plain fail (
      some
        (codes "device/driver symlink missing" ++ (long_dash ++ codes "kernel module not bound?")))
  driver_loaded_on a (some target) =
      let driver_name = unwrap_or (file_name target) (codes "?") in
      if accepts_driver a.id.vendor driver_name
      then plain pass none
      else plain warn (
          some (
            codes "driver="
            ++ (driver_name ++ (codes ", expected " ++ expected_driver a.id.vendor))))

  unfoldable pub driver_loaded : Check F64
  unfolding join_path driver_loaded_on
  driver_loaded = record {
    name = codes "driver.loaded";
    scope = single_accelerator;
    run =
        accel_or_skip
          (λ a. driver_loaded_on a (fs.read_link (join_path a.device_dir (codes "driver"))));
  }

  abbrev pub named : Text → Measurement F64 → Bool
  named name m = m.name =t name

  unfoldable pub memory_available_on :
      (min_available_bytes : ℕ) → List (Measurement F64) → Outcome F64
  unfolding judge_floor show_number
  memory_available_on min_available_bytes snap =
      elim (find (named (codes "host.memory.available_bytes")) snap) [
        | none ↦ plain skipped (some (codes "MemAvailable unreadable from /proc/meminfo"))
        | some m ↦
            judge_floor (codes "host.preflight.memory.available") [] (f.to_nat m.value)
              min_available_bytes
              (codes "MemAvailable "
                ++ (show_number (f.to_nat m.value)
                    ++ (codes " < required "
                        ++ (show_number min_available_bytes ++ codes " bytes"))))
      ]

  unfoldable pub host_memory_available : (min_available_bytes : ℕ) → Check F64
  unfolding snapshot memory_available_on
  host_memory_available min_available_bytes = record {
    name = codes "host.memory.available";
    scope = node_local;
    run = λ _. memory_available_on min_available_bytes (snapshot fs f);
  }

  abbrev mount_attr : List (Text × Text) → Text
  mount_attr attrs =
      unwrap_or (map_option (λ kv. kv.1) (find (λ kv. kv.0 =t codes "mount") attrs)) []

  -- The loop over the free bytes of the mounts.
  unfoldable pub better : Option (Text × ℕ) → Measurement F64 → Option (Text × ℕ)
  better none m = some (mount_attr m.attrs, f.to_nat m.value)
  better (some (mount, bytes)) m =
      if ltb bytes (f.to_nat m.value)
      then some (mount_attr m.attrs, f.to_nat m.value)
      else some (mount, bytes)

  unfoldable pub best_mount : List (Measurement F64) → Option (Text × ℕ)
  unfolding better
  best_mount snap = foldl better none (keep (named (codes "host.disk.free_bytes")) snap)

  unfoldable pub disk_free_on : (min_free_bytes : ℕ) → Option (Text × ℕ) → Outcome F64
  unfolding judge_floor show_number
  disk_free_on min_free_bytes none =
      plain skipped (some (codes "no real-filesystem mounts found in /proc/self/mountinfo"))
  disk_free_on min_free_bytes (some (mount, free)) =
      judge_floor (codes "host.preflight.disk.free") ((codes "mount", mount) ∷ []) free
        min_free_bytes
        (codes "largest mount "
          ++ (mount
              ++ (codes " has "
                  ++ (show_number free
                      ++ (codes " free < required "
                          ++ (show_number min_free_bytes ++ codes " bytes"))))))

  unfoldable pub host_disk_free : (min_free_bytes : ℕ) → Check F64
  unfolding snapshot best_mount disk_free_on
  host_disk_free min_free_bytes = record {
    name = codes "host.disk.free";
    scope = node_local;
    run = λ _. disk_free_on min_free_bytes (best_mount (snapshot fs f));
  }

  unfoldable pub default_registry : List (Check F64)
  unfolding sensor_readable drm_render_node_present driver_loaded temperature_below_throttle
      memory_floor host_memory_available host_disk_free always_pass
  default_registry =
      sensor_readable
      ∷ drm_render_node_present
      ∷ driver_loaded
      ∷ temperature_below_throttle (f.of_nat 95)
      ∷ memory_floor (2 ^ 30)
      ∷ host_memory_available (24 * 2 ^ 30)
      ∷ host_disk_free (200 * 2 ^ 30)
      ∷ always_pass
      ∷ []
