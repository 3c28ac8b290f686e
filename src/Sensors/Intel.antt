-- ===== src/Sensors/Intel.antt =====
-- src/sensors/intel.rs: the cards of i915 and Xe and their readings.
use accelrd.Prelude.{
  ℕ, ◌++◌, List, [], ◌∷◌, none, some, Text, codes, unwrap_or, ltb, if◌then◌else◌, false,
}
use accelrd.Sensors.{intel, dedicated, unified, full, Accelerator, Measurement, Floats}
use accelrd.Sensors.Common.{join_path, read_u64}
use accelrd.Sensors.Amd.{reading}
use accelrd.Sensors.Sysfs.{
  Fs, flat_map, bar_at, show_hex4, read_hex_u16, read_i32, read_pci_bars, read_local_cpus,
  pci_addr_from_device_dir, hwmon_dirs, enumerate_for_vendor, measurement, sensor_health,
}

abbrev arc_discrete_vram_floor : ℕ
arc_discrete_vram_floor = 1073741824

module _ (fs : Fs) where
  unfoldable pub build_accelerator : ℕ → Text → Accelerator
  unfolding read_hex_u16 pci_addr_from_device_dir read_pci_bars read_i32 read_local_cpus join_path
      show_hex4
  build_accelerator drm_index device_dir =
      let device_id = unwrap_or (read_hex_u16 fs (join_path device_dir (codes "device"))) 0 in
      let bar2 = bar_at 2 (read_pci_bars fs device_dir) in
      record {
        id = record {
          vendor = intel;
          drm_index = drm_index;
          pci_addr = unwrap_or (pci_addr_from_device_dir fs device_dir) [];
        };
        model = codes "Intel device " ++ show_hex4 device_id;
        memory_kind = if ltb arc_discrete_vram_floor bar2 then dedicated else unified;
        memory_total_bytes = if ltb arc_discrete_vram_floor bar2 then some bar2 else none;
        local_cpus = read_local_cpus fs device_dir;
        numa_node = read_i32 fs (join_path device_dir (codes "numa_node"));
        iommu_group = none;
        coverage = full;
        fabric_domain = none;
        partitioned = false;
        device_dir = device_dir;
      }

  unfoldable pub enumerate : List Accelerator
  unfolding enumerate_for_vendor build_accelerator
  enumerate = enumerate_for_vendor fs intel build_accelerator

module _ {F64 : Type 0} (fs : Fs) (f : Floats F64) where
  unfoldable pub hwmon_readings : Text → List (Measurement F64)
  unfolding read_u64 join_path
  hwmon_readings hw =
      reading
        (λ t.
          measurement fs f (codes "accel.temperature") (codes "Cel")
            (f.div (f.of_nat t) (f.of_nat 1000)))
        (read_u64 fs.read (join_path hw (codes "temp1_input")))
      ++ reading
          (λ p.
            measurement fs f (codes "accel.power.usage") (codes "W")
              (f.div (f.of_nat p) (f.of_nat 1000000)))
          (read_u64 fs.read (join_path hw (codes "power1_input")))

  unfoldable pub snapshot : Accelerator → List (Measurement F64)
  unfolding hwmon_dirs flat_map hwmon_readings sensor_health
  snapshot accel =
      reading (λ v. measurement fs f (codes "accel.memory.total") (codes "By") (f.of_nat v))
        accel.memory_total_bytes
      ++ flat_map hwmon_readings (hwmon_dirs fs accel.device_dir)
      ++ sensor_health fs f accel.device_dir intel ∷ []
