-- ===== src/Sensors/Amd.antt =====
-- src/sensors/amd.rs: the cards of amdgpu and their readings.
use accelrd.Prelude.{
  ℕ, ◌++◌, List, [], ◌∷◌, Option, none, some, Text, codes, and_then, keep_if, unwrap_or, is_empty,
  not, ltb, if◌then◌else◌, false, ◌^◌,
}
use accelrd.Prelude.Strings.{parse_below}
use accelrd.Sensors.{amd, MemoryKind, dedicated, unknown, full, Accelerator, Measurement, Floats}
use accelrd.Sensors.Common.{join_path, read_u64}
use accelrd.Sensors.Sysfs.{
  Fs, file_name, flat_map, show_hex4, read_hex_u16, read_i32, read_string_first_line,
  read_local_cpus, pci_addr_from_device_dir, hwmon_dirs, enumerate_for_vendor, measurement,
  sensor_health,
}

module _ (fs : Fs) where
  unfoldable pub classify_memory : Text → MemoryKind × Option ℕ
  unfolding read_u64 join_path
  classify_memory device_dir =
      let vram_total =
        unwrap_or (read_u64 fs.read (join_path device_dir (codes "mem_info_vram_total"))) 0 in
      if ltb 0 vram_total then (dedicated, some vram_total) else (unknown, none)

  unfoldable pub amd_model_name : ℕ → Text → Text
  unfolding read_string_first_line join_path show_hex4
  amd_model_name device_id device_dir =
      unwrap_or
        (keep_if (λ s. not (is_empty s))
          (read_string_first_line fs (join_path device_dir (codes "product_name"))))
        (codes "AMD device " ++ show_hex4 device_id)

  unfoldable pub hwmon_label : Text → Text → Text
  unfolding read_string_first_line join_path
  hwmon_label hw prefix =
      unwrap_or (read_string_first_line fs (join_path hw (prefix ++ codes "_label"))) prefix

  unfoldable pub build_accelerator : ℕ → Text → Accelerator
  unfolding read_hex_u16 pci_addr_from_device_dir classify_memory amd_model_name read_i32
      read_local_cpus join_path file_name parse_below
  build_accelerator drm_index device_dir =
      let device_id = unwrap_or (read_hex_u16 fs (join_path device_dir (codes "device"))) 0 in
      let memory = classify_memory device_dir in
      record {
        id = record {
          vendor = amd;
          drm_index = drm_index;
          pci_addr = unwrap_or (pci_addr_from_device_dir fs device_dir) [];
        };
        model = amd_model_name device_id device_dir;
        memory_kind = memory.0;
        memory_total_bytes = memory.1;
        local_cpus = read_local_cpus fs device_dir;
        numa_node = read_i32 fs (join_path device_dir (codes "numa_node"));
        iommu_group =
            and_then (fs.read_link (join_path device_dir (codes "iommu_group")))
              (λ p. and_then (file_name p) (parse_below (2 ^ 32)));
        coverage = full;
        fabric_domain = none;
        partitioned = false;
        device_dir = device_dir;
      }

  unfoldable pub enumerate : List Accelerator
  unfolding enumerate_for_vendor build_accelerator
  enumerate = enumerate_for_vendor fs amd build_accelerator

-- The files of the diagnostic memory metrics and their names.
abbrev diagnostic_memory_metrics : List (Text × Text)
diagnostic_memory_metrics =
    (codes "mem_info_gtt_total", codes "accel.memory.gtt.total")
    ∷ (codes "mem_info_gtt_used", codes "accel.memory.gtt.used")
    ∷ (codes "mem_info_visible_vram_total", codes "accel.memory.visible_vram.total")
    ∷ []

-- `if let Some(v) = .. { m.push(..) }`
abbrev pub reading : {F64 : Type 0} → (ℕ → Measurement F64) → Option ℕ → List (Measurement F64)
reading f none = []
reading f (some v) = f v ∷ []

module _ {F64 : Type 0} (fs : Fs) (f : Floats F64) where
  unfoldable pub hwmon_readings : Text → List (Measurement F64)
  unfolding read_u64 join_path hwmon_label
  hwmon_readings hw =
      reading
        (λ t. record {
          name = codes "accel.temperature";
          unit = codes "Cel";
          value = f.div (f.of_nat t) (f.of_nat 1000);
          attrs = (codes "sensor", hwmon_label fs hw (codes "temp1")) ∷ [];
        })
        (read_u64 fs.read (join_path hw (codes "temp1_input")))
      ++ reading
          (λ p.
            measurement fs f (codes "accel.power.usage") (codes "W")
              (f.div (f.of_nat p) (f.of_nat 1000000)))
          (read_u64 fs.read (join_path hw (codes "power1_average")))

  unfoldable pub snapshot : Accelerator → List (Measurement F64)
  unfolding read_u64 join_path hwmon_dirs flat_map hwmon_readings sensor_health
  snapshot accel =
      let dir = accel.device_dir in
      reading (λ v. measurement fs f (codes "accel.memory.total") (codes "By") (f.of_nat v))
        (read_u64 fs.read (join_path dir (codes "mem_info_vram_total")))
      ++ reading (λ v. measurement fs f (codes "accel.memory.used") (codes "By") (f.of_nat v))
          (read_u64 fs.read (join_path dir (codes "mem_info_vram_used")))
      ++ flat_map
          (λ d.
            reading (λ v. measurement fs f d.1 (codes "By") (f.of_nat v))
              (read_u64 fs.read (join_path dir d.0)))
          diagnostic_memory_metrics
      ++ reading
          (λ v.
            measurement fs f (codes "accel.utilization") (codes "1")
              (f.div (f.of_nat v) (f.of_nat 100)))
          (read_u64 fs.read (join_path dir (codes "gpu_busy_percent")))
      ++ flat_map hwmon_readings (hwmon_dirs fs dir)
      ++ sensor_health fs f dir amd ∷ []
