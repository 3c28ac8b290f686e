-- ===== src/Sensors/Nvidia.antt =====
-- src/sensors/nvidia.rs: the cards of the Nvidia drivers and their readings.
use accelrd.Prelude.{
  ℕ, ◌+◌, ◌++◌, List, [], ◌∷◌, Option, none, some, Text, codes, text_ord, ◌=t◌, map, foldl,
  and_then, unwrap_or, ltb, leb, ◌&&◌, if◌then◌else◌, false,
}
use accelrd.Prelude.Dict.{Dict, get, insert}
use accelrd.Prelude.Strings.{split_once, trim, lines}
use accelrd.Sensors.{
  nvidia, dedicated, unknown, identification_only, Accelerator, Measurement, Floats,
}
use accelrd.Sensors.Common.{join_path}
use accelrd.Sensors.Amd.{reading}
use accelrd.Sensors.Sysfs.{
  Fs, find_map, bar_at, show_hex4, read_hex_u16, read_i32, read_pci_bars, read_local_cpus,
  pci_addr_from_device_dir, hwmon_temperature_celsius, enumerate_for_vendor, measurement,
  sensor_health,
}

-- `to_ascii_lowercase`
unfoldable pub to_ascii_lowercase : Text → Text
to_ascii_lowercase s = map (λ c. if leb b'A' c && leb c b'Z' then c + 32 else c) s

-- The value after the key of a line.
abbrev field_of : Text → Option (Text × Text) → Option Text
field_of key none = none
field_of key (some kv) = if trim kv.0 =t key then some (trim kv.1) else none

unfoldable pub parse_nvidia_info_field : (text key : Text) → Option Text
unfolding lines split_once trim
parse_nvidia_info_field text key =
    find_map (λ line. field_of key (split_once b':' line)) (lines text)

-- `HashMap::insert` where there is a model.
abbrev insert_some : Text → Option Text → Dict Text Text → Dict Text Text
insert_some bus none out = out
insert_some bus (some model) out = insert bus model out

module _ (fs : Fs) where
  abbrev gpus_dir : Text
  gpus_dir = codes "/proc/driver/nvidia/gpus"

  unfoldable pub note_model : Dict Text Text → Text → Dict Text Text
  unfolding to_ascii_lowercase parse_nvidia_info_field join_path
  note_model out entry =
      insert_some (to_ascii_lowercase entry)
        (and_then (fs.read (join_path (join_path gpus_dir entry) (codes "information")))
          (λ text. parse_nvidia_info_field text (codes "Model")))
        out

  unfoldable pub read_proc_nvidia_models : Dict Text Text
  unfolding note_model
  read_proc_nvidia_models = elim (fs.read_dir gpus_dir) [
    | none ↦ []
    | some entries ↦ foldl note_model [] entries
  ]

  unfoldable pub build_accelerator : Dict Text Text → ℕ → Text → Accelerator
  unfolding read_hex_u16 pci_addr_from_device_dir read_pci_bars read_i32 read_local_cpus join_path
      show_hex4 to_ascii_lowercase
  build_accelerator proc_models drm_index device_dir =
      let device_id = unwrap_or (read_hex_u16 fs (join_path device_dir (codes "device"))) 0 in
      let pci_addr = unwrap_or (pci_addr_from_device_dir fs device_dir) [] in
      let bar1 = bar_at 1 (read_pci_bars fs device_dir) in
      record {
        id = record { vendor = nvidia; drm_index = drm_index; pci_addr = pci_addr };
        model =
            unwrap_or (get (to_ascii_lowercase pci_addr) proc_models)
              (codes "Nvidia device " ++ show_hex4 device_id);
        memory_kind = if ltb 4194304 bar1 then dedicated else unknown;
        memory_total_bytes = if ltb 4194304 bar1 then some bar1 else none;
        local_cpus = read_local_cpus fs device_dir;
        numa_node = read_i32 fs (join_path device_dir (codes "numa_node"));
        iommu_group = none;
        coverage = identification_only;
        fabric_domain = none;
        partitioned = false;
        device_dir = device_dir;
      }

  unfoldable pub enumerate : List Accelerator
  unfolding enumerate_for_vendor build_accelerator read_proc_nvidia_models
  enumerate = enumerate_for_vendor fs nvidia (build_accelerator read_proc_nvidia_models)

module _ {F64 : Type 0} (fs : Fs) (f : Floats F64) where
  abbrev temperature : Option F64 → List (Measurement F64)
  temperature none = []
  temperature (some t) = measurement fs f (codes "accel.temperature") (codes "Cel") t ∷ []

  unfoldable pub snapshot : Accelerator → List (Measurement F64)
  unfolding hwmon_temperature_celsius sensor_health
  snapshot accel =
      reading (λ v. measurement fs f (codes "accel.memory.total") (codes "By") (f.of_nat v))
        accel.memory_total_bytes
      ++ temperature (hwmon_temperature_celsius fs f accel.device_dir)
      ++ sensor_health fs f accel.device_dir nvidia ∷ []
