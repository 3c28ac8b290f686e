-- ===== src/Sensors.antt =====
-- src/sensors/mod.rs: what the program knows of an accelerator.
pub mod Common
pub mod Sysfs
pub mod Amd
pub mod Nvidia
pub mod Intel
pub mod Host
pub mod Inventory
pub use accelrd.Prelude.Int.{ℤ, pos, negsuc}
use accelrd.Prelude.{ℕ, Bool, List, Option, Text, codes, ◌==◌, if◌then◌else◌}

pub data Vendor : Type 0 where
  amd nvidia intel other : Vendor

unfoldable pub from_pci_id : ℕ → Vendor
from_pci_id id =
    if id == 0x1002
    then amd
    else if id == 0x10de
    then nvidia
    else if id == 0x8086
    then intel
    else other

unfoldable pub vendor_slug : Vendor → Text
vendor_slug amd = codes "amd"
vendor_slug nvidia = codes "nvidia"
vendor_slug intel = codes "intel"
vendor_slug other = codes "other"

pub data MemoryKind : Type 0 where
  dedicated unified shared unknown : MemoryKind

unfoldable pub memory_kind_slug : MemoryKind → Text
memory_kind_slug dedicated = codes "dedicated"
memory_kind_slug unified = codes "unified"
memory_kind_slug shared = codes "shared"
memory_kind_slug unknown = codes "unknown"

pub data Coverage : Type 0 where
  full identification_only failed : Coverage

unfoldable pub coverage_slug : Coverage → Text
coverage_slug full = codes "full"
coverage_slug identification_only = codes "identification-only"
coverage_slug failed = codes "failed"

pub record AcceleratorId : Type 0 where
  pub vendor : Vendor
  pub drm_index : ℕ
  pub pci_addr : Text

-- `device_dir` is the path as text.
pub record Accelerator : Type 0 where
  pub id : AcceleratorId
  pub model : Text
  pub memory_kind : MemoryKind
  pub memory_total_bytes : Option ℕ
  pub local_cpus : List ℕ
  pub numa_node : Option ℤ
  pub iommu_group : Option ℕ
  pub coverage : Coverage
  pub fabric_domain : Option Text
  pub partitioned : Bool
  pub device_dir : Text

-- A reading, without its description, which is a constant text.
pub record Measurement (F64 : Type 0) : Type 0 where
  pub name : Text
  pub unit : Text
  pub value : F64
  pub attrs : List (Text × Text)

-- What the program computes with `f64`: the casts from and to `u64`, `>=`, `-`, `/` and the printing with one digit and with all.
pub record Floats (F64 : Type 0) : Type 0 where
  pub of_nat : ℕ → F64
  pub to_nat : F64 → ℕ
  pub ge : F64 → F64 → Bool
  pub sub : F64 → F64 → F64
  pub div : F64 → F64 → F64
  pub show_tenths : F64 → Text
  pub show : F64 → Text
