-- ===== src/Telemetry.antt =====
-- One round of the live readings, of src/telemetry/live.rs, with the gauges and attributes of src/telemetry/mod.rs.
use accelrd.Prelude.{List, [], ◌∷◌, ◌++◌, Text, codes, text_ord, unwrap_or, map, foldl}
use accelrd.Prelude.Dict.{Dict, get, insert}
use accelrd.Prelude.Int.{ℤ, pos, negsuc}
use accelrd.Sensors.{
  amd, nvidia, intel, other, vendor_slug, memory_kind_slug, coverage_slug, Accelerator, Measurement,
  Floats,
}
use accelrd.Sensors.Sysfs.{Fs}
use accelrd.Sensors.Amd
use accelrd.Sensors.Nvidia
use accelrd.Sensors.Intel
use accelrd.Sensors.Host

-- The value of a `KeyValue`.
pub data AttrValue : Type 0 where
  text : Text → AttrValue
  int : ℤ → AttrValue

unfoldable pub base_attrs : Accelerator → List (Text × AttrValue)
unfolding vendor_slug memory_kind_slug coverage_slug
base_attrs accel =
    (codes "vendor", text (vendor_slug accel.id.vendor))
    ∷ (codes "model", text accel.model)
    ∷ (codes "accel.index", int (pos accel.id.drm_index))
    ∷ (codes "pci_addr", text accel.id.pci_addr)
    ∷ (codes "memory_kind", text (memory_kind_slug accel.memory_kind))
    ∷ (codes "coverage", text (coverage_slug accel.coverage))
    ∷ (codes "fabric_domain", text (unwrap_or accel.fabric_domain []))
    ∷ (codes "numa_node", int (unwrap_or accel.numa_node (negsuc 0)))
    ∷ []

-- What a gauge records: its name and unit, the value and the attributes.
pub record Recorded (F64 : Type 0) : Type 0 where
  pub name : Text
  pub unit : Text
  pub value : F64
  pub attrs : List (Text × AttrValue)

-- The unit of the gauge, and the gauges with it: the first measurement of a name gives the gauge its unit.
unfoldable pub get_or_create :
    {F64 : Type 0} → Dict Text Text → Measurement F64 → Text × Dict Text Text
unfolding get insert
get_or_create gauges m =
    let unit = unwrap_or (get m.name gauges) m.unit in (unit, insert m.name unit gauges)

-- The gauges stand with what was recorded, the last first.
unfoldable pub record_in :
    {F64 : Type 0}
    → List (Text × AttrValue)
    → Dict Text Text × List (Recorded F64)
    → Measurement F64
    → Dict Text Text × List (Recorded F64)
unfolding get_or_create
record_in base (gauges, out) m =
    let gauge = get_or_create gauges m in
    (
      gauge.1,
      record {
        name = m.name;
        unit = gauge.0;
        value = m.value;
        attrs = base ++ map (λ a. (a.0, text a.1)) m.attrs;
      }
          ∷ out,
    )

module _ {F64 : Type 0} (fs : Fs) (f : Floats F64) where
  -- The readings of the backend of the card's vendor; no backend has vendor `other`.
  unfoldable pub snapshot_of : Accelerator → List (Measurement F64)
  unfolding Amd.snapshot Nvidia.snapshot Intel.snapshot
  snapshot_of accel = elim accel.id.vendor [
    | amd ↦ Amd.snapshot fs f accel
    | nvidia ↦ Nvidia.snapshot fs f accel
    | intel ↦ Intel.snapshot fs f accel
    | other ↦ []
  ]

  unfoldable pub tick :
      List Accelerator → Dict Text Text × List (Recorded F64) → Dict Text Text × List (Recorded F64)
  unfolding record_in snapshot_of base_attrs
  tick [] s = s
  tick (a ∷ accelerators) s = tick accelerators (foldl (record_in (base_attrs a)) s (snapshot_of a))

  unfoldable pub host_tick :
      Dict Text Text × List (Recorded F64) → Dict Text Text × List (Recorded F64)
  unfolding record_in Host.snapshot
  host_tick s = foldl (record_in []) s (Host.snapshot fs f)
