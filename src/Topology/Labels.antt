-- ===== src/Topology/Labels.antt =====
-- `build` of src/topology/labels.rs: the labels and annotations of a node, in the order in which the
-- source inserts them.
pub mod Managed
pub mod Keys
pub mod Readers
use accelrd.Prelude.{
  ℕ, ◌+◌, ◌%◌, max, Bool, true, false, ◌||◌, List, [], ◌∷◌, ◌++◌, Option, none, some, Text, codes,
  text_ord, length, map, map_option, any, foldl, if◌then◌else◌, is_empty, ◌==◌, ◌=t◌,
}
use accelrd.Prelude.Dict.{Dict, insert, update_or}
use accelrd.Prelude.Strings.{reverse, u64_bound}
use accelrd.Prelude.Decimal.{show_number}
use accelrd.Sensors.{
  ℤ, Accelerator, AcceleratorId, Vendor, vendor_slug, MemoryKind, memory_kind_slug, Coverage,
  coverage_slug,
}
use accelrd.Topology.{NodeTopology, FabricDomain, LldpNeighbor, RdmaDevice, any_active_roce}
use accelrd.Sensors.Common.{parent, sriov_capacity}
use accelrd.Topology.LabelSet.{LabelSet}
use accelrd.Topology.Lldp.{rack_slug}
use accelrd.Topology.Slugs.{slugify_model}

pub record InventoryEntry : Type 0 where
  pub vendor : Text
  pub model : Text
  pub memory_kind : Text
  pub memory_total_bytes : Option ℕ
  pub fabric_domain : Option Text
  pub numa_node : Option ℤ
  pub accel_index : ℕ
  pub pci_addr : Text
  pub coverage : Text
  pub partitioned : Bool

unfoldable pub inventory_entry : Accelerator → InventoryEntry
inventory_entry a = record {
  vendor = vendor_slug a.id.vendor;
  model = a.model;
  memory_kind = memory_kind_slug a.memory_kind;
  memory_total_bytes = a.memory_total_bytes;
  fabric_domain = a.fabric_domain;
  numa_node = a.numa_node;
  accel_index = a.id.drm_index;
  pci_addr = a.id.pci_addr;
  coverage = coverage_slug a.coverage;
  partitioned = a.partitioned;
}

-- What `build` reads and calls outside: `fs::read_to_string`, and `serde_json::to_string` of the four
-- annotations.
pub record Surroundings : Type 0 where
  pub read_to_string : Text → Option Text
  pub inventory_json : List InventoryEntry → Option Text
  pub domains_json : List FabricDomain → Option Text
  pub rdma_json : List RdmaDevice → Option Text
  pub neighbors_json : List LldpNeighbor → Option Text

unfoldable pub label : Text → Text → LabelSet → LabelSet
label key value set = record set { labels = insert key value set.labels }

-- `if let Some(v) = .. { set.labels.insert(..) }`, and the same for an annotation.
unfoldable pub label_some : Text → Option Text → LabelSet → LabelSet
unfolding label
label_some key none set = set
label_some key (some v) set = label key v set

unfoldable pub annotate_some : Text → Option Text → LabelSet → LabelSet
annotate_some key none set = set
annotate_some key (some v) set = record set { annotations = insert key v set.annotations }

-- `count_by`
unfoldable pub count_step : (Accelerator → Text) → Dict Text ℕ → Accelerator → Dict Text ℕ
count_step key counts a = update_or 0 (λ n. n + 1) (key a) counts

unfoldable pub count_by : (Accelerator → Text) → List Accelerator → Dict Text ℕ
unfolding count_step
count_by key accels = foldl (count_step key) [] accels

-- A label `<prefix><key><suffix>` for each entry.
unfoldable pub emit_labels : (prefix suffix : Text) → Dict Text ℕ → LabelSet → LabelSet
unfolding label
emit_labels prefix suffix [] set = set
emit_labels prefix suffix ((key, count) ∷ rest) set =
    emit_labels prefix suffix rest (label (prefix ++ (key ++ suffix)) (show_number count) set)

-- `emit_count_labels`
unfoldable pub emit_count_labels : (prefix : Text) → Dict Text ℕ → LabelSet → LabelSet
unfolding emit_labels
emit_count_labels prefix counts set = emit_labels (prefix ++ codes ".") (codes ".count") counts set

unfoldable pub domain_step : Dict Text ℕ → FabricDomain → Dict Text ℕ
domain_step counts d = update_or 0 (λ n. n + length d.member_accelerators) d.id counts

-- Lines 46 to 66: block, rack and fabric domains.
unfoldable pub topology_labels : NodeTopology → LabelSet → LabelSet
unfolding label label_some emit_labels domain_step
topology_labels t set =
    label (codes "accel-topo.lunnova.dev/fabric-domains-count")
      (show_number (length t.fabric_domains))
      (emit_labels (codes "accel-topo.lunnova.dev/fabric-domain.") []
        (foldl domain_step [] t.fabric_domains)
        (label_some (codes "accel-topo.lunnova.dev/rack") t.rack
          (label_some (codes "accel-topo.lunnova.dev/block") t.block set)))

-- Lines 68 to 74.
unfoldable pub count_labels : List Accelerator → LabelSet → LabelSet
unfolding emit_count_labels count_by
count_labels accels set =
    emit_count_labels (codes "accel.lunnova.dev/memory-kind")
      (count_by (λ a. memory_kind_slug a.memory_kind) accels)
      (emit_count_labels (codes "accel.lunnova.dev/model")
        (count_by (λ a. slugify_model a.model) accels)
        (emit_count_labels (codes "accel.lunnova.dev/vendor")
          (count_by (λ a. vendor_slug a.id.vendor) accels) set))

-- A set of paths without repetition.
abbrev add_member : Text → List Text → List Text
add_member p funcs = if any (λ q. p =t q) funcs then funcs else p ∷ funcs

-- The loop over the neighbours, with the chassis seen so far.
unfoldable pub chassis_labels : List LldpNeighbor → List Text × LabelSet → List Text × LabelSet
unfolding label rack_slug
chassis_labels [] acc = acc
chassis_labels (n ∷ ns) (seen, set) = chassis_labels ns (
    if any (λ c. n.chassis_id =t c) seen then (seen, set) else (
      n.chassis_id ∷ seen,
      label (codes "accel-topo.lunnova.dev/lldp.chassis." ++ rack_slug n) (codes "1") set,
    ))

unfoldable pub physical_step : Dict Text (List Text) → Accelerator → Dict Text (List Text)
physical_step funcs a = elim (parent a.device_dir) [
  | none ↦ funcs
  | some p ↦ update_or [] (add_member p) (vendor_slug a.id.vendor) funcs
]

-- Lines 76 to 94.
unfoldable pub physical_labels : List Accelerator → LabelSet → LabelSet
unfolding label emit_labels physical_step
physical_labels accels set =
    label (codes "accel.lunnova.dev/total-count") (show_number (length accels)) (
      emit_labels (codes "accel.lunnova.dev/vendor.") (codes ".physical-count")
        (map (λ e. (e.0, length e.1)) (foldl physical_step [] accels)) set)

-- Lines 133 to 135.
unfoldable pub mark_roce : Bool → LabelSet → LabelSet
unfolding label
mark_roce true set = label (codes "accel-net.lunnova.dev/rdma") (codes "present") set
mark_roce false set = set

module _ (env : Surroundings) where
  -- `sriov_total` and `sriov_used`, once one is seen. The sum is a `u64` that wraps.
  abbrev add_capacity : ℕ × ℕ → Option (ℕ × ℕ) → Option (ℕ × ℕ)
  add_capacity (total, used) none = some (max 0 total, (0 + used) % u64_bound)
  add_capacity (total, used) (some (t, u)) = some (max t total, (u + used) % u64_bound)

  unfoldable pub sriov_step : Option (ℕ × ℕ) → Accelerator → Option (ℕ × ℕ)
  unfolding parent sriov_capacity
  sriov_step seen a = elim (parent a.device_dir) [
    | none ↦ seen
    | some p ↦ elim (sriov_capacity env.read_to_string p) [
      | none ↦ seen
      | some c ↦ add_capacity c seen
    ]
  ]

  -- Lines 96 to 115.
  unfoldable pub sriov_labels : List Accelerator → LabelSet → LabelSet
  unfolding label sriov_step
  sriov_labels accels set = elim (foldl sriov_step none accels) [
    | none ↦ set
    | some (total, used) ↦
        label (codes "accel.lunnova.dev/sriov.configured") (show_number used)
          (label (codes "accel.lunnova.dev/sriov.total") (show_number total) set)
  ]

  -- Lines 117 to 125.
  unfoldable pub inventory_annotations : NodeTopology → List Accelerator → LabelSet → LabelSet
  unfolding annotate_some inventory_entry
  inventory_annotations t accels set =
      annotate_some (codes "accel.lunnova.dev/fabric-graph") (env.domains_json t.fabric_domains) (
        annotate_some (codes "accel.lunnova.dev/inventory")
          (env.inventory_json (map inventory_entry accels)) set)

  -- Lines 136 to 144.
  unfoldable pub describe_rdma : List RdmaDevice → LabelSet → LabelSet
  unfolding label annotate_some
  describe_rdma [] set = set
  describe_rdma (d ∷ ds) set =
      annotate_some (codes "accel-net.lunnova.dev/rdma-inventory") (env.rdma_json (d ∷ ds)) (
        label (codes "accel-net.lunnova.dev/rdma.devices-count") (show_number (length (d ∷ ds)))
          set)

  -- Lines 127 to 144.
  unfoldable pub rdma_labels : NodeTopology → LabelSet → LabelSet
  unfolding any_active_roce mark_roce describe_rdma
  rdma_labels t set = describe_rdma t.rdma (mark_roce (any_active_roce t.rdma) set)

  -- Lines 146 to 166.
  unfoldable pub lldp_labels : NodeTopology → LabelSet → LabelSet
  unfolding label annotate_some chassis_labels
  lldp_labels t set = elim t.lldp_neighbors [
    | [] ↦ set
    | n ∷ ns ↦
        let (seen, marked) = chassis_labels (n ∷ ns) ([], set) in
        annotate_some (codes "accel-topo.lunnova.dev/lldp-neighbors") (env.neighbors_json (n ∷ ns))
          (label (codes "accel-topo.lunnova.dev/lldp.chassis-count") (show_number (length seen))
            marked)
  ]

  unfoldable pub build : NodeTopology → List Accelerator → LabelSet
  unfolding topology_labels count_labels physical_labels sriov_labels inventory_annotations
      rdma_labels lldp_labels
  build t accels = lldp_labels t (
      rdma_labels t (
        inventory_annotations t accels (
          sriov_labels accels (
            physical_labels accels (
              count_labels accels
                (topology_labels t (record { labels = []; annotations = [] })))))))
