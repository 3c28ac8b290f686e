-- ===== src/Tests/Frames.antt =====
-- The tests of src/topology/lldp.rs, and the labels of a node with one card.
use accelrd.Prelude.{
  and_then, Text, text_ord, ◌≡◌, refl, false, List, [], ◌∷◌, ◌++◌, none, some, codes, All, arith,
  is_empty,
}
use accelrd.Sensors.{Accelerator, amd, dedicated, full}
use accelrd.Prelude.Dict.{get}
use accelrd.Prelude.Strings.{parse_below, u64_bound}
use accelrd.Topology.{any_active_roce, NodeTopology, LldpNeighbor, mac}
use accelrd.Topology.Slugs.{slugify_model, IsSlugByte, slugify_model_lem}
use accelrd.Topology.Lldp.{neighbor, parse_lldpdu, rack_slug}
use accelrd.Topology.Lldp.Parts.{Parts, parse_lldpdu_parts}
use accelrd.Topology.Lldp.Frames.{Tlv, encode, note_all, parse_lldpdu-encode}
use accelrd.Topology.Labels.{Surroundings, build}
use accelrd.Topology.Labels.Readers.{build_read}
use accelrd.Prober.Pair.{rack_label, has_rdma}
use accelrd.Topology.Labels.Managed.{AreOwn, build-AreOwn}

-- `parse_lab_switch_frame`
abbrev lab_switch : List Tlv
lab_switch =
    (1, 0x04 ∷ 0x1c ∷ 0x2a ∷ 0xa3 ∷ 0x1e ∷ 0xc7 ∷ 0xb4 ∷ [])
    ∷ (2, 0x07 ∷ codes "TE4")
    ∷ (3, 0x00 ∷ 0x78 ∷ [])
    ∷ []

abbrev lab_neighbor : LldpNeighbor
lab_neighbor = record {
  interface = codes "eno1np0";
  chassis_id = codes "1c:2a:a3:1e:c7:b4";
  chassis_id_kind = mac;
  port_id = codes "TE4";
  system_name = none;
}

lab_switch_bytes :
    encode lab_switch
    ≡ 0x02 ∷ 0x07 ∷ 0x04 ∷ 0x1c ∷ 0x2a ∷ 0xa3 ∷ 0x1e ∷ 0xc7 ∷ 0xb4 ∷ 0x04 ∷ 0x04 ∷ 0x07 ∷ 84 ∷ 69
      ∷ 52 ∷ 0x06 ∷ 0x02 ∷ 0x00 ∷ 0x78 ∷ []
lab_switch_bytes = refl

parse_lab_switch_frame :
    parse_lldpdu (encode lab_switch ++ 0 ∷ 0 ∷ []) (codes "eno1np0") ≡ some lab_neighbor
unfolding parse_lldpdu
parse_lab_switch_frame = refl

rack_slug_of_mac : rack_slug lab_neighbor ≡ codes "1c2aa31ec7b4"
unfolding rack_slug
rack_slug_of_mac = refl

-- `rejects_truncated`
rejects_truncated : parse_lldpdu (0x0c ∷ 0x64 ∷ 1 ∷ 2 ∷ 3 ∷ 4 ∷ []) (codes "x") ≡ none
unfolding parse_lldpdu
rejects_truncated = refl

parse_lldpdu-encode_example :
    parse_lldpdu (encode lab_switch ++ 0 ∷ 0 ∷ []) (codes "eno1np0")
    ≡ neighbor
        (codes "eno1np0")
        (note_all lab_switch (record { chassis = none; port = none; sysname = none }))
parse_lldpdu-encode_example =
    parse_lldpdu-encode lab_switch [] (codes "eno1np0")
      (omega arith, (omega arith, (omega arith, tt)))

-- A TLV of 100 bytes that has four.
abbrev truncated : Text
truncated = 0x0c ∷ 0x64 ∷ 1 ∷ 2 ∷ 3 ∷ 4 ∷ []

parse_lldpdu_parts_example :
    (p : Parts truncated) × (parse_lldpdu truncated (codes "x")
      ≡ neighbor
          (codes "x")
          (note_all p.tlvs (record { chassis = none; port = none; sysname = none })))
parse_lldpdu_parts_example =
    parse_lldpdu_parts truncated (codes "x")
      (omega arith, (omega arith, (omega arith, (omega arith, (omega arith, (omega arith, tt))))))

slugify_mi300x : slugify_model (codes "AMD Instinct (MI300X)") ≡ codes "amd-instinct-mi300x"
unfolding slugify_model
slugify_mi300x = refl

slugify_model_lem_example :
    All IsSlugByte (slugify_model (codes "(?)")) × (is_empty (slugify_model (codes "(?)")) ≡ false)
slugify_model_lem_example = slugify_model_lem (codes "(?)")

abbrev pub surroundings : Surroundings
surroundings = record {
  read_to_string = λ p. some (codes "8");
  inventory_json = λ l. some (codes "[]");
  domains_json = λ l. some (codes "[]");
  rdma_json = λ l. some (codes "{}");
  neighbors_json = λ l. some (codes "[]");
}

abbrev one_card : Accelerator
one_card = record {
  id = record { vendor = amd; drm_index = 0; pci_addr = codes "0000:01:00.0" };
  model = codes "MI300X";
  memory_kind = dedicated;
  memory_total_bytes = none;
  local_cpus = [];
  numa_node = none;
  iommu_group = none;
  coverage = full;
  fabric_domain = none;
  partitioned = false;
  device_dir = codes "/sys/devices/pci0000:00/0000:01:00.0";
}

abbrev lab_node : NodeTopology
lab_node = record {
  region = none;
  zone = none;
  block = none;
  rack = some (codes "1c2aa31ec7b4");
  fabric_domains = [];
  lldp_neighbors = lab_neighbor ∷ [];
  rdma = [];
}

build-AreOwn_example : AreOwn (build surroundings lab_node (one_card ∷ []))
build-AreOwn_example = build-AreOwn surroundings lab_node (one_card ∷ [])

build_read_example :
    let labels = (build surroundings lab_node (one_card ∷ [])).labels in
    (get rack_label labels ≡ some (codes "1c2aa31ec7b4"))
    × (has_rdma labels ≡ false)
    × (and_then (get (codes "accel.lunnova.dev/total-count") labels) (parse_below u64_bound)
        ≡ some 1)
unfolding any_active_roce
build_read_example = build_read surroundings lab_node (one_card ∷ []) (omega arith)
