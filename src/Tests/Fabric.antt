-- ===== src/Tests/Fabric.antt =====
-- Four AMD cards, of which three are linked in a chain, and the checks of a node whose files cannot be read.
use accelrd.Prelude.{
  ℕ, ◌||◌, ◌≡◌, ◌≢◌, refl, true, false, [], ◌∷◌, List, Option, none, some, Text, codes, text_ord,
  ◌=t◌, All, count_if, length, map, ltb, leb, cmp_text, if◌then◌else◌, starts_with, keep,
}
use accelrd.Prelude.Dict.{get}
use accelrd.Sensors.{amd, AcceleratorId, Accelerator, dedicated, full, Floats, Measurement}
use accelrd.Sensors.Sysfs.{Fs}
use accelrd.Topology.{FabricDomain}
use accelrd.Topology.Discover.{eq_id, keys, ordered, build_amd_xgmi_groups, xgmi_adjacency}
use accelrd.Daemon.{Resolved, resolve, inventory}
use accelrd.Daemon.Placed.{inventory-IsHeld}
use accelrd.Topology.Discover.Domains.Placed.{in_domain}
use accelrd.Topology.Discover.Domains.Held.{IsHeld}
use accelrd.Topology.Discover.Search.{mem}
use accelrd.Topology.Discover.Groups.{IsLinkGroup, build_amd_xgmi_groups-IsLinkGroup}
use accelrd.Topology.LabelSet.{LabelSet}
use accelrd.Preflight.{label_value, degraded, ready}
use accelrd.Preflight.Cycle.{run_cycle, inference_key, training_key}
use accelrd.Preflight.Health.{
  default_registry, without_measurements, disk_free_on, best_mount, named,
}
use accelrd.Preflight.Health.Registry.{run_cycle-default_registry}
use accelrd.Preflight.Health.Disks.{some_disk, disk_free_on-best_mount}

abbrev card : ℕ → Text → Text → Accelerator
card n addr dir = record {
  id = record { vendor = amd; drm_index = n; pci_addr = addr };
  model = [];
  memory_kind = dedicated;
  memory_total_bytes = none;
  local_cpus = [];
  numa_node = none;
  iommu_group = none;
  coverage = full;
  fabric_domain = none;
  partitioned = false;
  device_dir = dir;
}

abbrev cards : List Accelerator
cards =
    card 0 (codes "0:1") (codes "/a")
    ∷ card 1 (codes "0:2") (codes "/b")
    ∷ card 2 (codes "0:3") (codes "/c")
    ∷ card 3 (codes "0:4") (codes "/d")
    ∷ []

-- The second card names the first, and the third names the second.
read : Text → Option Text
unfolding ◌=t◌
read path =
    if path =t codes "/b/xgmi_peer_links"
    then some (codes "0:1\n")
    else if path =t codes "/c/xgmi_phy_id"
    then some (codes "17 0:2")
    else none

abbrev fs : Fs
fs = record {
  read = read;
  read_dir = λ _. none;
  read_link = λ _. none;
  canonicalize = λ _. none;
  statvfs = λ _. none;
}

abbrev same : List AcceleratorId → List AcceleratorId
same l = l

build_amd_xgmi_groups-IsLinkGroup_example :
    let adjacency = xgmi_adjacency fs cards in
    let groups = build_amd_xgmi_groups fs same cards in
    All (IsLinkGroup adjacency) groups
    × ((id : AcceleratorId)
        → mem eq_id id (keys adjacency) ≡ true
        → length (ordered adjacency id) ≢ 0
        → count_if (mem eq_id id) groups ≡ 1)
build_amd_xgmi_groups-IsLinkGroup_example =
    build_amd_xgmi_groups-IsLinkGroup fs same (λ x l. refl) cards

one_group :
    build_amd_xgmi_groups fs same cards
    ≡ ((card 0 (codes "0:1") []).id
        ∷ (card 1 (codes "0:2") []).id
        ∷ (card 2 (codes "0:3") []).id
        ∷ [])
      ∷ []
unfolding build_amd_xgmi_groups read starts_with cmp_text ◌=t◌
one_group = refl

abbrev settings : Resolved
settings =
    resolve (λ name. none)
      (record {
        otlp_endpoint = none;
        live_interval_secs = none;
        preflight_interval_secs = none;
        block = none;
        rack = none;
        service_name = none;
        node_name = none;
        once = true;
        no_k8s = true;
        no_lldp = true;
        lldp_timeout_secs = none;
      })

-- A computer with two linked AMD cards, of which the second names the first.
two_cards : Fs
unfolding ◌=t◌
two_cards = record {
  read = λ path.
      if (path =t codes "/0:1/vendor") || (path =t codes "/0:2/vendor")
      then some (codes "0x1002\n")
      else if path =t codes "/0:2/xgmi_peer_links"
      then some (codes "0:1\n")
      else none;
  read_dir = λ path.
      if path =t codes "/sys/class/drm" then some (codes "card0" ∷ codes "card1" ∷ []) else none;
  read_link = λ path. none;
  canonicalize = λ path.
      some (if path =t codes "/sys/class/drm/card0/device" then codes "/0:1" else codes "/0:2");
  statvfs = λ path. none;
}

-- One domain with both cards.
one_domain :
    map
      (λ (d : FabricDomain). length d.member_accelerators)
      (inventory two_cards
        (λ name. none)
        (λ texts. 5)
        same
        (λ seen. seen)
        settings
        []).0.fabric_domains
    ≡ 2 ∷ []
unfolding inventory two_cards starts_with cmp_text ◌=t◌
one_domain = refl

inventory-IsHeld_example :
    let r = inventory two_cards (λ name. none) (λ texts. 5) same (λ seen. seen) settings [] in
    All (λ (a : Accelerator). in_domain r.0.fabric_domains a.id a.fabric_domain ≡ true) r.1
    × All (IsHeld r.1) r.0.fabric_domains
inventory-IsHeld_example =
    inventory-IsHeld two_cards (λ name. none) (λ texts. 5) same (λ x l. refl) (λ seen. seen)
      settings []

-- Whole numbers in place of floats.
abbrev floats : Floats ℕ
floats = record {
  of_nat = λ n. n;
  to_nat = λ n. n;
  ge = λ a b. leb b a;
  sub = λ a b. a;
  div = λ a b. a;
  show_tenths = λ n. [];
  show = λ n. [];
}

abbrev base : LabelSet
base = record { labels = []; annotations = [] }

abbrev show_index : ℕ → Text
show_index n = []

run_cycle-default_registry_example :
    let done =
      run_cycle show_index
        (map without_measurements (default_registry fs floats))
        cards
        base
        (codes "now") in
    let verdict = if ltb 0 done.0.failed then degraded else ready in
    (get inference_key done.1.labels ≡ some (label_value verdict))
    × (get training_key done.1.labels ≡ some (label_value verdict))
    × (done.0.inference ≡ verdict)
    × (done.0.training ≡ verdict)
run_cycle-default_registry_example =
    run_cycle-default_registry fs floats show_index (card 0 (codes "0:1") (codes "/a"))
      (card 1 (codes "0:2") (codes "/b")
        ∷ card 2 (codes "0:3") (codes "/c")
        ∷ card 3 (codes "0:4") (codes "/d")
        ∷ [])
      base (codes "now")

abbrev disk : Text → ℕ → Measurement ℕ
disk mount free = record {
  name = codes "host.disk.free_bytes";
  unit = codes "By";
  value = free;
  attrs = (codes "mount", mount) ∷ [];
}

disk_free_on-best_mount_example :
    (disk_free_on fs floats 200
      (best_mount fs floats (disk (codes "/") 100 ∷ disk (codes "/data") 300 ∷ []))).outcome.status
    ≡ some_disk fs floats 200 (
        keep
          (named fs floats (codes "host.disk.free_bytes"))
          (disk (codes "/") 100 ∷ disk (codes "/data") 300 ∷ []))
disk_free_on-best_mount_example =
    disk_free_on-best_mount fs floats 200 (disk (codes "/") 100 ∷ disk (codes "/data") 300 ∷ [])
