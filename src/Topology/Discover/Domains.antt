-- ===== src/Topology/Discover/Domains.antt =====
-- `discover` of src/topology/discover.rs: the ids of the fabric domains, the cards' places in them, and the rack.
pub mod Placed
pub mod Held
pub mod Members
use accelrd.Prelude.{
  ℕ, zero, suc, ◌+◌, ◌/◌, ◌%◌, ◌^◌, ◌++◌, Bool, true, false, ltb, leb, List, [], ◌∷◌, Option, none,
  some, Text, codes, text_ord, ◌=t◌, map, foldl, is_none, if◌then◌else◌, map_option,
}
use accelrd.Prelude.Sort.{sort_by}
use accelrd.Sensors.{AcceleratorId, Accelerator}
use accelrd.Sensors.Sysfs.{Fs, hex_digit}
use accelrd.Topology.{FabricKind, x_gmi, pcie, FabricDomain, LldpNeighbor, NodeTopology}
use accelrd.Topology.Lldp.{rack_slug}
use accelrd.Topology.Rdma.{scan}
use accelrd.Topology.Discover.{eq_id, build_amd_xgmi_groups}

-- `{:x}` of a number below 16 ^ fuel.
unfoldable pub show_hex : (fuel : ℕ) → ℕ → Text → Text
show_hex zero n acc = acc
show_hex (suc fuel) n acc =
    let more = show_hex fuel (n / 16) (hex_digit (n % 16) ∷ acc) in
    if ltb n 16 then hex_digit n ∷ acc else more

-- `hash` is `DefaultHasher` fed with the texts; the eight digits are enough for 32 bits.
unfoldable pub stable_domain_id : (hash : List Text → ℕ) → List AcceleratorId → Text
unfolding show_hex sort_by
stable_domain_id hash members =
    codes "fab-"
    ++ show_hex 8 (hash (sort_by text_ord.cmp (map (λ m. m.pci_addr) members)) % 2 ^ 32) []

-- The first accelerator with the id gets the domain.
unfoldable pub assign_one : Text → List Accelerator → AcceleratorId → List Accelerator
assign_one id [] m = []
assign_one id (a ∷ rest) m =
    let later = assign_one id rest m in
    if eq_id a.id m then record a { fabric_domain = some id } ∷ rest else a ∷ later

unfoldable pub assign_fabric : List Accelerator → List AcceleratorId → Text → List Accelerator
unfolding assign_one
assign_fabric accelerators members id = foldl (assign_one id) accelerators members

abbrev pub domain : FabricKind → Text → List AcceleratorId → FabricDomain
domain kind id members = record {
  id = id;
  kind = kind;
  member_accelerators = members;
  aggregate_bandwidth_gbps = none;
}

-- The accelerators and the domains so far.
abbrev pub Placing : Type 0
Placing = List Accelerator × List FabricDomain

module _ (hash : List Text → ℕ) where
  unfoldable pub place_group : Placing → List AcceleratorId → Placing
  unfolding stable_domain_id assign_fabric
  place_group (accelerators, domains) members =
      let id = stable_domain_id hash members in
      (assign_fabric accelerators members id, domains ++ domain x_gmi id members ∷ [])

  -- The loop over the accelerators that are in no domain yet.
  unfoldable pub place_single : List Accelerator → List FabricDomain → Placing
  unfolding stable_domain_id
  place_single [] domains = ([], domains)
  place_single (a ∷ rest) domains =
      let id = stable_domain_id hash (a.id ∷ []) in
      let alone = place_single rest (domains ++ domain pcie id (a.id ∷ []) ∷ []) in
      let next = place_single rest domains in
      if is_none a.fabric_domain
      then (record a { fabric_domain = some id } ∷ alone.0, alone.1)
      else (a ∷ next.0, next.1)

  unfoldable pub place : List (List AcceleratorId) → List Accelerator → Placing
  unfolding place_group place_single
  place groups accelerators =
      let grouped = foldl place_group (accelerators, []) groups in place_single grouped.0 grouped.1

-- How often a chassis was seen, and its first neighbour.
abbrev pub Seen : Type 0
Seen = ℕ × LldpNeighbor

unfoldable pub count_chassis : List (Text × Seen) → LldpNeighbor → List (Text × Seen)
count_chassis [] n = (n.chassis_id, (1, n)) ∷ []
count_chassis (c ∷ counts) n =
    let later = count_chassis counts n in
    if c.0 =t n.chassis_id then (c.0, (c.1.0 + 1, c.1.1)) ∷ counts else c ∷ later

-- `max_by_key` keeps the last of equal maxima.
unfoldable pub max_seen : Option Seen → List Seen → Option Seen
max_seen best [] = best
max_seen none (s ∷ rest) = max_seen (some s) rest
max_seen (some b) (s ∷ rest) = max_seen (some (if leb b.0 s.0 then s else b)) rest

-- `order` is the order in which the `HashMap` gives its values.
unfoldable pub infer_rack_from_lldp :
    (order : List Seen → List Seen) → List LldpNeighbor → Option Text
unfolding count_chassis max_seen rack_slug
infer_rack_from_lldp order neighbors =
    map_option (λ s. rack_slug s.1)
      (max_seen none (order (map (λ c. c.1) (foldl count_chassis [] neighbors))))

-- The settings that the discovery reads.
pub record Settings : Type 0 where
  pub block : Option Text
  pub rack : Option Text
  pub no_lldp : Bool

module _ (fs : Fs) (var : Text → Option Text) (hash : List Text → ℕ)
    (keys_order : List AcceleratorId → List AcceleratorId)
    (values_order : List Seen → List Seen) where
  abbrev inferred : Option Text → List LldpNeighbor → Option Text
  inferred (some rack) neighbors = some rack
  inferred none neighbors = infer_rack_from_lldp values_order neighbors

  -- `heard` is what `lldp::discover` returns.
  unfoldable pub discover :
      Settings → (heard : List LldpNeighbor) → List Accelerator → NodeTopology × List Accelerator
  unfolding build_amd_xgmi_groups place infer_rack_from_lldp scan
  discover args heard accelerators =
      let placed = place hash (build_amd_xgmi_groups fs keys_order accelerators) accelerators in
      (
        record {
          region = var (codes "ACCELRD_REGION");
          zone = var (codes "ACCELRD_ZONE");
          block = args.block;
          rack = if args.no_lldp then args.rack else inferred args.rack heard;
          fabric_domains = placed.1;
          lldp_neighbors = if args.no_lldp then [] else heard;
          rdma = scan fs;
        },
        placed.0,
      )
