-- ===== src/Topology/Discover.antt =====
-- src/topology/discover.rs: the fabric domains of a node and its rack.
pub mod Search
pub mod Links
pub mod Linked
pub mod Groups
pub mod Present
pub mod Domains
use accelrd.Prelude.{
  ℕ, zero, suc, ◌+◌, ◌/◌, ◌%◌, ◌^◌, ◌++◌, Bool, true, false, not, ◌&&◌, ◌||◌, ◌==◌, leb, ltb, List,
  [], ◌∷◌, Option, none, some, Text, codes, text_ord, cmp_text, ◌=t◌, compare, then_cmp, Ordering,
  any, keep, find, map, foldl, is_none, is_empty, map_option, or_else, if◌then◌else◌,
}
use accelrd.Prelude.Sort.{sort_by}
use accelrd.Prelude.Strings.{split_ascii_whitespace, contains}
use accelrd.Sensors.{Vendor, amd, nvidia, intel, other, AcceleratorId, Accelerator}
use accelrd.Sensors.Common.{join_path}
use accelrd.Sensors.Sysfs.{Fs, vendor_is, hex_digit}
use accelrd.Topology.{FabricKind, FabricDomain, LldpNeighbor, NodeTopology}
use accelrd.Topology.Lldp.{rack_slug}
use accelrd.Topology.Rdma.{scan}
use accelrd.Topology.Discover.Search.{mem, weight, groups_from}

-- The derived `Ord` and `Eq` of an id.
abbrev rank : Vendor → ℕ
rank amd = 0
rank nvidia = 1
rank intel = 2
rank other = 3

abbrev pub cmp_id : AcceleratorId → AcceleratorId → Ordering
cmp_id a b =
    then_cmp (compare (rank a.vendor) (rank b.vendor))
      (then_cmp (compare a.drm_index b.drm_index) (cmp_text a.pci_addr b.pci_addr))

abbrev pub eq_id : AcceleratorId → AcceleratorId → Bool
eq_id a b =
    (vendor_is a.vendor b.vendor && a.drm_index == b.drm_index) && (a.pci_addr =t b.pci_addr)

-- The map of a card to the set of its peers, in the order in which the keys were first used.
abbrev pub Adjacency : Type 0
Adjacency = List (AcceleratorId × List AcceleratorId)

abbrev pub keys : Adjacency → List AcceleratorId
keys adjacency = map (λ e. e.0) adjacency

unfoldable pub neighbors : Adjacency → AcceleratorId → List AcceleratorId
neighbors [] id = []
neighbors (e ∷ rest) id = let later = neighbors rest id in if eq_id id e.0 then e.1 else later

-- `entry(id).or_default()`
unfoldable pub or_default : AcceleratorId → Adjacency → Adjacency
or_default id adjacency =
    if mem eq_id id (keys adjacency) then adjacency else adjacency ++ (id, []) ∷ []

-- `insert` in the set of a key that is present.
unfoldable pub insert_at : (id peer : AcceleratorId) → Adjacency → Adjacency
insert_at id peer [] = []
insert_at id peer (e ∷ rest) =
    let later = insert_at id peer rest in
    if eq_id id e.0 then (e.0, if mem eq_id peer e.1 then e.1 else peer ∷ e.1) ∷ rest else e ∷ later

-- The two insertions for a peer.
unfoldable pub link : (a peer : AcceleratorId) → Adjacency → Adjacency
unfolding or_default insert_at
link a peer adjacency =
    insert_at peer a (or_default peer (insert_at a peer (or_default a adjacency)))

-- The tokens of the first file that names a peer.
unfoldable pub read_xgmi_peers : Fs → Text → List Text
unfolding join_path split_ascii_whitespace contains
read_xgmi_peers fs device_dir =
    first_peers (codes "xgmi_peer_links" ∷ codes "xgmi_phy_id" ∷ codes "xgmi_link_status" ∷ [])
  where
    peers_in : Option Text → List Text
    peers_in none = []
    peers_in (some s) = keep (λ t. contains t (codes ":")) (split_ascii_whitespace s)

    first_peers : List Text → List Text
    first_peers [] = []
    first_peers (name ∷ names) =
        let later = first_peers names in
        elim (peers_in (fs.read (join_path device_dir name))) [ [] ↦ later | p ∷ ps ↦ p ∷ ps ]

module _ (fs : Fs) where
  -- The loops over the peers of a card and over the cards.
  unfoldable pub link_peers : List Accelerator → AcceleratorId → List Text → Adjacency → Adjacency
  unfolding link
  link_peers cards a [] adjacency = adjacency
  link_peers cards a (addr ∷ addrs) adjacency =
      link_peers cards a addrs (elim (find (λ p. p.id.pci_addr =t addr) cards) [
        | none ↦ adjacency
        | some peer ↦ link a peer.id adjacency
      ])

  unfoldable pub link_cards : (all cards : List Accelerator) → Adjacency → Adjacency
  unfolding or_default link_peers read_xgmi_peers
  link_cards all [] adjacency = adjacency
  link_cards all (a ∷ rest) adjacency =
      link_cards all rest
        (link_peers all a.id (read_xgmi_peers fs a.device_dir) (or_default a.id adjacency))

  unfoldable pub xgmi_adjacency : List Accelerator → Adjacency
  unfolding link_cards
  xgmi_adjacency accels =
      let cards = keep (λ a. vendor_is a.id.vendor amd) accels in link_cards cards cards []

-- The neighbours in the order of the `BTreeSet`.
unfoldable pub ordered : Adjacency → AcceleratorId → List AcceleratorId
unfolding neighbors sort_by
ordered adjacency id = sort_by cmp_id (neighbors adjacency id)

abbrev pub by_address : AcceleratorId → AcceleratorId → Ordering
by_address a b = cmp_text a.pci_addr b.pci_addr

-- `order` is the order in which the `HashMap` gives its keys. The fuel is one round for each pop.
module _ (fs : Fs) (order : List AcceleratorId → List AcceleratorId) where
  unfoldable pub components : Adjacency → List (List AcceleratorId)
  unfolding ordered groups_from weight
  components adjacency =
      groups_from eq_id (ordered adjacency)
        (suc (weight eq_id (ordered adjacency) [] (keys adjacency))) [] (order (keys adjacency))

  unfoldable pub build_amd_xgmi_groups : List Accelerator → List (List AcceleratorId)
  unfolding components xgmi_adjacency sort_by
  build_amd_xgmi_groups accels = map (sort_by by_address) (components (xgmi_adjacency fs accels))
