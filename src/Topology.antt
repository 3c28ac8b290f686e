-- ===== src/Topology.antt =====
-- src/topology: what the daemon knows of the node, and the labels that say so.
pub mod LabelSet
pub mod Discover
pub mod Slugs
pub mod Lldp
pub mod Rdma
pub mod Labels
use accelrd.Prelude.{
  ℕ, Bool, List, [], ◌∷◌, Option, Text, codes, any, ◌==◌, leb, ◌&&◌, ◌+◌, if◌then◌else◌, map, ◌=t◌,
}
use accelrd.Sensors.{AcceleratorId}

pub data FabricKind : Type 0 where
  x_gmi nv_link pcie : FabricKind

pub record FabricDomain : Type 0 where
  pub id : Text
  pub kind : FabricKind
  pub member_accelerators : List AcceleratorId
  pub aggregate_bandwidth_gbps : Option ℕ

pub data ChassisIdKind : Type 0 where
  mac name other : ChassisIdKind

pub record LldpNeighbor : Type 0 where
  pub interface : Text
  pub chassis_id : Text
  pub chassis_id_kind : ChassisIdKind
  pub port_id : Text
  pub system_name : Option Text

pub record RdmaPort : Type 0 where
  pub index : ℕ
  pub state : Text
  pub phys_state : Text
  pub link_layer : Text
  pub rate_gbps : Option ℕ

pub record RdmaDevice : Type 0 where
  pub name : Text
  pub ports : List RdmaPort

pub record NodeTopology : Type 0 where
  pub region : Option Text
  pub zone : Option Text
  pub block : Option Text
  pub rack : Option Text
  pub fabric_domains : List FabricDomain
  pub lldp_neighbors : List LldpNeighbor
  pub rdma : List RdmaDevice

-- `to_ascii_lowercase` of a character, and `eq_ignore_ascii_case`.
abbrev pub lowercase : ℕ → ℕ
lowercase c = if leb b'A' c && leb c b'Z' then c + 32 else c

unfoldable pub eq_ignore_ascii_case : Text → Text → Bool
eq_ignore_ascii_case a b = map lowercase a =t map lowercase b

abbrev is_active_roce : RdmaPort → Bool
is_active_roce p =
    eq_ignore_ascii_case p.state (codes "ACTIVE")
    && eq_ignore_ascii_case p.link_layer (codes "Ethernet")

unfoldable pub any_active_roce : List RdmaDevice → Bool
unfolding eq_ignore_ascii_case
any_active_roce devices = any (λ d. any is_active_roce d.ports) devices
