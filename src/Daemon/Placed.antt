-- ===== src/Daemon/Placed.antt =====
-- The inventory that `run` of src/lifecycle.rs starts with.
use accelrd.Prelude.{ℕ, ◌≡◌, true, List, Option, Text, All}
use accelrd.Sensors.{AcceleratorId, Accelerator}
use accelrd.Sensors.Sysfs.{Fs}
use accelrd.Sensors.Inventory.{enumerate_all, enumerate_all-IsUnplaced}
use accelrd.Topology.{LldpNeighbor}
use accelrd.Topology.Discover.Domains.{Seen, Settings}
use accelrd.Topology.Discover.Domains.Placed.{in_domain}
use accelrd.Topology.Discover.Domains.Held.{IsHeld}
use accelrd.Topology.Discover.Domains.Members.{discover-IsHeld}
use accelrd.Topology.Discover.{eq_id}
use accelrd.Topology.Discover.Search.{mem}
use accelrd.Daemon.{Resolved, inventory}

-- Whatever the files say, and in whatever order the maps give their entries, the accelerators of the inventory and the domains of the topology
-- agree: each accelerator carries the id of a domain that lists it as a member, and for each member of a domain there is an accelerator with
-- that id that carries the domain's.
pub inventory-IsHeld :
    (fs : Fs) (var : Text → Option Text) (hash : List Text → ℕ)
    (keys_order : List AcceleratorId → List AcceleratorId)
    (same_keys : (x : AcceleratorId) (l : List AcceleratorId)
      → mem eq_id x (keys_order l) ≡ mem eq_id x l)
    (values_order : List Seen → List Seen) (args : Resolved) (heard : List LldpNeighbor)
    → let r = inventory fs var hash keys_order values_order args heard in
      All (λ (a : Accelerator). in_domain r.0.fabric_domains a.id a.fabric_domain ≡ true) r.1
      × All (IsHeld r.1) r.0.fabric_domains
unfolding inventory
inventory-IsHeld fs var hash keys_order same_keys values_order args heard =
    let settings : Settings = record {
      block = args.block;
      rack = args.rack;
      no_lldp = args.no_lldp;
    } in
    discover-IsHeld fs var hash keys_order same_keys values_order settings heard (enumerate_all fs)
      (enumerate_all-IsUnplaced fs)
