-- ===== src/Topology/Discover/Linked.antt =====
-- Links of src/topology/discover.rs go both ways, and every peer is a key.
use accelrd.Prelude.{
  ◌≡◌, ◌∙◌, ap, true, ◌&&◌, ◌||◌, List, [], ◌∷◌, Option, none, some, Text, ◌=t◌, arith, find, keep,
}
use accelrd.Sensors.{amd, AcceleratorId, Accelerator}
use accelrd.Sensors.Sysfs.{Fs, vendor_is}
use accelrd.Topology.Discover.{
  eq_id, Adjacency, keys, neighbors, or_default, insert_at, link, link_peers, link_cards,
  xgmi_adjacency, read_xgmi_peers,
}
use accelrd.Topology.Discover.Search.{mem}
use accelrd.Topology.Discover.Links.{
  eq_id-IsEq, neighbors-or_default, keys-or_default, keys-insert_at, neighbors-insert_at,
}

-- Links go both ways, and their ends are keys.
pub record IsLinked (adjacency : Adjacency) : Type 0 where
  pub both_ways :
      (x y : AcceleratorId)
      → mem eq_id y (neighbors adjacency x) ≡ true
      → mem eq_id x (neighbors adjacency y) ≡ true
  pub peers_are_keys :
      (x y : AcceleratorId)
      → mem eq_id y (neighbors adjacency x) ≡ true
      → mem eq_id y (keys adjacency) ≡ true

or_default-IsLinked :
    (adjacency : Adjacency) (id : AcceleratorId)
    → IsLinked adjacency
    → IsLinked (or_default id adjacency)
or_default-IsLinked adjacency id h = record {
  both_ways = λ x y e.
      rw (neighbors-or_default adjacency id y)
        (h.both_ways x y (rw (← neighbors-or_default adjacency id x) e));
  peers_are_keys = λ x y e. ground (
    arith,
    keys-or_default adjacency id y,
    h.peers_are_keys x y (rw (← neighbors-or_default adjacency id x) e),
  );
}

link-neighbors :
    (a peer : AcceleratorId) (adjacency : Adjacency) (x y : AcceleratorId)
    → mem eq_id y (neighbors (link a peer adjacency) x)
      ≡ (mem eq_id y (neighbors adjacency x) || (eq_id x a && eq_id y peer))
        || (eq_id x peer && eq_id y a)
unfolding link
link-neighbors a peer adjacency x y =
    neighbors-insert_at both peer a x y (default_key one peer)
    ∙ ap (λ b. b || (eq_id x peer && eq_id y a))
        (ap (mem eq_id y) (neighbors-or_default one peer x)
          ∙ neighbors-insert_at fresh a peer x y (default_key adjacency a)
          ∙ ap (λ l. mem eq_id y l || (eq_id x a && eq_id y peer))
              (neighbors-or_default adjacency a x))
  where
    default_key :
        (adjacency : Adjacency) (id : AcceleratorId)
        → mem eq_id id (keys (or_default id adjacency)) ≡ true
    default_key adjacency id =
        ground (arith, keys-or_default adjacency id id, eq_id-IsEq.eq_refl id)

    fresh : Adjacency
    fresh = or_default a adjacency

    one : Adjacency
    one = insert_at a peer fresh

    both : Adjacency
    both = or_default peer one

pub link-keys :
    (a peer : AcceleratorId) (adjacency : Adjacency) (x : AcceleratorId)
    → mem eq_id x (keys (link a peer adjacency))
      ≡ (mem eq_id x (keys adjacency) || eq_id x a) || eq_id x peer
unfolding link
link-keys a peer adjacency x =
    ap (mem eq_id x) (keys-insert_at (or_default peer one) peer a)
    ∙ keys-or_default one peer x
    ∙ ap (λ b. b || eq_id x peer)
        (ap (mem eq_id x) (keys-insert_at (or_default a adjacency) a peer)
          ∙ keys-or_default adjacency a x)
  where
    one : Adjacency
    one = insert_at a peer (or_default a adjacency)

link-IsLinked :
    (a peer : AcceleratorId) (adjacency : Adjacency)
    → IsLinked adjacency
    → IsLinked (link a peer adjacency)
link-IsLinked a peer adjacency h = record {
  both_ways = λ x y e. ground (
    arith,
    e,
    link-neighbors a peer adjacency x y,
    link-neighbors a peer adjacency y x,
    h.both_ways x y,
  );
  peers_are_keys = λ x y e. ground (
    arith,
    e,
    link-neighbors a peer adjacency x y,
    link-keys a peer adjacency y,
    h.peers_are_keys x y,
  );
}

no_links : (x y : AcceleratorId) → mem eq_id y (neighbors [] x) ≡ true → ⊥
unfolding neighbors
no_links x y e = absurd (cc (e))

nothing : IsLinked []
nothing = record {
  both_ways = λ x y e. absurd (no_links x y e);
  peers_are_keys = λ x y e. absurd (no_links x y e);
}

module _ (fs : Fs) where
  link_peers-IsLinked :
      (cards : List Accelerator) (a : AcceleratorId) (addrs : List Text) (adjacency : Adjacency)
      → IsLinked adjacency
      → IsLinked (link_peers fs cards a addrs adjacency)
  unfolding link_peers
  link_peers-IsLinked cards a [] adjacency h = h
  link_peers-IsLinked cards a (addr ∷ addrs) adjacency h =
      link_peers-IsLinked cards a addrs _ (go (find (λ p. p.id.pci_addr =t addr) cards))
    where
      go :
          (o : Option Accelerator)
          → IsLinked (elim o [ none ↦ adjacency | some peer ↦ link a peer.id adjacency ])
      go none = h
      go (some peer) = link-IsLinked a peer.id adjacency h

  link_cards-IsLinked :
      (all cards : List Accelerator) (adjacency : Adjacency)
      → IsLinked adjacency
      → IsLinked (link_cards fs all cards adjacency)
  unfolding link_cards
  link_cards-IsLinked all [] adjacency h = h
  link_cards-IsLinked all (a ∷ rest) adjacency h = link_cards-IsLinked all rest _ (
      link_peers-IsLinked all a.id (read_xgmi_peers fs a.device_dir) _
        (or_default-IsLinked adjacency a.id h))

  pub xgmi_adjacency-IsLinked : (accels : List Accelerator) → IsLinked (xgmi_adjacency fs accels)
  unfolding xgmi_adjacency
  xgmi_adjacency-IsLinked accels =
      let cards = keep (λ a. vendor_is a.id.vendor amd) accels in
      link_cards-IsLinked cards cards [] nothing
