-- ===== src/Topology/Discover/Groups.antt =====
-- The groups of `build_amd_xgmi_groups` in src/topology/discover.rs are the components of the links.
use accelrd.Prelude.{
  ℕ, suc, ◌≡◌, ◌≢◌, ◌∙◌, sym, refl, true, List, [], ◌∷◌, length, All, map, count_if, arith, ◌↔◌,
}
use accelrd.Prelude.Sort.{sort_by, any-sort_by}
use accelrd.Sensors.{AcceleratorId, Accelerator}
use accelrd.Sensors.Sysfs.{Fs}
use accelrd.Topology.Discover.{
  eq_id, keys, neighbors, ordered, cmp_id, by_address, components, build_amd_xgmi_groups,
  xgmi_adjacency, Adjacency,
}
use accelrd.Topology.Discover.Links.{eq_id-IsEq}
use accelrd.Topology.Discover.Linked.{IsLinked, xgmi_adjacency-IsLinked}
use accelrd.Topology.Discover.Search.{mem, weight, Connected, Covers}
use accelrd.Topology.Discover.Search.Groups.{IsComponent, groups_from-IsComponent, count_fresh}

-- A group of cards: the cards that one of the keys is linked to, by links in any number.
pub record IsLinkGroup (adjacency : Adjacency) (group : List AcceleratorId) : Type 0 where
  pub card : AcceleratorId
  pub has_link : length (ordered adjacency card) ≢ 0
  pub members :
      (x : AcceleratorId) → mem eq_id x group ≡ true ↔ Connected eq_id (ordered adjacency) card x

module _ (adjacency : Adjacency) (linked : IsLinked adjacency) where
  mem-ordered :
      (x y : AcceleratorId)
      → mem eq_id y (ordered adjacency x) ≡ mem eq_id y (neighbors adjacency x)
  unfolding ordered
  mem-ordered x y = any-sort_by cmp_id (eq_id y) (neighbors adjacency x)

  pub ordered_sym :
      (x y : AcceleratorId)
      → mem eq_id y (ordered adjacency x) ≡ true
      → mem eq_id x (ordered adjacency y) ≡ true
  ordered_sym x y e = mem-ordered y x ∙ linked.both_ways x y (sym (mem-ordered x y) ∙ e)

  pub covers : Covers eq_id (ordered adjacency) (keys adjacency)
  covers = record { keys_closed = λ x y h e. linked.peers_are_keys x y (sym (mem-ordered x y) ∙ e) }

  -- Sorting a group keeps its members.
  sorted_group :
      (group : List AcceleratorId)
      → IsLinkGroup adjacency group
      → IsLinkGroup adjacency (sort_by by_address group)
  sorted_group group g = record {
    card = g.card;
    has_link = g.has_link;
    members = λ x. rw (any-sort_by by_address (eq_id x) group) (g.members x);
  }

  sorted_groups :
      (groups : List (List AcceleratorId))
      → All (IsComponent eq_id eq_id-IsEq (ordered adjacency) (keys adjacency)) groups
      → All (IsLinkGroup adjacency) (map (sort_by by_address) groups)
  sorted_groups [] h = tt
  sorted_groups (g ∷ groups) h = (
    sorted_group g (record { card = h.0.of; has_link = h.0.linked; members = h.0.members }),
    sorted_groups groups h.1,
  )

  pub count_sorted :
      (id : AcceleratorId) (groups : List (List AcceleratorId))
      → count_if (mem eq_id id) (map (sort_by by_address) groups) ≡ count_if (mem eq_id id) groups
  count_sorted id [] = refl
  count_sorted id (g ∷ groups) =
      rw (any-sort_by by_address (eq_id id) g, count_sorted id groups) refl

  pub nothing_visited :
      (x y : AcceleratorId)
      → mem eq_id x [] ≡ true
      → mem eq_id y (ordered adjacency x) ≡ true
      → mem eq_id y [] ≡ true
  nothing_visited x y h e = absurd (cc (h))

  module _ (fs : Fs) (order : List AcceleratorId → List AcceleratorId)
      (same_keys : (x : AcceleratorId) (l : List AcceleratorId)
        → mem eq_id x (order l) ≡ mem eq_id x l) where
    abbrev fuel : ℕ
    fuel = suc (weight eq_id (ordered adjacency) [] (keys adjacency))

    pub components-IsLinkGroup :
        All (IsLinkGroup adjacency) (map (sort_by by_address) (components fs order adjacency))
    unfolding components
    components-IsLinkGroup = sorted_groups (components fs order adjacency) (
        groups_from-IsComponent eq_id eq_id-IsEq (ordered adjacency) (keys adjacency) covers
          ordered_sym fuel (omega arith) (order (keys adjacency)) [] nothing_visited
          (λ x h. sym (same_keys x (keys adjacency)) ∙ h))

    pub components_once :
        (id : AcceleratorId)
        → mem eq_id id (keys adjacency) ≡ true
        → length (ordered adjacency id) ≢ 0
        → count_if (mem eq_id id) (map (sort_by by_address) (components fs order adjacency)) ≡ 1
    unfolding components
    components_once id h n =
        count_sorted id (components fs order adjacency)
        ∙ count_fresh eq_id eq_id-IsEq (ordered adjacency) (keys adjacency) covers ordered_sym fuel
            (omega arith) (order (keys adjacency)) [] nothing_visited
            (λ x k. sym (same_keys x (keys adjacency)) ∙ k) id (same_keys id (keys adjacency) ∙ h)
            (ground (arith, n))

module _ (fs : Fs) (order : List AcceleratorId → List AcceleratorId)
    (same_keys : (x : AcceleratorId) (l : List AcceleratorId)
      → mem eq_id x (order l) ≡ mem eq_id x l)
    (accels : List Accelerator) where
  -- In whatever order the map gives its keys, each group holds the cards that one card with a link is connected to through
  -- links, and no others; and each card with a link is in one group.
  pub build_amd_xgmi_groups-IsLinkGroup :
      let adjacency = xgmi_adjacency fs accels in
      let groups = build_amd_xgmi_groups fs order accels in
      All (IsLinkGroup adjacency) groups
      × ((id : AcceleratorId)
          → mem eq_id id (keys adjacency) ≡ true
          → length (ordered adjacency id) ≢ 0
          → count_if (mem eq_id id) groups ≡ 1)
  unfolding build_amd_xgmi_groups
  build_amd_xgmi_groups-IsLinkGroup =
      let linked = xgmi_adjacency-IsLinked fs accels in
      (
        components-IsLinkGroup (xgmi_adjacency fs accels) linked fs order same_keys,
        components_once (xgmi_adjacency fs accels) linked fs order same_keys,
      )
