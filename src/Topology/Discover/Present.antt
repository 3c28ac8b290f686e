-- ===== src/Topology/Discover/Present.antt =====
-- The groups of `build_amd_xgmi_groups` in src/topology/discover.rs hold ids of accelerators only, and no id twice.
use accelrd.Prelude.{
  ℕ, suc, ◌≡◌, ◌∙◌, ap, sym, refl, inl, inr, Bool, true, List, [], ◌∷◌, Option, none, some, Text,
  ◌=t◌, any, find, keep, map, All, All-imp, Bool-cases, arith,
}
use accelrd.Prelude.Sort.{sort_by, any-sort_by}
use accelrd.Sensors.{AcceleratorId, Accelerator, amd}
use accelrd.Sensors.Sysfs.{Fs, vendor_is}
use accelrd.Topology.Discover.{
  eq_id, Adjacency, keys, ordered, or_default, link, link_peers, link_cards, read_xgmi_peers,
  xgmi_adjacency, by_address, components, build_amd_xgmi_groups,
}
use accelrd.Topology.Discover.Links.{eq_id-IsEq, keys-or_default}
use accelrd.Topology.Discover.Linked.{IsLinked, link-keys, xgmi_adjacency-IsLinked}
use accelrd.Topology.Discover.Search.{mem, weight}
use accelrd.Topology.Discover.Search.Groups.{IsComponent, groups_from-IsComponent}
use accelrd.Topology.Discover.Search.Apart.{AreApart, IsComponent-keys, groups_from-AreApart}
use accelrd.Topology.Discover.Groups.{covers, ordered_sym, nothing_visited, count_sorted}

-- An accelerator of the list has the id.
abbrev pub present : List Accelerator → AcceleratorId → Bool
present l x = any (λ (a : Accelerator). eq_id x a.id) l

-- All keys are ids of the list.
abbrev KeysIn : List Accelerator → Adjacency → Type 0
KeysIn l adjacency = (x : AcceleratorId) → mem eq_id x (keys adjacency) ≡ true → present l x ≡ true

present_of :
    (l : List Accelerator) (x y : AcceleratorId)
    → eq_id x y ≡ true
    → present l y ≡ true
    → present l x ≡ true
present_of l x y e h = ap (present l) (eq_id-IsEq.eq_sound x y e) ∙ h

find-present :
    (l : List Accelerator) (addr : Text) (a : Accelerator)
    → find (λ p. p.id.pci_addr =t addr) l ≡ some a
    → present l a.id ≡ true
find-present [] addr a h = absurd (cc (h))
find-present (b ∷ l) addr a h = elim (Bool-cases (b.id.pci_addr =t addr)) [
  | inl e ↦
      let same : b ≡ a = ground (arith, e, h) in
      let q : eq_id a.id b.id ≡ true =
        ap (λ (x : Accelerator). eq_id x.id b.id) (sym same) ∙ eq_id-IsEq.eq_refl b.id in
      rw q refl
  | inr e ↦ let q = find-present l addr a (ground (arith, e, h)) in ground (arith, q)
]

present_self : (l : List Accelerator) → All (λ (a : Accelerator). present l a.id ≡ true) l
present_self [] = tt
present_self (a ∷ l) = (
  ground (arith, eq_id-IsEq.eq_refl a.id),
  All-imp (λ (b : Accelerator) e. ground (arith, e)) l (present_self l),
)

keep-present :
    (p : Accelerator → Bool) (l : List Accelerator) (x : AcceleratorId)
    → present (keep p l) x ≡ true
    → present l x ≡ true
keep-present p [] x h = h
keep-present p (a ∷ l) x h = ground (arith, h, keep-present p l x)

link-KeysIn :
    (l : List Accelerator) (a peer : AcceleratorId) (adjacency : Adjacency)
    → KeysIn l adjacency
    → present l a ≡ true
    → present l peer ≡ true
    → KeysIn l (link a peer adjacency)
link-KeysIn l a peer adjacency h k m x e =
    ground (arith, e, link-keys a peer adjacency x, h x, present_of l x a, present_of l x peer)

or_default-KeysIn :
    (l : List Accelerator) (a : AcceleratorId) (adjacency : Adjacency)
    → KeysIn l adjacency
    → present l a ≡ true
    → KeysIn l (or_default a adjacency)
or_default-KeysIn l a adjacency h k x e =
    ground (arith, e, keys-or_default adjacency a x, h x, present_of l x a)

module _ (fs : Fs) where
  link_peers-KeysIn :
      (l : List Accelerator) (a : AcceleratorId) (addrs : List Text) (adjacency : Adjacency)
      → KeysIn l adjacency
      → present l a ≡ true
      → KeysIn l (link_peers fs l a addrs adjacency)
  unfolding link_peers
  link_peers-KeysIn l a [] adjacency h k = h
  link_peers-KeysIn l a (addr ∷ addrs) adjacency h k =
      link_peers-KeysIn l a addrs _ (go (find (λ p. p.id.pci_addr =t addr) l) refl) k
    where
      go :
          (o : Option Accelerator)
          → find (λ p. p.id.pci_addr =t addr) l ≡ o
          → KeysIn l (elim o [ none ↦ adjacency | some peer ↦ link a peer.id adjacency ])
      go none e = h
      go (some peer) e = link-KeysIn l a peer.id adjacency h k (find-present l addr peer e)

  link_cards-KeysIn :
      (l cards : List Accelerator) (adjacency : Adjacency)
      → KeysIn l adjacency
      → All (λ (a : Accelerator). present l a.id ≡ true) cards
      → KeysIn l (link_cards fs l cards adjacency)
  unfolding link_cards
  link_cards-KeysIn l [] adjacency h k = h
  link_cards-KeysIn l (a ∷ rest) adjacency h k =
      link_cards-KeysIn l rest _
        (link_peers-KeysIn l a.id (read_xgmi_peers fs a.device_dir) _
          (or_default-KeysIn l a.id adjacency h k.0) k.0)
        k.1

  xgmi_adjacency-KeysIn : (accels : List Accelerator) → KeysIn accels (xgmi_adjacency fs accels)
  unfolding xgmi_adjacency
  xgmi_adjacency-KeysIn accels x h =
      let cards = keep (λ a. vendor_is a.id.vendor amd) accels in
      keep-present (λ a. vendor_is a.id.vendor amd) accels x
        (link_cards-KeysIn cards cards [] (λ y e. absurd (cc (e))) (present_self cards) x h)

module _ (adjacency : Adjacency) (linked : IsLinked adjacency) where
  sorted-AreApart :
      (groups : List (List AcceleratorId))
      → AreApart eq_id groups
      → AreApart eq_id (map (sort_by by_address) groups)
  sorted-AreApart [] h = tt
  sorted-AreApart (g ∷ groups) h = (
    λ m e.
        count_sorted adjacency linked m groups
        ∙ h.0 m (sym (any-sort_by by_address (eq_id m) g) ∙ e),
    sorted-AreApart groups h.1,
  )

  sorted-keys :
      (groups : List (List AcceleratorId))
      → All (IsComponent eq_id eq_id-IsEq (ordered adjacency) (keys adjacency)) groups
      → All
          (λ g. (m : AcceleratorId) → mem eq_id m g ≡ true → mem eq_id m (keys adjacency) ≡ true)
          (map (sort_by by_address) groups)
  sorted-keys [] h = tt
  sorted-keys (g ∷ groups) h = (
    λ m e.
        IsComponent-keys eq_id eq_id-IsEq (ordered adjacency) (keys adjacency)
          (covers adjacency linked) g h.0 m (sym (any-sort_by by_address (eq_id m) g) ∙ e),
    sorted-keys groups h.1,
  )

module _ (fs : Fs) (order : List AcceleratorId → List AcceleratorId)
    (same_keys : (x : AcceleratorId) (l : List AcceleratorId)
      → mem eq_id x (order l) ≡ mem eq_id x l)
    (accels : List Accelerator) where
  abbrev adjacency : Adjacency
  adjacency = xgmi_adjacency fs accels

  abbrev linked : IsLinked adjacency
  linked = xgmi_adjacency-IsLinked fs accels

  abbrev fuel : ℕ
  fuel = suc (weight eq_id (ordered adjacency) [] (keys adjacency))

  pub groups-AreApart : AreApart eq_id (build_amd_xgmi_groups fs order accels)
  unfolding build_amd_xgmi_groups components
  groups-AreApart = sorted-AreApart adjacency linked (components fs order adjacency) (
      groups_from-AreApart eq_id eq_id-IsEq (ordered adjacency) (keys adjacency)
        (covers adjacency linked) (ordered_sym adjacency linked) fuel (omega arith)
        (order (keys adjacency)) [] (nothing_visited adjacency linked)
        (λ x h. sym (same_keys x (keys adjacency)) ∙ h))

  -- Each member of a group is the id of an accelerator.
  pub groups-present :
      All
        (λ g. (m : AcceleratorId) → mem eq_id m g ≡ true → present accels m ≡ true)
        (build_amd_xgmi_groups fs order accels)
  unfolding build_amd_xgmi_groups components
  groups-present =
      All-imp (λ g f m e. xgmi_adjacency-KeysIn fs accels m (f m e)) _
        (sorted-keys adjacency linked (components fs order adjacency) (
          groups_from-IsComponent eq_id eq_id-IsEq (ordered adjacency) (keys adjacency)
            (covers adjacency linked) (ordered_sym adjacency linked) fuel (omega arith)
            (order (keys adjacency)) [] (nothing_visited adjacency linked)
            (λ x h. sym (same_keys x (keys adjacency)) ∙ h)))
