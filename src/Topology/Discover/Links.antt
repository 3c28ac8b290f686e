-- ===== src/Topology/Discover/Links.antt =====
-- What the steps of the map of xGMI links in src/topology/discover.rs do to it.
use accelrd.Prelude.{
  ◌≡◌, ◌∙◌, sym, ap, refl, Bool, true, false, not, ◌&&◌, ◌||◌, List, [], ◌∷◌, ◌++◌, if◌then◌else◌,
  arith, Bool-cases, inl, inr, =t_iff, =t_refl,
}
use accelrd.Sensors.{Vendor, amd, nvidia, intel, other, AcceleratorId}
use accelrd.Sensors.Sysfs.{vendor_is}
use accelrd.Topology.Discover.{eq_id, Adjacency, keys, neighbors, or_default, insert_at}
use accelrd.Topology.Discover.Search.{IsEq, mem}

vendor_is_refl : (v : Vendor) → vendor_is v v ≡ true
vendor_is_refl amd = refl
vendor_is_refl nvidia = refl
vendor_is_refl intel = refl
vendor_is_refl other = refl

vendor_is_sound : (a b : Vendor) → vendor_is a b ≡ true → a ≡ b
vendor_is_sound a b h = ground (arith, h)

id_path :
    (x y : AcceleratorId)
    → x.vendor ≡ y.vendor
    → x.drm_index ≡ y.drm_index
    → x.pci_addr ≡ y.pci_addr
    → x ≡ y
id_path x y e f g = cc (e, f, g)

pub eq_id-IsEq : IsEq eq_id
eq_id-IsEq = record {
  eq_refl = λ x. ground (arith, vendor_is_refl x.vendor, =t_refl x.pci_addr);
  eq_sound = λ x y h.
      id_path x y (vendor_is_sound x.vendor y.vendor (ground (arith, h))) (ground (arith, h))
        ((=t_iff x.pci_addr y.pci_addr).0 (ground (arith, h)));
}

eq_id_sym : (x y : AcceleratorId) → eq_id x y ≡ true → eq_id y x ≡ true
eq_id_sym x y e = rw (eq_id-IsEq.eq_sound x y e) (eq_id-IsEq.eq_refl y)

or_false : (b : Bool) → b ≡ b || false
or_false b = ground arith

neighbors-append :
    (adjacency : Adjacency) (id x : AcceleratorId)
    → neighbors (adjacency ++ (id, []) ∷ []) x ≡ neighbors adjacency x
unfolding neighbors
neighbors-append [] id x = ground arith
neighbors-append (e ∷ rest) id x = rw (neighbors-append rest id x) refl

pub neighbors-or_default :
    (adjacency : Adjacency) (id x : AcceleratorId)
    → neighbors (or_default id adjacency) x ≡ neighbors adjacency x
unfolding or_default
neighbors-or_default adjacency id x = elim (Bool-cases (mem eq_id id (keys adjacency))) [
  | inl e ↦ rw e refl
  | inr e ↦ rw e (neighbors-append adjacency id x)
]

keys-append :
    (adjacency : Adjacency) (id x : AcceleratorId)
    → mem eq_id x (keys (adjacency ++ (id, []) ∷ [])) ≡ mem eq_id x (keys adjacency) || eq_id x id
keys-append [] id x = ground arith
keys-append (e ∷ rest) id x = ground (arith, keys-append rest id x)

pub keys-or_default :
    (adjacency : Adjacency) (id x : AcceleratorId)
    → mem eq_id x (keys (or_default id adjacency)) ≡ mem eq_id x (keys adjacency) || eq_id x id
unfolding or_default
keys-or_default adjacency id x = elim (Bool-cases (mem eq_id id (keys adjacency))) [
  | inl e ↦ elim (Bool-cases (eq_id x id)) [
    | inl k ↦ rw (e, k) (present k e)
    | inr k ↦ rw (e, k) (or_false (mem eq_id x (keys adjacency)))
  ]
  | inr e ↦ rw e (keys-append adjacency id x)
]
  where
    present :
        eq_id x id ≡ true
        → mem eq_id id (keys adjacency) ≡ true
        → mem eq_id x (keys adjacency) ≡ mem eq_id x (keys adjacency) || true
    present k e = rw (eq_id-IsEq.eq_sound x id k, e) refl

pub keys-insert_at :
    (adjacency : Adjacency) (id peer : AcceleratorId)
    → keys (insert_at id peer adjacency) ≡ keys adjacency
unfolding insert_at
keys-insert_at [] id peer = refl
keys-insert_at (e ∷ rest) id peer = elim (Bool-cases (eq_id id e.0)) [
  | inl h ↦ rw h refl
  | inr h ↦ rw (h, keys-insert_at rest id peer) refl
]

eq_via : (x z id : AcceleratorId) → eq_id x z ≡ true → eq_id id z ≡ true → eq_id x id ≡ true
eq_via x z id e f = rw (eq_id-IsEq.eq_sound x z e) (eq_id_sym id z f)

-- Of two ids one is the third and the other is not: they differ.
eq_id_ne :
    (x id z : AcceleratorId) (b : Bool) → eq_id x z ≡ b → eq_id id z ≡ not b → eq_id x id ≡ false
eq_id_ne x id z b e f = elim (Bool-cases (eq_id x id)) [
  | inl k ↦
      let q : b ≡ not b = sym e ∙ ap (λ w. eq_id w z) (eq_id-IsEq.eq_sound x id k) ∙ f in
      absurd (ground (arith, q))
  | inr k ↦ k
]

mem_add :
    (y peer : AcceleratorId) (l : List AcceleratorId)
    → mem eq_id y (if mem eq_id peer l then l else peer ∷ l) ≡ mem eq_id y l || eq_id y peer
mem_add y peer l = elim (Bool-cases (mem eq_id peer l)) [
  | inl e ↦ elim (Bool-cases (eq_id y peer)) [
    | inl k ↦
        rw (e, k)
          (ap (λ z. mem eq_id z l) (eq_id-IsEq.eq_sound y peer k) ∙ e ∙ or_true (mem eq_id y l))
    | inr k ↦ rw (e, k) (or_false (mem eq_id y l))
  ]
  | inr e ↦ rw e (or_comm (eq_id y peer) (mem eq_id y l))
]
  where
    or_true : (b : Bool) → true ≡ b || true
    or_true b = ground arith

    or_comm : (a b : Bool) → a || b ≡ b || a
    or_comm a b = ground arith

-- An insertion adds the one link, at a key that is present.
pub neighbors-insert_at :
    (adjacency : Adjacency) (id peer x y : AcceleratorId)
    → mem eq_id id (keys adjacency) ≡ true
    → mem eq_id y (neighbors (insert_at id peer adjacency) x)
      ≡ mem eq_id y (neighbors adjacency x) || (eq_id x id && eq_id y peer)
unfolding insert_at neighbors
neighbors-insert_at [] id peer x y h = absurd (cc (h))
neighbors-insert_at (e ∷ rest) id peer x y h = elim (Bool-cases (eq_id id e.0)) [
  | inl k ↦ elim (Bool-cases (eq_id x e.0)) [
    | inl l ↦ rw (k, l, eq_via x e.0 id l k) (mem_add y peer e.1)
    | inr l ↦ rw (k, l, eq_id_ne x id e.0 false l k) (or_false (mem eq_id y (neighbors rest x)))
  ]
  | inr k ↦ elim (Bool-cases (eq_id x e.0)) [
    | inl l ↦ rw (k, l, eq_id_ne x id e.0 true l k) (or_false (mem eq_id y e.1))
    | inr l ↦ rw (k, l) (neighbors-insert_at rest id peer x y (ground (arith, h, k)))
  ]
]
