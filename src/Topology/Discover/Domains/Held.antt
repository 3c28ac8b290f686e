-- ===== src/Topology/Discover/Domains/Held.antt =====
-- Every domain of `discover` in src/topology/discover.rs is carried by the cards that it lists.
use accelrd.Prelude.{
  ◌≡◌, ◌∙◌, ap, sym, refl, inl, inr, Bool, true, false, ◌&&◌, List, [], ◌∷◌, Option, none, some,
  Text, ◌=t◌, =t_refl, any, arith, Bool-cases,
}
use accelrd.Sensors.{AcceleratorId, Accelerator}
use accelrd.Topology.{FabricDomain}
use accelrd.Topology.Discover.{eq_id}
use accelrd.Topology.Discover.Search.{mem}
use accelrd.Topology.Discover.Links.{eq_id-IsEq}
use accelrd.Topology.Discover.Present.{present}
use accelrd.Topology.Discover.Domains.{assign_one, assign_fabric}

abbrev pub carries : Option Text → Text → Bool
carries none id = false
carries (some fabric) id = fabric =t id

-- An accelerator of the list has the id `m` and carries the id of the domain.
abbrev pub held : List Accelerator → (m : AcceleratorId) → (id : Text) → Bool
held l m id = any (λ (a : Accelerator). eq_id m a.id && carries a.fabric_domain id) l

-- All members of the domain carry its id.
abbrev pub IsHeld : List Accelerator → FabricDomain → Type 0
IsHeld l d = (m : AcceleratorId) → mem eq_id m d.member_accelerators ≡ true → held l m d.id ≡ true

-- Other cards keep what they carry.
assign_one-held :
    (id other : Text) (l : List Accelerator) (m x : AcceleratorId)
    → eq_id x m ≡ false
    → held l x other ≡ true
    → held (assign_one id l m) x other ≡ true
unfolding assign_one
assign_one-held id other [] m x n h = h
assign_one-held id other (a ∷ rest) m x n h = elim (Bool-cases (eq_id a.id m)) [
  | inl e ↦
      let q : eq_id x a.id ≡ false = ap (eq_id x) (eq_id-IsEq.eq_sound a.id m e) ∙ n in
      rw e (ground (arith, q, h))
  | inr e ↦ rw e (ground (arith, h, assign_one-held id other rest m x n))
]

-- A card that carries the same id keeps it.
assign_one-same :
    (id : Text) (l : List Accelerator) (m x : AcceleratorId)
    → held l x id ≡ true
    → held (assign_one id l m) x id ≡ true
unfolding assign_one
assign_one-same id [] m x h = h
assign_one-same id (a ∷ rest) m x h = elim (Bool-cases (eq_id a.id m)) [
  | inl e ↦ rw e (ground (arith, h, =t_refl id))
  | inr e ↦ rw e (ground (arith, h, assign_one-same id rest m x))
]

assign_one-new :
    (id : Text) (l : List Accelerator) (m : AcceleratorId)
    → present l m ≡ true
    → held (assign_one id l m) m id ≡ true
unfolding assign_one
assign_one-new id [] m h = absurd (cc (h))
assign_one-new id (a ∷ rest) m h = elim (Bool-cases (eq_id a.id m)) [
  | inl e ↦
      let q : eq_id m a.id ≡ true =
        ap (eq_id m) (eq_id-IsEq.eq_sound a.id m e) ∙ eq_id-IsEq.eq_refl m in
      rw e (ground (arith, q, =t_refl id))
  | inr e ↦ rw e (ground (arith, h, other a.id m e, assign_one-new id rest m))
]
  where
    other : (x y : AcceleratorId) → eq_id x y ≡ false → eq_id y x ≡ false
    other x y e = elim (Bool-cases (eq_id y x)) [
      | inl k ↦
          absurd
            (cc (sym (eq_id-IsEq.eq_refl x) ∙ ap (eq_id x) (sym (eq_id-IsEq.eq_sound y x k)) ∙ e))
      | inr k ↦ k
    ]

assign_one-present :
    (id : Text) (l : List Accelerator) (m x : AcceleratorId)
    → present (assign_one id l m) x ≡ present l x
unfolding assign_one
assign_one-present id [] m x = refl
assign_one-present id (a ∷ rest) m x = elim (Bool-cases (eq_id a.id m)) [
  | inl e ↦ rw e refl
  | inr e ↦ rw (e, assign_one-present id rest m x) refl
]

pub assign_fabric-held :
    (id other : Text) (members : List AcceleratorId) (l : List Accelerator) (x : AcceleratorId)
    → mem eq_id x members ≡ false
    → held l x other ≡ true
    → held (assign_fabric l members id) x other ≡ true
unfolding assign_fabric
assign_fabric-held id other [] l x n h = h
assign_fabric-held id other (m ∷ members) l x n h =
    assign_fabric-held id other members (assign_one id l m) x (ground (arith, n))
      (assign_one-held id other l m x (ground (arith, n)) h)

assign_fabric-same :
    (id : Text) (members : List AcceleratorId) (l : List Accelerator) (x : AcceleratorId)
    → held l x id ≡ true
    → held (assign_fabric l members id) x id ≡ true
unfolding assign_fabric
assign_fabric-same id [] l x h = h
assign_fabric-same id (m ∷ members) l x h =
    assign_fabric-same id members (assign_one id l m) x (assign_one-same id l m x h)

pub assign_fabric-present :
    (id : Text) (members : List AcceleratorId) (l : List Accelerator) (x : AcceleratorId)
    → present (assign_fabric l members id) x ≡ present l x
unfolding assign_fabric
assign_fabric-present id [] l x = refl
assign_fabric-present id (m ∷ members) l x =
    assign_fabric-present id members (assign_one id l m) x ∙ assign_one-present id l m x

pub assign_fabric-new :
    (id : Text) (members : List AcceleratorId) (l : List Accelerator) (x : AcceleratorId)
    → present l x ≡ true
    → mem eq_id x members ≡ true
    → held (assign_fabric l members id) x id ≡ true
unfolding assign_fabric
assign_fabric-new id [] l x p h = absurd (cc (h))
assign_fabric-new id (m ∷ members) l x p h = elim (Bool-cases (eq_id x m)) [
  | inl e ↦
      let q = eq_id-IsEq.eq_sound x m e in
      assign_fabric-same id members (assign_one id l m) x (
        ap (λ y. held (assign_one id l m) y id) q
        ∙ assign_one-new id l m (ap (present l) (sym q) ∙ p))
  | inr e ↦
      assign_fabric-new id members (assign_one id l m) x (assign_one-present id l m x ∙ p)
        (ground (arith, h, e))
]
