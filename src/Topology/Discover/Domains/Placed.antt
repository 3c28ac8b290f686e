-- ===== src/Topology/Discover/Domains/Placed.antt =====
-- Every card ends in a domain that the topology of src/topology/discover.rs lists.
use accelrd.Prelude.{
  ℕ, ◌≡◌, ◌⊎◌, inl, inr, Bool, true, false, List, [], ◌∷◌, ◌++◌, Option, none, some, Text, ◌=t◌,
  ◌&&◌, =t_refl, All, All-imp, any, foldl, arith, Bool-cases, is_none,
}
use accelrd.Sensors.{AcceleratorId, Accelerator}
use accelrd.Topology.{FabricDomain, FabricKind, x_gmi, pcie}
use accelrd.Topology.Discover.{eq_id}
use accelrd.Topology.Discover.Search.{mem}
use accelrd.Topology.Discover.Links.{eq_id-IsEq}
use accelrd.Topology.Discover.Domains.{
  assign_one, assign_fabric, domain, place_group, place_single, place, stable_domain_id,
}

-- A domain of the list has the id and lists the card as a member.
abbrev listed : List FabricDomain → AcceleratorId → Text → Bool
listed domains m id =
    any (λ (d : FabricDomain). (d.id =t id) && mem eq_id m d.member_accelerators) domains

-- The card with the id `m` carries the id of a domain of the list that lists it as a member.
abbrev pub in_domain :
    List FabricDomain → (m : AcceleratorId) → (fabric_domain : Option Text) → Bool
in_domain domains m none = false
in_domain domains m (some id) =
    any (λ (d : FabricDomain). (d.id =t id) && mem eq_id m d.member_accelerators) domains

-- In a domain of the list, or in none yet.
abbrev MaybeIn : List FabricDomain → Accelerator → Type 0
MaybeIn domains a = (a.fabric_domain ≡ none) ⊎ (in_domain domains a.id a.fabric_domain ≡ true)

listed-append :
    (ds es : List FabricDomain) (m : AcceleratorId) (id : Text)
    → listed ds m id ≡ true
    → listed (ds ++ es) m id ≡ true
listed-append [] es m id h = absurd (cc (h))
listed-append (d ∷ ds) es m id h = ground (arith, listed-append ds es m id)

listed-last :
    (ds : List FabricDomain) (d : FabricDomain) (m : AcceleratorId)
    → mem eq_id m d.member_accelerators ≡ true
    → listed (ds ++ d ∷ []) m d.id ≡ true
listed-last [] d m h = ground (arith, h, =t_refl d.id)
listed-last (e ∷ ds) d m h = ground (arith, listed-last ds d m h)

in_domain-append :
    (ds es : List FabricDomain) (m : AcceleratorId) (o : Option Text)
    → in_domain ds m o ≡ true
    → in_domain (ds ++ es) m o ≡ true
in_domain-append ds es m none h = absurd (cc (h))
in_domain-append ds es m (some id) h = listed-append ds es m id h

assign_one-All :
    (P : Accelerator → Type 0) (id : Text) (l : List Accelerator) (m : AcceleratorId)
    → ((a : Accelerator) → eq_id a.id m ≡ true → P (record a { fabric_domain = some id }))
    → All P l
    → All P (assign_one id l m)
unfolding assign_one
assign_one-All P id [] m f h = tt
assign_one-All P id (a ∷ rest) m f h = elim (Bool-cases (eq_id a.id m)) [
  | inl e ↦ rw e (f a e, h.1)
  | inr e ↦ rw e (h.0, assign_one-All P id rest m f h.1)
]

assign_fabric-All :
    (P : Accelerator → Type 0) (id : Text) (members : List AcceleratorId) (l : List Accelerator)
    → ((a : Accelerator) → mem eq_id a.id members ≡ true → P (record a { fabric_domain = some id }))
    → All P l
    → All P (assign_fabric l members id)
unfolding assign_fabric
assign_fabric-All P id [] l f h = h
assign_fabric-All P id (m ∷ members) l f h =
    assign_fabric-All P id members (assign_one id l m) (λ a e. f a (ground (arith, e)))
      (assign_one-All P id l m (λ a e. f a (ground (arith, e))) h)

MaybeIn-append : (ds es : List FabricDomain) (a : Accelerator) → MaybeIn ds a → MaybeIn (ds ++ es) a
MaybeIn-append ds es a (inl e) = inl e
MaybeIn-append ds es a (inr e) = inr (in_domain-append ds es a.id a.fabric_domain e)

grown-All :
    (kind : FabricKind) (id : Text) (members : List AcceleratorId) (l : List Accelerator)
    (ds : List FabricDomain)
    → All (MaybeIn ds) l
    → All (MaybeIn (ds ++ domain kind id members ∷ [])) (assign_fabric l members id)
grown-All kind id members l ds h =
    assign_fabric-All (MaybeIn (ds ++ domain kind id members ∷ [])) id members l
      (λ a e. inr (listed-last ds (domain kind id members) a.id e))
      (All-imp (MaybeIn-append ds (domain kind id members ∷ [])) l h)

-- The domains that are listed after a step hold those before it.
abbrev Extends : List FabricDomain → List FabricDomain → Type 0
Extends ds es = (m : AcceleratorId) (id : Text) → listed ds m id ≡ true → listed es m id ≡ true

placed_of :
    (ds : List FabricDomain) (a : Accelerator)
    → MaybeIn ds a
    → is_none a.fabric_domain ≡ false
    → in_domain ds a.id a.fabric_domain ≡ true
placed_of ds a (inl e) h = absurd (cc (e, h))
placed_of ds a (inr e) h = e

in_domain-Extends :
    (ds es : List FabricDomain) (m : AcceleratorId) (o : Option Text)
    → Extends ds es
    → in_domain ds m o ≡ true
    → in_domain es m o ≡ true
in_domain-Extends ds es m none f h = absurd (cc (h))
in_domain-Extends ds es m (some id) f h = f m id h

module _ (hash : List Text → ℕ) where
  place_group-All :
      (l : List Accelerator) (ds : List FabricDomain) (members : List AcceleratorId)
      → All (MaybeIn ds) l
      → let r = place_group hash (l, ds) members in All (MaybeIn r.1) r.0
  unfolding place_group
  place_group-All l ds members h = grown-All x_gmi (stable_domain_id hash members) members l ds h

  groups-All :
      (groups : List (List AcceleratorId)) (l : List Accelerator) (ds : List FabricDomain)
      → All (MaybeIn ds) l
      → let r = foldl (place_group hash) (l, ds) groups in All (MaybeIn r.1) r.0
  groups-All [] l ds h = h
  groups-All (g ∷ groups) l ds h =
      let r = place_group hash (l, ds) g in groups-All groups r.0 r.1 (place_group-All l ds g h)

  single : Accelerator → FabricDomain
  single a = domain pcie (stable_domain_id hash (a.id ∷ [])) (a.id ∷ [])

  place_single-Extends :
      (l : List Accelerator) (ds : List FabricDomain) → Extends ds (place_single hash l ds).1
  unfolding place_single single
  place_single-Extends [] ds m id h = h
  place_single-Extends (a ∷ rest) ds m id h = elim (Bool-cases (is_none a.fabric_domain)) [
    | inl e ↦ rw e (
        place_single-Extends rest (ds ++ single a ∷ []) m id
          (listed-append ds (single a ∷ []) m id h))
    | inr e ↦ rw e (place_single-Extends rest ds m id h)
  ]

  place_single-All :
      (l : List Accelerator) (ds : List FabricDomain)
      → All (MaybeIn ds) l
      → let r = place_single hash l ds in
        All (λ (a : Accelerator). in_domain r.1 a.id a.fabric_domain ≡ true) r.0
  unfolding place_single single
  place_single-All [] ds h = tt
  place_single-All (a ∷ rest) ds h = elim (Bool-cases (is_none a.fabric_domain)) [
    | inl e ↦
        let es = ds ++ single a ∷ [] in
        rw e (
          place_single-Extends rest es a.id (single a).id
              (listed-last ds (single a) a.id (ground (arith, eq_id-IsEq.eq_refl a.id))),
          place_single-All rest es (All-imp (MaybeIn-append ds (single a ∷ [])) rest h.1),
        )
    | inr e ↦ rw e (
      in_domain-Extends ds (place_single hash rest ds).1 a.id a.fabric_domain
          (place_single-Extends rest ds) (placed_of ds a h.0 e),
      place_single-All rest ds h.1,
    )
  ]

  -- Every accelerator ends in a domain that lists it.
  pub place-All :
      (groups : List (List AcceleratorId)) (l : List Accelerator)
      → All (λ (a : Accelerator). a.fabric_domain ≡ none) l
      → let r = place hash groups l in
        All (λ (a : Accelerator). in_domain r.1 a.id a.fabric_domain ≡ true) r.0
  unfolding place
  place-All groups l h =
      let grouped = foldl (place_group hash) (l, []) groups in
      place_single-All grouped.0 grouped.1 (groups-All groups l [] (All-imp (λ a e. inl e) l h))
