-- ===== src/Topology/Discover/Domains/Members.antt =====
-- The domains of `discover` in src/topology/discover.rs and the cards agree on who is in which.
use accelrd.Prelude.{
  ℕ, ◌≡◌, ◌∙◌, ap, refl, inl, inr, Bool, true, false, ◌&&◌, ◌||◌, List, [], ◌∷◌, ◌++◌, Option, none,
  some, Text, =t_refl, All, All-imp, All-append, foldl, count_if, arith, Bool-cases, is_none,
}
use accelrd.Sensors.{AcceleratorId, Accelerator}
use accelrd.Sensors.Sysfs.{Fs}
use accelrd.Topology.{FabricDomain, x_gmi, pcie, LldpNeighbor}
use accelrd.Topology.Discover.{eq_id, build_amd_xgmi_groups}
use accelrd.Topology.Discover.Search.{mem}
use accelrd.Topology.Discover.Search.Apart.{AreApart}
use accelrd.Topology.Discover.Links.{eq_id-IsEq}
use accelrd.Topology.Discover.Present.{present, groups-AreApart, groups-present}
use accelrd.Topology.Discover.Domains.{
  assign_fabric, domain, place_group, place_single, place, stable_domain_id, Settings, Seen,
  discover,
}
use accelrd.Topology.Discover.Domains.Placed.{in_domain, place-All}
use accelrd.Topology.Discover.Domains.Held.{
  carries, held, IsHeld, assign_fabric-held, assign_fabric-present, assign_fabric-new,
}

-- The members are ids of the list.
abbrev ArePresent : List Accelerator → List AcceleratorId → Type 0
ArePresent l g = (m : AcceleratorId) → mem eq_id m g ≡ true → present l m ≡ true

-- The domain is held, and no group that is still to place has a member of it.
abbrev IsKept : List Accelerator → List (List AcceleratorId) → FabricDomain → Type 0
IsKept l groups d =
    IsHeld l d
    × ((m : AcceleratorId)
        → mem eq_id m d.member_accelerators ≡ true
        → count_if (mem eq_id m) groups ≡ 0)

or_right : (x y : Bool) → y ≡ true → (x || y) ≡ true
or_right x y h = ground (arith, h)

or_mono : (x y z : Bool) → (y ≡ true → z ≡ true) → (x || y) ≡ true → (x || z) ≡ true
or_mono true y z f h = refl
or_mono false y z f h = f h

module _ (hash : List Text → ℕ) where
  kept :
      (id : Text) (g : List AcceleratorId) (groups : List (List AcceleratorId))
      (l : List Accelerator) (d : FabricDomain)
      → IsKept l (g ∷ groups) d
      → IsKept (assign_fabric l g id) groups d
  kept id g groups l d h = (
    λ m e.
        let none_here : mem eq_id m g ≡ false = ground (arith, h.1 m e) in
        assign_fabric-held id d.id g l m none_here (h.0 m e),
    λ m e. ground (arith, h.1 m e),
  )

  groups-IsHeld :
      (groups : List (List AcceleratorId)) (l : List Accelerator) (ds : List FabricDomain)
      → AreApart eq_id groups
      → All (ArePresent l) groups
      → All (IsKept l groups) ds
      → let r = foldl (place_group hash) (l, ds) groups in All (IsHeld r.0) r.1
  unfolding place_group
  groups-IsHeld [] l ds a p k = All-imp (λ d h. h.0) ds k
  groups-IsHeld (g ∷ groups) l ds a p k =
      let id = stable_domain_id hash g in
      let l' = assign_fabric l g id in
      groups-IsHeld groups l' _ a.1
        (All-imp (λ g' f m e. assign_fabric-present id g l m ∙ f m e) groups p.1)
        (All-append (IsKept l' groups) ds (domain x_gmi id g ∷ [])
          (All-imp (λ d h. kept id g groups l d h) ds k)
          ((λ m e. assign_fabric-new id g l m (p.0 m e) e, a.0), tt))

  abbrev single : Accelerator → FabricDomain
  single a = domain pcie (stable_domain_id hash (a.id ∷ [])) (a.id ∷ [])

  -- A card that carries an id keeps it in the second loop.
  place_single-held :
      (l : List Accelerator) (ds : List FabricDomain) (m : AcceleratorId) (id : Text)
      → held l m id ≡ true
      → held (place_single hash l ds).0 m id ≡ true
  unfolding place_single
  place_single-held [] ds m id h = h
  place_single-held (a ∷ rest) ds m id h = elim (Bool-cases (is_none a.fabric_domain)) [
    | inl e ↦
        let not_here : carries a.fabric_domain id ≡ false = free a.fabric_domain e in
        let later : held rest m id ≡ true = ground (arith, h, not_here) in
        rw e (or_right _ _ (place_single-held rest (ds ++ single a ∷ []) m id later))
    | inr e ↦ rw e (
        or_mono (eq_id m a.id && carries a.fabric_domain id) _ _ (place_single-held rest ds m id) h)
  ]
    where
      free : (o : Option Text) → is_none o ≡ true → carries o id ≡ false
      free none h = refl
      free (some x) h = absurd (cc (h))

  -- What holds of the domains before, and of each single card's domain that is carried, holds of all domains after the second loop.
  place_single-domains :
      (P : FabricDomain → Type 0) (l : List Accelerator) (ds : List FabricDomain)
      → All P ds
      → ((a : Accelerator)
          → held (place_single hash l ds).0 a.id (single a).id ≡ true
          → P (single a))
      → All P (place_single hash l ds).1
  unfolding place_single
  place_single-domains P [] ds h f = h
  place_single-domains P (a ∷ rest) ds h f = elim (Bool-cases (is_none a.fabric_domain)) [
    | inl e ↦
        let here : held (place_single hash (a ∷ rest) ds).0 a.id (single a).id ≡ true =
          rw e (ground (arith, eq_id-IsEq.eq_refl a.id, =t_refl (single a).id)) in
        rw e (
          place_single-domains P rest (ds ++ single a ∷ [])
            (All-append P ds (single a ∷ []) h (f a here, tt))
            (λ b k. f b (rw e (ground (arith, k)))))
    | inr e ↦ rw e (place_single-domains P rest ds h (λ b k. f b (rw e (ground (arith, k)))))
  ]

  single-IsHeld :
      (l : List Accelerator) (a : Accelerator)
      → held l a.id (single a).id ≡ true
      → IsHeld l (single a)
  single-IsHeld l a h m e =
      let q : m ≡ a.id = eq_id-IsEq.eq_sound m a.id (ground (arith, e)) in
      ap (λ x. held l x (single a).id) q ∙ h

  place-IsHeld :
      (groups : List (List AcceleratorId)) (l : List Accelerator)
      → AreApart eq_id groups
      → All (ArePresent l) groups
      → let r = place hash groups l in All (IsHeld r.0) r.1
  unfolding place
  place-IsHeld groups l a p =
      let grouped = foldl (place_group hash) (l, []) groups in
      let r = place_single hash grouped.0 grouped.1 in
      let keeps : (d : FabricDomain) → IsHeld grouped.0 d → IsHeld r.0 d =
        λ d h m e. place_single-held grouped.0 grouped.1 m d.id (h m e) in
      place_single-domains (IsHeld r.0) grouped.0 grouped.1
        (All-imp keeps grouped.1 (groups-IsHeld groups l [] a p tt)) (single-IsHeld r.0)

module _ (fs : Fs) (var : Text → Option Text) (hash : List Text → ℕ)
    (keys_order : List AcceleratorId → List AcceleratorId)
    (same_keys : (x : AcceleratorId) (l : List AcceleratorId)
      → mem eq_id x (keys_order l) ≡ mem eq_id x l)
    (values_order : List Seen → List Seen) where
  -- Where no accelerator is in a domain yet, the accelerators and the domains agree: each accelerator carries the id of a domain that lists it,
  -- and each member of a domain is an accelerator that carries its id.
  pub discover-IsHeld :
      (args : Settings) (heard : List LldpNeighbor) (accelerators : List Accelerator)
      → All (λ (a : Accelerator). a.fabric_domain ≡ none) accelerators
      → let r = discover fs var hash keys_order values_order args heard accelerators in
        All (λ (a : Accelerator). in_domain r.0.fabric_domains a.id a.fabric_domain ≡ true) r.1
        × All (IsHeld r.1) r.0.fabric_domains
  unfolding discover
  discover-IsHeld args heard accelerators h =
      let groups = build_amd_xgmi_groups fs keys_order accelerators in
      (
        place-All hash groups accelerators h,
        place-IsHeld hash groups accelerators (groups-AreApart fs keys_order same_keys accelerators)
            (groups-present fs keys_order same_keys accelerators),
      )
