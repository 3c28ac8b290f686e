-- ===== src/Topology/Discover/Search/Apart.antt =====
-- The groups of the search in src/topology/discover.rs have no node in common, and hold keys only.
use accelrd.Prelude.{
  ℕ, suc, ◌≤◌, ◌≡◌, inl, inr, Bool, true, List, [], ◌∷◌, arith, Bool-cases, count_if,
}
use accelrd.Topology.Discover.Search.{IsEq, mem, search, weight, groups_from, Connected, Covers}
use accelrd.Topology.Discover.Search.Groups.{
  IsClosed, IsSymmetric, IsComponent, done, found, count_visited,
}

module _ {A : Type 0} (eq : A → A → Bool) where
  -- The members of each group are in no later group.
  abbrev pub AreApart : List (List A) → Type 0
  AreApart [] = Unit
  AreApart (g ∷ groups) =
      ((m : A) → mem eq m g ≡ true → count_if (mem eq m) groups ≡ 0) × AreApart groups

  module _ (is_eq : IsEq eq) (adj : A → List A) (keys : List A) (c : Covers eq adj keys) where
    Connected-keys : (x y : A) → mem eq x keys ≡ true → Connected eq adj x y → mem eq y keys ≡ true
    Connected-keys x _ k Connected.here = k
    Connected-keys x _ k (Connected.step y z h e) = c.keys_closed y z (Connected-keys x y k h) e

    pub IsComponent-keys :
        (group : List A)
        → IsComponent eq is_eq adj keys group
        → (m : A) → mem eq m group ≡ true
        → mem eq m keys ≡ true
    IsComponent-keys group g m h = Connected-keys g.of m g.is_key ((g.members m).0 h)

    module _ (sym_adj : IsSymmetric eq is_eq adj) (fuel : ℕ)
        (enough : suc (weight eq adj [] keys) ≤ fuel) where
      pub groups_from-AreApart :
          (ks visited : List A)
          → IsClosed eq is_eq adj visited
          → ((x : A) → mem eq x ks ≡ true → mem eq x keys ≡ true)
          → AreApart (groups_from eq adj fuel visited ks)
      unfolding groups_from
      groups_from-AreApart [] visited cl sub = tt
      groups_from-AreApart (start ∷ ks) visited cl sub =
          let later : (x : A) → mem eq x ks ≡ true → mem eq x keys ≡ true =
            λ x i. sub x (ground (arith, i)) in
          elim (Bool-cases (done eq is_eq adj keys c sym_adj fuel enough visited start)) [
            | inl e ↦ rw e (groups_from-AreApart ks visited cl later)
            | inr e ↦
                let key = sub start (ground (arith, is_eq.eq_refl start)) in
                let r = found eq is_eq adj keys c sym_adj fuel enough visited start key cl e in
                let out = search eq adj fuel visited [] (start ∷ []) in
                rw e (
                  λ m h.
                      count_visited eq is_eq adj keys c sym_adj fuel enough ks out.0 r.1 later m
                        (ground (arith, h, r.0.now_is m)),
                  groups_from-AreApart ks out.0 r.1 later,
                )
          ]
