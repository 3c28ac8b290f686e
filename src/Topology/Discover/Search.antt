-- ===== src/Topology/Discover/Search.antt =====
-- The search of `build_amd_xgmi_groups` in src/topology/discover.rs, over any graph: a stack of nodes to
-- visit, whose head is the one that `pop` takes.
pub mod Component
pub mod Groups
pub mod Apart
use accelrd.Prelude.{
  ℕ, zero, suc, ◌+◌, ◌-◌, ◌≤◌, ◌≡◌, refl, ◌⊎◌, inl, inr, Bool, true, false, not, ◌&&◌, ◌||◌, List,
  [], ◌∷◌, ◌++◌, any, keep, length, ◌==◌, if◌then◌else◌,
}

-- Equality tests that decide equality.
pub record IsEq {A : Type 0} (eq : A → A → Bool) : Type 0 where
  pub eq_refl : (x : A) → eq x x ≡ true
  pub eq_sound : (x y : A) → eq x y ≡ true → x ≡ y

module _ {A : Type 0} (eq : A → A → Bool) where
  abbrev pub mem : A → List A → Bool
  mem x l = any (eq x) l

  -- `queue.extend(..)`: the last neighbour is popped first.
  abbrev pub push_all : List A → List A → List A
  push_all [] queue = queue
  push_all (x ∷ xs) queue = push_all xs (x ∷ queue)

  module _ (adj : A → List A) where
    abbrev pub fresh : List A → A → List A
    fresh visited n = keep (λ m. not (mem m visited)) (adj n)

    -- The visited nodes and the group; the fuel is one round for each pop.
    unfoldable pub search : (fuel : ℕ) (visited group queue : List A) → List A × List A
    search zero visited group queue = (visited, group)
    search (suc fuel) visited group [] = (visited, group)
    search (suc fuel) visited group (n ∷ queue) =
        let skip = search fuel visited group queue in
        let visit =
          search fuel (n ∷ visited) (group ++ n ∷ []) (push_all (fresh (n ∷ visited) n) queue) in
        if mem n visited then skip else visit

    -- What is left to pop at most: what is queued, and the neighbours of the nodes that are not visited.
    unfoldable pub weight : List A → List A → ℕ
    weight visited [] = 0
    weight visited (k ∷ keys) =
        let rest = weight visited keys in
        if mem k visited then rest else suc (length (adj k)) + rest

    -- The loop over the keys of the map.
    unfoldable pub groups_from : (fuel : ℕ) (visited keys : List A) → List (List A)
    unfolding search
    groups_from fuel visited [] = []
    groups_from fuel visited (start ∷ keys) =
        let skip = groups_from fuel visited keys in
        let found = search fuel visited [] (start ∷ []) in
        let rest = groups_from fuel found.0 keys in
        if mem start visited || length (adj start) == 0 then skip else found.1 ∷ rest

    -- The node is linked to `start` by a chain of neighbours.
    pub data Connected (start : A) : A → Type 0 where
      here : Connected start start
      step : (x y : A) → Connected start x → mem y (adj x) ≡ true → Connected start y

    -- The keys hold the neighbours of each key.
    pub record Covers (keys : List A) : Type 0 where
      pub keys_closed : (x y : A) → mem x keys ≡ true → mem y (adj x) ≡ true → mem y keys ≡ true
