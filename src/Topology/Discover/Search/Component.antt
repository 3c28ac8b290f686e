-- ===== src/Topology/Discover/Search/Component.antt =====
-- The search of src/topology/discover.rs ends, and finds the component of the node that it starts from.
use accelrd.Prelude.{
  ℕ, zero, suc, ◌+◌, ◌≤◌, ◌≡◌, ◌∙◌, ap, refl, ◌⊎◌, inl, inr, Bool, true, false, not, ◌&&◌, ◌||◌,
  List, [], ◌∷◌, ◌++◌, keep, length, arith, Bool-cases,
}
use accelrd.Topology.Discover.Search.{IsEq, mem, push_all, fresh, search, weight, Connected, Covers}

module _ {A : Type 0} (eq : A → A → Bool) (is_eq : IsEq eq) where
  abbrev In : A → List A → Type 0
  In x l = mem eq x l ≡ true

  In-push_all :
      (x : A) (l queue : List A) → mem eq x (push_all eq l queue) ≡ mem eq x l || mem eq x queue
  In-push_all x [] queue = refl
  In-push_all x (y ∷ l) queue =
      In-push_all x l (y ∷ queue) ∙ swap (eq x y) (mem eq x l) (mem eq x queue)
    where
      swap : (a b c : Bool) → b || (a || c) ≡ (a || b) || c
      swap a b c = ground arith

  In-append : (x : A) (l r : List A) → mem eq x (l ++ r) ≡ mem eq x l || mem eq x r
  In-append x [] r = refl
  In-append x (y ∷ l) r = ground (arith, In-append x l r)

  length-push_all : (l queue : List A) → length (push_all eq l queue) ≡ length l + length queue
  length-push_all [] queue = omega arith
  length-push_all (x ∷ l) queue = omega (arith, length-push_all l (x ∷ queue))

  length-keep : (p : A → Bool) (l : List A) → length (keep p l) ≤ length l
  length-keep p [] = omega arith
  length-keep p (x ∷ l) = ground (arith, length-keep p l)

  -- A member of the filtered list is a member that passes.
  In-keep : (x : A) (p : A → Bool) (l : List A) → mem eq x (keep p l) ≡ mem eq x l && p x
  In-keep x p [] = refl
  In-keep x p (y ∷ l) = elim (Bool-cases (eq x y)) [
    | inl e ↦ let k : x ≡ y = is_eq.eq_sound x y e in ground (arith, ap p k, In-keep x p l)
    | inr e ↦ ground (arith, In-keep x p l)
  ]

  module _ (adj : A → List A) where
    module _ (start : A) (old : List A) where
      -- What the search keeps: the group is reached from `start` and new, and what is linked to it is visited or queued.
      pub record Inv (visited group queue : List A) : Type 0 where
        pub group_reach : (x : A) → In x group → Connected eq adj start x
        pub queue_reach : (x : A) → In x queue → Connected eq adj start x
        pub visited_is : (x : A) → mem eq x visited ≡ mem eq x old || mem eq x group
        pub group_new : (x : A) → In x group → mem eq x old ≡ false
        pub closed : (x y : A) → In x group → In y (adj x) → In y visited ⊎ In y queue
        pub has_start : In start visited ⊎ In start queue

      Inv-skip :
          (visited group queue : List A) (n : A)
          → In n visited
          → Inv visited group (n ∷ queue)
          → Inv visited group queue
      Inv-skip visited group queue n h i = record {
        group_reach = i.group_reach;
        queue_reach = λ x e. i.queue_reach x (ground (arith, e));
        visited_is = i.visited_is;
        group_new = i.group_new;
        closed = λ x y e k. settle y (i.closed x y e k);
        has_start = settle start i.has_start;
      }
        where
          settle : (y : A) → In y visited ⊎ In y (n ∷ queue) → In y visited ⊎ In y queue
          settle y (inl e) = inl e
          settle y (inr e) = elim (Bool-cases (eq y n)) [
            | inl k ↦ inl (rw (is_eq.eq_sound y n k) h)
            | inr k ↦ inr (ground (arith, e))
          ]

      Inv-visit :
          (visited group queue : List A) (n : A)
          → mem eq n visited ≡ false
          → Inv visited group (n ∷ queue)
          → Inv (n ∷ visited) (group ++ n ∷ []) (push_all eq (fresh eq adj (n ∷ visited) n) queue)
      Inv-visit visited group queue n h i = record {
        group_reach =
            λ x e. elim (in_group x e) [ inl k ↦ i.group_reach x k | inr k ↦ rw k n_reach ];
        queue_reach = λ x e. elim (in_queue x e) [
          | inl k ↦ Connected.step n x n_reach k
          | inr k ↦ i.queue_reach x (ground (arith, k))
        ];
        visited_is = λ x. ground (arith, i.visited_is x, In-append x group (n ∷ []));
        group_new = λ x e. elim (in_group x e) [
          | inl k ↦ i.group_new x k
          | inr k ↦ rw k (ground (arith, i.visited_is n, h))
        ];
        closed = λ x y e k. elim (in_group x e) [
          | inl g ↦ settle y (i.closed x y g k)
          | inr g ↦ queued y (rw (← g) k)
        ];
        has_start = settle start i.has_start;
      }
        where
          n_reach : Connected eq adj start n
          n_reach = i.queue_reach n (ground (arith, is_eq.eq_refl n))

          in_group : (x : A) → In x (group ++ n ∷ []) → In x group ⊎ (x ≡ n)
          in_group x e = ground (arith, e, In-append x group (n ∷ []), is_eq.eq_sound x n)

          push_is :
              (x : A)
              → mem eq x (push_all eq (fresh eq adj (n ∷ visited) n) queue)
                ≡ (mem eq x (adj n) && not (mem eq x (n ∷ visited))) || mem eq x queue
          push_is x =
              In-push_all x (fresh eq adj (n ∷ visited) n) queue
              ∙ ap (λ b. b || mem eq x queue)
                  (In-keep x (λ m. not (mem eq m (n ∷ visited))) (adj n))

          in_queue :
              (x : A)
              → In x (push_all eq (fresh eq adj (n ∷ visited) n) queue)
              → In x (adj n) ⊎ In x queue
          in_queue x e = ground (arith, e, push_is x)

          queued :
              (y : A)
              → In y (adj n)
              → In y (n ∷ visited) ⊎ In y (push_all eq (fresh eq adj (n ∷ visited) n) queue)
          queued y k = ground (arith, k, push_is y)

          settle :
              (y : A)
              → In y visited ⊎ In y (n ∷ queue)
              → In y (n ∷ visited) ⊎ In y (push_all eq (fresh eq adj (n ∷ visited) n) queue)
          settle y e = ground (arith, e, push_is y)

    weight_mono :
        (n : A) (visited keys : List A)
        → weight eq adj (n ∷ visited) keys ≤ weight eq adj visited keys
    unfolding weight
    weight_mono n visited [] = omega arith
    weight_mono n visited (k ∷ keys) = ground (arith, weight_mono n visited keys)

    weight-visit :
        (n : A) (visited keys : List A)
        → In n keys
        → mem eq n visited ≡ false
        → weight eq adj (n ∷ visited) keys + suc (length (adj n)) ≤ weight eq adj visited keys
    unfolding weight
    weight-visit n visited [] h k = absurd (cc (h))
    weight-visit n visited (m ∷ keys) h k = elim (Bool-cases (eq n m)) [
      | inl e ↦
          let e' : n ≡ m = is_eq.eq_sound n m e in
          rw (← e', is_eq.eq_refl n, k) (omega (arith, weight_mono n visited keys))
      | inr e ↦ ground (arith, weight-visit n visited keys)
    ]

    module _ (start : A) (old keys : List A) (c : Covers eq adj keys) (known : In start keys) where
      Connected-In : (x : A) → Connected eq adj start x → In x keys
      Connected-In x Connected.here = known
      Connected-In _ (Connected.step x y h e) = c.keys_closed x y (Connected-In x h) e

      pub search-Inv :
          (fuel : ℕ) (visited group queue : List A)
          → length queue + weight eq adj visited keys ≤ fuel
          → Inv start old visited group queue
          → Inv start old
              (search eq adj fuel visited group queue).0
              (search eq adj fuel visited group queue).1
              []
      unfolding search
      search-Inv zero visited group [] h i = i
      search-Inv zero visited group (n ∷ queue) h i = absurd (omega arith)
      search-Inv (suc fuel) visited group [] h i = i
      search-Inv (suc fuel) visited group (n ∷ queue) h i = elim (Bool-cases (mem eq n visited)) [
        | inl e ↦ rw e (
            search-Inv fuel visited group queue (omega arith)
              (Inv-skip start old visited group queue n e i))
        | inr e ↦
            rw e (search-Inv fuel _ _ _ (less e) (Inv-visit start old visited group queue n e i))
      ]
        where
          less :
              mem eq n visited ≡ false
              → length (push_all eq (fresh eq adj (n ∷ visited) n) queue)
                  + weight eq adj (n ∷ visited) keys
                ≤ fuel
          less e = omega (
            arith,
            length-push_all (fresh eq adj (n ∷ visited) n) queue,
            length-keep (λ m. not (mem eq m (n ∷ visited))) (adj n),
            weight-visit n visited keys
                (Connected-In n (i.queue_reach n (ground (arith, is_eq.eq_refl n)))) e,
          )
