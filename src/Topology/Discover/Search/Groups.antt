-- ===== src/Topology/Discover/Search/Groups.antt =====
-- The groups that the loop over the keys in src/topology/discover.rs collects.
use accelrd.Prelude.{
  ℕ, suc, ◌≤◌, ◌≡◌, ◌≢◌, ap, refl, inl, inr, Bool, true, false, ◌||◌, List, [], ◌∷◌, length, ◌==◌,
  arith, Bool-cases, ◌↔◌, All, count_if,
}
use accelrd.Topology.Discover.Search.{IsEq, mem, search, weight, groups_from, Connected, Covers}
use accelrd.Topology.Discover.Search.Component.{Inv, search-Inv}

module _ {A : Type 0} (eq : A → A → Bool) (is_eq : IsEq eq) (adj : A → List A) where
  abbrev pub In : A → List A → Type 0
  In x l = mem eq x l ≡ true

  -- A group that a search returns, with what was visited before and after it.
  pub record Found (start : A) (old now group : List A) : Type 0 where
    pub component : (x : A) → In x group ↔ Connected eq adj start x
    pub now_is : (x : A) → mem eq x now ≡ mem eq x old || mem eq x group
    pub is_new : (x : A) → In x group → mem eq x old ≡ false

  abbrev pub IsClosed : List A → Type 0
  IsClosed l = (x y : A) → In x l → In y (adj x) → In y l

  abbrev pub IsSymmetric : Type 0
  IsSymmetric = (x y : A) → In y (adj x) → In x (adj y)

  module _ (start : A) (old keys : List A) (c : Covers eq adj keys) (known : In start keys)
      (sym_adj : IsSymmetric) (old_closed : IsClosed old) (new : mem eq start old ≡ false) where
    Inv-start : Inv eq is_eq adj start old old [] (start ∷ [])
    Inv-start = record {
      group_reach = λ x e. absurd (cc (e));
      queue_reach = λ x e.
          let k : x ≡ start = is_eq.eq_sound x start (ground (arith, e)) in rw k Connected.here;
      visited_is = λ x. ground arith;
      group_new = λ x e. absurd (cc (e));
      closed = λ x y e k. absurd (cc (e));
      has_start = inr (ground (arith, is_eq.eq_refl start));
    }

    Found-Inv :
        (now group : List A) → Inv eq is_eq adj start old now group [] → Found start old now group
    Found-Inv now group i = record {
      component = λ x. (i.group_reach x, complete x);
      now_is = i.visited_is;
      is_new = i.group_new;
    }
      where
        complete : (x : A) → Connected eq adj start x → In x group
        complete _ Connected.here = ground (arith, i.has_start, i.visited_is start, new)
        complete _ (Connected.step x y h e) =
            let g = complete x h in
            ground (
              arith,
              i.closed x y g e,
              i.visited_is y,
              old_closed y x,
              sym_adj x y e,
              i.group_new x g,
            )

    pub search-Found :
        (fuel : ℕ)
        → suc (weight eq adj old keys) ≤ fuel
        → let r = search eq adj fuel old [] (start ∷ []) in Found start old r.0 r.1 × IsClosed r.0
    search-Found fuel h =
        let i =
          search-Inv eq is_eq adj start old keys c known fuel old [] (start ∷ []) (omega arith)
            Inv-start in
        (
          Found-Inv _ _ i,
          λ x y e k.
              ground (arith, e, k, i.visited_is x, i.visited_is y, old_closed x y, i.closed x y),
        )

  weight_nil : (visited keys : List A) → weight eq adj visited keys ≤ weight eq adj [] keys
  unfolding weight
  weight_nil visited [] = omega arith
  weight_nil visited (k ∷ keys) = ground (arith, weight_nil visited keys)

  -- A group is the component of a key that has neighbours.
  pub record IsComponent (keys : List A) (group : List A) : Type 0 where
    pub of : A
    pub is_key : In of keys
    pub linked : length (adj of) ≢ 0
    pub members : (x : A) → In x group ↔ Connected eq adj of x

  module _ (keys : List A) (c : Covers eq adj keys) (sym_adj : IsSymmetric) (fuel : ℕ)
      (enough : suc (weight eq adj [] keys) ≤ fuel) where
    -- Nothing to do at a key that was visited or has no neighbours.
    abbrev pub done : List A → A → Bool
    done visited start = mem eq start visited || length (adj start) == 0

    pub found :
        (visited : List A) (start : A)
        → In start keys
        → IsClosed visited
        → done visited start ≡ false
        → let r = search eq adj fuel visited [] (start ∷ []) in
          Found start visited r.0 r.1 × IsClosed r.0
    found visited start k cl e =
        search-Found start visited keys c k sym_adj cl (ground (arith, e)) fuel
          (omega (arith, weight_nil visited keys, enough))

    pub groups_from-IsComponent :
        (ks visited : List A)
        → IsClosed visited
        → ((x : A) → In x ks → In x keys)
        → All (IsComponent keys) (groups_from eq adj fuel visited ks)
    unfolding groups_from
    groups_from-IsComponent [] visited cl sub = tt
    groups_from-IsComponent (start ∷ ks) visited cl sub = elim (Bool-cases (done visited start)) [
      | inl e ↦ rw e (groups_from-IsComponent ks visited cl later)
      | inr e ↦
          let r = found visited start key cl e in
          rw e (
            record {
              of = start;
              is_key = key;
              linked = ground (arith, e);
              members = r.0.component;
            },
            groups_from-IsComponent ks _ r.1 later,
          )
    ]
      where
        key : In start keys
        key = sub start (ground (arith, is_eq.eq_refl start))

        later : (x : A) → In x ks → In x keys
        later x h = sub x (ground (arith, h))

    -- Nodes that were visited are in no later group.
    pub count_visited :
        (ks visited : List A)
        → IsClosed visited
        → ((x : A) → In x ks → In x keys)
        → (k : A) → In k visited
        → count_if (mem eq k) (groups_from eq adj fuel visited ks) ≡ 0
    unfolding groups_from
    count_visited [] visited cl sub k h = refl
    count_visited (start ∷ ks) visited cl sub k h = elim (Bool-cases (done visited start)) [
      | inl e ↦ rw e (count_visited ks visited cl (λ x i. sub x (ground (arith, i))) k h)
      | inr e ↦
          let r = found visited start (sub start (ground (arith, is_eq.eq_refl start))) cl e in
          let out = search eq adj fuel visited [] (start ∷ []) in
          let rest =
            count_visited ks out.0 r.1 (λ x i. sub x (ground (arith, i))) k
              (ground (arith, h, r.0.now_is k)) in
          rw e (ground (arith, rest, h, r.0.is_new k))
    ]

    -- A key with neighbours that was not visited is in one group.
    pub count_fresh :
        (ks visited : List A)
        → IsClosed visited
        → ((x : A) → In x ks → In x keys)
        → (k : A) → In k ks
        → done visited k ≡ false
        → count_if (mem eq k) (groups_from eq adj fuel visited ks) ≡ 1
    unfolding groups_from
    count_fresh [] visited cl sub k h n = absurd (cc (h))
    count_fresh (start ∷ ks) visited cl sub k h n = elim (Bool-cases (done visited start)) [
      | inl e ↦
          let other : eq k start ≡ false =
            apart k start (λ q. ground (arith, e, n, ap (done visited) q)) in
          rw e (count_fresh ks visited cl later k (ground (arith, h, other)) n)
      | inr e ↦
          let r = found visited start key cl e in
          let out = search eq adj fuel visited [] (start ∷ []) in
          rw e (elim (Bool-cases (mem eq k out.1)) [
            | inl g ↦
                rw g (ap suc (count_visited ks out.0 r.1 later k (ground (arith, g, r.0.now_is k))))
            | inr g ↦
                let here : In start out.1 = (r.0.component start).1 Connected.here in
                let other : eq k start ≡ false =
                  apart k start (λ q. ground (arith, g, here, ap (λ z. mem eq z out.1) q)) in
                rw g (
                  count_fresh ks out.0 r.1 later k (ground (arith, h, other))
                    (ground (arith, g, n, r.0.now_is k)))
          ])
    ]
      where
        key : In start keys
        key = sub start (ground (arith, is_eq.eq_refl start))

        later : (x : A) → In x ks → In x keys
        later x i = sub x (ground (arith, i))

        apart : (x y : A) → ((x ≡ y) → ⊥) → eq x y ≡ false
        apart x y f = elim (Bool-cases (eq x y)) [
          | inl e ↦ absurd (f (is_eq.eq_sound x y e))
          | inr e ↦ e
        ]
