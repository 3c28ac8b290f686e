-- ===== src/Prober/Pair/Rotation.antt =====
-- What the per-node stamps of src/prober/pair.rs make of a rack of four nodes over many cycles,
-- where each cycle stamps both nodes of its pair with one time, as `patch_pair` does.
use Prim.Native.Nat.Ordering.{lt, eq, gt}
use accelrd.Prelude.{
  ℕ, zero, suc, ◌≡◌, refl, inl, inr, Bool, true, false, List, [], ◌∷◌, Option, none, some, Text,
  Ordering, arith, cmp_text, ◌=t◌, if◌then◌else◌, map, ◌||◌, cmp_text-flip, cmp_text_trans,
  cmp_text_refl, flip, ◌∙◌, ap, not, Bool-cases, =t_refl,
}
use accelrd.Prelude.Sort.{sort_by, insert_by}
use accelrd.Prober.Pair.{NodeView, lru_stamps, lru_cmp, first_two, pick_pair}
use accelrd.Prober.Pair.Lru.{lru_cmp-flip}

-- `patch_pair` writes `last-rack-at` on the two nodes of the pair.
stamp : Text → Option (NodeView × NodeView) → NodeView → NodeView
stamp now none n = n
stamp now (some (a, b)) n =
    if (n.name =t a.name) || (n.name =t b.name) then record n { last_at = some now } else n

-- The rack after some cycles: cycle `n` runs at `clock n`, with the cutoff `cutoff n`.
unfoldable pub after : (clock cutoff : ℕ → Text) → List NodeView → ℕ → List NodeView
unfolding stamp
after clock cutoff rack zero = rack
after clock cutoff rack (suc n) =
    let before = after clock cutoff rack n in
    map (stamp (clock n) (pick_pair before (cutoff n))) before

abbrev pub even : ℕ → Bool
even zero = true
even (suc n) = not (even n)

abbrev pub names : Option (NodeView × NodeView) → Option (Text × Text)
names none = none
names (some (a, b)) = some (a.name, b.name)

-- The shape of the rack between cycles: two pairs, one stamped before the other.
abbrev pub node : Text → Text → Option Text → NodeView
node rack name at = record { name = name; last_at = at; last_loopback_at = none; rack = rack }

abbrev pub four : Text → (a b c d : Text) → (x y : Option Text) → List NodeView
four rack a b c d x y = node rack a x ∷ node rack b x ∷ node rack c y ∷ node rack d y ∷ []

module _ {A : Type 0} (cmp : A → A → Ordering) (p q r s : A) where
  sort_front :
      cmp p q ≡ lt
      → cmp q r ≡ lt
      → cmp r s ≡ lt
      → sort_by cmp (p ∷ q ∷ r ∷ s ∷ []) ≡ p ∷ q ∷ r ∷ s ∷ []
  unfolding sort_by insert_by
  sort_front pq qr rs = rw rs (rw qr (rw pq))

  sort_back :
      cmp p q ≡ lt
      → cmp p r ≡ gt
      → cmp p s ≡ gt
      → cmp q r ≡ gt
      → cmp q s ≡ gt
      → cmp r s ≡ lt
      → sort_by cmp (p ∷ q ∷ r ∷ s ∷ []) ≡ r ∷ s ∷ p ∷ q ∷ []
  unfolding sort_by insert_by
  sort_back pq pr ps qr qs rs = rw rs (rw qr (rw qs (rw pr (rw ps (rw pq)))))

-- `x` is the older stamp of two pairs, or neither pair was probed.
abbrev Older : Option Text → Option Text → Type 0
Older none _ = Unit
Older (some s) none = ⊥
Older (some s) (some t) = cmp_text s t ≡ lt

-- A pair with this stamp is past its cadence.
abbrev Past : Text → Option Text → Type 0
Past cutoff none = Unit
Past cutoff (some s) = cmp_text s cutoff ≡ lt

module _ (rack a b c d : Text) (ab : cmp_text a b ≡ lt) (bc : cmp_text b c ≡ lt)
    (cd : cmp_text c d ≡ lt) where
  same_stamp :
      (x : Option Text) (m n : Text)
      → cmp_text m n ≡ lt
      → lru_cmp (node rack m x) (node rack n x) ≡ lt
  unfolding lru_cmp
  same_stamp none m n h = h
  same_stamp (some s) m n h = rw (cmp_text_refl s) h

  Older-stamp :
      (x y : Option Text) (m n : Text)
      → Older x y
      → cmp_text m n ≡ lt
      → lru_cmp (node rack m x) (node rack n y) ≡ lt
  unfolding lru_cmp
  Older-stamp none none m n o h = h
  Older-stamp none (some t) m n o h = refl
  Older-stamp (some s) none m n o h = absurd o
  Older-stamp (some s) (some t) m n o h = rw o

  pick_front :
      (x y : Option Text) (cutoff : Text)
      → Older x y
      → Past cutoff x
      → pick_pair (four rack a b c d x y) cutoff ≡ some (node rack a x, node rack b x)
  unfolding pick_pair
  pick_front x y cutoff o p =
      rw
        (sort_front lru_cmp (node rack a x) (node rack b x) (node rack c y) (node rack d y)
          (same_stamp x a b ab) (Older-stamp x y b c o bc) (same_stamp y c d cd))
        (guard x p)
    where
      guard :
          (z : Option Text)
          → Past cutoff z
          → first_two cutoff (node rack a z ∷ node rack b z ∷ node rack c y ∷ node rack d y ∷ [])
            ≡ some (node rack a z, node rack b z)
      guard none p = refl
      guard (some s) p = ground (arith, cmp_text_refl s)

  behind :
      (x y : Option Text) (m n : Text)
      → lru_stamps y x eq ≡ lt
      → lru_cmp (node rack m x) (node rack n y) ≡ gt
  unfolding lru_cmp
  behind x y m n o = lru_cmp-flip (node rack n y) (node rack m x) ∙ ap flip (strict y x o)
    where
      strict :
          (s t : Option Text)
          → lru_stamps s t eq ≡ lt
          → lru_cmp (node rack n s) (node rack m t) ≡ lt
      strict none none o = cc
      strict none (some t) o = refl
      strict (some s) none o = cc
      strict (some s) (some t) o = ground arith

  pick_back :
      (x y : Option Text) (cutoff : Text)
      → lru_stamps y x eq ≡ lt
      → Past cutoff y
      → pick_pair (four rack a b c d x y) cutoff ≡ some (node rack c y, node rack d y)
  unfolding pick_pair
  pick_back x y cutoff o p =
      rw
        (sort_back lru_cmp (node rack a x) (node rack b x) (node rack c y) (node rack d y)
          (same_stamp x a b ab) (behind x y a c o) (behind x y a d o) (behind x y b c o)
          (behind x y b d o) (same_stamp y c d cd))
        (guard y p)
    where
      guard :
          (z : Option Text)
          → Past cutoff z
          → first_two cutoff (node rack c z ∷ node rack d z ∷ node rack a x ∷ node rack b x ∷ [])
            ≡ some (node rack c z, node rack d z)
      guard none p = refl
      guard (some s) p = ground (arith, cmp_text_refl s)

  differ : (m n : Text) → cmp_text m n ≡ lt → ((m =t n) ≡ false) × ((n =t m) ≡ false)
  unfolding ◌=t◌
  differ m n h = ground (arith, cmp_text-flip m n)

  stamp_front :
      (now : Text) (x y : Option Text)
      → map (stamp now (some (node rack a x, node rack b x))) (four rack a b c d x y)
        ≡ four rack a b c d (some now) y
  unfolding stamp
  stamp_front now x y = ground (
    arith,
    =t_refl a,
    =t_refl b,
    differ a c (cmp_text_trans a b c ab bc),
    differ b c bc,
    differ b d (cmp_text_trans b c d bc cd),
    differ a d (cmp_text_trans a b d ab (cmp_text_trans b c d bc cd)),
  )

  stamp_back :
      (now : Text) (x y : Option Text)
      → map (stamp now (some (node rack c y, node rack d y))) (four rack a b c d x y)
        ≡ four rack a b c d x (some now)
  unfolding stamp
  stamp_back now x y = ground (
    arith,
    =t_refl c,
    =t_refl d,
    differ a c (cmp_text_trans a b c ab bc),
    differ b c bc,
    differ b d (cmp_text_trans b c d bc cd),
    differ a d (cmp_text_trans a b d ab (cmp_text_trans b c d bc cd)),
  )

  module _ (clock cutoff : ℕ → Text) (ascends : (n : ℕ) → cmp_text (clock n) (clock (suc n)) ≡ lt)
      (past : (n : ℕ) → cmp_text (clock n) (cutoff (suc (suc n))) ≡ lt) where
    -- The stamp of the pair whose turn is cycle `n`.
    stamp_at : ℕ → Option Text
    stamp_at zero = none
    stamp_at (suc zero) = none
    stamp_at (suc (suc n)) = some (clock n)

    turn : ℕ → List NodeView
    unfolding stamp_at
    turn n =
        if even n
        then four rack a b c d (stamp_at n) (stamp_at (suc n))
        else four rack a b c d (stamp_at (suc n)) (stamp_at n)

    chosen : ℕ → Option (NodeView × NodeView)
    unfolding stamp_at
    chosen n =
        if even n
        then some (node rack a (stamp_at n), node rack b (stamp_at n))
        else some (node rack c (stamp_at n), node rack d (stamp_at n))

    stamp_at-Past : (n : ℕ) → Past (cutoff n) (stamp_at n)
    unfolding stamp_at
    stamp_at-Past zero = tt
    stamp_at-Past (suc zero) = tt
    stamp_at-Past (suc (suc n)) = past n

    stamp_at-Older : (n : ℕ) → Older (stamp_at n) (stamp_at (suc n))
    unfolding stamp_at
    stamp_at-Older zero = tt
    stamp_at-Older (suc zero) = tt
    stamp_at-Older (suc (suc n)) = ascends n

    stamp_at-lt : (n : ℕ) → even n ≡ false → lru_stamps (stamp_at n) (stamp_at (suc n)) eq ≡ lt
    unfolding stamp_at
    stamp_at-lt zero h = cc
    stamp_at-lt (suc zero) h = refl
    stamp_at-lt (suc (suc n)) h = rw (ascends n)

    turn-pick : (n : ℕ) → pick_pair (turn n) (cutoff n) ≡ chosen n
    unfolding turn chosen
    turn-pick n = elim (Bool-cases (even n)) [
      | inl e ↦ rw e (
          pick_front (stamp_at n) (stamp_at (suc n)) (cutoff n) (stamp_at-Older n)
            (stamp_at-Past n))
      | inr e ↦
          rw e (
            pick_back (stamp_at (suc n)) (stamp_at n) (cutoff n) (stamp_at-lt n e)
              (stamp_at-Past n))
    ]

    turn-next : (n : ℕ) → map (stamp (clock n) (chosen n)) (turn n) ≡ turn (suc n)
    unfolding turn chosen
    turn-next n = elim (Bool-cases (even n)) [
      | inl e ↦ rw e (stamp_front (clock n) (stamp_at n) (stamp_at (suc n)))
      | inr e ↦ rw e (stamp_back (clock n) (stamp_at (suc n)) (stamp_at n))
    ]

    after-turn : (n : ℕ) → after clock cutoff (four rack a b c d none none) n ≡ turn n
    unfolding after turn
    after-turn zero = refl
    after-turn (suc n) = rw (after-turn n) (
        ap (λ (p : Option (NodeView × NodeView)). map (stamp (clock n) p) (turn n)) (turn-pick n)
        ∙ turn-next n)

    -- On a rack of four nodes in the order of their names that were never probed, with a clock that ascends and stamps that are
    -- past the cadence two cycles later, the cycles pair the first two names and the last two names
    -- in turn, for ever: no cycle pairs a node of one pair with a node of the other.
    pub pick_pair_rotates :
        (n : ℕ)
        → names (pick_pair (after clock cutoff (four rack a b c d none none) n) (cutoff n))
          ≡ some (if even n then (a, b) else (c, d))
    pick_pair_rotates n = rw (after-turn n, turn-pick n) (said n)
      where
        said : (m : ℕ) → names (chosen m) ≡ some (if even m then (a, b) else (c, d))
        said m = unfold chosen in ground arith
