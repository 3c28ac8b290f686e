-- ===== src/Prober/Pair/Choice.antt =====
-- What `pick_pair` and `pick_loopback` choose, and when they choose nothing.
use mathlib.Core.List.{Perm}
use mathlib.Core.Path.{subst₂}
use accelrd.Prelude.{
  ◌≤◌, ◌≡◌, refl, ◌↔◌, true, false, List, [], ◌∷◌, none, some, Text, arith, length, All, All-imp,
  not_gt,
}
use accelrd.Prelude.Sort.{
  sort_by, IsSorted, sort_by-IsSorted, sort_by-perm, All-sort_by, All-of_sort_by, length-sort_by,
}
use accelrd.Prober.Pair.{NodeView, lru_cmp, first_two, pick_pair, pick_loopback}
use accelrd.Prober.Pair.Lru.{lru_cmp-IsTotal, is_fresh, fresh_after, first_two-eq}

first_two-none :
    (cutoff : Text) (l : List NodeView)
    → 2 ≤ length l
    → IsSorted lru_cmp l
    → first_two cutoff l ≡ none
    → All (λ n. is_fresh cutoff n ≡ true) l
first_two-none cutoff [] h s e = absurd (omega arith)
first_two-none cutoff (a ∷ []) h s e = absurd (omega arith)
first_two-none cutoff (a ∷ b ∷ rest) h s e =
    let f : is_fresh cutoff a ≡ true = ground (arith, first_two-eq cutoff a b rest s) in
    (f, All-imp (λ n le. fresh_after cutoff a n le f) (b ∷ rest) s.0)

first_two-fresh :
    (cutoff : Text) (l : List NodeView)
    → IsSorted lru_cmp l
    → All (λ n. is_fresh cutoff n ≡ true) l
    → first_two cutoff l ≡ none
unfolding first_two
first_two-fresh cutoff [] s h = refl
first_two-fresh cutoff (a ∷ []) s h = refl
first_two-fresh cutoff (a ∷ b ∷ rest) s h = ground (arith, first_two-eq cutoff a b rest s)

-- In a rack of at least two nodes, `pick_pair` chooses nothing exactly when every node of the rack
-- was probed at or after the cutoff.
pub pick_pair-none :
    (members : List NodeView) (cutoff : Text)
    → 2 ≤ length members
    → (pick_pair members cutoff ≡ none) ↔ All (λ n. is_fresh cutoff n ≡ true) members
unfolding pick_pair
pick_pair-none members cutoff h = (
  λ e. All-of_sort_by lru_cmp _ members (
      first_two-none cutoff (sort_by lru_cmp members)
        (omega (arith, length-sort_by lru_cmp members))
        (sort_by-IsSorted lru_cmp lru_cmp-IsTotal members) (ground arith)),
  λ fresh. ground (
    arith,
    first_two-fresh cutoff (sort_by lru_cmp members)
        (sort_by-IsSorted lru_cmp lru_cmp-IsTotal members) (All-sort_by lru_cmp _ members fresh),
  ),
)

abbrev pub NotAfter : NodeView → NodeView → Type 0
NotAfter a n = not_gt (lru_cmp a n) ≡ true

-- The two chosen nodes, the others behind them, and how they stand in the order.
pub record IsLruChoice (members : List NodeView) (cutoff : Text) (a b : NodeView) : Type 0 where
  pub others : List NodeView
  pub together : Perm (a ∷ b ∷ others) members
  pub first : All (NotAfter a) (b ∷ others)
  pub second : All (NotAfter b) others
  pub stale : is_fresh cutoff a ≡ false

first_two-IsLruChoice :
    (members : List NodeView) (cutoff : Text) (l : List NodeView) (a b : NodeView)
    → Perm l members
    → IsSorted lru_cmp l
    → first_two cutoff l ≡ some (a, b)
    → IsLruChoice members cutoff a b
unfolding first_two
first_two-IsLruChoice members cutoff [] a b p s e = absurd (cc)
first_two-IsLruChoice members cutoff (x ∷ []) a b p s e = absurd (cc)
first_two-IsLruChoice members cutoff (x ∷ y ∷ rest) a b p s e =
    let both : (is_fresh cutoff x ≡ false) × (x ≡ a) × (y ≡ b) =
      ground (arith, first_two-eq cutoff x y rest s) in
    subst₂ (IsLruChoice members cutoff) both.1 both.2
      (record { others = rest; together = p; first = s.0; second = s.1.0; stale = both.0 })

-- If `pick_pair` chooses `a` and `b`, they and the other nodes make up the rack, `a` comes no later
-- than every other node and `b` no later than the rest in the order (never probed first, then the
-- older stamp, then the name), and `a` was not probed at or after the cutoff.
pub pick_pair-IsLruChoice :
    (members : List NodeView) (cutoff : Text) (a b : NodeView)
    → pick_pair members cutoff ≡ some (a, b)
    → IsLruChoice members cutoff a b
unfolding pick_pair
pick_pair-IsLruChoice members cutoff a b e =
    first_two-IsLruChoice members cutoff (sort_by lru_cmp members) a b
      (sort_by-perm lru_cmp members) (sort_by-IsSorted lru_cmp lru_cmp-IsTotal members)
      (ground arith)

-- `pick_loopback` chooses a node exactly when it is the only one of the rack and its last loopback
-- probe, if any, was before the cutoff.
pub pick_loopback_iff :
    (members : List NodeView) (cutoff : Text) (n : NodeView)
    → (pick_loopback members cutoff ≡ some n)
      ↔ (members ≡ n ∷ []) × (is_fresh cutoff (record n { last_at = n.last_loopback_at }) ≡ false)
unfolding pick_loopback
pick_loopback_iff [] cutoff n = (λ e. cc, λ h. cc)
pick_loopback_iff (x ∷ []) cutoff n = (λ e. ground arith, λ h. ground arith)
pick_loopback_iff (x ∷ y ∷ l) cutoff n = (λ e. cc, λ h. cc)
