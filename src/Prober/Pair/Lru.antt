-- ===== src/Prober/Pair/Lru.antt =====
-- The least-recently-probed order of `pick_pair` (src/prober/pair.rs), and its cadence guard on a
-- sorted rack.
use accelrd.Prelude.{
  ◌≡◌, refl, Bool, true, false, List, ◌∷◌, Option, none, some, Text, arith, flip, not_gt, IsTotal,
  cmp_text, eq_of_cmp_text, cmp_text-flip, cmp_text_trans, if◌then◌else◌,
}
use accelrd.Prelude.Sort.{IsSorted}
use accelrd.Prober.Pair.{NodeView, ge_text, lru_stamps, lru_cmp, within_cadence, first_two}

-- `<=` on texts chains.
pub le_text_trans :
    (a b c : Text)
    → not_gt (cmp_text a b) ≡ true
    → not_gt (cmp_text b c) ≡ true
    → not_gt (cmp_text a c) ≡ true
le_text_trans a b c h k =
    ground (arith, cmp_text_trans a b c, eq_of_cmp_text a b, eq_of_cmp_text b c)

-- The comparison sorts: it is total and transitive.
pub lru_cmp-flip : (a b : NodeView) → lru_cmp b a ≡ flip (lru_cmp a b)
unfolding lru_cmp
lru_cmp-flip a b = go a.last_at b.last_at
  where
    go :
        (x y : Option Text)
        → lru_stamps y x (cmp_text b.name a.name) ≡ flip (lru_stamps x y (cmp_text a.name b.name))
    go none none = cmp_text-flip a.name b.name
    go none (some y) = refl
    go (some x) none = refl
    go (some x) (some y) = ground (arith, cmp_text-flip x y, cmp_text-flip a.name b.name)

stamps_trans :
    (x y z : Option Text) (n m k : Text)
    → not_gt (lru_stamps x y (cmp_text n m)) ≡ true
    → not_gt (lru_stamps y z (cmp_text m k)) ≡ true
    → not_gt (lru_stamps x z (cmp_text n k)) ≡ true
stamps_trans none none none n m k g h = le_text_trans n m k g h
stamps_trans none none (some z) n m k g h = refl
stamps_trans none (some y) none n m k g h = cc
stamps_trans none (some y) (some z) n m k g h = refl
stamps_trans (some x) none z n m k g h = cc
stamps_trans (some x) (some y) none n m k g h = cc
stamps_trans (some x) (some y) (some z) n m k g h =
    ground
      (arith, cmp_text_trans x y z, eq_of_cmp_text x y, eq_of_cmp_text y z, le_text_trans n m k)

pub lru_cmp-IsTotal : IsTotal lru_cmp
unfolding lru_cmp
lru_cmp-IsTotal = record {
  cmp_flip = lru_cmp-flip;
  le_trans = λ a b c. stamps_trans a.last_at b.last_at c.last_at a.name b.name c.name;
}

-- The node was probed at or after the cutoff.
abbrev pub is_fresh : Text → NodeView → Bool
is_fresh cutoff n = elim n.last_at [ none ↦ false | some at ↦ ge_text at cutoff ]

ge_text_trans :
    (a b c : Text) → not_gt (cmp_text a b) ≡ true → ge_text a c ≡ true → ge_text b c ≡ true
ge_text_trans a b c h k = ground (
  arith,
  cmp_text_trans a b c,
  eq_of_cmp_text a b,
  cmp_text-flip a b,
  cmp_text_trans b c a,
  cmp_text-flip b c,
  cmp_text-flip a c,
)

-- a node that comes later in the order than a fresh one is fresh
pub fresh_after :
    (cutoff : Text) (a b : NodeView)
    → not_gt (lru_cmp a b) ≡ true
    → is_fresh cutoff a ≡ true
    → is_fresh cutoff b ≡ true
unfolding lru_cmp
fresh_after cutoff a b h f = go a.last_at b.last_at h f
  where
    go :
        (x y : Option Text)
        → not_gt (lru_stamps x y (cmp_text a.name b.name)) ≡ true
        → (elim x [ none ↦ false | some at ↦ ge_text at cutoff ]) ≡ true
        → (elim y [ none ↦ false | some at ↦ ge_text at cutoff ]) ≡ true
    go none y h f = cc
    go (some x) none h f = cc
    go (some x) (some y) h f = ge_text_trans x y cutoff (ground arith) f

-- The guard of `first_two` on a sorted pair skips exactly when the older one is fresh.
guard_lem :
    (cutoff : Text) (a b : NodeView)
    → not_gt (lru_cmp a b) ≡ true
    → within_cadence cutoff a.last_at b.last_at ≡ is_fresh cutoff a
unfolding lru_cmp
guard_lem cutoff a b h = go a.last_at b.last_at h
  where
    go :
        (x y : Option Text)
        → not_gt (lru_stamps x y (cmp_text a.name b.name)) ≡ true
        → within_cadence cutoff x y ≡ (elim x [ none ↦ false | some at ↦ ge_text at cutoff ])
    go none y h = refl
    go (some x) none h = cc
    go (some x) (some y) h = ground arith

pub first_two-eq :
    (cutoff : Text) (a b : NodeView) (rest : List NodeView)
    → IsSorted lru_cmp (a ∷ b ∷ rest)
    → first_two cutoff (a ∷ b ∷ rest) ≡ (if is_fresh cutoff a then none else some (a, b))
unfolding first_two
first_two-eq cutoff a b rest s = rw (guard_lem cutoff a b s.0.0)
