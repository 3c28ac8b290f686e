-- ===== src/Prelude/Order.antt =====
-- `Ord::cmp` with its laws, as the sorting and the maps of the source use it.
use Prim.Native.Nat.{ℕ, compare, Ordering}
use Prim.Native.Nat.Ordering.{lt, eq, gt}
use mathlib.Core.Path.{◌≡◌, refl}
use mathlib.Core.Logic.{◌⊎◌, inl, inr}
use mathlib.Core.Bool.{Bool, true, false}
use native.Mathlib.Omega.{arith}

-- `Ordering::reverse` and `Ordering::then`.
abbrev pub flip : Ordering → Ordering
flip lt = gt
flip eq = eq
flip gt = lt

abbrev pub then_cmp : Ordering → Ordering → Ordering
then_cmp eq second = second
then_cmp first _ = first

-- `a <= b` by a comparison.
abbrev pub not_gt : Ordering → Bool
not_gt gt = false
not_gt _ = true

abbrev pub is_lt : Ordering → Bool
is_lt lt = true
is_lt _ = false

abbrev pub is_eq : Ordering → Bool
is_eq eq = true
is_eq _ = false

pub Ordering-cases : (c : Ordering) → (c ≡ lt) ⊎ ((c ≡ eq) ⊎ (c ≡ gt))
Ordering-cases lt = inl refl
Ordering-cases eq = inr (inl refl)
Ordering-cases gt = inr (inr refl)

-- A comparison that is a total preorder: enough to sort by.
pub record IsTotal {ℓ} {A : Type ℓ} (cmp : A → A → Ordering) : Type ℓ where
  pub cmp_flip : (a b : A) → cmp b a ≡ flip (cmp a b)
  pub le_trans :
      (a b c : A) → not_gt (cmp a b) ≡ true → not_gt (cmp b c) ≡ true → not_gt (cmp a c) ≡ true

pub record Ord {ℓ} (A : Type ℓ) : Type ℓ where
  pub cmp : A → A → Ordering
  pub cmp_refl : (a : A) → cmp a a ≡ eq
  pub eq_of_cmp : (a b : A) → cmp a b ≡ eq → a ≡ b
  pub cmp_flip : (a b : A) → cmp b a ≡ flip (cmp a b)
  pub lt_trans : (a b c : A) → cmp a b ≡ lt → cmp b c ≡ lt → cmp a c ≡ lt

-- A strict order gives the total preorder that sorting asks for.
pub Ord-IsTotal {ℓ} : {A : Type ℓ} (o : Ord A) → IsTotal o.cmp
Ord-IsTotal o = record {
  cmp_flip = o.cmp_flip;
  le_trans = λ a b c h k. ground (arith, o.lt_trans a b c, o.eq_of_cmp a b, o.eq_of_cmp b c);
}

pub compare_refl : (a : ℕ) → compare a a ≡ eq
compare_refl a = ground arith

pub compare-flip : (a b : ℕ) → compare b a ≡ flip (compare a b)
compare-flip a b = ground arith

pub eq_of_compare : (a b : ℕ) → compare a b ≡ eq → a ≡ b
eq_of_compare a b h = ground arith

pub compare_trans : (a b c : ℕ) → compare a b ≡ lt → compare b c ≡ lt → compare a c ≡ lt
compare_trans a b c h k = ground arith

instance unfoldable pub nat_ord : Ord ℕ
nat_ord = record {
  cmp = compare;
  cmp_refl = compare_refl;
  eq_of_cmp = eq_of_compare;
  cmp_flip = compare-flip;
  lt_trans = compare_trans;
}
