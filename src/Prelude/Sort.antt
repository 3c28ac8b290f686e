-- ===== src/Prelude/Sort.antt =====
-- `slice::sort_by`: a stable sort by a comparison, and what it promises.
use Prim.Native.Nat.{Ordering}
use mathlib.Core.Path.{◌≡◌, refl}
use mathlib.Core.Bool.{Bool, true, ◌||◌}
use mathlib.Core.List.{List, [], ◌∷◌, Perm}
use mathlib.Core.List.Perm
use native.Mathlib.Omega.{arith}
use accelrd.Prelude.Tests.{if◌then◌else◌, Bool-cases}
use mathlib.Core.Logic.{inl, inr}
use accelrd.Prelude.Lists.{All, any, All-imp, length}
use Prim.Native.Nat.{suc}
use accelrd.Prelude.Order.{IsTotal, not_gt}

module _ {ℓ} {A : Type ℓ} (cmp : A → A → Ordering) where
  -- Ties keep their order: `x` stood before all of the list.
  unfoldable pub insert_by : A → List A → List A
  insert_by x [] = x ∷ []
  insert_by x (y ∷ ys) =
      let rest = insert_by x ys in if not_gt (cmp x y) then x ∷ y ∷ ys else y ∷ rest

  unfoldable pub sort_by : List A → List A
  unfolding insert_by
  sort_by [] = []
  sort_by (x ∷ xs) = insert_by x (sort_by xs)

  -- each member comes, by `cmp`, no later than all behind it
  abbrev pub IsSorted : List A → Type 0
  IsSorted [] = Unit
  IsSorted (x ∷ xs) = All (λ y. not_gt (cmp x y) ≡ true) xs × IsSorted xs

  All-insert_by {κ} : (P : A → Type κ) (x : A) (l : List A) → P x → All P l → All P (insert_by x l)
  unfolding insert_by
  All-insert_by P x [] p h = (p, tt)
  All-insert_by P x (y ∷ ys) p h = elim (Bool-cases (not_gt (cmp x y))) [
    | inl e ↦ rw e (p, h)
    | inr e ↦ rw e (h.0, All-insert_by P x ys p h.1)
  ]

  pub All-sort_by {κ} : (P : A → Type κ) (l : List A) → All P l → All P (sort_by l)
  unfolding sort_by
  All-sort_by P [] h = tt
  All-sort_by P (x ∷ xs) h = All-insert_by P x (sort_by xs) h.0 (All-sort_by P xs h.1)

  insert_by-perm : (x : A) (l : List A) → Perm (insert_by x l) (x ∷ l)
  unfolding insert_by
  insert_by-perm x [] = Perm.refl (x ∷ [])
  insert_by-perm x (y ∷ ys) = elim (Bool-cases (not_gt (cmp x y))) [
    | inl e ↦ rw e (Perm.refl (x ∷ y ∷ ys))
    | inr e ↦ rw e (Perm.trans (Perm.cons y (insert_by-perm x ys)) (Perm.swap x y ys))
  ]

  pub sort_by-perm : (l : List A) → Perm (sort_by l) l
  unfolding sort_by
  sort_by-perm [] = Perm.refl []
  sort_by-perm (x ∷ xs) = Perm.trans (insert_by-perm x (sort_by xs)) (Perm.cons x (sort_by-perm xs))

  any-insert_by : (p : A → Bool) (x : A) (l : List A) → any p (insert_by x l) ≡ p x || any p l
  unfolding insert_by
  any-insert_by p x [] = refl
  any-insert_by p x (y ∷ ys) = ground (arith, any-insert_by p x ys)

  -- Sorting keeps the members.
  pub any-sort_by : (p : A → Bool) (l : List A) → any p (sort_by l) ≡ any p l
  unfolding sort_by
  any-sort_by p [] = refl
  any-sort_by p (x ∷ xs) = ground (arith, any-insert_by p x (sort_by xs), any-sort_by p xs)

  module _ (t : IsTotal cmp) where
    insert_by-IsSorted : (x : A) (l : List A) → IsSorted l → IsSorted (insert_by x l)
    unfolding insert_by
    insert_by-IsSorted x [] s = (tt, tt)
    insert_by-IsSorted x (y ∷ ys) s = elim (Bool-cases (not_gt (cmp x y))) [
      | inl e ↦ rw e ((e, All-imp (λ z h. t.le_trans x y z e h) ys s.0), s)
      | inr e ↦ rw e (
        All-insert_by (λ z. not_gt (cmp y z) ≡ true) x ys (ground (arith, t.cmp_flip x y)) s.0,
        insert_by-IsSorted x ys s.1,
      )
    ]

    pub sort_by-IsSorted : (l : List A) → IsSorted (sort_by l)
    unfolding sort_by
    sort_by-IsSorted [] = tt
    sort_by-IsSorted (x ∷ xs) = insert_by-IsSorted x (sort_by xs) (sort_by-IsSorted xs)

  -- what holds of every member of the sorted list holds of every member of the list
  All-insert_by_inv {κ} :
      (P : A → Type κ) (x : A) (l : List A) → All P (insert_by x l) → P x × All P l
  unfolding insert_by
  All-insert_by_inv P x [] h = h
  All-insert_by_inv P x (y ∷ ys) h = elim (Bool-cases (not_gt (cmp x y))) [
    | inl e ↦ rw (e, insert_by) at h
    | inr e ↦
        let h' : P y × All P (insert_by x ys) = rw (e, insert_by) at h in
        let below = All-insert_by_inv P x ys h'.1 in (below.0, (h'.0, below.1))
  ]

  pub All-of_sort_by {κ} : (P : A → Type κ) (l : List A) → All P (sort_by l) → All P l
  unfolding sort_by
  All-of_sort_by P [] h = tt
  All-of_sort_by P (x ∷ xs) h =
      let both = All-insert_by_inv P x (sort_by xs) h in (both.0, All-of_sort_by P xs both.1)

  length-insert_by : (x : A) (l : List A) → length (insert_by x l) ≡ suc (length l)
  unfolding insert_by
  length-insert_by x [] = refl
  length-insert_by x (y ∷ ys) = ground (arith, length-insert_by x ys)

  pub length-sort_by : (l : List A) → length (sort_by l) ≡ length l
  unfolding sort_by
  length-sort_by [] = refl
  length-sort_by (x ∷ xs) = omega (arith, length-insert_by x (sort_by xs), length-sort_by xs)
