-- ===== src/Prelude/Dict.antt =====
-- `BTreeMap<K, V>` as the list of its entries in the order of the keys.
use Prim.Native.Nat.Ordering.{lt, eq, gt}
use mathlib.Core.Path.{◌≡◌, refl, sym, subst, ap, ◌∙◌}
use mathlib.Core.Logic.{inl, inr}
use mathlib.Core.Bool.{Bool, true, false}
use mathlib.Core.Option.{Option, none, some}
use mathlib.Core.List.{List, [], ◌∷◌}
use native.Mathlib.Omega.{arith}
use accelrd.Prelude.Tests.{if◌then◌else◌, is_some, unwrap_or, map_option}
use accelrd.Prelude.Lists.{All, All-imp}
use accelrd.Prelude.Order.{Ord, Ordering-cases, is_eq}

abbrev pub Dict {ℓ κ} : Type ℓ → Type κ → Type (ℓ ⊔ κ)
Dict K V = List (K × V)

module _ {ℓ κ} {K : Type ℓ} {V : Type κ} where
  -- `values_mut` with a function of each value.
  unfoldable pub map_values : (V → V) → Dict K V → Dict K V
  map_values f [] = []
  map_values f ((j, w) ∷ m) = (j, f w) ∷ map_values f m

module _ {ℓ κ} {K : Type ℓ} {V : Type κ} ⦃o : Ord K⦄ where
  -- `get`, `contains_key`
  unfoldable pub get : K → Dict K V → Option V
  get k [] = none
  get k ((j, v) ∷ m) = let rest = get k m in if is_eq (o.cmp k j) then some v else rest

  unfoldable pub contains_key : K → Dict K V → Bool
  unfolding get
  contains_key k m = is_some (get k m)

  unfoldable pub insert : K → V → Dict K V → Dict K V
  insert k v [] = (k, v) ∷ []
  insert k v ((j, w) ∷ m) = elim (o.cmp k j) [
    | lt ↦ (k, v) ∷ (j, w) ∷ m
    | eq ↦ (k, v) ∷ m
    | gt ↦ (j, w) ∷ insert k v m
  ]

  -- `*entry(k).or_insert(d) = f(..)`
  unfoldable pub update_or : V → (V → V) → K → Dict K V → Dict K V
  unfolding get insert
  update_or d f k m = insert k (f (unwrap_or (get k m) d)) m

  -- the keys ascend, so none occurs twice
  abbrev pub IsOrdered : Dict K V → Type 0
  IsOrdered [] = Unit
  IsOrdered ((j, v) ∷ m) = All (λ e. o.cmp j e.0 ≡ lt) m × IsOrdered m

  pub get-insert :
      (j k : K) (v : V) (m : Dict K V)
      → get j (insert k v m) ≡ (if is_eq (o.cmp j k) then some v else get j m)
  unfolding get insert
  get-insert j k v [] = refl
  get-insert j k v ((i, w) ∷ m) =
      ground (arith, get-insert j k v m, o.eq_of_cmp k i, o.eq_of_cmp j i, o.eq_of_cmp j k)

  pub All-insert {μ} :
      (P : K × V → Type μ) (k : K) (v : V) (m : Dict K V)
      → P (k, v)
      → All P m
      → All P (insert k v m)
  unfolding insert
  All-insert P k v [] p h = (p, tt)
  All-insert P k v ((i, w) ∷ m) p h = elim (Ordering-cases (o.cmp k i)) [
    | inl e ↦ rw (e, insert) (p, h)
    | inr (inl e) ↦ rw (e, insert) (p, h.1)
    | inr (inr e) ↦ rw (e, insert) (h.0, All-insert P k v m p h.1)
  ]

  pub insert-IsOrdered : (k : K) (v : V) (m : Dict K V) → IsOrdered m → IsOrdered (insert k v m)
  unfolding insert
  insert-IsOrdered k v [] s = (tt, tt)
  insert-IsOrdered k v ((i, w) ∷ m) s = elim (Ordering-cases (o.cmp k i)) [
    | inl e ↦ rw (e, insert) ((e, All-imp (λ x h. o.lt_trans k i x.0 e h) m s.0), s)
    | inr (inl e) ↦
        rw (e, insert)
          (subst (λ z. All (λ x. o.cmp z x.0 ≡ lt) m) (sym (o.eq_of_cmp k i e)) s.0, s.1)
    | inr (inr e) ↦
        rw (e, insert)
          (
            All-insert (λ x. o.cmp i x.0 ≡ lt) k v m (ground (arith, o.cmp_flip k i)) s.0,
            insert-IsOrdered k v m s.1,
          )
  ]

  pub contains_key-insert :
      (j k : K) (v : V) (m : Dict K V)
      → contains_key j (insert k v m) ≡ (if is_eq (o.cmp j k) then true else contains_key j m)
  unfolding contains_key
  contains_key-insert j k v m = ground (arith, get-insert j k v m)

  pub get-update_or :
      (j : K) (d : V) (f : V → V) (k : K) (m : Dict K V)
      → get j (update_or d f k m)
        ≡ (if is_eq (o.cmp j k) then some (f (unwrap_or (get k m) d)) else get j m)
  unfolding update_or
  get-update_or j d f k m = get-insert j k (f (unwrap_or (get k m) d)) m

  pub update_or-IsOrdered :
      (d : V) (f : V → V) (k : K) (m : Dict K V) → IsOrdered m → IsOrdered (update_or d f k m)
  unfolding update_or
  update_or-IsOrdered d f k m s = insert-IsOrdered k (f (unwrap_or (get k m) d)) m s

  pub get-map_values :
      (j : K) (f : V → V) (m : Dict K V) → get j (map_values f m) ≡ map_option f (get j m)
  unfolding get map_values
  get-map_values j f [] = refl
  get-map_values j f ((i, w) ∷ m) = ground (arith, get-map_values j f m)

  unfoldable pub remove : K → Dict K V → Dict K V
  remove k [] = []
  remove k ((j, w) ∷ m) = let rest = remove k m in if is_eq (o.cmp k j) then rest else (j, w) ∷ rest

  pub get-remove :
      (j k : K) (m : Dict K V) → get j (remove k m) ≡ (if is_eq (o.cmp j k) then none else get j m)
  unfolding get remove
  get-remove j k [] = ground arith
  get-remove j k ((i, w) ∷ m) =
      ground
        (arith, get-remove j k m, o.eq_of_cmp k i, o.eq_of_cmp j i, o.eq_of_cmp j k, o.cmp_refl i)

  -- an insertion under another key, and under the same
  pub get-insert_ne :
      (j k : K) (v : V) (m : Dict K V) → is_eq (o.cmp j k) ≡ false → get j (insert k v m) ≡ get j m
  get-insert_ne j k v m e = get-insert j k v m ∙ ap (λ (b : Bool). if b then some v else get j m) e

  pub get-insert_self : (k : K) (v : V) (m : Dict K V) → get k (insert k v m) ≡ some v
  get-insert_self k v m = ground (arith, get-insert k k v m, o.cmp_refl k)

  -- a key below all keys of a map is not in it
  pub get_below : (j : K) (m : Dict K V) → All (λ e. o.cmp j e.0 ≡ lt) m → get j m ≡ none
  unfolding get
  get_below j [] h = refl
  get_below j ((i, w) ∷ m) h = ground (arith, get_below j m h.1)
