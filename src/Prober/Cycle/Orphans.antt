-- ===== src/Prober/Cycle/Orphans.antt =====
-- The pods that `cleanup_orphans` of src/prober/pods.rs deletes, on the time stamps of src/time.rs.
use accelrd.Prelude.{
  ℕ, ◌≡◌, ◌<◌, ◌≤◌, ◌+◌, ◌-◌, Bool, ltb, is_lt, List, [], ◌∷◌, Option, none, some, Text, filter_map,
  and_then, compare, All, All-imp, if◌then◌else◌, arith, refl, ap, ◌∙◌,
}
use accelrd.Prelude.Int.{pos, minus_i64-pos}
use accelrd.Time.{rfc3339_at}
use accelrd.Time.Order.{four_digits, cmp_text-rfc3339_at}
use accelrd.Prober.Cycle.{PodMeta, stale_name, orphans}

-- The name of a pod that is more than `max_age` seconds old.
abbrev pub old_name : (now max_age : ℕ) → PodMeta → Option Text
old_name now max_age pod = and_then pod.name λ name. elim pod.created [
  | none ↦ none
  | some c ↦ if ltb (c + max_age) now then some name else none
]

-- A pod was created before the year 10000.
abbrev pub Datable : PodMeta → Type 0
Datable pod = (c : ℕ) → pod.created ≡ some c → c < four_digits

older :
    (now max_age c : ℕ) → max_age ≤ now → is_lt (compare c (now - max_age)) ≡ ltb (c + max_age) now
older now max_age c h = ground arith

-- The two tests on the name and the creation of a pod.
name_by : (test : ℕ → Bool) → Option Text → Option ℕ → Option Text
name_by test name created =
    and_then name λ n. elim created [ none ↦ none | some c ↦ if test c then some n else none ]

name_by-ext :
    (f g : ℕ → Bool) (name : Option Text) (created : Option ℕ)
    → ((c : ℕ) → created ≡ some c → f c ≡ g c)
    → name_by f name created ≡ name_by g name created
unfolding name_by
name_by-ext f g none created h = refl
name_by-ext f g (some n) none h = refl
name_by-ext f g (some n) (some c) h = rw (h c refl) refl

stale_name-old_name :
    (now max_age : ℕ) (pod : PodMeta)
    → max_age ≤ now
    → now < four_digits
    → Datable pod
    → stale_name (rfc3339_at (pos (now - max_age))) pod ≡ old_name now max_age pod
unfolding stale_name name_by
stale_name-old_name now max_age pod h k d =
    name_by-ext _ (λ c. ltb (c + max_age) now) pod.name pod.created
      λ c e.
        ap is_lt (cmp_text-rfc3339_at c (now - max_age) (d c e) (omega arith))
        ∙ older now max_age c h

abbrev in_front : Option Text → List Text → List Text
in_front o l = elim o [ none ↦ l | some n ↦ n ∷ l ]

filter_map-ext :
    (f g : PodMeta → Option Text) (pods : List PodMeta)
    → All (λ p. f p ≡ g p) pods
    → filter_map f pods ≡ filter_map g pods
filter_map-ext f g [] h = refl
filter_map-ext f g (p ∷ pods) h =
    ap (λ o. in_front o (filter_map f pods)) h.0 ∙ ap (in_front (g p)) (filter_map-ext f g pods h.1)

-- From `max_age` seconds after the epoch to the year 10000, where the pods were created before that year, the pods to delete are exactly the named ones of a
-- known age above `max_age` seconds, in their order.
pub orphans-old_name :
    (now max_age : ℕ) (pods : List PodMeta)
    → max_age ≤ now
    → now < four_digits
    → All Datable pods
    → orphans now max_age pods ≡ filter_map (old_name now max_age) pods
unfolding orphans
orphans-old_name now max_age pods h k d =
    rw (minus_i64-pos now max_age h (omega arith))
      (filter_map-ext _ _ pods (All-imp (λ p. stale_name-old_name now max_age p h k) pods d))
