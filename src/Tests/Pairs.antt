-- ===== src/Tests/Pairs.antt =====
-- The tests of src/prober/pair.rs, and its properties on concrete racks.
use Prim.Native.Nat.Ordering.{lt}
use accelrd.Prelude.{
  ℕ, ◌≡◌, refl, true, false, [], ◌∷◌, Option, none, some, Text, codes, arith, cmp_text, text_ord,
  All, keep, ◌↔◌, suc,
}
use accelrd.Prelude.Sort.{sort_by, insert_by}
use accelrd.Prelude.Dict.{get}
use accelrd.Prober.Pair.{NodeView, pick_pair, pick_loopback, group_by_rack}
use accelrd.Prober.Pair.Choice.{
  IsLruChoice, pick_pair-none, pick_pair-IsLruChoice, pick_loopback_iff,
}
use accelrd.Prober.Pair.Lru.{is_fresh}
use accelrd.Prober.Pair.Grouping.{rack_entry, in_rack, get-group_by_rack}
use accelrd.Prober.Pair.Rotation.{after, four, names, pick_pair_rotates}

abbrev nv : Text → Option Text → NodeView
nv name at = record { name = name; last_at = at; last_loopback_at = none; rack = codes "r1" }

abbrev node_a : NodeView
node_a = nv (codes "a") (some (codes "2026-05-05T00:00:00Z"))

abbrev node_b : NodeView
node_b = nv (codes "b") (some (codes "2026-05-01T00:00:00Z"))

abbrev node_c : NodeView
node_c = nv (codes "c") none

abbrev node_d : NodeView
node_d = nv (codes "d") (some (codes "2026-05-04T00:00:00Z"))

abbrev far_cutoff : Text
far_cutoff = codes "2030-01-01T00:00:00Z"

-- The node that was never probed comes first, then the oldest.
picks_lru : pick_pair (node_a ∷ node_b ∷ node_c ∷ node_d ∷ []) far_cutoff ≡ some (node_c, node_b)
unfolding pick_pair cmp_text sort_by insert_by
picks_lru = refl

-- both nodes are within the cadence
skips_recent : pick_pair (node_a ∷ node_d ∷ []) (codes "2026-05-01T00:00:00Z") ≡ none
unfolding pick_pair cmp_text sort_by insert_by
skips_recent = refl

pick_pair-IsLruChoice_example :
    IsLruChoice (node_a ∷ node_b ∷ node_c ∷ node_d ∷ []) far_cutoff node_c node_b
pick_pair-IsLruChoice_example =
    pick_pair-IsLruChoice (node_a ∷ node_b ∷ node_c ∷ node_d ∷ []) far_cutoff node_c node_b
      picks_lru

pick_pair-none_example :
    (pick_pair (node_a ∷ node_d ∷ []) (codes "2026-05-01T00:00:00Z") ≡ none)
    ↔ All (λ n. is_fresh (codes "2026-05-01T00:00:00Z") n ≡ true) (node_a ∷ node_d ∷ [])
pick_pair-none_example =
    pick_pair-none (node_a ∷ node_d ∷ []) (codes "2026-05-01T00:00:00Z") (omega arith)

pick_loopback_iff_example :
    (pick_loopback (node_c ∷ []) far_cutoff ≡ some node_c)
    ↔ (node_c ∷ [] ≡ node_c ∷ [])
      × (is_fresh far_cutoff (record node_c { last_at = node_c.last_loopback_at }) ≡ false)
pick_loopback_iff_example = pick_loopback_iff (node_c ∷ []) far_cutoff node_c

get-group_by_rack_example :
    get (codes "r1") (group_by_rack (node_b ∷ node_a ∷ []))
    ≡ rack_entry (keep (in_rack (codes "r1")) (node_b ∷ node_a ∷ []))
get-group_by_rack_example = get-group_by_rack (codes "r1") (node_b ∷ node_a ∷ [])

-- `prefers_unprobed_over_probed`
prefers_unprobed_over_probed :
    names (
      pick_pair
        (nv (codes "a") (some (codes "2026-05-07T00:00:00Z"))
          ∷ nv (codes "b") (some (codes "2026-05-07T00:00:00Z"))
          ∷ nv (codes "c") none
          ∷ [])
        (codes "1900-01-01T00:00:00Z"))
    ≡ some (codes "c", codes "a")
unfolding pick_pair cmp_text sort_by insert_by
prefers_unprobed_over_probed = refl

-- `returns_none_when_within_cadence`
returns_none_when_within_cadence :
    pick_pair
      (nv (codes "a") (some (codes "2026-05-07T12:00:00Z"))
        ∷ nv (codes "b") (some (codes "2026-05-07T12:00:00Z"))
        ∷ [])
      (codes "2026-05-07T11:00:00Z")
    ≡ none
unfolding pick_pair cmp_text sort_by insert_by
returns_none_when_within_cadence = refl

-- `returns_none_for_singleton_rack`
returns_none_for_singleton_rack : pick_pair (node_c ∷ []) far_cutoff ≡ none
unfolding pick_pair
returns_none_for_singleton_rack = refl

-- `loopback_skips_within_cadence`
loopback_skips_within_cadence :
    pick_loopback
      (record node_c { last_loopback_at = some (codes "2026-05-07T12:00:00Z") } ∷ [])
      (codes "2026-05-07T11:00:00Z")
    ≡ none
unfolding pick_loopback cmp_text
loopback_skips_within_cadence = refl

-- A clock and a cutoff of one byte.
abbrev clock : ℕ → Text
clock n = suc n ∷ []

abbrev cutoff : ℕ → Text
cutoff n = n ∷ []

clock_ascends : (n : ℕ) → cmp_text (clock n) (clock (suc n)) ≡ lt
unfolding cmp_text
clock_ascends n = ground arith

clock_past : (n : ℕ) → cmp_text (clock n) (cutoff (suc (suc n))) ≡ lt
unfolding cmp_text
clock_past n = ground arith

pick_pair_rotates_example :
    names (
      pick_pair
        (after clock cutoff
          (four (codes "r1") (codes "a") (codes "b") (codes "c") (codes "d") none none)
          3)
        (cutoff 3))
    ≡ some (codes "c", codes "d")
unfolding cmp_text
pick_pair_rotates_example =
    pick_pair_rotates (codes "r1") (codes "a") (codes "b") (codes "c") (codes "d") refl refl refl
      clock cutoff clock_ascends clock_past 3
