-- ===== src/Kube/Merge.antt =====
-- The API server's JSON merge patch (RFC 7396) on a map of labels or annotations: `null` removes a
-- key, a string sets it, and the other keys stay.
use accelrd.Prelude.{◌≡◌, refl, [], ◌∷◌, Option, none, some, Text, text_ord, arith}
use accelrd.Prelude.Dict.{Dict, get, insert, remove, get-insert, get-remove}
use accelrd.Kube.{Value, null, string}

-- What a key holds after a patch that says `change` of it, if it held `old`.
abbrev pub overlay : (change : Option Value) → (old : Option Text) → Option Text
overlay none old = old
overlay (some null) old = none
overlay (some (string v)) old = some v

pub record IsMerge (merge : Dict Text Text → Dict Text Value → Dict Text Text) : Type 0 where
  pub get-merge :
      (k : Text) (m : Dict Text Text) (p : Dict Text Value)
      → get k (merge m p) ≡ overlay (get k p) (get k m)

-- A merge that the interface describes.
unfoldable pub merge_entries : Dict Text Text → Dict Text Value → Dict Text Text
merge_entries m [] = m
merge_entries m ((k, null) ∷ p) = remove k (merge_entries m p)
merge_entries m ((k, string v) ∷ p) = insert k v (merge_entries m p)

get-merge_entries :
    (k : Text) (m : Dict Text Text) (p : Dict Text Value)
    → get k (merge_entries m p) ≡ overlay (get k p) (get k m)
unfolding merge_entries get
get-merge_entries k m [] = refl
get-merge_entries k m ((j, null) ∷ p) =
    ground (arith, get-remove k j (merge_entries m p), get-merge_entries k m p)
get-merge_entries k m ((j, string v) ∷ p) =
    ground (arith, get-insert k j v (merge_entries m p), get-merge_entries k m p)

pub merge_entries-IsMerge : IsMerge merge_entries
merge_entries-IsMerge = record { get-merge = get-merge_entries }
