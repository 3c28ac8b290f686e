-- ===== src/K8s/Labeler/Convergence.antt =====
-- One patch brings the managed keys of a node to the desired ones and leaves the others alone.
use accelrd.Prelude.{
  ◌≡◌, refl, ◌∙◌, ap, not, ◌&&◌, [], ◌∷◌, Option, none, some, Text, text_ord, arith, foldl,
  if◌then◌else◌, unwrap_or, is_some, eq_of_cmp_text, cmp_text_refl, map_option, or_else,
}
use accelrd.Prelude.Dict.{Dict, get, contains_key, get-insert, get_below, IsOrdered}
use accelrd.Kube.{Value, null, string}
use accelrd.Kube.Merge.{IsMerge}
use accelrd.K8s.Labeler.{is_managed, null_stale, overlay_desired, merged_section}

get-null_stale :
    (k : Text) (desired : Dict Text Text) (out : Dict Text Value) (current : Dict Text Text)
    → get k (foldl (null_stale desired) out current) ≡ (
        if is_some (get k current) && (is_managed k && not (is_some (get k desired)))
        then some null
        else get k out)
unfolding null_stale get contains_key
get-null_stale k desired out [] = ground arith
get-null_stale k desired out ((j, v) ∷ m) = ground (
  arith,
  get-null_stale k desired (null_stale desired out (j, v)) m,
  get-insert k j null out,
  eq_of_cmp_text k j,
)

get-overlay_desired :
    (k : Text) (out : Dict Text Value) (desired : Dict Text Text)
    → IsOrdered desired
    → get k (foldl overlay_desired out desired)
      ≡ or_else (map_option string (get k desired)) (get k out)
unfolding overlay_desired get
get-overlay_desired k out [] s = refl
get-overlay_desired k out ((j, v) ∷ m) s = ground (
  arith,
  get-overlay_desired k (overlay_desired out (j, v)) m s.1,
  get-insert k j (string v) out,
  eq_of_cmp_text k j,
  cmp_text_refl k,
  get_below j m s.0,
)

-- What the section's patch says of a key.
get-merged_section :
    (k : Text) (current : Option (Dict Text Text)) (desired : Dict Text Text)
    → IsOrdered desired
    → get k (merged_section current desired)
      ≡ or_else (map_option string (get k desired)) (
          if is_some (get k (unwrap_or current []))
            && (is_managed k && not (is_some (get k desired)))
          then some null
          else none)
unfolding merged_section get
get-merged_section k current desired s =
    get-overlay_desired k (foldl (null_stale desired) [] (unwrap_or current [])) desired s
    ∙ ap (or_else (map_option string (get k desired)))
        (get-null_stale k desired [] (unwrap_or current []))

-- After the API server applied the patch for a desired map in the order of its keys, a key that the daemon manages holds exactly what is
-- desired of it (nothing if it is not desired), and any other key what it held, unless it is
-- desired.
pub merge-merged_section :
    (merge : Dict Text Text → Dict Text Value → Dict Text Text)
    → IsMerge merge
    → (k : Text) (current desired : Dict Text Text) → IsOrdered desired
    → get k (merge current (merged_section (some current) desired))
      ≡ (if is_managed k then get k desired else or_else (get k desired) (get k current))
merge-merged_section merge m k current desired s = ground (
  arith,
  m.get-merge k current (merged_section (some current) desired),
  get-merged_section k (some current) desired s,
)
