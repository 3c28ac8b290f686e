-- ===== src/Tests/Labels.antt =====
-- The labeler on the labels of a node.
use accelrd.Prelude.{
  ℕ, ◌+◌, ◌≡◌, refl, starts_with, true, false, [], ◌∷◌, none, some, Text, codes, text_ord, cmp_text,
  if◌then◌else◌, or_else,
}
use accelrd.Prelude.Dict.{Dict, get, insert, contains_key}
use accelrd.Kube.{null, string}
use accelrd.Kube.Merge.{merge_entries, merge_entries-IsMerge}
use accelrd.Topology.LabelSet.{LabelSet}
use accelrd.K8s.Labeler.{
  is_managed, merged_section, intended, OptionalLabeler, disabled, active, NodeApi, reconcile,
}
use accelrd.K8s.Labeler.Convergence.{merge-merged_section}
use accelrd.K8s.Labeler.Attempts.{IsActiveRun, reconcile-actions}

abbrev current : Dict Text Text
current =
    (codes "accel.lunnova.dev/model.gb10.count", codes "1")
    ∷ (codes "accel.lunnova.dev/total-count", codes "1")
    ∷ (codes "kubernetes.io/hostname", codes "a")
    ∷ []

abbrev desired : Dict Text Text
desired = (codes "accel.lunnova.dev/total-count", codes "2") ∷ []

abbrev stale_key : Text
stale_key = codes "accel.lunnova.dev/model.gb10.count"

-- a stale label of the daemon is removed, and a foreign one is not in the patch
patch_of_current :
    merged_section (some current) desired
    ≡ (stale_key, null) ∷ (codes "accel.lunnova.dev/total-count", string (codes "2")) ∷ []
unfolding merged_section cmp_text insert is_managed starts_with contains_key
patch_of_current = refl

merge-merged_section_example :
    get stale_key (merge_entries current (merged_section (some current) desired)) ≡ (
      if is_managed stale_key
      then get stale_key desired
      else or_else (get stale_key desired) (get stale_key current))
merge-merged_section_example =
    merge-merged_section merge_entries merge_entries-IsMerge stale_key current desired (tt, tt)

-- An API server that refuses every patch; the state counts the patches.
abbrev refusing : NodeApi ℕ
refusing = record {
  get_metadata = λ n. (some (some current, none), n);
  patch = λ body n. (false, n + 1);
  sleep = λ ms n. n;
}

abbrev wanted : LabelSet
wanted = record { labels = desired; annotations = [] }

abbrev labeler : OptionalLabeler
labeler = record { state = active; announced = false }

reconcile-actions_example :
    let (actions, labeler', s') = reconcile refusing wanted labeler 0 in
    (labeler'.announced ≡ true)
    × (labeler'.state ≡ active)
    × (active ≡ disabled → (actions ≡ intended true ∷ []) × (s' ≡ 0))
    × (active ≡ active → IsActiveRun refusing actions)
reconcile-actions_example = reconcile-actions refusing wanted labeler 0
