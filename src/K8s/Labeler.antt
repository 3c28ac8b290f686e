-- ===== src/K8s/Labeler.antt =====
-- src/k8s/labeler.rs: the merge patch that brings a node's labels to the desired ones, and the
-- attempts to apply it.
pub mod Convergence
pub mod Attempts
use accelrd.Prelude.{
  ℕ, zero, suc, ◌+◌, ◌*◌, ◌^◌, Bool, true, false, not, ◌&&◌, List, [], ◌∷◌, Option, none, some,
  Text, codes, text_ord, any, foldl, if◌then◌else◌, starts_with, unwrap_or,
}
use accelrd.Prelude.Dict.{Dict, insert, contains_key}
use accelrd.Kube.{Value, null, string}
use accelrd.Topology.LabelSet.{LabelSet}

abbrev pub managed_prefixes : List Text
managed_prefixes =
    codes "accel.lunnova.dev/"
    ∷ codes "accel-topo.lunnova.dev/"
    ∷ codes "accel-ready.lunnova.dev/"
    ∷ codes "accel-net.lunnova.dev/"
    ∷ []

unfoldable pub is_managed : Text → Bool
is_managed key = any (starts_with key) managed_prefixes

-- The first loop: managed keys that are no longer desired are set to null.
unfoldable pub null_stale :
    (desired : Dict Text Text) → Dict Text Value → Text × Text → Dict Text Value
null_stale desired out (k, _) =
    if is_managed k && not (contains_key k desired) then insert k null out else out

unfoldable pub overlay_desired : Dict Text Value → Text × Text → Dict Text Value
overlay_desired out (k, v) = insert k (string v) out

unfoldable pub merged_section : Option (Dict Text Text) → Dict Text Text → Dict Text Value
unfolding null_stale overlay_desired
merged_section current desired =
    foldl overlay_desired (foldl (null_stale desired) [] (unwrap_or current [])) desired

pub record MergePatch : Type 0 where
  pub labels : Dict Text Value
  pub annotations : Dict Text Value

unfoldable pub build_merge_patch :
    (current_labels current_annotations : Option (Dict Text Text)) → LabelSet → MergePatch
unfolding merged_section
build_merge_patch current_labels current_annotations desired = record {
  labels = merged_section current_labels desired.labels;
  annotations = merged_section current_annotations desired.annotations;
}

abbrev pub max_attempts : ℕ
max_attempts = 3

pub data LabelerState : Type 0 where
  disabled active : LabelerState

pub record OptionalLabeler : Type 0 where
  pub state : LabelerState
  pub announced : Bool

-- What a reconcile does outside: a log of the intended labels, the read of the node, each patch with
-- its outcome, each pause in milliseconds.
pub data Action : Type 0 where
  intended : (first : Bool) → Action
  got_metadata : Bool → Action
  tried : Bool → Action
  slept : ℕ → Action

-- `new`: without a client the labeler is disabled.
unfoldable pub new : (enabled client : Bool) → OptionalLabeler
new enabled client = record {
  state = if enabled && client then active else disabled;
  announced = false;
}

-- The API server and the clock over a state of the outside world: a read of the node's labels and
-- annotations, a patch, a pause.
pub record NodeApi (S : Type 0) : Type 0 where
  pub get_metadata : S → Option (Option (Dict Text Text) × Option (Dict Text Text)) × S
  pub patch : MergePatch → S → Bool × S
  pub sleep : ℕ → S → S

module _ {S : Type 0} (api : NodeApi S) where
  -- The attempts from number `attempt` on, of which `left` remain; the pause is
  -- `200 << attempt` milliseconds.
  unfoldable pub patch_from : (attempt left : ℕ) → MergePatch → S → List Action × S
  patch_from attempt zero body s = ([], s)
  patch_from attempt (suc left) body s =
      let (done, s') = api.patch body s in
      let (rest, s'') = patch_from (attempt + 1) left body (api.sleep (200 * 2 ^ attempt) s') in
      if done then (tried true ∷ [], s') else elim left [
        | zero ↦ (tried false ∷ [], s')
        | suc _ ↦ (tried false ∷ slept (200 * 2 ^ attempt) ∷ rest, s'')
      ]

  unfoldable pub apply : LabelSet → S → List Action × S
  unfolding build_merge_patch patch_from
  apply desired s =
      let (answer, s') = api.get_metadata s in
      elim answer [
        | none ↦ (got_metadata false ∷ [], s')
        | some (labels, annotations) ↦
            let (actions, s'') =
              patch_from 1 max_attempts (build_merge_patch labels annotations desired) s' in
            (got_metadata true ∷ actions, s'')
      ]

  unfoldable pub reconcile : LabelSet → OptionalLabeler → S → List Action × OptionalLabeler × S
  unfolding apply
  reconcile desired labeler s =
      let first = not labeler.announced in
      let next : OptionalLabeler = record labeler { announced = true } in
      elim labeler.state [
        | disabled ↦ (intended first ∷ [], next, s)
        | active ↦ let (actions, s') = apply desired s in (actions, next, s')
      ]
