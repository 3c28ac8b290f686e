-- ===== src/K8s/Labeler/Attempts.antt =====
-- The attempts of the labeler and its announcement.
use accelrd.Prelude.{
  ◌≡◌, refl, ◌⊎◌, inl, inr, true, false, not, List, [], ◌∷◌, Option, none, some, arith, Text,
}
use accelrd.Prelude.Dict.{Dict}
use accelrd.Topology.LabelSet.{LabelSet}
use accelrd.K8s.Labeler.{
  Action, intended, got_metadata, tried, slept, OptionalLabeler, LabelerState, disabled, active,
  MergePatch, NodeApi, patch_from, build_merge_patch, apply, reconcile,
}

-- The runs of the attempts: a success ends them, the first two failures pause for 400 ms and 800 ms,
-- and the third failure ends them.
abbrev pub IsPatchRun : List Action → Type 0
IsPatchRun l =
    (l ≡ tried true ∷ [])
    ⊎ (l ≡ tried false ∷ slept 400 ∷ tried true ∷ [])
    ⊎ (l ≡ tried false ∷ slept 400 ∷ tried false ∷ slept 800 ∷ tried true ∷ [])
    ⊎ (l ≡ tried false ∷ slept 400 ∷ tried false ∷ slept 800 ∷ tried false ∷ [])

module _ {S : Type 0} (api : NodeApi S) where
  patch_from-IsPatchRun : (body : MergePatch) (s : S) → IsPatchRun (patch_from api 1 3 body s).0
  unfolding patch_from
  patch_from-IsPatchRun body s = ground arith

  -- A reconcile of an active labeler reads the node, and gives up there or makes such a run.
  abbrev pub IsActiveRun : List Action → Type 0
  IsActiveRun l =
      (l ≡ got_metadata false ∷ [])
      ⊎ ((run : List Action) × (l ≡ got_metadata true ∷ run) × IsPatchRun run)

  apply-IsActiveRun : (desired : LabelSet) (s : S) → IsActiveRun (apply api desired s).0
  unfolding apply
  apply-IsActiveRun desired s = go (api.get_metadata s).0 refl
    where
      go :
          (o : Option (Option (Dict Text Text) × Option (Dict Text Text)))
          → (api.get_metadata s).0 ≡ o
          → IsActiveRun (apply api desired s).0
      go none e = inl (rw (e, apply) refl)
      go (some (labels, annotations)) e = inr (
        (patch_from api 1 3 (build_merge_patch labels annotations desired)
            (api.get_metadata s).1).0,
        rw (e, apply) refl,
        patch_from-IsPatchRun (build_merge_patch labels annotations desired) (api.get_metadata s).1,
      )

  -- A reconcile marks the labeler as announced and keeps its state. A disabled one only logs, and
  -- says whether it is the first time; an active one reads the node's metadata and, if that works,
  -- patches up to three times, pausing 400 ms and 800 ms, until a patch works.
  pub reconcile-actions :
      (desired : LabelSet) (labeler : OptionalLabeler) (s : S)
      → let (actions, labeler', s') = reconcile api desired labeler s in
        (labeler'.announced ≡ true)
        × (labeler'.state ≡ labeler.state)
        × (labeler.state ≡ disabled → (actions ≡ intended (not labeler.announced) ∷ []) × (s' ≡ s))
        × (labeler.state ≡ active → IsActiveRun actions)
  unfolding reconcile
  reconcile-actions desired labeler s = go labeler.state refl
    where
      go :
          (st : LabelerState)
          → labeler.state ≡ st
          → let (actions, labeler', s') = reconcile api desired labeler s in
            (labeler'.announced ≡ true)
            × (labeler'.state ≡ labeler.state)
            × (labeler.state ≡ disabled
                → (actions ≡ intended (not labeler.announced) ∷ []) × (s' ≡ s))
            × (labeler.state ≡ active → IsActiveRun actions)
      go disabled e = ground arith
      go active e =
          (ground arith, ground arith, (λ d. absurd (cc)), λ _. rw e (apply-IsActiveRun desired s))
