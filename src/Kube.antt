-- ===== src/Kube.antt =====
-- The Kubernetes objects that the program reads and writes (the crate k8s-openapi), with the
-- fields that the source uses, and the JSON values of its annotation patches (serde_json).
pub mod Merge
use accelrd.Prelude.{Bool, Option, List, Text}
use accelrd.Prelude.Dict.{Dict}

pub record Condition : Type 0 where
  pub kind : Text  -- `type_`
  pub status : Text
  pub reason : Option Text

pub record NodeStatus : Type 0 where
  pub conditions : Option (List Condition)
  pub kubelet_version : Option Text  -- of `node_info`

pub record NodeSpec : Type 0 where
  pub unschedulable : Option Bool

pub record Node : Type 0 where
  pub name : Option Text
  pub labels : Option (Dict Text Text)
  pub annotations : Option (Dict Text Text)
  pub spec : Option NodeSpec
  pub status : Option NodeStatus

-- A value under `metadata.annotations` or `metadata.labels` of a merge patch.
pub data Value : Type 0 where
  null : Value
  string : Text → Value
