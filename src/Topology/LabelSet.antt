-- ===== src/Topology/LabelSet.antt =====
-- The label set of src/topology/labels.rs.
use accelrd.Prelude.{Text}
use accelrd.Prelude.Dict.{Dict}

pub record LabelSet : Type 0 where
  pub labels : Dict Text Text
  pub annotations : Dict Text Text
