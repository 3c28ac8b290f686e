-- ===== src/Sensors/Common.antt =====
-- The helpers of src/sensors/common.rs that the labels and the partition marks use. `read` is
-- `fs::read_to_string`, and the paths are the canonical ones that `drm_cards` returns.
use accelrd.Prelude.{
  ℕ, ◌+◌, ◌||◌, List, [], ◌∷◌, ◌++◌, Option, none, some, Text, codes, text_ord, and_then, map,
  foldl, ltb, ◌==◌, if◌then◌else◌, is_empty, unwrap_or,
}
use accelrd.Prelude.Dict.{Dict, get, update_or}
use accelrd.Prelude.Strings.{reverse, trim, parse_below, u64_bound}
use accelrd.Sensors.{Accelerator}

-- What precedes the last slash, backwards.
unfoldable pub above : Text → Text
above [] = []
above (c ∷ s) = let rest = above s in if c == b'/' then s else rest

-- `Path::parent` of a canonical path, which ends in a slash only if it is the root.
unfoldable pub parent : Text → Option Text
unfolding above reverse
parent path = elim (reverse path []) [
  | [] ↦ none
  | c ∷ s ↦
      if c == b'/'
      then none
      else if is_empty (above (c ∷ s))
      then some (codes "/")
      else some (reverse (above (c ∷ s)) [])
]

-- `Path::join` with a file's name.
unfoldable pub join_path : Text → Text → Text
join_path dir name = if is_empty dir then name else elim (reverse dir []) [
  | [] ↦ name
  | c ∷ s ↦ if c == b'/' then dir ++ name else dir ++ b'/' ∷ name
]

-- How many accelerators each parent has.
unfoldable pub parent_step : Dict Text ℕ → Accelerator → Dict Text ℕ
unfolding parent
parent_step counts a = elim (parent a.device_dir) [
  | none ↦ counts
  | some p ↦ update_or 0 (λ n. n + 1) p counts
]

module _ (read : Text → Option Text) where
  unfoldable pub read_u64 : Text → Option ℕ
  unfolding trim parse_below
  read_u64 path = and_then (read path) (λ s. parse_below u64_bound (trim s))

  unfoldable pub sriov_capacity : Text → Option (ℕ × ℕ)
  unfolding read_u64 join_path
  sriov_capacity dir =
      and_then (read_u64 (join_path dir (codes "sriov_totalvfs")))
        λ total. some (total, unwrap_or (read_u64 (join_path dir (codes "sriov_numvfs"))) 0)

  unfoldable pub mark : Dict Text ℕ → Accelerator → Accelerator
  unfolding parent read_u64 join_path
  mark counts a =
      let shared_parent =
        ltb 1 (unwrap_or (and_then (parent a.device_dir) (λ p. get p counts)) 0) in
      let sriov_active =
        ltb 0 (unwrap_or (read_u64 (join_path a.device_dir (codes "sriov_numvfs"))) 0) in
      record a { partitioned = a.partitioned || shared_parent || sriov_active }

  unfoldable pub mark_partitions : List Accelerator → List Accelerator
  unfolding parent_step mark
  mark_partitions accels = map (mark (foldl parent_step [] accels)) accels
