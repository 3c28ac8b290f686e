-- ===== src/Preflight/Cycle.antt =====
-- `run_cycle` of src/telemetry/preflight.rs: the check matrix and the labels that it publishes.
-- The sensors do not change within a cycle, so a check's `run` is a function here.
use accelrd.Prelude.{
  ℕ, List, [], ◌∷◌, ◌++◌, Option, none, some, Text, codes, text_ord, length, if◌then◌else◌,
}
use accelrd.Prelude.Dict.{insert}
use accelrd.Sensors.{Accelerator}
use accelrd.Topology.LabelSet.{LabelSet}
use accelrd.Preflight.{
  CheckScope, single_accelerator, node_local, node_topology, cluster, Status, is_bad,
  PreflightCheck, NodeReadiness, aggregate, label_value,
}

-- `all_outcomes` and `failed_checks`.
pub record Findings : Type 0 where
  pub all_outcomes : List Status
  pub failed_checks : List Text

-- `show_index` prints the number of a card.
unfoldable pub failed_name : (ℕ → Text) → PreflightCheck → Option Accelerator → Text
failed_name show_index check none = check.name
failed_name show_index check (some accel) = check.name ++ codes "@" ++ show_index accel.id.drm_index

unfoldable pub run_one_check :
    (ℕ → Text) → PreflightCheck → Option Accelerator → Findings → Findings
unfolding failed_name
run_one_check show_index check accel found =
    let outcome = check.run accel in
    record {
      all_outcomes = found.all_outcomes ++ outcome.status ∷ [];
      failed_checks =
          if is_bad outcome.status
          then found.failed_checks ++ failed_name show_index check accel ∷ []
          else found.failed_checks;
    }

unfoldable pub run_on_each : (ℕ → Text) → PreflightCheck → List Accelerator → Findings → Findings
unfolding run_one_check
run_on_each show_index check [] found = found
run_on_each show_index check (accel ∷ rest) found =
    run_on_each show_index check rest
      (if check.applies_to accel then run_one_check show_index check (some accel) found else found)

-- The arms of the `match` on the scope.
unfoldable pub run_in_scope :
    (ℕ → Text) → List Accelerator → PreflightCheck → CheckScope → Findings → Findings
unfolding run_on_each
run_in_scope show_index accelerators check single_accelerator found =
    run_on_each show_index check accelerators found
run_in_scope show_index accelerators check node_local found =
    run_one_check show_index check none found
run_in_scope show_index accelerators check node_topology found = found
run_in_scope show_index accelerators check cluster found = found

unfoldable pub run_check : (ℕ → Text) → List Accelerator → PreflightCheck → Findings → Findings
unfolding run_in_scope
run_check show_index accelerators check found =
    run_in_scope show_index accelerators check check.scope found

unfoldable pub run_checks :
    (ℕ → Text) → List Accelerator → List PreflightCheck → Findings → Findings
unfolding run_check
run_checks show_index accelerators [] found = found
run_checks show_index accelerators (check ∷ rest) found =
    run_checks show_index accelerators rest (run_check show_index accelerators check found)

-- `failed_checks.join(",")`.
unfoldable pub join : Text → List Text → Text
join sep [] = []
join sep (x ∷ []) = x
join sep (x ∷ y ∷ rest) = x ++ sep ++ join sep (y ∷ rest)

abbrev pub inference_key : Text
inference_key = codes "accel-ready.lunnova.dev/inference"

abbrev pub training_key : Text
training_key = codes "accel-ready.lunnova.dev/training"

abbrev pub last_check_key : Text
last_check_key = codes "accel-ready.lunnova.dev/last-check"

abbrev pub failed_key : Text
failed_key = codes "accel-ready.lunnova.dev/failed"

pub record CycleResult : Type 0 where
  pub inference : NodeReadiness
  pub training : NodeReadiness
  pub ran : ℕ
  pub failed : ℕ

-- The labels that the cycle hands to the labeler.
unfoldable pub cycle_labels : LabelSet → (now : Text) → Findings → LabelSet
unfolding join
cycle_labels base now found =
    let value = label_value (aggregate found.all_outcomes) in
    let stamped = insert last_check_key now base.annotations in
    record {
      labels = insert training_key value (insert inference_key value base.labels);
      annotations = elim found.failed_checks [
        | [] ↦ stamped
        | c ∷ cs ↦ insert failed_key (join (codes ",") (c ∷ cs)) stamped
      ];
    }

unfoldable pub run_cycle :
    (ℕ → Text)
    → List PreflightCheck
    → List Accelerator
    → LabelSet
    → (now : Text) → CycleResult × LabelSet
unfolding run_checks cycle_labels
run_cycle show_index checks accelerators base now =
    let found =
      run_checks show_index accelerators checks
        (record { all_outcomes = []; failed_checks = [] }) in
    let inference = aggregate found.all_outcomes in
    (
      record {
        inference = inference;
        training = inference;
        ran = length found.all_outcomes;
        failed = length found.failed_checks;
      },
      cycle_labels base now found,
    )
