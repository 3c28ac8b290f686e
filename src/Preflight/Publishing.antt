-- ===== src/Preflight/Publishing.antt =====
-- What a cycle publishes agrees with the outcomes of its checks.
use accelrd.Prelude.{
  ℕ, ◌<◌, ◌≡◌, refl, ◌∙◌, ap, sym, ◌↔◌, Bool, true, false, List, [], ◌∷◌, ◌++◌, Option, none, some,
  Text, arith, count_if, count_if-append, length, text_ord, cmp_text, if◌then◌else◌, is_some,
  length-append,
}
use mathlib.Core.List.{append_assoc, append-nil}
use accelrd.Prelude.Dict.{get, insert, get-insert_ne, get-insert_self}
use accelrd.Sensors.{Accelerator}
use accelrd.Topology.LabelSet.{LabelSet}
use accelrd.Preflight.{
  CheckScope, single_accelerator, node_local, node_topology, cluster, Status, is_bad,
  PreflightCheck, aggregate, label_value,
}
use accelrd.Preflight.Cycle.{
  Findings, failed_name, run_one_check, run_on_each, run_in_scope, run_checks, inference_key,
  training_key, failed_key, last_check_key, cycle_labels, run_cycle,
}

-- The outcomes of a check in the order of the cycle: one for each accelerator that it applies to, one
-- for the node, none for the scopes that are not dispatched.
abbrev on_each : PreflightCheck → List Accelerator → List Status
on_each check [] = []
on_each check (a ∷ rest) =
    (if check.applies_to a then (check.run (some a)).status ∷ [] else []) ++ on_each check rest

abbrev pub outcomes_of : List Accelerator → PreflightCheck → CheckScope → List Status
outcomes_of accelerators check single_accelerator = on_each check accelerators
outcomes_of accelerators check node_local = (check.run none).status ∷ []
outcomes_of accelerators check node_topology = []
outcomes_of accelerators check cluster = []

abbrev pub matrix : List Accelerator → List PreflightCheck → List Status
matrix accelerators [] = []
matrix accelerators (check ∷ rest) =
    outcomes_of accelerators check check.scope ++ matrix accelerators rest

-- As many failed checks as bad outcomes.
abbrev IsCounted : Findings → Type 0
IsCounted found = length found.failed_checks ≡ count_if is_bad found.all_outcomes

module _ (show_index : ℕ → Text) where
  run_one_check-IsCounted :
      (check : PreflightCheck) (accel : Option Accelerator) (found : Findings)
      → IsCounted found
      → IsCounted (run_one_check show_index check accel found)
  unfolding run_one_check
  run_one_check-IsCounted check accel found h = ground (
    arith,
    h,
    count_if-append is_bad found.all_outcomes ((check.run accel).status ∷ []),
    length-append found.failed_checks (failed_name show_index check accel ∷ []),
  )

  -- A step that keeps the count and appends the outcomes `more`.
  abbrev Extends : Findings → List Status → Findings → Type 0
  Extends before more after =
      (IsCounted before → IsCounted after) × (after.all_outcomes ≡ before.all_outcomes ++ more)

  Extends-none : (found : Findings) → Extends found [] found
  Extends-none found = (λ h. h, sym (append-nil found.all_outcomes))

  Extends-append :
      (a b c : Findings) (xs ys : List Status)
      → Extends a xs b
      → Extends b ys c
      → Extends a (xs ++ ys) c
  Extends-append a b c xs ys h k =
      (λ q. k.0 (h.0 q), k.1 ∙ ap (λ l. l ++ ys) h.1 ∙ append_assoc a.all_outcomes xs ys)

  run_one_check-Extends :
      (check : PreflightCheck) (accel : Option Accelerator) (found : Findings)
      → Extends found ((check.run accel).status ∷ []) (run_one_check show_index check accel found)
  unfolding run_one_check
  run_one_check-Extends check accel found = (run_one_check-IsCounted check accel found, refl)

  run_one_check_if :
      (b : Bool) (check : PreflightCheck) (a : Accelerator) (found : Findings)
      → Extends found
          (if b then (check.run (some a)).status ∷ [] else [])
          (if b then run_one_check show_index check (some a) found else found)
  run_one_check_if true check a found = run_one_check-Extends check (some a) found
  run_one_check_if false check a found = Extends-none found

  run_on_each-Extends :
      (check : PreflightCheck) (accelerators : List Accelerator) (found : Findings)
      → Extends found (on_each check accelerators) (run_on_each show_index check accelerators found)
  unfolding run_on_each
  run_on_each-Extends check [] found = Extends-none found
  run_on_each-Extends check (a ∷ rest) found =
      let one =
        if check.applies_to a then run_one_check show_index check (some a) found else found in
      Extends-append found one _ _ (on_each check rest)
        (run_one_check_if (check.applies_to a) check a found) (run_on_each-Extends check rest one)

  run_in_scope-Extends :
      (accelerators : List Accelerator) (check : PreflightCheck) (scope : CheckScope)
      (found : Findings)
      → Extends found
          (outcomes_of accelerators check scope)
          (run_in_scope show_index accelerators check scope found)
  unfolding run_in_scope
  run_in_scope-Extends accelerators check single_accelerator found =
      run_on_each-Extends check accelerators found
  run_in_scope-Extends accelerators check node_local found = run_one_check-Extends check none found
  run_in_scope-Extends accelerators check node_topology found = Extends-none found
  run_in_scope-Extends accelerators check cluster found = Extends-none found

  run_checks-Extends :
      (accelerators : List Accelerator) (checks : List PreflightCheck) (found : Findings)
      → Extends found (matrix accelerators checks) (run_checks show_index accelerators checks found)
  unfolding run_checks
  run_checks-Extends accelerators [] found = Extends-none found
  run_checks-Extends accelerators (check ∷ rest) found =
      let one = run_in_scope show_index accelerators check check.scope found in
      Extends-append found one (run_checks show_index accelerators rest one)
        (outcomes_of accelerators check check.scope) (matrix accelerators rest)
        (run_in_scope-Extends accelerators check check.scope found)
        (run_checks-Extends accelerators rest one)

  -- A cycle reports as many outcomes as the matrix of its checks and cards has, as failed those that
  -- are failures or warnings, and as its two verdicts the one of that matrix, which it also publishes
  -- under both readiness labels.
  pub run_cycle-matrix :
      (checks : List PreflightCheck) (accelerators : List Accelerator) (base : LabelSet)
      (now : Text)
      → let done = run_cycle show_index checks accelerators base now in
        let all = matrix accelerators checks in
        (done.0.ran ≡ length all)
        × (done.0.failed ≡ count_if is_bad all)
        × (done.0.inference ≡ aggregate all)
        × (done.0.training ≡ aggregate all)
        × (get inference_key done.1.labels ≡ some (label_value (aggregate all)))
        × (get training_key done.1.labels ≡ some (label_value (aggregate all)))
  unfolding run_cycle cmp_text
  run_cycle-matrix checks accelerators base now =
      let nothing : Findings = record { all_outcomes = []; failed_checks = [] } in
      let found = run_checks show_index accelerators checks nothing in
      let ran = run_checks-Extends accelerators checks nothing in
      (
        ap length ran.1,
        ran.0 refl ∙ ap (count_if is_bad) ran.1,
        ap aggregate ran.1,
        ap aggregate ran.1,
        get-insert_ne inference_key training_key _ _ refl
            ∙ get-insert_self inference_key _ base.labels
            ∙ ap (λ l. some (label_value (aggregate l))) ran.1,
        get-insert_self training_key _ _ ∙ ap (λ l. some (label_value (aggregate l))) ran.1,
      )

  cycle_labels-failed :
      (base : LabelSet) (now : Text)
      → get failed_key base.annotations ≡ none
      → (outcomes : List Status) (failed : List Text)
      → let found : Findings = record { all_outcomes = outcomes; failed_checks = failed } in
        (is_some (get failed_key (cycle_labels base now found).annotations) ≡ true)
        ↔ (0 < length failed)
  unfolding cycle_labels cmp_text
  cycle_labels-failed base now h outcomes [] = (
    λ e. absurd (cc (e, h, get-insert_ne failed_key last_check_key now base.annotations refl)),
    λ e. absurd (omega arith),
  )
  cycle_labels-failed base now h outcomes (c ∷ cs) = (
    λ e. omega arith,
    λ e. ap is_some (get-insert_self failed_key _ (insert last_check_key now base.annotations)),
  )

  -- The annotation that names the failed checks is published exactly when the cycle counts one, for
  -- a base set that lacks it.
  pub run_cycle_failed :
      (checks : List PreflightCheck) (accelerators : List Accelerator) (base : LabelSet)
      (now : Text)
      → get failed_key base.annotations ≡ none
      → let done = run_cycle show_index checks accelerators base now in
        (is_some (get failed_key done.1.annotations) ≡ true) ↔ (0 < done.0.failed)
  unfolding run_cycle
  run_cycle_failed checks accelerators base now h =
      cycle_labels-failed base now h
        (run_checks show_index accelerators checks
          (record { all_outcomes = []; failed_checks = [] })).all_outcomes
        (run_checks show_index accelerators checks
          (record { all_outcomes = []; failed_checks = [] })).failed_checks
