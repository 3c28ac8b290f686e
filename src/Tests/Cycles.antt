-- ===== src/Tests/Cycles.antt =====
-- A preflight cycle of two checks on two cards.
use accelrd.Prelude.{
  ℕ, ◌+◌, ◌<◌, ◌≡◌, ◌≢◌, refl, ◌↔◌, true, false, List, [], ◌∷◌, Option, none, some, Text, codes,
  text_ord, is_some, any, All, ◌==◌,
}
use accelrd.Prelude.Dict.{get}
use accelrd.Sensors.{Accelerator, amd, dedicated, full}
use accelrd.Topology.LabelSet.{LabelSet}
use accelrd.Preflight.{
  single_accelerator, node_local, Status, pass, warn, skipped, PreflightCheck, ready, degraded,
  not_ready, unknown, is_bad, is_pass, aggregate, label_value,
}
use accelrd.Preflight.Cycle.{inference_key, training_key, failed_key, run_cycle}
use accelrd.Preflight.Aggregate.{aggregate_cases}
use accelrd.Preflight.Publishing.{matrix, run_cycle-matrix, run_cycle_failed}

abbrev card : ℕ → Accelerator
card i = record {
  id = record { vendor = amd; drm_index = i; pci_addr = codes "0000:01:00.0" };
  model = codes "mi300x";
  memory_kind = dedicated;
  memory_total_bytes = none;
  local_cpus = [];
  numa_node = none;
  iommu_group = none;
  coverage = full;
  fabric_domain = none;
  partitioned = false;
  device_dir = codes "/sys/class/drm/card0";
}

-- Card 1 is the one that the check warns about.
abbrev status_of : Option Accelerator → Status
status_of none = pass
status_of (some a) = elim (a.id.drm_index == 1) [ true ↦ warn | false ↦ pass ]

abbrev checks : List PreflightCheck
checks =
    record {
      name = codes "aer";
      scope = single_accelerator;
      applies_to = λ a. true;
      run = λ a. record { status = status_of a; message = none };
    }
    ∷ record {
      name = codes "mce";
      scope = node_local;
      applies_to = λ a. true;
      run = λ a. record { status = skipped; message = none };
    }
    ∷ []

abbrev cards : List Accelerator
cards = card 0 ∷ card 1 ∷ []

abbrev base : LabelSet
base = record { labels = []; annotations = [] }

abbrev show_index : ℕ → Text
show_index i = (48 + i) ∷ []

all_of_the_matrix : matrix cards checks ≡ pass ∷ warn ∷ skipped ∷ []
all_of_the_matrix = refl

run_cycle-matrix_example :
    let done = run_cycle show_index checks cards base (codes "now") in
    let all = pass ∷ warn ∷ skipped ∷ [] in
    (done.0.ran ≡ 3)
    × (done.0.failed ≡ 1)
    × (done.0.inference ≡ degraded)
    × (done.0.training ≡ degraded)
    × (get inference_key done.1.labels ≡ some (codes "degraded"))
    × (get training_key done.1.labels ≡ some (codes "degraded"))
unfolding aggregate label_value
run_cycle-matrix_example = run_cycle-matrix show_index checks cards base (codes "now")

run_cycle_failed_example :
    let done = run_cycle show_index checks cards base (codes "now") in
    (is_some (get failed_key done.1.annotations) ≡ true) ↔ (0 < done.0.failed)
unfolding get
run_cycle_failed_example = run_cycle_failed show_index checks cards base (codes "now") refl

aggregate_cases_example :
    let l = pass ∷ warn ∷ [] in
    ((aggregate l ≡ degraded) ↔ (any is_bad l ≡ true))
    × ((aggregate l ≡ ready) ↔ (any is_bad l ≡ false) × (any is_pass l ≡ true))
    × ((aggregate l ≡ unknown) ↔ All (λ s. s ≡ skipped) l)
    × (aggregate l ≢ not_ready)
aggregate_cases_example = aggregate_cases (pass ∷ warn ∷ [])
