-- ===== src/Tests/Turns.antt =====
-- A cycle over two probes with one permit, and the pods of an hour.
use accelrd.Prelude.{ℕ, suc, ◌≡◌, arith, ◌⊎◌, List, [], ◌∷◌, none, some, Text, codes}
use accelrd.Prober.Pair.{NodeView}
use accelrd.Prober.Cycle.{Due, loopback, Tasks, start, Step, Reach, PodMeta, orphans}
use accelrd.Prober.Cycle.Permits.{IsDone, IsKept, left, Reach-IsKept, Reach-ends}
use accelrd.Prober.Cycle.Orphans.{orphans-old_name}

abbrev view : Text → NodeView
view name = record { name = name; last_at = none; last_loopback_at = none; rack = codes "r" }

abbrev first : Due
first = loopback (codes "r") (view (codes "a"))

abbrev second : Due
second = loopback (codes "s") (view (codes "b"))

abbrev spawned : Tasks
spawned = record { waiting = second ∷ []; running = first ∷ []; finished = []; permits = 0 }

abbrev to_spawned : Reach (start 1 (first ∷ second ∷ [])) spawned
unfolding start
to_spawned = Reach.later Reach.here (Step.spawn first (second ∷ []) [] [] 0)

Reach-IsKept_example : IsKept 1 (first ∷ second ∷ []) spawned
Reach-IsKept_example = Reach-IsKept 1 (first ∷ second ∷ []) spawned to_spawned

Reach-ends_example :
    (IsDone spawned ⊎ ((t : Tasks) × Step spawned t))
    × ((t : Tasks) → Step spawned t → suc (left t) ≡ left spawned)
Reach-ends_example = Reach-ends 1 (first ∷ second ∷ []) spawned (omega arith) to_spawned

abbrev pod : Text → ℕ → PodMeta
pod name created = record { name = some name; created = some created }

abbrev pods : List PodMeta
pods = pod (codes "old") 1000 ∷ pod (codes "new") 9000 ∷ []

orphans-old_name_example : orphans 10000 3600 pods ≡ codes "old" ∷ []
orphans-old_name_example =
    orphans-old_name 10000 3600 pods (omega arith) (omega arith)
      (λ c e. ground (arith, e), (λ c e. ground (arith, e), tt))
