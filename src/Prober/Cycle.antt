-- ===== src/Prober/Cycle.antt =====
-- `run_once` of src/prober/reconcile.rs: the probes that are due, the tasks that run them under a semaphore, and
-- `cleanup_orphans` of src/prober/pods.rs, which runs first. One probe is Prober.Reconcile.
pub mod Permits
pub mod Orphans
use accelrd.Prelude.{
  ℕ, suc, ◌+◌, ◌*◌, ◌%◌, ◌^◌, Bool, true, false, List, [], ◌∷◌, ◌++◌, Option, none, some, Text,
  filter_map, map_option, and_then, is_lt, cmp_text, if◌then◌else◌,
}
use accelrd.Prelude.Int.{pos, minus_i64}
use accelrd.Kube.{Node}
use accelrd.Time.{rfc3339_at, now_minus_secs}
use accelrd.Prober.Config.{Resolved}
use accelrd.Prober.Cluster.{Api, World, M, ◌>>=◌, ◌>>◌, pure, ask, read}
use accelrd.Prober.Pods.{delete}
use accelrd.Prober.Pair.{NodeView, eligible, group_by_rack, pick_pair, pick_loopback}

-- A probe that a cycle starts.
pub data Due : Type 0 where
  pair : (rack : Text) (server client : NodeView) → Due
  loopback : (rack : Text) (node : NodeView) → Due

-- The probe of a rack: a pair, or else a single node.
unfoldable pub due_of : (cutoff : Text) → Text × List NodeView → Option Due
unfolding pick_pair pick_loopback
due_of cutoff (rack, members) = elim (pick_pair members cutoff) [
  | some p ↦ some (pair rack p.0 p.1)
  | none ↦ map_option (loopback rack) (pick_loopback members cutoff)
]

unfoldable pub due_probes : List Node → (cutoff : Text) → List Due
unfolding eligible group_by_rack due_of
due_probes nodes cutoff = filter_map (due_of cutoff) (group_by_rack (eligible nodes))

-- The loop waits for a permit before each task; a task gives its permit back when it ends.
pub record Tasks : Type 0 where
  pub waiting : List Due
  pub running : List Due
  pub finished : List Due
  pub permits : ℕ

unfoldable pub start : (max_concurrent : ℕ) → List Due → Tasks
start max_concurrent due = record {
  waiting = due;
  running = [];
  finished = [];
  permits = max_concurrent;
}

pub data Step : Tasks → Tasks → Type 0 where
  -- the loop acquires a permit and spawns the next task
  spawn :
      (p : Due) (waiting running finished : List Due) (permits : ℕ)
      → Step
          (record {
            waiting = p ∷ waiting;
            running = running;
            finished = finished;
            permits = suc permits;
          })
          (record {
            waiting = waiting;
            running = p ∷ running;
            finished = finished;
            permits = permits;
          })
  -- any running task ends, in whatever order
  finish :
      (p : Due) (waiting before after finished : List Due) (permits : ℕ)
      → Step
          (record {
            waiting = waiting;
            running = before ++ p ∷ after;
            finished = finished;
            permits = permits;
          })
          (record {
            waiting = waiting;
            running = before ++ after;
            finished = p ∷ finished;
            permits = suc permits;
          })

pub data Reach (from : Tasks) : Tasks → Type 0 where
  here : Reach from from
  later : {s t : Tasks} → Reach from s → Step s t → Reach from t

-- `metadata` of a pod, with the second of its creation.
pub record PodMeta : Type 0 where
  pub name : Option Text
  pub created : Option ℕ

-- The name of a pod that the loop deletes.
unfoldable pub stale_name : (cutoff : Text) → PodMeta → Option Text
unfolding rfc3339_at
stale_name cutoff pod = and_then pod.name λ name. elim pod.created [
  | none ↦ none
  | some c ↦ if is_lt (cmp_text (rfc3339_at (pos c)) cutoff) then some name else none
]

-- The pods to delete at second `now`; the difference wraps.
unfoldable pub orphans : (now max_age : ℕ) → List PodMeta → List Text
unfolding rfc3339_at minus_i64 stale_name
orphans now max_age pods = filter_map (stale_name (rfc3339_at (minus_i64 now max_age))) pods

module _ {S Pod : Type 0} (api : Api S Pod) where
  unfoldable pub delete_all : List Text → M S (Unit {0})
  delete_all [] = pure tt
  delete_all (name ∷ names) = do delete api name; delete_all names

  -- `list` is the list of the probe pods, or none where it fails.
  unfoldable pub cleanup_orphans :
      (list : S → Option (List PodMeta) × S) → (max_age : ℕ) → M S (Unit {0})
  unfolding orphans delete_all
  cleanup_orphans list max_age = do
    pods ← ask list
    now ← read api.unix_secs
    elim pods [ none ↦ pure tt | some l ↦ delete_all (orphans now max_age l) ]

  -- `run_once` up to the first task: what it starts with, where the nodes can be listed.
  unfoldable pub begin_cycle :
      (list_pods : S → Option (List PodMeta) × S) (list_nodes : S → Option (List Node) × S)
      → Resolved
      → M S Tasks
  unfolding cleanup_orphans due_probes now_minus_secs start
  begin_cycle list_pods list_nodes args = do
    cleanup_orphans list_pods ((args.test_duration_secs * 4 + 600) % 2 ^ 64)
    nodes ← ask list_nodes
    now ← read api.unix_secs
    pure (elim nodes [
      | none ↦ start args.max_concurrent_pairs []
      | some items ↦
          start args.max_concurrent_pairs (due_probes items (now_minus_secs now args.cadence_secs))
    ])
