-- ===== src/Prober/Pair.antt =====
-- src/prober/pair.rs: which nodes can be probed, grouped by rack, and which of them are next.
pub mod Lru
pub mod Choice
pub mod Grouping
pub mod Rotation
pub mod Cadence
use accelrd.Prelude.{
  ℕ, Bool, true, false, not, ◌&&◌, List, [], ◌∷◌, ◌++◌, Option, none, some, Ordering, Text, codes,
  ltb, length, any, keep, filter_map, foldl, if◌then◌else◌, and_then, is_lt, not_gt, then_cmp,
  cmp_text, text_ord, ◌=t◌,
}
use accelrd.Prelude.Dict.{Dict, get, update_or, map_values}
use accelrd.Prelude.Sort.{sort_by}
use accelrd.Kube.{Node, Condition}
use accelrd.Prober.Keys.{ann_last_at, ann_lb_last_at}

abbrev pub rack_label : Text
rack_label = codes "accel-topo.lunnova.dev/rack"

abbrev pub rdma_label : Text
rdma_label = codes "accel-net.lunnova.dev/rdma"

abbrev pub rdma_present : Text
rdma_present = codes "present"

abbrev pub node_ready_type : Text
node_ready_type = codes "Ready"

abbrev pub node_ready_status : Text
node_ready_status = codes "True"

pub record NodeView : Type 0 where
  pub name : Text
  pub last_at : Option Text
  pub last_loopback_at : Option Text
  pub rack : Text

-- `a >= b` on texts.
abbrev pub ge_text : Text → Text → Bool
ge_text a b = not (is_lt (cmp_text a b))

-- `a.min(b)` on texts: `a` where they tie.
abbrev pub min_text : Text → Text → Text
min_text a b = if not_gt (cmp_text a b) then a else b

abbrev ready_condition : Condition → Bool
ready_condition c = (c.kind =t node_ready_type) && (c.status =t node_ready_status)

unfoldable pub is_ready : Node → Bool
is_ready node = elim node.status [
  | none ↦ false
  | some status ↦ elim status.conditions [ none ↦ false | some cs ↦ any ready_condition cs ]
]

-- `labels.get(RDMA_LABEL).map(String::as_str) != Some(RDMA_PRESENT)`, negated.
unfoldable pub has_rdma : Dict Text Text → Bool
has_rdma labels = elim (get rdma_label labels) [ none ↦ false | some v ↦ v =t rdma_present ]

unfoldable pub from_node : Node → Option NodeView
unfolding has_rdma
from_node n = and_then n.name λ name. and_then n.labels λ labels.
    and_then (get rack_label labels) λ rack.
      if has_rdma labels
      then some (record {
        name = name;
        last_at = and_then n.annotations (get ann_last_at);
        last_loopback_at = and_then n.annotations (get ann_lb_last_at);
        rack = rack;
      })
      else none

unfoldable pub eligible : List Node → List NodeView
unfolding is_ready from_node
eligible nodes = filter_map from_node (keep is_ready nodes)

abbrev pub by_name : NodeView → NodeView → Ordering
by_name a b = cmp_text a.name b.name

unfoldable pub push_by_rack : Dict Text (List NodeView) → NodeView → Dict Text (List NodeView)
push_by_rack out n = update_or [] (λ v. v ++ n ∷ []) n.rack out

unfoldable pub group_by_rack : List NodeView → Dict Text (List NodeView)
unfolding push_by_rack
group_by_rack nodes = map_values (sort_by by_name) (foldl push_by_rack [] nodes)

unfoldable pub pick_loopback : List NodeView → Text → Option NodeView
pick_loopback (only ∷ []) cutoff = elim only.last_loopback_at [
  | none ↦ some only
  | some at ↦ if ge_text at cutoff then none else some only
]
pick_loopback _ cutoff = none

-- The comparison of `pick_pair`: never probed first, then the older stamp, then the name.
abbrev pub lru_stamps : Option Text → Option Text → Ordering → Ordering
lru_stamps none none names = names
lru_stamps none (some _) names = Ordering.lt
lru_stamps (some _) none names = Ordering.gt
lru_stamps (some x) (some y) names = then_cmp (cmp_text x y) names

unfoldable pub lru_cmp : NodeView → NodeView → Ordering
lru_cmp a b = lru_stamps a.last_at b.last_at (cmp_text a.name b.name)

-- Whether the cadence guard skips a pair with these stamps.
abbrev pub within_cadence : Text → Option Text → Option Text → Bool
within_cadence cutoff (some a) (some b) = ge_text (min_text a b) cutoff
within_cadence cutoff _ _ = false

-- `sorted[0]` and `sorted[1]`, and the guard. The last clause would be a panic.
unfoldable pub first_two : Text → List NodeView → Option (NodeView × NodeView)
first_two cutoff (oldest ∷ next ∷ _) =
    if within_cadence cutoff oldest.last_at next.last_at then none else some (oldest, next)
first_two cutoff _ = none

unfoldable pub pick_pair : List NodeView → Text → Option (NodeView × NodeView)
unfolding lru_cmp first_two
pick_pair members cutoff =
    if ltb (length members) 2 then none else first_two cutoff (sort_by lru_cmp members)
