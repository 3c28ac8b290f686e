-- ===== src/Admin/Nodes.antt =====
-- src/admin/k8s.rs: what the console reads from the nodes' labels and annotations.
pub mod Verdicts
pub mod Summary
use accelrd.Prelude.{
  ℕ, ◌+◌, ◌%◌, Bool, true, false, not, ◌&&◌, ◌||◌, List, [], ◌∷◌, ◌++◌, Option, none, some, Text,
  codes, text_ord, ◌=t◌, if◌then◌else◌, is_none, is_empty, keep_if, and_then, map_option, unwrap_or,
  starts_with, foldl, any, count_if, length, keep,
}
use accelrd.Prelude.Dict.{Dict, get, insert, update_or}
use accelrd.Prelude.Strings.{parse_below, strip_prefix, strip_suffix, u64_bound}
use accelrd.Kube.{Node, Condition}

pub data VerdictSource : Type 0 where
  pair loopback preflight : VerdictSource

pub record ProbeRecord (F64 : Type 0) : Type 0 where
  pub at : Option Text
  pub bandwidth_gbps : Option F64
  pub partner : Option Text
  pub verdict : Option Text
  pub source : VerdictSource
  pub reason : Option Text

pub record NodeView (F64 : Type 0) : Type 0 where
  pub name : Text
  pub rack : Option Text
  pub block : Option Text
  pub vendor_counts : Dict Text ℕ
  pub model_counts : Dict Text ℕ
  pub total_accelerators : Option ℕ
  pub fabric_domains : ℕ
  pub rdma_capable : Bool
  pub last_probe : Option (ProbeRecord F64)
  pub conditions : List Condition
  pub ready : Bool
  pub schedulable : Bool
  pub kubelet_version : Option Text
  pub topo_labels : Dict Text Text

pub record RackSummary : Type 0 where
  pub nodes : List Text
  pub healthy_probes : ℕ
  pub failed_probes : ℕ

pub record ClusterSummary : Type 0 where
  pub nodes_total : ℕ
  pub nodes_ready : ℕ
  pub racks : Dict Text RackSummary
  pub probe_verdicts : Dict Text ℕ
  pub vendor_totals : Dict Text ℕ

unfoldable pub no_signal : {F64 : Type 0} → ProbeRecord F64 → Bool
no_signal r = is_none r.at && is_none r.bandwidth_gbps && is_none r.partner && is_none r.verdict

unfoldable pub read_optional : Dict Text Text → Text → Option Text
read_optional annotations key = keep_if (λ s. not (is_empty s)) (get key annotations)

-- `parse_f64` is `str::parse::<f64>`.
module _ {F64 : Type 0} (parse_f64 : Text → Option F64) where
  unfoldable pub read_pair : Dict Text Text → Option (ProbeRecord F64)
  unfolding read_optional no_signal
  read_pair annotations =
      let r : ProbeRecord F64 = record {
        at = read_optional annotations (codes "accel-test.lunnova.dev/last-rack-at");
        bandwidth_gbps =
            and_then (get (codes "accel-test.lunnova.dev/last-rack-bw-gbps") annotations) parse_f64;
        partner = read_optional annotations (codes "accel-test.lunnova.dev/last-rack-partner");
        verdict = read_optional annotations (codes "accel-test.lunnova.dev/last-rack-verdict");
        source = pair;
        reason = read_optional annotations (codes "accel-test.lunnova.dev/last-rack-reason");
      } in
      if no_signal r then none else some r

  unfoldable pub read_loopback : Dict Text Text → Option (ProbeRecord F64)
  unfolding read_optional no_signal
  read_loopback annotations =
      let r : ProbeRecord F64 = record {
        at = read_optional annotations (codes "accel-test.lunnova.dev/last-loopback-at");
        bandwidth_gbps =
            and_then (get (codes "accel-test.lunnova.dev/last-loopback-bw-gbps") annotations)
              parse_f64;
        partner = none;
        verdict = read_optional annotations (codes "accel-test.lunnova.dev/last-loopback-verdict");
        source = loopback;
        reason = read_optional annotations (codes "accel-test.lunnova.dev/last-loopback-reason");
      } in
      if no_signal r then none else some r

  unfoldable pub preflight_verdict : Text → Text
  preflight_verdict inference =
      if inference =t codes "true"
      then codes "ok"
      else if inference =t codes "false"
      then codes "fail"
      else inference

  unfoldable pub read_preflight : (labels annotations : Dict Text Text) → Option (ProbeRecord F64)
  unfolding read_optional preflight_verdict
  read_preflight labels annotations =
      map_option
        (λ inference. record {
          at = read_optional annotations (codes "accel-ready.lunnova.dev/last-check");
          bandwidth_gbps = none;
          partner = none;
          verdict = some (preflight_verdict inference);
          source = preflight;
          reason = read_optional annotations (codes "accel-ready.lunnova.dev/failed");
        })
        (get (codes "accel-ready.lunnova.dev/inference") labels)

  unfoldable pub resolve_verdict : (annotations labels : Dict Text Text) → Option (ProbeRecord F64)
  unfolding read_pair read_loopback read_preflight
  resolve_verdict annotations labels = elim (read_pair annotations) [
    | some rec ↦ some rec
    | none ↦ elim (read_loopback annotations) [
      | some rec ↦ some rec
      | none ↦ read_preflight labels annotations
    ]
  ]

-- `<prefix>{key}<suffix>` labels with a number, as a map from `key`.
unfoldable pub count_label : (prefix suffix : Text) → Dict Text ℕ → Text × Text → Dict Text ℕ
count_label prefix suffix out (k, v) =
    elim (and_then (strip_prefix k prefix) (λ rest. strip_suffix rest suffix)) [
      | none ↦ out
      | some key ↦ elim (parse_below u64_bound v) [ none ↦ out | some count ↦ insert key count out ]
    ]

unfoldable pub parse_count_labels : Dict Text Text → (prefix suffix : Text) → Dict Text ℕ
unfolding count_label
parse_count_labels labels prefix suffix = foldl (count_label prefix suffix) [] labels

abbrev is_ready_condition : Condition → Bool
is_ready_condition c = (c.kind =t codes "Ready") && (c.status =t codes "True")

-- The prefixes of the labels that the console shows in full.
abbrev pub shown_prefixes : List Text
shown_prefixes =
    codes "accel-topo.lunnova.dev/"
    ∷ codes "accel.lunnova.dev/"
    ∷ codes "accel-test.lunnova.dev/"
    ∷ codes "accel-net.lunnova.dev/"
    ∷ codes "accel-ready.lunnova.dev/"
    ∷ []

module _ {F64 : Type 0} (parse_f64 : Text → Option F64) where
  unfoldable pub from_node : Node → NodeView F64
  unfolding parse_count_labels resolve_verdict
  from_node node =
      let labels = unwrap_or node.labels [] in
      let annotations = unwrap_or node.annotations [] in
      let conditions : List Condition = elim node.status [
        | none ↦ []
        | some status ↦ unwrap_or status.conditions []
      ] in
      record {
        name = unwrap_or node.name [];
        rack = get (codes "accel-topo.lunnova.dev/rack") labels;
        block = get (codes "accel-topo.lunnova.dev/block") labels;
        vendor_counts =
            parse_count_labels labels (codes "accel.lunnova.dev/vendor.") (codes ".count");
        model_counts =
            parse_count_labels labels (codes "accel.lunnova.dev/model.") (codes ".count");
        total_accelerators =
            and_then (get (codes "accel.lunnova.dev/total-count") labels) (parse_below u64_bound);
        fabric_domains =
            unwrap_or
              (and_then (get (codes "accel-topo.lunnova.dev/fabric-domains-count") labels)
                (parse_below u64_bound))
              0;
        rdma_capable = elim (get (codes "accel-net.lunnova.dev/rdma") labels) [
          | none ↦ false
          | some v ↦ v =t codes "present"
        ];
        last_probe = resolve_verdict parse_f64 annotations labels;
        conditions = conditions;
        ready = any is_ready_condition conditions;
        schedulable =
            not (elim node.spec [ none ↦ false | some s ↦ unwrap_or s.unschedulable false ]);
        kubelet_version = and_then node.status (λ s. s.kubelet_version);
        topo_labels = keep (λ e. any (starts_with e.0) shown_prefixes) labels;
      }

abbrev pub is_healthy : Option Text → Bool
is_healthy none = false
is_healthy (some v) = (v =t codes "pass") || (v =t codes "ok")

abbrev pub is_failed : Option Text → Bool
is_failed none = false
is_failed (some v) = not ((v =t codes "pass") || (v =t codes "ok"))

abbrev pub no_nodes : RackSummary
no_nodes = record { nodes = []; healthy_probes = 0; failed_probes = 0 }

-- The total is a `u64` that wraps.
abbrev add_count : Dict Text ℕ → Text × ℕ → Dict Text ℕ
add_count totals (vendor, count) = update_or 0 (λ t. (t + count) % u64_bound) vendor totals

module _ {F64 : Type 0} where
  abbrev pub verdict_text : NodeView F64 → Option Text
  verdict_text n = and_then n.last_probe (λ p. p.verdict)

  unfoldable pub add_to_rack : NodeView F64 → RackSummary → RackSummary
  add_to_rack n s = record {
    nodes = s.nodes ++ n.name ∷ [];
    healthy_probes = if is_healthy (verdict_text n) then s.healthy_probes + 1 else s.healthy_probes;
    failed_probes = if is_failed (verdict_text n) then s.failed_probes + 1 else s.failed_probes;
  }

  unfoldable pub rack_step : Dict Text RackSummary → NodeView F64 → Dict Text RackSummary
  unfolding add_to_rack
  rack_step racks n = elim n.rack [
    | none ↦ racks
    | some r ↦ update_or no_nodes (add_to_rack n) r racks
  ]

  unfoldable pub verdict_step : Dict Text ℕ → NodeView F64 → Dict Text ℕ
  verdict_step counts n = elim (verdict_text n) [
    | none ↦ counts
    | some v ↦ update_or 0 (λ c. c + 1) v counts
  ]

  unfoldable pub vendor_step : Dict Text ℕ → NodeView F64 → Dict Text ℕ
  vendor_step totals n = foldl add_count totals n.vendor_counts

  -- The loop of `summarize`, which updates the three maps at each node.
  unfoldable pub summarize : List (NodeView F64) → ClusterSummary
  unfolding rack_step verdict_step vendor_step
  summarize nodes = record {
    nodes_total = length nodes;
    nodes_ready = count_if (λ n. n.ready) nodes;
    racks = foldl rack_step [] nodes;
    probe_verdicts = foldl verdict_step [] nodes;
    vendor_totals = foldl vendor_step [] nodes;
  }
