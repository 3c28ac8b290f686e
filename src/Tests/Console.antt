-- ===== src/Tests/Console.antt =====
-- The console's view of a node that the prober has annotated.
use accelrd.Admin.Mutel.{urlencode}
use accelrd.Admin.Mutel.Urls.{percent_decode, IsPathByte, percent_decode-urlencode}
use accelrd.Prelude.{
  ℕ, ◌≤◌, ◌≡◌, refl, true, List, [], ◌∷◌, Option, none, some, Text, codes, text_ord, unwrap_or,
  count_if, All, arith,
}
use accelrd.Prelude.Dict.{Dict, get}
use accelrd.Kube.Merge.{merge_entries, merge_entries-IsMerge}
use accelrd.Prober.Annotations.{rack_keys, loopback_keys, fail, timeout, label, build_body}
use accelrd.Admin.Nodes.{pair, loopback, NodeView, read_pair, resolve_verdict, summarize}
use accelrd.Admin.Nodes.Verdicts.{resolve_verdict-pair, resolve_verdict-loopback}
use accelrd.Admin.Nodes.Summary.{entry, expected, with_verdict, summarize-counts}

abbrev fixed : ℕ → ℕ → Text
fixed digits v = v ∷ []

abbrev parse_f64 : Text → Option ℕ
parse_f64 [] = none
parse_f64 (b ∷ _) = some b

abbrev now : Text
now = codes "2026-05-07T00:00:00Z"

-- An earlier probe measured 90 gigabits.
abbrev earlier : Dict Text Text
earlier =
    (codes "accel-test.lunnova.dev/last-rack-bw-gbps", 90 ∷ [])
    ∷ (codes "accel-test.lunnova.dev/last-rack-verdict", codes "ok")
    ∷ []

resolve_verdict-pair_example :
    resolve_verdict parse_f64
      (merge_entries earlier
        (build_body fixed rack_keys (some (codes "b")) now (fail (codes "no route"))))
      []
    ≡ some (record {
      at = some now;
      bandwidth_gbps = none;
      partner = some (codes "b");
      verdict = some (codes "fail");
      source = pair;
      reason = some (codes "no route");
    })
unfolding label
resolve_verdict-pair_example =
    resolve_verdict-pair fixed parse_f64 merge_entries merge_entries-IsMerge earlier [] now
      (fail (codes "no route")) refl (codes "b") refl

resolve_verdict-loopback_example :
    resolve_verdict parse_f64
      (merge_entries [] (build_body fixed loopback_keys none now timeout))
      []
    ≡ some (record {
      at = some now;
      bandwidth_gbps = none;
      partner = none;
      verdict = some (codes "timeout");
      source = loopback;
      reason = some (codes "probe pod did not terminate before timeout");
    })
unfolding label read_pair get
resolve_verdict-loopback_example =
    resolve_verdict-loopback fixed parse_f64 merge_entries merge_entries-IsMerge [] [] now timeout
      refl refl

abbrev in_r1 : Text → Text → NodeView ℕ
in_r1 name verdict = record {
  name = name;
  rack = some (codes "r1");
  block = none;
  vendor_counts = (codes "amd", 4) ∷ [];
  model_counts = [];
  total_accelerators = some 4;
  fabric_domains = 1;
  rdma_capable = true;
  last_probe = some (record {
    at = some now;
    bandwidth_gbps = none;
    partner = none;
    verdict = some verdict;
    source = pair;
    reason = none;
  });
  conditions = [];
  ready = true;
  schedulable = true;
  kubelet_version = none;
  topo_labels = [];
}

abbrev views : List (NodeView ℕ)
views = in_r1 (codes "a") (codes "ok") ∷ in_r1 (codes "b") (codes "timeout") ∷ []

summarize-counts_example :
    (entry (codes "r1") (summarize views).racks ≡ expected (codes "r1") views)
    × (unwrap_or (get (codes "timeout") (summarize views).probe_verdicts) 0
        ≡ count_if (with_verdict (codes "timeout")) views)
    × ((summarize views).nodes_ready ≤ (summarize views).nodes_total)
summarize-counts_example = summarize-counts (codes "r1") (codes "timeout") views

percent_decode-urlencode_example :
    (percent_decode (urlencode (codes "a/b c")) ≡ codes "a/b c")
    × All IsPathByte (urlencode (codes "a/b c"))
percent_decode-urlencode_example =
    percent_decode-urlencode (codes "a/b c")
      (omega arith, (omega arith, (omega arith, (omega arith, (omega arith, tt)))))

slash : urlencode (codes "a/b") ≡ codes "a%2Fb"
unfolding urlencode
slash = refl
