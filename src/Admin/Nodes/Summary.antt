-- ===== src/Admin/Nodes/Summary.antt =====
-- The console's summary counts what the nodes say.
use accelrd.Prelude.{
  ℕ, ◌+◌, ◌≤◌, ◌≡◌, refl, ◌∙◌, sym, Bool, true, false, List, [], ◌∷◌, ◌++◌, Option, none, some,
  Text, arith, inl, inr, Bool-cases, text_ord, is_eq, cmp_text, eq_of_cmp_text, ◌&&◌, map, foldl,
  keep, count_if, count_if-le-length, unwrap_or,
}
use mathlib.Core.List.{append_assoc, append-nil}
use accelrd.Prelude.Dict.{Dict, get, get-update_or}
use accelrd.Admin.Nodes.{
  NodeView, RackSummary, verdict_text, is_healthy, is_failed, add_to_rack, no_nodes, rack_step,
  verdict_step, summarize,
}

rack_path :
    {s t : RackSummary}
    → s.nodes ≡ t.nodes
    → s.healthy_probes ≡ t.healthy_probes
    → s.failed_probes ≡ t.failed_probes
    → s ≡ t
rack_path p q r = λ i. record { nodes = p i; healthy_probes = q i; failed_probes = r i }

abbrev pub entry : Text → Dict Text RackSummary → RackSummary
entry r racks = unwrap_or (get r racks) no_nodes

module _ {F64 : Type 0} where
  abbrev pub with_verdict : Text → NodeView F64 → Bool
  with_verdict v n = elim (verdict_text n) [ none ↦ false | some u ↦ is_eq (cmp_text v u) ]

  abbrev pub in_rack : Text → NodeView F64 → Bool
  in_rack r n = elim n.rack [ none ↦ false | some s ↦ is_eq (cmp_text r s) ]

  get-verdicts :
      (v : Text) (out : Dict Text ℕ) (nodes : List (NodeView F64))
      → unwrap_or (get v (foldl verdict_step out nodes)) 0
        ≡ unwrap_or (get v out) 0 + count_if (with_verdict v) nodes
  get-verdicts v out [] = omega arith
  get-verdicts v out (n ∷ ns) = get-verdicts v (verdict_step out n) ns ∙ step (verdict_text n) refl
    where
      step :
          (o : Option Text)
          → verdict_text n ≡ o
          → unwrap_or (get v (verdict_step out n)) 0 + count_if (with_verdict v) ns
            ≡ unwrap_or (get v out) 0 + count_if (with_verdict v) (n ∷ ns)
      step none e = unfold verdict_step in ground arith
      step (some u) e =
          unfold verdict_step in
          ground (arith, get-update_or v 0 (λ c. c + 1) u out, eq_of_cmp_text v u)

  -- What a rack's entry becomes when these nodes are added to it.
  abbrev grown : Text → RackSummary → List (NodeView F64) → RackSummary
  grown r s nodes = record {
    nodes = s.nodes ++ map (λ n. n.name) (keep (in_rack r) nodes);
    healthy_probes =
        s.healthy_probes + count_if (λ n. in_rack r n && is_healthy (verdict_text n)) nodes;
    failed_probes =
        s.failed_probes + count_if (λ n. in_rack r n && is_failed (verdict_text n)) nodes;
  }

  grown_in :
      (r : Text) (n : NodeView F64) (s : RackSummary) (ns : List (NodeView F64))
      → in_rack r n ≡ true
      → grown r (add_to_rack n s) ns ≡ grown r s (n ∷ ns)
  unfolding add_to_rack
  grown_in r n s ns h =
      rack_path
        (rw h (append_assoc s.nodes (n.name ∷ []) (map (λ k. k.name) (keep (in_rack r) ns))))
        (ground arith) (ground arith)

  grown_out :
      (r : Text) (n : NodeView F64) (s : RackSummary) (ns : List (NodeView F64))
      → in_rack r n ≡ false
      → grown r s ns ≡ grown r s (n ∷ ns)
  grown_out r n s ns h = rack_path (rw h) (ground arith) (ground arith)

  get-racks :
      (r : Text) (racks : Dict Text RackSummary) (nodes : List (NodeView F64))
      → entry r (foldl rack_step racks nodes) ≡ grown r (entry r racks) nodes
  get-racks r racks [] =
      rack_path (sym (append-nil (entry r racks).nodes)) (omega arith) (omega arith)
  get-racks r racks (n ∷ ns) = get-racks r (rack_step racks n) ns ∙ step n.rack refl
    where
      step :
          (o : Option Text)
          → n.rack ≡ o
          → grown r (entry r (rack_step racks n)) ns ≡ grown r (entry r racks) (n ∷ ns)
      step none e =
          let same : entry r (rack_step racks n) ≡ entry r racks =
            unfold rack_step in ground arith in
          rw same (grown_out r n (entry r racks) ns (ground arith))
      step (some s) e =
          let at = get-update_or r no_nodes (add_to_rack n) s racks in
          elim (Bool-cases (is_eq (cmp_text r s))) [
            | inl same ↦
                let added : entry r (rack_step racks n) ≡ add_to_rack n (entry r racks) =
                  unfold rack_step in ground (arith, at, eq_of_cmp_text r s) in
                rw added (grown_in r n (entry r racks) ns (ground arith))
            | inr other ↦
                let kept : entry r (rack_step racks n) ≡ entry r racks =
                  unfold rack_step in ground (arith, at) in
                rw kept (grown_out r n (entry r racks) ns (ground arith))
          ]

  abbrev pub expected : Text → List (NodeView F64) → RackSummary
  expected r nodes = record {
    nodes = map (λ n. n.name) (keep (in_rack r) nodes);
    healthy_probes = count_if (λ n. in_rack r n && is_healthy (verdict_text n)) nodes;
    failed_probes = count_if (λ n. in_rack r n && is_failed (verdict_text n)) nodes;
  }

  -- The summary of a rack names its nodes in order, and counts those whose last verdict is `pass` or
  -- `ok` and those with another verdict; a verdict's total is the number of nodes with it; and no
  -- more nodes are ready than there are.
  pub summarize-counts :
      (r v : Text) (nodes : List (NodeView F64))
      → (entry r (summarize nodes).racks ≡ expected r nodes)
        × (unwrap_or (get v (summarize nodes).probe_verdicts) 0 ≡ count_if (with_verdict v) nodes)
        × ((summarize nodes).nodes_ready ≤ (summarize nodes).nodes_total)
  unfolding summarize get
  summarize-counts r v nodes = (
    get-racks r [] nodes ∙ rack_path {t = expected r nodes} refl (omega arith) (omega arith),
    omega (arith, get-verdicts v [] nodes),
    count_if-le-length (λ (n : NodeView F64). n.ready) nodes,
  )
