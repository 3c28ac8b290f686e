-- ===== src/Prober/Pair/Grouping.antt =====
-- `group_by_rack` is the partition of the nodes by rack, each rack in the order of the names.
use accelrd.Prelude.{
  ◌≡◌, refl, Bool, List, [], ◌∷◌, ◌++◌, Option, none, some, Text, arith, ◌∙◌, sym, Bool-cases, inl,
  inr, keep, foldl, map_option, is_eq, cmp_text, text_ord, eq_of_cmp_text, ap, unwrap_or,
}
use accelrd.Prelude.Dict.{Dict, get, get-update_or, get-map_values}
use accelrd.Prelude.Sort.{sort_by}
use mathlib.Core.List.{append-nil, append_assoc}
use accelrd.Prober.Pair.{NodeView, by_name, push_by_rack, group_by_rack}

abbrev pub in_rack : Text → NodeView → Bool
in_rack r n = is_eq (cmp_text r n.rack)

-- An entry of the map with more nodes pushed to it, which exists once there is a node.
abbrev grown : Option (List NodeView) → List NodeView → Option (List NodeView)
grown none [] = none
grown none (n ∷ ns) = some (n ∷ ns)
grown (some v) ns = some (v ++ ns)

grown_push :
    (o : Option (List NodeView)) (n : NodeView) (ns : List NodeView)
    → grown (some (unwrap_or o [] ++ n ∷ [])) ns ≡ grown o (n ∷ ns)
grown_push none n ns = refl
grown_push (some v) n ns = ap some (append_assoc v (n ∷ []) ns)

grown_nothing : (o : Option (List NodeView)) → grown o [] ≡ o
grown_nothing none = refl
grown_nothing (some v) = ap some (append-nil v)

get-push_all :
    (r : Text) (out : Dict Text (List NodeView)) (nodes : List NodeView)
    → get r (foldl push_by_rack out nodes) ≡ grown (get r out) (keep (in_rack r) nodes)
unfolding push_by_rack
get-push_all r out [] = sym (grown_nothing (get r out))
get-push_all r out (n ∷ ns) =
    let step = get-push_all r (push_by_rack out n) ns in
    let here = get-update_or r [] (λ (v : List NodeView). v ++ n ∷ []) n.rack out in
    elim (Bool-cases (in_rack r n)) [
      | inl e ↦ rw e (
          step
          ∙ ap (λ (o : Option (List NodeView)). grown o (keep (in_rack r) ns)) (rw e at here)
          ∙ ap
              (λ (k : Text).
                grown (some (unwrap_or (get k out) [] ++ n ∷ [])) (keep (in_rack r) ns))
              (sym (eq_of_cmp_text r n.rack (ground arith)))
          ∙ grown_push (get r out) n (keep (in_rack r) ns))
      | inr e ↦
          rw e (
            step
            ∙ ap (λ (o : Option (List NodeView)). grown o (keep (in_rack r) ns)) (rw e at here))
    ]

abbrev pub rack_entry : List NodeView → Option (List NodeView)
rack_entry [] = none
rack_entry (n ∷ ns) = some (sort_by by_name (n ∷ ns))

-- Under each rack stand exactly the nodes with that rack label, sorted by name (stably), and a
-- rack that no node names has no entry.
pub get-group_by_rack :
    (r : Text) (nodes : List NodeView)
    → get r (group_by_rack nodes) ≡ rack_entry (keep (in_rack r) nodes)
unfolding group_by_rack get
get-group_by_rack r nodes =
    get-map_values r (sort_by by_name) (foldl push_by_rack [] nodes)
    ∙ ap (map_option (sort_by by_name)) (get-push_all r [] nodes)
    ∙ entry (keep (in_rack r) nodes)
  where
    entry : (l : List NodeView) → map_option (sort_by by_name) (grown none l) ≡ rack_entry l
    entry [] = refl
    entry (n ∷ ns) = refl
