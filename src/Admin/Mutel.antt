-- ===== src/Admin/Mutel.antt =====
-- The requests of src/admin/mutel.rs to the metrics store: their parameters, and names in their paths, and the roll-up of a gauge by node.
pub mod Urls
use accelrd.Prelude.{
  foldl, map_option, and_then, unwrap_or, is_empty, text_ord, length, ℕ, ◌+◌, ◌/◌, ◌%◌, Bool, ltb,
  leb, ◌==◌, ◌&&◌, ◌||◌, List, [], ◌∷◌, ◌++◌, Option, none, some, Text, codes, if◌then◌else◌,
}
use accelrd.Prelude.Dict.{Dict, insert, update_or}
use accelrd.Prelude.Int.{ℤ, pos, negsuc}
use accelrd.Prelude.Decimal.{show_number}

-- The bytes that `urlencode` keeps: letters, digits, and `-`, `_`, `.` and `~`.
unfoldable pub is_plain : ℕ → Bool
is_plain b =
    (leb 65 b && leb b 90)
    || (leb 97 b && leb b 122)
    || (leb 48 b && leb b 57)
    || (b == 45)
    || (b == 95)
    || (b == 46)
    || (b == 126)

-- A digit of `{:X}`.
unfoldable pub upper_digit : ℕ → ℕ
upper_digit n = if ltb n 10 then n + 48 else n + 55

-- Over the bytes of the text; `%` is byte 37.
unfoldable pub urlencode : Text → Text
unfolding is_plain upper_digit
urlencode [] = []
urlencode (b ∷ s) =
    let rest = urlencode s in
    if is_plain b then b ∷ rest else 37 ∷ upper_digit (b / 16) ∷ upper_digit (b % 16) ∷ rest

pub record MetricQueryParams : Type 0 where
  pub filter : Option Text
  pub group_by : Option Text
  pub agg : Option Text
  pub start : Option ℤ
  pub end : Option ℤ
  pub max_points : Option ℕ

-- `to_string` of an i64.
unfoldable show_int : ℤ → Text
unfolding show_number
show_int (pos n) = show_number n
show_int (negsuc n) = codes "-" ++ show_number (n + 1)

-- A pair that is pushed where the parameter is there.
abbrev pair_of : Text → Option Text → List (Text × Text)
pair_of key none = []
pair_of key (some v) = (key, v) ∷ []

unfoldable pub to_pairs : MetricQueryParams → List (Text × Text)
unfolding show_int show_number
to_pairs p =
    pair_of (codes "filter") p.filter
    ++ (pair_of (codes "group_by") p.group_by
        ++ (pair_of (codes "agg") p.agg
            ++ (pair_of (codes "start") (map_option show_int p.start)
                ++ (pair_of (codes "end") (map_option show_int p.end)
                    ++ pair_of (codes "max_points") (map_option show_number p.max_points)))))

pub data NodeRollup : Type 0 where
  sum max avg : NodeRollup

-- What the roll-up calls of `serde_json::Value` and of floats.
pub record Values (J F64 : Type 0) : Type 0 where
  pub get : Text → J → Option J
  pub as_array : J → Option (List J)
  pub as_str : J → Option Text
  pub as_f64 : J → Option F64
  pub is_finite : F64 → Bool
  pub zero_f64 : F64
  pub neg_infinity : F64
  pub add : F64 → F64 → F64
  pub max_f64 : F64 → F64 → F64
  pub div_len : F64 → ℕ → F64

abbrev pub last_of : {A : Type 0} → List A → Option A
last_of [] = none
last_of (x ∷ []) = some x
last_of (x ∷ y ∷ l) = last_of (y ∷ l)

-- `get(1)`
abbrev pub second_of : {A : Type 0} → List A → Option A
second_of [] = none
second_of (x ∷ []) = none
second_of (x ∷ y ∷ l) = some y

module _ {J F64 : Type 0} (v : Values J F64) where
  unfoldable pub node_of : J → Text
  node_of g =
      unwrap_or
        (and_then (and_then (v.get (codes "labels_example") g) (v.get (codes "r:k8s.node.name")))
          v.as_str)
        []

  unfoldable pub value_of : J → Option F64
  value_of g = and_then (and_then (v.get (codes "points") g) v.as_array) λ points.
      and_then (and_then (last_of points) v.as_array) λ tuple. and_then (second_of tuple) v.as_f64

  unfoldable pub add_group : Dict Text (List F64) → J → Dict Text (List F64)
  unfolding node_of value_of update_or
  add_group per_node g =
      let node = node_of g in
      if is_empty node then per_node else elim (value_of g) [
        | none ↦ per_node
        | some x ↦ if v.is_finite x then update_or [] (λ l. l ++ x ∷ []) node per_node else per_node
      ]

  unfoldable pub rolled : NodeRollup → List F64 → Option F64
  rolled sum vals = some (foldl v.add v.zero_f64 vals)
  rolled max vals = some (foldl v.max_f64 v.neg_infinity vals)
  rolled avg [] = none
  rolled avg (x ∷ l) = some (v.div_len (foldl v.add v.zero_f64 (x ∷ l)) (length (x ∷ l)))

  unfoldable pub roll_node : NodeRollup → Dict Text F64 → Text × List F64 → Dict Text F64
  unfolding rolled insert
  roll_node op out (node, vals) = elim (rolled op vals) [
    | none ↦ out
    | some r ↦ if v.is_finite r then insert node r out else out
  ]

  -- `latest_by_node` from the answer of the store on.
  unfoldable pub latest_by_node : NodeRollup → J → Dict Text F64
  unfolding add_group roll_node
  latest_by_node op answer =
      let groups = unwrap_or (and_then (v.get (codes "groups") answer) v.as_array) [] in
      foldl (roll_node op) [] (foldl add_group [] groups)
