-- ===== src/Topology/Rdma.antt =====
-- `RdmaInventory::scan` of src/topology/rdma.rs.
use accelrd.Prelude.{
  ℕ, ◌^◌, not, List, [], ◌∷◌, Option, none, some, Text, codes, text_ord, compare, filter_map, map,
  and_then, map_option, keep_if, unwrap_or, is_empty,
}
use accelrd.Prelude.Sort.{sort_by}
use accelrd.Prelude.Strings.{trim, split_whitespace, parse_below}
use accelrd.Sensors.Common.{join_path}
use accelrd.Sensors.Sysfs.{Fs}
use accelrd.Topology.{RdmaPort, RdmaDevice}

-- `last()` and `next()`
abbrev last : List Text → Option Text
last [] = none
last (x ∷ []) = some x
last (_ ∷ y ∷ rest) = last (y ∷ rest)

abbrev first : List Text → Option Text
first [] = none
first (x ∷ _) = some x

unfoldable pub parse_enum : Option Text → Option Text
unfolding split_whitespace
parse_enum s = and_then s (λ v. last (split_whitespace v))

unfoldable pub parse_rate : Option Text → Option ℕ
unfolding split_whitespace parse_below
parse_rate s = and_then s (λ v. and_then (first (split_whitespace v)) (parse_below (2 ^ 32)))

module _ (fs : Fs) where
  unfoldable pub read_trim : Text → Option Text
  unfolding trim
  read_trim p = keep_if (λ s. not (is_empty s)) (map_option trim (fs.read p))

  unfoldable pub scan_port : (ports_dir name : Text) → Option RdmaPort
  unfolding parse_below parse_enum parse_rate read_trim join_path
  scan_port ports_dir name =
      map_option
        (λ idx.
          let p = join_path ports_dir name in
          record {
            index = idx;
            state = unwrap_or (parse_enum (read_trim (join_path p (codes "state")))) [];
            phys_state = unwrap_or (parse_enum (read_trim (join_path p (codes "phys_state")))) [];
            link_layer = unwrap_or (read_trim (join_path p (codes "link_layer"))) [];
            rate_gbps = parse_rate (read_trim (join_path p (codes "rate")));
          })
        (parse_below (2 ^ 32) name)

  unfoldable pub scan_ports : Text → List RdmaPort
  unfolding join_path scan_port sort_by
  scan_ports dev_dir =
      let ports_dir = join_path dev_dir (codes "ports") in
      elim (fs.read_dir ports_dir) [
        | none ↦ []
        | some entries ↦
            sort_by (λ (a : RdmaPort) b. compare a.index b.index)
              (filter_map (scan_port ports_dir) entries)
      ]

  unfoldable pub scan : List RdmaDevice
  unfolding scan_ports join_path sort_by
  scan = elim (fs.read_dir (codes "/sys/class/infiniband")) [
    | none ↦ []
    | some entries ↦
        sort_by (λ (a : RdmaDevice) b. text_ord.cmp a.name b.name)
          (map
            (λ name. record {
              name = name;
              ports = scan_ports (join_path (codes "/sys/class/infiniband") name);
            })
            entries)
  ]
