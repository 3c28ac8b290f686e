-- ===== src/Probe/Session.antt =====
-- src/probe/device.rs, and `run` and `emit_metric` of src/probe/mod.rs: a probe from its settings to the
-- line that it prints. Log lines are not modelled.
use accelrd.Prelude.{
  ℕ, ◌-◌, Bool, List, [], ◌∷◌, ◌++◌, Option, none, some, Text, codes, text_ord, Result, ok, err,
  context, context_option, filter_map, if◌then◌else◌, unwrap_or, map_option,
}
use accelrd.Prelude.Sort.{sort_by}
use accelrd.Probe.{ProbeMode, Resolved, Outcome, Record, build_record}
use accelrd.Probe.Run.{Runtime, run_server, run_client}

-- `into_iter().next()`
abbrev pub first : List Text → Option Text
first [] = none
first (x ∷ _) = some x

-- `read_dir` of the directory of the devices: an entry is none where it fails or is not Unicode.
unfoldable pub select : (read_dir : Option (List (Option Text))) → Option Text → Result Text
unfolding sort_by
select read_dir (some d) = ok d
select none none = err (codes "read /sys/class/infiniband")
select (some entries) none =
    context_option (codes "no RDMA devices in /sys/class/infiniband (kernel ib drivers loaded?)")
      (first (sort_by text_ord.cmp (filter_map (λ e. e) entries)))

pub data Value : Type 0 where
  text : Text → Value
  bool : Bool → Value

-- A gauge with the attributes under which its value is recorded.
pub record Gauge (F64 : Type 0) : Type 0 where
  pub name : Text
  pub value : F64
  pub attrs : List (Text × Value)

-- `if let Some(s) = .. { attrs.push(..) }`
abbrev push_some : Text → Option Text → List (Text × Value) → List (Text × Value)
push_some key none attrs = attrs
push_some key (some s) attrs = attrs ++ (key, Value.text s) ∷ []

module _ {F64 : Type 0} where
  unfoldable pub attributes : Record F64 → List (Text × Value)
  attributes r = push_some (codes "partner_node") r.partner_node (
      push_some (codes "src_rack") r.src_rack (
        push_some (codes "server") r.server (
          (codes "side", Value.text r.side)
          ∷ (codes "device", Value.text r.device)
          ∷ (codes "ok", Value.bool r.ok)
          ∷ [])))

  unfoldable pub emit_metric : (zero : F64) → Record F64 → List (Gauge F64)
  unfolding attributes
  emit_metric zero r =
      record {
        name = codes "roce.probe.bandwidth.avg.gbps";
        value = unwrap_or r.bw_avg_gbps zero;
        attrs = attributes r;
      }
      ∷ record {
        name = codes "roce.probe.bandwidth.peak.gbps";
        value = unwrap_or r.bw_peak_gbps zero;
        attrs = attributes r;
      }
      ∷ record {
        name = codes "roce.probe.message_rate.mpps";
        value = unwrap_or r.msg_rate_mpps zero;
        attrs = attributes r;
      }
      ∷ []

-- What a probe leaves: the text that it prints, the values of its gauges, and how it exits.
pub record Exit (F64 : Type 0) : Type 0 where
  pub printed : Text
  pub gauges : List (Gauge F64)
  pub result : Result (Unit {0})

abbrev pub println : Text → Text
println s = s ++ codes "\n"

-- An exit before anything is printed.
abbrev pub stopped : {F64 : Type 0} → Text → Exit F64
stopped e = record { printed = []; gauges = []; result = err e }

-- `to_string` is `serde_json::to_string`, and `zero` is `0.0`.
module _ {F64 : Type 0} (zero : F64) (to_string : Record F64 → Option Text) where
  unfoldable pub exit_of : Record F64 → Exit F64
  unfolding emit_metric
  exit_of r = elim (to_string r) [
    | none ↦ stopped (codes "serialize probe record")
    | some line ↦ record {
      printed = println line;
      gauges = emit_metric zero r;
      result =
          if r.ok
          then ok tt
          else err (codes "probe failed: " ++ unwrap_or r.message (codes "unknown"));
    }
  ]

-- `as_secs_f64` reads milliseconds.
module _ {F64 S : Type 0} (parse_f64 : Text → Option F64) (zero : F64) (as_secs_f64 : ℕ → F64)
    (to_string : Record F64 → Option Text) (rt : Runtime S) where
  unfoldable pub report : Resolved → Text → (started : ℕ) → Outcome F64 × S → Exit F64 × S
  unfolding build_record exit_of
  report args device started (outcome, s) = (
    exit_of zero to_string (build_record args device (as_secs_f64 (rt.now s - started)) outcome),
    s,
  )

  -- `none` means that the fuel of the client ran out.
  unfoldable pub run_side : Resolved → Text → S → Option (Exit F64 × S)
  unfolding run_server run_client report
  run_side args device s = elim args.mode [
    | ProbeMode.server ↦
        some (report args device (rt.now s) (run_server parse_f64 rt device args.duration_secs s))
    | ProbeMode.client ↦ elim args.server [
      | none ↦
          some (stopped (codes "--server (or ACCELRD_PROBE_SERVER) required in client mode"), s)
      | some server ↦
          map_option (report args device (rt.now s))
            (run_client parse_f64 rt server device args.duration_secs args.connect_timeout_secs s)
    ]
  ]

  -- `init` is the outcome of `exporter::init`.
  unfoldable pub run :
      (init : Result (Unit {0})) (read_dir : Option (List (Option Text)))
      → Resolved
      → S
      → Option (Exit F64 × S)
  unfolding select run_side
  run (err e) read_dir args s = some (stopped e, s)
  run (ok _) read_dir args s =
      elim (context (codes "rdma device selection") (select read_dir args.device)) [
        | err e ↦ some (stopped e, s)
        | ok device ↦ run_side args device s
      ]
