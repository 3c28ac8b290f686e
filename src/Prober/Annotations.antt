-- ===== src/Prober/Annotations.antt =====
-- src/prober/annotations.rs: the annotations that a verdict writes on a node.
pub mod Patch
use accelrd.Prelude.{List, [], ◌∷◌, Option, none, some, ℕ, Text, codes, text_ord}
use accelrd.Prelude.Dict.{Dict, insert}
use accelrd.Kube.{Value, null, string}
use accelrd.Prober.Keys.{ann_last_at, ann_lb_last_at}
use accelrd.Prober.Results.{ProbeRecord}

pub record Keys : Type 0 where
  pub last_at : Text
  pub last_partner : Option Text
  pub last_bw_avg : Text
  pub last_bw_peak : Text
  pub last_msg_rate : Text
  pub last_device : Text
  pub last_verdict : Text
  pub last_reason : Text

abbrev pub rack_keys : Keys
rack_keys = record {
  last_at = ann_last_at;
  last_partner = some (codes "accel-test.lunnova.dev/last-rack-partner");
  last_bw_avg = codes "accel-test.lunnova.dev/last-rack-bw-gbps";
  last_bw_peak = codes "accel-test.lunnova.dev/last-rack-bw-peak-gbps";
  last_msg_rate = codes "accel-test.lunnova.dev/last-rack-msg-rate-mpps";
  last_device = codes "accel-test.lunnova.dev/last-rack-device";
  last_verdict = codes "accel-test.lunnova.dev/last-rack-verdict";
  last_reason = codes "accel-test.lunnova.dev/last-rack-reason";
}

abbrev pub loopback_keys : Keys
loopback_keys = record {
  last_at = ann_lb_last_at;
  last_partner = none;
  last_bw_avg = codes "accel-test.lunnova.dev/last-loopback-bw-gbps";
  last_bw_peak = codes "accel-test.lunnova.dev/last-loopback-bw-peak-gbps";
  last_msg_rate = codes "accel-test.lunnova.dev/last-loopback-msg-rate-mpps";
  last_device = codes "accel-test.lunnova.dev/last-loopback-device";
  last_verdict = codes "accel-test.lunnova.dev/last-loopback-verdict";
  last_reason = codes "accel-test.lunnova.dev/last-loopback-reason";
}

pub data Verdict (F64 : Type 0) : Type 0 where
  ok : ProbeRecord F64 → Verdict F64
  fail : Text → Verdict F64
  timeout : Verdict F64

-- `OwnedVerdict::label` of src/prober/reconcile.rs, and the label of an `ok` attempt.
unfoldable pub label : {F64 : Type 0} → Verdict F64 → Text
label (ok _) = codes "ok"
label (fail _) = codes "fail"
label timeout = codes "timeout"

abbrev pub Body : Type 0
Body = Dict Text Value

-- `if let Some(..) = .. { anns.insert(..) }`
abbrev insert_some {ℓ} : {A : Type ℓ} → Text → (A → Text) → Option A → Body → Body
insert_some key show none anns = anns
insert_some key show (some a) anns = insert key (string (show a)) anns

abbrev insert_partner : Option Text → Option Text → Body → Body
insert_partner (some key) (some p) anns = insert key (string p) anns
insert_partner _ _ anns = anns

abbrev clear_measurements : Keys → Body → Body
clear_measurements keys anns =
    insert keys.last_msg_rate null
      (insert keys.last_bw_peak null (insert keys.last_bw_avg null anns))

-- `fixed n v` is `format!("{v:.n}")`.
module _ {F64 : Type 0} (fixed : ℕ → F64 → Text) where
  -- The part of `build_body` that depends on the verdict.
  unfoldable pub insert_verdict : Keys → Verdict F64 → Body → Body
  insert_verdict keys (ok rec) anns = insert_some keys.last_msg_rate (fixed 6) rec.msg_rate_mpps (
      insert_some keys.last_bw_peak (fixed 2) rec.bw_peak_gbps (
        insert_some keys.last_bw_avg (fixed 2) rec.bw_avg_gbps (
          insert keys.last_device (string rec.device)
            (insert keys.last_reason null (insert keys.last_verdict (string (codes "ok")) anns)))))
  insert_verdict keys (fail reason) anns = clear_measurements keys (
      insert keys.last_reason (string reason)
        (insert keys.last_verdict (string (codes "fail")) anns))
  insert_verdict keys timeout anns = clear_measurements keys (
      insert keys.last_reason (string (codes "probe pod did not terminate before timeout"))
        (insert keys.last_verdict (string (codes "timeout")) anns))

  -- The value under `metadata.annotations` of the patch.
  unfoldable pub build_body : Keys → Option Text → Text → Verdict F64 → Body
  unfolding insert_verdict
  build_body keys partner now verdict =
      insert_verdict keys verdict
        (insert_partner keys.last_partner partner (insert keys.last_at (string now) []))
