-- ===== src/Admin/Nodes/Verdicts.antt =====
-- What the console reads back of the verdicts that the prober wrote.
use accelrd.Prelude.{
  ℕ, ◌≡◌, refl, ◌∙◌, ap, false, not, Option, none, some, Text, codes, text_ord, arith,
  if◌then◌else◌, is_empty, keep_if, and_then,
}
use mathlib.Core.Path.{ap₂}
use accelrd.Prelude.Dict.{Dict, get}
use accelrd.Kube.{Value}
use accelrd.Kube.Merge.{IsMerge, overlay}
use accelrd.Prober.Annotations.{
  rack_keys, loopback_keys, Verdict, ok, fail, timeout, label, build_body,
}
use accelrd.Prober.Annotations.Patch
use accelrd.Admin.Nodes.{pair, loopback, read_pair, resolve_verdict}

abbrev pub rack_partner_key : Text
rack_partner_key = codes "accel-test.lunnova.dev/last-rack-partner"

label_full : {F64 : Type 0} (v : Verdict F64) → is_empty (label v) ≡ false
unfolding label
label_full (ok rec) = refl
label_full (fail r) = refl
label_full timeout = refl

-- The text under a key after a merge whose patch is known at the key.
get-merged :
    {merge : Dict Text Text → Dict Text Value → Dict Text Text}
    → IsMerge merge
    → (d : Dict Text Text) (p : Dict Text Value) (key : Text) (change : Option Value)
    → get key p ≡ change
    → get key (merge d p) ≡ overlay change (get key d)
get-merged m d p key change e =
    m.get-merge key d p ∙ ap (λ (c : Option Value). overlay c (get key d)) e

module _ {F64 : Type 0} (parse_f64 : Text → Option F64) where
  resolve_pair_of :
      (d labels : Dict Text Text) (now with said : Text) (why speed : Option Text)
      → is_empty now ≡ false
      → is_empty with ≡ false
      → is_empty said ≡ false
      → get rack_keys.last_at d ≡ some now
      → get rack_partner_key d ≡ some with
      → get rack_keys.last_verdict d ≡ some said
      → get rack_keys.last_reason d ≡ why
      → get rack_keys.last_bw_avg d ≡ speed
      → resolve_verdict parse_f64 d labels
        ≡ some (record {
          at = some now;
          bandwidth_gbps = and_then speed parse_f64;
          partner = some with;
          verdict = some said;
          source = pair;
          reason = keep_if (λ t. not (is_empty t)) why;
        })
  unfolding resolve_verdict
  resolve_pair_of d labels now with said why speed f g h a b c e k = ground arith

  resolve_loopback_of :
      (d labels : Dict Text Text) (now said : Text) (why speed : Option Text)
      → read_pair parse_f64 d ≡ none
      → is_empty now ≡ false
      → is_empty said ≡ false
      → get loopback_keys.last_at d ≡ some now
      → get loopback_keys.last_verdict d ≡ some said
      → get loopback_keys.last_reason d ≡ why
      → get loopback_keys.last_bw_avg d ≡ speed
      → resolve_verdict parse_f64 d labels
        ≡ some (record {
          at = some now;
          bandwidth_gbps = and_then speed parse_f64;
          partner = none;
          verdict = some said;
          source = loopback;
          reason = keep_if (λ t. not (is_empty t)) why;
        })
  unfolding resolve_verdict
  resolve_loopback_of d labels now said why speed p f h a c e k = ground arith

  -- `read_pair` finds nothing in a map that reads like one where it finds nothing.
  read_pair-none :
      (d d' : Dict Text Text)
      → get rack_keys.last_at d' ≡ get rack_keys.last_at d
      → get rack_partner_key d' ≡ get rack_partner_key d
      → get rack_keys.last_verdict d' ≡ get rack_keys.last_verdict d
      → get rack_keys.last_bw_avg d' ≡ get rack_keys.last_bw_avg d
      → read_pair parse_f64 d ≡ none
      → read_pair parse_f64 d' ≡ none
  unfolding read_pair
  read_pair-none d d' a b c e h = ground arith

module _ {F64 : Type 0} (fixed : ℕ → F64 → Text) (parse_f64 : Text → Option F64) where
  -- The bandwidth shown after a verdict: a measured one as printed and read again, the earlier one
  -- after an `ok` record without an average, and none after a failure.
  abbrev pub shown_bandwidth : Verdict F64 → Option Text → Option F64
  shown_bandwidth (ok rec) old = elim rec.bw_avg_gbps [
    | none ↦ and_then old parse_f64
    | some x ↦ parse_f64 (fixed 2 x)
  ]
  shown_bandwidth (fail r) old = none
  shown_bandwidth timeout old = none

  abbrev pub shown_reason : Verdict F64 → Option Text
  shown_reason (ok rec) = none
  shown_reason (fail r) = if is_empty r then none else some r
  shown_reason timeout = some (codes "probe pod did not terminate before timeout")

  shown_bandwidth_lem :
      (v : Verdict F64) (old : Option Text)
      → and_then (overlay (Patch.bandwidth_value fixed v) old) parse_f64 ≡ shown_bandwidth v old
  shown_bandwidth_lem (ok rec) old = ground arith
  shown_bandwidth_lem (fail r) old = refl
  shown_bandwidth_lem timeout old = refl

  shown_reason_lem :
      (v : Verdict F64) (old : Option Text)
      → keep_if (λ t. not (is_empty t)) (overlay (some (Patch.reason_value v)) old) ≡ shown_reason v
  shown_reason_lem (ok rec) old = refl
  shown_reason_lem (fail r) old = ground arith
  shown_reason_lem timeout old = refl

  module _ (merge : Dict Text Text → Dict Text Value → Dict Text Text) (m : IsMerge merge)
      (annotations labels : Dict Text Text) (now : Text) (v : Verdict F64)
      (stamped : is_empty now ≡ false) where
    -- After the patch of a pair probe, with a time and a partner that are not empty, the console shows
    -- that probe, with the source `pair`, whatever stood in the annotations and labels: its time,
    -- partner, verdict and reason, and the bandwidth as printed and read again (the earlier one after
    -- an `ok` record without an average, none after a failure).
    pub resolve_verdict-pair :
        (partner : Text)
        → is_empty partner ≡ false
        → resolve_verdict parse_f64
            (merge annotations (build_body fixed rack_keys (some partner) now v))
            labels
          ≡ some (record {
            at = some now;
            bandwidth_gbps = shown_bandwidth v (get rack_keys.last_bw_avg annotations);
            partner = some partner;
            verdict = some (label v);
            source = pair;
            reason = shown_reason v;
          })
    resolve_verdict-pair partner named =
        let body = build_body fixed rack_keys (some partner) now v in
        let d = merge annotations body in
        let at = get-merged m annotations body _ _ (Patch.rack_body-at fixed partner now v) in
        let with =
          get-merged m annotations body _ _ (Patch.rack_body-partner fixed partner now v) in
        let said =
          get-merged m annotations body _ _ (Patch.rack_body-verdict fixed partner now v) in
        let why = get-merged m annotations body _ _ (Patch.rack_body-reason fixed partner now v) in
        let speed =
          get-merged m annotations body _ _ (Patch.rack_body-bandwidth fixed partner now v) in
        resolve_pair_of parse_f64 d labels now partner (label v) _ _ stamped named (label_full v) at
          with said why speed
        ∙ ap₂
            (λ (r : Option Text) (b : Option F64). some (record {
              at = some now;
              bandwidth_gbps = b;
              partner = some partner;
              verdict = some (label v);
              source = pair;
              reason = r;
            }))
            (shown_reason_lem v (get rack_keys.last_reason annotations))
            (shown_bandwidth_lem v (get rack_keys.last_bw_avg annotations))

    -- After the patch of a loopback probe, with a time that is not empty, the console shows that probe,
    -- with the source `loopback` and no partner, on a node whose annotations say nothing of a pair
    -- probe.
    pub resolve_verdict-loopback :
        read_pair parse_f64 annotations ≡ none
        → resolve_verdict parse_f64
            (merge annotations (build_body fixed loopback_keys none now v))
            labels
          ≡ some (record {
            at = some now;
            bandwidth_gbps = shown_bandwidth v (get loopback_keys.last_bw_avg annotations);
            partner = none;
            verdict = some (label v);
            source = loopback;
            reason = shown_reason v;
          })
    resolve_verdict-loopback no_pair =
        let body = build_body fixed loopback_keys none now v in
        let d = merge annotations body in
        let at = get-merged m annotations body _ _ (Patch.loopback_body-at fixed now v) in
        let said = get-merged m annotations body _ _ (Patch.loopback_body-verdict fixed now v) in
        let why = get-merged m annotations body _ _ (Patch.loopback_body-reason fixed now v) in
        let speed = get-merged m annotations body _ _ (Patch.loopback_body-bandwidth fixed now v) in
        let other = Patch.loopback_body-other fixed now v in
        resolve_loopback_of parse_f64 d labels now (label v) _ _
          (read_pair-none parse_f64 annotations d (get-merged m annotations body _ none other.0)
            (get-merged m annotations body _ none other.1)
            (get-merged m annotations body _ none other.2)
            (get-merged m annotations body _ none other.3) no_pair)
          stamped (label_full v) at said why speed
        ∙ ap₂
            (λ (r : Option Text) (b : Option F64). some (record {
              at = some now;
              bandwidth_gbps = b;
              partner = none;
              verdict = some (label v);
              source = loopback;
              reason = r;
            }))
            (shown_reason_lem v (get loopback_keys.last_reason annotations))
            (shown_bandwidth_lem v (get loopback_keys.last_bw_avg annotations))
