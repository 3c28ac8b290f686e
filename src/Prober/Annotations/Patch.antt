-- ===== src/Prober/Annotations/Patch.antt =====
-- What the patch of src/prober/annotations.rs says of each key.
use accelrd.Prelude.{
  ℕ, ◌≡◌, refl, Option, none, some, Text, codes, cmp_text, text_ord, map_option, arith,
}
use accelrd.Prelude.Dict.{get, insert}
use accelrd.Kube.{Value, null, string}
use accelrd.Prober.Annotations.{
  rack_keys, loopback_keys, Verdict, label, ok, fail, timeout, build_body,
}

-- The reason that a verdict leaves, and the bandwidth; `none` leaves what stood there.
abbrev pub reason_value : {F64 : Type 0} → Verdict F64 → Value
reason_value (ok rec) = null
reason_value (fail r) = string r
reason_value timeout = string (codes "probe pod did not terminate before timeout")

module _ {F64 : Type 0} (fixed : ℕ → F64 → Text) where
  abbrev pub bandwidth_value : Verdict F64 → Option Value
  bandwidth_value (ok rec) = map_option (λ x. string (fixed 2 x)) rec.bw_avg_gbps
  bandwidth_value (fail r) = some null
  bandwidth_value timeout = some null

  pub rack_body-at :
      (p now : Text) (v : Verdict F64)
      → get rack_keys.last_at (build_body fixed rack_keys (some p) now v) ≡ some (string now)
  unfolding build_body cmp_text get insert
  rack_body-at p now (ok rec) = ground arith
  rack_body-at p now (fail r) = refl
  rack_body-at p now timeout = refl

  pub rack_body-partner :
      (p now : Text) (v : Verdict F64)
      → get
          (codes "accel-test.lunnova.dev/last-rack-partner")
          (build_body fixed rack_keys (some p) now v)
        ≡ some (string p)
  unfolding build_body cmp_text get insert
  rack_body-partner p now (ok rec) = ground arith
  rack_body-partner p now (fail r) = refl
  rack_body-partner p now timeout = refl

  pub rack_body-verdict :
      (p now : Text) (v : Verdict F64)
      → get rack_keys.last_verdict (build_body fixed rack_keys (some p) now v)
        ≡ some (string (label v))
  unfolding build_body cmp_text get insert label
  rack_body-verdict p now (ok rec) = ground arith
  rack_body-verdict p now (fail r) = refl
  rack_body-verdict p now timeout = refl

  pub rack_body-reason :
      (p now : Text) (v : Verdict F64)
      → get rack_keys.last_reason (build_body fixed rack_keys (some p) now v)
        ≡ some (reason_value v)
  unfolding build_body cmp_text get insert
  rack_body-reason p now (ok rec) = ground arith
  rack_body-reason p now (fail r) = refl
  rack_body-reason p now timeout = refl

  pub rack_body-bandwidth :
      (p now : Text) (v : Verdict F64)
      → get rack_keys.last_bw_avg (build_body fixed rack_keys (some p) now v) ≡ bandwidth_value v
  unfolding build_body cmp_text get insert
  rack_body-bandwidth p now (ok rec) = ground arith
  rack_body-bandwidth p now (fail r) = refl
  rack_body-bandwidth p now timeout = refl

  pub loopback_body-at :
      (now : Text) (v : Verdict F64)
      → get loopback_keys.last_at (build_body fixed loopback_keys none now v) ≡ some (string now)
  unfolding build_body cmp_text get insert
  loopback_body-at now (ok rec) = ground arith
  loopback_body-at now (fail r) = refl
  loopback_body-at now timeout = refl

  pub loopback_body-verdict :
      (now : Text) (v : Verdict F64)
      → get loopback_keys.last_verdict (build_body fixed loopback_keys none now v)
        ≡ some (string (label v))
  unfolding build_body cmp_text get insert label
  loopback_body-verdict now (ok rec) = ground arith
  loopback_body-verdict now (fail r) = refl
  loopback_body-verdict now timeout = refl

  pub loopback_body-reason :
      (now : Text) (v : Verdict F64)
      → get loopback_keys.last_reason (build_body fixed loopback_keys none now v)
        ≡ some (reason_value v)
  unfolding build_body cmp_text get insert
  loopback_body-reason now (ok rec) = ground arith
  loopback_body-reason now (fail r) = refl
  loopback_body-reason now timeout = refl

  pub loopback_body-bandwidth :
      (now : Text) (v : Verdict F64)
      → get loopback_keys.last_bw_avg (build_body fixed loopback_keys none now v)
        ≡ bandwidth_value v
  unfolding build_body cmp_text get insert
  loopback_body-bandwidth now (ok rec) = ground arith
  loopback_body-bandwidth now (fail r) = refl
  loopback_body-bandwidth now timeout = refl

  -- a loopback body says nothing of the keys that the console reads of a pair probe
  pub loopback_body-other :
      (now : Text) (v : Verdict F64)
      → let body = build_body fixed loopback_keys none now v in
        (get rack_keys.last_at body ≡ none)
        × (get (codes "accel-test.lunnova.dev/last-rack-partner") body ≡ none)
        × (get rack_keys.last_verdict body ≡ none)
        × (get rack_keys.last_bw_avg body ≡ none)
  unfolding build_body cmp_text get insert
  loopback_body-other now (ok rec) = (ground arith, ground arith, ground arith, ground arith)
  loopback_body-other now (fail r) = (refl, refl, refl, refl)
  loopback_body-other now timeout = (refl, refl, refl, refl)
