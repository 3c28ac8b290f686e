-- ===== src/Prober/Apply.antt =====
-- src/prober/annotations.rs: the patches of a verdict, as requests to the API server.
use accelrd.Prelude.{ℕ, none, some, Text}
use accelrd.Prober.Annotations.{rack_keys, loopback_keys, Verdict, Body, build_body}
use accelrd.Prober.Cluster.{Api, Event, M, ◌>>=◌, ◌>>◌, ask, note, read}

-- `fixed n v` is `format!("{v:.n}")`.
module _ {S Pod F64 : Type 0} (api : Api S Pod) (fixed : ℕ → F64 → Text) where
  -- `apply`: a patch that the API server refuses is logged and otherwise ignored.
  unfoldable pub apply : Text → Body → M S (Unit {0})
  apply node body = do ask (api.patch_node node body); note (Event.patched node body)

  unfoldable pub patch_pair : (a b : Text) → Verdict F64 → M S (Unit {0})
  unfolding apply
  patch_pair a b verdict = do
    now ← read api.now_rfc3339
    apply a (build_body fixed rack_keys (some b) now verdict)
    apply b (build_body fixed rack_keys (some a) now verdict)

  unfoldable pub patch_loopback : Text → Verdict F64 → M S (Unit {0})
  unfolding apply
  patch_loopback node verdict = do
    now ← read api.now_rfc3339
    apply node (build_body fixed loopback_keys none now verdict)
