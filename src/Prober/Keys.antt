-- ===== src/Prober/Keys.antt =====
-- The annotation keys that the prober's modules share (src/prober/annotations.rs).
use accelrd.Prelude.{Text, codes}

abbrev pub ann_last_at : Text
ann_last_at = codes "accel-test.lunnova.dev/last-rack-at"

abbrev pub ann_lb_last_at : Text
ann_lb_last_at = codes "accel-test.lunnova.dev/last-loopback-at"
