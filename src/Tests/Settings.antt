-- ===== src/Tests/Settings.antt =====
-- The settings of a prober that is given its resources by a flag and by the environment.
use accelrd.Prelude.{◌≡◌, refl, Text, codes, Option, none, some, [], ◌∷◌, All, false}
use accelrd.Prober.Settings.{ProberArgs, resolve, IsNamed, resolve-IsNamed}

abbrev var : Text → Option Text
var key = some (codes " example.com/hca = 2,,bad=")

abbrev flags : ProberArgs
flags = record {
  otlp_endpoint = none;
  service_name = none;
  cadence_secs = some 60;
  reconcile_interval_secs = none;
  probe_image = none;
  namespace = none;
  test_duration_secs = none;
  max_concurrent_pairs = none;
  probe_resource = codes "squat.ai/infiniband=1" ∷ codes "=3" ∷ [];
  once = false;
}

resources_of_both :
    (resolve var flags).probe_resources
    ≡ (codes "squat.ai/infiniband", codes "1") ∷ (codes "example.com/hca", codes "2") ∷ []
unfolding resolve
resources_of_both = refl

resolve-IsNamed_example : All IsNamed (resolve var flags).probe_resources
resolve-IsNamed_example = resolve-IsNamed var flags
