-- ===== src/Prober/Template.antt =====
-- `build_pod` of src/prober/pods.rs: the pod that a probe asks for. The JSON template is a record with
-- a field for each of its values; `from_value` is `serde_json::from_value` into k8s-openapi's `Pod`.
use accelrd.Prelude.{
  ℕ, ◌≡◌, ◌∙◌, sym, ap, Bool, true, false, List, [], ◌∷◌, ◌++◌, Option, none, some, Text, codes,
  text_ord, Result, err, context, foldl, is_eq, cmp_text, if◌then◌else◌, arith,
}
use accelrd.Prelude.Dict.{Dict, get, insert, get-insert}
use accelrd.Prelude.Decimal.{show_number}
use accelrd.Prober.Config.{Resolved}
use accelrd.Prober.Pods.{Role, client, slug, PodSpec}

-- An entry of `env`: a value, or the path of a field of the pod.
pub data EnvVar : Type 0 where
  value : (name text : Text) → EnvVar
  field_ref : (name path : Text) → EnvVar

pub record Toleration : Type 0 where
  pub key : Text
  pub operator : Text
  pub effect : Text

pub record SecurityContext : Type 0 where
  pub run_as_user : ℕ
  pub allow_privilege_escalation : Bool
  pub read_only_root_filesystem : Bool
  pub drop : List Text
  pub add : List Text
  pub seccomp_profile : Text

pub record VolumeMount : Type 0 where
  pub name : Text
  pub mount_path : Text
  pub read_only : Option Bool

pub record Volume : Type 0 where
  pub name : Text
  pub host_path : Text
  pub kind : Option Text

pub record Resources : Type 0 where
  pub requests : Dict Text Text
  pub limits : Dict Text Text

pub record Template : Type 0 where
  pub generate_name : Text
  pub namespace : Text
  pub labels : Dict Text Text
  pub restart_policy : Text
  pub node_name : Text
  pub automount_service_account_token : Bool
  pub tolerations : List Toleration
  pub container_name : Text
  pub image : Text
  pub image_pull_policy : Text
  pub args : List Text
  pub env : List EnvVar
  pub security_context : SecurityContext
  pub resources : Resources
  pub volume_mounts : List VolumeMount
  pub volumes : List Volume

unfoldable pub splice : Dict Text Text → Text × Text → Dict Text Text
splice out (k, v) = insert k v out

unfoldable pub resources_of : Resolved → Resources
unfolding splice
resources_of args = record {
  requests =
      foldl splice
        (insert (codes "memory") (codes "128Mi") (insert (codes "cpu") (codes "200m") []))
        args.probe_resources;
  limits =
      foldl splice (insert (codes "memory") (codes "256Mi") (insert (codes "cpu") (codes "1") []))
        args.probe_resources;
}

-- The entry that is pushed for a client.
abbrev server_env : Role → Option Text → List EnvVar
server_env client (some ip) = value (codes "ACCELRD_PROBE_SERVER") ip ∷ []
server_env _ _ = []

unfoldable pub env_of : Resolved → PodSpec → List EnvVar
env_of args s =
    (value (codes "ACCELRD_PROBE_DURATION_SECS") (show_number args.test_duration_secs)
      ∷ value (codes "ACCELRD_PROBE_SRC_RACK") s.rack
      ∷ value (codes "ACCELRD_PROBE_PARTNER_NODE") s.partner_node
      ∷ value (codes "ACCELRD_OTLP_ENDPOINT") args.otlp_endpoint
      ∷ value (codes "OTEL_SERVICE_NAME") (codes "accelrd-probe")
      ∷ value (codes "RUST_LOG") (codes "info,opentelemetry=warn,reqwest=error")
      ∷ field_ref (codes "NODE_NAME") (codes "spec.nodeName")
      ∷ field_ref (codes "POD_NAME") (codes "metadata.name")
      ∷ field_ref (codes "POD_UID") (codes "metadata.uid")
      ∷ field_ref (codes "POD_NAMESPACE") (codes "metadata.namespace")
      ∷ value (codes "CONTAINER_NAME") (codes "probe")
      ∷ [])
    ++ server_env s.role s.partner_ip

abbrev tolerates : Text → Toleration
tolerates key = record { key = key; operator = codes "Exists"; effect = codes "NoSchedule" }

unfoldable pub template : Resolved → PodSpec → (image : Text) → Template
unfolding resources_of env_of slug
template args s image = record {
  generate_name = codes "accelrd-probe-" ++ slug s.role ++ codes "-";
  namespace = args.namespace;
  labels = insert (codes "accel-test.lunnova.dev/pair") s.pair_id (
      insert (codes "accel-test.lunnova.dev/rack") s.rack (
        insert (codes "accel-test.lunnova.dev/role") (slug s.role) (
          insert (codes "app.kubernetes.io/managed-by") (codes "accelrd-prober") (
            insert (codes "app.kubernetes.io/component") (codes "probe")
              (insert (codes "app.kubernetes.io/name") (codes "accelrd-probe") [])))));
  restart_policy = codes "Never";
  node_name = s.node_name;
  automount_service_account_token = false;
  tolerations =
      tolerates (codes "nvidia.com/gpu")
      ∷ tolerates (codes "amd.com/gpu")
      ∷ tolerates (codes "accelerator")
      ∷ [];
  container_name = codes "probe";
  image = image;
  image_pull_policy = codes "IfNotPresent";
  args = codes "probe" ∷ codes "--mode" ∷ slug s.role ∷ [];
  env = env_of args s;
  security_context = record {
    run_as_user = 0;
    allow_privilege_escalation = false;
    read_only_root_filesystem = true;
    drop = codes "ALL" ∷ [];
    add = codes "IPC_LOCK" ∷ codes "NET_RAW" ∷ [];
    seccomp_profile = codes "RuntimeDefault";
  };
  resources = resources_of args;
  volume_mounts =
      record {
        name = codes "dev-infiniband";
        mount_path = codes "/dev/infiniband";
        read_only = none;
      }
      ∷ record { name = codes "sys"; mount_path = codes "/sys"; read_only = some true }
      ∷ [];
  volumes =
      record { name = codes "dev-infiniband"; host_path = codes "/dev/infiniband"; kind = none }
      ∷ record { name = codes "sys"; host_path = codes "/sys"; kind = some (codes "Directory") }
      ∷ [];
}

unfoldable pub build_pod :
    {Pod : Type 0} → (Template → Result Pod) → Resolved → PodSpec → Result Pod
unfolding template
build_pod from_value args s = elim args.probe_image [
  | none ↦ err (codes "probe_image (set ACCELRD_PROBER_PROBE_IMAGE)")
  | some image ↦
      context (codes "synthesize Pod from JSON template") (from_value (template args s image))
]

get-splice_all :
    (k : Text) (a b : Dict Text Text) (rs : List (Text × Text))
    → get k a ≡ get k b
    → get k (foldl splice a rs) ≡ get k (foldl splice b rs)
unfolding splice
get-splice_all k a b [] h = h
get-splice_all k a b ((j, v) ∷ rs) h = get-splice_all k (insert j v a) (insert j v b) rs (
    get-insert k j v a
    ∙ ap (λ (o : Option Text). if is_eq (cmp_text k j) then some v else o) h
    ∙ sym (get-insert k j v b))

-- A probe container requests of every resource but the processor and the memory what it is limited to.
pub resources_of_lem :
    (args : Resolved) (k : Text)
    → is_eq (cmp_text k (codes "cpu")) ≡ false
    → is_eq (cmp_text k (codes "memory")) ≡ false
    → get k (resources_of args).requests ≡ get k (resources_of args).limits
unfolding resources_of get
resources_of_lem args k c m = get-splice_all k _ _ args.probe_resources (
    ground (
      arith,
      get-insert k (codes "memory") (codes "128Mi") (insert (codes "cpu") (codes "200m") []),
      get-insert k (codes "memory") (codes "256Mi") (insert (codes "cpu") (codes "1") []),
      get-insert k (codes "cpu") (codes "200m") [],
      get-insert k (codes "cpu") (codes "1") [],
    ))
