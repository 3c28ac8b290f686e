-- ===== src/Prober/Settings.antt =====
-- `ProberArgs` of src/prober/mod.rs and its resolution from the environment. `var` is
-- `std::env::var`, whose values are Unicode.
use accelrd.Prelude.{
  ℕ, ◌≡◌, refl, ◌%◌, ◌^◌, ◌&&◌, Bool, false, not, List, [], ◌∷◌, ◌++◌, Option, none, some, Text,
  codes, All, map, keep, keep_if, and_then, or_else, unwrap_or, map_option, is_empty, if◌then◌else◌,
  arith,
}
use accelrd.Prelude.Strings.{split_once, split, trim, parse_below, u64_bound}
use accelrd.Prober.Config.{Resolved}

pub record ProberArgs : Type 0 where
  pub otlp_endpoint : Option Text
  pub service_name : Option Text
  pub cadence_secs : Option ℕ
  pub reconcile_interval_secs : Option ℕ
  pub probe_image : Option Text
  pub namespace : Option Text
  pub test_duration_secs : Option ℕ
  pub max_concurrent_pairs : Option ℕ
  pub probe_resource : List Text
  pub once : Bool

-- A well-formed entry, trimmed.
unfoldable pub read_entry : Text → Option (Text × Text)
unfolding split_once trim
read_entry entry = and_then (split_once b'=' entry) λ kv.
    if not (is_empty (trim kv.0)) && not (is_empty (trim kv.1))
    then some (trim kv.0, trim kv.1)
    else none

-- The loop over the entries; a malformed one is dropped.
unfoldable pub read_entries : List Text → List (Text × Text)
unfolding read_entry
read_entries [] = []
read_entries (entry ∷ rest) =
    let out = read_entries rest in elim (read_entry entry) [ none ↦ out | some kv ↦ kv ∷ out ]

module _ (var : Text → Option Text) where
  unfoldable pub env_string : Text → Option Text
  env_string key = keep_if (λ s. not (is_empty s)) (var key)

  unfoldable pub env_u64 : Text → Option ℕ
  unfolding parse_below
  env_u64 key = and_then (var key) (parse_below u64_bound)

  -- The pieces between the commas of the variable, trimmed, without the empty ones.
  unfoldable pub env_entries : Option Text → List Text
  unfolding split trim
  env_entries none = []
  env_entries (some env) = keep (λ s. not (is_empty s)) (map trim (split b',' env))

  unfoldable pub resolve_probe_resources : List Text → List (Text × Text)
  unfolding env_string env_entries read_entries
  resolve_probe_resources cli =
      read_entries (cli ++ env_entries (env_string (codes "ACCELRD_PROBER_PROBE_RESOURCES")))

  unfoldable pub resolve : ProberArgs → Resolved
  unfolding env_string env_u64 resolve_probe_resources
  resolve a = record {
    otlp_endpoint =
        unwrap_or (or_else a.otlp_endpoint (env_string (codes "ACCELRD_OTLP_ENDPOINT")))
          (codes "http://127.0.0.1:4318");
    service_name =
        unwrap_or (or_else a.service_name (env_string (codes "OTEL_SERVICE_NAME")))
          (codes "accelrd-prober");
    cadence_secs =
        unwrap_or (or_else a.cadence_secs (env_u64 (codes "ACCELRD_PROBER_CADENCE_SECS"))) 21600;
    reconcile_interval_secs =
        unwrap_or
          (or_else a.reconcile_interval_secs
            (env_u64 (codes "ACCELRD_PROBER_RECONCILE_INTERVAL_SECS")))
          300;
    probe_image = or_else a.probe_image (env_string (codes "ACCELRD_PROBER_PROBE_IMAGE"));
    namespace =
        unwrap_or (or_else a.namespace (env_string (codes "ACCELRD_PROBER_NAMESPACE")))
          (codes "accelrd");
    test_duration_secs =
        unwrap_or
          (or_else a.test_duration_secs (env_u64 (codes "ACCELRD_PROBER_TEST_DURATION_SECS"))) 30;
    max_concurrent_pairs =
        unwrap_or
          (or_else a.max_concurrent_pairs
            (map_option (λ v. v % 2 ^ 32) (env_u64 (codes "ACCELRD_PROBER_MAX_CONCURRENT_PAIRS"))))
          4;
    probe_resources = resolve_probe_resources a.probe_resource;
    once = a.once;
  }

abbrev pub IsNamed : Text × Text → Type 0
IsNamed kv = (is_empty kv.0 ≡ false) × (is_empty kv.1 ≡ false)

IsNamed-if :
    (k v : Text) (kv : Text × Text)
    → (if not (is_empty k) && not (is_empty v) then some (k, v) else none) ≡ some kv
    → IsNamed kv
IsNamed-if [] v kv e = absurd (cc (e))
IsNamed-if (b ∷ k) [] kv e = absurd (cc (e))
IsNamed-if (b ∷ k) (c ∷ v) kv e = ground (arith, e)

read_entry-IsNamed : (entry : Text) (kv : Text × Text) → read_entry entry ≡ some kv → IsNamed kv
unfolding read_entry
read_entry-IsNamed entry kv e = go (split_once b'=' entry) e
  where
    go :
        (p : Option (Text × Text))
        → and_then p (λ q.
          if not (is_empty (trim q.0)) && not (is_empty (trim q.1))
          then some (trim q.0, trim q.1)
          else none)
          ≡ some kv
        → IsNamed kv
    go none e = absurd (cc (e))
    go (some q) e = IsNamed-if (trim q.0) (trim q.1) kv e

All-push :
    (o : Option (Text × Text)) (out : List (Text × Text))
    → ((kv : Text × Text) → o ≡ some kv → IsNamed kv)
    → All IsNamed out
    → All IsNamed (elim o [ none ↦ out | some kv ↦ kv ∷ out ])
All-push none out f h = h
All-push (some kv) out f h = (f kv refl, h)

read_entries-IsNamed : (l : List Text) → All IsNamed (read_entries l)
unfolding read_entries
read_entries-IsNamed [] = tt
read_entries-IsNamed (entry ∷ rest) =
    All-push (read_entry entry) (read_entries rest) (read_entry-IsNamed entry)
      (read_entries-IsNamed rest)

-- Whatever the flags and the environment hold, every resource that the prober asks for has a name and
-- an amount that are not empty.
pub resolve-IsNamed :
    (var : Text → Option Text) (a : ProberArgs) → All IsNamed (resolve var a).probe_resources
unfolding resolve
resolve-IsNamed var a =
    read_entries-IsNamed (
      a.probe_resource ++ env_entries var (env_string var (codes "ACCELRD_PROBER_PROBE_RESOURCES")))
