-- ===== src/Prober/Reconcile.antt =====
-- src/prober/reconcile.rs: one probe of a pair or of a single node, from the first pod to the
-- annotations and the clean-up.
pub mod Outcome
use accelrd.Prober.Template.{Template, build_pod}
use accelrd.Prober.Apply.{patch_pair, patch_loopback}
use accelrd.Prelude.{
  ℕ, ◌+◌, ◌*◌, ◌%◌, ◌^◌, Bool, true, false, List, [], ◌∷◌, ◌++◌, Option, none, some, Text, codes,
  Result, ok, err, context, context_option, if◌then◌else◌, unwrap_or, is_lt, cmp_text,
}
use accelrd.Prober.Annotations.{
  Keys, rack_keys, loopback_keys, Verdict, label, fail, timeout, Body, build_body,
}
use accelrd.Prober.Cluster.{Api, Event, World, M, ◌>>=◌, ◌>>◌, pure, ask, note, read}
use accelrd.Prober.Config.{Resolved}
use accelrd.Prober.Pods.{
  Role, PodSpec, Phase, succeeded, failed_phase, timed_out, create, delete, await_pod_ip,
  await_terminal, read_record,
}
use accelrd.Prober.Results.{ProbeRecord}

-- `pair_tag`: the same whichever node is named first. `hash_hex` is `DefaultHasher` over the two
-- names and the seconds, in sixteen hexadecimal digits.
unfoldable pub pair_tag : (Text → Text → ℕ → Text) → ℕ → Text → Text → Text
pair_tag hash_hex secs a b = if is_lt (cmp_text a b) then hash_hex a b secs else hash_hex b a secs

-- The libraries that a probe calls: `serde_json::from_str` on a record, the printing of `f64`
-- with so many digits, and the hasher.
pub record Libraries (F64 : Type 0) : Type 0 where
  pub from_str : Text → Option (ProbeRecord F64)
  pub fixed : ℕ → F64 → Text
  pub hash_hex : Text → Text → ℕ → Text

module _ {S Pod F64 : Type 0} (api : Api S Pod) (lib : Libraries F64)
    (from_value : Template → Result Pod) (args : Resolved) where
  unfoldable pub cleanup : (server client : Text) → M S (Unit {0})
  cleanup server client = do delete api client; delete api server

  -- The verdict of a client pod that ended, or that did not in time.
  unfoldable pub verdict_of : Phase → Text → M S (Verdict F64)
  verdict_of succeeded client = do
    r ← read_record api lib.from_str client
    pure (elim r [
      | ok rec ↦
          if rec.ok then Verdict.ok rec else fail (unwrap_or rec.message (codes "probe ok=false"))
      | err e ↦ fail (codes "read client pod: " ++ e)
    ])
  verdict_of failed_phase client = pure (fail (codes "client pod phase Failed"))
  verdict_of timed_out client = pure timeout

  -- The steps once the client pod's end was awaited. `report` emits the attempt's metric and
  -- patches the annotations. The source writes the `ok` case apart, with the same three calls.
  unfoldable pub after_watch :
      (report : Verdict F64 → M S (Unit {0})) (server client : Text) → Result Phase → M S (Unit {0})
  unfolding cleanup verdict_of
  after_watch report server client (err e) = do
    delete api server
    delete api client
    report (fail (codes "watch client pod: " ++ e))
  after_watch report server client (ok p) = do
    verdict ← verdict_of p client
    report verdict
    cleanup server client

  unfoldable pub watch_client :
      (report : Verdict F64 → M S (Unit {0})) (server client : Text) → M S (Unit {0})
  unfolding after_watch
  watch_client report server client = do
    phase ← await_terminal api client ((args.test_duration_secs + 120) % 2 ^ 64 * 1000)
    after_watch report server client phase

  -- The steps once the client pod was asked for.
  unfoldable pub after_client :
      (report : Verdict F64 → M S (Unit {0})) (server : Text)
      → Result (Option Text)
      → M S (Unit {0})
  unfolding watch_client
  after_client report server (err e) = do
    delete api server
    report (fail (codes "create client pod: " ++ e))
  after_client report server (ok name) = watch_client report server (unwrap_or name [])

  unfoldable pub start_client :
      (report : Verdict F64 → M S (Unit {0})) (server : Text) → Result Pod → M S (Unit {0})
  unfolding after_client
  start_client report server (err e) = do
    delete api server
    report (fail (codes "build client pod: " ++ e))
  start_client report server (ok pod) = do
    created ← create api pod
    after_client report server created

  -- The steps once the server pod's address was awaited; the client's specification holds it.
  unfoldable pub after_address :
      (report : Verdict F64 → M S (Unit {0}))
      → (Text → PodSpec)
      → Text
      → Result Text
      → M S (Unit {0})
  unfolding start_client
  after_address report client_spec server (err e) = do
    delete api server
    report (fail (codes "server pod IP: " ++ e))
  after_address report client_spec server (ok ip) =
      start_client report server (build_pod from_value args (client_spec ip))

  unfoldable pub after_server :
      (report : Verdict F64 → M S (Unit {0}))
      → (Text → PodSpec)
      → Result (Option Text)
      → M S (Unit {0})
  unfolding after_address
  after_server report client_spec (err e) = report (fail (codes "create server pod: " ++ e))
  after_server report client_spec (ok name) = do
    address ← await_pod_ip api (unwrap_or name []) 60000
    after_address report client_spec (unwrap_or name []) address

  unfoldable pub start_server :
      (report : Verdict F64 → M S (Unit {0})) → (Text → PodSpec) → Result Pod → M S (Unit {0})
  unfolding after_server
  start_server report client_spec (err e) = report (fail (codes "build server pod: " ++ e))
  start_server report client_spec (ok pod) = do
    created ← create api pod
    after_server report client_spec created

  abbrev server_spec : (rack pair_id server client : Text) → PodSpec
  server_spec rack pair_id server client = record {
    role = Role.server;
    node_name = server;
    partner_node = client;
    partner_ip = none;
    rack = rack;
    pair_id = pair_id;
  }

  abbrev client_spec : (rack pair_id server client ip : Text) → PodSpec
  client_spec rack pair_id server client ip = record {
    role = Role.client;
    node_name = client;
    partner_node = server;
    partner_ip = some ip;
    rack = rack;
    pair_id = pair_id;
  }

  -- `emit_attempt_metric`, then `patch_pair`.
  unfoldable pub report_pair : (rack server client : Text) → Verdict F64 → M S (Unit {0})
  unfolding label patch_pair
  report_pair rack server client verdict = do
    note (Event.attempted rack (label verdict))
    patch_pair api lib.fixed server client verdict

  -- `emit_attempt_metric_loopback`, then `patch_loopback`.
  unfoldable pub report_loopback : (rack node : Text) → Verdict F64 → M S (Unit {0})
  unfolding label patch_loopback
  report_loopback rack node verdict = do
    note (Event.attempted rack (label verdict))
    patch_loopback api lib.fixed node verdict

  unfoldable pub probe_pair : (rack server client : Text) → M S (Unit {0})
  unfolding pair_tag start_server report_pair
  probe_pair rack server client = do
    secs ← read api.unix_secs
    let pair_id = pair_tag lib.hash_hex secs server client
    start_server (report_pair rack server client) (client_spec rack pair_id server client)
        (build_pod from_value args (server_spec rack pair_id server client))

  unfoldable pub probe_loopback : (rack node : Text) → M S (Unit {0})
  unfolding pair_tag start_server report_loopback
  probe_loopback rack node = do
    secs ← read api.unix_secs
    let pair_id = pair_tag lib.hash_hex secs node node
    start_server (report_loopback rack node) (client_spec rack pair_id node node)
        (build_pod from_value args (server_spec rack pair_id node node))
