-- ===== src/Lib.antt =====
-- accelrd: a node daemon that labels Kubernetes nodes with what accelerators and fabric they have,
-- a prober that measures the links between nodes, and a console that shows both.
--
-- The parts, by directory of src/, and the modules that model them:
--
--   Prober        src/prober: Pair (pair.rs) chooses which nodes to probe, Reconcile (reconcile.rs)
--                 runs a probe through Template and Pods (pods.rs), reads its record with Results
--                 (results.rs), and writes the verdict with Annotations and Apply (annotations.rs).
--                 Settings and Config are the settings of mod.rs. Cycle is run_once: the orphaned
--                 pods, the probes that are due, and the tasks under the semaphore.
--   K8s           src/k8s/labeler.rs: the merge patch of the daemon's labels and its attempts.
--   Topology      src/topology: the data of mod.rs, lldp.rs and rdma.rs, the reader of LLDP frames
--                 (Lldp), the labels of a node (Labels, from labels.rs) and slugs (Slugs).
--                 Rdma scans the RDMA devices (rdma.rs); Discover groups linked cards (discover.rs),
--                 and Discover.Domains gives the groups their ids and infers the rack.
--   Preflight     src/preflight/mod.rs, in Health the checks of health.rs and placeholder.rs, and in
--                 Cycle the cycle of src/telemetry/preflight.rs.
--   Sensors       src/sensors/mod.rs: the description of an accelerator; Common and Sysfs, of
--                 common.rs, its partitions and the readers of sysfs; Amd, Nvidia and Intel the
--                 vendors, Inventory all of them, and Host the memory, the disks and the power (host.rs).
--   Probe         src/probe: the program that a probe pod runs. Perftest reads the output of
--                 ib_send_bw (perftest.rs), Run its server and client (mod.rs), Session the record,
--                 the metrics and the exit of mod.rs, with device.rs.
--   Time          src/time.rs: dates of day numbers and RFC 3339 stamps.
--   Admin         src/admin: what the console reads back of labels and annotations (Nodes, of k8s.rs),
--                 and the queries and the roll-up of the metrics client (Mutel, of mutel.rs).
--   Daemon        src/config.rs, src/k8s/mod.rs and facts.rs: the daemon's settings and the node's name,
--                 and the inventory that src/lifecycle.rs starts with.
--   Kube          the Kubernetes objects that the source reads, and the API server's merge patch.
--   Prelude       shared lists, sorted maps (BTreeMap), stable sort, texts as UTF-8 bytes, integers.
--   Telemetry     src/telemetry/live.rs and mod.rs: one round of the live readings.
--   Tests         the program's unit tests and other runs on concrete inputs.
--
-- Parts meet in the node's labels and annotations: the prober and the daemon write them by merge
-- patches, the prober's next cycle and the console read them. Kube.Merge.IsMerge is the interface for
-- what a merge patch does, and merge_entries fills it.
--
-- The API server, the clock and the sleeping runtime are the record Prober.Cluster.Api over a state
-- of the outside world, so a theorem about every such record holds whatever the server answers and
-- whoever else changes the cluster. A log of the world holds what the program created, deleted,
-- counted and patched. IsClock states that time never goes back and that a sleep lasts. serde_json's
-- reader of a record, its conversion of the pod template, the printing and reading of floats and the
-- hasher are parameters. Instants are milliseconds without a bound: `Instant + Duration` panics where the
-- sum is no instant, from about second 2 ^ 63 on, which the deadlines of the loops here do not, and
-- Prober.Pods.Waiting.instants is that bound. A difference of unsigned numbers that is cast to i64 wraps
-- (minus_i64), as in a release build.
--
-- The two waiting loops run on fuel: one round more than the ticks in the timeout, 500 ms and 2000 ms
-- apart, which is enough since tick k ends no earlier than k periods after the start. `none` in the
-- monad means that the fuel ran out, and Prober.Cluster.Returns excludes it.
--
-- The file system is the record Sensors.Sysfs.Fs of functions from paths, which does not change while
-- a reading runs, and floats are the record Sensors.Floats. The probe program's processes, clock and
-- sleep are parameters of Probe.Run; its client tries a round at most each half second until its
-- deadline, so twice the timeout and one more rounds are enough. The order of a HashMap is a function
-- that is asked to keep the keys and their counts. The tasks of a cycle are a step relation, in which
-- any running task may end next.
--
-- The search for linked cards has one unit of fuel more than the weight of the cards and links, since
-- every card that is taken from the stack costs one. The eight digits of show_hex are enough for 32
-- bits. The loop over the TLVs of a frame has the length of the frame as fuel; each round takes two bytes at
-- least. fs::read_to_string and serde_json's writer are parameters of the labels. The twenty digits of
-- Prelude.Decimal are enough for 64 bits.
--
-- Numbers are natural numbers; a sum of u64 wraps where it is written. Log lines, tracing spans and
-- metric histograms are not modelled, but for the attempt that a probe counts. Not modelled: the HTTP
-- server, its routes and requests, OpenTelemetry set-up, the command line, the socket loop of the LLDP
-- listener, the daemon's tasks and shutdown, and the prober's endless loop.
pub mod Prelude
pub mod Kube
pub mod Prober
pub mod Time
pub mod Probe
pub mod Topology
pub mod K8s
pub mod Sensors
pub mod Preflight
pub mod Admin
pub mod Daemon
pub mod Telemetry
pub mod Tests
