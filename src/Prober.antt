-- ===== src/Prober.antt =====
-- src/prober: the controller that pairs nodes of a rack and probes them.
pub mod Keys
pub mod Pair
pub mod Results
pub mod Annotations
pub mod Cluster
pub mod Config
pub mod Pods
pub mod Apply
pub mod Template
pub mod Settings
pub mod Reconcile
pub mod Cycle
