-- ===== src/K8s.antt =====
-- src/k8s: publishing the daemon's labels on its node.
pub mod Labeler
