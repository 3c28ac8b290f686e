-- ===== src/Admin.antt =====
-- src/admin: the console's read-only view of the cluster.
pub mod Nodes
pub mod Mutel
