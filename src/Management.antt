-- ===== src/Management.antt =====
-- internal/workload_cluster.go and internal/cluster.go: the health of a workload cluster's control
-- plane, as the management cluster judges it.
pub mod Workload
pub mod Cluster
pub mod Masking
pub mod Health
