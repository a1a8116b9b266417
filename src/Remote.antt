-- ===== src/Remote.antt =====
-- internal/remote: clients and caches of workload clusters.
pub mod Keys
pub mod Client
pub mod Tracker
pub mod Checks
pub mod Steps
pub mod Threads
pub mod Stale
