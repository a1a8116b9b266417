-- ===== src/Machines.antt =====
-- Sets of machines: their filters (internal/machinefilters/machine_filters.go), the collection
-- itself (internal/machine_collection.go) and the failure domains that they are spread over
-- (internal/failure_domain.go).
pub mod Filters
pub mod Collection
pub mod Sort
pub mod FailureDomain
