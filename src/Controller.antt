-- ===== src/Controller.antt =====
-- controllers/controlplane: the reconciler of CritControlPlane resources.
pub mod Environment
pub mod Deletion
pub mod Generation
pub mod Scaling
pub mod Status
pub mod Ownership
pub mod Reconcile
pub mod Dispatch
