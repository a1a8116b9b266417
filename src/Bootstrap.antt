-- ===== src/Bootstrap.antt =====
-- controllers/bootstrap: the reconciler of CritConfig resources.
pub mod Defaults
pub mod Store
pub mod Worker
pub mod Token
pub mod Services
pub mod CloudConfig
pub mod Round
pub mod Dispatch
pub mod Requests
