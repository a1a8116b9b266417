-- ===== src/Secret.antt =====
-- internal/secret: the cluster's certificates, kept in one Secret for each purpose.
pub mod Certificates
pub mod Store
pub mod Stored
pub mod Saved
pub mod Files
pub mod Idempotence
