-- ===== src/Tests.antt =====
-- Concrete inputs, and the theorems applied to them.
pub mod Samples
pub mod Stores
pub mod Runs
pub mod Choices
pub mod Scaling
pub mod Rounds
pub mod Bootstraps
pub mod Remotes
pub mod Conversions
pub mod Workers
pub mod Clouds
pub mod Planes
