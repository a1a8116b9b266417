-- ===== src/Api.antt =====
-- The resources of the program's APIs, and the Kubernetes objects that it works on.
mod Meta
mod Bootstrap
mod Control
pub mod V1alpha1
pub use Meta.*
pub use Bootstrap.*
pub use Control.{
  CritControlPlaneSpec, CritControlPlaneStatus, CritControlPlane, CritControlPlaneList,
}
unfoldable pub use Control.{spec_hash}
