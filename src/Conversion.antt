-- ===== src/Conversion.antt =====
-- apis/bootstrap/v1alpha1 and apis/controlplane/v1alpha1: the conversions between the two versions of
-- the resources, hand-written and generated.
pub mod Codec
pub mod Fields
pub mod Fresh
pub mod ToV1alpha2
pub mod ToV1alpha1
pub mod RoundTrip
pub mod Hub
