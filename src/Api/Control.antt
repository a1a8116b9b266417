-- ===== src/Api/Control.antt =====
-- apis/controlplane/v1alpha2/critcontrolplane_types.go: the CritControlPlane resource. Replicas is
-- a Go int; negative values, for which `make` panics, are outside the model.
use cluster_api_bootstrap_pr.Prelude.{ℕ, ℤ, String, Bool, Option, List}
use cluster_api_bootstrap_pr.Api.Meta.{ObjectReference, ListMeta}
use cluster_api_bootstrap_pr.Api.Bootstrap.{CritConfigSpec}

pub record CritControlPlaneSpec : Type 0 where
  pub replicas : ℕ
  pub version : String
  pub infrastructure_template : ObjectReference
  pub crit_config_spec : CritConfigSpec

-- CritControlPlaneStatus; the counts of machines are int32, far above any number of machines
pub record CritControlPlaneStatus : Type 0 where
  pub selector : String
  pub replicas : ℕ
  pub updated_replicas : ℕ
  pub ready_replicas : ℕ
  pub unavailable_replicas : ℤ
  pub initialized : Bool
  pub ready : Bool
  pub failure_reason : String
  pub failure_message : Option String

pub record CritControlPlane : Type 0 where
  pub name : String
  pub namespace_of : String
  pub uid : String
  pub finalizers : List String
  pub deletion_timestamp : Option ℕ
  pub spec : CritControlPlaneSpec
  pub status : CritControlPlaneStatus

pub record CritControlPlaneList : Type 0 where
  pub list_meta : ListMeta
  pub items : List CritControlPlane

-- Hash: the FNV-1a sum of what mdutil.DeepHashObject prints, in decimal, is the parameter
-- `deep_hash` of the three hashed fields.
unfoldable pub spec_hash :
    (String → ObjectReference → CritConfigSpec → String) → CritControlPlaneSpec → String
spec_hash deep_hash c = deep_hash c.version c.infrastructure_template c.crit_config_spec
