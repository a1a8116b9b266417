-- ===== src/Api/V1alpha1.antt =====
-- apis/bootstrap/v1alpha1 and apis/controlplane/v1alpha1: the older version of the resources. The
-- configurations of crit in its own version v1alpha1 are parameters: `A` those of control planes and
-- `B` those of workers.
use cluster_api_bootstrap_pr.Prelude.{ℕ, ℤ, String, Bool, Option, List}
use cluster_api_bootstrap_pr.Api.Meta.{ObjectReference, OwnerReference, ListMeta}

pub record File : Type 0 where
  pub path : String
  pub owner : String
  pub permissions : String
  pub encoding : String
  pub content : String

pub record User : Type 0 where
  pub name : String
  pub gecos : Option String
  pub groups : Option String
  pub home_dir : Option String
  pub inactive : Option Bool
  pub shell : Option String
  pub passwd : Option String
  pub primary_group : Option String
  pub lock_password : Option Bool
  pub sudo : Option String
  pub ssh_authorized_keys : List String

pub record Ntp : Type 0 where
  pub servers : List String
  pub enabled : Option Bool

pub record CritConfigSpec (A B : Type 0) : Type 0 where
  pub control_plane_configuration : Option A
  pub worker_configuration : Option B
  pub files : List File
  pub pre_crit_commands : List String
  pub post_crit_commands : List String
  pub users : List User
  pub ntp : Option Ntp
  pub format : String
  pub verbosity : Bool

pub record CritConfigStatus : Type 0 where
  pub ready : Bool
  pub data_secret_name : Option String
  pub failure_reason : String
  pub failure_message : String

pub record CritConfig (A B : Type 0) : Type 0 where
  pub name : String
  pub namespace_of : String
  pub uid : String
  pub labels : List (String × String)
  pub owner_references : List OwnerReference
  pub spec : CritConfigSpec A B
  pub status : CritConfigStatus

pub record CritConfigList (A B : Type 0) : Type 0 where
  pub list_meta : ListMeta
  pub items : List (CritConfig A B)

pub record CritConfigTemplateResource (A B : Type 0) : Type 0 where
  pub spec : CritConfigSpec A B

pub record CritConfigTemplateSpec (A B : Type 0) : Type 0 where
  pub template : CritConfigTemplateResource A B

pub record CritConfigTemplate (A B : Type 0) : Type 0 where
  pub name : String
  pub namespace_of : String
  pub uid : String
  pub labels : List (String × String)
  pub owner_references : List OwnerReference
  pub spec : CritConfigTemplateSpec A B

pub record CritConfigTemplateList (A B : Type 0) : Type 0 where
  pub list_meta : ListMeta
  pub items : List (CritConfigTemplate A B)

pub record CritControlPlaneSpec (A B : Type 0) : Type 0 where
  pub replicas : ℕ
  pub version : String
  pub infrastructure_template : ObjectReference
  pub crit_config_spec : CritConfigSpec A B

pub record CritControlPlaneStatus : Type 0 where
  pub selector : String
  pub replicas : ℕ
  pub updated_replicas : ℕ
  pub ready_replicas : ℕ
  pub unavailable_replicas : ℤ
  pub initialized : Bool
  pub ready : Bool
  pub failure_reason : String
  pub failure_message : Option String

pub record CritControlPlane (A B : Type 0) : Type 0 where
  pub name : String
  pub namespace_of : String
  pub uid : String
  pub finalizers : List String
  pub deletion_timestamp : Option ℕ
  pub spec : CritControlPlaneSpec A B
  pub status : CritControlPlaneStatus

pub record CritControlPlaneList (A B : Type 0) : Type 0 where
  pub list_meta : ListMeta
  pub items : List (CritControlPlane A B)
