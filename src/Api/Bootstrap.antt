-- ===== src/Api/Bootstrap.antt =====
-- apis/bootstrap/v1alpha2/critconfig_types.go and critconfigtemplate_types.go: the CritConfig and
-- CritConfigTemplate resources.
use cluster_api_bootstrap_pr.Prelude.{String, Bool, Option, List}
use cluster_api_bootstrap_pr.Api.Meta.{OwnerReference, ListMeta}

-- File; an absent optional text is empty
pub record File : Type 0 where
  pub path : String
  pub owner : String
  pub permissions : String
  pub encoding : String
  pub content : String

-- User
pub record User : Type 0 where
  pub name : String
  pub gecos : Option String
  pub groups : Option String
  pub home_dir : Option String
  pub inactive : Option Bool
  pub shell : Option String
  pub passwd : Option String
  pub primary_group : Option String
  pub lock_password : Option Bool
  pub sudo : Option String
  pub ssh_authorized_keys : List String

-- NTP
pub record Ntp : Type 0 where
  pub servers : List String
  pub enabled : Option Bool

-- CritConfigSpec
pub record CritConfigSpec : Type 0 where
  pub config : String
  pub files : List File
  pub pre_crit_commands : List String
  pub post_crit_commands : List String
  pub users : List User
  pub ntp : Option Ntp
  pub format : String
  pub verbosity : Bool

-- CritConfigStatus
pub record CritConfigStatus : Type 0 where
  pub ready : Bool
  pub data_secret_name : Option String
  pub failure_reason : String
  pub failure_message : String

-- CritConfig
pub record CritConfig : Type 0 where
  pub name : String
  pub namespace_of : String
  pub uid : String
  pub labels : List (String × String)
  pub owner_references : List OwnerReference
  pub spec : CritConfigSpec
  pub status : CritConfigStatus

-- CritConfigList
pub record CritConfigList : Type 0 where
  pub list_meta : ListMeta
  pub items : List CritConfig

-- CritConfigTemplateResource
pub record CritConfigTemplateResource : Type 0 where
  pub spec : CritConfigSpec

-- CritConfigTemplateSpec
pub record CritConfigTemplateSpec : Type 0 where
  pub template : CritConfigTemplateResource

-- CritConfigTemplate
pub record CritConfigTemplate : Type 0 where
  pub name : String
  pub namespace_of : String
  pub uid : String
  pub labels : List (String × String)
  pub owner_references : List OwnerReference
  pub spec : CritConfigTemplateSpec

-- CritConfigTemplateList
pub record CritConfigTemplateList : Type 0 where
  pub list_meta : ListMeta
  pub items : List CritConfigTemplate
