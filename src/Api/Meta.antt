-- ===== src/Api/Meta.antt =====
-- Kubernetes and Cluster API objects that the program reads and writes, with the fields that it
-- uses. `Machine` is clusterv1.Machine, `Cluster` clusterv1.Cluster; pointers are options, times are
-- instants, and a missing deletion time is `none`.
use cluster_api_bootstrap_pr.Prelude.{ℕ, String, Bool, Option, List}

pub record ObjectReference : Type 0 where
  pub api_version : String
  pub kind : String
  pub namespace_of : String
  pub name : String
  pub uid : String

-- metav1.ListMeta
pub record ListMeta : Type 0 where
  pub resource_version : String
  pub continue : String

pub record OwnerReference : Type 0 where
  pub api_version : String
  pub kind : String
  pub name : String
  pub uid : String
  pub controller : Bool

pub record Machine : Type 0 where
  pub name : String
  pub namespace_of : String
  pub labels : List (String × String)
  pub annotations : Option (List (String × String))
  pub owner_references : List OwnerReference
  pub creation_timestamp : ℕ
  pub deletion_timestamp : Option ℕ
  pub cluster_name : String
  pub version : Option String
  pub infrastructure_ref : ObjectReference
  pub config_ref : Option ObjectReference
  pub failure_domain : Option String
  pub node_ref : Option String

-- clusterv1.FailureDomainSpec
pub record FailureDomainSpec : Type 0 where
  pub control_plane : Bool
  pub attributes : List (String × String)

-- clusterv1.FailureDomains, a map from the domain's name
abbrev pub FailureDomains : Type 0
FailureDomains = List (String × FailureDomainSpec)

-- clusterv1.APIEndpoint
pub record Endpoint : Type 0 where
  pub host : String
  pub port : ℕ

-- clusterv1.ClusterNetwork
pub record ClusterNetwork : Type 0 where
  pub service_domain : String
  pub services : Option (List String)
  pub pods : Option (List String)

pub record Cluster : Type 0 where
  pub name : String
  pub namespace_of : String
  pub uid : String
  pub control_plane_endpoint : Endpoint
  pub cluster_network : Option ClusterNetwork
  pub control_plane_ref : Option ObjectReference
  pub infrastructure_ready : Bool
  pub control_plane_initialized : Bool
  pub failure_domains : FailureDomains
