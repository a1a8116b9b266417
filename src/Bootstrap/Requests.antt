-- ===== src/Bootstrap/Requests.antt =====
-- controllers/bootstrap/controller.go: the requests that changes of Machines, MachinePools and Clusters
-- lead to. An object of another type is `none`.
pub mod Listed
use cluster_api_bootstrap_pr.Prelude.{
  String, Bool, true, false, Option, none, some, List, [], ◌∷◌, ◌++◌, Result, ok, err, Error,
  str_eq, if◌then◌else◌, ◌&&◌, ◌≡◌, refl, Bool-cases, inl, inr,
}
use cluster_api_bootstrap_pr.Api.{Cluster, Machine, ObjectReference}
use cluster_api_bootstrap_pr.Secret.Store.{ObjectKey}

-- expv1.MachinePool
pub record MachinePool : Type 0 where
  pub namespace_of : String
  pub config_ref : Option ObjectReference

-- bootstrapv1.GroupVersion
abbrev pub group : String
group = "bootstrap.cluster.x-k8s.io"

abbrev pub version : String
version = "v1alpha2"

-- `parse` is schema.ParseGroupVersion, which GroupVersionKind of a reference uses.
module _ (parse : String → String × String) where
  abbrev pub has_group_kind : ObjectReference → Bool
  has_group_kind ref = str_eq (parse ref.api_version).0 group && str_eq ref.kind "CritConfig"

  abbrev pub has_group_version_kind : ObjectReference → Bool
  has_group_version_kind ref =
      str_eq (parse ref.api_version).0 group
      && str_eq (parse ref.api_version).1 version
      && str_eq ref.kind "CritConfig"

  abbrev pub request_when :
      (ObjectReference → Bool) → String → Option ObjectReference → List ObjectKey
  request_when test namespace_of none = []
  request_when test namespace_of (some ref) =
      if test ref then record { namespace_of = namespace_of; name = ref.name } ∷ [] else []

  -- MachineToBootstrapMapFunc
  unfoldable pub machine_to_bootstrap : Option Machine → List ObjectKey
  machine_to_bootstrap none = []
  machine_to_bootstrap (some m) = request_when has_group_version_kind m.namespace_of m.config_ref

  -- MachinePoolToBootstrapMapFunc
  unfoldable pub machine_pool_to_bootstrap : Option MachinePool → List ObjectKey
  machine_pool_to_bootstrap none = []
  machine_pool_to_bootstrap (some m) = request_when has_group_kind m.namespace_of m.config_ref

  abbrev pub machine_requests : List Machine → List ObjectKey
  machine_requests [] = []
  machine_requests (m ∷ ms) =
      request_when has_group_kind m.namespace_of m.config_ref ++ machine_requests ms

  abbrev pub listed_requests : Result (List Machine) → List ObjectKey
  listed_requests (err e) = []
  listed_requests (ok ms) = machine_requests ms

  -- ClusterToCritConfigs; `list` lists the Machines in a namespace with the label of a cluster
  unfoldable pub cluster_to_crit_configs :
      (String → String → Result (List Machine)) → Option Cluster → List ObjectKey
  cluster_to_crit_configs list none = []
  cluster_to_crit_configs list (some c) = listed_requests (list c.namespace_of c.name)
