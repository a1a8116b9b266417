-- ===== src/Bootstrap/Defaults.antt =====
-- controllers/bootstrap/worker.go and controlplane.go: what a configuration takes over from the
-- Cluster. The configurations are those of crit, with the fields that the code reads and writes;
-- their marshalling, IsZero of both kinds of endpoints and strings.Join are parameters.
pub mod Settled
use cluster_api_bootstrap_pr.Prelude.{
  String, Bool, true, false, not, Option, none, some, List, [], ◌∷◌, ◌++◌, Result, ok, err, Error,
  requeue_after, wrap, str_eq, if◌then◌else◌, ◌&&◌, ◌||◌, ◌>>=◌, is_empty,
}
use cluster_api_bootstrap_pr.Api.{Cluster, ClusterNetwork, Endpoint, CritConfigSpec}
use cluster_api_bootstrap_pr.Management.Cluster.{wrapped}

-- critv1.WorkerConfiguration
pub record WorkerConfiguration : Type 0 where
  pub control_plane_endpoint : Endpoint
  pub cluster_name : String
  pub kube_dir : String
  pub cluster_domain : String
  pub kubernetes_version : String
  pub bootstrap_token : String

-- critv1.ControlPlaneConfiguration
pub record ControlPlaneConfiguration : Type 0 where
  pub control_plane_endpoint : Endpoint
  pub cluster_name : String
  pub kube_dir : String
  pub cluster_domain : String
  pub kubernetes_version : String
  pub extra_sans : List String
  pub service_subnet : String
  pub pod_subnet : String

-- bsutil.ConfigOwner: its kind, the version that the conversion from the unstructured object finds in
-- it, and what its methods answer
pub record ConfigOwner : Type 0 where
  pub kind : String
  pub namespace_of : String
  pub cluster_name : String
  pub version : Result (Option String)
  pub infrastructure_ready : Bool
  pub is_control_plane_machine : Bool
  pub data_secret_name : Option String

-- `if field == "" { field = value }`
abbrev pub or_value : String → String → String
or_value field value = if str_eq field "" then value else field

-- the cluster's service domain for an empty one
abbrev pub or_service_domain : String → Option ClusterNetwork → String
or_service_domain domain none = domain
or_service_domain domain (some network) =
    if str_eq domain "" && not (str_eq network.service_domain "")
    then network.service_domain
    else domain

-- the owner's version for an empty one
abbrev pub or_version : String → Option String → String
or_version version none = version
or_version version (some v) = or_value version v

-- the kinds whose version is read
abbrev pub has_version : String → Bool
has_version kind =
    str_eq kind "Machine" || str_eq kind "MachineSet" || str_eq kind "MachineDeployment"

abbrev pub owner_version : ConfigOwner → Result (Option String)
owner_version owner =
    if has_version owner.kind then wrapped "cannot convert owner" owner.version else ok none

-- CritConfigSpec.SetConfig
unfoldable pub set_config :
    {A : Type 0} → (A → Result String) → A → CritConfigSpec → Result CritConfigSpec
set_config marshal cfg spec = do text ← marshal cfg; ok (record spec { config = text })

module _ (is_zero crit_is_zero : Endpoint → Bool) (cluster : Cluster) where
  abbrev pub worker_endpoint : Endpoint → Result Endpoint
  worker_endpoint e =
      if crit_is_zero e
      then if is_zero cluster.control_plane_endpoint
        then err (
            wrap "waiting for cluster controller to set Cluster.Spec.ControlPlaneEndpoint"
              (requeue_after 10))
        else ok cluster.control_plane_endpoint
      else ok e

  -- reconcileWorkerClusterConfiguration up to SetConfig: each field is written from its own value
  unfoldable pub default_worker : ConfigOwner → WorkerConfiguration → Result WorkerConfiguration
  default_worker owner cfg = do
    e ← worker_endpoint cfg.control_plane_endpoint
    v ← owner_version owner
    ok (record cfg {
      control_plane_endpoint = e;
      cluster_name = or_value cfg.cluster_name cluster.name;
      cluster_domain = or_service_domain cfg.cluster_domain cluster.cluster_network;
      kubernetes_version = or_version cfg.kubernetes_version v;
    })

  -- reconcileWorkerClusterConfiguration
  unfoldable pub reconcile_worker_cluster_configuration :
      (WorkerConfiguration → Result String)
      → ConfigOwner
      → WorkerConfiguration
      → CritConfigSpec
      → Result (WorkerConfiguration × CritConfigSpec)
  reconcile_worker_cluster_configuration marshal owner cfg spec = do
    cfg' ← default_worker owner cfg
    spec' ← set_config marshal cfg' spec
    ok (cfg', spec')

  abbrev pub contains : List String → String → Bool
  contains [] match = false
  contains (s ∷ ss) match = if str_eq s match then true else contains ss match

  abbrev pub with_host : List String → String → List String
  with_host sans host = if not (contains sans host) then sans ++ host ∷ [] else sans

  -- the Cluster's host among the names, and its endpoint for none, when it has an endpoint
  abbrev pub with_cluster_host : List String → List String
  with_cluster_host sans =
      if not (is_zero cluster.control_plane_endpoint)
      then with_host sans cluster.control_plane_endpoint.host
      else sans

  abbrev pub or_cluster_endpoint : Endpoint → Endpoint
  or_cluster_endpoint e =
      if not (is_zero cluster.control_plane_endpoint) && crit_is_zero e
      then cluster.control_plane_endpoint
      else e

  abbrev pub or_blocks : (List String → String) → String → Option (List String) → String
  or_blocks join subnet none = subnet
  or_blocks join subnet (some blocks) =
      if str_eq subnet "" && not (is_empty blocks) then join blocks else subnet

  abbrev pub services_of : Option ClusterNetwork → Option (List String)
  services_of none = none
  services_of (some network) = network.services

  abbrev pub pods_of : Option ClusterNetwork → Option (List String)
  pods_of none = none
  pods_of (some network) = network.pods

  -- reconcileControlPlaneClusterConfiguration up to SetConfig; `version` is what the conversion of
  -- the owner to a Machine gives
  unfoldable pub default_control_plane :
      (List String → String)
      → Result (Option String)
      → ControlPlaneConfiguration
      → Result ControlPlaneConfiguration
  default_control_plane join version cfg = do
    v ← wrapped "cannot convert owner" version
    ok (record cfg {
      extra_sans = with_cluster_host cfg.extra_sans;
      control_plane_endpoint = or_cluster_endpoint cfg.control_plane_endpoint;
      cluster_name = or_value cfg.cluster_name cluster.name;
      cluster_domain = or_service_domain cfg.cluster_domain cluster.cluster_network;
      service_subnet = or_blocks join cfg.service_subnet (services_of cluster.cluster_network);
      pod_subnet = or_blocks join cfg.pod_subnet (pods_of cluster.cluster_network);
      kubernetes_version = or_version cfg.kubernetes_version v;
    })

  -- reconcileControlPlaneClusterConfiguration
  unfoldable pub reconcile_control_plane_cluster_configuration :
      (List String → String)
      → (ControlPlaneConfiguration → Result String)
      → ConfigOwner
      → ControlPlaneConfiguration
      → CritConfigSpec
      → Result (ControlPlaneConfiguration × CritConfigSpec)
  reconcile_control_plane_cluster_configuration join marshal owner cfg spec = do
    cfg' ← default_control_plane join owner.version cfg
    spec' ← set_config marshal cfg' spec
    ok (cfg', spec')
