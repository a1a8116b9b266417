-- ===== src/ControlPlane/Objects.antt =====
-- internal/control_plane.go: what a control plane knows of itself, and the objects that it makes for a
-- machine. The generator of names and the text of the API's group version are parameters.
use Prim.Native.String.{◌++◌ as concat}
use cluster_api_bootstrap_pr.Prelude.{String, true, false, Option, none, some, List, [], ◌∷◌}
use cluster_api_bootstrap_pr.Api.{
  Machine, Cluster, FailureDomains, CritControlPlane, ObjectReference, OwnerReference, CritConfig,
  CritConfigSpec,
}
use cluster_api_bootstrap_pr.Machines.Collection.{Collection}
use cluster_api_bootstrap_pr.ControlPlane.{
  ControlPlane, control_plane_labels_for_cluster_with_hash, hash_of,
}
use cluster_api_bootstrap_pr.ControlPlane.Interface.{Library}

-- NewControlPlane
abbrev pub new_control_plane : Cluster → CritControlPlane → Collection → ControlPlane
new_control_plane cluster ccp owned_machines = record {
  ccp = ccp;
  cluster = cluster;
  machines = owned_machines;
}

-- FailureDomains: an absent map is an empty one
abbrev pub failure_domains_of : ControlPlane → FailureDomains
failure_domains_of c = c.cluster.failure_domains

-- Version, a pointer that is never nil
abbrev pub version_of : ControlPlane → Option String
version_of c = some c.ccp.spec.version

-- InfrastructureTemplate
abbrev pub infrastructure_template_of : ControlPlane → ObjectReference
infrastructure_template_of c = c.ccp.spec.infrastructure_template

module _ (lib : Library) (api_version : String) (generate_name : String → String)
    (c : ControlPlane) where
  -- AsOwnerReference
  abbrev pub as_owner_reference : OwnerReference
  as_owner_reference = record {
    api_version = api_version;
    kind = "CritControlPlane";
    name = c.ccp.name;
    uid = c.ccp.uid;
    controller = false;
  }

  abbrev pub labels_with_hash : List (String × String)
  labels_with_hash =
      control_plane_labels_for_cluster_with_hash c.cluster.name c.ccp.name (hash_of lib c)

  -- GenerateCritConfig
  unfoldable pub control_plane_config : CritConfigSpec → CritConfig
  control_plane_config spec = record {
    name = generate_name (concat c.ccp.name "-");
    namespace_of = c.ccp.namespace_of;
    uid = "";
    labels = labels_with_hash;
    owner_references = as_owner_reference ∷ [];
    spec = spec;
    status = record {
      ready = false;
      data_secret_name = none;
      failure_reason = "";
      failure_message = "";
    };
  }

  -- NewMachine
  unfoldable pub control_plane_machine :
      ObjectReference → Option ObjectReference → Option String → Machine
  control_plane_machine infra_ref bootstrap_ref failure_domain = record {
    name = generate_name (concat c.ccp.name "-");
    namespace_of = c.ccp.namespace_of;
    labels = labels_with_hash;
    annotations = none;
    owner_references = record as_owner_reference { controller = true } ∷ [];
    creation_timestamp = 0;
    deletion_timestamp = none;
    cluster_name = c.cluster.name;
    version = version_of c;
    infrastructure_ref = infra_ref;
    config_ref = bootstrap_ref;
    failure_domain = failure_domain;
    node_ref = none;
  }
