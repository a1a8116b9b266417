-- ===== src/Controller/Status.antt =====
-- controllers/controlplane/status.go. The text of a label selector, the remote client's answers and
-- util.IsNodeReady are parameters.
pub mod Counts
use cluster_api_bootstrap_pr.Prelude.{
  ℕ, String, Bool, true, false, not, Option, none, some, List, [], ◌∷◌, Result, ok, err, Error,
  wrap, if◌then◌else◌, length, count, sub_ℕ, ◌==◌,
}
use cluster_api_bootstrap_pr.Api.{
  Machine, Cluster, CritControlPlane, CritControlPlaneStatus, ObjectReference, CritConfigSpec,
  spec_hash,
}
use cluster_api_bootstrap_pr.Machines.Filters.{
  owned_control_plane_machines, matches_configuration_hash,
}
use cluster_api_bootstrap_pr.Machines.Collection.{Collection, filter}
use cluster_api_bootstrap_pr.ControlPlane.{control_plane_labels_for_cluster}
use cluster_api_bootstrap_pr.ControlPlane.Interface.{Library}
use cluster_api_bootstrap_pr.Management.Workload.{Node}
use cluster_api_bootstrap_pr.Management.Cluster.{get_machines_for_cluster, wrapped}

-- What the API server and the workload cluster answer to updateStatus: the error of the client
-- getter, the nodes with the master label, and the error of the read of ConfigMap crit-config.
pub record Observed : Type 0 where
  pub listed : Result (List Machine)
  pub remote_client : Option Error
  pub nodes : Result (List Node)
  pub config_map : Option Error

module _ (lib : Library) (selector_string : List (String × String) → Result String)
    (is_node_ready : Node → Bool) (seen : Observed) where
  abbrev pub with_status : CritControlPlane → CritControlPlaneStatus → CritControlPlane
  with_status ccp status = record ccp { status = status }

  -- the counts that need no workload cluster
  unfoldable pub basic_status : CritControlPlane → Collection → CritControlPlane
  basic_status ccp owned =
      let current =
        filter (matches_configuration_hash (spec_hash lib.deep_hash ccp.spec) ∷ []) owned in
      with_status ccp (record ccp.status {
        updated_replicas = length current;
        replicas = length owned;
        ready_replicas = 0;
        unavailable_replicas = sub_ℕ (length owned) 0;
      })

  abbrev pub initialized_after : Bool → Option Error → Bool
  initialized_after true config_map = true
  initialized_after false none = true
  initialized_after false (some e) = false

  -- the end of updateStatus, when the nodes are known
  unfoldable pub node_status : CritControlPlane → List Node → CritControlPlane
  node_status ccp nodes =
      let ready_machines = count is_node_ready nodes in
      with_status ccp (record ccp.status {
        ready_replicas = ready_machines;
        unavailable_replicas = sub_ℕ ccp.status.replicas ready_machines;
        initialized = initialized_after ccp.status.initialized seen.config_map;
        ready = not (ready_machines == 0);
      })

  abbrev pub nodes_step : CritControlPlane → Result (List Node) → Option Error × CritControlPlane
  nodes_step ccp (err e) = (some e, ccp)
  nodes_step ccp (ok nodes) = (none, node_status ccp nodes)

  abbrev pub remote_step : CritControlPlane → Option Error → Option Error × CritControlPlane
  remote_step ccp (some e) = (some (wrap "failed to create remote cluster client" e), ccp)
  remote_step ccp none = nodes_step ccp seen.nodes

  -- after the counts: nothing more for a resource that is being deleted
  abbrev pub counted_step : CritControlPlane → Option Error × CritControlPlane
  counted_step ccp =
      if not (lib.is_zero ccp.deletion_timestamp)
      then (none, ccp)
      else remote_step ccp seen.remote_client

  abbrev pub owned_step : CritControlPlane → Result Collection → Option Error × CritControlPlane
  owned_step ccp (err e) = (some (wrap "failed to get list of owned machines" e), ccp)
  owned_step ccp (ok owned) = counted_step (basic_status ccp owned)

  abbrev pub selector_step : CritControlPlane → Result String → Option Error × CritControlPlane
  selector_step ccp (err e) = (some (wrap "failed to parse label selector" e), ccp)
  selector_step ccp (ok selector) =
      owned_step (with_status ccp (record ccp.status { selector = selector }))
        (get_machines_for_cluster seen.listed (owned_control_plane_machines ccp.name ∷ []))

  -- updateStatus
  unfoldable pub update_status : CritControlPlane → Cluster → Option Error × CritControlPlane
  update_status ccp cluster =
      selector_step ccp (selector_string (control_plane_labels_for_cluster cluster.name ccp.name))
