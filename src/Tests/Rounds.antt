-- ===== src/Tests/Rounds.antt =====
-- The theorems on whole rounds of the reconciler, on its status and on health, at concrete inputs.
use cluster_api_bootstrap_pr.Prelude.{
  ◌≤◌, String, true, false, none, some, List, [], ◌∷◌, ◌++◌, Result, ok, ◌≡◌, ◌≢◌, ◌⊎◌, ◌↔◌, refl,
  Memᴰ, All, map, count, str_eq, if◌then◌else◌,
}
use Prim.Native.String.{◌++◌ as concat}
use cluster_api_bootstrap_pr.Prelude.Dict.{values, lookup, insert}
use cluster_api_bootstrap_pr.Machines.Filters.{owned_control_plane_machines, and_filter}
use cluster_api_bootstrap_pr.Machines.Collection.{
  filter, new_from_machine_list, filter_into, insert_machines,
}
use cluster_api_bootstrap_pr.Secret.Store.{Secret}
use cluster_api_bootstrap_pr.Management.Workload.{
  HealthCheckResult, Pod, check_node, check_node_no_execute_condition, check_taints,
  check_static_pod_ready_condition, static_pod_name,
}
use cluster_api_bootstrap_pr.Management.Cluster.{health_check, get_machines_for_cluster}
use cluster_api_bootstrap_pr.Management.Health.{IsHealthy, health_check_iff}
use cluster_api_bootstrap_pr.Management.Masking.{api_server_check_lost}
use cluster_api_bootstrap_pr.Controller.Environment.{Call, no_requeue}
use cluster_api_bootstrap_pr.Controller.Deletion.{Reconciled, machines_to_delete, reconcile_delete}
use cluster_api_bootstrap_pr.Controller.Deletion.Guard.{
  machines_of, owned_of, reconcile_delete-guarded,
}
use cluster_api_bootstrap_pr.Controller.Scaling.{health_failed}
use cluster_api_bootstrap_pr.Controller.Scaling.Deletions.{is_deletion}
use cluster_api_bootstrap_pr.Controller.Status.{update_status, basic_status, node_status}
use cluster_api_bootstrap_pr.Controller.Status.Counts.{
  HasCounts, update_status-keeps, update_status-counts,
}
use cluster_api_bootstrap_pr.Controller.Reconcile.{
  Round, reconcile_control_plane, reconcile_control_plane_kubeconfig,
}
use cluster_api_bootstrap_pr.Controller.Reconcile.Deletions.{reconcile_control_plane-deletes}
use cluster_api_bootstrap_pr.Controller.Reconcile.Kubeconfig.{
  reconcile_control_plane_kubeconfig_iff,
}
use cluster_api_bootstrap_pr.Controller.Dispatch.{finish, reconcile_body, reconcile}
use cluster_api_bootstrap_pr.Controller.Dispatch.Polling.{RunsAgain, reconcile-polls}
use cluster_api_bootstrap_pr.Tests.Samples.{library, m1, machines, ccp, cluster}
use cluster_api_bootstrap_pr.Tests.Runs.{answers, services, requests, observed, node}

reconcile_control_plane-deletes_example :
    count is_deletion
      (reconcile_control_plane library answers services cluster ccp "/etc/kubernetes" [] []).trace
    ≤ 1
reconcile_control_plane-deletes_example =
    reconcile_control_plane-deletes library answers services cluster ccp "/etc/kubernetes" [] []

abbrev deleted : Reconciled
deleted = reconcile_delete library.is_zero requests.remove_finalizer answers ccp (ok machines) []

still_owned : Memᴰ m1 (values (owned_of machines "cp"))
unfolding filter filter_into insert_machines and_filter new_from_machine_list
    owned_control_plane_machines insert lookup
still_owned = Memᴰ.head refl

reconcile_delete-guarded_example :
    (deleted.ccp ≡ ccp)
    × (deleted.outcome.1 ≢ none)
    × ((deleted.trace ≡ [])
        ⊎ ((deleted.trace
              ≡ []
                ++ map Call.delete_machine (
                    values (
                      machines_to_delete library.is_zero requests.remove_finalizer answers
                        (owned_of machines "cp"))))
            × All
                (λ x. owned_control_plane_machines "cp" (some x) ≡ true)
                (values (machines_of machines))))
reconcile_delete-guarded_example =
    reconcile_delete-guarded library.is_zero requests.remove_finalizer answers ccp machines [] m1
      still_owned

abbrev polled : Round (List Secret)
polled =
    finish library answers services requests cluster
      (reconcile_body library answers services requests cluster ccp [] [])

reconcile-polls_example :
    (reconcile library answers services requests [] [] ≡ (polled.outcome, some polled))
    × ((library.is_zero polled.ccp.deletion_timestamp ≡ false)
        ⊎ ((polled.ccp.status.ready ≡ true) ⊎ RunsAgain polled.outcome))
reconcile-polls_example =
    reconcile-polls library answers services requests [] [] ccp cluster refl refl refl refl refl

abbrev unhealthy : Round (List Secret)
unhealthy = record { ccp = ccp; store = []; trace = []; outcome = (no_requeue, some health_failed) }

status_updated :
    (update_status library requests.selector_string requests.is_node_ready observed ccp cluster).0
    ≡ none
unfolding update_status basic_status node_status get_machines_for_cluster
status_updated = refl

reconcile_control_plane_kubeconfig_iff_example :
    ((reconcile_control_plane_kubeconfig library answers services cluster ccp []).0 ≡ none) ↔ (
      (secret : Secret) × (services.secrets.get
          (record { namespace_of = cluster.namespace_of; name = concat cluster.name "-kubeconfig" })
          []
        ≡ ok secret)
      × ((reconcile_control_plane_kubeconfig library answers services cluster ccp []).1 ≡ []))
reconcile_control_plane_kubeconfig_iff_example =
    reconcile_control_plane_kubeconfig_iff library answers services cluster ccp []

update_status-keeps_example :
    let after =
      (update_status library requests.selector_string requests.is_node_ready observed ccp
        cluster).1 in
    (after ≡ record ccp { status = after.status })
    × ((ccp.status.initialized ≡ false) ⊎ (after.status.initialized ≡ true))
update_status-keeps_example =
    update_status-keeps library requests.selector_string requests.is_node_ready observed ccp cluster

update_status-counts_example :
    HasCounts library requests.is_node_ready observed ccp
      (update_status library requests.selector_string requests.is_node_ready observed ccp
        cluster).1.status
update_status-counts_example =
    update_status-counts library requests.selector_string requests.is_node_ready observed ccp
      cluster status_updated

abbrev checks : HealthCheckResult
checks = ("m1", none) ∷ ("m2", none) ∷ ("m3", none) ∷ []

health_check_iff_example :
    (health_check (ok checks) (ok machines) "cp" ≡ none) ↔ IsHealthy (ok checks) (ok machines) "cp"
health_check_iff_example = health_check_iff (ok checks) (ok machines) "cp"

abbrev pod : String → String → Pod
pod name status = record {
  namespace_of = "kube-system";
  name = name;
  conditions = record { type_of = "Ready"; status = status } ∷ [];
}

-- The API server's pod is not ready, the controller manager's is.
abbrev get_pod : String → String → Result Pod
get_pod namespace name = ok (pod name (if str_eq name "kube-apiserver-m1" then "False" else "True"))

api_server_check_lost_example :
    lookup "m1" (check_node get_pod node [])
    ≡ some (check_static_pod_ready_condition (pod "kube-controller-manager-m1" "True"))
unfolding check_node_no_execute_condition check_taints static_pod_name
api_server_check_lost_example =
    api_server_check_lost get_pod node [] (pod "kube-apiserver-m1" "False")
      (pod "kube-controller-manager-m1" "True") refl refl refl
