-- ===== src/Management/Masking.antt =====
-- The check of the API server's pod and the check of the controller manager's pod of a node.
use cluster_api_bootstrap_pr.Prelude.{String, none, some, Result, ok, ◌≡◌, eq_refl}
use cluster_api_bootstrap_pr.Prelude.Dict.{lookup, lookup-insert}
use cluster_api_bootstrap_pr.Management.Workload.{
  Node, Pod, HealthCheckResult, static_pod, check_node, check_node_no_execute_condition,
  check_static_pod_ready_condition,
}

-- For a node without the NoExecute taint whose two static pods can be read, the error recorded is
-- that of the controller manager's pod alone: an API server pod that is not ready leaves no trace.
pub api_server_check_lost :
    (get_pod : String → String → Result Pod) (node : Node) (response : HealthCheckResult)
    (api_server controller_manager : Pod)
    → check_node_no_execute_condition node ≡ none
    → static_pod get_pod "kube-apiserver" node.name ≡ ok api_server
    → static_pod get_pod "kube-controller-manager" node.name ≡ ok controller_manager
    → lookup node.name (check_node get_pod node response)
      ≡ some (check_static_pod_ready_condition controller_manager)
unfolding check_node
api_server_check_lost get_pod node response a c t p q = rw (t, p, q) (rw (lookup-insert, eq_refl))
