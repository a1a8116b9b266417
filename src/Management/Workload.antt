-- ===== src/Management/Workload.antt =====
-- internal/workload_cluster.go. What the client of the workload cluster answers, and
-- util.IsNodeReady, are parameters.
use Prim.Native.String.{◌++◌ as concat}
use cluster_api_bootstrap_pr.Prelude.{
  ℕ, suc, String, Bool, true, false, not, Option, none, some, List, [], ◌∷◌, Result, ok, err, Error,
  errorf, str_eq, if◌then◌else◌, ◌>>=◌, ◌&&◌,
}
use cluster_api_bootstrap_pr.Prelude.Dict.{insert}

pub record Taint : Type 0 where
  pub key : String
  pub effect : String

pub record Node : Type 0 where
  pub name : String
  pub taints : List Taint

pub record Condition : Type 0 where
  pub type_of : String
  pub status : String

pub record Pod : Type 0 where
  pub namespace_of : String
  pub name : String
  pub conditions : List Condition

-- HealthCheckResult: the nodes that were checked, each with the error of its check
abbrev pub HealthCheckResult : Type 0
HealthCheckResult = List (String × Option Error)

-- corev1.PodReady, corev1.ConditionTrue, corev1.TaintNodeUnreachable, corev1.TaintEffectNoExecute
abbrev pub pod_ready : String
pod_ready = "Ready"

abbrev pub condition_true : String
condition_true = "True"

abbrev pub taint_node_unreachable : String
taint_node_unreachable = "node.kubernetes.io/unreachable"

abbrev pub taint_effect_no_execute : String
taint_effect_no_execute = "NoExecute"

unfoldable pub static_pod_name : String → String → String
static_pod_name component node_name = concat component (concat "-" node_name)

-- the loop of checkStaticPodReadyCondition
unfoldable pub check_conditions : Bool → List Condition → Option Error
check_conditions found [] =
    if found then none else some (errorf "pod does not have ready condition")
check_conditions found (c ∷ cs) =
    let later = check_conditions (if str_eq c.type_of pod_ready then true else found) cs in
    if str_eq c.type_of pod_ready && not (str_eq c.status condition_true)
    then some (errorf "static pod is not ready")
    else later

unfoldable pub check_static_pod_ready_condition : Pod → Option Error
check_static_pod_ready_condition pod = check_conditions false pod.conditions

-- the loop of checkNodeNoExecuteCondition
unfoldable pub check_taints : List Taint → Option Error
check_taints [] = none
check_taints (t ∷ taints) =
    if str_eq t.key taint_node_unreachable && str_eq t.effect taint_effect_no_execute
    then some (errorf "node has NoExecute taint")
    else check_taints taints

unfoldable pub check_node_no_execute_condition : Node → Option Error
check_node_no_execute_condition node = check_taints node.taints

module _ (get_pod : String → String → Result Pod) where
  abbrev pub static_pod : String → String → Result Pod
  static_pod component name = get_pod "kube-system" (static_pod_name component name)

  -- the part of the round for the controller manager's pod
  abbrev pub check_controller_manager : String → Result Pod → HealthCheckResult → HealthCheckResult
  check_controller_manager name (err e) response = insert name (some e) response
  check_controller_manager name (ok pod) response =
      insert name (check_static_pod_ready_condition pod) response

  -- the part of the round for the API server's pod, and what follows it
  abbrev pub check_api_server : String → Result Pod → HealthCheckResult → HealthCheckResult
  check_api_server name (err e) response = insert name (some e) response
  check_api_server name (ok pod) response =
      check_controller_manager name (static_pod "kube-controller-manager" name)
        (insert name (check_static_pod_ready_condition pod) response)

  abbrev pub check_reachable : String → Option Error → HealthCheckResult → HealthCheckResult
  check_reachable name (some e) response = insert name (some e) response
  check_reachable name none response =
      check_api_server name (static_pod "kube-apiserver" name) response

  -- one round of the loop of ControlPlaneIsHealthy, each assignment to `response[name]` included
  unfoldable pub check_node : Node → HealthCheckResult → HealthCheckResult
  check_node node response =
      check_reachable node.name (check_node_no_execute_condition node)
        (insert node.name none response)

  unfoldable pub check_nodes : List Node → HealthCheckResult → HealthCheckResult
  check_nodes [] response = response
  check_nodes (node ∷ nodes) response = check_nodes nodes (check_node node response)

  -- ControlPlaneIsHealthy; the argument is what getControlPlaneNodes returned
  unfoldable pub control_plane_is_healthy : Result (List Node) → Result HealthCheckResult
  control_plane_is_healthy listed = do nodes ← listed; ok (check_nodes nodes [])

-- ClusterStatus; counts are int32, far above any number of nodes
pub record ClusterStatus : Type 0 where
  pub nodes : ℕ
  pub ready_nodes : ℕ

module _ (is_node_ready : Node → Bool) where
  unfoldable pub count_nodes : ClusterStatus → List Node → ClusterStatus
  count_nodes status [] = status
  count_nodes status (node ∷ nodes) =
      count_nodes
        (record {
          nodes = suc status.nodes;
          ready_nodes = if is_node_ready node then suc status.ready_nodes else status.ready_nodes;
        })
        nodes

  -- the method ClusterStatus
  unfoldable pub cluster_status : Result (List Node) → Result ClusterStatus
  cluster_status listed = do
    nodes ← listed
    ok (count_nodes (record { nodes = 0; ready_nodes = 0 }) nodes)
