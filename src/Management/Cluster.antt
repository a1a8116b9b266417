-- ===== src/Management/Cluster.antt =====
-- internal/cluster.go. The API server's answers, the client constructor and the certificate
-- library are parameters.
use Prim.Native.String.{◌++◌ as concat}
use cluster_api_bootstrap_pr.Prelude.{
  String, Option, none, some, List, [], ◌∷◌, ◌++◌, Result, ok, err, Error, errorf, wrap,
  new_aggregate, if◌then◌else◌, ◌>>=◌, ◌==◌, length, is_some,
}
use cluster_api_bootstrap_pr.Prelude.Dict.{lookup, values}
use cluster_api_bootstrap_pr.Api.{Machine}
use cluster_api_bootstrap_pr.Machines.Filters.{Filter, owned_control_plane_machines}
use cluster_api_bootstrap_pr.Machines.Collection.{Collection, filter, new_from_machine_list}
use cluster_api_bootstrap_pr.Secret.Store.{ObjectKey, Secret}
use cluster_api_bootstrap_pr.Secret.Certificates.{tls_crt_data_name, tls_key_data_name}
use cluster_api_bootstrap_pr.Management.Workload.{HealthCheckResult}

-- GetMachinesForCluster. `listed` is what the API server lists in the cluster's namespace under the
-- cluster's label.
unfoldable pub get_machines_for_cluster : Result (List Machine) → List Filter → Result Collection
get_machines_for_cluster (err e) filters = err (wrap "failed to list machines" e)
get_machines_for_cluster (ok ml) filters = ok (filter filters (new_from_machine_list ml))

-- Workload
pub record WorkloadClient (Client TlsConfig : Type 0) : Type 0 where
  pub client : Client
  pub etcd : TlsConfig

abbrev pub required : Option String → String → Result String
required none message = err (errorf message)
required (some v) message = ok v

abbrev pub wrapped {ℓ} : {A : Type ℓ} → String → Result A → Result A
wrapped message (ok a) = ok a
wrapped message (err e) = err (wrap message e)

module _ {RestConfig Client Cert TlsConfig : Type 0} (rest_config : ObjectKey → Result RestConfig)
    (with_timeout : RestConfig → RestConfig) (new_client : RestConfig → Result Client)
    (get_secret : ObjectKey → Result Secret) (generate_client_cert : String → String → Result Cert)
    (tls_config : String → Cert → TlsConfig) where
  -- GetWorkloadCluster
  unfoldable pub get_workload_cluster : ObjectKey → Result (WorkloadClient Client TlsConfig)
  get_workload_cluster cluster_key = do
    config ← rest_config cluster_key
    c ← wrapped "failed to create client for workload cluster" (new_client (with_timeout config))
    secret ←
        wrapped "failed to get secret; etcd CA bundle"
          (get_secret (record cluster_key { name = concat cluster_key.name "-etcd" }))
    ca_cert_data ←
        required (lookup tls_crt_data_name secret.content) "etcd tls crt does not exist for cluster"
    ca_key_data ←
        required (lookup tls_key_data_name secret.content) "etcd tls key does not exist for cluster"
    client_cert ← generate_client_cert ca_cert_data ca_key_data
    ok (record { client = c; etcd = tls_config ca_cert_data client_cert })

-- the errors that the loop over `nodeChecks` collects
unfoldable pub node_errors : HealthCheckResult → List Error
node_errors [] = []
node_errors ((name, none) ∷ checks) = node_errors checks
node_errors ((name, some e) ∷ checks) = errorf (concat "node " name) ∷ node_errors checks

-- `nodeChecks` after the call of the check: nil when it failed
abbrev pub checks_of : Result HealthCheckResult → HealthCheckResult
checks_of (ok checks) = checks
checks_of (err e) = []

abbrev pub check_errors : Result HealthCheckResult → List Error
check_errors (ok checks) = []
check_errors (err e) = e ∷ []

-- one round of the loop over the machines
abbrev pub match_node : HealthCheckResult → Option String → Option Error
match_node checks none = some (errorf "control plane machine has no status.nodeRef")
match_node checks (some name) =
    if is_some (lookup name checks) then none else some (errorf "machine's node was not checked")

unfoldable pub match_machines : HealthCheckResult → List Machine → Option Error
match_machines checks [] = none
match_machines checks (m ∷ ms) = elim (match_node checks m.node_ref) [
  | none ↦ match_machines checks ms
  | some e ↦ some e
]

abbrev pub compare_sizes : HealthCheckResult → Collection → Option Error
compare_sizes checks machines =
    if length checks == length machines
    then none
    else some (errorf "number of nodes and machines did not match")

abbrev pub match_all : HealthCheckResult → Result Collection → Option Error
match_all checks (err e) = some e
match_all checks (ok machines) = elim (match_machines checks (values machines)) [
  | some e ↦ some e
  | none ↦ compare_sizes checks machines
]

-- healthCheck
unfoldable pub health_check :
    Result HealthCheckResult → Result (List Machine) → String → Option Error
health_check checked listed control_plane_name =
    elim (new_aggregate (check_errors checked ++ node_errors (checks_of checked))) [
      | some e ↦ some e
      | none ↦
          match_all (checks_of checked)
            (get_machines_for_cluster listed (owned_control_plane_machines control_plane_name ∷ []))
    ]

-- TargetClusterControlPlaneIsHealthy, with the workload cluster that GetWorkloadCluster returned
-- and the health check of that cluster
unfoldable pub target_cluster_control_plane_is_healthy :
    {A : Type 0}
    → Result A
    → (A → Result HealthCheckResult)
    → Result (List Machine)
    → String
    → Option Error
target_cluster_control_plane_is_healthy (err e) check listed name = some e
target_cluster_control_plane_is_healthy (ok cluster) check listed name =
    health_check (check cluster) listed name
