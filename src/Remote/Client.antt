-- ===== src/Remote/Client.antt =====
-- internal/remote/cluster.go. The kubeconfig Secret, clientcmd and client.New are parameters.
use cluster_api_bootstrap_pr.Prelude.{Result, ◌>>=◌}
use cluster_api_bootstrap_pr.Secret.Store.{ObjectKey}
use cluster_api_bootstrap_pr.Management.Cluster.{wrapped}

module _ {KubeConfig RestConfig Client : Type 0} (from_secret : ObjectKey → Result KubeConfig)
    (rest_config_from : KubeConfig → Result RestConfig)
    (new_client : RestConfig → Result Client) where
  -- RESTConfig
  unfoldable pub rest_config : ObjectKey → Result RestConfig
  rest_config cluster = do
    kube_config ← wrapped "failed to retrieve kubeconfig secret for Cluster" (from_secret cluster)
    wrapped "failed to create REST configuration for Cluster" (rest_config_from kube_config)

  -- NewClusterClient
  unfoldable pub new_cluster_client : ObjectKey → Result Client
  new_cluster_client cluster = do
    config ← rest_config cluster
    wrapped "failed to create client for Cluster" (new_client config)
