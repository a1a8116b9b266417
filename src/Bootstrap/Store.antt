-- ===== src/Bootstrap/Store.antt =====
-- controllers/bootstrap/helpers.go: the Secret with the bootstrap data of a CritConfig.
pub mod Kept
use cluster_api_bootstrap_pr.Prelude.{
  String, Bool, true, Option, none, some, List, [], ◌∷◌, Error, wrap, is_already_exists,
  if◌then◌else◌,
}
use cluster_api_bootstrap_pr.Api.{Cluster, CritConfig}
use cluster_api_bootstrap_pr.Machines.Filters.{cluster_label_name}
use cluster_api_bootstrap_pr.Secret.Store.{Secret, SecretClient}

-- the Secret; `version` is the text of the API's group version
unfoldable pub bootstrap_secret : String → CritConfig → Cluster → String → Secret
bootstrap_secret version config cluster text = record {
  key = record { namespace_of = config.namespace_of; name = config.name };
  labels = (cluster_label_name, cluster.name) ∷ [];
  owner_references =
      record {
        api_version = version;
        kind = "CritConfig";
        name = config.name;
        uid = config.uid;
        controller = true;
      }
      ∷ [];
  type_of = "";
  content = ("value", text) ∷ [];
}

-- the reference to the Secret and the mark that it is ready
abbrev pub with_data : CritConfig → String → CritConfig
with_data config name = record config {
  status = record config.status { data_secret_name = some name; ready = true };
}

abbrev pub created_step :
    {W : Type 0} → CritConfig → String → Option Error × W → Option Error × CritConfig × W
created_step config name (none, w) = (none, with_data config name, w)
created_step config name (some e, w) =
    if is_already_exists e
    then (none, config, w)
    else (some (wrap "failed to create kubeconfig secret for CritConfig" e), config, w)

-- storeBootstrapData: the error, the configuration as it is left, and the store
unfoldable pub store_bootstrap_data :
    {W : Type 0}
    → SecretClient W
    → String
    → CritConfig
    → Cluster
    → String
    → W
    → Option Error × CritConfig × W
store_bootstrap_data client version config cluster text w =
    let secret = bootstrap_secret version config cluster text in
    created_step config secret.key.name (client.create secret w)
