-- ===== src/Tests/Bootstraps.antt =====
-- The theorems on the bootstrap reconciler, at concrete inputs.
use cluster_api_bootstrap_pr.Prelude.{
  String, Bool, false, none, some, List, [], ◌∷◌, ◌++◌, ok, ◌≡◌, refl, ◌&&◌, str_eq, ◌==◌,
}
use cluster_api_bootstrap_pr.Prelude.Dict.{lookup}
use cluster_api_bootstrap_pr.Api.{Endpoint, CritConfig, File}
use cluster_api_bootstrap_pr.Secret.Store.{ObjectKey, Secret}
use cluster_api_bootstrap_pr.Secret.Certificates.{
  KeyPair, Certificates, cluster_ca, secret_key, secret_name, secret_to_key_pair,
  lookup_certificates, lookup_certificate, ensure_all_exist, new_certificates_for_worker,
}
use cluster_api_bootstrap_pr.Bootstrap.Defaults.{
  WorkerConfiguration, ControlPlaneConfiguration, ConfigOwner,
}
use cluster_api_bootstrap_pr.Bootstrap.Store.{store_bootstrap_data}
use cluster_api_bootstrap_pr.Bootstrap.Store.Kept.{HasKept, store_bootstrap_data_lem}
use cluster_api_bootstrap_pr.Bootstrap.Worker.{reconcile_worker_certificates, worker_files}
use cluster_api_bootstrap_pr.Bootstrap.Worker.Public.{
  ca_file, ca_path, ca_certificate, worker_files_lem,
}
use cluster_api_bootstrap_pr.Tests.Samples.{cluster, config_spec}
use cluster_api_bootstrap_pr.Tests.Stores.{store}

abbrev pub is_zero : Endpoint → Bool
is_zero e = str_eq e.host "" && (e.port == 0)

abbrev pub owner : ConfigOwner
owner = record {
  kind = "Machine";
  namespace_of = "default";
  cluster_name = "c";
  version = ok (some "v1");
  infrastructure_ready = false;
  is_control_plane_machine = false;
  data_secret_name = none;
}

abbrev pub worker : WorkerConfiguration
worker = record {
  control_plane_endpoint = record { host = ""; port = 0 };
  cluster_name = "";
  kube_dir = "/etc/kubernetes";
  cluster_domain = "";
  kubernetes_version = "";
  bootstrap_token = "";
}

abbrev pub defaulted_worker : WorkerConfiguration
defaulted_worker = record worker {
  control_plane_endpoint = record { host = "10.0.0.1"; port = 6443 };
  cluster_name = "c";
  kubernetes_version = "v1";
}

abbrev pub join : List String → String
join parts = "/etc/kubernetes/pki/ca.crt"

abbrev pub control : ControlPlaneConfiguration
control = record {
  control_plane_endpoint = record { host = ""; port = 0 };
  cluster_name = "";
  kube_dir = "/etc/kubernetes";
  cluster_domain = "";
  kubernetes_version = "v2";
  extra_sans = [];
  service_subnet = "";
  pod_subnet = "";
}

abbrev pub config : CritConfig
config = record {
  name = "w-1";
  namespace_of = "default";
  uid = "9";
  labels = [];
  owner_references = [];
  spec = config_spec;
  status = record {
    ready = false;
    data_secret_name = none;
    failure_reason = "";
    failure_message = "";
  };
}

abbrev pub bootstrap_version : String
bootstrap_version = "bootstrap.cluster.x-k8s.io/v1alpha2"

store_bootstrap_data_lem_example :
    HasKept store bootstrap_version config cluster "cloud-config" []
      (store_bootstrap_data store bootstrap_version config cluster "cloud-config" [])
store_bootstrap_data_lem_example =
    store_bootstrap_data_lem store bootstrap_version config cluster "cloud-config" []

abbrev key : ObjectKey
key = record { namespace_of = "default"; name = "c" }

abbrev pub ca_secret : Secret
ca_secret = record {
  key = record { namespace_of = "default"; name = "c-ca" };
  labels = [];
  owner_references = [];
  type_of = "";
  content = ("tls.key", "KEY") ∷ ("tls.crt", "CERT") ∷ [];
}

abbrev pair : KeyPair
pair = record { cert = "CERT"; key = "KEY" }

abbrev pub has_suffix : String → String → Bool
has_suffix s t = str_eq s "/etc/kubernetes/pki/ca.crt"

abbrev certificates : Certificates
certificates = ca_certificate store key join "/etc/kubernetes" (ca_secret ∷ []) pair ∷ []

certificates_read :
    reconcile_worker_certificates store key join "/etc/kubernetes" (ca_secret ∷ [])
    ≡ ok certificates
unfolding reconcile_worker_certificates lookup_certificates lookup_certificate
    new_certificates_for_worker ensure_all_exist secret_key secret_name secret_to_key_pair lookup
certificates_read = refl

abbrev config_file : File
config_file = record {
  path = "/var/lib/crit/config.yaml";
  owner = "root:root";
  permissions = "0640";
  encoding = "base64";
  content = "";
}

worker_files_lem_example :
    (s : Secret) × (kp : KeyPair) × (store.get (secret_key key cluster_ca) (ca_secret ∷ []) ≡ ok s)
    × (secret_to_key_pair s ≡ ok kp)
    × (worker_files has_suffix config_spec config_file certificates
        ≡ ok (
            (config_spec.files ++ config_file ∷ [])
            ++ ca_file (ca_path store key join "/etc/kubernetes" (ca_secret ∷ [])) kp ∷ []))
worker_files_lem_example =
    worker_files_lem store key join "/etc/kubernetes" (ca_secret ∷ []) has_suffix config_spec
      config_file certificates refl refl certificates_read
