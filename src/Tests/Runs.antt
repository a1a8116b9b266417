-- ===== src/Tests/Runs.antt =====
-- Answers of the API server and of the libraries to run the reconciler on.
use Prim.Native.String.{◌++◌ as concat}
use cluster_api_bootstrap_pr.Prelude.{true, false, none, some, List, [], ◌∷◌, ok, errorf, str_eq}
use cluster_api_bootstrap_pr.Secret.Store.{Secret}
use cluster_api_bootstrap_pr.Secret.Certificates.{KeyPair}
use cluster_api_bootstrap_pr.Management.Workload.{Node}
use cluster_api_bootstrap_pr.Controller.Environment.{Answers}
use cluster_api_bootstrap_pr.Controller.Status.{Observed}
use cluster_api_bootstrap_pr.Controller.Reconcile.{Services}
use cluster_api_bootstrap_pr.Controller.Dispatch.{Requests}
use cluster_api_bootstrap_pr.Tests.Samples.{machines, ccp, cluster}
use cluster_api_bootstrap_pr.Tests.Stores.{store}

-- Every call succeeds.
abbrev pub answers : Answers
answers = record {
  health = λ tr. none;
  delete_machine = λ tr m. none;
  create_machine = λ tr m. none;
  update_machine = λ tr m. none;
  clone_template = λ tr ref. ok (record ref { name = "infra-1" });
  create_config = λ tr config. ok "7";
  delete_reference = λ tr ref. none;
  generate_name = λ tr prefix. concat prefix "x";
  controller_of = λ m. none;
  control_plane_version = "controlplane.cluster.x-k8s.io/v1alpha2";
  bootstrap_version = "bootstrap.cluster.x-k8s.io/v1alpha2";
}

-- The creation of a Machine fails.
abbrev pub failing : Answers
failing = record answers { create_machine = λ tr m. some (errorf "refused") }

abbrev pub key_pair : KeyPair
key_pair = record { cert = "CERT"; key = "KEY" }

abbrev pub kubeconfig_secret : Secret
kubeconfig_secret = record {
  key = record { namespace_of = "default"; name = "c-kubeconfig" };
  labels = [];
  owner_references = [];
  type_of = "cluster.x-k8s.io/secret";
  content = [];
}

abbrev pub services : Services (List Secret)
services = record {
  secrets = store;
  ca_cert = λ p. ok key_pair;
  service_account_keys = λ p. ok key_pair;
  template_suffix = "Template";
  join = λ parts. "/etc/kubernetes/pki";
  has_suffix = λ s t. true;
  get_external = λ tr ref. ok [];
  new_helper = λ tr ref. none;
  ensure_owner_ref = λ refs ref. ref ∷ refs;
  patch_external = λ tr ref. none;
  cluster_version = "cluster.x-k8s.io/v1alpha3";
  create_kubeconfig = λ key endpoint owner w. (none, kubeconfig_secret ∷ w);
  is_dependent_certificate_not_found = λ e. false;
  endpoint_is_zero = λ e. str_eq e.host "";
  endpoint_string = λ e. e.host;
  add_finalizer = λ f fs. f ∷ fs;
  listed = λ tr. ok machines;
  cluster_nodes = λ tr. ok 4;
}

abbrev pub node : Node
node = record { name = "m1"; taints = [] }

abbrev pub observed : Observed
observed = record {
  listed = ok machines;
  remote_client = none;
  nodes = ok (node ∷ []);
  config_map = none;
}

abbrev pub requests : Requests
requests = record {
  get = ok ccp;
  owner_cluster = λ c. ok (some cluster);
  is_paused = λ c k. false;
  new_patch_helper = λ c. none;
  patch = λ tr c. none;
  unmarshal = λ s. ok (some "/etc/kubernetes");
  remove_finalizer = λ f fs. [];
  selector_string = λ labels. ok "labels";
  is_node_ready = λ n. true;
  observed = λ tr. observed;
}
