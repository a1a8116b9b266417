-- ===== src/Conversion/Fresh.antt =====
-- The values that `new(T)` and `make([]T, n)` start from, of the types in apis/bootstrap and
-- apis/controlplane.
use cluster_api_bootstrap_pr.Prelude.{false, none, [], pos}
use cluster_api_bootstrap_pr.Api.{CritConfigSpec, CritConfig, CritConfigTemplate, CritControlPlane}
use cluster_api_bootstrap_pr.Api.V1alpha1

abbrev pub new_crit_config_spec : CritConfigSpec
new_crit_config_spec = record {
  config = "";
  files = [];
  pre_crit_commands = [];
  post_crit_commands = [];
  users = [];
  ntp = none;
  format = "";
  verbosity = false;
}

abbrev pub new_crit_config : CritConfig
new_crit_config = record {
  name = "";
  namespace_of = "";
  uid = "";
  labels = [];
  owner_references = [];
  spec = new_crit_config_spec;
  status = record {
    ready = false;
    data_secret_name = none;
    failure_reason = "";
    failure_message = "";
  };
}

abbrev pub new_crit_config_template : CritConfigTemplate
new_crit_config_template = record {
  name = "";
  namespace_of = "";
  uid = "";
  labels = [];
  owner_references = [];
  spec = record { template = record { spec = new_crit_config_spec } };
}

abbrev pub new_crit_control_plane : CritControlPlane
new_crit_control_plane = record {
  name = "";
  namespace_of = "";
  uid = "";
  finalizers = [];
  deletion_timestamp = none;
  spec = record {
    replicas = 0;
    version = "";
    infrastructure_template = record {
      api_version = "";
      kind = "";
      namespace_of = "";
      name = "";
      uid = "";
    };
    crit_config_spec = new_crit_config_spec;
  };
  status = record {
    selector = "";
    replicas = 0;
    updated_replicas = 0;
    ready_replicas = 0;
    unavailable_replicas = pos 0;
    initialized = false;
    ready = false;
    failure_reason = "";
    failure_message = none;
  };
}

abbrev pub new_v1alpha1_crit_config_spec : {A B : Type 0} → V1alpha1.CritConfigSpec A B
new_v1alpha1_crit_config_spec = record {
  control_plane_configuration = none;
  worker_configuration = none;
  files = [];
  pre_crit_commands = [];
  post_crit_commands = [];
  users = [];
  ntp = none;
  format = "";
  verbosity = false;
}

abbrev pub new_v1alpha1_crit_config : {A B : Type 0} → V1alpha1.CritConfig A B
new_v1alpha1_crit_config = record {
  name = "";
  namespace_of = "";
  uid = "";
  labels = [];
  owner_references = [];
  spec = new_v1alpha1_crit_config_spec;
  status = record {
    ready = false;
    data_secret_name = none;
    failure_reason = "";
    failure_message = "";
  };
}

abbrev pub new_v1alpha1_crit_config_template : {A B : Type 0} → V1alpha1.CritConfigTemplate A B
new_v1alpha1_crit_config_template = record {
  name = "";
  namespace_of = "";
  uid = "";
  labels = [];
  owner_references = [];
  spec = record { template = record { spec = new_v1alpha1_crit_config_spec } };
}

abbrev pub new_v1alpha1_crit_control_plane : {A B : Type 0} → V1alpha1.CritControlPlane A B
new_v1alpha1_crit_control_plane = record {
  name = "";
  namespace_of = "";
  uid = "";
  finalizers = [];
  deletion_timestamp = none;
  spec = record {
    replicas = 0;
    version = "";
    infrastructure_template = record {
      api_version = "";
      kind = "";
      namespace_of = "";
      name = "";
      uid = "";
    };
    crit_config_spec = new_v1alpha1_crit_config_spec;
  };
  status = record {
    selector = "";
    replicas = 0;
    updated_replicas = 0;
    ready_replicas = 0;
    unavailable_replicas = pos 0;
    initialized = false;
    ready = false;
    failure_reason = "";
    failure_message = none;
  };
}
