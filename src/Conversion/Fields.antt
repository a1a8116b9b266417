-- ===== src/Conversion/Fields.antt =====
-- apis/bootstrap/v1alpha1/zz_generated.conversion.go and apis/controlplane/v1alpha1: the conversions of
-- the parts of a resource, field by field.
use cluster_api_bootstrap_pr.Prelude.{Option, none, some}
use cluster_api_bootstrap_pr.Api.{File, User, Ntp, CritConfigStatus, CritControlPlaneStatus}
use cluster_api_bootstrap_pr.Api.V1alpha1

abbrev pub file_to_v1alpha2 : V1alpha1.File → File
file_to_v1alpha2 x = record {
  path = x.path;
  owner = x.owner;
  permissions = x.permissions;
  encoding = x.encoding;
  content = x.content;
}

abbrev pub ntp_to_v1alpha2 : V1alpha1.Ntp → Ntp
ntp_to_v1alpha2 x = record { servers = x.servers; enabled = x.enabled }

abbrev pub user_to_v1alpha2 : V1alpha1.User → User
user_to_v1alpha2 x = record {
  name = x.name;
  gecos = x.gecos;
  groups = x.groups;
  home_dir = x.home_dir;
  inactive = x.inactive;
  shell = x.shell;
  passwd = x.passwd;
  primary_group = x.primary_group;
  lock_password = x.lock_password;
  sudo = x.sudo;
  ssh_authorized_keys = x.ssh_authorized_keys;
}

abbrev pub crit_config_status_to_v1alpha2 : V1alpha1.CritConfigStatus → CritConfigStatus
crit_config_status_to_v1alpha2 x = record {
  ready = x.ready;
  data_secret_name = x.data_secret_name;
  failure_reason = x.failure_reason;
  failure_message = x.failure_message;
}

abbrev pub crit_control_plane_status_to_v1alpha2 :
    V1alpha1.CritControlPlaneStatus → CritControlPlaneStatus
crit_control_plane_status_to_v1alpha2 x = record {
  selector = x.selector;
  replicas = x.replicas;
  updated_replicas = x.updated_replicas;
  ready_replicas = x.ready_replicas;
  unavailable_replicas = x.unavailable_replicas;
  initialized = x.initialized;
  ready = x.ready;
  failure_reason = x.failure_reason;
  failure_message = x.failure_message;
}

abbrev pub optional_ntp_to_v1alpha2 : Option V1alpha1.Ntp → Option Ntp
optional_ntp_to_v1alpha2 none = none
optional_ntp_to_v1alpha2 (some x) = some (ntp_to_v1alpha2 x)

abbrev pub file_to_v1alpha1 : File → V1alpha1.File
file_to_v1alpha1 x = record {
  path = x.path;
  owner = x.owner;
  permissions = x.permissions;
  encoding = x.encoding;
  content = x.content;
}

abbrev pub ntp_to_v1alpha1 : Ntp → V1alpha1.Ntp
ntp_to_v1alpha1 x = record { servers = x.servers; enabled = x.enabled }

abbrev pub user_to_v1alpha1 : User → V1alpha1.User
user_to_v1alpha1 x = record {
  name = x.name;
  gecos = x.gecos;
  groups = x.groups;
  home_dir = x.home_dir;
  inactive = x.inactive;
  shell = x.shell;
  passwd = x.passwd;
  primary_group = x.primary_group;
  lock_password = x.lock_password;
  sudo = x.sudo;
  ssh_authorized_keys = x.ssh_authorized_keys;
}

abbrev pub crit_config_status_to_v1alpha1 : CritConfigStatus → V1alpha1.CritConfigStatus
crit_config_status_to_v1alpha1 x = record {
  ready = x.ready;
  data_secret_name = x.data_secret_name;
  failure_reason = x.failure_reason;
  failure_message = x.failure_message;
}

abbrev pub crit_control_plane_status_to_v1alpha1 :
    CritControlPlaneStatus → V1alpha1.CritControlPlaneStatus
crit_control_plane_status_to_v1alpha1 x = record {
  selector = x.selector;
  replicas = x.replicas;
  updated_replicas = x.updated_replicas;
  ready_replicas = x.ready_replicas;
  unavailable_replicas = x.unavailable_replicas;
  initialized = x.initialized;
  ready = x.ready;
  failure_reason = x.failure_reason;
  failure_message = x.failure_message;
}

abbrev pub optional_ntp_to_v1alpha1 : Option Ntp → Option V1alpha1.Ntp
optional_ntp_to_v1alpha1 none = none
optional_ntp_to_v1alpha1 (some x) = some (ntp_to_v1alpha1 x)
