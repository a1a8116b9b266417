-- ===== src/Tests/Conversions.antt =====
-- The theorems on the conversions between the versions of the API, at concrete resources.
use cluster_api_bootstrap_pr.Prelude.{
  String, Bool, true, false, none, some, [], ◌∷◌, map, Result, ok, err, panic, str_eq,
  if◌then◌else◌, ◌≡◌, refl, sym, pos, ok_injective,
}
use cluster_api_bootstrap_pr.Api.{CritConfigSpec, CritConfig, CritControlPlaneList}
use cluster_api_bootstrap_pr.Api.V1alpha1
use cluster_api_bootstrap_pr.Conversion.Fresh.{new_crit_config, new_v1alpha1_crit_config}
use cluster_api_bootstrap_pr.Conversion.Codec.{
  Codec, Decoded, control_plane, worker, other, IsLossless,
}
use cluster_api_bootstrap_pr.Conversion.ToV1alpha2.{
  crit_config_convert_to, crit_config_spec_to_v1alpha2, crit_config_to_v1alpha2,
  crit_control_plane_spec_to_v1alpha2, crit_control_plane_to_v1alpha2,
  crit_control_plane_list_to_v1alpha2,
}
use cluster_api_bootstrap_pr.Conversion.ToV1alpha1.{
  crit_config_convert_from, crit_config_spec_to_v1alpha1, crit_config_to_v1alpha1,
  crit_control_plane_list_to_v1alpha1,
}
use cluster_api_bootstrap_pr.Conversion.RoundTrip.{
  converted_config, converted_control_plane, crit_config-back, crit_control_plane_list-back,
}
use cluster_api_bootstrap_pr.Conversion.Hub.{crit_config-forth, other_config-lost}

-- Configurations are large or small, and their YAML is a text for each.
abbrev decode : String → Result (Decoded Bool Bool)
decode text =
    if str_eq text "control-large"
    then ok (control_plane true)
    else if str_eq text "control-small"
    then ok (control_plane false)
    else if str_eq text "worker-large"
    then ok (worker true)
    else if str_eq text "worker-small"
    then ok (worker false)
    else if str_eq text "kind: Cluster"
    then ok other
    else err panic

abbrev codec : Codec Bool Bool Bool Bool
codec = record {
  marshal_control_plane = λ b. ok (if b then "control-large" else "control-small");
  marshal_worker = λ b. ok (if b then "worker-large" else "worker-small");
  unmarshal = decode;
  convert_control_plane = λ c a. ok c;
  convert_worker = λ d b. ok d;
  empty_control_plane = false;
  empty_worker = false;
}

codec-IsLossless : IsLossless codec
codec-IsLossless = record { control_plane_back = control_plane_back; worker_back = worker_back }
  where
    control_plane_back :
        (a : Bool) (text : String)
        → codec.marshal_control_plane a ≡ ok text
        → (str_eq text "" ≡ false)
          × (c : Bool) × (codec.unmarshal text ≡ ok (control_plane c))
          × (codec.convert_control_plane c codec.empty_control_plane ≡ ok a)
    control_plane_back true text h =
        rw (sym (ok_injective "control-large" text h)) (refl, true, refl, refl)
    control_plane_back false text h =
        rw (sym (ok_injective "control-small" text h)) (refl, false, refl, refl)

    worker_back :
        (a : Bool) (text : String)
        → codec.marshal_worker a ≡ ok text
        → (str_eq text "" ≡ false)
          × (c : Bool) × (codec.unmarshal text ≡ ok (worker c))
          × (codec.convert_worker c codec.empty_worker ≡ ok a)
    worker_back true text h = rw (sym (ok_injective "worker-large" text h)) (refl, true, refl, refl)
    worker_back false text h =
        rw (sym (ok_injective "worker-small" text h)) (refl, false, refl, refl)

abbrev spec : V1alpha1.CritConfigSpec Bool Bool
spec = record {
  control_plane_configuration = some true;
  worker_configuration = some false;
  files =
      record {
        path = "/etc/motd";
        owner = "root:root";
        permissions = "0644";
        encoding = "";
        content = "hello";
      }
      ∷ [];
  pre_crit_commands = "date" ∷ [];
  post_crit_commands = [];
  users = [];
  ntp = some (record { servers = "ntp" ∷ []; enabled = some true });
  format = "cloud-config";
  verbosity = true;
}

abbrev v1alpha2_spec : CritConfigSpec
v1alpha2_spec = record {
  config = "control-large";
  files =
      record {
        path = "/etc/motd";
        owner = "root:root";
        permissions = "0644";
        encoding = "";
        content = "hello";
      }
      ∷ [];
  pre_crit_commands = "date" ∷ [];
  post_crit_commands = [];
  users = [];
  ntp = some (record { servers = "ntp" ∷ []; enabled = some true });
  format = "cloud-config";
  verbosity = true;
}

abbrev config : V1alpha1.CritConfig Bool Bool
config = record {
  name = "w-1";
  namespace_of = "default";
  uid = "9";
  labels = [];
  owner_references = [];
  spec = spec;
  status = record {
    ready = true;
    data_secret_name = some "w-1";
    failure_reason = "";
    failure_message = "";
  };
}

abbrev v1alpha2_config : CritConfig
v1alpha2_config = record {
  name = "w-1";
  namespace_of = "default";
  uid = "9";
  labels = [];
  owner_references = [];
  spec = v1alpha2_spec;
  status = record {
    ready = true;
    data_secret_name = some "w-1";
    failure_reason = "";
    failure_message = "";
  };
}

to_v1alpha2 : crit_config_to_v1alpha2 codec config new_crit_config ≡ ok v1alpha2_config
unfolding crit_config_to_v1alpha2 crit_config_spec_to_v1alpha2
to_v1alpha2 = refl

crit_config-back_example :
    crit_config_to_v1alpha1 codec v1alpha2_config new_v1alpha1_crit_config
    ≡ ok (converted_config config)
crit_config-back_example =
    crit_config-back codec codec-IsLossless config v1alpha2_config to_v1alpha2

to_v1alpha1 :
    crit_config_to_v1alpha1 codec v1alpha2_config new_v1alpha1_crit_config
    ≡ ok (converted_config config)
unfolding crit_config_to_v1alpha1 crit_config_spec_to_v1alpha1
to_v1alpha1 = refl

and_back :
    crit_config_to_v1alpha2 codec (converted_config config) new_crit_config ≡ ok v1alpha2_config
unfolding crit_config_to_v1alpha2 crit_config_spec_to_v1alpha2
and_back = refl

crit_config-forth_example :
    record v1alpha2_config {
      spec = record v1alpha2_config.spec { config = v1alpha2_config.spec.config };
    }
    ≡ v1alpha2_config
crit_config-forth_example =
    crit_config-forth codec v1alpha2_config v1alpha2_config (converted_config config) to_v1alpha1
      and_back

-- a configuration of another kind
abbrev other_config : CritConfig
other_config = record v1alpha2_config { spec = record v1alpha2_spec { config = "kind: Cluster" } }

other_config-lost_example :
    (y : V1alpha1.CritConfig Bool Bool) × (z : CritConfig) × (crit_config_convert_from codec
        other_config new_v1alpha1_crit_config
      ≡ ok y)
    × (crit_config_convert_to codec y new_crit_config ≡ ok z)
    × (z.spec.config ≡ "")
other_config-lost_example = other_config-lost codec other_config refl

abbrev planes : V1alpha1.CritControlPlaneList Bool Bool
planes = record {
  list_meta = record { resource_version = "7"; continue = "" };
  items =
      record {
        name = "cp";
        namespace_of = "default";
        uid = "1";
        finalizers = [];
        deletion_timestamp = none;
        spec = record {
          replicas = 3;
          version = "v1.18.5";
          infrastructure_template = record {
            api_version = "v1";
            kind = "T";
            namespace_of = "default";
            name = "t";
            uid = "";
          };
          crit_config_spec = spec;
        };
        status = record {
          selector = "";
          replicas = 3;
          updated_replicas = 3;
          ready_replicas = 2;
          unavailable_replicas = pos 1;
          initialized = true;
          ready = true;
          failure_reason = "";
          failure_message = none;
        };
      }
      ∷ [];
}

abbrev v1alpha2_planes : CritControlPlaneList
v1alpha2_planes = record {
  list_meta = record { resource_version = "7"; continue = "" };
  items =
      record {
        name = "cp";
        namespace_of = "default";
        uid = "1";
        finalizers = [];
        deletion_timestamp = none;
        spec = record {
          replicas = 3;
          version = "v1.18.5";
          infrastructure_template = record {
            api_version = "v1";
            kind = "T";
            namespace_of = "default";
            name = "t";
            uid = "";
          };
          crit_config_spec = v1alpha2_spec;
        };
        status = record {
          selector = "";
          replicas = 3;
          updated_replicas = 3;
          ready_replicas = 2;
          unavailable_replicas = pos 1;
          initialized = true;
          ready = true;
          failure_reason = "";
          failure_message = none;
        };
      }
      ∷ [];
}

abbrev empty_planes : CritControlPlaneList
empty_planes = record { list_meta = record { resource_version = ""; continue = "" }; items = [] }

planes_to_v1alpha2 :
    crit_control_plane_list_to_v1alpha2 codec planes empty_planes ≡ ok v1alpha2_planes
unfolding crit_control_plane_list_to_v1alpha2 crit_control_plane_to_v1alpha2
    crit_control_plane_spec_to_v1alpha2 crit_config_spec_to_v1alpha2
planes_to_v1alpha2 = refl

crit_control_plane_list-back_example :
    crit_control_plane_list_to_v1alpha1 codec v1alpha2_planes planes
    ≡ ok (record { list_meta = planes.list_meta; items = map converted_control_plane planes.items })
crit_control_plane_list-back_example =
    crit_control_plane_list-back codec codec-IsLossless planes v1alpha2_planes empty_planes planes
      planes_to_v1alpha2
