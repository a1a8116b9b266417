-- ===== src/Tests/Planes.antt =====
-- The theorem on a round of a control plane machine, at a concrete cluster.
use cluster_api_bootstrap_pr.Prelude.{true, List, [], ok, ◌≡◌, refl}
use cluster_api_bootstrap_pr.Secret.Store.{Secret}
use cluster_api_bootstrap_pr.Secret.Certificates.{
  KeyPair, new_certificates_for_control_plane, lookup_or_generate, as_secret, lookup_certificates,
  lookup_certificate, generate, generate_certificate, save_generated, save_certificate, secret_key,
  secret_name, get_by_purpose,
}
use cluster_api_bootstrap_pr.Secret.Files.{as_files, certificate_files, pair_files}
use cluster_api_bootstrap_pr.Bootstrap.Defaults.{
  set_config, default_control_plane, reconcile_control_plane_cluster_configuration,
}
use cluster_api_bootstrap_pr.Bootstrap.Store.{bootstrap_secret, store_bootstrap_data}
use cluster_api_bootstrap_pr.Bootstrap.Services.{Services}
use cluster_api_bootstrap_pr.Bootstrap.CloudConfig.{
  reconcile_control_plane_certificates, reconcile_control_plane_cloud_config,
}
use cluster_api_bootstrap_pr.Bootstrap.Round.{reconcile_control_plane_config}
use cluster_api_bootstrap_pr.Bootstrap.Round.Certified.{
  IsCertified, reconcile_control_plane_config-IsCertified,
}
use cluster_api_bootstrap_pr.Tests.Samples.{cluster}
use cluster_api_bootstrap_pr.Tests.Bootstraps.{owner, control, config}
use cluster_api_bootstrap_pr.Tests.Workers.{services}

abbrev pair : KeyPair
pair = record { cert = "CERT"; key = "KEY" }

abbrev plane_services : Services (List Secret) (List Secret)
plane_services = record services {
  marshal_control_plane = λ c. ok "kind: ControlPlaneConfiguration";
  ca_cert = λ p. ok pair;
  service_account_keys = λ p. ok pair;
}

became_ready :
    (reconcile_control_plane_config plane_services owner cluster config control []
      []).config.status.ready
    ≡ true
unfolding reconcile_control_plane_config reconcile_control_plane_cluster_configuration
    default_control_plane set_config reconcile_control_plane_certificates lookup_or_generate
    new_certificates_for_control_plane lookup_certificates lookup_certificate generate
    generate_certificate save_generated save_certificate as_secret secret_key secret_name
    get_by_purpose as_files certificate_files pair_files reconcile_control_plane_cloud_config
    store_bootstrap_data bootstrap_secret
became_ready = refl

reconcile_control_plane_config-IsCertified_example :
    IsCertified plane_services owner cluster config [] control []
      (reconcile_control_plane_config plane_services owner cluster config control [] [])
reconcile_control_plane_config-IsCertified_example =
    reconcile_control_plane_config-IsCertified plane_services owner cluster config [] refl control
      [] became_ready
