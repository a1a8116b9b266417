-- ===== src/Bootstrap/CloudConfig.antt =====
-- controllers/bootstrap/worker.go and controlplane.go: the certificates of a control plane and the
-- cloud-configs of both kinds of machines.
use cluster_api_bootstrap_pr.Prelude.{
  String, List, [], ◌∷◌, ◌++◌, true, Result, ok, err, wrap, if◌then◌else◌, ◌>>=◌,
}
use cluster_api_bootstrap_pr.Api.{File, CritConfigSpec, CritConfig, Cluster, OwnerReference}
use cluster_api_bootstrap_pr.Secret.Certificates.{
  Certificates, new_certificates_for_control_plane, lookup_or_generate,
}
use cluster_api_bootstrap_pr.Secret.Files.{as_files}
use cluster_api_bootstrap_pr.Bootstrap.Defaults.{WorkerConfiguration, ControlPlaneConfiguration}
use cluster_api_bootstrap_pr.Bootstrap.Worker.{worker_files}
use cluster_api_bootstrap_pr.Cloudinit.{CloudConfig, write}
use cluster_api_bootstrap_pr.Bootstrap.Services.{Services, cluster_key}

abbrev pub cloud_config : CritConfigSpec → List File → CloudConfig
cloud_config spec files = record {
  files = files;
  pre_crit_commands = spec.pre_crit_commands;
  post_crit_commands = spec.post_crit_commands;
  users = spec.users;
  ntp = spec.ntp;
  verbosity = if spec.verbosity then "-v" else "";
}

module _ {W V : Type 0} (services : Services W V) where
  abbrev pub config_file : String → File
  config_file text = record {
    path = "/var/lib/crit/config.yaml";
    owner = "root:root";
    permissions = "0640";
    encoding = "base64";
    content = services.base64 text;
  }

  -- reconcileWorkerCloudConfig
  unfoldable pub reconcile_worker_cloud_config :
      CritConfigSpec → WorkerConfiguration → Certificates → Result String
  reconcile_worker_cloud_config spec cfg cs = do
    text ← services.marshal_worker cfg
    files ← worker_files services.has_suffix spec (config_file text) cs
    ok (write services.split services.quote (cloud_config spec files))

  -- reconcileControlPlaneCloudConfig
  unfoldable pub reconcile_control_plane_cloud_config :
      CritConfigSpec → ControlPlaneConfiguration → Certificates → Result String
  reconcile_control_plane_cloud_config spec cfg cs = do
    text ← services.marshal_control_plane cfg
    files ← as_files cs
    ok (
        write services.split services.quote
          (cloud_config spec ((spec.files ++ config_file text ∷ []) ++ files)))

  abbrev pub controller_ref : CritConfig → OwnerReference
  controller_ref config = record {
    api_version = services.version;
    kind = "CritConfig";
    name = config.name;
    uid = config.uid;
    controller = true;
  }

  abbrev pub certificates_ready : Result Certificates × W → Result Certificates × W
  certificates_ready (err e, w) =
      (err (wrap "unable to lookup or create cluster certificates" e), w)
  certificates_ready (ok cs, w) = (ok cs, w)

  -- reconcileControlPlaneCertificates
  unfoldable pub reconcile_control_plane_certificates :
      CritConfig → Cluster → ControlPlaneConfiguration → W → Result Certificates × W
  reconcile_control_plane_certificates config cluster cfg w = certificates_ready (
      lookup_or_generate services.client (cluster_key cluster) (controller_ref config)
        services.ca_cert services.service_account_keys
        (new_certificates_for_control_plane services.join
          (services.join (cfg.kube_dir ∷ "pki" ∷ [])))
        w)
