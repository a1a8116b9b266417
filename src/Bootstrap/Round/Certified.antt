-- ===== src/Bootstrap/Round/Certified.antt =====
-- A round of a control plane machine that has stored its bootstrap data.
use cluster_api_bootstrap_pr.Prelude.{
  String, true, false, none, some, if◌then◌else◌, List, [], ◌∷◌, ◌++◌, Result, ok, err, ◌≡◌, refl,
  sym, ◌∙◌, ap, subst, All, >>=-eq-ok, ok_injective,
}
use cluster_api_bootstrap_pr.Api.{Cluster, CritConfig, CritConfigSpec, File}
use cluster_api_bootstrap_pr.Controller.Environment.{no_requeue}
use cluster_api_bootstrap_pr.Cloudinit.{write}
use cluster_api_bootstrap_pr.Secret.Certificates.{
  Certificates, new_certificates_for_control_plane, lookup_or_generate,
}
use cluster_api_bootstrap_pr.Secret.Files.{as_files}
use cluster_api_bootstrap_pr.Secret.Stored.{IsStored}
use cluster_api_bootstrap_pr.Secret.Idempotence.{lookup_or_generate_again}
use cluster_api_bootstrap_pr.Bootstrap.Defaults.{
  ControlPlaneConfiguration, ConfigOwner, reconcile_control_plane_cluster_configuration,
}
use cluster_api_bootstrap_pr.Bootstrap.Store.{bootstrap_secret}
use cluster_api_bootstrap_pr.Bootstrap.Services.{Services, Round, cluster_key}
use cluster_api_bootstrap_pr.Bootstrap.CloudConfig.{
  controller_ref, certificates_ready, reconcile_control_plane_certificates,
  reconcile_control_plane_cloud_config,
}
use cluster_api_bootstrap_pr.Bootstrap.Round.{
  with_spec, stop_round, control_plane_certificates_step, control_plane_configured,
  reconcile_control_plane_config,
}
use cluster_api_bootstrap_pr.Bootstrap.Round.Created.{HasStored, from_text}

module _ {W V : Type 0} (services : Services W V) (owner : ConfigOwner) (cluster : Cluster)
    (config : CritConfig) (v : V) where
  -- From the configuration `cfg₀` and the store `w₀`: `cfg` and `spec` are what the defaults make of it,
  -- `certificates` are those of a control plane that were looked up or generated for the cluster, and
  -- the Secret with the bootstrap data that is stored after them holds the cloud-config of `spec` with
  -- the YAML of `cfg` and the files that AsFiles gives.
  pub record IsCertified (cfg₀ : ControlPlaneConfiguration) (w₀ : W) (round : Round W V)
      : Type 0 where
    pub cfg : ControlPlaneConfiguration
    pub spec : CritConfigSpec
    pub certificates : Certificates
    pub certified : W
    pub yaml : String
    pub files : List File
    pub defaulted :
        reconcile_control_plane_cluster_configuration services.is_zero services.crit_is_zero cluster
          services.join_blocks services.marshal_control_plane owner cfg₀ config.spec
        ≡ ok (cfg, spec)
    pub obtained :
        lookup_or_generate services.client
          (cluster_key cluster)
          (record {
            api_version = services.version;
            kind = "CritConfig";
            name = config.name;
            uid = config.uid;
            controller = true;
          })
          services.ca_cert
          services.service_account_keys
          (new_certificates_for_control_plane services.join
            (services.join (cfg.kube_dir ∷ "pki" ∷ [])))
          w₀
        ≡ (ok certificates, certified)
    pub stored : All (IsStored services.client (cluster_key cluster) certified) certificates
    pub marshalled : services.marshal_control_plane cfg ≡ ok yaml
    pub as_written : as_files certificates ≡ ok files
    pub created :
        services.client.create
          (bootstrap_secret services.version (with_spec config spec) cluster (
            write services.split services.quote (record {
              files =
                  (spec.files
                    ++ record {
                      path = "/var/lib/crit/config.yaml";
                      owner = "root:root";
                      permissions = "0640";
                      encoding = "base64";
                      content = services.base64 yaml;
                    }
                      ∷ [])
                  ++ files;
              pre_crit_commands = spec.pre_crit_commands;
              post_crit_commands = spec.post_crit_commands;
              users = spec.users;
              ntp = spec.ntp;
              verbosity = if spec.verbosity then "-v" else "";
            })))
          certified
        ≡ (none, round.store)
    pub left :
        round
        ≡ stop_round services owner cluster
            (no_requeue, none)
            (record config {
              spec = spec;
              status = record config.status { data_secret_name = some config.name; ready = true };
            })
            round.store
            v

  abbrev pub IsDefaulted :
      ControlPlaneConfiguration → ControlPlaneConfiguration → CritConfigSpec → Type 0
  IsDefaulted cfg₀ cfg spec =
      reconcile_control_plane_cluster_configuration services.is_zero services.crit_is_zero cluster
        services.join_blocks services.marshal_control_plane owner cfg₀ config.spec
      ≡ ok (cfg, spec)

  abbrev pub IsObtained : ControlPlaneConfiguration → W → Certificates → W → Type 0
  IsObtained cfg w₀ cs w =
      lookup_or_generate services.client (cluster_key cluster) (controller_ref services config)
        services.ca_cert services.service_account_keys
        (new_certificates_for_control_plane services.join
          (services.join (cfg.kube_dir ∷ "pki" ∷ [])))
        w₀
      ≡ (ok cs, w)

  module _ (fresh : config.status.ready ≡ false) where
    from_files :
        (cfg₀ : ControlPlaneConfiguration) (w₀ : W) (cfg : ControlPlaneConfiguration)
        (spec : CritConfigSpec) (cs : Certificates) (w : W) (round : Round W V)
        → IsDefaulted cfg₀ cfg spec
        → IsObtained cfg w₀ cs w
        → All (IsStored services.client (cluster_key cluster) w) cs
        → HasStored services owner cluster config w spec v
            (reconcile_control_plane_cloud_config services spec cfg cs)
            round
        → IsCertified cfg₀ w₀ round
    unfolding reconcile_control_plane_cloud_config
    from_files cfg₀ w₀ cfg spec cs w round defaulted obtained stored (text, worked, created, left) =
        let (yaml, marshalled, rest) = >>=-eq-ok (services.marshal_control_plane cfg) _ worked in
        let (files, as_written, done) = >>=-eq-ok (as_files cs) _ rest in
        let printed = sym (ok_injective _ text done) in
        record {
          cfg = cfg;
          spec = spec;
          certificates = cs;
          certified = w;
          yaml = yaml;
          files = files;
          defaulted = defaulted;
          obtained = obtained;
          stored = stored;
          marshalled = marshalled;
          as_written = as_written;
          created =
              subst
                (λ t.
                  services.client.create
                    (bootstrap_secret services.version (with_spec config spec) cluster t) w
                  ≡ (none, round.store))
                printed created;
          left = left;
        }

    from_certificates :
        (cfg₀ : ControlPlaneConfiguration) (w₀ : W) (cfg : ControlPlaneConfiguration)
        (spec : CritConfigSpec) (r : Result Certificates × W)
        → IsDefaulted cfg₀ cfg spec
        → ((cs : Certificates) (w' : W)
            → r ≡ (ok cs, w')
            → IsObtained cfg w₀ cs w' × All (IsStored services.client (cluster_key cluster) w') cs)
        → (control_plane_certificates_step services owner cluster
            (with_spec config spec)
            cfg
            v
            r).config.status.ready
          ≡ true
        → IsCertified cfg₀ w₀
            (control_plane_certificates_step services owner cluster (with_spec config spec) cfg v r)
    from_certificates cfg₀ w₀ cfg spec (err e, w') defaulted stored h = absurd (cc (sym fresh ∙ h))
    from_certificates cfg₀ w₀ cfg spec (ok cs, w') defaulted stored h =
        let (obtained, there) = stored cs w' refl in
        from_files cfg₀ w₀ cfg spec cs w' _ defaulted obtained there (
          from_text services owner cluster config w' fresh spec v
            (reconcile_control_plane_cloud_config services spec cfg cs) h)

    ready_injective :
        (r : Result Certificates × W) (cs : Certificates) (w' : W)
        → certificates_ready services r ≡ (ok cs, w')
        → r ≡ (ok cs, w')
    ready_injective (err e, w) cs w' h = absurd (cc (ap (λ (x : Result Certificates × W). x.0) h))
    ready_injective (ok cs', w) cs w' h = h

    certificates-stored :
        (cfg : ControlPlaneConfiguration) (spec : CritConfigSpec) (w : W) (cs : Certificates)
        (w' : W)
        → reconcile_control_plane_certificates services (with_spec config spec) cluster cfg w
          ≡ (ok cs, w')
        → IsObtained cfg w cs w' × All (IsStored services.client (cluster_key cluster) w') cs
    unfolding reconcile_control_plane_certificates
    certificates-stored cfg spec w cs w' h =
        let obtained = ready_injective _ cs w' h in
        (
          obtained,
          (lookup_or_generate_again services.client (cluster_key cluster) _ services.ca_cert
              services.service_account_keys services.join _ cs w w' obtained).0,
        )

    from_configured :
        (cfg₀ : ControlPlaneConfiguration) (w : W)
        (r : Result (ControlPlaneConfiguration × CritConfigSpec))
        → reconcile_control_plane_cluster_configuration services.is_zero services.crit_is_zero
            cluster services.join_blocks services.marshal_control_plane owner cfg₀ config.spec
          ≡ r
        → (control_plane_configured services owner cluster config w v r).config.status.ready ≡ true
        → IsCertified cfg₀ w (control_plane_configured services owner cluster config w v r)
    from_configured cfg₀ w (err e) done h = absurd (cc (sym fresh ∙ h))
    from_configured cfg₀ w (ok (cfg, spec)) done h =
        from_certificates cfg₀ w cfg spec
          (reconcile_control_plane_certificates services (with_spec config spec) cluster cfg w) done
          (certificates-stored cfg spec w) h

    -- When reconcileControlPlane makes the CritConfig of a control plane machine ready, its round has ended
    -- without an error and the workload cluster is untouched. The certificates are those that
    -- LookupOrGenerate returned for NewCertificatesForControlPlane of the defaulted configuration, and the
    -- key pair of each stands in its Secret. The Secret with the bootstrap data, created after these, holds
    -- what Write prints of the commands, the users, the time servers and the verbosity of the defaulted
    -- spec, and of its files, the file with the YAML of the defaulted configuration and the files that
    -- AsFiles gives for the certificates.
    pub reconcile_control_plane_config-IsCertified :
        (cfg : ControlPlaneConfiguration) (w : W)
        → (reconcile_control_plane_config services owner cluster config cfg w v).config.status.ready
          ≡ true
        → IsCertified cfg w (reconcile_control_plane_config services owner cluster config cfg w v)
    unfolding reconcile_control_plane_config
    reconcile_control_plane_config-IsCertified cfg w h = from_configured cfg w _ refl h
