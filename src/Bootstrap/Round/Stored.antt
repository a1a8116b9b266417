-- ===== src/Bootstrap/Round/Stored.antt =====
-- A round of a worker that has stored its bootstrap data, taken apart.
use cluster_api_bootstrap_pr.Prelude.{
  String, Bool, true, false, not, Option, none, some, Result, ok, err, Error, ◌≡◌, refl, sym, ◌∙◌,
  subst, if◌then◌else◌,
}
use cluster_api_bootstrap_pr.Api.{Cluster, CritConfig, CritConfigSpec}
use cluster_api_bootstrap_pr.Controller.Environment.{no_requeue}
use cluster_api_bootstrap_pr.Secret.Certificates.{Certificates}
use cluster_api_bootstrap_pr.Bootstrap.Defaults.{
  WorkerConfiguration, ConfigOwner, reconcile_worker_cluster_configuration,
}
use cluster_api_bootstrap_pr.Bootstrap.Store.{bootstrap_secret, with_data}
use cluster_api_bootstrap_pr.Bootstrap.Worker.{reconcile_worker_certificates}
use cluster_api_bootstrap_pr.Bootstrap.Services.{Services, Round, cluster_key, after_seconds}
use cluster_api_bootstrap_pr.Bootstrap.CloudConfig.{reconcile_worker_cloud_config}
use cluster_api_bootstrap_pr.Bootstrap.Round.{
  TokenState, with_spec, stop_round, worker_certificates_step, token_step, worker_configured,
  reconcile_worker_bootstrap_token, reconcile_worker,
}
use cluster_api_bootstrap_pr.Bootstrap.Round.Created.{HasStored, from_text}

module _ {W V : Type 0} (services : Services W V) (owner : ConfigOwner) (cluster : Cluster) where
  -- A round that has changed its CritConfig from not ready to ready.
  pub record IsStored (config : CritConfig) (cfg : WorkerConfiguration) (w : W) (v : V)
      (round : Round W V) : Type 0 where
    pub cfg₁ : WorkerConfiguration
    pub spec₁ : CritConfigSpec
    pub token : TokenState V
    pub certificates : Certificates
    pub text : String
    pub is_initialized : cluster.control_plane_initialized ≡ true
    pub configured :
        reconcile_worker_cluster_configuration services.is_zero services.crit_is_zero cluster
          services.marshal_worker owner cfg config.spec
        ≡ ok (cfg₁, spec₁)
    pub has_token :
        reconcile_worker_bootstrap_token services owner cluster false
          (record { cfg = cfg₁; spec = spec₁; remote = v })
        ≡ (none, token)
    pub found :
        reconcile_worker_certificates services.client
          (cluster_key cluster)
          services.join
          token.cfg.kube_dir
          w
        ≡ ok certificates
    pub written : reconcile_worker_cloud_config services token.spec token.cfg certificates ≡ ok text
    pub created :
        services.client.create
          (bootstrap_secret services.version (with_spec config token.spec) cluster text)
          w
        ≡ (none, round.store)
    pub left :
        round
        ≡ stop_round services owner cluster
            (no_requeue, none)
            (with_data (with_spec config token.spec) config.name)
            round.store
            token.remote

  module _ (config : CritConfig) (cfg : WorkerConfiguration) (w : W) (v : V)
      (fresh : config.status.ready ≡ false) where
    from_certificates :
        (st : TokenState V) (r : Result Certificates)
        → (worker_certificates_step services owner cluster
            (with_spec config st.spec)
            st.cfg
            w
            st.remote
            r).config.status.ready
          ≡ true
        → (cs : Certificates) × (r ≡ ok cs)
          × HasStored services owner cluster config w st.spec st.remote
              (reconcile_worker_cloud_config services st.spec st.cfg cs)
              (worker_certificates_step services owner cluster
                (with_spec config st.spec)
                st.cfg
                w
                st.remote
                r)
    from_certificates st (err e) h = absurd (cc (sym fresh ∙ h))
    from_certificates st (ok cs) h = (
      cs,
      refl,
      from_text services owner cluster config w fresh st.spec st.remote
          (reconcile_worker_cloud_config services st.spec st.cfg cs) h,
    )

    from_token :
        (cfg₁ : WorkerConfiguration) (spec₁ : CritConfigSpec) (r : Option Error × TokenState V)
        → cluster.control_plane_initialized ≡ true
        → reconcile_worker_cluster_configuration services.is_zero services.crit_is_zero cluster
            services.marshal_worker owner cfg config.spec
          ≡ ok (cfg₁, spec₁)
        → reconcile_worker_bootstrap_token services owner cluster false
            (record { cfg = cfg₁; spec = spec₁; remote = v })
          ≡ r
        → (token_step services owner cluster config w r).config.status.ready ≡ true
        → IsStored config cfg w v (token_step services owner cluster config w r)
    from_token cfg₁ spec₁ (some e, st) ready configured has h = absurd (cc (sym fresh ∙ h))
    from_token cfg₁ spec₁ (none, st) ready configured has h =
        let (cs, found, stored) = from_certificates st _ h in
        let (text, written, created, left) = stored in
        record {
          cfg₁ = cfg₁;
          spec₁ = spec₁;
          token = st;
          certificates = cs;
          text = text;
          is_initialized = ready;
          configured = configured;
          has_token = has;
          found = found;
          written = written;
          created = created;
          left = left;
        }

    from_configured :
        (r : Result (WorkerConfiguration × CritConfigSpec))
        → cluster.control_plane_initialized ≡ true
        → reconcile_worker_cluster_configuration services.is_zero services.crit_is_zero cluster
            services.marshal_worker owner cfg config.spec
          ≡ r
        → (worker_configured services owner cluster config w v r).config.status.ready ≡ true
        → IsStored config cfg w v (worker_configured services owner cluster config w v r)
    from_configured (err e) ready configured = λ h. absurd (cc (sym fresh ∙ h))
    from_configured (ok (cfg₁, spec₁)) ready configured =
        subst
          (λ b.
            (token_step services owner cluster config w (
                reconcile_worker_bootstrap_token services owner cluster b
                  (record { cfg = cfg₁; spec = spec₁; remote = v }))).config.status.ready
              ≡ true
            → IsStored config cfg w v (
                token_step services owner cluster config w (
                  reconcile_worker_bootstrap_token services owner cluster b
                    (record { cfg = cfg₁; spec = spec₁; remote = v }))))
          (sym fresh) (from_token cfg₁ spec₁ _ ready configured refl)

    abbrev configured_round : Round W V
    configured_round = worker_configured services owner cluster config w v (
        reconcile_worker_cluster_configuration services.is_zero services.crit_is_zero cluster
          services.marshal_worker owner cfg config.spec)

    abbrev round_when : Bool → Round W V
    round_when b =
        if not b
        then stop_round services owner cluster (after_seconds 30, none) config w v
        else configured_round

    from_initialized :
        (b : Bool)
        → cluster.control_plane_initialized ≡ b
        → (round_when b).config.status.ready ≡ true
        → IsStored config cfg w v (round_when b)
    from_initialized false t h = absurd (cc (sym fresh ∙ h))
    from_initialized true t h = from_configured _ t refl h

    pub reconcile_worker-IsStored :
        (reconcile_worker services owner cluster config cfg w v).config.status.ready ≡ true
        → IsStored config cfg w v (reconcile_worker services owner cluster config cfg w v)
    unfolding reconcile_worker
    reconcile_worker-IsStored h = from_initialized cluster.control_plane_initialized refl h
