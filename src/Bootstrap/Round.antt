-- ===== src/Bootstrap/Round.antt =====
-- controllers/bootstrap/worker.go and controlplane.go: one round for the CritConfig of a worker and one
-- for that of a control plane machine. `w` is the state of the management cluster's Secrets and `v`
-- that of the workload cluster's.
pub mod Tokens
pub mod Created
pub mod Stored
pub mod Again
pub mod Settled
pub mod Certified
use cluster_api_bootstrap_pr.Prelude.{
  ℕ, String, Bool, true, false, not, Option, none, some, List, Result, ok, err, Error,
  requeue_after, wrap, str_eq, if◌then◌else◌, ◌&&◌, ◌/◌,
}
use cluster_api_bootstrap_pr.Api.{Cluster, CritConfig, CritConfigSpec}
use cluster_api_bootstrap_pr.Controller.Environment.{CtrlResult, Outcome, no_requeue}
use cluster_api_bootstrap_pr.Secret.Store.{ObjectKey, SecretClient}
use cluster_api_bootstrap_pr.Secret.Certificates.{Certificates}
use cluster_api_bootstrap_pr.Bootstrap.Defaults.{
  WorkerConfiguration, ControlPlaneConfiguration, ConfigOwner, set_config,
  reconcile_worker_cluster_configuration, reconcile_control_plane_cluster_configuration,
}
use cluster_api_bootstrap_pr.Bootstrap.Store.{store_bootstrap_data}
use cluster_api_bootstrap_pr.Bootstrap.Worker.{reconcile_worker_certificates}
use cluster_api_bootstrap_pr.Bootstrap.Token.{TokenClient, create_token, refresh_token}
use cluster_api_bootstrap_pr.Bootstrap.Services.{
  Services, Round, cluster_key, after_seconds, requeued,
}
use cluster_api_bootstrap_pr.Bootstrap.CloudConfig.{
  reconcile_worker_cloud_config, reconcile_control_plane_cloud_config,
  reconcile_control_plane_certificates,
}

-- DefaultTokenTTL in seconds
abbrev pub default_token_ttl : ℕ
default_token_ttl = 900

-- the configuration of a worker while its token is looked after, and the workload cluster
pub record TokenState (V : Type 0) : Type 0 where
  pub cfg : WorkerConfiguration
  pub spec : CritConfigSpec
  pub remote : V

abbrev pub with_spec : CritConfig → CritConfigSpec → CritConfig
with_spec config spec = record config { spec = spec }

module _ {W V : Type 0} (services : Services W V) (owner : ConfigOwner) (cluster : Cluster) where
  abbrev pub spec_set : TokenState V → Result CritConfigSpec → Option Error × TokenState V
  spec_set st (err e) = (some e, st)
  spec_set st (ok spec) = (none, record st { spec = spec })

  abbrev pub set_worker_config : TokenState V → Option Error × TokenState V
  set_worker_config st = spec_set st (set_config services.marshal_worker st.cfg st.spec)

  abbrev pub until_consumed : Option Error × TokenState V → Option Error × TokenState V
  until_consumed (some e, st) = (some e, st)
  until_consumed (none, st) =
      (some (wrap "requeue until token is consumed" (requeue_after (default_token_ttl / 2))), st)

  abbrev pub token_refreshed : TokenState V → Option Error × V → Option Error × TokenState V
  token_refreshed st (some e, v) =
      (some (wrap "failed to refresh bootstrap token" e), record st { remote = v })
  token_refreshed st (none, v) = until_consumed (set_worker_config (record st { remote = v }))

  abbrev pub refresh_with : TokenState V → Result (TokenClient V) → Option Error × TokenState V
  refresh_with st (err e) = (some e, st)
  refresh_with st (ok client) =
      token_refreshed st (
        refresh_token services.token_api client st.cfg.bootstrap_token services.expiration
          st.remote)

  abbrev pub token_created : TokenState V → Result String × V → Option Error × TokenState V
  token_created st (err e, v) =
      (some (wrap "failed to create new bootstrap token" e), record st { remote = v })
  token_created st (ok token, v) =
      set_worker_config (record st { cfg = record st.cfg { bootstrap_token = token }; remote = v })

  abbrev pub create_with : TokenState V → Result (TokenClient V) → Option Error × TokenState V
  create_with st (err e) = (some e, st)
  create_with st (ok client) =
      token_created st (
        create_token services.token_api client services.generate_token services.expiration
          st.remote)

  -- reconcileWorkerBootstrapToken
  unfoldable pub reconcile_worker_bootstrap_token :
      Bool → TokenState V → Option Error × TokenState V
  reconcile_worker_bootstrap_token ready st =
      if ready
      then if not (str_eq st.cfg.bootstrap_token "") && not owner.infrastructure_ready
        then refresh_with st (services.remote_client (cluster_key cluster))
        else (none, st)
      else if str_eq st.cfg.bootstrap_token ""
      then create_with st (services.remote_client (cluster_key cluster))
      else set_worker_config st

  abbrev pub stop_round : Outcome → CritConfig → W → V → Round W V
  stop_round outcome config w v = record {
    outcome = outcome;
    config = config;
    store = w;
    remote = v;
  }

  abbrev pub stored_round : V → Option Error × CritConfig × W → Round W V
  stored_round v (failure, config, w) = stop_round (no_requeue, failure) config w v

  -- storeBootstrapData with the cloud-config
  abbrev pub store_step : CritConfig → W → V → Result String → Round W V
  store_step config w v (err e) = stop_round (no_requeue, some e) config w v
  store_step config w v (ok text) =
      stored_round v (store_bootstrap_data services.client services.version config cluster text w)

  abbrev pub worker_certificates_step :
      CritConfig → WorkerConfiguration → W → V → Result Certificates → Round W V
  worker_certificates_step config cfg w v (err e) =
      stop_round (no_requeue, some (wrap "unable to lookup cluster certificates" e)) config w v
  worker_certificates_step config cfg w v (ok cs) =
      store_step config w v (reconcile_worker_cloud_config services config.spec cfg cs)

  abbrev pub token_step : CritConfig → W → Option Error × TokenState V → Round W V
  token_step config w (some e, st) = stop_round (requeued e) (with_spec config st.spec) w st.remote
  token_step config w (none, st) =
      worker_certificates_step (with_spec config st.spec) st.cfg w st.remote (
        reconcile_worker_certificates services.client (cluster_key cluster) services.join
          st.cfg.kube_dir w)

  abbrev pub worker_configured :
      CritConfig → W → V → Result (WorkerConfiguration × CritConfigSpec) → Round W V
  worker_configured config w v (err e) = stop_round (requeued e) config w v
  worker_configured config w v (ok (cfg, spec)) = token_step config w (
      reconcile_worker_bootstrap_token config.status.ready
        (record { cfg = cfg; spec = spec; remote = v }))

  -- reconcileWorker
  unfoldable pub reconcile_worker : CritConfig → WorkerConfiguration → W → V → Round W V
  reconcile_worker config cfg w v =
      if not cluster.control_plane_initialized
      then stop_round (after_seconds 30, none) config w v
      else worker_configured config w v (
          reconcile_worker_cluster_configuration services.is_zero services.crit_is_zero cluster
            services.marshal_worker owner cfg config.spec)

  abbrev pub control_plane_certificates_step :
      CritConfig → ControlPlaneConfiguration → V → Result Certificates × W → Round W V
  control_plane_certificates_step config cfg v (err e, w) =
      stop_round (no_requeue, some (wrap "unable to lookup or create cluster certificates" e))
        config w v
  control_plane_certificates_step config cfg v (ok cs, w) =
      store_step config w v (reconcile_control_plane_cloud_config services config.spec cfg cs)

  abbrev pub control_plane_configured :
      CritConfig → W → V → Result (ControlPlaneConfiguration × CritConfigSpec) → Round W V
  control_plane_configured config w v (err e) = stop_round (no_requeue, some e) config w v
  control_plane_configured config w v (ok (cfg, spec)) =
      control_plane_certificates_step (with_spec config spec) cfg v
        (reconcile_control_plane_certificates services (with_spec config spec) cluster cfg w)

  -- reconcileControlPlane
  unfoldable pub reconcile_control_plane_config :
      CritConfig → ControlPlaneConfiguration → W → V → Round W V
  reconcile_control_plane_config config cfg w v = control_plane_configured config w v (
      reconcile_control_plane_cluster_configuration services.is_zero services.crit_is_zero cluster
        services.join_blocks services.marshal_control_plane owner cfg config.spec)
