-- ===== src/Bootstrap/Round/Settled.antt =====
-- A round of a worker after one that has stored its bootstrap data.
use cluster_api_bootstrap_pr.Prelude.{
  String, true, false, Option, none, some, ok, Error, already_exists, str_eq, ◌≡◌, ◌≢◌, refl, sym,
  ◌∙◌, ap, subst, inl, inr, Bool-cases, ok_injective, >>=-eq-ok,
}
use cluster_api_bootstrap_pr.Api.{Cluster, CritConfig, CritConfigSpec, Endpoint}
use cluster_api_bootstrap_pr.Conversion.Codec.{worker}
use cluster_api_bootstrap_pr.Secret.Store.{Secret}
use cluster_api_bootstrap_pr.Secret.Certificates.{cluster_ca, secret_key}
use cluster_api_bootstrap_pr.Bootstrap.Defaults.{
  WorkerConfiguration, ConfigOwner, set_config, default_worker,
  reconcile_worker_cluster_configuration,
}
use cluster_api_bootstrap_pr.Bootstrap.Defaults.Settled.{default_worker_idem}
use cluster_api_bootstrap_pr.Bootstrap.Store.{bootstrap_secret, with_data, store_bootstrap_data}
use cluster_api_bootstrap_pr.Bootstrap.Worker.{reconcile_worker_certificates}
use cluster_api_bootstrap_pr.Bootstrap.Services.{Services, Round, cluster_key}
use cluster_api_bootstrap_pr.Controller.Environment.{no_requeue}
use cluster_api_bootstrap_pr.Bootstrap.Round.{
  TokenState, with_spec, reconcile_worker_bootstrap_token, reconcile_worker, worker_configured,
  token_step, worker_certificates_step, store_step, stored_round,
}
use cluster_api_bootstrap_pr.Bootstrap.Round.Tokens.{reconcile_worker_bootstrap_token_lem}
use cluster_api_bootstrap_pr.Bootstrap.Round.Stored.{IsStored, reconcile_worker-IsStored}
use cluster_api_bootstrap_pr.Bootstrap.Round.Again.{
  consumed, default_worker-token, consumed_lem, certificates_same, if_not,
}

module _ {W V : Type 0} (services : Services W V) (owner : ConfigOwner) (cluster : Cluster)
    (same : (e : Endpoint) → services.crit_is_zero e ≡ services.is_zero e)
    (exists : (s s' : Secret) (x : W)
      → services.client.get s.key x ≡ ok s'
      → services.client.create s x ≡ (some already_exists, x))
    (config : CritConfig) (cfg : WorkerConfiguration) (w : W) (v : V) (round : Round W V) where
  module _ (stored : IsStored services owner cluster config cfg w v round) where
    abbrev token : TokenState V
    token = stored.token

    abbrev left_config : CritConfig
    left_config = with_data (with_spec config token.spec) config.name

    abbrev secret : Secret
    secret = bootstrap_secret services.version (with_spec config token.spec) cluster stored.text

    defaulted :
        default_worker services.is_zero services.crit_is_zero cluster owner cfg ≡ ok stored.cfg₁
    unfolding reconcile_worker_cluster_configuration
    defaulted =
        let (cfg', worked, rest) =
          >>=-eq-ok (default_worker services.is_zero services.crit_is_zero cluster owner cfg) _
            stored.configured in
        let (spec', set, done) =
          >>=-eq-ok (set_config services.marshal_worker cfg' config.spec) _ rest in
        worked
        ∙ ap (λ (x : WorkerConfiguration × CritConfigSpec). ok x.0)
            (ok_injective _ (stored.cfg₁, stored.spec₁) done)

    token-kept :
        (services.marshal_worker token.cfg ≡ ok token.spec.config)
        × (token.cfg ≡ record stored.cfg₁ { bootstrap_token = token.cfg.bootstrap_token })
    token-kept =
        elim (reconcile_worker_bootstrap_token_lem services owner cluster false _ token
          stored.has_token) [
            | inl (absent, kept, settled) ↦ absurd (cc absent)
            | inr (absent, written, inl (some_token, kept, remote)) ↦ (
              written.0,
              ap
                  (λ (c : WorkerConfiguration). record c {
                    bootstrap_token = token.cfg.bootstrap_token;
                  })
                  kept,
            )
            | inr (absent, written, inr (client, found, made, kept)) ↦ (
              written.0,
              ap
                  (λ (c : WorkerConfiguration). record c {
                    bootstrap_token = token.cfg.bootstrap_token;
                  })
                  kept,
            )
          ]

    defaulted_again :
        default_worker services.is_zero services.crit_is_zero cluster owner token.cfg ≡ ok token.cfg
    defaulted_again =
        let idem =
          default_worker_idem services.is_zero services.crit_is_zero cluster owner cfg stored.cfg₁
            same defaulted in
        subst (λ c. default_worker services.is_zero services.crit_is_zero cluster owner c ≡ ok c)
          (sym token-kept.1)
          (default_worker-token services.is_zero services.crit_is_zero cluster owner stored.cfg₁
            stored.cfg₁ token.cfg.bootstrap_token idem.0)

    configured_again :
        reconcile_worker_cluster_configuration services.is_zero services.crit_is_zero cluster
          services.marshal_worker
          (consumed owner)
          token.cfg
          token.spec
        ≡ ok (token.cfg, token.spec)
    unfolding reconcile_worker_cluster_configuration set_config
    configured_again =
        rw
          (consumed_lem services.is_zero services.crit_is_zero cluster owner token.cfg token.cfg
            defaulted_again)
          (rw token-kept.0 refl)

    token_again :
        reconcile_worker_bootstrap_token services (consumed owner) cluster true token
        ≡ (none, token)
    unfolding reconcile_worker_bootstrap_token
    token_again = elim (Bool-cases (str_eq token.cfg.bootstrap_token "")) [
      | inl t ↦ rw t refl
      | inr t ↦ rw t refl
    ]

    created_before : (services.client.create secret w).0 ≡ none
    created_before = ap (λ (x : Option Error × W). x.0) stored.created

    stored_again :
        store_bootstrap_data services.client services.version left_config cluster stored.text
          round.store
        ≡ (none, left_config, round.store)
    unfolding store_bootstrap_data bootstrap_secret
    stored_again =
        let there =
          subst (λ x. services.client.get secret.key x ≡ ok secret)
            (ap (λ (x : Option Error × W). x.1) stored.created)
            (services.client.get_created secret w created_before) in
        rw (exists secret secret round.store there) refl

    certificates_again :
        secret_key (cluster_key cluster) cluster_ca ≢ secret.key
        → reconcile_worker_certificates services.client
            (cluster_key cluster)
            services.join
            token.cfg.kube_dir
            round.store
          ≡ ok stored.certificates
    certificates_again other_key =
        certificates_same services.client (cluster_key cluster) services.join token.cfg.kube_dir w
          round.store
          (subst
            (λ x.
              services.client.get (secret_key (cluster_key cluster) cluster_ca) x
              ≡ services.client.get (secret_key (cluster_key cluster) cluster_ca) w)
            (ap (λ (x : Option Error × W). x.1) stored.created)
            (services.client.get_other secret w (secret_key (cluster_key cluster) cluster_ca)
              other_key))
        ∙ stored.found

    round_again :
        secret_key (cluster_key cluster) cluster_ca ≢ secret.key
        → reconcile_worker services
            (consumed owner)
            cluster
            left_config
            token.cfg
            round.store
            token.remote
          ≡ round
    unfolding reconcile_worker
    round_again other_key =
        if_not cluster.control_plane_initialized _ _ stored.is_initialized
        ∙ ap
            (worker_configured services (consumed owner) cluster left_config round.store
              token.remote)
            configured_again
        ∙ ap (token_step services (consumed owner) cluster left_config round.store) token_again
        ∙ ap
            (worker_certificates_step services (consumed owner) cluster left_config token.cfg
              round.store token.remote)
            (certificates_again other_key)
        ∙ ap (store_step services (consumed owner) cluster left_config round.store token.remote)
            stored.written
        ∙ ap (stored_round services (consumed owner) cluster token.remote) stored_again
        ∙ sym stored.left

  -- When reconcileWorker makes the CritConfig of a worker ready, its round is settled: a later round over
  -- the CritConfig as it was left, once the infrastructure is ready, runs through to its end
  -- without an error and changes nothing, not the CritConfig, no Secret and no token. This rests on
  -- crit's YAML, which reads back what it wrote, on the two kinds of endpoints being zero together, on
  -- Create, which refuses a Secret that is there, and on the names of the CA's and the data's
  -- Secrets, which differ.
  pub reconcile_worker-settled :
      ((c : WorkerConfiguration) (text : String)
        → services.marshal_worker c ≡ ok text
        → services.unmarshal text ≡ ok (worker c))
      → secret_key (cluster_key cluster) cluster_ca
        ≢ record { namespace_of = config.namespace_of; name = config.name }
      → config.status.ready ≡ false
      → round ≡ reconcile_worker services owner cluster config cfg w v
      → round.config.status.ready ≡ true
      → (cfg' : WorkerConfiguration) × (services.unmarshal round.config.spec.config
          ≡ ok (worker cfg'))
        × (round.outcome ≡ (no_requeue, none))
        × (reconcile_worker services
              (consumed owner)
              cluster
              round.config
              cfg'
              round.store
              round.remote
            ≡ round)
  unfolding bootstrap_secret
  reconcile_worker-settled reads other_key fresh ran ready =
      let stored : IsStored services owner cluster config cfg w v round =
        subst (IsStored services owner cluster config cfg w v) (sym ran) (
          reconcile_worker-IsStored services owner cluster config cfg w v fresh
            (subst (λ (r : Round W V). r.config.status.ready ≡ true) ran ready)) in
      let left = stored.left in
      (
        (token stored).cfg,
        ap (λ (r : Round W V). services.unmarshal r.config.spec.config) left
            ∙ reads (token stored).cfg (token stored).spec.config (token-kept stored).0,
        ap (λ (r : Round W V). r.outcome) left,
        (λ i.
              reconcile_worker services (consumed owner) cluster (left i).config (token stored).cfg
                round.store (left i).remote)
            ∙ round_again stored other_key,
      )
