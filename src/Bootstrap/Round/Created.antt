-- ===== src/Bootstrap/Round/Created.antt =====
-- The end of a round: what is known when it has made its CritConfig ready.
use cluster_api_bootstrap_pr.Prelude.{
  String, true, false, Option, none, some, Result, ok, err, Error, ◌≡◌, refl, sym, ◌∙◌, inl, inr,
  Bool-cases, is_already_exists,
}
use cluster_api_bootstrap_pr.Api.{Cluster, CritConfig, CritConfigSpec}
use cluster_api_bootstrap_pr.Controller.Environment.{no_requeue}
use cluster_api_bootstrap_pr.Bootstrap.Defaults.{ConfigOwner}
use cluster_api_bootstrap_pr.Bootstrap.Store.{
  bootstrap_secret, with_data, created_step, store_bootstrap_data,
}
use cluster_api_bootstrap_pr.Bootstrap.Services.{Services, Round}
use cluster_api_bootstrap_pr.Bootstrap.Round.{with_spec, stop_round, stored_round, store_step}

module _ {W V : Type 0} (services : Services W V) (owner : ConfigOwner) (cluster : Cluster)
    (config : CritConfig) (w : W) where
  -- What is known once the configuration is `spec` and the workload cluster is left as `v'`.
  abbrev pub HasStored : CritConfigSpec → V → Result String → Round W V → Type 0
  HasStored spec v' r round =
      (text : String) × (r ≡ ok text)
      × (services.client.create
            (bootstrap_secret services.version (with_spec config spec) cluster text) w
          ≡ (none, round.store))
      × (round
          ≡ stop_round services owner cluster (no_requeue, none)
              (with_data (with_spec config spec) config.name) round.store v')

  module _ (fresh : config.status.ready ≡ false) where
    from_create :
        (spec : CritConfigSpec) (v' : V) (r : Option Error × W)
        → (stored_round services owner cluster v'
            (created_step (with_spec config spec) config.name r)).config.status.ready
          ≡ true
        → (r ≡ (
          none,
          (stored_round services owner cluster v'
              (created_step (with_spec config spec) config.name r)).store,
        ))
          × (stored_round services owner cluster v'
                (created_step (with_spec config spec) config.name r)
              ≡ stop_round services owner cluster
                  (no_requeue, none)
                  (with_data (with_spec config spec) config.name)
                  (stored_round services owner cluster v'
                    (created_step (with_spec config spec) config.name r)).store
                  v')
    from_create spec v' (none, w') = λ h. (refl, refl)
    from_create spec v' (some e, w') = elim (Bool-cases (is_already_exists e)) [
      | inl t ↦ rw t (λ h. absurd (cc (sym fresh ∙ h)))
      | inr t ↦ rw t (λ h. absurd (cc (sym fresh ∙ h)))
    ]

    pub from_text :
        (spec : CritConfigSpec) (v' : V) (r : Result String)
        → (store_step services owner cluster (with_spec config spec) w v' r).config.status.ready
          ≡ true
        → HasStored spec v' r (store_step services owner cluster (with_spec config spec) w v' r)
    unfolding store_bootstrap_data bootstrap_secret
    from_text spec v' (err e) h = absurd (cc (sym fresh ∙ h))
    from_text spec v' (ok text) h =
        let (created, left) =
          from_create spec v'
            (services.client.create
              (bootstrap_secret services.version (with_spec config spec) cluster text) w)
            h in
        (text, refl, created, left)
