-- ===== src/Bootstrap/Dispatch/Guarded.antt =====
-- What a call of Reconcile may change.
use cluster_api_bootstrap_pr.Prelude.{
  Bool, true, false, not, Option, none, some, Result, ok, err, Error, is_not_found, ◌≡◌, refl, sym,
  ◌∙◌, ap, ◌⊎◌, inl, inr, Bool-cases, Option-cases, Result-cases, if◌then◌else◌,
}
use cluster_api_bootstrap_pr.Api.{Cluster, CritConfig}
use cluster_api_bootstrap_pr.Controller.Environment.{Outcome, no_requeue}
use cluster_api_bootstrap_pr.Conversion.Codec.{control_plane, worker, other}
use cluster_api_bootstrap_pr.Bootstrap.Defaults.{
  WorkerConfiguration, ControlPlaneConfiguration, ConfigOwner,
}
use cluster_api_bootstrap_pr.Bootstrap.Services.{Services, Round}
use cluster_api_bootstrap_pr.Bootstrap.Round.{reconcile_worker, reconcile_control_plane_config}
use cluster_api_bootstrap_pr.Bootstrap.Dispatch.{
  ConfigRequests, Reconciled, left_alone, needs_status, patch_round, helper_step, cluster_step,
  owner_step, config_step, reconcile_config,
}

module _ {W V : Type 0} (services : Services W V) (requests : ConfigRequests) (w : W) (v : V) where
  abbrev pub IsUnchanged : Reconciled W V → Type 0
  IsUnchanged done = (done.store ≡ w) × (done.remote ≡ v)

  -- The round that ran: for a configuration of the kind that the owner asks for, in a cluster whose
  -- infrastructure is ready.
  abbrev pub IsRound : CritConfig → ConfigOwner → Cluster → Reconciled W V → Type 0
  IsRound config owner cluster done =
      ((cfg : ControlPlaneConfiguration) × (services.unmarshal config.spec.config
          ≡ ok (control_plane cfg))
        × (owner.is_control_plane_machine ≡ true)
        × (done
            ≡ patch_round services requests w v
                (reconcile_control_plane_config services owner cluster config cfg w v)))
      ⊎ ((cfg : WorkerConfiguration) × (services.unmarshal config.spec.config ≡ ok (worker cfg))
          × (owner.is_control_plane_machine ≡ false)
          × (done
              ≡ patch_round services requests w v
                  (reconcile_worker services owner cluster config cfg w v)))

  helper_step-cases :
      (config : CritConfig) (owner : ConfigOwner) (cluster : Cluster) (o : Option Error)
      → IsUnchanged (helper_step services requests w v config owner cluster o)
        ⊎ IsRound config owner cluster (helper_step services requests w v config owner cluster o)
  unfolding patch_round
  helper_step-cases config owner cluster (some e) = inl (refl, refl)
  helper_step-cases config owner cluster none = elim (Bool-cases (needs_status owner config)) [
    | inl t ↦ rw t (inl (refl, refl))
    | inr t ↦ elim (Result-cases (services.unmarshal config.spec.config)) [
      | inl (e, u) ↦ rw (t, u) (inl (refl, refl))
      | inr (other, u) ↦ rw (t, u) (inl (refl, refl))
      | inr (control_plane cfg, u) ↦ elim (Bool-cases owner.is_control_plane_machine) [
        | inl b ↦ rw (t, u, b) (inr (inl (cfg, refl, refl, refl)))
        | inr b ↦ rw (t, u, b) (inl (refl, refl))
      ]
      | inr (worker cfg, u) ↦ elim (Bool-cases owner.is_control_plane_machine) [
        | inl b ↦ rw (t, u, b) (inl (refl, refl))
        | inr b ↦ rw (t, u, b) (inr (inr (cfg, refl, refl, refl)))
      ]
    ]
  ]

  -- The reads that let a round run.
  abbrev pub IsAdmitted : CritConfig → ConfigOwner → Cluster → Type 0
  IsAdmitted config owner cluster =
      (requests.get ≡ ok config)
      × (requests.config_owner config ≡ ok (some owner))
      × (requests.cluster owner.namespace_of owner.cluster_name ≡ ok cluster)
      × (cluster.infrastructure_ready ≡ true)

  abbrev pub IsGuarded : Reconciled W V → Type 0
  IsGuarded done =
      IsUnchanged done
      ⊎ ((config : CritConfig) × (owner : ConfigOwner) × (cluster : Cluster) × IsAdmitted config
            owner cluster
          × IsRound config owner cluster done)

  left_alone-IsGuarded :
      (b : Bool) (o o' : Outcome)
      → IsGuarded
          (if b then left_alone services requests w v o else left_alone services requests w v o')
  left_alone-IsGuarded true o o' = inl (refl, refl)
  left_alone-IsGuarded false o o' = inl (refl, refl)

  admitted-IsGuarded :
      (config : CritConfig) (owner : ConfigOwner) (cluster : Cluster) (done : Reconciled W V)
      → IsAdmitted config owner cluster
      → IsUnchanged done ⊎ IsRound config owner cluster done
      → IsGuarded done
  admitted-IsGuarded config owner cluster done admitted (inl same) = inl same
  admitted-IsGuarded config owner cluster done admitted (inr round) =
      inr (config, owner, cluster, admitted, round)

  ready-IsGuarded :
      (config : CritConfig) (owner : ConfigOwner) (cluster : Cluster) (b : Bool)
      → requests.get ≡ ok config
      → requests.config_owner config ≡ ok (some owner)
      → requests.cluster owner.namespace_of owner.cluster_name ≡ ok cluster
      → cluster.infrastructure_ready ≡ b
      → IsGuarded (
          if not b
          then left_alone services requests w v (no_requeue, none)
          else helper_step services requests w v config owner cluster
              (requests.new_patch_helper config))
  ready-IsGuarded config owner cluster false t u c r = inl (refl, refl)
  ready-IsGuarded config owner cluster true t u c r =
      admitted-IsGuarded config owner cluster _ (t, u, c, r)
        (helper_step-cases config owner cluster (requests.new_patch_helper config))

  cluster_step-IsGuarded :
      (config : CritConfig) (owner : ConfigOwner) (r : Result Cluster)
      → requests.get ≡ ok config
      → requests.config_owner config ≡ ok (some owner)
      → requests.cluster owner.namespace_of owner.cluster_name ≡ r
      → IsGuarded (cluster_step services requests w v config owner r)
  cluster_step-IsGuarded config owner (err e) t u c = elim (Bool-cases (requests.is_no_cluster e)) [
    | inl b ↦ rw b (inl (refl, refl))
    | inr b ↦ rw b (left_alone-IsGuarded (is_not_found e) (no_requeue, none) (no_requeue, some e))
  ]
  cluster_step-IsGuarded config owner (ok cluster) t u c =
      ready-IsGuarded config owner cluster cluster.infrastructure_ready t u c refl

  owner_step-IsGuarded :
      (config : CritConfig) (r : Result (Option ConfigOwner))
      → requests.get ≡ ok config
      → requests.config_owner config ≡ r
      → IsGuarded (owner_step services requests w v config r)
  owner_step-IsGuarded config (err e) t u =
      left_alone-IsGuarded (is_not_found e) (no_requeue, none) (no_requeue, some e)
  owner_step-IsGuarded config (ok none) t u = inl (refl, refl)
  owner_step-IsGuarded config (ok (some owner)) t u =
      cluster_step-IsGuarded config owner (requests.cluster owner.namespace_of owner.cluster_name) t
        u refl

  config_step-IsGuarded :
      (r : Result CritConfig) → requests.get ≡ r → IsGuarded (config_step services requests w v r)
  config_step-IsGuarded (err e) t =
      left_alone-IsGuarded (is_not_found e) (no_requeue, none) (no_requeue, some e)
  config_step-IsGuarded (ok config) t =
      owner_step-IsGuarded config (requests.config_owner config) t refl

  -- Whatever Reconcile is answered, it leaves the Secrets of both clusters as they were, or it has run one
  -- round, of a control plane machine or of a worker as its owner is one, for the configuration that
  -- the spec holds, after it read the CritConfig, its owner and their Cluster and found the
  -- infrastructure ready. What it returns is then the round's result after the deferred patch.
  pub reconcile_config-IsGuarded : IsGuarded (reconcile_config services requests w v)
  unfolding reconcile_config
  reconcile_config-IsGuarded = config_step-IsGuarded requests.get refl

  patch_round-saved :
      (round : Round W V)
      → ((e : Error) × ((patch_round services requests w v round).outcome.1 ≡ some e))
        ⊎ ((patch_round services requests w v round).patched ≡ some round.config)
  unfolding patch_round
  patch_round-saved round = elim (Option-cases round.outcome.1) [
    | inl t ↦ rw t (inr refl)
    | inr (e, t) ↦ inl (e, rw t refl)
  ]

  no_round :
      (round : Round W V) (done : Reconciled W V)
      → done ≡ patch_round services requests w v round
      → done.outcome.1 ≡ none
      → done.patched ≡ none
      → IsUnchanged done
  no_round round done same fine unsaved = elim (patch_round-saved round) [
    | inl (e, failed) ↦
        absurd (cc (sym fine ∙ (ap (λ (d : Reconciled W V). d.outcome.1) same ∙ failed)))
    | inr saved ↦ absurd (cc (sym unsaved ∙ (ap (λ (d : Reconciled W V). d.patched) same ∙ saved)))
  ]

  -- When Reconcile returns no error and has not asked to patch the CritConfig, the Secrets of both clusters
  -- are as they were: no round that ends without an error goes unrecorded.
  pub reconcile_config-recorded :
      (reconcile_config services requests w v).outcome.1 ≡ none
      → (reconcile_config services requests w v).patched ≡ none
      → IsUnchanged (reconcile_config services requests w v)
  reconcile_config-recorded fine unsaved = elim reconcile_config-IsGuarded [
    | inl same ↦ same
    | inr (config, owner, cluster, admitted, inl (cfg, u, b, same)) ↦ no_round _ _ same fine unsaved
    | inr (config, owner, cluster, admitted, inr (cfg, u, b, same)) ↦ no_round _ _ same fine unsaved
  ]
