-- ===== src/Bootstrap/Dispatch.antt =====
-- controllers/bootstrap/controller.go: Reconcile, and the requests that changes of other objects lead
-- to.
pub mod Guarded
use cluster_api_bootstrap_pr.Prelude.{
  String, Bool, true, false, not, Option, none, some, List, [], ◌∷◌, ◌++◌, Result, ok, err, Error,
  errorf, is_not_found, str_eq, is_some, if◌then◌else◌, ◌&&◌, ◌||◌,
}
use cluster_api_bootstrap_pr.Api.{Cluster, CritConfig, Machine, ObjectReference}
use cluster_api_bootstrap_pr.Controller.Environment.{CtrlResult, Outcome, no_requeue}
use cluster_api_bootstrap_pr.Conversion.Codec.{Decoded, control_plane, worker, other}
use cluster_api_bootstrap_pr.Secret.Store.{ObjectKey}
use cluster_api_bootstrap_pr.Bootstrap.Defaults.{
  WorkerConfiguration, ControlPlaneConfiguration, ConfigOwner,
}
use cluster_api_bootstrap_pr.Bootstrap.Services.{Services, Round}
use cluster_api_bootstrap_pr.Bootstrap.Round.{
  stop_round, reconcile_worker, reconcile_control_plane_config,
}

-- What Reconcile meets: the answers to its reads, and the patch helper. `is_no_cluster` tells
-- util.ErrNoCluster under any wraps.
pub record ConfigRequests : Type 0 where
  pub get : Result CritConfig
  pub config_owner : CritConfig → Result (Option ConfigOwner)
  pub cluster : String → String → Result Cluster
  pub is_no_cluster : Error → Bool
  pub new_patch_helper : CritConfig → Option Error
  pub patch : CritConfig → Option Error

-- What Reconcile returns, the CritConfig that it has asked to patch, and the two clusters.
pub record Reconciled (W V : Type 0) : Type 0 where
  pub outcome : Outcome
  pub patched : Option CritConfig
  pub store : W
  pub remote : V

-- the status after a pivot or a restore: the owner has a Secret that the status does not name
abbrev pub needs_status : ConfigOwner → CritConfig → Bool
needs_status owner config =
    is_some owner.data_secret_name
    && (not config.status.ready || not (is_some config.status.data_secret_name))

abbrev pub with_owner_secret : ConfigOwner → CritConfig → CritConfig
with_owner_secret owner config = record config {
  status = record config.status { ready = true; data_secret_name = owner.data_secret_name };
}

module _ {W V : Type 0} (services : Services W V) (requests : ConfigRequests) (w : W) (v : V) where
  abbrev pub left_alone : Outcome → Reconciled W V
  left_alone outcome = record { outcome = outcome; patched = none; store = w; remote = v }

  -- the deferred function: a round without an error is followed by a patch
  unfoldable pub patch_round : Round W V → Reconciled W V
  patch_round round = elim round.outcome.1 [
    | some e ↦ record {
      outcome = round.outcome;
      patched = none;
      store = round.store;
      remote = round.remote;
    }
    | none ↦ record {
      outcome = (round.outcome.0, requests.patch round.config);
      patched = some round.config;
      store = round.store;
      remote = round.remote;
    }
  ]

  abbrev pub refused : CritConfig → Error → Round W V
  refused config e = record {
    outcome = (no_requeue, some e);
    config = config;
    store = w;
    remote = v;
  }

  -- the switch on the kind of the configuration
  abbrev pub unmarshalled :
      CritConfig
      → ConfigOwner
      → Cluster
      → Result (Decoded ControlPlaneConfiguration WorkerConfiguration)
      → Round W V
  unmarshalled config owner cluster (err e) = refused config e
  unmarshalled config owner cluster (ok (control_plane cfg)) =
      if not owner.is_control_plane_machine
      then refused config
          (errorf "config owner is for a worker Machine, but received a ControlPlaneConfiguration")
      else reconcile_control_plane_config services owner cluster config cfg w v
  unmarshalled config owner cluster (ok (worker cfg)) =
      if owner.is_control_plane_machine
      then refused config
          (errorf "config owner is for a control plane Machine, but received a WorkerConfiguration")
      else reconcile_worker services owner cluster config cfg w v
  unmarshalled config owner cluster (ok other) =
      refused config (errorf "Config contained invalid configuration kind")

  abbrev pub helper_step : CritConfig → ConfigOwner → Cluster → Option Error → Reconciled W V
  helper_step config owner cluster (some e) = left_alone (no_requeue, some e)
  helper_step config owner cluster none =
      if needs_status owner config
      then record {
        outcome = (no_requeue, requests.patch (with_owner_secret owner config));
        patched = some (with_owner_secret owner config);
        store = w;
        remote = v;
      }
      else patch_round (unmarshalled config owner cluster (services.unmarshal config.spec.config))

  abbrev pub cluster_step : CritConfig → ConfigOwner → Result Cluster → Reconciled W V
  cluster_step config owner (err e) =
      if requests.is_no_cluster e
      then left_alone (no_requeue, none)
      else if is_not_found e
      then left_alone (no_requeue, none)
      else left_alone (no_requeue, some e)
  cluster_step config owner (ok cluster) =
      if not cluster.infrastructure_ready
      then left_alone (no_requeue, none)
      else helper_step config owner cluster (requests.new_patch_helper config)

  abbrev pub owner_step : CritConfig → Result (Option ConfigOwner) → Reconciled W V
  owner_step config (err e) =
      if is_not_found e then left_alone (no_requeue, none) else left_alone (no_requeue, some e)
  owner_step config (ok none) = left_alone (no_requeue, none)
  owner_step config (ok (some owner)) =
      cluster_step config owner (requests.cluster owner.namespace_of owner.cluster_name)

  abbrev pub config_step : Result CritConfig → Reconciled W V
  config_step (err e) =
      if is_not_found e then left_alone (no_requeue, none) else left_alone (no_requeue, some e)
  config_step (ok config) = owner_step config (requests.config_owner config)

  -- Reconcile
  unfoldable pub reconcile_config : Reconciled W V
  reconcile_config = config_step requests.get
