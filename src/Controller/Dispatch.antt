-- ===== src/Controller/Dispatch.antt =====
-- controllers/controlplane/controller.go. The API server's answers, util.IsPaused, the patch helper
-- and crit's configutil are parameters.
pub mod Polling
use cluster_api_bootstrap_pr.Prelude.{
  ℕ, String, Bool, true, false, not, Option, none, some, List, [], ◌∷◌, Result, ok, err, Error,
  errorf, is_not_found, requeue_cause, new_aggregate, if◌then◌else◌, ◌&&◌, ◌==◌, ltb, str_eq,
}
use cluster_api_bootstrap_pr.Api.{Cluster, CritControlPlane, ObjectReference}
use cluster_api_bootstrap_pr.ControlPlane.Interface.{Library}
use cluster_api_bootstrap_pr.Management.Workload.{Node}
use cluster_api_bootstrap_pr.Secret.Store.{ObjectKey}
use cluster_api_bootstrap_pr.Controller.Environment.{
  Trace, Answers, CtrlResult, Outcome, no_requeue, requeue_now,
}
use cluster_api_bootstrap_pr.Controller.Deletion.{Reconciled, reconcile_delete}
use cluster_api_bootstrap_pr.Controller.Status.{Observed, update_status}
use cluster_api_bootstrap_pr.Controller.Reconcile.{Services, Round, stop, reconcile_control_plane}

-- What Reconcile meets besides.
pub record Requests : Type 0 where
  pub get : Result CritControlPlane
  -- util.GetOwnerCluster and util.IsPaused
  pub owner_cluster : CritControlPlane → Result (Option Cluster)
  pub is_paused : Cluster → CritControlPlane → Bool
  pub new_patch_helper : CritControlPlane → Option Error
  pub patch : Trace → CritControlPlane → Option Error
  -- configutil.Unmarshal: the KubeDir of a ControlPlaneConfiguration, nothing for another type
  pub unmarshal : String → Result (Option String)
  pub remove_finalizer : String → List String → List String
  pub selector_string : List (String × String) → Result String
  pub is_node_ready : Node → Bool
  pub observed : Trace → Observed

-- the first part of the deferred function: a requeue error becomes a time
unfoldable pub requeue_error : Outcome → Outcome
requeue_error (res, none) = (res, none)
requeue_error (res, some e) = elim (requeue_cause e) [
  | none ↦ (res, some e)
  | some t ↦
      if res.requeue_after == 0 then (record res { requeue_after = t }, none) else (res, some e)
]

-- kerrors.NewAggregate([]error{reterr, err}), which leaves nil errors out
unfoldable pub add_error : Outcome → Option Error → Outcome
add_error outcome none = outcome
add_error (res, none) (some e) = (res, new_aggregate (e ∷ []))
add_error (res, some r) (some e) = (res, new_aggregate (r ∷ e ∷ []))

abbrev pub poll_again : CtrlResult
poll_again = record { requeue = false; requeue_after = 20 }

-- the last part: a control plane that is not ready is looked at again
unfoldable pub poll : (Option ℕ → Bool) → CritControlPlane → Outcome → Outcome
poll is_zero ccp (res, some e) = (res, some e)
poll is_zero ccp (res, none) =
    if not res.requeue && not (ltb 0 res.requeue_after) && is_zero ccp.deletion_timestamp
    then if not ccp.status.ready then (poll_again, none) else (res, none)
    else (res, none)

module _ {W : Type 0} (lib : Library) (answers : Answers) (services : Services W)
    (requests : Requests) where
  abbrev pub finish_with : Round W → Option Error × CritControlPlane → Round W
  finish_with round (failure, ccp) = record round {
    ccp = ccp;
    outcome = poll lib.is_zero ccp (
        add_error (add_error (requeue_error round.outcome) failure)
          (requests.patch round.trace ccp));
  }

  -- the deferred function of Reconcile
  unfoldable pub finish : Cluster → Round W → Round W
  finish cluster round = finish_with round (
      update_status lib requests.selector_string requests.is_node_ready
        (requests.observed round.trace) round.ccp cluster)

  abbrev pub deleted : W → Reconciled → Round W
  deleted w done = record { ccp = done.ccp; store = w; trace = done.trace; outcome = done.outcome }

  abbrev pub configured : Cluster → CritControlPlane → W → Trace → Result (Option String) → Round W
  configured cluster ccp w tr (err e) = record {
    ccp = ccp;
    store = w;
    trace = tr;
    outcome = (no_requeue, some e);
  }
  configured cluster ccp w tr (ok none) = record {
    ccp = ccp;
    store = w;
    trace = tr;
    outcome = (no_requeue, some (errorf "expected ControlPlaneConfiguration"));
  }
  configured cluster ccp w tr (ok (some kube_dir)) =
      reconcile_control_plane lib answers services cluster ccp kube_dir w tr

  -- the body of Reconcile after the deferred function is set up
  unfoldable pub reconcile_body : Cluster → CritControlPlane → W → Trace → Round W
  reconcile_body cluster ccp w tr =
      if not (lib.is_zero ccp.deletion_timestamp)
      then deleted w (
          reconcile_delete lib.is_zero requests.remove_finalizer answers ccp (services.listed tr)
            tr)
      else configured cluster ccp w tr (requests.unmarshal ccp.spec.crit_config_spec.config)

  abbrev pub patch_helper_step : Cluster → CritControlPlane → W → Trace → Option Error → Round W
  patch_helper_step cluster ccp w tr (some e) = record {
    ccp = ccp;
    store = w;
    trace = tr;
    outcome = (requeue_now, none);
  }
  patch_helper_step cluster ccp w tr none = finish cluster (reconcile_body cluster ccp w tr)

  abbrev pub cluster_step : CritControlPlane → W → Trace → Result (Option Cluster) → Round W
  cluster_step ccp w tr (err e) = record {
    ccp = ccp;
    store = w;
    trace = tr;
    outcome = (no_requeue, some e);
  }
  cluster_step ccp w tr (ok none) = record {
    ccp = ccp;
    store = w;
    trace = tr;
    outcome = (no_requeue, none);
  }
  cluster_step ccp w tr (ok (some cluster)) =
      if requests.is_paused cluster ccp
      then record { ccp = ccp; store = w; trace = tr; outcome = (no_requeue, none) }
      else if not cluster.infrastructure_ready
      then record { ccp = ccp; store = w; trace = tr; outcome = (no_requeue, none) }
      else patch_helper_step cluster ccp w tr (requests.new_patch_helper ccp)

  abbrev pub get_step : W → Trace → Result CritControlPlane → Outcome × Option (Round W)
  get_step w tr (err e) =
      if is_not_found e then ((no_requeue, none), none) else ((requeue_now, none), none)
  get_step w tr (ok ccp) =
      let round = cluster_step ccp w tr (requests.owner_cluster ccp) in (round.outcome, some round)

  -- Reconcile: what it returns, and what the round has left if there was a resource
  unfoldable pub reconcile : W → Trace → Outcome × Option (Round W)
  reconcile w tr = get_step w tr requests.get

-- ClusterToCritControlPlane, for an object that is a Cluster or is not one
unfoldable pub cluster_to_crit_control_plane : Option Cluster → List ObjectKey
cluster_to_crit_control_plane none = []
cluster_to_crit_control_plane (some cluster) = elim cluster.control_plane_ref [
  | none ↦ []
  | some ref ↦
      if str_eq ref.kind "CritControlPlane"
      then record { namespace_of = ref.namespace_of; name = ref.name } ∷ []
      else []
]
