-- ===== src/Controller/Deletion.antt =====
-- controllers/controlplane/delete.go. controllerutil.RemoveFinalizer is a parameter.
pub mod Guard
use cluster_api_bootstrap_pr.Prelude.{
  ℕ, String, Bool, not, Option, none, some, List, [], ◌∷◌, ◌++◌, Result, ok, err, Error,
  requeue_after, is_not_found, new_aggregate, if◌then◌else◌, ◌==◌, length, is_empty,
}
use cluster_api_bootstrap_pr.Prelude.Dict.{values}
use cluster_api_bootstrap_pr.Api.{Machine, CritControlPlane}
use cluster_api_bootstrap_pr.Machines.Filters.{
  not_filter, owned_control_plane_machines, has_deletion_timestamp,
}
use cluster_api_bootstrap_pr.Machines.Collection.{Collection, filter}
use cluster_api_bootstrap_pr.Management.Cluster.{get_machines_for_cluster}
use cluster_api_bootstrap_pr.Controller.Environment.{
  Call, Trace, then_call, Answers, Outcome, no_requeue, delete_requeue_after,
}

-- CritControlPlaneFinalizer
abbrev pub finalizer : String
finalizer = "crit.controlplane.cluster.x-k8s.io"

-- an error of Delete, unless the object was gone already
abbrev pub unless_not_found : Option Error → List Error
unless_not_found none = []
unless_not_found (some e) = if is_not_found e then [] else e ∷ []

-- the loop over machinesToDelete: the errors and the calls
unfoldable pub delete_machines : Answers → List Machine → Trace → List Error × Trace
delete_machines answers [] tr = ([], tr)
delete_machines answers (m ∷ ms) tr =
    let (errs, tr') = delete_machines answers ms (then_call tr (Call.delete_machine m)) in
    (unless_not_found (answers.delete_machine tr m) ++ errs, tr')

-- What one reconciliation leaves: the resource, the calls and the returned values.
pub record Reconciled : Type 0 where
  pub ccp : CritControlPlane
  pub trace : Trace
  pub outcome : Outcome

abbrev pub deletion_outcome : List Error → Outcome
deletion_outcome errs = elim (new_aggregate errs) [
  | some e ↦ (no_requeue, some e)
  | none ↦ (no_requeue, some (requeue_after delete_requeue_after))
]

module _ (is_zero : Option ℕ → Bool) (remove_finalizer : String → List String → List String)
    (answers : Answers) where
  abbrev pub machines_to_delete : Collection → Collection
  machines_to_delete owned = filter (not_filter (has_deletion_timestamp is_zero) ∷ []) owned

  unfoldable pub delete_owned : CritControlPlane → Collection → Trace → Reconciled
  delete_owned ccp owned tr =
      let (errs, tr') = delete_machines answers (values (machines_to_delete owned)) tr in
      record { ccp = ccp; trace = tr'; outcome = deletion_outcome errs }

  -- reconcileDelete after allMachines and ownedMachines are known
  unfoldable pub delete_from :
      CritControlPlane → (all_machines owned_machines : Collection) → Trace → Reconciled
  delete_from ccp all_machines owned_machines tr =
      if is_empty owned_machines
      then record {
        ccp = record ccp { finalizers = remove_finalizer finalizer ccp.finalizers };
        trace = tr;
        outcome = (no_requeue, none);
      }
      else if not (length all_machines == length owned_machines)
      then record {
        ccp = ccp;
        trace = tr;
        outcome = (no_requeue, some (requeue_after delete_requeue_after));
      }
      else delete_owned ccp owned_machines tr

  -- reconcileDelete
  unfoldable pub reconcile_delete : CritControlPlane → Result (List Machine) → Trace → Reconciled
  reconcile_delete ccp listed tr = elim (get_machines_for_cluster listed []) [
    | err e ↦ record { ccp = ccp; trace = tr; outcome = (no_requeue, some e) }
    | ok all_machines ↦
        delete_from ccp all_machines
          (filter (owned_control_plane_machines ccp.name ∷ []) all_machines) tr
  ]
