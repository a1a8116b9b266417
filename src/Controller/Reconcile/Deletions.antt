-- ===== src/Controller/Reconcile/Deletions.antt =====
-- How many Machines a round of the reconciler deletes.
use cluster_api_bootstrap_pr.Prelude.{
  Option-cases, suc, ◌≤◌, String, Option, none, some, List, [], ◌∷◌, ◌++◌, Result, ok, err, Error,
  ◌≡◌, refl, ◌∙◌, inl, inr, Bool-cases, arith, count, is_empty, length, ◌==◌,
}
use cluster_api_bootstrap_pr.Api.{Cluster, CritControlPlane, ObjectReference, OwnerReference}
use cluster_api_bootstrap_pr.Machines.Collection.{Collection}
use cluster_api_bootstrap_pr.Secret.Certificates.{Certificates}
use cluster_api_bootstrap_pr.ControlPlane.{ControlPlane, machines_needing_upgrade}
use cluster_api_bootstrap_pr.ControlPlane.Interface.{Library}
use cluster_api_bootstrap_pr.Controller.Environment.{Call, Trace, then_call, Answers}
use cluster_api_bootstrap_pr.Controller.Ownership.{
  Owned, taken_over, is_foreign, own_machines, ensure_ownership, errors_of,
}
use cluster_api_bootstrap_pr.Controller.Reconcile.{
  Services, patch_step, external_step, owned_step, listed_step, kube_step, certificates_step,
  reference_step, with_finalizer, decide, reconcile_external_reference, reconcile_control_plane,
}
use cluster_api_bootstrap_pr.Controller.Scaling.Deletions.{
  is_deletion, deletions, other_call, initialize-deletions, upgrade-deletions,
}

module _ {W : Type 0} (lib : Library) (answers : Answers) (services : Services W)
    (cluster : Cluster) where
  decide-deletions :
      (c : ControlPlane) (tr : Trace)
      → deletions (decide lib answers services cluster c tr).1 ≤ suc (deletions tr)
  unfolding decide
  decide-deletions c tr = elim (Bool-cases (is_empty (machines_needing_upgrade lib c))) [
    | inr t ↦ rw (t, decide) (upgrade-deletions lib answers c (services.cluster_nodes tr) tr)
    | inl t ↦ elim (Bool-cases (length c.machines == c.ccp.spec.replicas)) [
      | inl u ↦ rw (t, u, decide) (omega arith)
      | inr u ↦ elim (Bool-cases (length c.machines == 0)) [
        | inl v ↦ rw (t, u, v, decide) (omega (arith, initialize-deletions lib answers c tr))
        | inr v ↦ rw (t, u, v, decide) (omega arith)
      ]
    ]
  ]

  own_machines-deletions :
      (ccp : CritControlPlane) (errs : List Error) (s : Collection) (tr : Trace)
      → deletions (own_machines answers ccp errs s tr).2 ≡ deletions tr
  unfolding own_machines
  own_machines-deletions ccp errs [] tr = refl
  own_machines-deletions ccp errs ((name, m) ∷ s) tr =
      elim (Option-cases (answers.controller_of m)) [
        | inr (ref, o) ↦ elim (Bool-cases (is_foreign answers ccp ref)) [
          | inl t ↦ rw (o, t, own_machines) refl
          | inr t ↦ rw (o, t, own_machines) (own_machines-deletions ccp errs s tr)
        ]
        | inl o ↦
            rw (o, own_machines)
              (own_machines-deletions ccp
                  (errs ++ errors_of (answers.update_machine tr (taken_over answers ccp m))) s
                  (then_call tr (Call.update_machine (taken_over answers ccp m)))
                ∙ other_call tr (Call.update_machine (taken_over answers ccp m)) refl)
      ]

  patch_step-deletions :
      (ref : ObjectReference) (owners : List OwnerReference) (o : Option Error) (tr : Trace)
      → deletions (patch_step lib answers services cluster ref owners o tr).1 ≡ deletions tr
  patch_step-deletions ref owners (some e) tr = refl
  patch_step-deletions ref owners none tr = other_call tr _ refl

  external_step-deletions :
      (ref : ObjectReference) (r : Result (List OwnerReference)) (tr : Trace)
      → deletions (external_step lib answers services cluster ref r tr).1 ≡ deletions tr
  external_step-deletions ref (err e) tr = refl
  external_step-deletions ref (ok owners) tr = patch_step-deletions ref owners _ tr

  external-deletions :
      (ref : ObjectReference) (tr : Trace)
      → deletions (reconcile_external_reference lib answers services cluster ref tr).1
        ≡ deletions tr
  unfolding reconcile_external_reference
  external-deletions ref tr =
      elim (Bool-cases (services.has_suffix ref.kind services.template_suffix)) [
        | inr t ↦ rw (t, reconcile_external_reference) refl
        | inl t ↦ rw (t, reconcile_external_reference) (external_step-deletions ref _ tr)
      ]

  owned_step-deletions :
      (ccp : CritControlPlane) (w : W) (o : Owned)
      → deletions (owned_step lib answers services cluster ccp w o).trace ≤ suc (deletions o.2)
  owned_step-deletions ccp w (some e, s, tr) = omega arith
  owned_step-deletions ccp w (none, s, tr) = decide-deletions _ tr

  listed_step-deletions :
      (ccp : CritControlPlane) (w : W) (tr : Trace) (r : Result Collection)
      → deletions (listed_step lib answers services cluster ccp w tr r).trace ≤ suc (deletions tr)
  unfolding ensure_ownership
  listed_step-deletions ccp w tr (err e) = omega arith
  listed_step-deletions ccp w tr (ok owned) = omega (
    arith,
    owned_step-deletions ccp w (own_machines answers ccp [] owned tr),
    own_machines-deletions ccp [] owned tr,
  )

  kube_step-deletions :
      (ccp : CritControlPlane) (tr : Trace) (r : Option Error × W)
      → deletions (kube_step lib answers services cluster ccp tr r).trace ≤ suc (deletions tr)
  kube_step-deletions ccp tr (some e, w) = omega arith
  kube_step-deletions ccp tr (none, w) = listed_step-deletions ccp w tr _

  certificates_step-deletions :
      (ccp : CritControlPlane) (tr : Trace) (r : Result Certificates × W)
      → deletions (certificates_step lib answers services cluster ccp tr r).trace
        ≤ suc (deletions tr)
  certificates_step-deletions ccp tr (err e, w) = omega arith
  certificates_step-deletions ccp tr (ok cs, w) =
      elim (Bool-cases (services.endpoint_is_zero cluster.control_plane_endpoint)) [
        | inl t ↦ rw t (omega arith)
        | inr t ↦ rw t (kube_step-deletions ccp tr _)
      ]

  reference_step-deletions :
      (ccp : CritControlPlane) (kube_dir : String) (w : W) (r : Option Error × Trace)
      → deletions (reference_step lib answers services cluster ccp kube_dir w r).trace
        ≤ suc (deletions r.1)
  reference_step-deletions ccp kube_dir w (some e, tr) = omega arith
  reference_step-deletions ccp kube_dir w (none, tr) = certificates_step-deletions ccp tr _

-- One round of reconcileControlPlane asks to delete at most one Machine, whatever the API server, the
-- workload cluster and the libraries answer.
pub reconcile_control_plane-deletes :
    {W : Type 0} (lib : Library) (answers : Answers) (services : Services W) (cluster : Cluster)
    (ccp : CritControlPlane) (kube_dir : String) (w : W) (tr : Trace)
    → count is_deletion
        (reconcile_control_plane lib answers services cluster ccp kube_dir w tr).trace
      ≤ suc (count is_deletion tr)
unfolding reconcile_control_plane
reconcile_control_plane-deletes lib answers services cluster ccp kube_dir w tr = omega (
  arith,
  reference_step-deletions lib answers services cluster
      (with_finalizer lib answers services cluster ccp) kube_dir w
      (reconcile_external_reference lib answers services cluster ccp.spec.infrastructure_template
        tr),
  external-deletions lib answers services cluster ccp.spec.infrastructure_template tr,
)
