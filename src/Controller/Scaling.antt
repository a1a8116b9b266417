-- ===== src/Controller/Scaling.antt =====
-- controllers/controlplane/upgrade.go, and the loop of controlplane.go that creates the first machines.
pub mod Down
pub mod Up
pub mod Deletions
use cluster_api_bootstrap_pr.Prelude.{
  ℕ, zero, suc, String, Option, none, some, List, [], ◌∷◌, Result, ok, err, Error, requeue_after,
  wrap, panic, is_not_found, if◌then◌else◌, leb, get_elem?,
}
use cluster_api_bootstrap_pr.Api.{Machine}
use cluster_api_bootstrap_pr.ControlPlane.{
  ControlPlane, has_deleting_machine, select_machine_for_scale_down,
  failure_domain_with_fewest_machines, n_failure_domains_with_fewest_machines,
}
use cluster_api_bootstrap_pr.ControlPlane.Interface.{Library}
use cluster_api_bootstrap_pr.Controller.Environment.{
  Call, Trace, then_call, Answers, Outcome, no_requeue, requeue_now, delete_requeue_after,
  health_check_failed_requeue_after,
}
use cluster_api_bootstrap_pr.Controller.Generation.{clone_configs_and_generate_machine}

abbrev pub health_failed : Error
health_failed = requeue_after health_check_failed_requeue_after

-- the return at an error, the next statement otherwise
abbrev pub and_then : Option Error × Trace → (Trace → Option Error × Trace) → Option Error × Trace
and_then (some e, tr) next = (some e, tr)
and_then (none, tr) next = next tr

module _ (lib : Library) (answers : Answers) (c : ControlPlane) where
  abbrev pub health_step : Option Error → Option Error
  health_step (some e) = some health_failed
  health_step none =
      if has_deleting_machine lib c then some (requeue_after delete_requeue_after) else none

  -- reconcileHealth
  unfoldable pub reconcile_health : Trace → Option Error × Trace
  reconcile_health tr = (health_step (answers.health tr), then_call tr Call.check_health)

  abbrev pub created : Option Error × Trace → Outcome × Trace
  created (some e, tr) = ((no_requeue, some e), tr)
  created (none, tr) = ((requeue_now, none), tr)

  -- cloneConfigsAndGenerateMachine for this control plane
  abbrev pub generate_in : Option String → Trace → Option Error × Trace
  generate_in fd tr =
      clone_configs_and_generate_machine lib.deep_hash answers c.ccp c.cluster
        c.ccp.spec.crit_config_spec fd tr

  abbrev pub scale_up_step : Option Error × Trace → Outcome × Trace
  scale_up_step (some e, tr) = ((no_requeue, some health_failed), tr)
  scale_up_step (none, tr) = created (generate_in (failure_domain_with_fewest_machines lib c) tr)

  -- scaleUpControlPlane
  unfoldable pub scale_up : Trace → Outcome × Trace
  scale_up tr = scale_up_step (reconcile_health tr)

  abbrev pub deletion_step : Option Error → Outcome
  deletion_step none = (requeue_now, none)
  deletion_step (some e) = if is_not_found e then (requeue_now, none) else (no_requeue, some e)

  abbrev pub delete_step : Machine → Option Error → Trace → Outcome × Trace
  delete_step m (some e) tr = ((no_requeue, some health_failed), tr)
  delete_step m none tr =
      (deletion_step (answers.delete_machine tr m), then_call tr (Call.delete_machine m))

  -- A machine that is selected is never nil.
  abbrev pub selected_step : Result Machine → Trace → Outcome × Trace
  selected_step (err e) tr =
      ((no_requeue, some (wrap "failed to select machine for scale down" e)), tr)
  selected_step (ok m) tr = delete_step m (answers.health tr) (then_call tr Call.check_health)

  abbrev pub scale_down_step : Option Error × Trace → Outcome × Trace
  scale_down_step (some e, tr) = ((no_requeue, some health_failed), tr)
  scale_down_step (none, tr) = selected_step (select_machine_for_scale_down lib c) tr

  -- scaleDownControlPlane
  unfoldable pub scale_down : Trace → Outcome × Trace
  scale_down tr = scale_down_step (reconcile_health tr)

  -- upgradeControlPlane, with what ClusterStatus of the workload cluster returned: its number of
  -- control plane nodes
  unfoldable pub upgrade_control_plane : Result ℕ → Trace → Outcome × Trace
  upgrade_control_plane (err e) tr = ((no_requeue, some e), tr)
  upgrade_control_plane (ok nodes) tr =
      if leb nodes c.ccp.spec.replicas then scale_up tr else scale_down tr

  -- One round of the loop that creates the first machines: `fds[i]` panics out of range.
  abbrev pub generate_at : Option (Option String) → Trace → Option Error × Trace
  generate_at none tr = (some panic, tr)
  generate_at (some fd) tr = generate_in fd tr

  unfoldable pub create_from : List (Option String) → ℕ → ℕ → Trace → Option Error × Trace
  create_from fds i zero tr = (none, tr)
  create_from fds i (suc n) tr =
      and_then (generate_at (get_elem? fds i) tr) (λ tr'. create_from fds (suc i) n tr')

  -- the initialisation in reconcileControlPlane
  unfoldable pub initialize : Trace → Outcome × Trace
  initialize tr = created (
      create_from (n_failure_domains_with_fewest_machines lib c c.ccp.spec.replicas) 0
        c.ccp.spec.replicas tr)
