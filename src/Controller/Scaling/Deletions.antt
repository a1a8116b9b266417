-- ===== src/Controller/Scaling/Deletions.antt =====
-- How many Machines the creation of a machine, scaling and the initialisation delete.
use Prim.Native.String.{◌++◌ as concat}
use cluster_api_bootstrap_pr.Prelude.{
  ℕ, zero, suc, ◌≤◌, String, Bool, true, false, Option, none, some, List, [], ◌∷◌, Result, ok, err,
  Error, ◌≡◌, refl, ◌∙◌, inl, inr, Bool-cases, arith, count, count-append, leb, get_elem?,
}
use cluster_api_bootstrap_pr.Api.{
  Machine, Cluster, CritControlPlane, ObjectReference, CritConfigSpec,
}
use cluster_api_bootstrap_pr.ControlPlane.{ControlPlane}
use cluster_api_bootstrap_pr.ControlPlane.Interface.{Library}
use cluster_api_bootstrap_pr.Controller.Environment.{Call, Trace, then_call, Answers}
use cluster_api_bootstrap_pr.Controller.Generation.{
  cleanup, clean_and_fail, machine_step, config_step, template_step, generate_machine, new_machine,
  new_config, generate_crit_config, clone_configs_and_generate_machine,
}
use cluster_api_bootstrap_pr.Controller.Scaling.{
  and_then, created, scale_up_step, delete_step, selected_step, scale_down_step, generate_in,
  generate_at, create_from, initialize, scale_up, scale_down, reconcile_health,
  upgrade_control_plane,
}

-- Whether a call deletes a Machine.
abbrev pub is_deletion : Call → Bool
is_deletion (Call.delete_machine m) = true
is_deletion _ = false

abbrev pub deletions : Trace → ℕ
deletions tr = count is_deletion tr

-- One more call that deletes no Machine.
pub other_call :
    (tr : Trace) (call : Call)
    → is_deletion call ≡ false
    → deletions (then_call tr call) ≡ deletions tr
other_call tr call h = ground (arith, count-append is_deletion tr (call ∷ []))

module _ (deep_hash : String → ObjectReference → CritConfigSpec → String) (answers : Answers)
    (ccp : CritControlPlane) (cluster : Cluster) where
  cleanup-deletions :
      (refs : List (Option ObjectReference)) (tr : Trace)
      → deletions (cleanup deep_hash answers ccp cluster refs tr).1 ≡ deletions tr
  unfolding cleanup
  cleanup-deletions [] tr = refl
  cleanup-deletions (none ∷ refs) tr = cleanup-deletions refs tr
  cleanup-deletions (some ref ∷ refs) tr =
      cleanup-deletions refs (then_call tr (Call.delete_reference ref))
      ∙ other_call tr (Call.delete_reference ref) refl

  machine_step-deletions :
      (infra boot : ObjectReference) (r : Option Error × Trace)
      → deletions (machine_step deep_hash answers ccp cluster infra boot r).1 ≡ deletions r.1
  unfolding clean_and_fail
  machine_step-deletions infra boot (none, tr) = refl
  machine_step-deletions infra boot (some e, tr) =
      cleanup-deletions (some infra ∷ some boot ∷ []) tr

  config_step-deletions :
      (infra : ObjectReference) (fd : Option String) (r : Result ObjectReference × Trace)
      → deletions (config_step deep_hash answers ccp cluster infra fd r).1 ≡ deletions r.1
  unfolding clean_and_fail generate_machine
  config_step-deletions infra fd (err e, tr) = cleanup-deletions (some infra ∷ none ∷ []) tr
  config_step-deletions infra fd (ok boot, tr) =
      machine_step-deletions infra boot
        (generate_machine deep_hash answers ccp cluster infra boot fd tr)
      ∙ other_call tr
          (Call.create_machine (
            new_machine deep_hash answers ccp cluster infra boot fd
              (answers.generate_name tr (concat ccp.name "-"))))
          refl

  template_step-deletions :
      (spec : CritConfigSpec) (fd : Option String) (r : Result ObjectReference) (tr : Trace)
      → deletions (template_step deep_hash answers ccp cluster spec fd r tr).1 ≡ deletions tr
  unfolding generate_crit_config
  template_step-deletions spec fd (err e) tr = refl
  template_step-deletions spec fd (ok infra) tr =
      config_step-deletions infra fd (generate_crit_config deep_hash answers ccp cluster spec tr)
      ∙ other_call tr
          (Call.create_config (
            new_config deep_hash answers ccp cluster spec
              (answers.generate_name tr (concat ccp.name "-"))))
          refl

and_then-deletions :
    (r : Option Error × Trace) (next : Trace → Option Error × Trace)
    → ((t : Trace) → deletions (next t).1 ≡ deletions t)
    → deletions (and_then r next).1 ≡ deletions r.1
and_then-deletions (some e, tr) next h = refl
and_then-deletions (none, tr) next h = h tr

module _ (lib : Library) (answers : Answers) (c : ControlPlane) where
  generate_in-deletions :
      (fd : Option String) (tr : Trace)
      → deletions (generate_in lib answers c fd tr).1 ≡ deletions tr
  unfolding clone_configs_and_generate_machine
  generate_in-deletions fd tr =
      template_step-deletions lib.deep_hash answers c.ccp c.cluster c.ccp.spec.crit_config_spec fd
        (answers.clone_template tr c.ccp.spec.infrastructure_template)
        (then_call tr (Call.clone_template c.ccp.spec.infrastructure_template))
      ∙ other_call tr (Call.clone_template c.ccp.spec.infrastructure_template) refl

  generate_at-deletions :
      (fd : Option (Option String)) (tr : Trace)
      → deletions (generate_at lib answers c fd tr).1 ≡ deletions tr
  generate_at-deletions none tr = refl
  generate_at-deletions (some fd) tr = generate_in-deletions fd tr

  create_from-deletions :
      (fds : List (Option String)) (i n : ℕ) (tr : Trace)
      → deletions (create_from lib answers c fds i n tr).1 ≡ deletions tr
  unfolding create_from
  create_from-deletions fds i zero tr = refl
  create_from-deletions fds i (suc n) tr =
      and_then-deletions (generate_at lib answers c (get_elem? fds i) tr)
        (λ tr'. create_from lib answers c fds (suc i) n tr') (create_from-deletions fds (suc i) n)
      ∙ generate_at-deletions (get_elem? fds i) tr

  created-deletions :
      (r : Option Error × Trace) → deletions (created lib answers c r).1 ≡ deletions r.1
  created-deletions (none, tr) = refl
  created-deletions (some e, tr) = refl

  pub initialize-deletions : (tr : Trace) → deletions (initialize lib answers c tr).1 ≡ deletions tr
  unfolding initialize
  initialize-deletions tr =
      created-deletions (create_from lib answers c _ 0 _ tr) ∙ create_from-deletions _ 0 _ tr

  scale_up_step-deletions :
      (o : Option Error) (tr : Trace)
      → deletions (scale_up_step lib answers c (o, tr)).1 ≡ deletions tr
  scale_up_step-deletions (some e) tr = refl
  scale_up_step-deletions none tr =
      created-deletions (generate_in lib answers c _ tr) ∙ generate_in-deletions _ tr

  scale_up-deletions : (tr : Trace) → deletions (scale_up lib answers c tr).1 ≡ deletions tr
  unfolding scale_up reconcile_health
  scale_up-deletions tr =
      scale_up_step-deletions _ (then_call tr Call.check_health) ∙ other_call tr _ refl

  delete_step-deletions :
      (m : Machine) (o : Option Error) (tr : Trace)
      → deletions (delete_step lib answers c m o tr).1 ≤ suc (deletions tr)
  delete_step-deletions m (some e) tr = omega arith
  delete_step-deletions m none tr =
      ground (arith, count-append is_deletion tr (Call.delete_machine m ∷ []))

  selected_step-deletions :
      (r : Result Machine) (tr : Trace)
      → deletions (selected_step lib answers c r tr).1 ≤ suc (deletions tr)
  selected_step-deletions (err e) tr = omega arith
  selected_step-deletions (ok m) tr = omega (
    arith,
    delete_step-deletions m (answers.health tr) (then_call tr Call.check_health),
    other_call tr Call.check_health refl,
  )

  scale_down_step-deletions :
      (o : Option Error) (tr : Trace)
      → deletions (scale_down_step lib answers c (o, tr)).1 ≤ suc (deletions tr)
  scale_down_step-deletions (some e) tr = omega arith
  scale_down_step-deletions none tr = selected_step-deletions _ tr

  scale_down-deletions :
      (tr : Trace) → deletions (scale_down lib answers c tr).1 ≤ suc (deletions tr)
  unfolding scale_down reconcile_health
  scale_down-deletions tr = omega (
    arith,
    scale_down_step-deletions (reconcile_health lib answers c tr).0
        (then_call tr Call.check_health),
    other_call tr Call.check_health refl,
  )

  pub upgrade-deletions :
      (nodes : Result ℕ) (tr : Trace)
      → deletions (upgrade_control_plane lib answers c nodes tr).1 ≤ suc (deletions tr)
  unfolding upgrade_control_plane
  upgrade-deletions (err e) tr = omega arith
  upgrade-deletions (ok n) tr = elim (Bool-cases (leb n c.ccp.spec.replicas)) [
    | inl t ↦ rw (t, upgrade_control_plane) (omega (arith, scale_up-deletions tr))
    | inr t ↦ rw (t, upgrade_control_plane) (scale_down-deletions tr)
  ]
