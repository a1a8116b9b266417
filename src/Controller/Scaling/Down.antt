-- ===== src/Controller/Scaling/Down.antt =====
-- controllers/controlplane/upgrade.go: what scaleDownControlPlane does on every branch.
use cluster_api_bootstrap_pr.Prelude.{
  Option-cases, true, false, none, some, ok, Error, ◌≡◌, refl, Memᴰ, ◌⊎◌, inl, inr, Bool-cases,
}
use cluster_api_bootstrap_pr.Prelude.Dict.{values}
use cluster_api_bootstrap_pr.Api.{Machine}
use cluster_api_bootstrap_pr.Machines.Collection.Contents.{IsValid}
use cluster_api_bootstrap_pr.ControlPlane.{
  ControlPlane, has_deleting_machine, select_machine_for_scale_down,
}
use cluster_api_bootstrap_pr.ControlPlane.Interface.{Library}
use cluster_api_bootstrap_pr.ControlPlane.Selection.{select_machine_for_scale_down_lem}
use cluster_api_bootstrap_pr.Controller.Environment.{Call, Trace, then_call, Answers, no_requeue}
use cluster_api_bootstrap_pr.Controller.Scaling.{
  health_failed, reconcile_health, scale_down, deletion_step,
}

abbrev pub check_once : Trace → Trace
check_once tr = then_call tr Call.check_health

-- The control plane was not healthy, or one of its machines is being deleted.
abbrev pub IsBlocked : Library → Answers → ControlPlane → Trace → Type 0
IsBlocked lib answers c tr =
    ((e : Error) × (answers.health tr ≡ some e)) ⊎ (has_deleting_machine lib c ≡ true)

-- The control plane was healthy, and none of its machines is being deleted.
abbrev pub IsSettled : Library → Answers → ControlPlane → Trace → Type 0
IsSettled lib answers c tr = (answers.health tr ≡ none) × (has_deleting_machine lib c ≡ false)

-- For a control plane with a machine, scaleDownControlPlane is blocked and changes nothing, or it
-- selects one of the machines; then it deletes that machine and no other if the control plane
-- passes a second health check, and changes nothing if it does not.
pub scale_down_lem :
    (lib : Library) (answers : Answers) (c : ControlPlane) (tr : Trace) (m : Machine)
    → IsValid c.machines
    → Memᴰ m (values c.machines)
    → (IsBlocked lib answers c tr
        × (scale_down lib answers c tr ≡ ((no_requeue, some health_failed), check_once tr)))
      ⊎ (IsSettled lib answers c tr
          × ((x : Machine) × (select_machine_for_scale_down lib c ≡ ok x)
              × Memᴰ x (values c.machines)
              × ((((e : Error) × (answers.health (check_once tr) ≡ some e))
                    × (scale_down lib answers c tr
                        ≡ ((no_requeue, some health_failed), check_once (check_once tr))))
                  ⊎ ((answers.health (check_once tr) ≡ none)
                      × (scale_down lib answers c tr ≡ (
                        deletion_step lib answers c
                            (answers.delete_machine (check_once (check_once tr)) x),
                        then_call (check_once (check_once tr)) (Call.delete_machine x),
                      ))))))
unfolding scale_down reconcile_health
scale_down_lem lib answers c tr m v h = elim (Option-cases (answers.health tr)) [
  | inr (e, t) ↦ inl (inl (e, t), rw (t, scale_down, reconcile_health) refl)
  | inl t ↦ elim (Bool-cases (has_deleting_machine lib c)) [
    | inl d ↦ inl (inr d, rw (t, d, scale_down, reconcile_health) refl)
    | inr d ↦
        let (x, e, inside, _) = select_machine_for_scale_down_lem lib c m v h in
        elim (Option-cases (answers.health (check_once tr))) [
          | inr (f, u) ↦ inr (
            (t, d),
            (x, e, inside, inl ((f, u), rw (t, d, e, u, scale_down, reconcile_health) refl)),
          )
          | inl u ↦
              inr (
                (t, d),
                (x, e, inside, inr (u, rw (t, d, e, u, scale_down, reconcile_health) refl)),
              )
        ]
  ]
]
