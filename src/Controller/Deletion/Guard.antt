-- ===== src/Controller/Deletion/Guard.antt =====
-- controllers/controlplane/delete.go: what reconcileDelete keeps while machines are left.
use cluster_api_bootstrap_pr.Prelude.{
  All, All-of_Memᴰ, ℕ, String, Bool, true, false, Option, none, some, List, [], ◌∷◌, ◌++◌, map, ok,
  Error, ◌≡◌, ◌≢◌, refl, sym, ap, ◌∙◌, ◌⊎◌, inl, inr, Bool-cases, arith, keep, count-le-length,
  length-keep, length, is_empty, Memᴰ, ◌==◌,
}
use cluster_api_bootstrap_pr.Prelude.Dict.{values}
use cluster_api_bootstrap_pr.Api.{Machine, CritControlPlane}
use cluster_api_bootstrap_pr.Machines.Filters.{Filter, and_filter, owned_control_plane_machines}
use cluster_api_bootstrap_pr.Machines.Collection.{Collection, filter, new_from_machine_list}
use cluster_api_bootstrap_pr.Machines.Collection.Contents.{
  IsValid, passes, filter-keep, filter-IsValid, new_from_machine_list-IsValid,
}
use cluster_api_bootstrap_pr.Management.Cluster.{get_machines_for_cluster}
use cluster_api_bootstrap_pr.Controller.Environment.{Call, Trace, then_call, Answers}
use cluster_api_bootstrap_pr.Controller.Deletion.{
  delete_machines, machines_to_delete, delete_from, delete_owned, deletion_outcome,
  reconcile_delete,
}

append-then_call : (xs ys : Trace) (x : Call) → then_call xs x ++ ys ≡ xs ++ x ∷ ys
append-then_call [] ys x = refl
append-then_call (z ∷ xs) ys x = ap (λ (l : Trace). z ∷ l) (append-then_call xs ys x)

append-nil : (xs : Trace) → xs ++ [] ≡ xs
append-nil [] = refl
append-nil (x ∷ xs) = ap (λ (l : Trace). x ∷ l) (append-nil xs)

-- The loop asks to delete every machine of the list, in order, whatever is answered.
delete_machines-calls :
    (answers : Answers) (ms : List Machine) (tr : Trace)
    → (delete_machines answers ms tr).1 ≡ tr ++ map Call.delete_machine ms
unfolding delete_machines
delete_machines-calls answers [] tr = sym (append-nil tr)
delete_machines-calls answers (m ∷ ms) tr =
    delete_machines-calls answers ms (then_call tr (Call.delete_machine m))
    ∙ append-then_call tr (map Call.delete_machine ms) (Call.delete_machine m)

deletion_outcome-fails : (errs : List Error) → (deletion_outcome errs).1 ≢ none
deletion_outcome-fails [] h = cc
deletion_outcome-fails (e ∷ errs) h = cc

keep_all :
    (f : Filter) (s : Collection)
    → length s ≡ length (keep (passes f) s)
    → (x : Machine) → Memᴰ x (values s)
    → f (some x) ≡ true
keep_all f [] h x m = elim m [ ]
keep_all f ((k, y) ∷ s) h x m = elim (Bool-cases (f (some y))) [
  | inl t ↦ elim m [
    | Memᴰ.head e ↦ ap (λ (z : Machine). f (some z)) e ∙ t
    | Memᴰ.tail n ↦ keep_all f s (ground arith) x n
  ]
  | inr t ↦ absurd (ground (arith, count-le-length (passes f) s, length-keep (passes f) s))
]

-- the machines that GetMachinesForCluster finds in the cluster, and those of a control plane
abbrev pub machines_of : List Machine → Collection
machines_of ml = filter [] (new_from_machine_list ml)

abbrev pub owned_of : List Machine → String → Collection
owned_of ml name = filter (owned_control_plane_machines name ∷ []) (machines_of ml)

nonempty : (s : Collection) (m : Machine) → Memᴰ m (values s) → is_empty s ≡ false
nonempty [] m h = elim h [ ]
nonempty (e ∷ s) m h = refl

all_owned :
    (ml : List Machine) (name : String)
    → length (machines_of ml) ≡ length (owned_of ml name)
    → (x : Machine) → Memᴰ x (values (machines_of ml))
    → owned_control_plane_machines name (some x) ≡ true
unfolding and_filter
all_owned ml name h x m =
    let v : IsValid (machines_of ml) =
      filter-IsValid [] (new_from_machine_list ml) (new_from_machine_list-IsValid ml) in
    let owned = filter-keep (owned_control_plane_machines name ∷ []) (machines_of ml) v in
    let passed =
      keep_all (and_filter (owned_control_plane_machines name ∷ [])) (machines_of ml)
        (h ∙ ap length owned) x m in
    (ground arith)

-- While the control plane still owns a machine, reconcileDelete leaves the resource and its finalizer
-- as they are and returns an error, so it runs again; it deletes nothing, or the cluster has no
-- other machine and it asks to delete exactly the owned machines that are not being deleted.
pub reconcile_delete-guarded :
    (is_zero : Option ℕ → Bool) (remove_finalizer : String → List String → List String)
    (answers : Answers) (ccp : CritControlPlane) (ml : List Machine) (tr : Trace) (m : Machine)
    → Memᴰ m (values (owned_of ml ccp.name))
    → let done = reconcile_delete is_zero remove_finalizer answers ccp (ok ml) tr in
      (done.ccp ≡ ccp)
      × (done.outcome.1 ≢ none)
      × ((done.trace ≡ tr)
          ⊎ ((done.trace
                ≡ tr
                  ++ map Call.delete_machine (
                      values (
                        machines_to_delete is_zero remove_finalizer answers
                          (owned_of ml ccp.name))))
              × All
                  (λ x. owned_control_plane_machines ccp.name (some x) ≡ true)
                  (values (machines_of ml))))
unfolding reconcile_delete get_machines_for_cluster delete_from delete_owned
reconcile_delete-guarded is_zero remove_finalizer answers ccp ml tr m h =
    let some_owned = nonempty (owned_of ml ccp.name) m h in
    elim (Bool-cases (length (machines_of ml) == length (owned_of ml ccp.name))) [
      | inr t ↦ rw (some_owned, t) (refl, λ e. cc e, inl refl)
      | inl t ↦
          rw (some_owned, t)
            (
              refl,
              deletion_outcome-fails _,
              inr (
                delete_machines-calls answers _ tr,
                All-of_Memᴰ _ _ (all_owned ml ccp.name (ground arith)),
              ),
            )
    ]
