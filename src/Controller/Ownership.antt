-- ===== src/Controller/Ownership.antt =====
-- EnsureOwnership of internal/control_plane.go: the machines without a controller are taken over.
-- The machines of the map are visited in its order.
pub mod Taken
use cluster_api_bootstrap_pr.Prelude.{
  String, Bool, true, false, not, Option, none, some, List, [], ◌∷◌, ◌++◌, Error, errorf,
  new_aggregate, str_eq, if◌then◌else◌, ◌||◌,
}
use cluster_api_bootstrap_pr.Api.{Machine, OwnerReference, CritControlPlane}
use cluster_api_bootstrap_pr.Machines.Collection.{Collection}
use cluster_api_bootstrap_pr.Controller.Environment.{Call, Trace, then_call, Answers}

-- the error of the call, the machines as they are in memory, and the calls
abbrev pub Owned : Type 0
Owned = Option Error × Collection × Trace

abbrev pub first_visited : String → Machine → Owned → Owned
first_visited name m (e, s, tr) = (e, (name, m) ∷ s, tr)

abbrev pub errors_of : Option Error → List Error
errors_of none = []
errors_of (some e) = e ∷ []

module _ (answers : Answers) (ccp : CritControlPlane) where
  -- metav1.NewControllerRef(c.CCP, ...)
  abbrev pub controller_reference : OwnerReference
  controller_reference = record {
    api_version = answers.control_plane_version;
    kind = "CritControlPlane";
    name = ccp.name;
    uid = ccp.uid;
    controller = true;
  }

  abbrev pub taken_over : Machine → Machine
  taken_over m = record m { owner_references = m.owner_references ++ controller_reference ∷ [] }

  abbrev pub is_foreign : OwnerReference → Bool
  is_foreign ref = not (str_eq ref.kind "CritControlPlane") || not (str_eq ref.name ccp.name)

  -- the loop of EnsureOwnership, with the errors that it has collected
  unfoldable pub own_machines : List Error → Collection → Trace → Owned
  own_machines errs [] tr = (new_aggregate errs, [], tr)
  own_machines errs ((name, m) ∷ s) tr = elim (answers.controller_of m) [
    | some ref ↦ elim (is_foreign ref) [
      | true ↦ (some (errorf "Machine is already owned by another controller"), (name, m) ∷ s, tr)
      | false ↦ first_visited name m (own_machines errs s tr)
    ]
    | none ↦ first_visited name (taken_over m) (
        own_machines (errs ++ errors_of (answers.update_machine tr (taken_over m))) s
          (then_call tr (Call.update_machine (taken_over m))))
  ]

  -- EnsureOwnership
  unfoldable pub ensure_ownership : Collection → Trace → Owned
  ensure_ownership s tr = own_machines [] s tr
