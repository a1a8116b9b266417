-- ===== src/Controller/Ownership/Taken.antt =====
-- EnsureOwnership: who controls the machines afterwards.
use cluster_api_bootstrap_pr.Prelude.{some, ◌≡◌, ◌⊎◌, Memᴰ, true}
use cluster_api_bootstrap_pr.Api.{Machine, OwnerReference, CritControlPlane}
use cluster_api_bootstrap_pr.Machines.Collection.{Collection}
use cluster_api_bootstrap_pr.Controller.Environment.{Call, Trace, Answers}

module _ (answers : Answers) (ccp : CritControlPlane) where
  -- The machine had a CritControlPlane of this name as its controller, or it was updated with a
  -- controller reference to this control plane.
  abbrev pub IsTaken : Trace → Machine → Type 0
  IsTaken tr m =
      ((ref : OwnerReference) × (answers.controller_of m ≡ some ref)
        × (ref.kind ≡ "CritControlPlane")
        × (ref.name ≡ ccp.name))
      ⊎ (Memᴰ
            (record {
              api_version = answers.control_plane_version;
              kind = "CritControlPlane";
              name = ccp.name;
              uid = ccp.uid;
              controller = true;
            })
            m.owner_references
          × Memᴰ (Call.update_machine m) tr)
