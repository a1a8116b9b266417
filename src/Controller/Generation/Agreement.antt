-- ===== src/Controller/Generation/Agreement.antt =====
-- GenerateCritConfig and NewMachine of internal/control_plane.go beside generateCritConfig and
-- generateMachine of helpers.go.
use Prim.Native.String.{◌++◌ as concat}
use cluster_api_bootstrap_pr.Prelude.{String, Option, some, ◌≡◌, refl}
use cluster_api_bootstrap_pr.Api.{ObjectReference, CritConfigSpec}
use cluster_api_bootstrap_pr.ControlPlane.{ControlPlane, hash_of}
use cluster_api_bootstrap_pr.ControlPlane.Interface.{Library}
use cluster_api_bootstrap_pr.ControlPlane.Objects.{control_plane_config, control_plane_machine}
use cluster_api_bootstrap_pr.Controller.Environment.{Answers}
use cluster_api_bootstrap_pr.Controller.Generation.{new_config, new_machine}

module _ (lib : Library) (answers : Answers) (generate_name : String → String)
    (c : ControlPlane) where
  -- The reconciler and the view of the control plane make the same CritConfig of a generated name.
  pub new_config-agrees :
      (spec : CritConfigSpec)
      → new_config lib.deep_hash answers c.ccp c.cluster spec
          (generate_name (concat c.ccp.name "-"))
        ≡ control_plane_config lib answers.control_plane_version generate_name c spec
  unfolding new_config control_plane_config hash_of
  new_config-agrees spec = refl

  -- They make the same Machine of a generated name, for a bootstrap reference that is not nil.
  pub new_machine-agrees :
      (infra_ref bootstrap_ref : ObjectReference) (failure_domain : Option String)
      → new_machine lib.deep_hash answers c.ccp c.cluster infra_ref bootstrap_ref failure_domain
          (generate_name (concat c.ccp.name "-"))
        ≡ control_plane_machine lib answers.control_plane_version generate_name c infra_ref
            (some bootstrap_ref)
            failure_domain
  unfolding new_machine control_plane_machine hash_of
  new_machine-agrees infra_ref bootstrap_ref failure_domain = refl
