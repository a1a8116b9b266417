-- ===== src/Controller/Generation.antt =====
-- controllers/controlplane/helpers.go: the resources of a new machine, and their cleanup.
pub mod Contract
pub mod Agreement
use cluster_api_bootstrap_pr.Prelude.{
  ℕ, String, Bool, true, false, Option, none, some, List, [], ◌∷◌, ◌++◌, Result, ok, err, Error,
  wrap, panic, new_aggregate, if◌then◌else◌,
}
use Prim.Native.String.{◌++◌ as concat}
use cluster_api_bootstrap_pr.Api.{
  Machine, Cluster, CritControlPlane, ObjectReference, OwnerReference, CritConfig, CritConfigSpec,
  spec_hash,
}
use cluster_api_bootstrap_pr.ControlPlane.{control_plane_labels_for_cluster_with_hash}
use cluster_api_bootstrap_pr.Controller.Environment.{Call, Trace, then_call, Answers}
use cluster_api_bootstrap_pr.Controller.Deletion.{unless_not_found}

module _ (deep_hash : String → ObjectReference → CritConfigSpec → String) (answers : Answers)
    (ccp : CritControlPlane) (cluster : Cluster) where
  abbrev pub owner : OwnerReference
  owner = record {
    api_version = answers.control_plane_version;
    kind = "CritControlPlane";
    name = ccp.name;
    uid = ccp.uid;
    controller = false;
  }

  abbrev pub machine_labels : List (String × String)
  machine_labels =
      control_plane_labels_for_cluster_with_hash cluster.name ccp.name
        (spec_hash deep_hash ccp.spec)

  -- the CritConfig that generateCritConfig creates, with the name that was generated
  unfoldable pub new_config : CritConfigSpec → String → CritConfig
  new_config spec name = record {
    name = name;
    namespace_of = ccp.namespace_of;
    uid = "";
    labels = machine_labels;
    owner_references = owner ∷ [];
    spec = spec;
    status = record {
      ready = false;
      data_secret_name = none;
      failure_reason = "";
      failure_message = "";
    };
  }

  abbrev pub config_reference : CritConfig → String → ObjectReference
  config_reference config uid = record {
    api_version = answers.bootstrap_version;
    kind = "CritConfig";
    namespace_of = config.namespace_of;
    name = config.name;
    uid = uid;
  }

  abbrev pub created_reference : CritConfig → Result String → Result ObjectReference
  created_reference config (err e) = err (wrap "Failed to create bootstrap configuration" e)
  created_reference config (ok uid) = ok (config_reference config uid)

  -- generateCritConfig
  unfoldable pub generate_crit_config : CritConfigSpec → Trace → Result ObjectReference × Trace
  generate_crit_config spec tr =
      let config = new_config spec (answers.generate_name tr (concat ccp.name "-")) in
      (
        created_reference config (answers.create_config tr config),
        then_call tr (Call.create_config config),
      )

  -- the Machine that generateMachine creates; the creation time is the server's
  unfoldable pub new_machine : ObjectReference → ObjectReference → Option String → String → Machine
  new_machine infra_ref bootstrap_ref failure_domain name = record {
    name = name;
    namespace_of = ccp.namespace_of;
    labels = machine_labels;
    annotations = none;
    owner_references = record owner { controller = true } ∷ [];
    creation_timestamp = 0;
    deletion_timestamp = none;
    cluster_name = cluster.name;
    version = some ccp.spec.version;
    infrastructure_ref = infra_ref;
    config_ref = some bootstrap_ref;
    failure_domain = failure_domain;
    node_ref = none;
  }

  abbrev pub creation_error : Option Error → Option Error
  creation_error none = none
  creation_error (some e) = some (wrap "Failed to create machine" e)

  -- generateMachine
  unfoldable pub generate_machine :
      ObjectReference → ObjectReference → Option String → Trace → Option Error × Trace
  generate_machine infra_ref bootstrap_ref failure_domain tr =
      let machine =
        new_machine infra_ref bootstrap_ref failure_domain
          (answers.generate_name tr (concat ccp.name "-")) in
      (
        creation_error (answers.create_machine tr machine),
        then_call tr (Call.create_machine machine),
      )

  -- cleanupFromGeneration: nil references are skipped
  unfoldable pub cleanup : List (Option ObjectReference) → Trace → List Error × Trace
  cleanup [] tr = ([], tr)
  cleanup (none ∷ refs) tr = cleanup refs tr
  cleanup (some ref ∷ refs) tr =
      let (errs, tr') = cleanup refs (then_call tr (Call.delete_reference ref)) in
      (unless_not_found (answers.delete_reference tr ref) ++ errs, tr')

  abbrev pub with_cleanup_error : Error → Option Error → Option Error
  with_cleanup_error e none = new_aggregate (e ∷ [])
  with_cleanup_error e (some c) =
      new_aggregate (e ∷ wrap "failed to cleanup generated resources" c ∷ [])

  -- the end of cloneConfigsAndGenerateMachine after an error: the cleanup, and the errors together
  unfoldable pub clean_and_fail :
      Error → List (Option ObjectReference) → Trace → Option Error × Trace
  clean_and_fail e refs tr =
      let (errs, tr') = cleanup refs tr in (with_cleanup_error e (new_aggregate errs), tr')

  abbrev pub machine_step :
      ObjectReference → ObjectReference → Option Error × Trace → Option Error × Trace
  machine_step infra_ref bootstrap_ref (none, tr) = (none, tr)
  machine_step infra_ref bootstrap_ref (some e, tr) =
      clean_and_fail (wrap "failed to create Machine" e) (some infra_ref ∷ some bootstrap_ref ∷ [])
        tr

  abbrev pub config_step :
      ObjectReference → Option String → Result ObjectReference × Trace → Option Error × Trace
  config_step infra_ref failure_domain (err e, tr) =
      clean_and_fail (wrap "failed to generate bootstrap config" e) (some infra_ref ∷ none ∷ []) tr
  config_step infra_ref failure_domain (ok bootstrap_ref, tr) =
      machine_step infra_ref bootstrap_ref
        (generate_machine infra_ref bootstrap_ref failure_domain tr)

  abbrev pub template_step :
      CritConfigSpec → Option String → Result ObjectReference → Trace → Option Error × Trace
  template_step spec failure_domain (err e) tr =
      (some (wrap "failed to clone infrastructure template" e), tr)
  template_step spec failure_domain (ok infra_ref) tr =
      config_step infra_ref failure_domain (generate_crit_config spec tr)

  -- cloneConfigsAndGenerateMachine
  unfoldable pub clone_configs_and_generate_machine :
      CritConfigSpec → Option String → Trace → Option Error × Trace
  clone_configs_and_generate_machine spec failure_domain tr =
      template_step spec failure_domain (answers.clone_template tr ccp.spec.infrastructure_template)
        (then_call tr (Call.clone_template ccp.spec.infrastructure_template))
