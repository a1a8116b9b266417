-- ===== src/Controller/Generation/Contract.antt =====
-- controllers/controlplane/helpers.go: what cloneConfigsAndGenerateMachine has created when it
-- returns, and what it has deleted again.
use Prim.Native.String.{◌++◌ as concat}
use cluster_api_bootstrap_pr.Prelude.{
  String, Option, none, some, List, [], ◌∷◌, ◌++◌, Result, ok, err, Error, ◌≡◌, refl, Memᴰ, ◌≢◌,
  ◌⊎◌, inl, inr, false, true,
}
use cluster_api_bootstrap_pr.Api.{
  Machine, Cluster, CritControlPlane, ObjectReference, CritConfig, CritConfigSpec, spec_hash,
}
use cluster_api_bootstrap_pr.ControlPlane.{control_plane_labels_for_cluster_with_hash}
use cluster_api_bootstrap_pr.Controller.Environment.{Call, Trace, then_call, Answers}
use cluster_api_bootstrap_pr.Controller.Generation.{
  new_config, new_machine, config_reference, created_reference, creation_error, cleanup,
  clean_and_fail, with_cleanup_error, machine_step, config_step, template_step,
  generate_crit_config, generate_machine, clone_configs_and_generate_machine,
}

pub Memᴰ-last : {A : Type 0} → (xs : List A) (x : A) → Memᴰ x (xs ++ x ∷ [])
Memᴰ-last [] x = Memᴰ.head refl
Memᴰ-last (y ∷ xs) x = Memᴰ.tail (Memᴰ-last xs x)

pub Memᴰ-before : {A : Type 0} → (xs ys : List A) (x : A) → Memᴰ x xs → Memᴰ x (xs ++ ys)
Memᴰ-before [] ys x h = elim h [ ]
Memᴰ-before (y ∷ xs) ys x (Memᴰ.head e) = Memᴰ.head e
Memᴰ-before (y ∷ xs) ys x (Memᴰ.tail h) = Memᴰ.tail (Memᴰ-before xs ys x h)

module _ (deep_hash : String → ObjectReference → CritConfigSpec → String) (answers : Answers)
    (ccp : CritControlPlane) (cluster : Cluster) where
  -- the calls up to the clone, the CritConfig that follows, and the calls up to it
  abbrev pub after_clone : Trace → Trace
  after_clone tr = then_call tr (Call.clone_template ccp.spec.infrastructure_template)

  abbrev pub config_of : CritConfigSpec → Trace → CritConfig
  config_of spec tr =
      new_config deep_hash answers ccp cluster spec
        (answers.generate_name (after_clone tr) (concat ccp.name "-"))

  abbrev pub after_config : CritConfigSpec → Trace → Trace
  after_config spec tr = then_call (after_clone tr) (Call.create_config (config_of spec tr))

  abbrev pub machine_of :
      CritConfigSpec → Option String → Trace → ObjectReference → String → Machine
  machine_of spec fd tr infra uid =
      new_machine deep_hash answers ccp cluster infra
        (config_reference deep_hash answers ccp cluster (config_of spec tr) uid) fd
        (answers.generate_name (after_config spec tr) (concat ccp.name "-"))

  abbrev made : CritConfigSpec → Option String → Trace → Option Error × Trace
  made spec fd tr = clone_configs_and_generate_machine deep_hash answers ccp cluster spec fd tr

  failed :
      (e : Error) (o : Option Error) → with_cleanup_error deep_hash answers ccp cluster e o ≢ none
  failed e none h = cc
  failed e (some c) h = cc

  machine_success :
      (infra boot : ObjectReference) (fd : Option String) (o : Option Error) (tr : Trace)
      → (machine_step deep_hash answers ccp cluster infra boot
          (creation_error deep_hash answers ccp cluster o, tr)).0
        ≡ none
      → (o ≡ none)
        × ((machine_step deep_hash answers ccp cluster infra boot
              (creation_error deep_hash answers ccp cluster o, tr)).1
            ≡ tr)
  unfolding clean_and_fail
  machine_success infra boot fd none tr h = (refl, refl)
  machine_success infra boot fd (some e) tr h = absurd (failed _ _ h)

  config_success :
      (spec : CritConfigSpec) (fd : Option String) (tr : Trace) (infra : ObjectReference)
      (r : Result String)
      → (config_step deep_hash answers ccp cluster infra fd (
        created_reference deep_hash answers ccp cluster (config_of spec tr) r,
        after_config spec tr,
      )).0
        ≡ none
      → (uid : String) × (r ≡ ok uid)
        × (answers.create_machine (after_config spec tr) (machine_of spec fd tr infra uid) ≡ none)
        × ((config_step deep_hash answers ccp cluster infra fd (
          created_reference deep_hash answers ccp cluster (config_of spec tr) r,
          after_config spec tr,
        )).1
            ≡ then_call
                (after_config spec tr)
                (Call.create_machine (machine_of spec fd tr infra uid)))
  unfolding clean_and_fail generate_machine
  config_success spec fd tr infra (err e) h = absurd (failed _ _ h)
  config_success spec fd tr infra (ok uid) h =
      let (created, calls) =
        machine_success infra
          (config_reference deep_hash answers ccp cluster (config_of spec tr) uid) fd
          (answers.create_machine (after_config spec tr) (machine_of spec fd tr infra uid))
          (then_call (after_config spec tr) (Call.create_machine (machine_of spec fd tr infra uid)))
          h in
      (uid, refl, created, calls)

  template_success :
      (spec : CritConfigSpec) (fd : Option String) (tr : Trace) (r : Result ObjectReference)
      → (template_step deep_hash answers ccp cluster spec fd r (after_clone tr)).0 ≡ none
      → (infra : ObjectReference) × (uid : String) × (r ≡ ok infra)
        × (answers.create_config (after_clone tr) (config_of spec tr) ≡ ok uid)
        × (answers.create_machine (after_config spec tr) (machine_of spec fd tr infra uid) ≡ none)
        × ((template_step deep_hash answers ccp cluster spec fd r (after_clone tr)).1
            ≡ then_call
                (after_config spec tr)
                (Call.create_machine (machine_of spec fd tr infra uid)))
  unfolding generate_crit_config
  template_success spec fd tr (err e) h = cc
  template_success spec fd tr (ok infra) h =
      let (uid, created, machine, calls) =
        config_success spec fd tr infra (answers.create_config (after_clone tr) (config_of spec tr))
          h in
      (infra, uid, refl, created, machine, calls)

  machine_failure :
      (infra boot : ObjectReference) (e : Option Error) (tr : Trace)
      → (machine_step deep_hash answers ccp cluster infra boot (e, tr)).0 ≢ none
      → Memᴰ
          (Call.delete_reference infra)
          (machine_step deep_hash answers ccp cluster infra boot (e, tr)).1
        × Memᴰ
            (Call.delete_reference boot)
            (machine_step deep_hash answers ccp cluster infra boot (e, tr)).1
  unfolding clean_and_fail cleanup
  machine_failure infra boot none tr h = absurd (h refl)
  machine_failure infra boot (some e) tr h = (
    Memᴰ-before (then_call tr (Call.delete_reference infra)) _ _ (Memᴰ-last tr _),
    Memᴰ-last (then_call tr (Call.delete_reference infra)) _,
  )

  config_failure :
      (spec : CritConfigSpec) (fd : Option String) (tr t : Trace) (infra : ObjectReference)
      (r : Result String)
      → (config_step deep_hash answers ccp cluster infra fd
          (created_reference deep_hash answers ccp cluster (config_of spec tr) r, t)).0
        ≢ none
      → Memᴰ
          (Call.delete_reference infra)
          (config_step deep_hash answers ccp cluster infra fd
            (created_reference deep_hash answers ccp cluster (config_of spec tr) r, t)).1
        × (((e : Error) × (r ≡ err e))
            ⊎ ((uid : String) × (r ≡ ok uid)
                × Memᴰ
                    (Call.delete_reference
                      (config_reference deep_hash answers ccp cluster (config_of spec tr) uid))
                    (config_step deep_hash answers ccp cluster infra fd (
                      created_reference deep_hash answers ccp cluster (config_of spec tr) r,
                      t,
                    )).1))
  unfolding clean_and_fail cleanup
  config_failure spec fd tr t infra (err e) h = (Memᴰ-last t _, inl (e, refl))
  config_failure spec fd tr t infra (ok uid) h =
      let (a, b) =
        machine_failure infra
          (config_reference deep_hash answers ccp cluster (config_of spec tr) uid) _ _ h in
      (a, inr (uid, refl, b))

-- The calls of a generation that succeeded: the clone of the template, the creation of one CritConfig
-- and the creation of one Machine in the failure domain `fd` that refers to both.
abbrev pub IsGenerated :
    (String → ObjectReference → CritConfigSpec → String)
    → Answers
    → CritControlPlane
    → Cluster
    → CritConfigSpec
    → Option String
    → Trace
    → Trace
    → Type 0
IsGenerated deep_hash answers ccp cluster spec fd tr tr' =
    let template = ccp.spec.infrastructure_template in
    let labels =
      control_plane_labels_for_cluster_with_hash cluster.name ccp.name
        (spec_hash deep_hash ccp.spec) in
    let tr₁ = then_call tr (Call.clone_template template) in
    let config : CritConfig = record {
      name = answers.generate_name tr₁ (concat ccp.name "-");
      namespace_of = ccp.namespace_of;
      uid = "";
      labels = labels;
      owner_references =
          record {
            api_version = answers.control_plane_version;
            kind = "CritControlPlane";
            name = ccp.name;
            uid = ccp.uid;
            controller = false;
          }
          ∷ [];
      spec = spec;
      status = record {
        ready = false;
        data_secret_name = none;
        failure_reason = "";
        failure_message = "";
      };
    } in
    let tr₂ = then_call tr₁ (Call.create_config config) in
    (infra : ObjectReference) × (uid : String) × (machine : Machine) × (answers.clone_template tr
        template
      ≡ ok infra)
    × (answers.create_config tr₁ config ≡ ok uid)
    × (answers.create_machine tr₂ machine ≡ none)
    × (tr' ≡ then_call tr₂ (Call.create_machine machine))
    × (machine.config_ref
        ≡ some (record {
          api_version = answers.bootstrap_version;
          kind = "CritConfig";
          namespace_of = ccp.namespace_of;
          name = config.name;
          uid = uid;
        }))
    × (machine.infrastructure_ref ≡ infra)
    × (machine.failure_domain ≡ fd)
    × (machine.version ≡ some ccp.spec.version)
    × (machine.cluster_name ≡ cluster.name)
    × (machine.namespace_of ≡ ccp.namespace_of)
    × (machine.labels ≡ labels)
    × (machine.owner_references
        ≡ record {
          api_version = answers.control_plane_version;
          kind = "CritControlPlane";
          name = ccp.name;
          uid = ccp.uid;
          controller = true;
        }
          ∷ [])

-- When cloneConfigsAndGenerateMachine succeeds, its calls are exactly the clone of the template, the
-- creation of one CritConfig with the given spec and the creation of one Machine, and all three
-- succeeded. The Machine refers to the clone, and to the CritConfig by its name and its UID; it has
-- the version of the control plane, the given failure domain, the name of the cluster, the labels of
-- the control plane with the hash of its spec, and the control plane as its controller.
pub clone_configs-success :
    (deep_hash : String → ObjectReference → CritConfigSpec → String) (answers : Answers)
    (ccp : CritControlPlane) (cluster : Cluster) (spec : CritConfigSpec) (fd : Option String)
    (tr : Trace)
    → (clone_configs_and_generate_machine deep_hash answers ccp cluster spec fd tr).0 ≡ none
    → IsGenerated deep_hash answers ccp cluster spec fd tr
        (clone_configs_and_generate_machine deep_hash answers ccp cluster spec fd tr).1
unfolding clone_configs_and_generate_machine new_config new_machine
clone_configs-success deep_hash answers ccp cluster spec fd tr h =
    let (infra, uid, cloned, configured, machined, calls) =
      template_success deep_hash answers ccp cluster spec fd tr
        (answers.clone_template tr ccp.spec.infrastructure_template) h in
    (
      infra,
      uid,
      machine_of deep_hash answers ccp cluster spec fd tr infra uid,
      cloned,
      configured,
      machined,
      calls,
      refl,
      refl,
      refl,
      refl,
      refl,
      refl,
      refl,
      refl,
    )

-- When cloneConfigsAndGenerateMachine fails after the clone of the template, it has asked to delete
-- the clone, and also the CritConfig if one was created.
pub clone_configs-cleaned :
    (deep_hash : String → ObjectReference → CritConfigSpec → String) (answers : Answers)
    (ccp : CritControlPlane) (cluster : Cluster) (spec : CritConfigSpec) (fd : Option String)
    (tr : Trace) (infra : ObjectReference)
    → answers.clone_template tr ccp.spec.infrastructure_template ≡ ok infra
    → (clone_configs_and_generate_machine deep_hash answers ccp cluster spec fd tr).0 ≢ none
    → Memᴰ
        (Call.delete_reference infra)
        (clone_configs_and_generate_machine deep_hash answers ccp cluster spec fd tr).1
      × (((e : Error) × (answers.create_config
                (after_clone deep_hash answers ccp cluster tr)
                (config_of deep_hash answers ccp cluster spec tr)
              ≡ err e))
          ⊎ ((uid : String) × (answers.create_config
                  (after_clone deep_hash answers ccp cluster tr)
                  (config_of deep_hash answers ccp cluster spec tr)
                ≡ ok uid)
              × Memᴰ
                  (Call.delete_reference (
                    config_reference deep_hash answers ccp cluster
                      (config_of deep_hash answers ccp cluster spec tr)
                      uid))
                  (clone_configs_and_generate_machine deep_hash answers ccp cluster spec fd tr).1))
unfolding clone_configs_and_generate_machine generate_crit_config
clone_configs-cleaned deep_hash answers ccp cluster spec fd tr infra e =
    rw (e, clone_configs_and_generate_machine)
      (λ h.
        config_failure deep_hash answers ccp cluster spec fd tr
          (after_config deep_hash answers ccp cluster spec tr) infra
          (answers.create_config (after_clone deep_hash answers ccp cluster tr)
            (config_of deep_hash answers ccp cluster spec tr))
          h)
