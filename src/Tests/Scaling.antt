-- ===== src/Tests/Scaling.antt =====
-- The theorems on certificates, machines created and machines deleted, at concrete inputs.
use cluster_api_bootstrap_pr.Prelude.{
  ◌+◌, String, true, false, Option, none, some, List, [], ◌∷◌, ok, err, Error, ◌≡◌, ◌≢◌, ◌⊎◌, refl,
  Memᴰ, All, map, count,
}
use cluster_api_bootstrap_pr.Prelude.Dict.{values}
use cluster_api_bootstrap_pr.Api.{Machine, File}
use cluster_api_bootstrap_pr.Machines.Filters.{and_filter, has_deletion_timestamp}
use cluster_api_bootstrap_pr.Machines.Collection.{filter, filter_into, insert_machines}
use cluster_api_bootstrap_pr.ControlPlane.{select_machine_for_scale_down, has_deleting_machine}
use cluster_api_bootstrap_pr.Secret.Store.{Secret}
use cluster_api_bootstrap_pr.Secret.Certificates.{
  Certificate, Certificates, Purpose, new_certificates_for_control_plane, lookup_or_generate,
  as_secret, lookup_certificates, lookup_certificate, generate, generate_certificate,
  save_generated, save_certificate, secret_key, secret_name,
}
use cluster_api_bootstrap_pr.Secret.Files.{as_files}
use cluster_api_bootstrap_pr.Secret.Stored.{IsStored, settled}
use cluster_api_bootstrap_pr.Secret.Idempotence.{lookup_or_generate_again}
use cluster_api_bootstrap_pr.Controller.Environment.{Call, then_call, no_requeue, requeue_now}
use cluster_api_bootstrap_pr.Controller.Ownership.{controller_reference}
use cluster_api_bootstrap_pr.Controller.Generation.{
  clone_configs_and_generate_machine, generate_crit_config, generate_machine, clean_and_fail,
  cleanup, config_reference,
}
use cluster_api_bootstrap_pr.Controller.Generation.Contract.{
  IsGenerated, after_clone, config_of, clone_configs-success, clone_configs-cleaned,
}
use cluster_api_bootstrap_pr.Controller.Scaling.{
  health_failed, scale_up, scale_down, reconcile_health, deletion_step, generate_in, initialize,
}
use cluster_api_bootstrap_pr.Controller.Scaling.Down.{
  IsBlocked, IsSettled, check_once, scale_down_lem,
}
use cluster_api_bootstrap_pr.Controller.Scaling.Up.{
  HasFewest, is_creation, scale_up-creates, initialize-creates,
}
use cluster_api_bootstrap_pr.Controller.Reconcile.{object_key}
use cluster_api_bootstrap_pr.Tests.Samples.{
  library, m1, control_plane, ccp, cluster, config_spec, template,
}
use cluster_api_bootstrap_pr.Tests.Stores.{store}
use cluster_api_bootstrap_pr.Tests.Choices.{collection-IsValid}
use cluster_api_bootstrap_pr.Tests.Runs.{answers, failing, key_pair, services}

scale_down_lem_example :
    (IsBlocked library answers control_plane []
      × (scale_down library answers control_plane []
          ≡ ((no_requeue, some health_failed), check_once [])))
    ⊎ (IsSettled library answers control_plane []
        × ((x : Machine) × (select_machine_for_scale_down library control_plane ≡ ok x)
            × Memᴰ x (values control_plane.machines)
            × ((((e : Error) × (answers.health (check_once []) ≡ some e))
                  × (scale_down library answers control_plane []
                      ≡ ((no_requeue, some health_failed), check_once (check_once []))))
                ⊎ ((answers.health (check_once []) ≡ none)
                    × (scale_down library answers control_plane [] ≡ (
                      deletion_step library answers control_plane
                          (answers.delete_machine (check_once (check_once [])) x),
                      then_call (check_once (check_once [])) (Call.delete_machine x),
                    ))))))
scale_down_lem_example =
    scale_down_lem library answers control_plane [] m1 collection-IsValid (Memᴰ.head refl)

no_deletion : has_deleting_machine library control_plane ≡ false
unfolding has_deleting_machine filter filter_into insert_machines and_filter has_deletion_timestamp
no_deletion = refl

made_one :
    (clone_configs_and_generate_machine library.deep_hash answers ccp cluster config_spec
      (some "a")
      []).0
    ≡ none
unfolding clone_configs_and_generate_machine generate_crit_config generate_machine
made_one = refl

scaled_up : (scale_up library answers control_plane []).0.1 ≡ none
unfolding scale_up reconcile_health clone_configs_and_generate_machine generate_crit_config
    generate_machine
scaled_up = rw no_deletion refl

scale_up-creates_example :
    (fd : Option String) × ((scale_up library answers control_plane []).0 ≡ (requeue_now, none))
    × HasFewest
        (values control_plane.machines)
        (library.filter_control_plane cluster.failure_domains)
        fd
    × IsGenerated library.deep_hash answers ccp cluster config_spec fd
        (check_once [])
        (scale_up library answers control_plane []).1
    × IsSettled library answers control_plane []
scale_up-creates_example = scale_up-creates library answers control_plane [] scaled_up

initialize-creates_example :
    (((initialize library answers control_plane []).0 ≡ (requeue_now, none))
      × (count is_creation (initialize library answers control_plane []).1 ≡ 0 + 3))
    ⊎ ((fd : Option String) × (t : List Call) × (e : Error) × ((generate_in library answers
            control_plane fd t).0
          ≡ some e)
        × ((initialize library answers control_plane []).0 ≡ (no_requeue, some e)))
initialize-creates_example = initialize-creates library answers control_plane []

clone_configs-success_example :
    IsGenerated library.deep_hash answers ccp cluster config_spec
      (some "a")
      []
      (clone_configs_and_generate_machine library.deep_hash answers ccp cluster config_spec
        (some "a")
        []).1
clone_configs-success_example =
    clone_configs-success library.deep_hash answers ccp cluster config_spec (some "a") [] made_one

not_made :
    (clone_configs_and_generate_machine library.deep_hash failing ccp cluster config_spec
      (some "a")
      []).0
    ≢ none
unfolding clone_configs_and_generate_machine generate_crit_config generate_machine clean_and_fail
    cleanup
not_made h = cc

clone_configs-cleaned_example :
    Memᴰ
      (Call.delete_reference (record template { name = "infra-1" }))
      (clone_configs_and_generate_machine library.deep_hash failing ccp cluster config_spec
        (some "a")
        []).1
    × (((e : Error) × (failing.create_config
              (after_clone library.deep_hash failing ccp cluster [])
              (config_of library.deep_hash failing ccp cluster config_spec [])
            ≡ err e))
        ⊎ ((uid : String) × (failing.create_config
                (after_clone library.deep_hash failing ccp cluster [])
                (config_of library.deep_hash failing ccp cluster config_spec [])
              ≡ ok uid)
            × Memᴰ
                (Call.delete_reference (
                  config_reference library.deep_hash failing ccp cluster
                    (config_of library.deep_hash failing ccp cluster config_spec [])
                    uid))
                (clone_configs_and_generate_machine library.deep_hash failing ccp cluster
                  config_spec
                  (some "a")
                  []).1))
clone_configs-cleaned_example =
    clone_configs-cleaned library.deep_hash failing ccp cluster config_spec (some "a") []
      (record template { name = "infra-1" }) refl not_made

abbrev certificate : Purpose → Certificate
certificate p = record {
  generated = true;
  purpose = p;
  key_pair = some key_pair;
  cert_file = "/etc/kubernetes/pki";
  key_file = "/etc/kubernetes/pki";
}

abbrev certificates : Certificates
certificates =
    certificate "ca"
    ∷ certificate "sa"
    ∷ certificate "proxy"
    ∷ certificate "auth-proxy"
    ∷ certificate "etcd"
    ∷ []

abbrev saved_secret : Purpose → Secret
saved_secret p =
    as_secret (object_key cluster) (controller_reference answers ccp) (certificate p) key_pair

abbrev stored : List Secret
stored =
    saved_secret "etcd"
    ∷ saved_secret "auth-proxy"
    ∷ saved_secret "proxy"
    ∷ saved_secret "sa"
    ∷ saved_secret "ca"
    ∷ []

first_round :
    lookup_or_generate store
      (object_key cluster)
      (controller_reference answers ccp)
      services.ca_cert
      services.service_account_keys
      (new_certificates_for_control_plane services.join "pki")
      []
    ≡ (ok certificates, stored)
unfolding lookup_or_generate new_certificates_for_control_plane lookup_certificates
    lookup_certificate generate generate_certificate save_generated save_certificate as_secret
    secret_key secret_name
first_round = refl

lookup_or_generate_again_example :
    All (IsStored store (object_key cluster) stored) certificates
    × ((files : List File) × (as_files certificates ≡ ok files))
    × (lookup_or_generate store
          (object_key cluster)
          (controller_reference answers ccp)
          services.ca_cert
          services.service_account_keys
          (new_certificates_for_control_plane services.join "pki")
          stored
        ≡ (ok (map settled certificates), stored))
lookup_or_generate_again_example =
    lookup_or_generate_again store (object_key cluster) (controller_reference answers ccp)
      services.ca_cert services.service_account_keys services.join "pki" certificates [] stored
      first_round
