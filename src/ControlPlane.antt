-- ===== src/ControlPlane.antt =====
-- internal/control_plane.go and internal/cluster_labels.go: the view of a control plane that the
-- reconciler decides on.
pub mod Interface
pub mod Selection
pub mod Objects
use cluster_api_bootstrap_pr.Prelude.{
  ℕ, String, Bool, not, Option, none, some, List, [], ◌∷◌, Result, ok, err, errorf, is_empty,
  if◌then◌else◌, Error, wrap,
}
use cluster_api_bootstrap_pr.Prelude.Dict.{insert, values}
use cluster_api_bootstrap_pr.Api.{
  Machine, Cluster, FailureDomains, CritControlPlane, ObjectReference, OwnerReference, CritConfig,
  CritConfigSpec, spec_hash,
}
use cluster_api_bootstrap_pr.Machines.Filters.{
  not_filter, in_failure_domains, matches_configuration_hash, has_deletion_timestamp,
  cluster_label_name, machine_control_plane_label_name, hash_label_key,
}
use cluster_api_bootstrap_pr.Machines.Collection.{Collection, filter, oldest}
use cluster_api_bootstrap_pr.Machines.FailureDomain.{pick_most, pick_fewest, pick_n_fewest}
use cluster_api_bootstrap_pr.ControlPlane.Interface.{Library}

-- ControlPlane, without its client
pub record ControlPlane : Type 0 where
  pub ccp : CritControlPlane
  pub cluster : Cluster
  pub machines : Collection

-- ControlPlaneLabelsForCluster
unfoldable pub control_plane_labels_for_cluster : String → String → List (String × String)
control_plane_labels_for_cluster cluster_name control_plane_name =
    (cluster_label_name, cluster_name) ∷ (machine_control_plane_label_name, control_plane_name) ∷ []

-- ControlPlaneLabelsForClusterWithHash
unfoldable pub control_plane_labels_for_cluster_with_hash :
    String → String → String → List (String × String)
unfolding control_plane_labels_for_cluster insert
control_plane_labels_for_cluster_with_hash cluster_name control_plane_name hash =
    insert hash_label_key hash (control_plane_labels_for_cluster cluster_name control_plane_name)

module _ (lib : Library) where
  -- SpecHash
  unfoldable pub hash_of : ControlPlane → String
  hash_of c = spec_hash lib.deep_hash c.ccp.spec

  -- MachinesNeedingUpgrade
  unfoldable pub machines_needing_upgrade : ControlPlane → Collection
  machines_needing_upgrade c =
      filter (not_filter (matches_configuration_hash (hash_of c)) ∷ []) c.machines

  -- FailureDomainWithMostMachines. Oldest of a collection that is not empty is not nil, so the
  -- case for nil below stands for no run of the program.
  unfoldable pub failure_domain_with_most_machines : ControlPlane → Collection → Option String
  failure_domain_with_most_machines c machines =
      let ids = lib.get_ids (lib.filter_control_plane c.cluster.failure_domains) in
      let not_in = filter (not_filter (in_failure_domains ids) ∷ []) machines in
      if not (is_empty not_in)
      then elim (oldest lib.by_creation not_in) [ none ↦ none | some m ↦ m.failure_domain ]
      else pick_most lib.sorter (lib.filter_control_plane c.cluster.failure_domains)
          (values c.machines) (values machines)

  -- MachineInFailureDomainWithMostMachines
  unfoldable pub machine_in_failure_domain_with_most_machines :
      ControlPlane → Collection → Result Machine
  machine_in_failure_domain_with_most_machines c machines =
      let fd = failure_domain_with_most_machines c machines in
      let machines_in_domain = filter (in_failure_domains (fd ∷ []) ∷ []) machines in
      elim (oldest lib.by_creation machines_in_domain) [
        | none ↦ err (errorf "failed to pick control plane Machine to mark for deletion")
        | some m ↦ ok m
      ]

  -- FailureDomainWithFewestMachines
  unfoldable pub failure_domain_with_fewest_machines : ControlPlane → Option String
  failure_domain_with_fewest_machines c =
      let domains = lib.filter_control_plane c.cluster.failure_domains in
      if is_empty domains then none else pick_fewest lib.sorter domains (values c.machines)

  -- NFailureDomainsWithFewestMachines
  unfoldable pub n_failure_domains_with_fewest_machines : ControlPlane → ℕ → List (Option String)
  n_failure_domains_with_fewest_machines c replicas =
      pick_n_fewest lib.sorter (lib.filter_control_plane c.cluster.failure_domains)
        (values c.machines) replicas

  -- HasDeletingMachine
  unfoldable pub has_deleting_machine : ControlPlane → Bool
  has_deleting_machine c =
      not (is_empty (filter (has_deletion_timestamp lib.is_zero ∷ []) c.machines))

  -- selectMachineForScaleDown (controllers/controlplane/upgrade.go)
  unfoldable pub select_machine_for_scale_down : ControlPlane → Result Machine
  select_machine_for_scale_down c =
      let needing_upgrade = machines_needing_upgrade c in
      machine_in_failure_domain_with_most_machines c
        (if not (is_empty needing_upgrade) then needing_upgrade else c.machines)
