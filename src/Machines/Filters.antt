-- ===== src/Machines/Filters.antt =====
-- internal/machinefilters/machine_filters.go. A filter takes a pointer, so an optional machine.
-- (*metav1.Time).IsZero and (*metav1.Time).Before are parameters.
pub mod Algebra
use cluster_api_bootstrap_pr.Prelude.{
  ℕ, String, Bool, true, false, not, Option, none, some, List, [], ◌∷◌, str_eq, if◌then◌else◌,
  is_some,
}
use cluster_api_bootstrap_pr.Prelude.Dict.{lookup}
use cluster_api_bootstrap_pr.Api.{Machine}

-- type Func
abbrev pub Filter : Type 0
Filter = Option Machine → Bool

-- clusterv1.MachineControlPlaneLabelName and clusterv1.ClusterLabelName
abbrev pub machine_control_plane_label_name : String
machine_control_plane_label_name = "cluster.x-k8s.io/control-plane"

abbrev pub cluster_label_name : String
cluster_label_name = "cluster.x-k8s.io/cluster-name"

-- controlplanev1.CritControlPlaneHashLabelKey
abbrev pub hash_label_key : String
hash_label_key = "crit.controlplane.cluster.x-k8s.io/hash"

-- And: the loop returns at the first filter that fails.
unfoldable pub and_filter : List Filter → Filter
and_filter [] machine = true
and_filter (f ∷ filters) machine = if not (f machine) then false else and_filter filters machine

-- Or: the loop returns at the first filter that passes.
unfoldable pub or_filter : List Filter → Filter
or_filter [] machine = false
or_filter (f ∷ filters) machine = if f machine then true else or_filter filters machine

unfoldable pub not_filter : Filter → Filter
not_filter mf machine = not (mf machine)

-- the loop of InFailureDomains over the given pointers; the second argument is the machine's
pub in_domains : List (Option String) → Option String → Bool
in_domains [] domain = false
in_domains (none ∷ fds) none = true
in_domains (none ∷ fds) (some d) = in_domains fds (some d)
in_domains (some fd ∷ fds) none = in_domains fds none
in_domains (some fd ∷ fds) (some d) = if str_eq fd d then true else in_domains fds (some d)

unfoldable pub in_failure_domains : List (Option String) → Filter
unfolding in_domains
in_failure_domains fds none = false
in_failure_domains fds (some machine) = in_domains fds machine.failure_domain

-- `machine.Labels[k]` after the test for the key
abbrev has_label_value : Option String → String → Bool
has_label_value none v = false
has_label_value (some w) v = str_eq w v

unfoldable pub owned_control_plane_machines : String → Filter
unfolding lookup
owned_control_plane_machines control_plane_name none = false
owned_control_plane_machines control_plane_name (some machine) =
    has_label_value (lookup machine_control_plane_label_name machine.labels) control_plane_name

unfoldable pub has_deletion_timestamp : (Option ℕ → Bool) → Filter
has_deletion_timestamp is_zero none = false
has_deletion_timestamp is_zero (some machine) = not (is_zero machine.deletion_timestamp)

unfoldable pub matches_configuration_hash : String → Filter
unfolding lookup
matches_configuration_hash config_hash none = false
matches_configuration_hash config_hash (some machine) =
    has_label_value (lookup hash_label_key machine.labels) config_hash

unfoldable pub older_than : (ℕ → Option ℕ → Bool) → Option ℕ → Filter
older_than before t none = false
older_than before t (some machine) = before machine.creation_timestamp t

unfoldable pub has_annotation_key : String → Filter
unfolding lookup
has_annotation_key key none = false
has_annotation_key key (some machine) = elim machine.annotations [
  | none ↦ false
  | some annotations ↦ is_some (lookup key annotations)
]
