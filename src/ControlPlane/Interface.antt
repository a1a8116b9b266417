-- ===== src/ControlPlane/Interface.antt =====
-- What the control plane code takes from Cluster API, Kubernetes and Go's sort package, with the
-- documented behaviour that it relies on.
use cluster_api_bootstrap_pr.Prelude.{
  ℕ, String, Bool, Option, none, some, List, ◌↔◌, ◌≡◌, Memᴰ, length,
}
use cluster_api_bootstrap_pr.Prelude.Dict.{keys}
use cluster_api_bootstrap_pr.Api.{Machine, FailureDomains, ObjectReference, CritConfigSpec}
use cluster_api_bootstrap_pr.Machines.Sort.{Sort, IsOrdered}
use cluster_api_bootstrap_pr.Machines.FailureDomain.{Aggregation}

pub record Library : Type 0 where
  -- (*metav1.Time).IsZero and Before
  pub is_zero : Option ℕ → Bool
  pub before : ℕ → Option ℕ → Bool
  -- sort.Sort(util.MachinesByCreationTimestamp(...)): the same machines, none created before one
  -- that stands earlier
  pub by_creation : List Machine → List Machine
  pub by_creation_same : (ms : List Machine) (m : Machine) → Memᴰ m (by_creation ms) ↔ Memᴰ m ms
  pub by_creation_length : (ms : List Machine) → length (by_creation ms) ≡ length ms
  pub by_creation_ordered :
      (ms : List Machine)
      → IsOrdered (λ a b. before a.creation_timestamp (some b.creation_timestamp)) (by_creation ms)
  -- sort.Sort on the counters of failure domains
  pub sorter : Sort Aggregation
  -- clusterv1.FailureDomains: FilterControlPlane, and GetIDs with a pointer to each key
  pub filter_control_plane : FailureDomains → FailureDomains
  pub get_ids : FailureDomains → List (Option String)
  pub get_ids_same :
      (domains : FailureDomains) (id : String)
      → Memᴰ (some id) (get_ids domains) ↔ Memᴰ id (keys domains)
  pub get_ids_some : (domains : FailureDomains) → ¬ Memᴰ none (get_ids domains)
  -- fnv and mdutil.DeepHashObject in CritControlPlaneSpec.Hash
  pub deep_hash : String → ObjectReference → CritConfigSpec → String
