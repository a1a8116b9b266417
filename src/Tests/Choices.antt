-- ===== src/Tests/Choices.antt =====
-- The theorems on filters, collections, failure domains and selection, at concrete machines.
use cluster_api_bootstrap_pr.Prelude.{
  ◌%◌, ◌≤◌, ◌<◌, String, true, false, Option, none, some, List, [], ◌∷◌, ok, ◌≡◌, ◌⊎◌, refl, arith,
  Memᴰ, length, get_elem?, is_empty, if◌then◌else◌,
}
use cluster_api_bootstrap_pr.Prelude.Dict.{keys, values, lookup}
use cluster_api_bootstrap_pr.Api.{Machine}
use cluster_api_bootstrap_pr.Machines.Sort.Insertion.{insertion}
use cluster_api_bootstrap_pr.Machines.Filters.{
  Filter, and_filter, matches_configuration_hash, owned_control_plane_machines,
}
use cluster_api_bootstrap_pr.Machines.Collection.{filter, new_from_machine_list}
use cluster_api_bootstrap_pr.Machines.Collection.Contents.{IsValid, filter-new_from_machine_list}
use cluster_api_bootstrap_pr.Machines.FailureDomain.{pick_most, pick_fewest, pick_n_fewest}
use cluster_api_bootstrap_pr.Machines.FailureDomain.Counts.{machines_in}
use cluster_api_bootstrap_pr.Machines.FailureDomain.Choice.{pick_fewest-le, pick_n_fewest_at}
use cluster_api_bootstrap_pr.Machines.FailureDomain.Most.{pick_most-le}
use cluster_api_bootstrap_pr.ControlPlane.{
  failure_domain_with_most_machines, hash_of, machines_needing_upgrade,
  select_machine_for_scale_down,
}
use cluster_api_bootstrap_pr.ControlPlane.Selection.{select_machine_for_scale_down_lem}
use cluster_api_bootstrap_pr.Tests.Samples.{
  library, m1, machines, collection, domains, control_plane,
}

known_b : Memᴰ "b" (keys domains)
known_b = Memᴰ.tail (Memᴰ.head refl)

pub collection-IsValid : IsValid collection
unfolding lookup
collection-IsValid = (refl, refl, (refl, refl, (refl, refl, tt)))

pick_fewest-le_example :
    (id : String) × (pick_fewest insertion domains machines ≡ some id)
    × Memᴰ id (keys domains)
    × (machines_in machines id ≤ machines_in machines "b")
pick_fewest-le_example = pick_fewest-le insertion domains machines "b" known_b

pick_n_fewest_at_example :
    (id : String) × (length (pick_n_fewest insertion domains machines 3) ≡ 3)
    × (get_elem? (pick_n_fewest insertion domains machines 3) 2 ≡ some (some id))
    × (get_elem? (pick_n_fewest insertion domains machines 3) (2 % length domains) ≡ some (some id))
    × Memᴰ id (keys domains)
pick_n_fewest_at_example = pick_n_fewest_at insertion domains machines 3 2 "b" (omega arith) known_b

b_used : 0 < machines_in machines "b"
b_used = omega arith

pick_most-le_example :
    (id : String) × (pick_most insertion domains machines machines ≡ some id)
    × Memᴰ id (keys domains)
    × (0 < machines_in machines id)
    × (machines_in machines "b" ≤ machines_in machines id)
pick_most-le_example = pick_most-le insertion domains machines machines "b" known_b b_used

abbrev filters : List Filter
filters = owned_control_plane_machines "cp" ∷ matches_configuration_hash "v1" ∷ []

filter-new_from_machine_list_example :
    IsValid (new_from_machine_list machines)
    × IsValid (filter filters (new_from_machine_list machines))
    × (lookup "m2" (filter filters (new_from_machine_list machines))
        ≡ elim (lookup "m2" (new_from_machine_list machines)) as (λ _. Option Machine) [
          | none ↦ none
          | some m ↦ if and_filter filters (some m) then some m else none
        ])
filter-new_from_machine_list_example = filter-new_from_machine_list machines filters "m2"

select_machine_for_scale_down_lem_example :
    (x : Machine) × (select_machine_for_scale_down library control_plane ≡ ok x)
    × Memᴰ x (values control_plane.machines)
    × (((matches_configuration_hash (hash_of library control_plane) (some x) ≡ false)
          × (x.failure_domain
              ≡ failure_domain_with_most_machines library control_plane
                  (machines_needing_upgrade library control_plane)))
        ⊎ ((is_empty (machines_needing_upgrade library control_plane) ≡ true)
            × (x.failure_domain
                ≡ failure_domain_with_most_machines library control_plane control_plane.machines)))
select_machine_for_scale_down_lem_example =
    select_machine_for_scale_down_lem library control_plane m1 collection-IsValid (Memᴰ.head refl)
