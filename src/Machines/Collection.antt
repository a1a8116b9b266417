-- ===== src/Machines/Collection.antt =====
-- internal/machine_collection.go: a set of machines, a map from a machine's name to the machine.
-- sort.Sort(util.MachinesByCreationTimestamp(...)) is the parameter `by_creation`.
pub mod Contents
use cluster_api_bootstrap_pr.Prelude.{
  String, Option, none, some, List, [], ◌∷◌, length, is_empty, if◌then◌else◌, ◌==◌, get_elem?, ◌-◌,
}
use cluster_api_bootstrap_pr.Prelude.Dict.{insert, values}
use cluster_api_bootstrap_pr.Api.{Machine}
use cluster_api_bootstrap_pr.Machines.Filters.{Filter, and_filter, or_filter}

-- FilterableMachineCollection
abbrev pub Collection : Type 0
Collection = List (String × Machine)

-- Insert skips nil pointers.
unfoldable pub insert_machines : Collection → List (Option Machine) → Collection
unfolding insert
insert_machines s [] = s
insert_machines s (none ∷ machines) = insert_machines s machines
insert_machines s (some m ∷ machines) = insert_machines (insert m.name m s) machines

abbrev pointers : List Machine → List (Option Machine)
pointers [] = []
pointers (m ∷ ms) = some m ∷ pointers ms

-- NewFilterableMachineCollectionFromMachineList
unfoldable pub new_from_machine_list : List Machine → Collection
unfolding insert_machines
new_from_machine_list items = insert_machines [] (pointers items)

-- the loop of newFilteredMachineCollection
unfoldable pub filter_into : Filter → Collection → List Machine → Collection
unfolding insert_machines
filter_into filter ss [] = ss
filter_into filter ss (m ∷ machines) =
    filter_into filter (if filter (some m) then insert_machines ss (some m ∷ []) else ss) machines

-- unsortedList: the machines in the order of the map
abbrev pub unsorted_list : Collection → List Machine
unsorted_list = values

-- Filter
unfoldable pub filter : List Filter → Collection → Collection
unfolding filter_into
filter filters s = filter_into (and_filter filters) [] (unsorted_list s)

-- AnyFilter
unfoldable pub any_filter : List Filter → Collection → Collection
unfolding filter_into
any_filter filters s = filter_into (or_filter filters) [] (unsorted_list s)

module _ (by_creation : List Machine → List Machine) where
  unfoldable pub sorted_by_creation_timestamp : Collection → List Machine
  sorted_by_creation_timestamp s = by_creation (unsorted_list s)

  -- Oldest: nil for an empty collection
  unfoldable pub oldest : Collection → Option Machine
  unfolding sorted_by_creation_timestamp
  oldest s = if is_empty s then none else get_elem? (sorted_by_creation_timestamp s) 0

  -- Newest
  unfoldable pub newest : Collection → Option Machine
  unfolding sorted_by_creation_timestamp
  newest s = if is_empty s then none else get_elem? (sorted_by_creation_timestamp s) (length s - 1)
