-- ===== src/Machines/FailureDomain.antt =====
-- internal/failure_domain.go: how many machines each failure domain has, and which domain to take.
-- The order of the counters, which Go leaves open, is that of the failure domains; sort.Sort is a
-- parameter.
pub mod Counts
pub mod Order
pub mod Choice
pub mod Most
use cluster_api_bootstrap_pr.Prelude.{
  ℕ, zero, suc, ◌+◌, ◌%◌, String, Bool, true, false, Option, none, some, List, [], ◌∷◌, map, foldl,
  str_eq, if◌then◌else◌, ltb, ◌==◌, length, is_empty, get_elem?, is_some,
}
use cluster_api_bootstrap_pr.Prelude.Dict.{lookup, keys}
use cluster_api_bootstrap_pr.Api.{Machine, FailureDomains}
use cluster_api_bootstrap_pr.Machines.Sort.{Sort}

-- failureDomainAggregation; Go's `int` never wraps here, since the count is of items in memory
pub record Aggregation : Type 0 where
  pub id : String
  pub count : ℕ

-- Less on the aggregations
unfoldable pub less : Aggregation → Aggregation → Bool
less a b = ltb a.count b.count

-- Less under sort.Reverse
unfoldable pub more : Aggregation → Aggregation → Bool
more a b = ltb b.count a.count

-- `counters[id]++`
unfoldable pub increment : String → List Aggregation → List Aggregation
increment id [] = []
increment id (c ∷ counters) =
    (if str_eq c.id id then record c { count = suc c.count } else c) ∷ increment id counters

-- one round of the loop over the machines
unfoldable pub count_machine : FailureDomains → List Aggregation → Option String → List Aggregation
unfolding increment
count_machine domains counters none = counters
count_machine domains counters (some id) =
    if is_some (lookup id domains) then increment id counters else counters

unfoldable pub count_machines : FailureDomains → List Aggregation → List Machine → List Aggregation
unfolding count_machine
count_machines domains counters [] = counters
count_machines domains counters (m ∷ ms) =
    count_machines domains (count_machine domains counters m.failure_domain) ms

unfoldable pub initial_counters : List String → List Aggregation
initial_counters [] = []
initial_counters (id ∷ ids) = record { id = id; count = 0 } ∷ initial_counters ids

unfoldable pub pick : FailureDomains → List Machine → List Aggregation
unfolding count_machines initial_counters
pick domains machines =
    if is_empty domains
    then []
    else count_machines domains (initial_counters (keys domains)) machines

-- the inner loop of PickMost
unfoldable pub has_machine_in : String → List Machine → Bool
has_machine_in id [] = false
has_machine_in id (m ∷ ms) = elim m.failure_domain [
  | none ↦ has_machine_in id ms
  | some d ↦ if str_eq d id then true else has_machine_in id ms
]

-- the outer loop of PickMost
unfoldable pub first_with_machine : List Aggregation → List Machine → Option String
unfolding has_machine_in
first_with_machine [] machines = none
first_with_machine (fd ∷ fds) machines =
    if has_machine_in fd.id machines then some fd.id else first_with_machine fds machines

-- the loop of PickNFewest over `i`, with `k` rounds left
unfoldable pub cycle : List Aggregation → ℕ → ℕ → List (Option String)
cycle aggregations i zero = []
cycle aggregations i (suc k) =
    elim (get_elem? aggregations (i % length aggregations)) [ none ↦ none | some a ↦ some a.id ]
    ∷ cycle aggregations (suc i) k

-- make([]*string, n)
unfoldable pub nils : ℕ → List (Option String)
nils zero = []
nils (suc n) = none ∷ nils n

module _ (sorter : Sort Aggregation) where
  -- orderDescending
  unfoldable pub order_descending : FailureDomains → List Machine → List Aggregation
  unfolding pick more
  order_descending domains machines =
      let aggregations = pick domains machines in
      if is_empty aggregations then [] else sorter.sort more aggregations

  -- PickMost; `control_plane_domains` is c.Cluster.Status.FailureDomains.FilterControlPlane(),
  -- `all_machines` the machines of c
  unfoldable pub pick_most : FailureDomains → List Machine → List Machine → Option String
  unfolding order_descending first_with_machine
  pick_most control_plane_domains all_machines machines =
      first_with_machine (order_descending control_plane_domains all_machines) machines

  -- PickFewest
  unfoldable pub pick_fewest : FailureDomains → List Machine → Option String
  unfolding pick less
  pick_fewest domains machines =
      let aggregations = pick domains machines in
      if is_empty aggregations
      then none
      else elim (sorter.sort less aggregations) [ [] ↦ none | a ∷ rest ↦ some a.id ]

  -- PickNFewest
  unfoldable pub pick_n_fewest : FailureDomains → List Machine → ℕ → List (Option String)
  unfolding pick less cycle nils
  pick_n_fewest domains machines n =
      let aggregations = pick domains machines in
      if is_empty aggregations then nils n else cycle (sorter.sort less aggregations) 0 n
