-- ===== src/Management/Health.antt =====
-- What a control plane that healthCheck finds healthy looks like.
use mathlib.Core.Option.{none-ne-some}
use mathlib.Core.List.{cons≢nil}
use cluster_api_bootstrap_pr.Prelude.{
  String, true, Option, none, some, List, [], ◌∷◌, ok, Error, ◌≡◌, ◌↔◌, arith, refl, sym, All,
  length, is_some, new_aggregate, Result, err, ◌≢◌, Option-cases, inl, inr, ok_injective,
}
use cluster_api_bootstrap_pr.Prelude.Dict.{lookup, values}
use cluster_api_bootstrap_pr.Api.{Machine}
use cluster_api_bootstrap_pr.Machines.Filters.{owned_control_plane_machines}
use cluster_api_bootstrap_pr.Machines.Collection.{Collection, filter, new_from_machine_list}
use cluster_api_bootstrap_pr.Management.Workload.{HealthCheckResult}
use cluster_api_bootstrap_pr.Management.Cluster.{
  get_machines_for_cluster, node_errors, match_node, match_machines, match_all, health_check,
}

-- no error is recorded for a node
abbrev pub NoError : String × Option Error → Type 0
NoError (name, e) = e ≡ none

-- The machine has a node, and that node was checked.
abbrev pub HasCheckedNode : HealthCheckResult → Machine → Type 0
HasCheckedNode checks m =
    (name : String) × (m.node_ref ≡ some name) × (is_some (lookup name checks) ≡ true)

abbrev pub owned : List Machine → String → Collection
owned ml name = filter (owned_control_plane_machines name ∷ []) (new_from_machine_list ml)

node_errors-nil : (checks : HealthCheckResult) → node_errors checks ≡ [] → All NoError checks
unfolding node_errors
node_errors-nil [] h = tt
node_errors-nil ((name, none) ∷ checks) h = (refl, node_errors-nil checks h)
node_errors-nil ((name, some e) ∷ checks) h = absurd (cons≢nil h)

All→node_errors : (checks : HealthCheckResult) → All NoError checks → node_errors checks ≡ []
unfolding node_errors
All→node_errors [] h = refl
All→node_errors ((name, none) ∷ checks) h = All→node_errors checks h.1
All→node_errors ((name, some e) ∷ checks) h = absurd (none-ne-some e (sym h.0))

match_node→HasCheckedNode :
    (checks : HealthCheckResult) (m : Machine)
    → match_node checks m.node_ref ≡ none
    → HasCheckedNode checks m
match_node→HasCheckedNode checks m h = go m.node_ref refl h
  where
    go : (o : Option String) → m.node_ref ≡ o → match_node checks o ≡ none → HasCheckedNode checks m
    go none e q = absurd (ground arith)
    go (some name) e q = (name, e, ground arith)

match_machines→All :
    (checks : HealthCheckResult) (ms : List Machine)
    → match_machines checks ms ≡ none
    → All (HasCheckedNode checks) ms
unfolding match_machines
match_machines→All checks [] h = tt
match_machines→All checks (m ∷ ms) h =
    let here : match_node checks m.node_ref ≡ none = (ground arith) in
    let later : match_machines checks ms ≡ none = (ground arith) in
    (match_node→HasCheckedNode checks m here, match_machines→All checks ms later)

All→match_machines :
    (checks : HealthCheckResult) (ms : List Machine)
    → All (HasCheckedNode checks) ms
    → match_machines checks ms ≡ none
unfolding match_machines
All→match_machines checks [] h = refl
All→match_machines checks (m ∷ ms) ((name, e, found), h) =
    ground (arith, All→match_machines checks ms h)

match_all_iff :
    (checks : HealthCheckResult) (machines : Collection)
    → (match_all checks (ok machines) ≡ none)
      ↔ (All (HasCheckedNode checks) (values machines) × (length checks ≡ length machines))
match_all_iff checks machines = (
  λ h. (match_machines→All checks (values machines) (ground arith), (ground arith)),
  λ (matched, sizes). ground (arith, All→match_machines checks (values machines) matched),
)

both_ok :
    (checks : HealthCheckResult) (ml : List Machine) (name : String)
    → (health_check (ok checks) (ok ml) name ≡ none) ↔ (
        All NoError checks
        × All (HasCheckedNode checks) (values (owned ml name))
        × (length checks ≡ length (owned ml name)))
unfolding health_check get_machines_for_cluster
both_ok checks ml name = (to (node_errors checks) refl, from)
  where
    to :
        (es : List Error)
        → node_errors checks ≡ es
        → elim (new_aggregate es) as (λ _. Option Error) [
          | some e ↦ some e
          | none ↦ match_all checks (ok (owned ml name))
        ]
          ≡ none
        → All NoError checks
          × All (HasCheckedNode checks) (values (owned ml name))
          × (length checks ≡ length (owned ml name))
    to (e ∷ es) p h = absurd (ground arith)
    to [] p h =
        let (matched, sizes) = (match_all_iff checks (owned ml name)).0 h in
        (node_errors-nil checks p, matched, sizes)

    from :
        All NoError checks
          × All (HasCheckedNode checks) (values (owned ml name))
          × (length checks ≡ length (owned ml name))
        → health_check (ok checks) (ok ml) name ≡ none
    from (quiet, matched, sizes) =
        rw (All→node_errors checks quiet, health_check)
          ((match_all_iff checks (owned ml name)).1 (matched, sizes))

-- The check ran, the machines were listed, and the two agree.
abbrev pub IsHealthy : Result HealthCheckResult → Result (List Machine) → String → Type 0
IsHealthy checked listed name =
    (checks : HealthCheckResult) × (ml : List Machine) × (checked ≡ ok checks)
    × (listed ≡ ok ml)
    × All NoError checks
    × All (HasCheckedNode checks) (values (owned ml name))
    × (length checks ≡ length (owned ml name))

list_failed :
    (checks : HealthCheckResult) (e : Error) (name : String)
    → health_check (ok checks) (err e) name ≢ none
unfolding health_check get_machines_for_cluster
list_failed checks e name = elim (Option-cases (new_aggregate (node_errors checks))) [
  | inl t ↦ rw (t, health_check) (λ h. cc)
  | inr (a, t) ↦ rw (t, health_check) (λ h. cc)
]

check_failed :
    (e : Error) (listed : Result (List Machine)) (name : String)
    → health_check (err e) listed name ≢ none
unfolding health_check
check_failed e listed name h = cc

-- healthCheck reports no error exactly when the check of the nodes ran without an error and the
-- machines were listed without one, no node has an error, every owned machine has a node that was
-- checked, and there are as many nodes as owned machines.
pub health_check_iff :
    (checked : Result HealthCheckResult) (listed : Result (List Machine)) (name : String)
    → (health_check checked listed name ≡ none) ↔ IsHealthy checked listed name
health_check_iff (err e) listed name = (
  λ h. absurd (check_failed e listed name h),
  λ (checks, ml, c, l, quiet, matched, sizes). absurd (cc c),
)
health_check_iff (ok checks) (err e) name = (
  λ h. absurd (list_failed checks e name h),
  λ (checks', ml, c, l, quiet, matched, sizes). absurd (cc l),
)
health_check_iff (ok checks) (ok ml) name = (
  λ h.
      let (quiet, matched, sizes) = (both_ok checks ml name).0 h in
      (checks, ml, refl, refl, quiet, matched, sizes),
  λ (checks', ml', c, l, quiet, matched, sizes).
      rw (ok_injective checks checks' c, ok_injective ml ml' l)
        ((both_ok checks' ml' name).1 (quiet, matched, sizes)),
)
