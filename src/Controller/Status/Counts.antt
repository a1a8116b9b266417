-- ===== src/Controller/Status/Counts.antt =====
-- controllers/controlplane/status.go: what a status says after updateStatus.
use cluster_api_bootstrap_pr.Prelude.{
  Option-cases, Result-cases, String, Bool, true, false, some, str_eq, ◌∙◌, Option, Error, ◌⊎◌, not,
  none, List, [], ◌∷◌, Result, ok, ◌≡◌, refl, inl, inr, Bool-cases, length, count, length-keep,
  sub_ℕ, ◌==◌,
}
use cluster_api_bootstrap_pr.Prelude.Dict.{lookup}
use cluster_api_bootstrap_pr.Api.{
  Machine, Cluster, CritControlPlane, CritControlPlaneStatus, spec_hash,
}
use cluster_api_bootstrap_pr.Machines.Filters.{
  owned_control_plane_machines, matches_configuration_hash, and_filter,
}
use cluster_api_bootstrap_pr.Machines.Collection.{filter, new_from_machine_list}
use cluster_api_bootstrap_pr.Machines.Collection.Contents.{
  IsValid, passes, filter-keep, filter-IsValid, new_from_machine_list-IsValid,
}
use cluster_api_bootstrap_pr.ControlPlane.{control_plane_labels_for_cluster}
use cluster_api_bootstrap_pr.ControlPlane.Interface.{Library}
use cluster_api_bootstrap_pr.Management.Workload.{Node}
use cluster_api_bootstrap_pr.Management.Cluster.{get_machines_for_cluster}
use cluster_api_bootstrap_pr.Controller.Status.{
  Observed, initialized_after, update_status, basic_status, node_status,
}

swap : (b : Bool) → (b ≡ false) ⊎ (b ≡ true)
swap false = inl refl
swap true = inr refl

initialized-kept :
    (lib : Library) (selector_string : List (String × String) → Result String)
    (is_node_ready : Node → Bool) (seen : Observed) (b : Bool) (o : Option Error)
    → (b ≡ false) ⊎ (initialized_after lib selector_string is_node_ready seen b o ≡ true)
initialized-kept lib selector_string is_node_ready seen false o = inl refl
initialized-kept lib selector_string is_node_ready seen true o = inr refl

-- updateStatus changes nothing but the status, on every branch, and a control plane that was
-- initialized stays so.
pub update_status-keeps :
    (lib : Library) (selector_string : List (String × String) → Result String)
    (is_node_ready : Node → Bool) (seen : Observed) (ccp : CritControlPlane) (cluster : Cluster)
    → let after = (update_status lib selector_string is_node_ready seen ccp cluster).1 in
      (after ≡ record ccp { status = after.status })
      × ((ccp.status.initialized ≡ false) ⊎ (after.status.initialized ≡ true))
unfolding update_status basic_status node_status
update_status-keeps lib selector_string is_node_ready seen ccp cluster =
    let kept = swap (ccp.status.initialized) in
    elim (Result-cases (selector_string (control_plane_labels_for_cluster cluster.name ccp.name))) [
      | inl (e, s) ↦ rw (s, update_status) (refl, kept)
      | inr (selector, s) ↦
          elim (Result-cases
            (get_machines_for_cluster seen.listed (owned_control_plane_machines ccp.name ∷ []))) [
              | inl (e, l) ↦ rw (s, l, update_status) (refl, kept)
              | inr (owned, l) ↦ elim (Bool-cases (lib.is_zero ccp.deletion_timestamp)) [
                | inr d ↦ rw (s, l, d, update_status) (refl, kept)
                | inl d ↦ elim (Option-cases seen.remote_client) [
                  | inr (e, r) ↦ rw (s, l, d, r, update_status) (refl, kept)
                  | inl r ↦ elim (Result-cases seen.nodes) [
                    | inl (e, n) ↦ rw (s, l, d, r, n, update_status) (refl, kept)
                    | inr (nodes, n) ↦
                        rw (s, l, d, r, n, update_status)
                          (
                            refl,
                            initialized-kept lib selector_string is_node_ready seen
                                ccp.status.initialized seen.config_map,
                          )
                  ]
                ]
              ]
            ]
    ]

-- The Machine has the label with the hash of the configuration.
abbrev pub is_current : String → String × Machine → Bool
is_current hash (name, m) = elim (lookup "crit.controlplane.cluster.x-k8s.io/hash" m.labels) [
  | none ↦ false
  | some v ↦ str_eq v hash
]

-- The counts of the status `after`, from the Machines and the nodes that were listed.
abbrev pub HasCounts :
    Library → (Node → Bool) → Observed → CritControlPlane → CritControlPlaneStatus → Type 0
HasCounts lib is_node_ready seen ccp after =
    (ml : List Machine) × (seen.listed ≡ ok ml)
    × (let owned = filter (owned_control_plane_machines ccp.name ∷ []) (new_from_machine_list ml) in
        (after.replicas ≡ length owned)
        × (after.updated_replicas ≡ count (is_current (spec_hash lib.deep_hash ccp.spec)) owned)
        × (((lib.is_zero ccp.deletion_timestamp ≡ false)
              × (after.ready_replicas ≡ 0)
              × (after.unavailable_replicas ≡ sub_ℕ (length owned) 0)
              × (after.ready ≡ ccp.status.ready))
            ⊎ ((lib.is_zero ccp.deletion_timestamp ≡ true)
                × ((nodes : List Node) × (seen.nodes ≡ ok nodes)
                    × (after.ready_replicas ≡ count is_node_ready nodes)
                    × (after.unavailable_replicas
                        ≡ sub_ℕ (length owned) (count is_node_ready nodes))
                    × (after.ready ≡ not (count is_node_ready nodes == 0))))))

count-ext :
    {A : Type 0} (p q : A → Bool) (xs : List A) → ((x : A) → p x ≡ q x) → count p xs ≡ count q xs
count-ext p q [] same = refl
count-ext p q (x ∷ xs) same = rw (same x, count-ext p q xs same) refl

passes-is_current :
    (hash : String) (x : String × Machine)
    → passes (and_filter (matches_configuration_hash hash ∷ [])) x ≡ is_current hash x
unfolding and_filter matches_configuration_hash
passes-is_current hash (name, m) =
    elim (Option-cases (lookup "crit.controlplane.cluster.x-k8s.io/hash" m.labels)) [
      | inl t ↦ rw (t, is_current) refl
      | inr (v, t) ↦ elim (Bool-cases (str_eq v hash)) [
        | inl e ↦ rw (t, e, is_current) refl
        | inr e ↦ rw (t, e, is_current) refl
      ]
    ]

updated_lem :
    (ml : List Machine) (name hash : String)
    → let owned = filter (owned_control_plane_machines name ∷ []) (new_from_machine_list ml) in
      length (filter (matches_configuration_hash hash ∷ []) owned) ≡ count (is_current hash) owned
updated_lem ml name hash =
    let owned = filter (owned_control_plane_machines name ∷ []) (new_from_machine_list ml) in
    let v : IsValid owned =
      filter-IsValid (owned_control_plane_machines name ∷ []) (new_from_machine_list ml)
        (new_from_machine_list-IsValid ml) in
    let f = passes (and_filter (matches_configuration_hash hash ∷ [])) in
    rw (filter-keep (matches_configuration_hash hash ∷ []) owned v)
      (length-keep f owned ∙ count-ext f (is_current hash) owned (passes-is_current hash))

-- When updateStatus reports no error, the Machines were listed: the replicas are those of the control
-- plane, and the updated replicas are those of them whose label has the hash of its spec. For a
-- control plane that is being deleted no replica is ready, all are unavailable, and whether it is
-- ready is left as it was. For any other one the nodes were listed too: the ready replicas are the
-- ready nodes, the rest is unavailable (a negative number when there are more ready nodes than
-- machines), and it is ready exactly when a node is.
pub update_status-counts :
    (lib : Library) (selector_string : List (String × String) → Result String)
    (is_node_ready : Node → Bool) (seen : Observed) (ccp : CritControlPlane) (cluster : Cluster)
    → (update_status lib selector_string is_node_ready seen ccp cluster).0 ≡ none
    → HasCounts lib is_node_ready seen ccp
        (update_status lib selector_string is_node_ready seen ccp cluster).1.status
unfolding update_status basic_status node_status get_machines_for_cluster
update_status-counts lib selector_string is_node_ready seen ccp cluster =
    elim (Result-cases (selector_string (control_plane_labels_for_cluster cluster.name ccp.name))) [
      | inl (e, s) ↦ rw (s, update_status) (λ h. cc)
      | inr (selector, s) ↦ elim (Result-cases seen.listed) [
        | inl (e, l) ↦ rw (s, l, update_status) (λ h. cc)
        | inr (ml, l) ↦
            let updated = updated_lem ml ccp.name (spec_hash lib.deep_hash ccp.spec) in
            elim (Bool-cases (lib.is_zero ccp.deletion_timestamp)) [
              | inr d ↦
                  rw (s, l, d, update_status)
                    (λ h. (ml, refl, (refl, updated, inl (refl, refl, refl, refl))))
              | inl d ↦ elim (Option-cases seen.remote_client) [
                | inr (e, r) ↦ rw (s, l, d, r, update_status) (λ h. cc)
                | inl r ↦ elim (Result-cases seen.nodes) [
                  | inl (e, n) ↦ rw (s, l, d, r, n, update_status) (λ h. cc)
                  | inr (nodes, n) ↦
                      rw (s, l, d, r, n, update_status)
                        (λ h.
                          (ml, refl, (refl, updated, inr (refl, (nodes, refl, refl, refl, refl)))))
                ]
              ]
            ]
      ]
    ]
