-- ===== src/ControlPlane/Selection.antt =====
-- Which machine is taken down: selection over a collection whose machines stand under their names.
use cluster_api_bootstrap_pr.Prelude.{
  ◌<◌, String, Bool, true, false, Option, none, some, str_eq, List, [], ◌∷◌, ok, arith, ◌≡◌, refl,
  ◌∙◌, ap, sym, subst, eq_iff, Memᴰ, Memᴰ-keep, keep-Memᴰ, keep, is_empty, get_elem?, Bool-cases,
  inl, inr, ◌⊎◌, All-Memᴰ,
}
use mathlib.Core.Bool.{true≢false}
use cluster_api_bootstrap_pr.Prelude.Dict.{values}
use cluster_api_bootstrap_pr.Api.{Machine}
use cluster_api_bootstrap_pr.Machines.Sort.{IsOrdered}
use cluster_api_bootstrap_pr.Machines.Filters.{
  Filter, and_filter, not_filter, in_failure_domains, matches_configuration_hash,
}
use cluster_api_bootstrap_pr.Machines.Filters.Algebra.{in_failure_domains-Memᴰ}
use cluster_api_bootstrap_pr.Machines.Collection.{Collection, filter, oldest}
use cluster_api_bootstrap_pr.Machines.Collection.Contents.{
  IsValid, passes, filter-keep, filter-IsValid,
}
use cluster_api_bootstrap_pr.Machines.FailureDomain.Counts.{machines_in, is_in}
use cluster_api_bootstrap_pr.Machines.FailureDomain.Most.{pick_most-le}
use cluster_api_bootstrap_pr.ControlPlane.{
  ControlPlane, hash_of, machines_needing_upgrade, failure_domain_with_most_machines,
  machine_in_failure_domain_with_most_machines, select_machine_for_scale_down,
}
use cluster_api_bootstrap_pr.ControlPlane.Interface.{Library}

values-keep :
    (f : Filter) (s : Collection) → values (keep (passes f) s) ≡ keep (λ m. f (some m)) (values s)
values-keep f [] = refl
values-keep f ((k, m) ∷ s) = ground (arith, values-keep f s)

module _ (f : Filter) (s : Collection) (v : IsValid s) (m : Machine) where
  values-filter : values (filter (f ∷ []) s) ≡ keep (λ x. and_filter (f ∷ []) (some x)) (values s)
  values-filter = rw (filter-keep (f ∷ []) s v) (values-keep (and_filter (f ∷ [])) s)

  -- The machines of a filtered collection are those of the collection that pass the filter.
  pub Memᴰ-filter : Memᴰ m (values (filter (f ∷ []) s)) → Memᴰ m (values s) × (f (some m) ≡ true)
  unfolding and_filter
  Memᴰ-filter h =
      let (inside, p) = Memᴰ-keep _ (values s) m (subst (Memᴰ m) values-filter h) in
      (inside, ground arith)

  pub filter-Memᴰ : Memᴰ m (values s) → f (some m) ≡ true → Memᴰ m (values (filter (f ∷ []) s))
  unfolding and_filter
  filter-Memᴰ h p = subst (Memᴰ m) (sym values-filter) (keep-Memᴰ _ (values s) m h (ground arith))

some_machine : (s : Collection) → is_empty s ≡ false → (m : Machine) × Memᴰ m (values s)
some_machine [] h = cc
some_machine ((k, m) ∷ s) h = (m, Memᴰ.head refl)

nonempty_of_Memᴰ : (s : Collection) (m : Machine) → Memᴰ m (values s) → is_empty s ≡ false
nonempty_of_Memᴰ [] m h = elim h [ ]
nonempty_of_Memᴰ (e ∷ s) m h = refl

module _ (lib : Library) where
  abbrev created_before : Machine → Machine → Bool
  created_before a b = lib.before a.creation_timestamp (some b.creation_timestamp)

  first_of_sorted :
      (l : List Machine) (x : Machine)
      → Memᴰ x l
      → IsOrdered created_before l
      → (m : Machine) × (get_elem? l 0 ≡ some m)
        × Memᴰ m l
        × ((x ≡ m) ⊎ (created_before x m ≡ false))
  first_of_sorted [] x h o = elim h [ ]
  first_of_sorted (m ∷ l) x (Memᴰ.head e) o = (m, refl, Memᴰ.head refl, inl e)
  first_of_sorted (m ∷ l) x (Memᴰ.tail h) o = (m, refl, Memᴰ.head refl, inr (All-Memᴰ _ l x o.0 h))

  -- Oldest of a collection with a machine is one of its machines, and that machine was not created
  -- before it.
  pub oldest_lem :
      (s : Collection) (x : Machine)
      → Memᴰ x (values s)
      → (m : Machine) × (oldest lib.by_creation s ≡ some m)
        × Memᴰ m (values s)
        × ((x ≡ m) ⊎ (created_before x m ≡ false))
  unfolding oldest
  oldest_lem [] x h = elim h [ ]
  oldest_lem (e ∷ s) x h =
      let l = lib.by_creation (values (e ∷ s)) in
      let inside = (lib.by_creation_same (values (e ∷ s)) x).1 h in
      let (m, at, here, first) =
        first_of_sorted l x inside (lib.by_creation_ordered (values (e ∷ s))) in
      (m, at, (lib.by_creation_same (values (e ∷ s)) m).0 here, first)

machine_counted :
    (ms : List Machine) (m : Machine) (id : String)
    → Memᴰ m ms
    → m.failure_domain ≡ some id
    → 0 < machines_in ms id
machine_counted [] m id h e = elim h [ ]
machine_counted (x ∷ ms) m id (Memᴰ.head p) e =
    let q : x.failure_domain ≡ some id = (cc (ap (λ (y : Machine). y.failure_domain) p)) in
    ground (arith, eq_iff id id)
machine_counted (x ∷ ms) m id (Memᴰ.tail h) e = ground (arith, machine_counted ms m id h e)

domain_is :
    (o : Option String) (id : String)
    → elim o [ none ↦ false | some d ↦ str_eq d id ] ≡ true
    → o ≡ some id
domain_is none id h = cc
domain_is (some d) id h = ap some ((eq_iff d id).0 h)

counted_machine :
    (ms : List Machine) (id : String)
    → 0 < machines_in ms id
    → (m : Machine) × Memᴰ m ms × (m.failure_domain ≡ some id)
counted_machine [] id h = absurd (omega arith)
counted_machine (x ∷ ms) id h = elim (Bool-cases (is_in id x)) [
  | inl t ↦ (x, Memᴰ.head refl, domain_is x.failure_domain id t)
  | inr t ↦ let (m, inside, e) = counted_machine ms id (ground arith) in (m, Memᴰ.tail inside, e)
]

module _ (lib : Library) (c : ControlPlane) (s : Collection) (v : IsValid s) where
  abbrev ids : List (Option String)
  ids = lib.get_ids (lib.filter_control_plane c.cluster.failure_domains)

  abbrev outside : Filter
  outside = not_filter (in_failure_domains ids)

  known_domain :
      (m : Machine)
      → Memᴰ m (values s)
      → is_empty (filter (outside ∷ []) s) ≡ true
      → (id : String) × (m.failure_domain ≡ some id) × Memᴰ (some id) ids
  unfolding not_filter
  known_domain m h e = elim (Bool-cases (in_failure_domains ids (some m))) [
    | inl t ↦ domain_of m.failure_domain refl ((in_failure_domains-Memᴰ ids m).1.0 t)
    | inr t ↦
        let inside = filter-Memᴰ outside s v m h (rw t) in
        absurd (true≢false (sym e ∙ nonempty_of_Memᴰ (filter (outside ∷ []) s) m inside))
  ]
    where
      domain_of :
          (o : Option String)
          → m.failure_domain ≡ o
          → Memᴰ m.failure_domain ids
          → (id : String) × (m.failure_domain ≡ some id) × Memᴰ (some id) ids
      domain_of none p k = absurd (
          lib.get_ids_some (lib.filter_control_plane c.cluster.failure_domains)
            (subst (λ d. Memᴰ d ids) p k))
      domain_of (some id) p k = (id, p, subst (λ d. Memᴰ d ids) p k)

  -- The failure domain with most machines is that of one of the candidates.
  domain_with_candidate :
      (m : Machine)
      → Memᴰ m (values s)
      → (x : Machine) × Memᴰ x (values s)
        × (x.failure_domain ≡ failure_domain_with_most_machines lib c s)
  unfolding failure_domain_with_most_machines
  domain_with_candidate m h = elim (Bool-cases (is_empty (filter (outside ∷ []) s))) [
    | inl t ↦
        let (id, e, known) = known_domain m h t in
        let domains = lib.filter_control_plane c.cluster.failure_domains in
        let (most, picked, _, some_in, _) =
          pick_most-le lib.sorter domains (values c.machines) (values s) id
            ((lib.get_ids_same domains id).0 known) (machine_counted (values s) m id h e) in
        let (x, inside, d) = counted_machine (values s) most some_in in
        rw t (x, inside, d ∙ sym picked)
    | inr t ↦
        let (y, here) = some_machine (filter (outside ∷ []) s) t in
        let (x, old, inside, _) = oldest_lem lib (filter (outside ∷ []) s) y here in
        rw (t, old) (x, (Memᴰ-filter outside s v x inside).0, refl)
  ]

  -- From any candidates one is selected, and it is in the failure domain with most machines.
  pub candidate_selected :
      (m : Machine)
      → Memᴰ m (values s)
      → (x : Machine) × (machine_in_failure_domain_with_most_machines lib c s ≡ ok x)
        × Memᴰ x (values s)
        × (x.failure_domain ≡ failure_domain_with_most_machines lib c s)
  unfolding machine_in_failure_domain_with_most_machines
  candidate_selected m h =
      let fd = failure_domain_with_most_machines lib c s in
      let f = in_failure_domains (fd ∷ []) in
      let (y, inside, d) = domain_with_candidate m h in
      let in_domain =
        filter-Memᴰ f s v y inside ((in_failure_domains-Memᴰ (fd ∷ []) y).1.1 (Memᴰ.head d)) in
      let (x, old, here, _) = oldest_lem lib (filter (f ∷ []) s) y in_domain in
      let (kept, passed) = Memᴰ-filter f s v x here in
      let same =
        only_domain x.failure_domain fd ((in_failure_domains-Memᴰ (fd ∷ []) x).1.0 passed) in
      rw (old, machine_in_failure_domain_with_most_machines) (x, refl, kept, same)
    where
      only_domain : (a b : Option String) → Memᴰ a (b ∷ []) → a ≡ b
      only_domain a b (Memᴰ.head e) = e
      only_domain a b (Memᴰ.tail k) = elim k [ ]

-- With a machine in the control plane, selection for scale down never fails: it takes one of the
-- machines, one that needs an upgrade while there is one, from the failure domain that
-- FailureDomainWithMostMachines gives for these candidates.
pub select_machine_for_scale_down_lem :
    (lib : Library) (c : ControlPlane) (m : Machine)
    → IsValid c.machines
    → Memᴰ m (values c.machines)
    → (x : Machine) × (select_machine_for_scale_down lib c ≡ ok x)
      × Memᴰ x (values c.machines)
      × (((matches_configuration_hash (hash_of lib c) (some x) ≡ false)
            × (x.failure_domain
                ≡ failure_domain_with_most_machines lib c (machines_needing_upgrade lib c)))
          ⊎ ((is_empty (machines_needing_upgrade lib c) ≡ true)
              × (x.failure_domain ≡ failure_domain_with_most_machines lib c c.machines)))
unfolding select_machine_for_scale_down machines_needing_upgrade not_filter
select_machine_for_scale_down_lem lib c m v h =
    let f = not_filter (matches_configuration_hash (hash_of lib c)) in
    elim (Bool-cases (is_empty (machines_needing_upgrade lib c))) [
      | inl t ↦
          let (x, e, inside, d) = candidate_selected lib c c.machines v m h in
          rw t (x, e, inside, inr (refl, d))
      | inr t ↦
          let (y, here) = some_machine (machines_needing_upgrade lib c) t in
          let v' = filter-IsValid (f ∷ []) c.machines v in
          let (x, e, inside, d) =
            candidate_selected lib c (machines_needing_upgrade lib c) v' y here in
          let (kept, old) = Memᴰ-filter f c.machines v x inside in
          rw t (x, e, kept, inl (ground arith, d))
    ]
