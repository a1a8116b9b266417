-- ===== src/Controller/Scaling/Up.antt =====
-- controllers/controlplane: the machines that scaleUpControlPlane and the initialisation create.
use cluster_api_bootstrap_pr.Prelude.{
  Option-cases, ℕ, zero, suc, ◌+◌, ◌<◌, ◌≤◌, String, Bool, true, false, Option, none, some, List,
  [], ◌∷◌, Error, ◌≡◌, refl, ◌⊎◌, inl, inr, Bool-cases, arith, count, count-append, length,
  get_elem?, All, Memᴰ, is_empty, if◌then◌else◌, sym, ◌∙◌,
}
use cluster_api_bootstrap_pr.Prelude.Dict.{keys, values}
use cluster_api_bootstrap_pr.Api.{Machine, FailureDomains}
use cluster_api_bootstrap_pr.Machines.Sort.{Sort}
use cluster_api_bootstrap_pr.Machines.FailureDomain.{Aggregation, pick_fewest}
use cluster_api_bootstrap_pr.Machines.FailureDomain.Counts.{machines_in}
use cluster_api_bootstrap_pr.Machines.FailureDomain.Choice.{length-pick_n_fewest, pick_fewest-le}
use cluster_api_bootstrap_pr.ControlPlane.{
  ControlPlane, has_deleting_machine, failure_domain_with_fewest_machines,
  n_failure_domains_with_fewest_machines,
}
use cluster_api_bootstrap_pr.ControlPlane.Interface.{Library}
use cluster_api_bootstrap_pr.Controller.Environment.{Call, Trace, Answers, no_requeue, requeue_now}
use cluster_api_bootstrap_pr.Controller.Generation.{new_config}
use cluster_api_bootstrap_pr.Controller.Generation.Contract.{
  clone_configs-success, after_clone, after_config, IsGenerated,
}
use cluster_api_bootstrap_pr.Controller.Scaling.{
  reconcile_health, scale_up, generate_in, create_from, initialize,
}
use cluster_api_bootstrap_pr.Controller.Scaling.Down.{check_once, IsSettled}

-- Whether a call creates a Machine.
abbrev pub is_creation : Call → Bool
is_creation (Call.create_machine m) = true
is_creation _ = false

-- A call that creates no Machine leaves the count of creations.
abbrev creations : Trace → ℕ
creations tr = count is_creation tr

module _ (lib : Library) (answers : Answers) (c : ControlPlane) where
  generate_in-creates :
      (fd : Option String) (tr : Trace)
      → (generate_in lib answers c fd tr).0 ≡ none
      → creations (generate_in lib answers c fd tr).1 ≡ suc (creations tr)
  unfolding new_config
  generate_in-creates fd tr h =
      let made =
        clone_configs-success lib.deep_hash answers c.ccp c.cluster c.ccp.spec.crit_config_spec fd
          tr h in
      let tr₁ = after_clone lib.deep_hash answers c.ccp c.cluster tr in
      let tr₂ = after_config lib.deep_hash answers c.ccp c.cluster c.ccp.spec.crit_config_spec tr in
      rw made.6 (
        omega (
          arith,
          count-append is_creation tr₂ _,
          count-append is_creation tr₁ _,
          count-append is_creation tr _,
        ))

  in_range :
      (fds : List (Option String)) (i : ℕ)
      → i < length fds
      → (fd : Option String) × (get_elem? fds i ≡ some fd)
  in_range [] i h = absurd (omega arith)
  in_range (fd ∷ fds) zero h = (fd, refl)
  in_range (fd ∷ fds) (suc i) h = in_range fds i (omega arith)

  -- The loop creates a machine in each round that is left, or stops at an error of
  -- cloneConfigsAndGenerateMachine.
  create_from-creates :
      (fds : List (Option String)) (i n : ℕ) (tr : Trace)
      → i + n ≤ length fds
      → (((create_from lib answers c fds i n tr).0 ≡ none)
          × (creations (create_from lib answers c fds i n tr).1 ≡ creations tr + n))
        ⊎ ((fd : Option String) × (t : Trace) × (e : Error) × ((generate_in lib answers c fd t).0
              ≡ some e)
            × ((create_from lib answers c fds i n tr).0 ≡ some e))
  unfolding create_from
  create_from-creates fds i zero tr h = inl (refl, (omega arith))
  create_from-creates fds i (suc n) tr h =
      let (fd, at) = in_range fds i (omega arith) in
      rw (at, create_from)
        (elim (Option-cases (generate_in lib answers c fd tr).0) [
          | inr (e, t) ↦ inr (fd, tr, e, t, rw t refl)
          | inl t ↦
              let made = generate_in-creates fd tr t in
              rw (t, create_from)
                (elim (create_from-creates fds (suc i) n (generate_in lib answers c fd tr).1
                  (omega arith)) [
                    | inl (ok, more) ↦ inl (ok, (omega (arith, made, more)))
                    | inr failure ↦ inr failure
                  ])
        ])

-- The initialisation of a control plane creates as many machines as there are replicas and requeues,
-- or it returns an error of cloneConfigsAndGenerateMachine; no index of the failure domains is out
-- of range.
pub initialize-creates :
    (lib : Library) (answers : Answers) (c : ControlPlane) (tr : Trace)
    → (((initialize lib answers c tr).0 ≡ (requeue_now, none))
        × (count is_creation (initialize lib answers c tr).1
            ≡ count is_creation tr + c.ccp.spec.replicas))
      ⊎ ((fd : Option String) × (t : Trace) × (e : Error) × ((generate_in lib answers c fd t).0
            ≡ some e)
          × ((initialize lib answers c tr).0 ≡ (no_requeue, some e)))
unfolding initialize n_failure_domains_with_fewest_machines
initialize-creates lib answers c tr =
    let n = c.ccp.spec.replicas in
    let fds = n_failure_domains_with_fewest_machines lib c n in
    let enough : length fds ≡ n = length-pick_n_fewest lib.sorter _ _ n in
    elim (create_from-creates lib answers c fds 0 n tr (omega arith)) [
      | inl (ok, more) ↦ inl (rw (ok, initialize) refl, rw (ok, initialize) more)
      | inr (fd, t, e, failure, is_e) ↦ inr (fd, t, e, failure, rw (is_e, initialize) refl)
    ]

module _ (ms : List Machine) where
  -- With failure domains `fd` is one of them that holds fewest of the machines, else there is none.
  abbrev pub HasFewest : FailureDomains → Option String → Type 0
  HasFewest domains fd =
      ((domains ≡ []) × (fd ≡ none))
      ⊎ ((id : String) × (fd ≡ some id)
          × Memᴰ id (keys domains)
          × All (λ j. machines_in ms id ≤ machines_in ms j) (keys domains))

some_name : (a b : String) → Option.some a ≡ some b → a ≡ b
some_name a b h = cc

module _ (sorter : Sort Aggregation) (ms : List Machine) where
  least_of :
      (domains : FailureDomains) (id : String) (js : List String)
      → pick_fewest sorter domains ms ≡ some id
      → ((j : String) → Memᴰ j js → Memᴰ j (keys domains))
      → All (λ j. machines_in ms id ≤ machines_in ms j) js
  least_of domains id [] picked inside = tt
  least_of domains id (j ∷ js) picked inside =
      let (id', picked', _, least) =
        pick_fewest-le sorter domains ms j (inside j (Memᴰ.head refl)) in
      let same : id' ≡ id = some_name id' id (sym picked' ∙ picked) in
      (rw (sym same) least, least_of domains id js picked (λ k m. inside k (Memᴰ.tail m)))

  chosen-HasFewest :
      (domains : FailureDomains)
      → HasFewest ms domains (if is_empty domains then none else pick_fewest sorter domains ms)
  chosen-HasFewest [] = inl (refl, refl)
  chosen-HasFewest ((j, spec) ∷ rest) =
      let (id, picked, there, _) = pick_fewest-le sorter ((j, spec) ∷ rest) ms j (Memᴰ.head refl) in
      inr (id, picked, there, least_of ((j, spec) ∷ rest) id (j ∷ keys rest) picked (λ k m. m))

failure_domain-HasFewest :
    (lib : Library) (c : ControlPlane)
    → HasFewest
        (values c.machines)
        (lib.filter_control_plane c.cluster.failure_domains)
        (failure_domain_with_fewest_machines lib c)
unfolding failure_domain_with_fewest_machines
failure_domain-HasFewest lib c =
    chosen-HasFewest lib.sorter (values c.machines)
      (lib.filter_control_plane c.cluster.failure_domains)

-- When scaleUpControlPlane succeeds, the control plane was healthy with no machine being deleted, and
-- after the health check one template was cloned, one CritConfig and one Machine that refers to both
-- were created, each without an error. The failure domain of the Machine is one of those for control
-- planes, and none of these holds fewer machines of the control plane; without such failure domains
-- the Machine has none.
pub scale_up-creates :
    (lib : Library) (answers : Answers) (c : ControlPlane) (tr : Trace)
    → (scale_up lib answers c tr).0.1 ≡ none
    → (fd : Option String) × ((scale_up lib answers c tr).0 ≡ (requeue_now, none))
      × HasFewest (values c.machines) (lib.filter_control_plane c.cluster.failure_domains) fd
      × IsGenerated lib.deep_hash answers c.ccp c.cluster c.ccp.spec.crit_config_spec fd
          (check_once tr)
          (scale_up lib answers c tr).1
      × IsSettled lib answers c tr
unfolding scale_up reconcile_health
scale_up-creates lib answers c tr = elim (Option-cases (answers.health tr)) [
  | inr (e, t) ↦ rw (t, scale_up, reconcile_health) (λ h. cc)
  | inl t ↦ elim (Bool-cases (has_deleting_machine lib c)) [
    | inl d ↦ rw (t, d, scale_up, reconcile_health) (λ h. cc)
    | inr d ↦
        let fd = failure_domain_with_fewest_machines lib c in
        elim (Option-cases (generate_in lib answers c fd (check_once tr)).0) [
          | inr (e, u) ↦ rw (t, d, u, scale_up, reconcile_health) (λ h. cc)
          | inl u ↦
              let made =
                clone_configs-success lib.deep_hash answers c.ccp c.cluster
                  c.ccp.spec.crit_config_spec fd (check_once tr) u in
              rw (t, d, u, scale_up, reconcile_health)
                (λ h. (fd, refl, failure_domain-HasFewest lib c, made, (refl, refl)))
        ]
  ]
]
