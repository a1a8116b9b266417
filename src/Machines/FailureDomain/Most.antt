-- ===== src/Machines/FailureDomain/Most.antt =====
-- Which failure domain PickMost chooses.
use cluster_api_bootstrap_pr.Prelude.{
  ◌≤◌, ◌<◌, String, true, Option, none, some, List, [], ◌∷◌, arith, ◌≡◌, refl, subst, Memᴰ,
  Bool-cases, inl, inr, ltb,
}
use cluster_api_bootstrap_pr.Prelude.Dict.{keys}
use cluster_api_bootstrap_pr.Api.{Machine, FailureDomains}
use cluster_api_bootstrap_pr.Machines.Sort.{Sort, IsOrdered}
use cluster_api_bootstrap_pr.Machines.FailureDomain.{
  Aggregation, more, pick, has_machine_in, first_with_machine, pick_most,
}
use cluster_api_bootstrap_pr.Machines.FailureDomain.Counts.{machines_in}
use cluster_api_bootstrap_pr.Machines.FailureDomain.Order.{
  more-IsStrictWeak, not-more, tallied, is_empty-pick, not_less_first, sorted_counts, counted_id,
}

-- The search for a machine in a domain finds one exactly when the domain has machines.
pub has_machine_in-count :
    (id : String) (ms : List Machine) → has_machine_in id ms ≡ ltb 0 (machines_in ms id)
unfolding has_machine_in
has_machine_in-count id [] = refl
has_machine_in-count id (m ∷ ms) = ground (arith, has_machine_in-count id ms)

-- What the outer loop of PickMost finds in a list ordered by `more`.
abbrev FirstWith : List Machine → List Aggregation → Aggregation → Option String → Type 0
FirstWith machines l b none = ⊥
FirstWith machines l b (some id) =
    (a : Aggregation) × Memᴰ a l
    × (a.id ≡ id)
    × (has_machine_in id machines ≡ true)
    × (b.count ≤ a.count)

FirstWith-cons :
    (machines : List Machine) (c : Aggregation) (l : List Aggregation) (b : Aggregation)
    (o : Option String)
    → FirstWith machines l b o
    → FirstWith machines (c ∷ l) b o
FirstWith-cons machines c l b none f = f
FirstWith-cons machines c l b (some id) (a, m, e, h, le) = (a, Memᴰ.tail m, e, h, le)

first_with_machine_lem :
    (l : List Aggregation) (machines : List Machine) (b : Aggregation)
    → IsOrdered more l
    → Memᴰ b l
    → has_machine_in b.id machines ≡ true
    → FirstWith machines l b (first_with_machine l machines)
unfolding first_with_machine
first_with_machine_lem [] machines b o m h = elim m [ ]
first_with_machine_lem (a ∷ l) machines b o (Memᴰ.head e) h =
    let t : has_machine_in a.id machines ≡ true = (cc) in
    let le : b.count ≤ a.count = (ground arith) in rw t (a, Memᴰ.head refl, refl, t, le)
first_with_machine_lem (a ∷ l) machines b o (Memᴰ.tail m) h =
    elim (Bool-cases (has_machine_in a.id machines)) [
      | inl t ↦
          let le = not-more b a (not_less_first more a b l more-IsStrictWeak o (Memᴰ.tail m)) in
          rw t (a, Memᴰ.head refl, refl, t, le)
      | inr t ↦ rw t (
          FirstWith-cons machines a l b (first_with_machine l machines)
            (first_with_machine_lem l machines b o.1 m h))
    ]

abbrev MostOf : Sort Aggregation → FailureDomains → List Machine → List Machine → String → Type 0
MostOf sorter domains all machines j =
    (id : String) × (pick_most sorter domains all machines ≡ some id)
    × Memᴰ id (keys domains)
    × (0 < machines_in machines id)
    × (machines_in all j ≤ machines_in all id)

module _ (sorter : Sort Aggregation) (domains : FailureDomains) (all machines : List Machine)
    (j : String) where
  from_FirstWith :
      (o : Option String)
      → pick_most sorter domains all machines ≡ o
      → FirstWith machines (sorter.sort more (pick domains all)) (tallied all j) o
      → MostOf sorter domains all machines j
  from_FirstWith none e f = absurd f
  from_FirstWith (some id) e (a, m, same, has, le) =
      let (known, counted) = sorted_counts sorter domains all more a m in
      let here : 0 < machines_in machines id = (ground (arith, has_machine_in-count id machines)) in
      let most : machines_in all j ≤ machines_in all id = (ground arith) in
      (id, e, subst (λ x. Memᴰ x (keys domains)) same known, here, most)

-- Where one of the given machines is in a known failure domain, PickMost returns a failure domain
-- that has one of the given machines, and none that has one has more machines of the control plane.
pub pick_most-le :
    (sorter : Sort Aggregation) (domains : FailureDomains) (all machines : List Machine)
    (j : String)
    → Memᴰ j (keys domains)
    → 0 < machines_in machines j
    → (id : String) × (pick_most sorter domains all machines ≡ some id)
      × Memᴰ id (keys domains)
      × (0 < machines_in machines id)
      × (machines_in all j ≤ machines_in all id)
unfolding pick_most
pick_most-le sorter domains all machines j m h =
    let has : has_machine_in j machines ≡ true =
      (ground (arith, has_machine_in-count j machines)) in
    let sorted = sorter.sort more (pick domains all) in
    let found =
      first_with_machine_lem sorted machines (tallied all j)
        (sorter.ordered more (pick domains all) more-IsStrictWeak)
        (counted_id sorter domains all more j m) has in
    from_FirstWith sorter domains all machines j (first_with_machine sorted machines)
      (rw (is_empty-pick domains all j m)) found
