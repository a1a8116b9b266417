-- ===== src/Machines/FailureDomain/Counts.antt =====
-- `pick` counts: one counter for each failure domain, with the number of machines in it.
use cluster_api_bootstrap_pr.Prelude.{
  ℕ, suc, ◌+◌, String, Bool, true, false, Option, none, some, List, [], ◌∷◌, arith, ◌≡◌, refl, ◌∙◌,
  ap, str_eq, eq_iff, Memᴰ, Bool-cases, inl, inr, All, All-of_Memᴰ, sym, count, is_some, length,
}
use cluster_api_bootstrap_pr.Prelude.Dict.{lookup, keys}
use cluster_api_bootstrap_pr.Api.{Machine, FailureDomains}
use cluster_api_bootstrap_pr.Machines.FailureDomain.{
  Aggregation, increment, count_machine, count_machines, initial_counters, pick,
}

abbrev pub is_in : String → Machine → Bool
is_in id m = elim m.failure_domain [ none ↦ false | some d ↦ str_eq d id ]

-- the number of machines in a failure domain
abbrev pub machines_in : List Machine → String → ℕ
machines_in ms id = count (is_in id) ms

-- The counter of each domain, with the machines of `ms` added.
abbrev add_machines : List Machine → List Aggregation → List Aggregation
add_machines ms [] = []
add_machines ms (c ∷ cs) = record c { count = c.count + machines_in ms c.id } ∷ add_machines ms cs

-- Every counter is one of a known domain.
abbrev IsKnown : FailureDomains → List Aggregation → Type 0
IsKnown domains [] = Unit
IsKnown domains (c ∷ cs) = (is_some (lookup c.id domains) ≡ true) × IsKnown domains cs

add_machines-nil : (cs : List Aggregation) → add_machines [] cs ≡ cs
add_machines-nil [] = refl
add_machines-nil (c ∷ cs) = ground (arith, add_machines-nil cs)

add_machines-none :
    (m : Machine) (ms : List Machine) (cs : List Aggregation)
    → m.failure_domain ≡ none
    → add_machines (m ∷ ms) cs ≡ add_machines ms cs
add_machines-none m ms [] h = refl
add_machines-none m ms (c ∷ cs) h = ground (arith, add_machines-none m ms cs)

add_machines-some :
    (m : Machine) (d : String) (ms : List Machine) (cs : List Aggregation)
    → m.failure_domain ≡ some d
    → add_machines (m ∷ ms) cs ≡ add_machines ms (increment d cs)
unfolding increment
add_machines-some m d ms [] h = refl
add_machines-some m d ms (c ∷ cs) h =
    ground (arith, add_machines-some m d ms cs, eq_iff c.id d, eq_iff d c.id)

add_machines-unknown :
    (domains : FailureDomains) (m : Machine) (d : String) (ms : List Machine)
    (cs : List Aggregation)
    → m.failure_domain ≡ some d
    → is_some (lookup d domains) ≡ false
    → IsKnown domains cs
    → add_machines (m ∷ ms) cs ≡ add_machines ms cs
add_machines-unknown domains m d ms [] h u k = refl
add_machines-unknown domains m d ms (c ∷ cs) h u k =
    ground (arith, add_machines-unknown domains m d ms cs h u k.1, eq_iff d c.id, k.0)

increment-IsKnown :
    (domains : FailureDomains) (d : String) (cs : List Aggregation)
    → IsKnown domains cs
    → IsKnown domains (increment d cs)
unfolding increment
increment-IsKnown domains d [] k = tt
increment-IsKnown domains d (c ∷ cs) k = (ground arith, increment-IsKnown domains d cs k.1)

count_machine_step :
    (domains : FailureDomains) (m : Machine) (ms : List Machine) (cs : List Aggregation)
    (o : Option String)
    → m.failure_domain ≡ o
    → IsKnown domains cs
    → IsKnown domains (count_machine domains cs o)
      × (add_machines ms (count_machine domains cs o) ≡ add_machines (m ∷ ms) cs)
unfolding count_machine
count_machine_step domains m ms cs none h k = (k, sym (add_machines-none m ms cs h))
count_machine_step domains m ms cs (some d) h k = elim (Bool-cases (is_some (lookup d domains))) [
  | inl t ↦ rw t (increment-IsKnown domains d cs k, sym (add_machines-some m d ms cs h))
  | inr t ↦ rw t (k, sym (add_machines-unknown domains m d ms cs h t k))
]

-- The loop over the machines adds to each counter the machines in its domain.
count_machines_lem :
    (domains : FailureDomains) (cs : List Aggregation) (ms : List Machine)
    → IsKnown domains cs
    → count_machines domains cs ms ≡ add_machines ms cs
unfolding count_machines
count_machines_lem domains cs [] k = sym (add_machines-nil cs)
count_machines_lem domains cs (m ∷ ms) k =
    let (k', e) = count_machine_step domains m ms cs m.failure_domain refl k in
    count_machines_lem domains (count_machine domains cs m.failure_domain) ms k' ∙ e

-- The number of machines in each of the given domains.
abbrev pub tally : List Machine → List String → List Aggregation
tally ms [] = []
tally ms (id ∷ ids) = record { id = id; count = machines_in ms id } ∷ tally ms ids

add_machines-initial_counters :
    (ms : List Machine) (ids : List String) → add_machines ms (initial_counters ids) ≡ tally ms ids
unfolding initial_counters
add_machines-initial_counters ms [] = refl
add_machines-initial_counters ms (id ∷ ids) = ground (arith, add_machines-initial_counters ms ids)

initial_counters-IsKnown :
    (domains : FailureDomains) (ids : List String)
    → All (λ id. is_some (lookup id domains) ≡ true) ids
    → IsKnown domains (initial_counters ids)
unfolding initial_counters
initial_counters-IsKnown domains [] h = tt
initial_counters-IsKnown domains (id ∷ ids) h = (h.0, initial_counters-IsKnown domains ids h.1)

lookup_known :
    (id : String) (domains : FailureDomains)
    → Memᴰ id (keys domains)
    → is_some (lookup id domains) ≡ true
unfolding lookup
lookup_known id [] m = elim m [ ]
lookup_known id ((j, v) ∷ domains) (Memᴰ.head e) = ground (arith, eq_iff j id)
lookup_known id ((j, v) ∷ domains) (Memᴰ.tail m) =
    ground (arith, eq_iff j id, lookup_known id domains m)

-- `pick` gives each failure domain the number of machines in it; machines of other domains, or of
-- none, are not counted.
pub pick-tally :
    (domains : FailureDomains) (ms : List Machine) → pick domains ms ≡ tally ms (keys domains)
unfolding pick
pick-tally [] ms = refl
pick-tally (d ∷ rest) ms =
    let domains = d ∷ rest in
    let known =
      initial_counters-IsKnown domains (keys domains)
        (All-of_Memᴰ _ (keys domains) (λ id m. lookup_known id domains m)) in
    count_machines_lem domains (initial_counters (keys domains)) ms known
    ∙ add_machines-initial_counters ms (keys domains)

pub Memᴰ-tally :
    (ms : List Machine) (ids : List String) (a : Aggregation)
    → Memᴰ a (tally ms ids)
    → Memᴰ a.id ids × (a.count ≡ machines_in ms a.id)
Memᴰ-tally ms [] a m = elim m [ ]
Memᴰ-tally ms (id ∷ ids) a (Memᴰ.head e) = rw e (Memᴰ.head refl, refl)
Memᴰ-tally ms (id ∷ ids) a (Memᴰ.tail m) = let (k, e) = Memᴰ-tally ms ids a m in (Memᴰ.tail k, e)

pub tally-Memᴰ :
    (ms : List Machine) (ids : List String) (id : String)
    → Memᴰ id ids
    → Memᴰ (let a : Aggregation = record { id = id; count = machines_in ms id } in a) (tally ms ids)
tally-Memᴰ ms [] id m = elim m [ ]
tally-Memᴰ ms (j ∷ ids) id (Memᴰ.head e) = rw e (Memᴰ.head refl)
tally-Memᴰ ms (j ∷ ids) id (Memᴰ.tail m) = Memᴰ.tail (tally-Memᴰ ms ids id m)

pub length-tally : (ms : List Machine) (ids : List String) → length (tally ms ids) ≡ length ids
length-tally ms [] = refl
length-tally ms (id ∷ ids) = ap suc (length-tally ms ids)

pub length-keys : (domains : FailureDomains) → length (keys domains) ≡ length domains
length-keys [] = refl
length-keys ((k, v) ∷ domains) = ap suc (length-keys domains)
