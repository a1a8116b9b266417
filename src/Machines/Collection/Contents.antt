-- ===== src/Machines/Collection/Contents.antt =====
-- Which machines a collection holds: the invariant of the map, and what Filter and AnyFilter keep.
use cluster_api_bootstrap_pr.Prelude.{
  String, Bool, true, false, Option, none, some, List, [], ◌∷◌, ◌++◌, arith, ◌≡◌, refl, str_eq,
  eq_iff, if◌then◌else◌, Bool-cases, ◌∙◌, inl, inr, keep, sym, ap,
}
use mathlib.Core.List.{append-nil, append_assoc}
use cluster_api_bootstrap_pr.Prelude.Dict.{lookup, insert, values, lookup-insert}
use cluster_api_bootstrap_pr.Api.{Machine}
use cluster_api_bootstrap_pr.Machines.Filters.{Filter, and_filter, or_filter}
use cluster_api_bootstrap_pr.Machines.Collection.{
  Collection, insert_machines, new_from_machine_list, filter_into, filter, any_filter, pointers,
}

-- Every machine stands under its own name, and no name stands twice.
abbrev pub IsValid : Collection → Type 0
IsValid [] = Unit
IsValid ((k, m) ∷ s) = (m.name ≡ k) × (lookup k s ≡ none) × IsValid s

insert-IsValid : (m : Machine) (s : Collection) → IsValid s → IsValid (insert m.name m s)
unfolding insert lookup
insert-IsValid m [] h = (refl, refl, tt)
insert-IsValid m ((j, w) ∷ s) h = elim (Bool-cases (str_eq j m.name)) [
  | inl t ↦ rw t (refl, ground (arith, eq_iff j m.name), h.2)
  | inr t ↦ rw t (
    h.0,
    ground (arith, lookup-insert m.name j m s, eq_iff j m.name, eq_iff m.name j),
    insert-IsValid m s h.2,
  )
]

insert_machines-IsValid :
    (s : Collection) (ms : List (Option Machine)) → IsValid s → IsValid (insert_machines s ms)
unfolding insert_machines
insert_machines-IsValid s [] h = h
insert_machines-IsValid s (none ∷ ms) h = insert_machines-IsValid s ms h
insert_machines-IsValid s (some m ∷ ms) h =
    insert_machines-IsValid (insert m.name m s) ms (insert-IsValid m s h)

pub new_from_machine_list-IsValid : (ms : List Machine) → IsValid (new_from_machine_list ms)
unfolding new_from_machine_list
new_from_machine_list-IsValid ms = insert_machines-IsValid [] (pointers ms) tt

-- An entry with a new key goes to the end of the map.
insert_new :
    (k : String) (m : Machine) (s : Collection)
    → lookup k s ≡ none
    → insert k m s ≡ s ++ (k, m) ∷ []
unfolding insert lookup
insert_new k m [] h = refl
insert_new k m ((j, w) ∷ s) h = ground (arith, insert_new k m s)

abbrev IsNew : Collection → Collection → Type 0
IsNew acc [] = Unit
IsNew acc ((k, m) ∷ s) = (lookup k acc ≡ none) × IsNew acc s

IsNew-insert :
    (k : String) (m : Machine) (acc s : Collection)
    → lookup k s ≡ none
    → IsNew acc s
    → IsNew (insert k m acc) s
unfolding lookup
IsNew-insert k m acc [] e h = tt
IsNew-insert k m acc ((j, w) ∷ s) e h = (
  ground (arith, lookup-insert k j m acc, eq_iff k j, eq_iff j k),
  IsNew-insert k m acc s (ground arith) h.1,
)

abbrev pub passes : Filter → String × Machine → Bool
passes f (k, m) = f (some m)

filter_into_pass :
    (f : Filter) (acc : Collection) (m : Machine) (ms : List Machine)
    → f (some m) ≡ true
    → filter_into f acc (m ∷ ms) ≡ filter_into f (insert m.name m acc) ms
unfolding filter_into
filter_into_pass f acc m ms h = rw (h, filter_into)

filter_into_fail :
    (f : Filter) (acc : Collection) (m : Machine) (ms : List Machine)
    → f (some m) ≡ false
    → filter_into f acc (m ∷ ms) ≡ filter_into f acc ms
unfolding filter_into
filter_into_fail f acc m ms h = rw (h, filter_into)

filter_into_lem :
    (f : Filter) (acc s : Collection)
    → IsValid s
    → IsNew acc s
    → filter_into f acc (values s) ≡ acc ++ keep (passes f) s
unfolding filter_into
filter_into_lem f acc [] v h = sym (append-nil acc)
filter_into_lem f acc ((k, m) ∷ s) v h = elim (Bool-cases (f (some m))) [
  | inl t ↦
      let e = ap (λ (n : String). insert n m acc) v.0 ∙ insert_new k m acc h.0 in
      let new = rw (insert_new k m acc h.0) at (IsNew-insert k m acc s v.1 h.1) in
      rw (filter_into_pass f acc m (values s) t, e, t)
        (filter_into_lem f (acc ++ (k, m) ∷ []) s v.2 new ∙ (rw append_assoc))
  | inr t ↦ rw (filter_into_fail f acc m (values s) t, t) (filter_into_lem f acc s v.2 h.1)
]

IsNew-nil : (s : Collection) → IsNew [] s
unfolding lookup
IsNew-nil [] = tt
IsNew-nil ((k, m) ∷ s) = (refl, IsNew-nil s)

-- Filter keeps the entries that all of the filters pass, in place, and nothing else.
pub filter-keep :
    (fs : List Filter) (s : Collection) → IsValid s → filter fs s ≡ keep (passes (and_filter fs)) s
unfolding filter
filter-keep fs s v = filter_into_lem (and_filter fs) [] s v (IsNew-nil s)

-- AnyFilter keeps the entries that one of the filters passes.
pub any_filter-keep :
    (fs : List Filter) (s : Collection)
    → IsValid s
    → any_filter fs s ≡ keep (passes (or_filter fs)) s
unfolding any_filter
any_filter-keep fs s v = filter_into_lem (or_filter fs) [] s v (IsNew-nil s)

lookup-keep-none :
    (f : Filter) (k : String) (s : Collection)
    → lookup k s ≡ none
    → lookup k (keep (passes f) s) ≡ none
unfolding lookup
lookup-keep-none f k [] h = refl
lookup-keep-none f k ((j, m) ∷ s) h = ground (arith, lookup-keep-none f k s)

pub keep-IsValid : (f : Filter) (s : Collection) → IsValid s → IsValid (keep (passes f) s)
keep-IsValid f [] v = tt
keep-IsValid f ((k, m) ∷ s) v = elim (Bool-cases (f (some m))) [
  | inl t ↦ rw t (v.0, lookup-keep-none f k s v.1, keep-IsValid f s v.2)
  | inr t ↦ rw t (keep-IsValid f s v.2)
]

pub filter-IsValid : (fs : List Filter) (s : Collection) → IsValid s → IsValid (filter fs s)
filter-IsValid fs s v = rw (filter-keep fs s v) (keep-IsValid (and_filter fs) s v)

lookup-keep :
    (f : Filter) (k : String) (s : Collection)
    → IsValid s
    → lookup k (keep (passes f) s)
      ≡ elim (lookup k s) [ none ↦ none | some m ↦ if f (some m) then some m else none ]
unfolding lookup
lookup-keep f k [] v = refl
lookup-keep f k ((j, m) ∷ s) v =
    ground (arith, lookup-keep f k s v.2, lookup-keep-none f k s, eq_iff j k)

-- In a collection built from any list of machines every machine stands under its own name and no
-- name stands twice; Filter keeps that, and a name is found in the filtered collection exactly when
-- it was found before with a machine that all of the filters pass.
pub filter-new_from_machine_list :
    (ms : List Machine) (fs : List Filter) (k : String)
    → let s = new_from_machine_list ms in
      IsValid s
      × IsValid (filter fs s)
      × (lookup k (filter fs s) ≡ elim (lookup k s) [
        | none ↦ none
        | some m ↦ if and_filter fs (some m) then some m else none
      ])
filter-new_from_machine_list ms fs k =
    let v = new_from_machine_list-IsValid ms in
    (
      v,
      filter-IsValid fs (new_from_machine_list ms) v,
      (rw (filter-keep fs (new_from_machine_list ms) v)
          (lookup-keep (and_filter fs) k (new_from_machine_list ms) v)),
    )
