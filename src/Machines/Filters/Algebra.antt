-- ===== src/Machines/Filters/Algebra.antt =====
-- What the combinators of machine_filters.go decide.
use cluster_api_bootstrap_pr.Prelude.{
  String, true, false, Option, none, some, List, [], ◌∷◌, arith, ◌≡◌, refl, ◌↔◌, inl, inr, str_eq,
  eq_iff, map, All, Memᴰ, Bool-cases,
}
use cluster_api_bootstrap_pr.Api.{Machine}
use cluster_api_bootstrap_pr.Machines.Filters.{
  Filter, and_filter, or_filter, not_filter, in_domains, in_failure_domains,
}

and_filter→All :
    (fs : List Filter) (m : Option Machine)
    → and_filter fs m ≡ true
    → All (λ (f : Filter). f m ≡ true) fs
unfolding and_filter
and_filter→All [] m h = tt
and_filter→All (f ∷ fs) m h = elim (Bool-cases (f m)) [
  | inl t ↦ (t, and_filter→All fs m (ground arith))
  | inr t ↦ ground arith
]

All→and_filter :
    (fs : List Filter) (m : Option Machine)
    → All (λ (f : Filter). f m ≡ true) fs
    → and_filter fs m ≡ true
unfolding and_filter
All→and_filter [] m h = refl
All→and_filter (f ∷ fs) m h = rw h.0 (All→and_filter fs m h.1)

-- And passes a machine exactly when every given filter passes it.
pub and_filter-All :
    (fs : List Filter) (m : Option Machine)
    → (and_filter fs m ≡ true) ↔ All (λ (f : Filter). f m ≡ true) fs
and_filter-All fs m = (and_filter→All fs m, All→and_filter fs m)

-- Or is the negation of And over the negated filters, and so passes a machine that one of them
-- passes.
pub or_filter-not_filter :
    (fs : List Filter) (m : Option Machine)
    → or_filter fs m ≡ not_filter (and_filter (map not_filter fs)) m
unfolding or_filter and_filter not_filter
or_filter-not_filter [] m = refl
or_filter-not_filter (f ∷ fs) m = ground (arith, or_filter-not_filter fs m)

in_domains→Memᴰ :
    (fds : List (Option String)) (d : Option String) → in_domains fds d ≡ true → Memᴰ d fds
unfolding in_domains
in_domains→Memᴰ [] d h = cc
in_domains→Memᴰ (none ∷ fds) none h = Memᴰ.head refl
in_domains→Memᴰ (none ∷ fds) (some d) h = Memᴰ.tail (in_domains→Memᴰ fds (some d) h)
in_domains→Memᴰ (some fd ∷ fds) none h = Memᴰ.tail (in_domains→Memᴰ fds none h)
in_domains→Memᴰ (some fd ∷ fds) (some d) h = elim (Bool-cases (str_eq fd d)) [
  | inl t ↦ Memᴰ.head (cc ((eq_iff fd d).0 t))
  | inr t ↦ Memᴰ.tail (in_domains→Memᴰ fds (some d) (rw t at h))
]

Memᴰ→in_domains :
    (fds : List (Option String)) (d : Option String) → Memᴰ d fds → in_domains fds d ≡ true
unfolding in_domains
Memᴰ→in_domains [] d m = elim m [ ]
Memᴰ→in_domains (none ∷ fds) none m = refl
Memᴰ→in_domains (none ∷ fds) (some d) (Memᴰ.head e) = cc
Memᴰ→in_domains (none ∷ fds) (some d) (Memᴰ.tail m) = Memᴰ→in_domains fds (some d) m
Memᴰ→in_domains (some fd ∷ fds) none (Memᴰ.head e) = cc
Memᴰ→in_domains (some fd ∷ fds) none (Memᴰ.tail m) = Memᴰ→in_domains fds none m
Memᴰ→in_domains (some fd ∷ fds) (some d) (Memᴰ.head e) = ground (arith, eq_iff fd d)
Memᴰ→in_domains (some fd ∷ fds) (some d) (Memᴰ.tail m) =
    ground (arith, Memᴰ→in_domains fds (some d) m)

-- InFailureDomains passes exactly the machines whose failure domain, or whose lack of one, is
-- among the given pointers; it never passes a missing machine.
pub in_failure_domains-Memᴰ :
    (fds : List (Option String)) (m : Machine)
    → (in_failure_domains fds none ≡ false)
      × ((in_failure_domains fds (some m) ≡ true) ↔ Memᴰ m.failure_domain fds)
unfolding in_failure_domains
in_failure_domains-Memᴰ fds m =
    (refl, (in_domains→Memᴰ fds m.failure_domain, Memᴰ→in_domains fds m.failure_domain))
