-- ===== src/Machines/FailureDomain/Order.antt =====
-- The sorted counters of the failure domains: what sort.Sort gives for Less and for its reverse.
use cluster_api_bootstrap_pr.Prelude.{
  ◌≤◌, String, Bool, false, List, [], ◌∷◌, arith, ◌≡◌, sym, subst, Memᴰ, All-Memᴰ, Bool-cases, inl,
  inr, is_empty,
}
use cluster_api_bootstrap_pr.Prelude.Dict.{keys}
use cluster_api_bootstrap_pr.Api.{Machine, FailureDomains}
use cluster_api_bootstrap_pr.Machines.Sort.{Sort, IsOrdered, IsStrictWeak}
use cluster_api_bootstrap_pr.Machines.FailureDomain.{Aggregation, less, more, pick}
use cluster_api_bootstrap_pr.Machines.FailureDomain.Counts.{
  machines_in, pick-tally, Memᴰ-tally, tally-Memᴰ,
}

pub less-IsStrictWeak : IsStrictWeak less
unfolding less
less-IsStrictWeak = record {
  asymmetric = λ x y h. ground arith;
  transitive = λ x y z h k. ground arith;
}

pub more-IsStrictWeak : IsStrictWeak more
unfolding more
more-IsStrictWeak = record {
  asymmetric = λ x y h. ground arith;
  transitive = λ x y z h k. ground arith;
}

pub not-less : (a b : Aggregation) → less a b ≡ false → b.count ≤ a.count
unfolding less
not-less a b h = ground arith

pub not-more : (a b : Aggregation) → more a b ≡ false → a.count ≤ b.count
unfolding more
not-more a b h = ground arith

abbrev pub tallied : List Machine → String → Aggregation
tallied ms id = record { id = id; count = machines_in ms id }

pub is_empty-pick :
    (domains : FailureDomains) (ms : List Machine) (j : String)
    → Memᴰ j (keys domains)
    → is_empty (pick domains ms) ≡ false
is_empty-pick [] ms j m = elim m [ ]
is_empty-pick (d ∷ rest) ms j m = rw pick-tally

-- Nothing in an ordered list is less than its first element.
pub not_less_first :
    (r : Aggregation → Aggregation → Bool) (a b : Aggregation) (rest : List Aggregation)
    → IsStrictWeak r
    → IsOrdered r (a ∷ rest)
    → Memᴰ b (a ∷ rest)
    → r b a ≡ false
not_less_first r a b rest w o (Memᴰ.head e) = elim (Bool-cases (r b a)) [
  | inl t ↦ rw e (w.asymmetric a a (cc))
  | inr t ↦ t
]
not_less_first r a b rest w o (Memᴰ.tail m) = All-Memᴰ _ rest b o.0 m

module _ (sorter : Sort Aggregation) (domains : FailureDomains) (ms : List Machine) where
  pub sorted_counts :
      (r : Aggregation → Aggregation → Bool) (a : Aggregation)
      → Memᴰ a (sorter.sort r (pick domains ms))
      → Memᴰ a.id (keys domains) × (a.count ≡ machines_in ms a.id)
  sorted_counts r a m =
      Memᴰ-tally ms (keys domains) a
        (subst (Memᴰ a) (pick-tally domains ms) ((sorter.same r (pick domains ms) a).0 m))

  pub counted_id :
      (r : Aggregation → Aggregation → Bool) (id : String)
      → Memᴰ id (keys domains)
      → Memᴰ (tallied ms id) (sorter.sort r (pick domains ms))
  counted_id r id m = (sorter.same r (pick domains ms) (tallied ms id)).1 (
      subst (Memᴰ (tallied ms id)) (sym (pick-tally domains ms))
        (tally-Memᴰ ms (keys domains) id m))
