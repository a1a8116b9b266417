-- ===== src/Machines/FailureDomain/Choice.antt =====
-- Which failure domains PickFewest and PickNFewest choose.
use Prim.Native.Nat.{◌%◌}
use native.Mathlib.Nat.{mod-lt, mod-eq_of_lt, mod-le, zero-add}
use cluster_api_bootstrap_pr.Prelude.{
  ℕ, zero, suc, ◌+◌, ◌≤◌, ◌<◌, String, Option, none, some, List, [], ◌∷◌, arith, ◌≡◌, refl, ◌∙◌, ap,
  Memᴰ, Bool-cases, is_empty, inl, inr, length, get_elem?,
}
use cluster_api_bootstrap_pr.Prelude.Dict.{keys}
use cluster_api_bootstrap_pr.Api.{Machine, FailureDomains}
use cluster_api_bootstrap_pr.Machines.Sort.{Sort, IsOrdered}
use cluster_api_bootstrap_pr.Machines.FailureDomain.{
  Aggregation, less, pick, cycle, nils, pick_fewest, pick_n_fewest,
}
use cluster_api_bootstrap_pr.Machines.FailureDomain.Counts.{
  machines_in, pick-tally, length-tally, length-keys,
}
use cluster_api_bootstrap_pr.Machines.FailureDomain.Order.{
  less-IsStrictWeak, not-less, tallied, is_empty-pick, not_less_first, sorted_counts, counted_id,
}

module _ (sorter : Sort Aggregation) (domains : FailureDomains) (ms : List Machine) where
  first_fewest :
      (l : List Aggregation) (j : String)
      → IsOrdered less l
      → ((a : Aggregation) → Memᴰ a l → Memᴰ a.id (keys domains) × (a.count ≡ machines_in ms a.id))
      → Memᴰ (tallied ms j) l
      → (id : String) × (elim l [ [] ↦ none | a ∷ rest ↦ some a.id ] ≡ some id)
        × Memᴰ id (keys domains)
        × (machines_in ms id ≤ machines_in ms j)
  first_fewest [] j o sound m = elim m [ ]
  first_fewest (a ∷ rest) j o sound m =
      let (known, counted) = sound a (Memᴰ.head refl) in
      let least =
        not-less (tallied ms j) a
          (not_less_first less a (tallied ms j) rest less-IsStrictWeak o m) in
      (a.id, refl, known, omega arith)

-- With failure domains at hand PickFewest returns one of them, and no failure domain has fewer of
-- the machines.
pub pick_fewest-le :
    (sorter : Sort Aggregation) (domains : FailureDomains) (ms : List Machine) (j : String)
    → Memᴰ j (keys domains)
    → (id : String) × (pick_fewest sorter domains ms ≡ some id)
      × Memᴰ id (keys domains)
      × (machines_in ms id ≤ machines_in ms j)
unfolding pick_fewest
pick_fewest-le sorter domains ms j m = rw (is_empty-pick domains ms j m) (
    first_fewest sorter domains ms (sorter.sort less (pick domains ms)) j
      (sorter.ordered less (pick domains ms) less-IsStrictWeak)
      (sorted_counts sorter domains ms less) (counted_id sorter domains ms less j m))

length-cycle : (ags : List Aggregation) (i k : ℕ) → length (cycle ags i k) ≡ k
unfolding cycle
length-cycle ags i zero = refl
length-cycle ags i (suc k) = ap suc (length-cycle ags (suc i) k)

abbrev id_at : List Aggregation → ℕ → Option String
id_at ags i = elim (get_elem? ags (i % length ags)) [ none ↦ none | some a ↦ some a.id ]

id_at-some :
    (ags : List Aggregation) (i k : ℕ) (a : Aggregation)
    → i % length ags ≡ k
    → get_elem? ags k ≡ some a
    → id_at ags i ≡ some a.id
id_at-some ags i k a p e =
    ap (λ (o : Option Aggregation). elim o [ none ↦ none | some b ↦ some b.id ])
      (ap (get_elem? ags) p ∙ e)

cycle_at :
    (ags : List Aggregation) (i k j : ℕ)
    → j < k
    → get_elem? (cycle ags i k) j ≡ some (id_at ags (i + j))
unfolding cycle
cycle_at ags i zero j h = absurd (omega arith)
cycle_at ags i (suc k) zero h = ap (λ (n : ℕ). some (id_at ags n)) (omega arith)
cycle_at ags i (suc k) (suc j) h =
    cycle_at ags (suc i) k j (omega arith) ∙ ap (λ (n : ℕ). some (id_at ags n)) (omega arith)

in_range :
    (l : List Aggregation) (i : ℕ)
    → i < length l
    → (a : Aggregation) × (get_elem? l i ≡ some a) × Memᴰ a l
in_range [] i h = absurd (omega arith)
in_range (a ∷ l) zero h = (a, refl, Memᴰ.head refl)
in_range (a ∷ l) (suc i) h = let (b, e, m) = in_range l i (omega arith) in (b, e, Memᴰ.tail m)

module _ (sorter : Sort Aggregation) (domains : FailureDomains) (ms : List Machine) (n : ℕ) where
  abbrev counters : List Aggregation
  counters = sorter.sort less (pick domains ms)

  length-counters : length counters ≡ length domains
  length-counters =
      sorter.same_length less (pick domains ms)
      ∙ ap length (pick-tally domains ms)
      ∙ length-tally ms (keys domains)
      ∙ length-keys domains

  pick_n_fewest-cycle :
      (j : String) → Memᴰ j (keys domains) → pick_n_fewest sorter domains ms n ≡ cycle counters 0 n
  unfolding pick_n_fewest
  pick_n_fewest-cycle j m = rw (is_empty-pick domains ms j m)

length-nils : (n : ℕ) → length (nils n) ≡ n
unfolding nils
length-nils zero = refl
length-nils (suc n) = ap suc (length-nils n)

-- PickNFewest returns `n` pointers, with or without failure domains.
pub length-pick_n_fewest :
    (sorter : Sort Aggregation) (domains : FailureDomains) (ms : List Machine) (n : ℕ)
    → length (pick_n_fewest sorter domains ms n) ≡ n
unfolding pick_n_fewest
length-pick_n_fewest sorter domains ms n = elim (Bool-cases (is_empty (pick domains ms))) [
  | inl t ↦ rw t (length-nils n)
  | inr t ↦ rw t (length-cycle (counters sorter domains ms n) 0 n)
]

length_pos : (domains : FailureDomains) (j : String) → Memᴰ j (keys domains) → 0 < length domains
length_pos [] j m = elim m [ ]
length_pos (d ∷ rest) j m = omega arith

-- With failure domains at hand PickNFewest returns `n` of them, the `i`-th for every `i` below `n`
-- without a nil or an index out of range, and they repeat with the number of failure domains.
pub pick_n_fewest_at :
    (sorter : Sort Aggregation) (domains : FailureDomains) (ms : List Machine) (n i : ℕ)
    (j : String)
    → i < n
    → Memᴰ j (keys domains)
    → (id : String) × (length (pick_n_fewest sorter domains ms n) ≡ n)
      × (get_elem? (pick_n_fewest sorter domains ms n) i ≡ some (some id))
      × (get_elem? (pick_n_fewest sorter domains ms n) (i % length domains) ≡ some (some id))
      × Memᴰ id (keys domains)
pick_n_fewest_at sorter domains ms n i j h m =
    let ags = counters sorter domains ms n in
    let len = length-counters sorter domains ms n in
    let pos = length_pos domains j m in
    let small : i % length ags < length ags = (rw len (mod-lt i pos)) in
    let (a, e, inside) = in_range ags (i % length ags) small in
    let r = i % length domains in
    let lower : r < n = omega (arith, mod-le i (length domains)) in
    let round : r % length ags ≡ i % length ags = (rw len (mod-eq_of_lt (mod-lt i pos))) in
    let at_i : id_at ags (0 + i) ≡ some a.id = rw zero-add (id_at-some ags i _ a refl e) in
    let at_r : id_at ags (0 + r) ≡ some a.id = rw zero-add (id_at-some ags r _ a round e) in
    rw (pick_n_fewest-cycle sorter domains ms n j m) (
      a.id,
      length-cycle ags 0 n,
      cycle_at ags 0 n i h ∙ ap some at_i,
      cycle_at ags 0 n r lower ∙ ap some at_r,
      (sorted_counts sorter domains ms less a inside).0,
    )
