-- ===== src/Machines/Sort/Insertion.antt =====
-- Insertion sort meets what is relied on in sort.Sort.
use cluster_api_bootstrap_pr.Prelude.{
  suc, Bool, true, false, List, [], ◌∷◌, ◌≡◌, ◌↔◌, refl, ap, ◌∙◌, All, Memᴰ, length, if◌then◌else◌,
  Bool-cases, inl, inr, arith, All-of_Memᴰ, All-Memᴰ,
}
use cluster_api_bootstrap_pr.Machines.Sort.{IsOrdered, IsStrictWeak, Sort}

module _ {ℓ} {A : Type ℓ} where
  abbrev insert : (A → A → Bool) → A → List A → List A
  insert less x [] = x ∷ []
  insert less x (y ∷ ys) = if less y x then y ∷ insert less x ys else x ∷ y ∷ ys

  abbrev sort : (A → A → Bool) → List A → List A
  sort less [] = []
  sort less (x ∷ xs) = insert less x (sort less xs)

module _ {ℓ} {A : Type ℓ} (less : A → A → Bool) where
  Memᴰ_under : (x y : A) (ys : List A) (z : A) → Memᴰ z (x ∷ ys) → Memᴰ z (x ∷ y ∷ ys)
  Memᴰ_under x y ys z (Memᴰ.head e) = Memᴰ.head e
  Memᴰ_under x y ys z (Memᴰ.tail n) = Memᴰ.tail (Memᴰ.tail n)

  Memᴰ_swap : (x y : A) (ys : List A) (z : A) → Memᴰ z (y ∷ x ∷ ys) → Memᴰ z (x ∷ y ∷ ys)
  Memᴰ_swap x y ys z (Memᴰ.head e) = Memᴰ.tail (Memᴰ.head e)
  Memᴰ_swap x y ys z (Memᴰ.tail m) = Memᴰ_under x y ys z m

  Memᴰ_cons :
      (y : A) (xs ys : List A) (z : A) → (Memᴰ z xs → Memᴰ z ys) → Memᴰ z (y ∷ xs) → Memᴰ z (y ∷ ys)
  Memᴰ_cons y xs ys z f (Memᴰ.head e) = Memᴰ.head e
  Memᴰ_cons y xs ys z f (Memᴰ.tail m) = Memᴰ.tail (f m)

  Memᴰ-insert : (x : A) (ys : List A) (z : A) → Memᴰ z (insert less x ys) ↔ Memᴰ z (x ∷ ys)
  Memᴰ-insert x [] z = (λ m. m, λ m. m)
  Memᴰ-insert x (y ∷ ys) z =
      let (to, from) = Memᴰ-insert x ys z in
      elim (Bool-cases (less y x)) [
        | inl t ↦ rw t (
          λ m. Memᴰ_swap x y ys z (Memᴰ_cons y (insert less x ys) (x ∷ ys) z to m),
          λ m. Memᴰ_cons y (x ∷ ys) (insert less x ys) z from (Memᴰ_swap y x ys z m),
        )
        | inr t ↦ rw t (λ m. m, λ m. m)
      ]

  pub Memᴰ-sort : (xs : List A) (z : A) → Memᴰ z (sort less xs) ↔ Memᴰ z xs
  Memᴰ-sort [] z = (λ m. m, λ m. m)
  Memᴰ-sort (x ∷ xs) z =
      let (to, from) = Memᴰ-sort xs z in
      let (to', from') = Memᴰ-insert x (sort less xs) z in
      (
        λ m. Memᴰ_cons x (sort less xs) xs z to (to' m),
        λ m. from' (Memᴰ_cons x xs (sort less xs) z from m),
      )

  length-insert : (x : A) (ys : List A) → length (insert less x ys) ≡ suc (length ys)
  length-insert x [] = refl
  length-insert x (y ∷ ys) = ground (arith, length-insert x ys)

  pub length-sort : (xs : List A) → length (sort less xs) ≡ length xs
  length-sort [] = refl
  length-sort (x ∷ xs) = length-insert x (sort less xs) ∙ ap suc (length-sort xs)

  module _ (weak : IsStrictWeak less) where
    not_less_insert :
        (x y : A) (ys : List A)
        → less y x ≡ true
        → All (λ z. less z y ≡ false) ys
        → (z : A) → Memᴰ z (x ∷ ys)
        → less z y ≡ false
    not_less_insert x y ys t h z (Memᴰ.head e) = rw e (weak.asymmetric y x t)
    not_less_insert x y ys t h z (Memᴰ.tail m) = All-Memᴰ _ ys z h m

    insert-IsOrdered : (x : A) (ys : List A) → IsOrdered less ys → IsOrdered less (insert less x ys)
    insert-IsOrdered x [] h = (tt, tt)
    insert-IsOrdered x (y ∷ ys) h = elim (Bool-cases (less y x)) [
      | inl t ↦ rw t (
        All-of_Memᴰ _ (insert less x ys)
            (λ z m. not_less_insert x y ys t h.0 z ((Memᴰ-insert x ys z).0 m)),
        insert-IsOrdered x ys h.1,
      )
      | inr t ↦
          rw t ((t, All-of_Memᴰ _ ys (λ z m. weak.transitive x y z t (All-Memᴰ _ ys z h.0 m))), h)
    ]

    pub sort-IsOrdered : (xs : List A) → IsOrdered less (sort less xs)
    sort-IsOrdered [] = tt
    sort-IsOrdered (x ∷ xs) = insert-IsOrdered x (sort less xs) (sort-IsOrdered xs)

abbrev pub insertion {ℓ} : {A : Type ℓ} → Sort A
insertion = record {
  sort = sort;
  same = Memᴰ-sort;
  same_length = length-sort;
  ordered = λ less xs weak. sort-IsOrdered less weak xs;
}
