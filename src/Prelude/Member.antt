-- ===== src/Prelude/Member.antt =====
-- Membership with its witness, and its way through `keep`.
use mathlib.Core.Path.{◌≡◌}
use mathlib.Core.Logic.{◌⊎◌, inl, inr}
use mathlib.Core.Bool.{Bool, true, false}
use mathlib.Core.List.{List, [], ◌∷◌, ◌++◌}
use cluster_api_bootstrap_pr.Prelude.Tests.{if◌then◌else◌, Bool-cases}
use cluster_api_bootstrap_pr.Prelude.Lists.{keep}
pub use mathlib.Core.List.{Memᴰ}

-- Every element has the property.
abbrev pub All {ℓ κ} : {A : Type ℓ} → (A → Type κ) → List A → Type κ
All P [] = Unit
All P (x ∷ xs) = P x × All P xs

module _ {ℓ} {A : Type ℓ} where
  pub All-Memᴰ {κ} : (P : A → Type κ) (xs : List A) (x : A) → All P xs → Memᴰ x xs → P x
  All-Memᴰ P [] x h m = elim m [ ]
  All-Memᴰ P (y ∷ ys) x h (Memᴰ.head e) = rw e h.0
  All-Memᴰ P (y ∷ ys) x h (Memᴰ.tail m) = All-Memᴰ P ys x h.1 m

  pub All-of_Memᴰ {κ} : (P : A → Type κ) (xs : List A) → ((x : A) → Memᴰ x xs → P x) → All P xs
  All-of_Memᴰ P [] h = tt
  All-of_Memᴰ P (x ∷ xs) h = (h x (Memᴰ.head (λ i. x)), All-of_Memᴰ P xs (λ y m. h y (Memᴰ.tail m)))

  keep_cons :
      (b : Bool) (y x : A) (rest : List A)
      → Memᴰ x (if b then y ∷ rest else rest)
      → ((x ≡ y) × (b ≡ true)) ⊎ Memᴰ x rest
  keep_cons true y x rest (Memᴰ.head e) = inl (e, (λ i. true))
  keep_cons true y x rest (Memᴰ.tail m) = inr m
  keep_cons false y x rest m = inr m

  pub Memᴰ-keep :
      (p : A → Bool) (xs : List A) (x : A) → Memᴰ x (keep p xs) → Memᴰ x xs × (p x ≡ true)
  Memᴰ-keep p [] x m = elim m [ ]
  Memᴰ-keep p (y ∷ ys) x m = elim (keep_cons (p y) y x (keep p ys) m) [
    | inl (e, h) ↦ (Memᴰ.head e, rw e h)
    | inr m' ↦ let (m₁, h) = Memᴰ-keep p ys x m' in (Memᴰ.tail m₁, h)
  ]

  pub keep-Memᴰ : (p : A → Bool) (xs : List A) (x : A) → Memᴰ x xs → p x ≡ true → Memᴰ x (keep p xs)
  keep-Memᴰ p [] x m h = elim m [ ]
  keep-Memᴰ p (y ∷ ys) x (Memᴰ.head e) h = let t : p y ≡ true = (cc) in rw t (Memᴰ.head e)
  keep-Memᴰ p (y ∷ ys) x (Memᴰ.tail m) h = elim (Bool-cases (p y)) [
    | inl t ↦ rw t (Memᴰ.tail (keep-Memᴰ p ys x m h))
    | inr t ↦ rw t (keep-Memᴰ p ys x m h)
  ]

  pub Memᴰ-append : (xs ys : List A) (x : A) → Memᴰ x (xs ++ ys) → Memᴰ x xs ⊎ Memᴰ x ys
  Memᴰ-append [] ys x m = inr m
  Memᴰ-append (y ∷ xs) ys x (Memᴰ.head e) = inl (Memᴰ.head e)
  Memᴰ-append (y ∷ xs) ys x (Memᴰ.tail m) = elim (Memᴰ-append xs ys x m) [
    | inl l ↦ inl (Memᴰ.tail l)
    | inr r ↦ inr r
  ]

  pub append-Memᴰ : (xs ys : List A) (x : A) → Memᴰ x xs ⊎ Memᴰ x ys → Memᴰ x (xs ++ ys)
  append-Memᴰ [] ys x (inl m) = elim m [ ]
  append-Memᴰ [] ys x (inr m) = m
  append-Memᴰ (y ∷ xs) ys x (inl (Memᴰ.head e)) = Memᴰ.head e
  append-Memᴰ (y ∷ xs) ys x (inl (Memᴰ.tail m)) = Memᴰ.tail (append-Memᴰ xs ys x (inl m))
  append-Memᴰ (y ∷ xs) ys x (inr m) = Memᴰ.tail (append-Memᴰ xs ys x (inr m))
