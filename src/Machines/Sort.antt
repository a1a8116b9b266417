-- ===== src/Machines/Sort.antt =====
-- What the code relies on in sort.Sort: the elements stay, and no later element is less than an
-- earlier one. Which order elements that compare alike get is left open.
pub mod Insertion
use cluster_api_bootstrap_pr.Prelude.{Bool, true, false, List, [], ◌∷◌, ◌≡◌, ◌↔◌, All, Memᴰ, length}

-- No later element is less than an earlier one.
abbrev pub IsOrdered {ℓ} : {A : Type ℓ} → (A → A → Bool) → List A → Type 0
IsOrdered less [] = Unit
IsOrdered less (x ∷ xs) = All (λ y. less y x ≡ false) xs × IsOrdered less xs

-- A strict weak order, which sort.Sort wants of Less.
pub record IsStrictWeak {ℓ} {A : Type ℓ} (less : A → A → Bool) : Type ℓ where
  pub asymmetric : (x y : A) → less x y ≡ true → less y x ≡ false
  pub transitive : (x y z : A) → less y x ≡ false → less z y ≡ false → less z x ≡ false

pub record Sort {ℓ} (A : Type ℓ) : Type ℓ where
  pub sort : (A → A → Bool) → List A → List A
  pub same : (less : A → A → Bool) (xs : List A) (x : A) → Memᴰ x (sort less xs) ↔ Memᴰ x xs
  pub same_length : (less : A → A → Bool) (xs : List A) → length (sort less xs) ≡ length xs
  pub ordered :
      (less : A → A → Bool) (xs : List A) → IsStrictWeak less → IsOrdered less (sort less xs)
