-- ===== src/Remote/Keys.antt =====
-- Go maps with client.ObjectKey keys, and the heap that pointers lead into, as functions.
use cluster_api_bootstrap_pr.Prelude.{
  ℕ, Bool, true, false, str_eq, eq_iff, eq_refl, if◌then◌else◌, ◌&&◌, ◌==◌, ◌≡◌, ◌≢◌, refl, arith,
  ◌⊎◌, inl, inr, Bool-cases,
}
use cluster_api_bootstrap_pr.Secret.Store.{ObjectKey}

abbrev pub same_key : ObjectKey → ObjectKey → Bool
same_key a b = str_eq a.namespace_of b.namespace_of && str_eq a.name b.name

pub same_key_refl : (k : ObjectKey) → same_key k k ≡ true
same_key_refl k = rw (eq_refl k.namespace_of, eq_refl k.name) refl

pub same_key-eq : (a b : ObjectKey) → same_key a b ≡ true → a ≡ b
same_key-eq a b h =
    let p : a.namespace_of ≡ b.namespace_of =
      (ground (arith, eq_iff a.namespace_of b.namespace_of)) in
    let q : a.name ≡ b.name = (ground (arith, eq_iff a.name b.name)) in
    λ i. record { namespace_of = p i; name = q i }

module _ {ℓ} {A : Type ℓ} where
  -- `m[k] = a`, and `delete(m, k)` with nothing for `a`
  abbrev pub put : (ObjectKey → A) → ObjectKey → A → ObjectKey → A
  put m k a j = if same_key k j then a else m j

  -- `*p = a`
  abbrev pub write : (ℕ → A) → ℕ → A → ℕ → A
  write heap p a q = if p == q then a else heap q

  pub put-cases :
      (m : ObjectKey → A) (k : ObjectKey) (a : A) (j : ObjectKey)
      → ((k ≡ j) × (put m k a j ≡ a)) ⊎ ((same_key k j ≡ false) × (put m k a j ≡ m j))
  put-cases m k a j = elim (Bool-cases (same_key k j)) [
    | inl t ↦ inl (same_key-eq k j t, rw t refl)
    | inr t ↦ inr (t, rw t refl)
  ]

  pub put_same : (m : ObjectKey → A) (k : ObjectKey) (a : A) → put m k a k ≡ a
  put_same m k a = rw (same_key_refl k) refl

  pub write-cases :
      (heap : ℕ → A) (p : ℕ) (a : A) (q : ℕ)
      → ((p ≡ q) × (write heap p a q ≡ a)) ⊎ ((p ≢ q) × (write heap p a q ≡ heap q))
  write-cases heap p a q = elim (Bool-cases (p == q)) [
    | inl t ↦ inl ((ground arith), rw t refl)
    | inr t ↦ inr ((ground arith), rw t refl)
  ]
