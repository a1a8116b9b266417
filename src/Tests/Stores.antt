-- ===== src/Tests/Stores.antt =====
-- A store of Secrets that behaves as the interface asks.
use cluster_api_bootstrap_pr.Prelude.{
  Bool, true, false, Option, none, some, List, [], ◌∷◌, Result, ok, err, Error, not_found,
  already_exists, if◌then◌else◌, ◌≡◌, ◌≢◌, refl, Bool-cases, inl, inr, sym,
}
use cluster_api_bootstrap_pr.Remote.Keys.{same_key, same_key_refl, same_key-eq}
use cluster_api_bootstrap_pr.Secret.Store.{ObjectKey, Secret, SecretClient}

abbrev find : ObjectKey → List Secret → Result Secret
find k [] = err not_found
find k (s ∷ w) = if same_key s.key k then ok s else find k w

abbrev has : ObjectKey → List Secret → Bool
has k [] = false
has k (s ∷ w) = if same_key s.key k then true else has k w

abbrev add : Secret → List Secret → Option Error × List Secret
add s w = if has s.key w then (some already_exists, w) else (none, s ∷ w)

pub find-add : (s : Secret) (w : List Secret) → (add s w).0 ≡ none → find s.key (add s w).1 ≡ ok s
find-add s w = elim (Bool-cases (has s.key w)) [
  | inl t ↦ rw t (λ h. cc)
  | inr t ↦ rw (t, same_key_refl s.key) (λ h. refl)
]

pub find_other :
    (s : Secret) (w : List Secret) (k : ObjectKey) → k ≢ s.key → find k (add s w).1 ≡ find k w
find_other s w k ne = elim (Bool-cases (has s.key w)) [
  | inl t ↦ rw t refl
  | inr t ↦ rw t (elim (Bool-cases (same_key s.key k)) [
    | inl u ↦ absurd (ne (sym (same_key-eq s.key k u)))
    | inr u ↦ rw u refl
  ])
]

find-has : (k : ObjectKey) (w : List Secret) (s : Secret) → find k w ≡ ok s → has k w ≡ true
find-has k [] s = λ h. cc
find-has k (x ∷ w) s = elim (Bool-cases (same_key x.key k)) [
  | inl t ↦ rw t (λ h. refl)
  | inr t ↦ rw t (find-has k w s)
]

-- What is there is not created again.
pub add_again :
    (s s' : Secret) (w : List Secret) → find s.key w ≡ ok s' → add s w ≡ (some already_exists, w)
add_again s s' w h = rw (find-has s.key w s' h) refl

abbrev pub store : SecretClient (List Secret)
store = record { get = find; create = add; get_created = find-add; get_other = find_other }
