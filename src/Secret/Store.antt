-- ===== src/Secret/Store.antt =====
-- The Secrets of the management cluster as the code sees them through its client: an interface with
-- the documented behaviour of the API server that the code relies on.
use cluster_api_bootstrap_pr.Prelude.{String, Option, none, List, Result, ok, Error, ◌≡◌, ◌≢◌}
use cluster_api_bootstrap_pr.Api.{OwnerReference}

-- client.ObjectKey
pub record ObjectKey : Type 0 where
  pub namespace_of : String
  pub name : String

-- corev1.Secret
pub record Secret : Type 0 where
  pub key : ObjectKey
  pub labels : List (String × String)
  pub owner_references : List OwnerReference
  pub type_of : String
  pub content : List (String × String)

-- A client of the API server. A call may fail for any reason that the state holds.
pub record SecretClient (W : Type 0) : Type 0 where
  pub get : ObjectKey → W → Result Secret
  pub create : Secret → W → Option Error × W
  -- what was created is read back, and no other Secret has changed
  pub get_created : (s : Secret) (w : W) → (create s w).0 ≡ none → get s.key (create s w).1 ≡ ok s
  pub get_other : (s : Secret) (w : W) (k : ObjectKey) → k ≢ s.key → get k (create s w).1 ≡ get k w
