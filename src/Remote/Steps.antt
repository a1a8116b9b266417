-- ===== src/Remote/Steps.antt =====
-- internal/remote/cluster_cache.go: calls of a cluster cache tracker that do not overlap, in any order.
-- Remote/Threads has calls that do.
pub mod Created
pub mod Forgotten
pub mod Kept
use cluster_api_bootstrap_pr.Prelude.{
  ℕ, ◌<◌, Bool, true, false, Option, none, some, List, [], Result, ok, Error, ◌≡◌, ◌⊎◌, is_empty,
}
use cluster_api_bootstrap_pr.Secret.Store.{ObjectKey}
use cluster_api_bootstrap_pr.Remote.Tracker.{
  Tracker, WatchInfo, Replies, new_cache, watch, after_poll, reconcile_cluster,
}

-- One call, from its locks to its return: Watch, the end of a health check that returned an error, or
-- Reconcile.
pub data Step (m : Tracker) : Tracker → Type 0 where
  watched :
      (replies : Replies) (cluster : ObjectKey) (wi : WatchInfo)
      → Step m (watch replies cluster wi m).1
  polled :
      (cluster : ObjectKey) (e : Error) {m' : Tracker}
      → after_poll cluster (some e) m ≡ ok m'
      → Step m m'
  reconciled :
      (cluster : ObjectKey) (read : Option Error) (answer : Option Error) {m' : Tracker}
      → reconcile_cluster cluster read m ≡ ok (answer, m')
      → Step m m'

pub data Reach (m : Tracker) : Tracker → Type 0 where
  here : Reach m m
  next : {m' m'' : Tracker} → Reach m m' → Step m' m'' → Reach m m''

-- The caches in the map are the ones that are not stopped, each under one key; a channel is closed
-- when its cache is stopped; and a cluster with a watch has a cache.
pub record IsConsistent (m : Tracker) : Type 0 where
  pub live :
      (k : ObjectKey) (c : ℕ) → m.cluster_caches k ≡ some c → (c < m.made) × (m.heap c ≡ new_cache)
  pub owner :
      (j k : ObjectKey) (c : ℕ) → m.cluster_caches j ≡ some c → m.cluster_caches k ≡ some c → j ≡ k
  pub kept :
      (c : ℕ)
      → c < m.made
      → (m.heap c).stopped ≡ false
      → (k : ObjectKey) × (m.cluster_caches k ≡ some c)
  pub closes : (c : ℕ) → c < m.made → (m.heap c).closed ≡ (m.heap c).stopped
  pub watching :
      (k : ObjectKey) (ws : List WatchInfo)
      → m.watches k ≡ some ws
      → (is_empty ws ≡ true) ⊎ ((c : ℕ) × (m.cluster_caches k ≡ some c))
