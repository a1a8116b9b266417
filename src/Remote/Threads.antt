-- ===== src/Remote/Threads.antt =====
-- internal/remote/cluster_cache.go: goroutines that run Watch and the clean-up of healthCheckCluster and
-- Reconcile, each lock taken and released by itself, in any order.
pub mod Fits
pub mod Made
pub mod Kept
pub mod Leaked
pub mod Alone
use cluster_api_bootstrap_pr.Prelude.{
  ℕ, Bool, true, false, Option, none, some, List, Result, ok, err, Error, ◌≡◌,
}
use cluster_api_bootstrap_pr.Secret.Store.{ObjectKey}
use cluster_api_bootstrap_pr.Remote.Keys.{write}
use cluster_api_bootstrap_pr.Remote.Tracker.{
  Tracker, ClusterCache, WatchInfo, Replies, stop_cache, get_cluster_cache, delete_cluster_cache,
  delete_watches_for_cluster, watch_exists, with_watches, add_watch, new_cluster_cache,
  new_cluster_cache_tracker,
}

-- Where a goroutine stands between two locks, with its live variables.
pub data Pc : Type 0 where
  idle : Pc
  looked : (cluster : ObjectKey) (c : ℕ) → Pc  -- clean-up: getClusterCache has returned `c`
  stopped : (cluster : ObjectKey) → Pc  -- clean-up: after Stop
  forgot : (cluster : ObjectKey) → Pc  -- clean-up: after deleteClusterCache
  checked : (cluster : ObjectKey) (wi : WatchInfo) → Pc  -- Watch: after its first test
  holding : (cluster : ObjectKey) (wi : WatchInfo) → Pc  -- Watch: holds watchesLock, after its second
  missed : (cluster : ObjectKey) (wi : WatchInfo) → Pc  -- Watch: getClusterCache has returned nil
  cached : (cluster : ObjectKey) (wi : WatchInfo) (c : ℕ) → Pc  -- Watch: before Watcher.Watch
  panicked : Pc

-- One critical section of a goroutine: the tracker, whether watchesLock is held for writing, and where
-- the goroutine stands, before and after.
pub data Act (m : Tracker) (held : Bool) : Pc → Tracker → Bool → Pc → Type 0 where
  look :
      {cluster : ObjectKey} {c : ℕ}
      → get_cluster_cache m cluster ≡ some c
      → Act m held idle m held (looked cluster c)
  absent : (cluster : ObjectKey) → get_cluster_cache m cluster ≡ none → Act m held idle m held idle
  stops :
      {cluster : ObjectKey} {c : ℕ} {after : ClusterCache}
      → stop_cache (m.heap c) ≡ ok after
      → Act m held
          (looked cluster c)
          (record m { heap = write m.heap c after })
          held
          (stopped cluster)
  panic :
      {cluster : ObjectKey} {c : ℕ} {e : Error}
      → stop_cache (m.heap c) ≡ err e
      → Act m held (looked cluster c) m held panicked
  forgets :
      {cluster : ObjectKey}
      → Act m held (stopped cluster) (delete_cluster_cache cluster m) held (forgot cluster)
  unwatch :
      {cluster : ObjectKey}
      → held ≡ false
      → Act m held (forgot cluster) (delete_watches_for_cluster cluster m) false idle
  exists :
      (cluster : ObjectKey) (wi : WatchInfo)
      → held ≡ false
      → watch_exists m cluster wi ≡ true
      → Act m held idle m false idle
  check :
      (cluster : ObjectKey) (wi : WatchInfo)
      → held ≡ false
      → watch_exists m cluster wi ≡ false
      → Act m held idle m false (checked cluster wi)
  exists_now :
      {cluster : ObjectKey} {wi : WatchInfo}
      → held ≡ false
      → watch_exists m cluster wi ≡ true
      → Act m held (checked cluster wi) m false idle
  hold :
      {cluster : ObjectKey} {wi : WatchInfo}
      → held ≡ false
      → watch_exists m cluster wi ≡ false
      → Act m held (checked cluster wi) (with_watches cluster m) true (holding cluster wi)
  hit :
      {cluster : ObjectKey} {wi : WatchInfo} {c : ℕ}
      → get_cluster_cache m cluster ≡ some c
      → Act m held (holding cluster wi) m held (cached cluster wi c)
  miss :
      {cluster : ObjectKey} {wi : WatchInfo}
      → get_cluster_cache m cluster ≡ none
      → Act m held (holding cluster wi) m held (missed cluster wi)
  create :
      {cluster : ObjectKey} {wi : WatchInfo} {c : ℕ} (replies : Replies)
      → (new_cluster_cache replies cluster m).0 ≡ ok c
      → Act m held
          (missed cluster wi)
          (new_cluster_cache replies cluster m).1
          held
          (cached cluster wi c)
  refuse :
      {cluster : ObjectKey} {wi : WatchInfo} {e : Error} (replies : Replies)
      → (new_cluster_cache replies cluster m).0 ≡ err e
      → Act m held (missed cluster wi) (new_cluster_cache replies cluster m).1 false idle
  register :
      {cluster : ObjectKey} {wi : WatchInfo} {c : ℕ}
      → Act m held (cached cluster wi c) (add_watch cluster wi m) false idle
  unregistered :
      {cluster : ObjectKey} {wi : WatchInfo} {c : ℕ} → Act m held (cached cluster wi c) m false idle

-- The tracker, watchesLock, and a goroutine at each number.
pub record System : Type 0 where
  pub tracker : Tracker
  pub held : Bool
  pub pc : ℕ → Pc

abbrev pub start : System
start = record { tracker = new_cluster_cache_tracker; held = false; pc = λ i. idle }

pub data Turn (s : System) : System → Type 0 where
  turn :
      (i : ℕ) {p p' : Pc} {m : Tracker} {held : Bool}
      → s.pc i ≡ p
      → Act s.tracker s.held p m held p'
      → Turn s (record { tracker = m; held = held; pc = write s.pc i p' })

pub data Run (s : System) : System → Type 0 where
  done : Run s s
  more : {t u : System} → Run s t → Turn t u → Run s u
