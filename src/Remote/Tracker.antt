-- ===== src/Remote/Tracker.antt =====
-- internal/remote/cluster_cache.go: the tracker of cluster caches and its operations, each run under
-- its locks. What RESTConfig, cache.New, Watcher.Watch and the API server return are arguments.
use cluster_api_bootstrap_pr.Prelude.{
  ℕ, suc, Bool, true, false, Option, none, some, List, [], ◌∷◌, Result, ok, err, Error, panic, wrap,
  is_not_found, if◌then◌else◌, ◌&&◌, ◌==◌, ◌>>=◌,
}
use cluster_api_bootstrap_pr.Secret.Store.{ObjectKey}
use cluster_api_bootstrap_pr.Remote.Keys.{put, write}

-- clusterCache: `stopped`, and whether its channel `stop` is closed
pub record ClusterCache : Type 0 where
  pub stopped : Bool
  pub closed : Bool

-- Stop: to close a closed channel is a panic
unfoldable pub stop_cache : ClusterCache → Result ClusterCache
stop_cache cc =
    if cc.stopped
    then ok cc
    else if cc.closed
    then err panic
    else ok (record { stopped = true; closed = true })

-- watchInfo: interface values are compared by the pointers in them
pub record WatchInfo : Type 0 where
  pub watcher : ℕ
  pub kind : ℕ
  pub event_handler : ℕ

abbrev pub same_watch : WatchInfo → WatchInfo → Bool
same_watch a b =
    (a.watcher == b.watcher) && (a.kind == b.kind) && (a.event_handler == b.event_handler)

-- ClusterCacheTracker: its maps, and the caches made so far, at the pointers below `made`
pub record Tracker : Type 0 where
  pub made : ℕ
  pub heap : ℕ → ClusterCache
  pub cluster_caches : ObjectKey → Option ℕ
  pub watches : ObjectKey → Option (List WatchInfo)

abbrev pub new_cache : ClusterCache
new_cache = record { stopped = false; closed = false }

-- NewClusterCacheTracker
unfoldable pub new_cluster_cache_tracker : Tracker
new_cluster_cache_tracker = record {
  made = 0;
  heap = λ p. new_cache;
  cluster_caches = λ k. none;
  watches = λ k. none;
}

abbrev pub has_watch : List WatchInfo → WatchInfo → Bool
has_watch [] wi = false
has_watch (w ∷ ws) wi = if same_watch w wi then true else has_watch ws wi

abbrev pub found_watch : Option (List WatchInfo) → WatchInfo → Bool
found_watch none wi = false
found_watch (some ws) wi = has_watch ws wi

-- watchExists
unfoldable pub watch_exists : Tracker → ObjectKey → WatchInfo → Bool
watch_exists m cluster wi = found_watch (m.watches cluster) wi

-- deleteWatchesForCluster
unfoldable pub delete_watches_for_cluster : ObjectKey → Tracker → Tracker
delete_watches_for_cluster cluster m = record m { watches = put m.watches cluster none }

-- getClusterCache
unfoldable pub get_cluster_cache : Tracker → ObjectKey → Option ℕ
get_cluster_cache m cluster = m.cluster_caches cluster

-- deleteClusterCache
unfoldable pub delete_cluster_cache : ObjectKey → Tracker → Tracker
delete_cluster_cache cluster m = record m { cluster_caches = put m.cluster_caches cluster none }

-- What RESTConfig, cache.New and Watcher.Watch answer.
pub record Replies : Type 0 where
  pub rest_config : Option Error
  pub new_cache : Option Error
  pub watch : Option Error

abbrev pub add_cache : ObjectKey → Tracker → Tracker
add_cache cluster m = record {
  made = suc m.made;
  heap = write m.heap m.made new_cache;
  cluster_caches = put m.cluster_caches cluster (some m.made);
  watches = m.watches;
}

abbrev pub made_cache :
    Replies → ObjectKey → Tracker → Option Error → Option Error → Result ℕ × Tracker
made_cache replies cluster m (some e) e' =
    (err (wrap "error fetching REST client config for remote cluster" e), m)
made_cache replies cluster m none (some e) =
    (err (wrap "error creating cache for remote cluster" e), m)
made_cache replies cluster m none none = (ok m.made, add_cache cluster m)

abbrev pub unless_made : Replies → ObjectKey → Tracker → Option ℕ → Result ℕ × Tracker
unless_made replies cluster m (some c) = (ok c, m)
unless_made replies cluster m none =
    made_cache replies cluster m replies.rest_config replies.new_cache

-- newClusterCache; the goroutines that it starts are the steps of the cache's health check
unfoldable pub new_cluster_cache : Replies → ObjectKey → Tracker → Result ℕ × Tracker
new_cluster_cache replies cluster m = unless_made replies cluster m (m.cluster_caches cluster)

abbrev pub or_create : Replies → ObjectKey → Tracker → Option ℕ → Result ℕ × Tracker
or_create replies cluster m (some c) = (ok c, m)
or_create replies cluster m none = new_cluster_cache replies cluster m

-- getOrCreateClusterCache
unfoldable pub get_or_create_cluster_cache : Replies → ObjectKey → Tracker → Result ℕ × Tracker
get_or_create_cluster_cache replies cluster m =
    or_create replies cluster m (get_cluster_cache m cluster)

-- `watchesForCluster`, an empty map when there was none
abbrev pub watches_or_empty : Option (List WatchInfo) → List WatchInfo
watches_or_empty none = []
watches_or_empty (some ws) = ws

abbrev pub with_watches : ObjectKey → Tracker → Tracker
with_watches cluster m = record m {
  watches = put m.watches cluster (some (watches_or_empty (m.watches cluster)));
}

-- `watchesForCluster[wi] = struct{}{}`
abbrev pub add_watch : ObjectKey → WatchInfo → Tracker → Tracker
add_watch cluster wi m = record m {
  watches = put m.watches cluster (some (wi ∷ watches_or_empty (m.watches cluster)));
}

abbrev pub watch_made : ObjectKey → WatchInfo → Tracker → Option Error → Option Error × Tracker
watch_made cluster wi m (some e) = (some (wrap "error creating watch" e), m)
watch_made cluster wi m none = (none, add_watch cluster wi m)

abbrev pub cache_ready :
    Replies → ObjectKey → WatchInfo → Result ℕ × Tracker → Option Error × Tracker
cache_ready replies cluster wi (err e, m) = (some e, m)
cache_ready replies cluster wi (ok c, m) = watch_made cluster wi m replies.watch

-- Watch after its first test, under the write lock
unfoldable pub watch_locked : Replies → ObjectKey → WatchInfo → Tracker → Option Error × Tracker
watch_locked replies cluster wi m =
    if watch_exists m cluster wi
    then (none, m)
    else cache_ready replies cluster wi
        (get_or_create_cluster_cache replies cluster (with_watches cluster m))

-- Watch, when no other goroutine runs between its two tests
unfoldable pub watch : Replies → ObjectKey → WatchInfo → Tracker → Option Error × Tracker
watch replies cluster wi m =
    if watch_exists m cluster wi then (none, m) else watch_locked replies cluster wi m

-- the end of healthCheckCluster and of Reconcile: stop the cache and forget it
abbrev pub forget : ObjectKey → Tracker → ℕ → Result ClusterCache → Result Tracker
forget cluster m c (err e) = err e
forget cluster m c (ok cc) = ok (
    delete_watches_for_cluster cluster
      (delete_cluster_cache cluster (record m { heap = write m.heap c cc })))

abbrev pub forget_cached : ObjectKey → Tracker → Option ℕ → Result Tracker
forget_cached cluster m none = ok m
forget_cached cluster m (some c) = forget cluster m c (stop_cache (m.heap c))

unfoldable pub clean_up : ObjectKey → Tracker → Result Tracker
clean_up cluster m = forget_cached cluster m (get_cluster_cache m cluster)

-- healthCheckCluster after wait.PollImmediateUntil has returned
unfoldable pub after_poll : ObjectKey → Option Error → Tracker → Result Tracker
after_poll cluster none m = ok m
after_poll cluster (some e) m = clean_up cluster m

abbrev pub gone : Bool → Error → ObjectKey → Tracker → Result (Option Error × Tracker)
gone false e cluster m = ok (some e, m)
gone true e cluster m = do m' ← clean_up cluster m; ok (none, m')

-- Reconcile of ClusterCacheReconciler, with the error of the read of the Cluster
unfoldable pub reconcile_cluster :
    ObjectKey → Option Error → Tracker → Result (Option Error × Tracker)
reconcile_cluster cluster none m = ok (none, m)
reconcile_cluster cluster (some e) m = gone (is_not_found e) e cluster m
