-- ===== src/Remote/Stale.antt =====
-- Watch after a cache was stopped, and the health check that ends because its cache was stopped.
use cluster_api_bootstrap_pr.Prelude.{
  ℕ, true, false, Option, none, some, ◌∷◌, Result, ok, err, Error, not_found, ◌≡◌, refl, ap, subst,
  inl, inr, Bool-cases, Option-cases, arith,
}
use cluster_api_bootstrap_pr.Secret.Store.{ObjectKey}
use cluster_api_bootstrap_pr.Remote.Keys.{write, put_same}
use cluster_api_bootstrap_pr.Remote.Tracker.{
  Tracker, WatchInfo, same_watch, Replies, ClusterCache, new_cache, watch, watch_locked,
  watch_exists, cache_ready, add_watch, get_or_create_cluster_cache, with_watches, watches_or_empty,
  get_cluster_cache, after_poll, reconcile_cluster, new_cluster_cache_tracker, add_cache,
  new_cluster_cache,
}
use cluster_api_bootstrap_pr.Remote.Steps.{Reach, IsConsistent}
use cluster_api_bootstrap_pr.Remote.Steps.Created.{watch-IsConsistent}
use cluster_api_bootstrap_pr.Remote.Steps.Forgotten.{
  stopped_cache, forgotten, clean_up-forgotten, forgotten-IsConsistent,
}
use cluster_api_bootstrap_pr.Remote.Steps.Kept.{Reach-IsConsistent}

same_watch_refl : (wi : WatchInfo) → same_watch wi wi ≡ true
same_watch_refl wi = ground arith

cache_ready-watches :
    (replies : Replies) (cluster : ObjectKey) (wi : WatchInfo) (r : Result ℕ × Tracker)
    → (cache_ready replies cluster wi r).0 ≡ none
    → watch_exists (cache_ready replies cluster wi r).1 cluster wi ≡ true
unfolding watch_exists
cache_ready-watches replies cluster wi (err e, m) = λ h. absurd (cc h)
cache_ready-watches replies cluster wi (ok c, m) = elim (Option-cases replies.watch) [
  | inr (e, t) ↦ rw t (λ h. absurd (cc h))
  | inl t ↦ rw t (λ h.
      rw (put_same m.watches cluster (some (wi ∷ watches_or_empty (m.watches cluster))))
        (rw (same_watch_refl wi) refl))
]

-- After a Watch that returned no error the watch is registered: the same Watch again, whatever it
-- would be answered, returns no error and changes nothing.
pub watch_idem :
    (replies again : Replies) (cluster : ObjectKey) (wi : WatchInfo) (m : Tracker)
    → (watch replies cluster wi m).0 ≡ none
    → watch again cluster wi (watch replies cluster wi m).1 ≡ (none, (watch replies cluster wi m).1)
unfolding watch watch_locked
watch_idem replies again cluster wi m h = rw (registered h, watch) refl
  where
    registered :
        (watch replies cluster wi m).0 ≡ none
        → watch_exists (watch replies cluster wi m).1 cluster wi ≡ true
    registered = elim (Bool-cases (watch_exists m cluster wi)) [
      | inl t ↦ rw (t, watch) (λ h. t)
      | inr t ↦
          rw (t, watch, watch_locked)
            (cache_ready-watches replies cluster wi
              (get_or_create_cluster_cache replies cluster (with_watches cluster m)))
    ]

abbrev pub all_right : Replies
all_right = record { rest_config = none; new_cache = none; watch = none }

pub write_same : {A : Type 0} → (heap : ℕ → A) (p : ℕ) (a : A) → write heap p a p ≡ a
write_same heap p a = ground arith

module _ (cluster : ObjectKey) (m : Tracker) where
  pub new_cluster_cache_lem :
      m.cluster_caches cluster ≡ none
      → new_cluster_cache all_right cluster m ≡ (ok m.made, add_cache cluster m)
  unfolding new_cluster_cache
  new_cluster_cache_lem t = rw (t, new_cluster_cache) refl

  get_or_create_lem :
      m.cluster_caches cluster ≡ none
      → get_or_create_cluster_cache all_right cluster m ≡ (ok m.made, add_cache cluster m)
  unfolding get_or_create_cluster_cache get_cluster_cache
  get_or_create_lem t =
      rw (t, get_or_create_cluster_cache, get_cluster_cache) (new_cluster_cache_lem t)

module _ (cluster : ObjectKey) (wi : WatchInfo) (m : Tracker) where
  abbrev watched_anew : Tracker
  watched_anew = add_watch cluster wi (add_cache cluster (with_watches cluster m))

  watch_exists-none : m.watches cluster ≡ none → watch_exists m cluster wi ≡ false
  unfolding watch_exists
  watch_exists-none u = rw u refl

  watch_new :
      m.cluster_caches cluster ≡ none
      → m.watches cluster ≡ none
      → watch all_right cluster wi m ≡ (none, watched_anew)
  unfolding watch watch_locked
  watch_new t u =
      rw (watch_exists-none u, watch, watch_locked)
        (rw (get_or_create_lem cluster (with_watches cluster m) t) refl)

-- When a cached cluster is deleted and a cluster of the same name is watched for the first time since,
-- the new cluster has a new cache that works. The health check of the old cache may end only then: it
-- returns an error because its stop channel is closed. In every tracker that is reached this way that
-- error stops the cache of the new cluster, and the cluster has neither a cache nor watches after it.
pub stale_check-stops :
    (m : Tracker) (cluster : ObjectKey) (wi : WatchInfo) (c : ℕ) (e : Error)
    → Reach new_cluster_cache_tracker m
    → get_cluster_cache m cluster ≡ some c
    → (m₁ m₂ m₃ : Tracker) × (reconcile_cluster cluster (some not_found) m ≡ ok (none, m₁))
      × ((m₁.heap c).closed ≡ true)
      × (watch all_right cluster wi m₁ ≡ (none, m₂))
      × (get_cluster_cache m₂ cluster ≡ some m.made)
      × (m₂.heap m.made ≡ new_cache)
      × (after_poll cluster (some e) m₂ ≡ ok m₃)
      × ((m₃.heap m.made).stopped ≡ true)
      × (get_cluster_cache m₃ cluster ≡ none)
      × (watch_exists m₃ cluster wi ≡ false)
unfolding get_cluster_cache after_poll reconcile_cluster watch_exists
stale_check-stops m cluster wi c e r cached = (
  m₁,
  m₂,
  forgotten cluster m.made m₂,
  rw (clean_up-forgotten cluster m i c cached) refl,
  ap (λ (x : ClusterCache). x.closed) (write_same m.heap c stopped_cache),
  watch_new cluster wi m₁ absent (put_same m.watches cluster none),
  has,
  write_same m₁.heap m.made new_cache,
  clean_up-forgotten cluster m₂ j m.made has,
  ap (λ (x : ClusterCache). x.stopped) (write_same m₂.heap m.made stopped_cache),
  put_same m₂.cluster_caches cluster none,
  rw (put_same m₂.watches cluster none) refl,
)
  where
    i : IsConsistent m
    i = Reach-IsConsistent m r

    m₁ : Tracker
    m₁ = forgotten cluster c m

    m₂ : Tracker
    m₂ = watched_anew cluster wi m₁

    absent : m₁.cluster_caches cluster ≡ none
    absent = put_same m.cluster_caches cluster none

    has : m₂.cluster_caches cluster ≡ some m.made
    has = put_same m₁.cluster_caches cluster (some m.made)

    j : IsConsistent m₂
    j =
        subst (λ (x : Option Error × Tracker). IsConsistent x.1)
          (watch_new cluster wi m₁ absent (put_same m.watches cluster none))
          (watch-IsConsistent all_right cluster wi m₁ (forgotten-IsConsistent cluster m i c cached))
