-- ===== src/Remote/Steps/Forgotten.antt =====
-- The clean-up of a cluster keeps a tracker consistent, and closes no channel twice.
use cluster_api_bootstrap_pr.Prelude.{
  ℕ, ◌<◌, true, false, none, some, List, ok, ◌≡◌, ◌≢◌, refl, sym, ◌∙◌, ap, subst, ◌⊎◌, inl, inr,
  is_empty, Option-cases,
}
use cluster_api_bootstrap_pr.Secret.Store.{ObjectKey}
use cluster_api_bootstrap_pr.Remote.Keys.{
  same_key, same_key_refl, put, write, put-cases, write-cases,
}
use cluster_api_bootstrap_pr.Remote.Tracker.{
  Tracker, ClusterCache, WatchInfo, new_cache, stop_cache, delete_watches_for_cluster,
  delete_cluster_cache, forget, get_cluster_cache, clean_up,
}
use cluster_api_bootstrap_pr.Remote.Steps.{IsConsistent}
use cluster_api_bootstrap_pr.Remote.Steps.Created.{some_injective}

abbrev pub stopped_cache : ClusterCache
stopped_cache = record { stopped = true; closed = true }

abbrev pub forgotten : ObjectKey → ℕ → Tracker → Tracker
forgotten cluster c m = record {
  made = m.made;
  heap = write m.heap c stopped_cache;
  cluster_caches = put m.cluster_caches cluster none;
  watches = put m.watches cluster none;
}

module _ (cluster : ObjectKey) (m : Tracker) (i : IsConsistent m) where
  pub forgotten-IsConsistent :
      (c : ℕ) → m.cluster_caches cluster ≡ some c → IsConsistent (forgotten cluster c m)
  forgotten-IsConsistent c cached = record {
    live = live;
    owner = owner;
    kept = kept;
    closes = closes;
    watching = watching;
  }
    where
      -- a key that still has a cache is another one, and its cache another one
      other :
          (k : ObjectKey) (d : ℕ)
          → put m.cluster_caches cluster none k ≡ some d
          → (m.cluster_caches k ≡ some d) × (c ≢ d)
      other k d h = elim (put-cases m.cluster_caches cluster none k) [
        | inl (e, at) ↦ absurd (cc (sym at ∙ h))
        | inr (ne, at) ↦
            let there = sym at ∙ h in
            (
              there,
              λ e.
                  let same : cluster ≡ k = i.owner cluster k d (cached ∙ ap some e) there in
                  let yes : same_key cluster k ≡ true =
                    subst (λ x. same_key cluster x ≡ true) same (same_key_refl cluster) in
                  absurd (cc (sym yes ∙ ne)),
            )
      ]

      live :
          (k : ObjectKey) (d : ℕ)
          → put m.cluster_caches cluster none k ≡ some d
          → (d < m.made) × (write m.heap c stopped_cache d ≡ new_cache)
      live k d h =
          let (there, ne) = other k d h in
          let (below, fresh) = i.live k d there in
          elim (write-cases m.heap c stopped_cache d) [
            | inl (e, w) ↦ absurd (ne e)
            | inr (e, w) ↦ (below, w ∙ fresh)
          ]

      owner :
          (j k : ObjectKey) (d : ℕ)
          → put m.cluster_caches cluster none j ≡ some d
          → put m.cluster_caches cluster none k ≡ some d
          → j ≡ k
      owner j k d g h = i.owner j k d (other j d g).0 (other k d h).0

      kept :
          (d : ℕ)
          → d < m.made
          → (write m.heap c stopped_cache d).stopped ≡ false
          → (k : ObjectKey) × (put m.cluster_caches cluster none k ≡ some d)
      kept d below h = elim (write-cases m.heap c stopped_cache d) [
        | inl (e, w) ↦ absurd (cc (ap (λ (x : ClusterCache). x.stopped) (sym w) ∙ h))
        | inr (ne, w) ↦
            let (k, at) = i.kept d below (ap (λ (x : ClusterCache). x.stopped) (sym w) ∙ h) in
            elim (put-cases m.cluster_caches cluster none k) [
              | inl (e, bt) ↦
                  let there : m.cluster_caches cluster ≡ some d =
                    subst (λ x. m.cluster_caches x ≡ some d) (sym e) at in
                  absurd (ne (some_injective c d (sym cached ∙ there)))
              | inr (e, bt) ↦ (k, bt ∙ at)
            ]
      ]

      closes :
          (d : ℕ)
          → d < m.made
          → (write m.heap c stopped_cache d).closed ≡ (write m.heap c stopped_cache d).stopped
      closes d below = elim (write-cases m.heap c stopped_cache d) [
        | inl (e, w) ↦ rw w refl
        | inr (e, w) ↦ rw w (i.closes d below)
      ]

      watching :
          (k : ObjectKey) (ws : List WatchInfo)
          → put m.watches cluster none k ≡ some ws
          → (is_empty ws ≡ true) ⊎ ((d : ℕ) × (put m.cluster_caches cluster none k ≡ some d))
      watching k ws h = elim (put-cases m.watches cluster none k) [
        | inl (e, at) ↦ absurd (cc (sym at ∙ h))
        | inr (ne, at) ↦ elim (i.watching k ws (sym at ∙ h)) [
          | inl nil ↦ inl nil
          | inr (d, bt) ↦ inr (d, rw ne bt)
        ]
      ]

  forget_lem :
      (c : ℕ)
      → m.heap c ≡ new_cache
      → forget cluster m c (stop_cache (m.heap c)) ≡ ok (forgotten cluster c m)
  unfolding stop_cache delete_cluster_cache delete_watches_for_cluster
  forget_lem c fresh = rw fresh refl

  pub clean_up-forgotten :
      (c : ℕ) → m.cluster_caches cluster ≡ some c → clean_up cluster m ≡ ok (forgotten cluster c m)
  unfolding clean_up get_cluster_cache
  clean_up-forgotten c t = rw (t, clean_up, get_cluster_cache) (forget_lem c (i.live cluster c t).1)

  -- The clean-up of a cluster in a consistent tracker returns, and leaves a consistent tracker in which
  -- the cluster has no cache.
  pub clean_up-IsConsistent :
      (m' : Tracker) × (clean_up cluster m ≡ ok m')
      × IsConsistent m'
      × (m'.cluster_caches cluster ≡ none)
  unfolding clean_up get_cluster_cache
  clean_up-IsConsistent = elim (Option-cases (m.cluster_caches cluster)) [
    | inl t ↦ (m, rw (t, clean_up, get_cluster_cache) refl, i, t)
    | inr (c, t) ↦ (
      forgotten cluster c m,
      clean_up-forgotten c t,
      forgotten-IsConsistent c t,
      rw (same_key_refl cluster) refl,
    )
  ]
