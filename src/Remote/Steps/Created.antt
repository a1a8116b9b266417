-- ===== src/Remote/Steps/Created.antt =====
-- Watch keeps a tracker consistent.
use cluster_api_bootstrap_pr.Prelude.{
  ℕ, suc, ◌<◌, true, false, Option, none, some, List, ◌∷◌, Result, ok, err, Error, ◌≡◌, refl, sym,
  ◌∙◌, ap, subst, ◌⊎◌, inl, inr, is_empty, arith, Bool-cases, Option-cases, ok_injective,
}
use cluster_api_bootstrap_pr.Secret.Store.{ObjectKey}
use cluster_api_bootstrap_pr.Remote.Keys.{put, write, put-cases, put_same, write-cases}
use cluster_api_bootstrap_pr.Remote.Tracker.{
  Tracker, ClusterCache, WatchInfo, Replies, new_cache, add_cache, made_cache, new_cluster_cache,
  get_cluster_cache, get_or_create_cluster_cache, with_watches, watches_or_empty, cache_ready,
  watch_locked, watch, watch_exists,
}
use cluster_api_bootstrap_pr.Remote.Steps.{IsConsistent}

pub some_injective : (a b : ℕ) → Option.some a ≡ some b → a ≡ b
some_injective a b h = cc

same_watches : (ws vs : List WatchInfo) → Option.some ws ≡ some vs → ws ≡ vs
same_watches ws vs h = cc

module _ (cluster : ObjectKey) (m : Tracker) (i : IsConsistent m) where
  -- a new cache for a cluster that has none
  pub add_cache-IsConsistent : m.cluster_caches cluster ≡ none → IsConsistent (add_cache cluster m)
  add_cache-IsConsistent absent = record {
    live = live;
    owner = owner;
    kept = kept;
    closes = closes;
    watching = watching;
  }
    where
      live :
          (k : ObjectKey) (c : ℕ)
          → put m.cluster_caches cluster (some m.made) k ≡ some c
          → (c < suc m.made) × (write m.heap m.made new_cache c ≡ new_cache)
      live k c h = elim (put-cases m.cluster_caches cluster (some m.made) k) [
        | inl (e, at) ↦ elim (write-cases m.heap m.made new_cache c) [
          | inl (p, w) ↦ ((omega arith), w)
          | inr (ne, w) ↦ absurd (ne (some_injective m.made c (sym at ∙ h)))
        ]
        | inr (ne, at) ↦
            let (below, fresh) = i.live k c (sym at ∙ h) in
            elim (write-cases m.heap m.made new_cache c) [
              | inl (p, w) ↦ ((omega arith), w)
              | inr (p, w) ↦ ((omega arith), w ∙ fresh)
            ]
      ]

      owner :
          (j k : ObjectKey) (c : ℕ)
          → put m.cluster_caches cluster (some m.made) j ≡ some c
          → put m.cluster_caches cluster (some m.made) k ≡ some c
          → j ≡ k
      owner j k c g h = elim (put-cases m.cluster_caches cluster (some m.made) j) [
        | inl (e, at) ↦ elim (put-cases m.cluster_caches cluster (some m.made) k) [
          | inl (f, bt) ↦ sym e ∙ f
          | inr (f, bt) ↦
              let p = some_injective m.made c (sym at ∙ g) in
              let (below, _) = i.live k c (sym bt ∙ h) in absurd (omega arith)
        ]
        | inr (e, at) ↦ elim (put-cases m.cluster_caches cluster (some m.made) k) [
          | inl (f, bt) ↦
              let p = some_injective m.made c (sym bt ∙ h) in
              let (below, _) = i.live j c (sym at ∙ g) in absurd (omega arith)
          | inr (f, bt) ↦ i.owner j k c (sym at ∙ g) (sym bt ∙ h)
        ]
      ]

      kept :
          (c : ℕ)
          → c < suc m.made
          → (write m.heap m.made new_cache c).stopped ≡ false
          → (k : ObjectKey) × (put m.cluster_caches cluster (some m.made) k ≡ some c)
      kept c below h = elim (write-cases m.heap m.made new_cache c) [
        | inl (p, w) ↦ (cluster, put_same m.cluster_caches cluster (some m.made) ∙ ap some p)
        | inr (ne, w) ↦
            let (k, at) =
              i.kept c (omega arith) (ap (λ (x : ClusterCache). x.stopped) (sym w) ∙ h) in
            elim (put-cases m.cluster_caches cluster (some m.made) k) [
              | inl (e, bt) ↦
                  let gone : m.cluster_caches k ≡ none =
                    subst (λ x. m.cluster_caches x ≡ none) e absent in
                  absurd (cc (sym at ∙ gone))
              | inr (e, bt) ↦ (k, bt ∙ at)
            ]
      ]

      closes :
          (c : ℕ)
          → c < suc m.made
          → (write m.heap m.made new_cache c).closed ≡ (write m.heap m.made new_cache c).stopped
      closes c below = elim (write-cases m.heap m.made new_cache c) [
        | inl (p, w) ↦ rw w refl
        | inr (ne, w) ↦ rw w (i.closes c (omega arith))
      ]

      watching :
          (k : ObjectKey) (ws : List WatchInfo)
          → m.watches k ≡ some ws
          → (is_empty ws ≡ true)
            ⊎ ((c : ℕ) × (put m.cluster_caches cluster (some m.made) k ≡ some c))
      watching k ws h = elim (put-cases m.cluster_caches cluster (some m.made) k) [
        | inl (e, at) ↦ inr (m.made, at)
        | inr (e, at) ↦ elim (i.watching k ws h) [
          | inl nil ↦ inl nil
          | inr (c, bt) ↦ inr (c, at ∙ bt)
        ]
      ]

  -- A set of watches of a cluster, empty or with a cache for the cluster.
  pub put_watches-IsConsistent :
      (ws : List WatchInfo)
      → (is_empty ws ≡ true) ⊎ ((c : ℕ) × (m.cluster_caches cluster ≡ some c))
      → IsConsistent (record m { watches = put m.watches cluster (some ws) })
  put_watches-IsConsistent ws fits = record {
    live = i.live;
    owner = i.owner;
    kept = i.kept;
    closes = i.closes;
    watching = watching;
  }
    where
      watching :
          (k : ObjectKey) (vs : List WatchInfo)
          → put m.watches cluster (some ws) k ≡ some vs
          → (is_empty vs ≡ true) ⊎ ((c : ℕ) × (m.cluster_caches k ≡ some c))
      watching k vs h = elim (put-cases m.watches cluster (some ws) k) [
        | inr (e, at) ↦ i.watching k vs (sym at ∙ h)
        | inl (e, at) ↦
            let same : ws ≡ vs = same_watches ws vs (sym at ∙ h) in
            elim fits [
              | inl nil ↦ inl (ap is_empty (sym same) ∙ nil)
              | inr (c, cached) ↦ inr (c, subst (λ x. m.cluster_caches x ≡ some c) e cached)
            ]
      ]

  -- The watches that there are, or the empty set.
  pub with_watches-IsConsistent : IsConsistent (with_watches cluster m)
  with_watches-IsConsistent = put_watches-IsConsistent (watches_or_empty (m.watches cluster)) fits
    where
      fits :
          (is_empty (watches_or_empty (m.watches cluster)) ≡ true)
          ⊎ ((c : ℕ) × (m.cluster_caches cluster ≡ some c))
      fits = elim (Option-cases (m.watches cluster)) [
        | inl t ↦ inl (rw t refl)
        | inr (ws, t) ↦ elim (i.watching cluster ws t) [
          | inl nil ↦ inl (rw t nil)
          | inr cached ↦ inr cached
        ]
      ]

module _ (replies : Replies) (cluster : ObjectKey) (m : Tracker) (i : IsConsistent m) where
  made_cache-IsConsistent :
      (e e' : Option Error)
      → m.cluster_caches cluster ≡ none
      → IsConsistent (made_cache replies cluster m e e').1
        × ((c : ℕ)
            → (made_cache replies cluster m e e').0 ≡ ok c
            → (made_cache replies cluster m e e').1.cluster_caches cluster ≡ some c)
  made_cache-IsConsistent (some e) e' absent = (i, λ c h. cc)
  made_cache-IsConsistent none (some e') absent = (i, λ c h. cc)
  made_cache-IsConsistent none none absent = (
    add_cache-IsConsistent cluster m i absent,
    λ c h. put_same m.cluster_caches cluster (some m.made) ∙ ap some (ok_injective m.made c h),
  )

  new_cluster_cache-IsConsistent :
      m.cluster_caches cluster ≡ none
      → IsConsistent (new_cluster_cache replies cluster m).1
        × ((c : ℕ)
            → (new_cluster_cache replies cluster m).0 ≡ ok c
            → (new_cluster_cache replies cluster m).1.cluster_caches cluster ≡ some c)
  unfolding new_cluster_cache
  new_cluster_cache-IsConsistent t =
      rw (t, new_cluster_cache) (made_cache-IsConsistent replies.rest_config replies.new_cache t)

  -- getOrCreateClusterCache keeps a tracker consistent, and the cache that it returns is in the map.
  pub get_or_create-IsConsistent :
      IsConsistent (get_or_create_cluster_cache replies cluster m).1
      × ((c : ℕ)
          → (get_or_create_cluster_cache replies cluster m).0 ≡ ok c
          → (get_or_create_cluster_cache replies cluster m).1.cluster_caches cluster ≡ some c)
  unfolding get_or_create_cluster_cache get_cluster_cache
  get_or_create-IsConsistent = elim (Option-cases (m.cluster_caches cluster)) [
    | inl t ↦
        rw (t, get_or_create_cluster_cache, get_cluster_cache) (new_cluster_cache-IsConsistent t)
    | inr (c, t) ↦
        rw (t, get_or_create_cluster_cache, get_cluster_cache)
          (i, λ c' h. t ∙ ap some (ok_injective c c' h))
  ]

cache_ready-IsConsistent :
    (replies : Replies) (cluster : ObjectKey) (wi : WatchInfo) (r : Result ℕ × Tracker)
    → IsConsistent r.1
    → ((c : ℕ) → r.0 ≡ ok c → r.1.cluster_caches cluster ≡ some c)
    → IsConsistent (cache_ready replies cluster wi r).1
cache_ready-IsConsistent replies cluster wi (err e, m) i cached = i
cache_ready-IsConsistent replies cluster wi (ok c, m) i cached = elim (Option-cases replies.watch) [
  | inr (e, t) ↦ rw t i
  | inl t ↦ rw t (
      put_watches-IsConsistent cluster m i (wi ∷ watches_or_empty (m.watches cluster))
        (inr (c, cached c refl)))
]

-- Watch keeps a tracker consistent, whatever it is answered.
pub watch-IsConsistent :
    (replies : Replies) (cluster : ObjectKey) (wi : WatchInfo) (m : Tracker)
    → IsConsistent m
    → IsConsistent (watch replies cluster wi m).1
unfolding watch watch_locked
watch-IsConsistent replies cluster wi m i = elim (Bool-cases (watch_exists m cluster wi)) [
  | inl t ↦ rw (t, watch) i
  | inr t ↦
      let i' = with_watches-IsConsistent cluster m i in
      let (j, cached) = get_or_create-IsConsistent replies cluster (with_watches cluster m) i' in
      rw (t, watch, watch_locked) (cache_ready-IsConsistent replies cluster wi _ j cached)
]
