-- ===== src/Remote/Threads/Fits.antt =====
-- The critical sections of the clean-up of a cluster, and those that change no cache.
use cluster_api_bootstrap_pr.Prelude.{
  ℕ, ◌<◌, ◌≤◌, Bool, true, false, Option, none, some, List, ok, err, Error, ◌≡◌, ◌≢◌, refl, sym,
  ◌∙◌, ap, subst, ◌⊎◌, inl, inr, arith, Bool-cases, ok_injective,
}
use cluster_api_bootstrap_pr.Secret.Store.{ObjectKey}
use cluster_api_bootstrap_pr.Remote.Keys.{
  same_key, same_key_refl, put, write, put-cases, write-cases,
}
use cluster_api_bootstrap_pr.Remote.Tracker.{
  Tracker, ClusterCache, WatchInfo, stop_cache, delete_cluster_cache,
}
use cluster_api_bootstrap_pr.Remote.Threads.{Pc, idle, looked, stopped, forgot, panicked}

-- A channel is closed exactly when its cache is stopped; the caches in the map were made, and each
-- stands under one key.
pub record IsTidy (m : Tracker) : Type 0 where
  pub closes : (c : ℕ) → (m.heap c).closed ≡ (m.heap c).stopped
  pub below : (k : ObjectKey) (c : ℕ) → m.cluster_caches k ≡ some c → c < m.made
  pub owner :
      (j k : ObjectKey) (c : ℕ) → m.cluster_caches j ≡ some c → m.cluster_caches k ≡ some c → j ≡ k

-- What a critical section of a goroutine must give for the state to stay sound.
pub record Fits (m : Tracker) (p : Pc) (m' : Tracker) (p' : Pc) : Type 0 where
  pub tidy : IsTidy m'
  pub calm : p' ≢ panicked
  pub grows : m.made ≤ m'.made
  pub kept :
      (j : ObjectKey) (c : ℕ)
      → m'.cluster_caches j ≡ some c
      → (m.cluster_caches j ≡ some c) ⊎ (m.made ≤ c)
  pub aimed :
      (k : ObjectKey) (c : ℕ)
      → p' ≡ looked k c
      → (c < m'.made) × ((j : ObjectKey) → m'.cluster_caches j ≡ some c → j ≡ k)
  pub forgetting :
      (k : ObjectKey) (c : ℕ)
      → m'.cluster_caches k ≡ some c
      → (m'.heap c).stopped ≡ true
      → (p' ≡ stopped k)
        ⊎ ((m.cluster_caches k ≡ some c) × ((m.heap c).stopped ≡ true) × (p ≢ stopped k))

looked_key : (j k : ObjectKey) (c d : ℕ) → looked j c ≡ looked k d → j ≡ k
looked_key j k c d h = cc

looked_cache : (j k : ObjectKey) (c d : ℕ) → looked j c ≡ looked k d → c ≡ d
looked_cache j k c d h = cc

stopped_key : (j k : ObjectKey) → Pc.stopped j ≡ stopped k → j ≡ k
stopped_key j k h = cc

-- Stop of a cache whose channel is closed exactly when it is stopped: it returns, also when the cache
-- was stopped before, and the cache is stopped.
pub stop_cache_lem :
    (cc : ClusterCache)
    → cc.closed ≡ cc.stopped
    → (cc' : ClusterCache) × (stop_cache cc ≡ ok cc') × (cc'.stopped ≡ true) × (cc'.closed ≡ true)
unfolding stop_cache
stop_cache_lem x h = elim (Bool-cases x.stopped) [
  | inl t ↦ (x, rw t refl, t, h ∙ t)
  | inr t ↦ (record { stopped = true; closed = true }, go x.stopped x.closed t (h ∙ t), refl, refl)
]
  where
    go :
        (s c : Bool)
        → s ≡ false
        → c ≡ false
        → stop_cache (record { stopped = s; closed = c })
          ≡ ok (record { stopped = true; closed = true })
    go s c p q = rw (p, q) refl

module _ (m : Tracker) (tidy : IsTidy m) where
  -- A critical section that changes the watches at most, of a goroutine that is not about to remove a
  -- cache from the map.
  pub quiet :
      (ws : ObjectKey → Option (List WatchInfo)) (p p' : Pc)
      → p' ≢ panicked
      → ((k : ObjectKey) → p ≢ stopped k)
      → ((k : ObjectKey) (c : ℕ)
          → p' ≡ looked k c
          → (c < m.made) × ((j : ObjectKey) → m.cluster_caches j ≡ some c → j ≡ k))
      → Fits m p (record m { watches = ws }) p'
  quiet ws p p' calm free aimed = record {
    tidy = record { closes = tidy.closes; below = tidy.below; owner = tidy.owner };
    calm = calm;
    grows = omega arith;
    kept = λ j c h. inl h;
    aimed = aimed;
    forgetting = λ k c h was. inr (h, was, free k);
  }

  pub look-Fits : (k : ObjectKey) (c : ℕ) → m.cluster_caches k ≡ some c → Fits m idle m (looked k c)
  look-Fits k c there =
      quiet m.watches idle (looked k c) (λ h. cc) (λ j h. cc)
        (λ j d h. (
          rw (sym (looked_cache k j c d h)) (tidy.below k c there),
          λ x at.
              let same = looked_cache k j c d h in
              tidy.owner x k c (at ∙ ap some (sym same)) there ∙ looked_key k j c d h,
        ))

  pub stop-Fits :
      (k : ObjectKey) (c : ℕ) (cc' : ClusterCache)
      → c < m.made
      → ((j : ObjectKey) → m.cluster_caches j ≡ some c → j ≡ k)
      → stop_cache (m.heap c) ≡ ok cc'
      → Fits m (looked k c) (record m { heap = write m.heap c cc' }) (stopped k)
  stop-Fits k c cc' low only h = record {
    tidy = record { closes = closes; below = tidy.below; owner = tidy.owner };
    calm = λ h. cc;
    grows = omega arith;
    kept = λ j d h. inl h;
    aimed = λ j d h. absurd (cc h);
    forgetting = forgetting;
  }
    where
      ends : (cc'.stopped ≡ true) × (cc'.closed ≡ true)
      ends =
          let (x, works, s, q) = stop_cache_lem (m.heap c) (tidy.closes c) in
          let same : x ≡ cc' = ok_injective x cc' (sym works ∙ h) in
          (
            ap (λ (y : ClusterCache). y.stopped) (sym same) ∙ s,
            ap (λ (y : ClusterCache). y.closed) (sym same) ∙ q,
          )

      closes : (d : ℕ) → (write m.heap c cc' d).closed ≡ (write m.heap c cc' d).stopped
      closes d = elim (write-cases m.heap c cc' d) [
        | inl (e, w) ↦ rw w (ends.1 ∙ sym ends.0)
        | inr (e, w) ↦ rw w (tidy.closes d)
      ]

      forgetting :
          (j : ObjectKey) (d : ℕ)
          → m.cluster_caches j ≡ some d
          → (write m.heap c cc' d).stopped ≡ true
          → (Pc.stopped k ≡ stopped j)
            ⊎ ((m.cluster_caches j ≡ some d)
                × ((m.heap d).stopped ≡ true)
                × (Pc.looked k c ≢ stopped j))
      forgetting j d there was = elim (write-cases m.heap c cc' d) [
        | inl (e, w) ↦ inl (ap Pc.stopped (sym (only j (there ∙ ap some (sym e)))))
        | inr (e, w) ↦ inr (there, ap (λ (y : ClusterCache). y.stopped) (sym w) ∙ was, λ h. cc)
      ]

  pub never_panics : (c : ℕ) (e : Error) → stop_cache (m.heap c) ≢ err e
  never_panics c e h =
      let (x, works, _, _) = stop_cache_lem (m.heap c) (tidy.closes c) in cc (sym works ∙ h)

  pub forget-Fits : (k : ObjectKey) → Fits m (stopped k) (delete_cluster_cache k m) (forgot k)
  unfolding delete_cluster_cache
  forget-Fits k = record {
    tidy = record {
      closes = tidy.closes;
      below = λ j c h. tidy.below j c (other j c h).0;
      owner = λ i j c g h. tidy.owner i j c (other i c g).0 (other j c h).0;
    };
    calm = λ h. cc;
    grows = omega arith;
    kept = λ j c h. inl (other j c h).0;
    aimed = λ j d h. absurd (cc h);
    forgetting = λ j c h was. inr ((other j c h).0, was, (other j c h).1);
  }
    where
      -- a key that still has a cache is another one
      other :
          (j : ObjectKey) (c : ℕ)
          → put m.cluster_caches k none j ≡ some c
          → (m.cluster_caches j ≡ some c) × (Pc.stopped k ≢ stopped j)
      other j c h = elim (put-cases m.cluster_caches k none j) [
        | inl (e, at) ↦ absurd (cc (sym at ∙ h))
        | inr (ne, at) ↦ (
          sym at ∙ h,
          λ same.
              let yes : same_key k j ≡ true =
                subst (λ x. same_key k x ≡ true) (stopped_key k j same) (same_key_refl k) in
              absurd (cc (sym yes ∙ ne)),
        )
      ]
