-- ===== src/Remote/Threads/Made.antt =====
-- newClusterCache among goroutines.
use cluster_api_bootstrap_pr.Prelude.{
  ℕ, suc, ◌<◌, true, some, ◌≡◌, ◌≢◌, refl, sym, ◌∙◌, ap, ◌⊎◌, inl, inr, arith, Option-cases,
}
use cluster_api_bootstrap_pr.Secret.Store.{ObjectKey}
use cluster_api_bootstrap_pr.Remote.Keys.{put, write, put-cases, write-cases}
use cluster_api_bootstrap_pr.Remote.Tracker.{
  Tracker, ClusterCache, Replies, new_cache, add_cache, new_cluster_cache,
}
use cluster_api_bootstrap_pr.Remote.Steps.Created.{some_injective}
use cluster_api_bootstrap_pr.Remote.Threads.{Pc, looked, stopped, panicked}
use cluster_api_bootstrap_pr.Remote.Threads.Fits.{IsTidy, Fits, quiet}

module _ (m : Tracker) (tidy : IsTidy m) where
  add-Fits :
      (k : ObjectKey) (p p' : Pc)
      → p' ≢ panicked
      → ((j : ObjectKey) (c : ℕ) → p' ≢ looked j c)
      → ((j : ObjectKey) → p ≢ stopped j)
      → Fits m p (add_cache k m) p'
  add-Fits k p p' calm aimless free = record {
    tidy = record { closes = closes; below = below; owner = owner };
    calm = calm;
    grows = omega arith;
    kept = λ j c h. elim (old j c h) [ inl (e, new) ↦ inr (omega arith) | inr before ↦ inl before ];
    aimed = λ j c h. absurd (aimless j c h);
    forgetting = forgetting;
  }
    where
      old :
          (j : ObjectKey) (c : ℕ)
          → put m.cluster_caches k (some m.made) j ≡ some c
          → ((k ≡ j) × (m.made ≡ c)) ⊎ (m.cluster_caches j ≡ some c)
      old j c h = elim (put-cases m.cluster_caches k (some m.made) j) [
        | inl (e, at) ↦ inl (e, some_injective m.made c (sym at ∙ h))
        | inr (e, at) ↦ inr (sym at ∙ h)
      ]

      closes :
          (c : ℕ)
          → (write m.heap m.made new_cache c).closed ≡ (write m.heap m.made new_cache c).stopped
      closes c = elim (write-cases m.heap m.made new_cache c) [
        | inl (e, w) ↦ rw w refl
        | inr (e, w) ↦ rw w (tidy.closes c)
      ]

      below :
          (j : ObjectKey) (c : ℕ) → put m.cluster_caches k (some m.made) j ≡ some c → c < suc m.made
      below j c h = elim (old j c h) [
        | inl (e, new) ↦ omega arith
        | inr before ↦ omega (arith, tidy.below j c before)
      ]

      owner :
          (i j : ObjectKey) (c : ℕ)
          → put m.cluster_caches k (some m.made) i ≡ some c
          → put m.cluster_caches k (some m.made) j ≡ some c
          → i ≡ j
      owner i j c g h = elim (old i c g) [
        | inl (e, new) ↦ elim (old j c h) [
          | inl (e', _) ↦ sym e ∙ e'
          | inr before ↦ absurd (omega (arith, new, tidy.below j c before))
        ]
        | inr was ↦ elim (old j c h) [
          | inl (e', new) ↦ absurd (omega (arith, new, tidy.below i c was))
          | inr before ↦ tidy.owner i j c was before
        ]
      ]

      forgetting :
          (j : ObjectKey) (c : ℕ)
          → put m.cluster_caches k (some m.made) j ≡ some c
          → (write m.heap m.made new_cache c).stopped ≡ true
          → (p' ≡ stopped j)
            ⊎ ((m.cluster_caches j ≡ some c) × ((m.heap c).stopped ≡ true) × (p ≢ stopped j))
      forgetting j c h was = elim (write-cases m.heap m.made new_cache c) [
        | inl (e, w) ↦ absurd (cc (ap (λ (y : ClusterCache). y.stopped) (sym w) ∙ was))
        | inr (ne, w) ↦ elim (old j c h) [
          | inl (e, new) ↦ absurd (ne new)
          | inr before ↦ inr (before, ap (λ (y : ClusterCache). y.stopped) (sym w) ∙ was, free j)
        ]
      ]

  -- newClusterCache, whether it makes a cache or not
  pub made-Fits :
      (replies : Replies) (k : ObjectKey) (p p' : Pc)
      → p' ≢ panicked
      → ((j : ObjectKey) (c : ℕ) → p' ≢ looked j c)
      → ((j : ObjectKey) → p ≢ stopped j)
      → Fits m p (new_cluster_cache replies k m).1 p'
  unfolding new_cluster_cache
  made-Fits replies k p p' calm aimless free = elim (Option-cases (m.cluster_caches k)) [
    | inr (c, t) ↦ rw (t, new_cluster_cache) same
    | inl t ↦ elim (Option-cases replies.rest_config) [
      | inr (e, r) ↦ rw (t, r, new_cluster_cache) same
      | inl r ↦ elim (Option-cases replies.new_cache) [
        | inr (e, n) ↦ rw (t, r, n, new_cluster_cache) same
        | inl n ↦ rw (t, r, n, new_cluster_cache) (add-Fits k p p' calm aimless free)
      ]
    ]
  ]
    where
      same : Fits m p m p'
      same = quiet m tidy m.watches p p' calm free (λ j c h. absurd (aimless j c h))
