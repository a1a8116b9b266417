-- ===== src/Remote/Threads/Kept.antt =====
-- What every interleaving of the goroutines keeps.
use cluster_api_bootstrap_pr.Prelude.{
  ℕ, ◌<◌, Bool, true, some, ◌≡◌, ◌≢◌, refl, sym, ◌∙◌, ap, inl, inr, arith,
}
use cluster_api_bootstrap_pr.Secret.Store.{ObjectKey}
use cluster_api_bootstrap_pr.Remote.Keys.{write, write-cases}
use cluster_api_bootstrap_pr.Remote.Tracker.{
  Tracker, get_cluster_cache, delete_watches_for_cluster, new_cluster_cache_tracker,
}
use cluster_api_bootstrap_pr.Remote.Threads.{
  Pc, looked, stopped, panicked, Act, look, absent, stops, panic, forgets, unwatch, exists, check,
  exists_now, hold, hit, miss, create, refuse, register, unregistered, System, start, Turn, turn,
  Run, done, more,
}
use cluster_api_bootstrap_pr.Remote.Threads.Fits.{
  IsTidy, Fits, quiet, look-Fits, stop-Fits, never_panics, forget-Fits,
}
use cluster_api_bootstrap_pr.Remote.Threads.Made.{made-Fits}

-- The tracker is tidy, no goroutine has panicked, a cache that a goroutine is about to stop was made
-- and is cached for the cluster of the clean-up if at all, and when the cache of a cluster is stopped
-- a goroutine is about to remove it from the map.
pub record IsSound (s : System) : Type 0 where
  pub tidy : IsTidy s.tracker
  pub calm : (i : ℕ) → s.pc i ≢ panicked
  pub aimed :
      (i : ℕ) (k : ObjectKey) (c : ℕ)
      → s.pc i ≡ looked k c
      → (c < s.tracker.made) × ((j : ObjectKey) → s.tracker.cluster_caches j ≡ some c → j ≡ k)
  pub forgetting :
      (k : ObjectKey) (c : ℕ)
      → s.tracker.cluster_caches k ≡ some c
      → (s.tracker.heap c).stopped ≡ true
      → (i : ℕ) × (s.pc i ≡ stopped k)

Fits→IsSound :
    (s : System) (i : ℕ) (p p' : Pc) (m : Tracker) (held : Bool)
    → s.pc i ≡ p
    → IsSound s
    → Fits s.tracker p m p'
    → IsSound (record { tracker = m; held = held; pc = write s.pc i p' })
Fits→IsSound s i p p' m held at sound f = record {
  tidy = f.tidy;
  calm = calm;
  aimed = aimed;
  forgetting = forgetting;
}
  where
    calm : (j : ℕ) → write s.pc i p' j ≢ panicked
    calm j h = elim (write-cases s.pc i p' j) [
      | inl (e, w) ↦ f.calm (sym w ∙ h)
      | inr (e, w) ↦ sound.calm j (sym w ∙ h)
    ]

    aimed :
        (j : ℕ) (k : ObjectKey) (c : ℕ)
        → write s.pc i p' j ≡ looked k c
        → (c < m.made) × ((x : ObjectKey) → m.cluster_caches x ≡ some c → x ≡ k)
    aimed j k c h = elim (write-cases s.pc i p' j) [
      | inl (e, w) ↦ f.aimed k c (sym w ∙ h)
      | inr (e, w) ↦
          let (low, only) = sound.aimed j k c (sym w ∙ h) in
          let grows = f.grows in
          (
            (omega arith),
            λ x there. elim (f.kept x c there) [
              | inl before ↦ only x before
              | inr new ↦ absurd (omega arith)
            ],
          )
    ]

    forgetting :
        (k : ObjectKey) (c : ℕ)
        → m.cluster_caches k ≡ some c
        → (m.heap c).stopped ≡ true
        → (j : ℕ) × (write s.pc i p' j ≡ stopped k)
    forgetting k c there h = elim (f.forgetting k c there h) [
      | inl now ↦ elim (write-cases s.pc i p' i) [
        | inl (e, w) ↦ (i, w ∙ now)
        | inr (ne, w) ↦ absurd (ne refl)
      ]
      | inr (before, was, other) ↦
          let (j, waits) = sound.forgetting k c before was in
          elim (write-cases s.pc i p' j) [
            | inl (e, w) ↦ absurd (other (sym at ∙ ap s.pc e ∙ waits))
            | inr (e, w) ↦ (j, w ∙ waits)
          ]
    ]

Act-Fits :
    {m m' : Tracker} {held held' : Bool} {p p' : Pc}
    → IsTidy m
    → p ≢ panicked
    → ((k : ObjectKey) (c : ℕ)
        → p ≡ looked k c
        → (c < m.made) × ((j : ObjectKey) → m.cluster_caches j ≡ some c → j ≡ k))
    → Act m held p m' held' p'
    → Fits m p m' p'
unfolding get_cluster_cache delete_watches_for_cluster
Act-Fits t calm aim (look h) = look-Fits _ t _ _ h
Act-Fits t calm aim (absent k h) = quiet _ t _ _ _ (λ h. cc) (λ k h. cc) (λ k c h. absurd (cc h))
Act-Fits t calm aim (stops {cluster} {c} {after} h) =
    let (low, only) = aim cluster c refl in stop-Fits _ t cluster c after low only h
Act-Fits t calm aim (panic {cluster} {c} {e} h) = absurd (never_panics _ t c e h)
Act-Fits t calm aim forgets = forget-Fits _ t _
Act-Fits t calm aim (unwatch f) = quiet _ t _ _ _ (λ h. cc) (λ k h. cc) (λ k c h. absurd (cc h))
Act-Fits t calm aim (exists k wi f h) =
    quiet _ t _ _ _ (λ h. cc) (λ k h. cc) (λ k c h. absurd (cc h))
Act-Fits t calm aim (check k wi f h) =
    quiet _ t _ _ _ (λ h. cc) (λ k h. cc) (λ k c h. absurd (cc h))
Act-Fits t calm aim (exists_now f h) =
    quiet _ t _ _ _ (λ h. cc) (λ k h. cc) (λ k c h. absurd (cc h))
Act-Fits t calm aim (hold f h) = quiet _ t _ _ _ (λ h. cc) (λ k h. cc) (λ k c h. absurd (cc h))
Act-Fits t calm aim (hit h) = quiet _ t _ _ _ (λ h. cc) (λ k h. cc) (λ k c h. absurd (cc h))
Act-Fits t calm aim (miss h) = quiet _ t _ _ _ (λ h. cc) (λ k h. cc) (λ k c h. absurd (cc h))
Act-Fits t calm aim (create replies h) =
    made-Fits _ t replies _ _ _ (λ h. cc) (λ j c h. cc) (λ j h. cc)
Act-Fits t calm aim (refuse replies h) =
    made-Fits _ t replies _ _ _ (λ h. cc) (λ j c h. cc) (λ j h. cc)
Act-Fits t calm aim register = quiet _ t _ _ _ (λ h. cc) (λ k h. cc) (λ k c h. absurd (cc h))
Act-Fits t calm aim unregistered = quiet _ t _ _ _ (λ h. cc) (λ k h. cc) (λ k c h. absurd (cc h))

Turn-IsSound : {s t : System} → IsSound s → Turn s t → IsSound t
Turn-IsSound {s} sound (turn i at act) =
    let fits =
      Act-Fits sound.tidy (λ h. sound.calm i (at ∙ h)) (λ k c h. sound.aimed i k c (at ∙ h)) act in
    Fits→IsSound s i _ _ _ _ at sound fits

start-IsSound : IsSound start
unfolding new_cluster_cache_tracker
start-IsSound = record {
  tidy = record {
    closes = λ c. refl;
    below = λ k c h. absurd (cc h);
    owner = λ j k c g h. absurd (cc g);
  };
  calm = λ i h. cc;
  aimed = λ i k c h. absurd (cc h);
  forgetting = λ k c h was. absurd (cc h);
}

pub kept-IsSound : {s t : System} → IsSound s → Run s t → IsSound t
kept-IsSound sound done = sound
kept-IsSound sound (more r t) = Turn-IsSound (kept-IsSound sound r) t

-- In every state that any number of goroutines reach from a new tracker, by critical sections of Watch
-- and of the clean-up of healthCheckCluster and Reconcile in any order: no goroutine has panicked by
-- closing a closed channel, the channel of a cache is closed exactly when the cache is stopped, each
-- cache in the map was made and stands under one key, a cache that a goroutine is about to stop is
-- cached for the cluster of its clean-up if at all, and when the cache of a cluster is stopped, a
-- goroutine is about to remove the cluster from the map.
pub Run-IsSound : (s : System) → Run start s → IsSound s
Run-IsSound s r = kept-IsSound start-IsSound r
