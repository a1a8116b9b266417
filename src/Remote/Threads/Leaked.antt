-- ===== src/Remote/Threads/Leaked.antt =====
-- Two clean-ups of one cluster, with a Watch of the cluster between them.
use cluster_api_bootstrap_pr.Prelude.{
  ℕ, ◌<◌, Bool, true, false, Option, none, some, Result, ok, ◌≡◌, ◌≢◌, refl, sym, ◌∙◌, ap, subst,
  inl, inr, arith,
}
use cluster_api_bootstrap_pr.Secret.Store.{ObjectKey}
use cluster_api_bootstrap_pr.Remote.Keys.{same_key, put, write, put-cases, put_same, write-cases}
use cluster_api_bootstrap_pr.Remote.Tracker.{
  Tracker, ClusterCache, WatchInfo, new_cache, stop_cache, get_cluster_cache, delete_cluster_cache,
  delete_watches_for_cluster, watch_exists, with_watches, add_watch, add_cache,
}
use cluster_api_bootstrap_pr.Remote.Stale.{all_right, new_cluster_cache_lem, write_same}
use cluster_api_bootstrap_pr.Remote.Threads.{
  Pc, idle, looked, stopped, forgot, checked, holding, missed, cached, Act, stops, forgets, unwatch,
  check, hold, miss, create, register, System, start, turn, Run, done, more,
}
use cluster_api_bootstrap_pr.Remote.Threads.Fits.{stop_cache_lem}
use cluster_api_bootstrap_pr.Remote.Threads.Kept.{IsSound, kept-IsSound, Run-IsSound}

-- A cache that was made and is not stopped, and that no cluster has.
pub record IsLeaked (m : Tracker) (c : ℕ) : Type 0 where
  pub made : c < m.made
  pub runs : m.heap c ≡ new_cache
  pub nowhere : (k : ObjectKey) → m.cluster_caches k ≢ some c

write_other : {A : Type 0} → (f : ℕ → A) (i j : ℕ) (a : A) → i ≢ j → write f i a j ≡ f j
write_other f i j a ne = elim (write-cases f i a j) [ inl (e, w) ↦ absurd (ne e) | inr (e, w) ↦ w ]

put_away :
    (m : ObjectKey → Option ℕ) (k : ObjectKey) (a : Option ℕ) (j : ObjectKey)
    → same_key k j ≡ false
    → put m k a j ≡ m j
put_away m k a j ne = rw ne refl

abbrev pub after : System → ℕ → Pc → Tracker → Bool → System
after s i p m held = record { tracker = m; held = held; pc = write s.pc i p }

-- A goroutine that stands at `p` goes on.
pub goes :
    {s t : System} {p : Pc} (i : ℕ) (p' : Pc) (m : Tracker) (held : Bool)
    → Run s t
    → t.pc i ≡ p
    → Act t.tracker t.held p m held p'
    → Run s (after t i p' m held)
goes i p' m held r at act = more r (turn i at act)

-- newClusterCache for a cluster that has none, when all is answered well
creates :
    (m : Tracker) (held : Bool) (k : ObjectKey) (wi : WatchInfo)
    → m.cluster_caches k ≡ none
    → Act m held (missed k wi) (add_cache k m) held (cached k wi m.made)
creates m held k wi absent =
    let same = new_cluster_cache_lem k m absent in
    subst (λ (x : Tracker). Act m held (missed k wi) x held (cached k wi m.made))
      (ap (λ (r : Result ℕ × Tracker). r.1) same)
      (create all_right (ap (λ (r : Result ℕ × Tracker). r.0) same))

-- The clean-up of a goroutine that has looked up a cache, to its end.
module _ (s : System) (i : ℕ) (k : ObjectKey) (c : ℕ) (x : ClusterCache) where
  abbrev pub stopped_at : System
  stopped_at = after s i (stopped k) (record s.tracker { heap = write s.tracker.heap c x }) s.held

  abbrev pub forgotten_at : System
  forgotten_at = after stopped_at i (forgot k) (delete_cluster_cache k stopped_at.tracker) s.held

  abbrev pub cleaned : System
  cleaned = after forgotten_at i idle (delete_watches_for_cluster k forgotten_at.tracker) false

  pub clean_up_run :
      (s₀ : System)
      → Run s₀ s
      → s.held ≡ false
      → s.pc i ≡ looked k c
      → stop_cache (s.tracker.heap c) ≡ ok x
      → Run s₀ cleaned
  clean_up_run s₀ r free at works =
      goes i idle (delete_watches_for_cluster k forgotten_at.tracker) false
        (goes i (forgot k) (delete_cluster_cache k stopped_at.tracker) s.held
          (goes i (stopped k) stopped_at.tracker s.held r at (stops works))
          (write_same s.pc i (stopped k)) forgets)
        (write_same stopped_at.pc i (forgot k)) (unwatch free)

  cleaned_other : (j : ℕ) → i ≢ j → cleaned.pc j ≡ s.pc j
  cleaned_other j ne =
      write_other forgotten_at.pc i j idle ne
      ∙ write_other stopped_at.pc i j (forgot k) ne
      ∙ write_other s.pc i j (stopped k) ne

-- A Watch of a cluster without a cache and without watches, to its end.
module _ (s : System) (i : ℕ) (k : ObjectKey) (wi : WatchInfo) where
  abbrev checked_at : System
  checked_at = after s i (checked k wi) s.tracker false

  abbrev holding_at : System
  holding_at = after checked_at i (holding k wi) (with_watches k s.tracker) true

  abbrev missed_at : System
  missed_at = after holding_at i (missed k wi) holding_at.tracker true

  abbrev cached_at : System
  cached_at =
      after missed_at i (cached k wi s.tracker.made) (add_cache k (with_watches k s.tracker)) true

  abbrev watched : System
  watched = after cached_at i idle (add_watch k wi (add_cache k (with_watches k s.tracker))) false

  watch_run :
      (s₀ : System)
      → Run s₀ s
      → s.held ≡ false
      → s.pc i ≡ idle
      → s.tracker.cluster_caches k ≡ none
      → s.tracker.watches k ≡ none
      → Run s₀ watched
  unfolding get_cluster_cache watch_exists
  watch_run s₀ r free at absent unwatched =
      goes i idle (add_watch k wi cached_at.tracker) false
        (goes i (cached k wi s.tracker.made) (add_cache k (with_watches k s.tracker)) true
          (goes i (missed k wi) holding_at.tracker true
            (goes i (holding k wi) (with_watches k s.tracker) true
              (goes i (checked k wi) s.tracker false r at (check k wi free (rw unwatched refl)))
              (write_same s.pc i (checked k wi)) (hold refl (rw unwatched refl)))
            (write_same checked_at.pc i (holding k wi)) (miss absent))
          (write_same holding_at.pc i (missed k wi))
          (creates (with_watches k s.tracker) true k wi absent))
        (write_same missed_at.pc i (cached k wi s.tracker.made)) register

  watched_other : (j : ℕ) → i ≢ j → watched.pc j ≡ s.pc j
  watched_other j ne =
      write_other cached_at.pc i j idle ne
      ∙ write_other missed_at.pc i j (cached k wi s.tracker.made) ne
      ∙ write_other holding_at.pc i j (missed k wi) ne
      ∙ write_other checked_at.pc i j (holding k wi) ne
      ∙ write_other s.pc i j (checked k wi) ne

-- Whenever two goroutines of the clean-up have both looked up the cache of a cluster, and watchesLock
-- is free, this can follow: the first ends its clean-up and then a Watch makes a new cache for the
-- cluster; the second finds its own cache stopped, and removes the new one from the map without
-- stopping it. The new cache then runs on, and no cluster has it.
pub clean_up-leaks :
    (s : System) (i j : ℕ) (k : ObjectKey) (wi : WatchInfo) (c : ℕ)
    → Run start s
    → s.held ≡ false
    → i ≢ j
    → s.pc i ≡ looked k c
    → s.pc j ≡ looked k c
    → (t : System) × Run s t × IsLeaked t.tracker s.tracker.made × (t.tracker.watches k ≡ none)
unfolding delete_cluster_cache delete_watches_for_cluster
clean_up-leaks s i j k wi c reached free ne at at' =
    let sound = Run-IsSound s reached in
    let (x, works, _, _) = stop_cache_lem (s.tracker.heap c) (sound.tidy.closes c) in
    let s₁ = cleaned s i k c x in
    let r₁ = clean_up_run s i k c x s done free at works in
    let s₂ = watched s₁ i k wi in
    let r₂ =
      watch_run s₁ i k wi s r₁ refl (write_same (forgotten_at s i k c x).pc i idle)
        (put_same s.tracker.cluster_caches k none) (put_same s.tracker.watches k none) in
    let sound₂ = kept-IsSound sound r₂ in
    let (y, works', _, _) = stop_cache_lem (s₂.tracker.heap c) (sound₂.tidy.closes c) in
    let there : s₂.pc j ≡ looked k c =
      watched_other s₁ i k wi j ne ∙ cleaned_other s i k c x j ne ∙ at' in
    let (low, _) = sound.aimed i k c at in
    (
      cleaned s₂ j k c y,
      clean_up_run s₂ j k c y s r₂ refl there works',
      record {
        made = omega arith;
        runs =
            write_other s₂.tracker.heap c s.tracker.made y (λ e. absurd (omega arith))
            ∙ write_same s₁.tracker.heap s.tracker.made new_cache;
        nowhere = λ k' h. absurd (not_there s k (s.tracker.made) sound k' h);
      },
      put_same s₂.tracker.watches k none,
    )
  where
    not_there :
        (s : System) (k : ObjectKey) (n : ℕ)
        → IsSound s
        → (k' : ObjectKey)
        → put (put (put s.tracker.cluster_caches k none) k (some n)) k none k' ≢ some s.tracker.made
    not_there s k n sound k' h =
        elim (put-cases (put (put s.tracker.cluster_caches k none) k (some n)) k none k') [
          | inl (e, w) ↦ absurd (cc (sym w ∙ h))
          | inr (ne, w) ↦
              let inner = put s.tracker.cluster_caches k none in
              let before : s.tracker.cluster_caches k' ≡ some s.tracker.made =
                sym
                  (put_away inner k (some n) k' ne ∙ put_away s.tracker.cluster_caches k none k' ne)
                ∙ sym w
                ∙ h in
              absurd (omega (arith, sound.tidy.below k' s.tracker.made before))
        ]
