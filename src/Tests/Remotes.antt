-- ===== src/Tests/Remotes.antt =====
-- The theorems on the cluster cache tracker, at concrete runs.
use cluster_api_bootstrap_pr.Prelude.{
  true, false, none, some, List, [], ◌∷◌, ok, Error, Option, not_found, panic, ◌≡◌, refl, arith,
}
use cluster_api_bootstrap_pr.Secret.Store.{ObjectKey}
use cluster_api_bootstrap_pr.Remote.Tracker.{
  Tracker, WatchInfo, Replies, new_cache, new_cluster_cache_tracker, watch, watch_exists,
  watch_locked, get_cluster_cache, get_or_create_cluster_cache, new_cluster_cache, after_poll,
  reconcile_cluster, with_watches, add_watch,
}
use cluster_api_bootstrap_pr.Remote.Steps.{Reach, here, next, watched}
use cluster_api_bootstrap_pr.Remote.Keys.{write}
use cluster_api_bootstrap_pr.Remote.Threads.{
  idle, looked, checked, holding, missed, cached, look, check, hold, miss, create, register, System,
  start, turn, Run, done, more,
}
use cluster_api_bootstrap_pr.Remote.Threads.Kept.{IsSound, Run-IsSound}
use cluster_api_bootstrap_pr.Remote.Threads.Leaked.{IsLeaked, clean_up-leaks}
use cluster_api_bootstrap_pr.Remote.Stale.{watch_idem, all_right, stale_check-stops}
use cluster_api_bootstrap_pr.Remote.Checks.{run_health_checks}
use cluster_api_bootstrap_pr.Remote.Checks.Threshold.{
  is_failed, has_errors_in_a_row, run_health_checks-has_errors_in_a_row,
}

abbrev key : ObjectKey
key = record { namespace_of = "default"; name = "c" }

abbrev machine_watch : WatchInfo
machine_watch = record { watcher = 1; kind = 2; event_handler = 3 }

abbrev no_config : Replies
no_config = record { rest_config = some panic; new_cache = none; watch = none }

-- a cluster that is watched
abbrev one_watch : Tracker
one_watch = (watch all_right key machine_watch new_cluster_cache_tracker).1

watched_once : Reach new_cluster_cache_tracker one_watch
watched_once = next here (watched all_right key machine_watch)

has_cache : get_cluster_cache one_watch key ≡ some 0
unfolding get_cluster_cache watch watch_locked watch_exists get_or_create_cluster_cache
    new_cluster_cache new_cluster_cache_tracker
has_cache = refl

watch_succeeds : (watch all_right key machine_watch new_cluster_cache_tracker).0 ≡ none
unfolding get_cluster_cache watch watch_locked watch_exists get_or_create_cluster_cache
    new_cluster_cache new_cluster_cache_tracker
watch_succeeds = refl

-- two goroutines that have looked up the cache of the cluster
abbrev two_lookups : System
two_lookups = record {
  tracker = (new_cluster_cache all_right key (with_watches key new_cluster_cache_tracker)).1;
  held = true;
  pc =
      write
        (write
          (write
            (write
              (write (write (λ i. idle) 0 (checked key machine_watch)) 0
                (holding key machine_watch))
              0 (missed key machine_watch))
            0 (cached key machine_watch 0))
          1 (looked key 0))
        2 (looked key 0);
}

looked_up_twice : Run start two_lookups
unfolding get_cluster_cache watch_exists new_cluster_cache new_cluster_cache_tracker
looked_up_twice =
    more
      (more
        (more
          (more
            (more (more done (turn 0 refl (check key machine_watch refl refl)))
              (turn 0 refl (hold refl refl)))
            (turn 0 refl (miss refl)))
          (turn 0 refl (create all_right refl)))
        (turn 1 refl (look refl)))
      (turn 2 refl (look refl))

abbrev released : System
released = record {
  tracker = add_watch key machine_watch two_lookups.tracker;
  held = false;
  pc = write two_lookups.pc 0 idle;
}

registered : Run start released
unfolding new_cluster_cache
registered = more looked_up_twice (turn 0 refl register)

Run-IsSound_example : IsSound released
Run-IsSound_example = Run-IsSound released registered

clean_up-leaks_example :
    (t : System) × Run released t × IsLeaked t.tracker 1 × (t.tracker.watches key ≡ none)
unfolding new_cluster_cache new_cluster_cache_tracker
clean_up-leaks_example =
    clean_up-leaks released 1 2 key machine_watch 0 registered refl (omega arith) refl refl

watch_idem_example : watch no_config key machine_watch one_watch ≡ (none, one_watch)
watch_idem_example =
    watch_idem all_right no_config key machine_watch new_cluster_cache_tracker watch_succeeds

stale_check-stops_example :
    (m₁ : Tracker) × (m₂ : Tracker) × (m₃ : Tracker) × (reconcile_cluster key
        (some not_found)
        one_watch
      ≡ ok (none, m₁))
    × ((m₁.heap 0).closed ≡ true)
    × (watch all_right key machine_watch m₁ ≡ (none, m₂))
    × (get_cluster_cache m₂ key ≡ some one_watch.made)
    × (m₂.heap one_watch.made ≡ new_cache)
    × (after_poll key (some panic) m₂ ≡ ok m₃)
    × ((m₃.heap one_watch.made).stopped ≡ true)
    × (get_cluster_cache m₃ key ≡ none)
    × (watch_exists m₃ key machine_watch ≡ false)
stale_check-stops_example =
    stale_check-stops one_watch key machine_watch 0 panic watched_once has_cache

abbrev answers : List (Option Error)
answers = some panic ∷ none ∷ some panic ∷ some not_found ∷ []

run_health_checks-has_errors_in_a_row_example :
    is_failed (run_health_checks 2 answers 0) ≡ has_errors_in_a_row 2 answers
run_health_checks-has_errors_in_a_row_example =
    run_health_checks-has_errors_in_a_row 2 answers (omega arith)
