-- ===== src/Remote/Threads/Alone.antt =====
-- Calls that do not overlap, as runs of one goroutine.
use cluster_api_bootstrap_pr.Prelude.{true, false, ◌≡◌}
use cluster_api_bootstrap_pr.Secret.Store.{ObjectKey}
use cluster_api_bootstrap_pr.Remote.Tracker.{
  Tracker, WatchInfo, Replies, watch_exists, with_watches,
}
use cluster_api_bootstrap_pr.Remote.Threads.{idle, checked, holding, System, start, Run}
use cluster_api_bootstrap_pr.Remote.Threads.Leaked.{after}

-- Goroutines lead to the tracker, with watchesLock free and the first goroutine between two calls.
abbrev pub IsReached : Tracker → Type 0
IsReached m = (s : System) × Run start s × (s.tracker ≡ m) × (s.held ≡ false) × (s.pc 0 ≡ idle)

module _ (s : System) (r : Run start s) (free : s.held ≡ false) (at : s.pc 0 ≡ idle) where
  module _ (replies : Replies) (k : ObjectKey) (wi : WatchInfo)
      (new : watch_exists s.tracker k wi ≡ false) where
    abbrev opened : Tracker
    opened = with_watches k s.tracker

    abbrev at_check : System
    at_check = after s 0 (checked k wi) s.tracker false

    abbrev at_hold : System
    at_hold = after at_check 0 (holding k wi) opened true
