-- ===== src/Remote/Steps/Kept.antt =====
-- Calls that do not overlap keep a tracker consistent.
use cluster_api_bootstrap_pr.Prelude.{
  Bool, true, false, Option, none, some, ok, Error, is_not_found, ◌≡◌, refl, sym, ◌∙◌, subst, arith,
  ok_injective,
}
use cluster_api_bootstrap_pr.Secret.Store.{ObjectKey}
use cluster_api_bootstrap_pr.Remote.Tracker.{
  Tracker, new_cluster_cache_tracker, clean_up, after_poll, gone, reconcile_cluster,
}
use cluster_api_bootstrap_pr.Remote.Steps.{
  Step, watched, polled, reconciled, Reach, here, next, IsConsistent,
}
use cluster_api_bootstrap_pr.Remote.Steps.Created.{watch-IsConsistent}
use cluster_api_bootstrap_pr.Remote.Steps.Forgotten.{clean_up-IsConsistent}

new-IsConsistent : IsConsistent new_cluster_cache_tracker
unfolding new_cluster_cache_tracker
new-IsConsistent = record {
  live = λ k c h. absurd (cc h);
  owner = λ j k c g h. absurd (cc g);
  kept = λ c below h. absurd (omega arith);
  closes = λ c below. absurd (omega arith);
  watching = λ k ws h. absurd (cc h);
}

module _ (cluster : ObjectKey) (m : Tracker) (i : IsConsistent m) where
  cleaned-IsConsistent : (m' : Tracker) → clean_up cluster m ≡ ok m' → IsConsistent m'
  cleaned-IsConsistent m' h =
      let (m'', returns, i', _) = clean_up-IsConsistent cluster m i in
      subst IsConsistent (ok_injective m'' m' (sym returns ∙ h)) i'

  gone-IsConsistent :
      (b : Bool) (e : Error) (r : Option Error × Tracker)
      → gone b e cluster m ≡ ok r
      → IsConsistent r.1
  gone-IsConsistent false e r h =
      subst (λ (x : Option Error × Tracker). IsConsistent x.1) (ok_injective (some e, m) r h) i
  gone-IsConsistent true e r h =
      let (m', returns, i', _) = clean_up-IsConsistent cluster m i in
      let same : gone true e cluster m ≡ ok (none, m') = rw returns refl in
      subst (λ (x : Option Error × Tracker). IsConsistent x.1)
        (ok_injective (none, m') r (sym same ∙ h)) i'

  reconcile_cluster-IsConsistent :
      (read : Option Error) (r : Option Error × Tracker)
      → reconcile_cluster cluster read m ≡ ok r
      → IsConsistent r.1
  unfolding reconcile_cluster
  reconcile_cluster-IsConsistent none r h =
      subst (λ (x : Option Error × Tracker). IsConsistent x.1) (ok_injective (none, m) r h) i
  reconcile_cluster-IsConsistent (some e) r h = gone-IsConsistent (is_not_found e) e r h

-- A step keeps a tracker consistent.
pub Step-IsConsistent : {m m' : Tracker} → IsConsistent m → Step m m' → IsConsistent m'
unfolding after_poll
Step-IsConsistent i (watched replies cluster wi) = watch-IsConsistent replies cluster wi _ i
Step-IsConsistent i (polled cluster e h) = cleaned-IsConsistent cluster _ i _ h
Step-IsConsistent i (reconciled cluster read answer h) =
    reconcile_cluster-IsConsistent cluster _ i read (answer, _) h

run-IsConsistent : {m m' : Tracker} → IsConsistent m → Reach m m' → IsConsistent m'
run-IsConsistent i here = i
run-IsConsistent i (next r s) = Step-IsConsistent (run-IsConsistent i r) s

-- In every tracker that calls of Watch, ends of failed health checks and calls of Reconcile can lead to
-- from a new one, each call taken from its locks to its return: the cached clusters are exactly those
-- of caches that are not stopped, each such cache stands under one key, the channel of a cache is
-- closed exactly when the cache is stopped, and a cluster with a registered watch has a cache.
pub Reach-IsConsistent : (m : Tracker) → Reach new_cluster_cache_tracker m → IsConsistent m
Reach-IsConsistent m r = run-IsConsistent new-IsConsistent r
