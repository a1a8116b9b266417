-- ===== src/Controller/Dispatch/Polling.antt =====
-- controllers/controlplane/controller.go: how Reconcile asks to run again.
use cluster_api_bootstrap_pr.Prelude.{
  ℕ, ◌<◌, Bool, true, false, Option, none, some, ok, Error, ◌≡◌, ◌≢◌, refl, ◌⊎◌, inl, inr,
  Bool-cases, arith, requeue_cause, ltb,
}
use cluster_api_bootstrap_pr.Api.{Cluster, CritControlPlane}
use cluster_api_bootstrap_pr.ControlPlane.Interface.{Library}
use cluster_api_bootstrap_pr.Controller.Environment.{Trace, Answers, Outcome, no_requeue}
use cluster_api_bootstrap_pr.Controller.Status.{update_status}
use cluster_api_bootstrap_pr.Controller.Reconcile.{Services, Round}
use cluster_api_bootstrap_pr.Controller.Dispatch.{
  Requests, requeue_error, add_error, poll, finish, reconcile_body, reconcile,
}

-- The outcome makes the manager run the reconciler again.
abbrev pub RunsAgain : Outcome → Type 0
RunsAgain outcome =
    (outcome.1 ≢ none) ⊎ ((outcome.0.requeue ≡ true) ⊎ (0 < outcome.0.requeue_after))

poll_lem :
    (is_zero : Option ℕ → Bool) (ccp : CritControlPlane) (outcome : Outcome)
    → is_zero ccp.deletion_timestamp ≡ true
    → RunsAgain (poll is_zero ccp outcome) ⊎ (ccp.status.ready ≡ true)
unfolding poll
poll_lem is_zero ccp (res, some e) z = inl (inl (λ h. cc h))
poll_lem is_zero ccp (res, none) z = elim (Bool-cases res.requeue) [
  | inl t ↦ inl (inr (inl (rw (t, poll) refl)))
  | inr t ↦ elim (Bool-cases (ltb 0 res.requeue_after)) [
    | inl u ↦ inl (inr (inr (rw (t, u, poll) (ground arith))))
    | inr u ↦ elim (Bool-cases ccp.status.ready) [
      | inl r ↦ inr r
      | inr r ↦ inl (inr (inr (rw (t, u, z, r, poll) (omega arith))))
    ]
  ]
]

-- Once Reconcile has a resource and a cluster that is ready, not paused and can be patched, it runs its
-- body and then its deferred function, and either the resource is being deleted, or the control
-- plane is ready, or the manager runs the reconciler again.
pub reconcile-polls :
    {W : Type 0} (lib : Library) (answers : Answers) (services : Services W) (requests : Requests)
    (w : W) (tr : Trace) (ccp : CritControlPlane) (cluster : Cluster)
    → requests.get ≡ ok ccp
    → requests.owner_cluster ccp ≡ ok (some cluster)
    → requests.is_paused cluster ccp ≡ false
    → cluster.infrastructure_ready ≡ true
    → requests.new_patch_helper ccp ≡ none
    → let round =
        finish lib answers services requests cluster
          (reconcile_body lib answers services requests cluster ccp w tr) in
      (reconcile lib answers services requests w tr ≡ (round.outcome, some round))
      × ((lib.is_zero round.ccp.deletion_timestamp ≡ false)
          ⊎ ((round.ccp.status.ready ≡ true) ⊎ RunsAgain round.outcome))
unfolding reconcile finish
reconcile-polls lib answers services requests w tr ccp cluster g o p i n =
    let round =
      finish lib answers services requests cluster
        (reconcile_body lib answers services requests cluster ccp w tr) in
    (
      rw (g, o, p, i, n, reconcile) refl,
      elim (Bool-cases (lib.is_zero round.ccp.deletion_timestamp)) [
        | inr d ↦ inl d
        | inl d ↦ elim (poll_lem lib.is_zero round.ccp _ d) [
          | inl again ↦ inr (inr again)
          | inr ready ↦ inr (inl ready)
        ]
      ],
    )

requeue_error_lem :
    (e : Error) (t : ℕ)
    → requeue_cause e ≡ some t
    → requeue_error (no_requeue, some e) ≡ (record { requeue = false; requeue_after = t }, none)
unfolding requeue_error
requeue_error_lem e t c = rw (c, requeue_error) refl

poll-timed :
    (is_zero : Option ℕ → Bool) (ccp : CritControlPlane) (t : ℕ)
    → 0 < t
    → poll is_zero ccp (record { requeue = false; requeue_after = t }, none)
      ≡ (record { requeue = false; requeue_after = t }, none)
unfolding poll
poll-timed is_zero ccp t p = let u : ltb 0 t ≡ true = (ground arith) in rw (u, poll) refl

-- When the body of Reconcile returns an error whose cause is a requeue error, and the status and the
-- patch succeed, Reconcile returns that time with no error.
pub finish-requeues :
    {W : Type 0} (lib : Library) (answers : Answers) (services : Services W) (requests : Requests)
    (cluster : Cluster) (round : Round W) (e : Error) (t : ℕ)
    → round.outcome ≡ (no_requeue, some e)
    → requeue_cause e ≡ some t
    → 0 < t
    → let status =
        update_status lib requests.selector_string requests.is_node_ready
          (requests.observed round.trace)
          round.ccp
          cluster in
      status.0 ≡ none
      → requests.patch round.trace status.1 ≡ none
      → (finish lib answers services requests cluster round).outcome
        ≡ (record { requeue = false; requeue_after = t }, none)
unfolding finish add_error
finish-requeues lib answers services requests cluster round e t o c p s h =
    rw (h, s, o, requeue_error_lem e t c) (poll-timed lib.is_zero _ t p)
