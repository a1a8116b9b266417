-- ===== src/Bootstrap/Defaults/Settled.antt =====
-- A configuration that has taken its values over from the Cluster does not change again.
use cluster_api_bootstrap_pr.Prelude.{
  String, Bool, true, false, Option, none, some, List, [], ◌∷◌, ◌++◌, Result, ok, ◌≡◌, refl, ◌∙◌,
  subst, ok_injective, str_eq, eq_refl, Bool-cases, inl, inr, >>=-eq-ok, arith,
}
use cluster_api_bootstrap_pr.Api.{Cluster, ClusterNetwork, Endpoint}
use cluster_api_bootstrap_pr.Management.Cluster.{wrapped}
use cluster_api_bootstrap_pr.Bootstrap.Defaults.{
  WorkerConfiguration, ControlPlaneConfiguration, ConfigOwner, or_value, or_service_domain,
  or_version, owner_version, worker_endpoint, default_worker, contains, with_host, or_blocks,
  services_of, pods_of, default_control_plane, with_cluster_host, or_cluster_endpoint,
}

or_value_idem : (a b : String) → or_value (or_value a b) b ≡ or_value a b
or_value_idem a b = elim (Bool-cases (str_eq a "")) [
  | inl t ↦ rw t (elim (Bool-cases (str_eq b "")) [ inl u ↦ rw u refl | inr u ↦ rw u refl ])
  | inr t ↦ rw (t, t) refl
]

or_service_domain_idem :
    (a : String) (n : Option ClusterNetwork)
    → or_service_domain (or_service_domain a n) n ≡ or_service_domain a n
or_service_domain_idem a none = refl
or_service_domain_idem a (some n) = ground arith

or_version_idem : (a : String) (v : Option String) → or_version (or_version a v) v ≡ or_version a v
or_version_idem a none = refl
or_version_idem a (some v) = or_value_idem a v

module _ (is_zero crit_is_zero : Endpoint → Bool) (cluster : Cluster) where
  or_blocks_idem :
      (join : List String → String) (a : String) (n : Option (List String))
      → or_blocks is_zero crit_is_zero cluster join
          (or_blocks is_zero crit_is_zero cluster join a n)
          n
        ≡ or_blocks is_zero crit_is_zero cluster join a n
  or_blocks_idem join a none = refl
  or_blocks_idem join a (some blocks) = ground arith

  contains-append :
      (ss : List String) (s : String)
      → contains is_zero crit_is_zero cluster (ss ++ s ∷ []) s ≡ true
  contains-append [] s = rw (eq_refl s) refl
  contains-append (t ∷ ss) s = ground (arith, contains-append ss s)

  with_host_idem :
      (sans : List String) (host : String)
      → with_host is_zero crit_is_zero cluster
          (with_host is_zero crit_is_zero cluster sans host)
          host
        ≡ with_host is_zero crit_is_zero cluster sans host
  with_host_idem sans host = elim (Bool-cases (contains is_zero crit_is_zero cluster sans host)) [
    | inl t ↦ rw (t, t) refl
    | inr t ↦ rw (t, contains-append sans host) refl
  ]

  with_cluster_host_idem :
      (sans : List String)
      → with_cluster_host is_zero crit_is_zero cluster
          (with_cluster_host is_zero crit_is_zero cluster sans)
        ≡ with_cluster_host is_zero crit_is_zero cluster sans
  with_cluster_host_idem sans = elim (Bool-cases (is_zero cluster.control_plane_endpoint)) [
    | inl t ↦ rw t refl
    | inr t ↦ rw t (with_host_idem sans cluster.control_plane_endpoint.host)
  ]

  or_cluster_endpoint_idem :
      (e : Endpoint)
      → or_cluster_endpoint is_zero crit_is_zero cluster
          (or_cluster_endpoint is_zero crit_is_zero cluster e)
        ≡ or_cluster_endpoint is_zero crit_is_zero cluster e
  or_cluster_endpoint_idem e = ground arith

  endpoint_set :
      ((e : Endpoint) → crit_is_zero e ≡ is_zero e)
      → (e e' : Endpoint) → worker_endpoint is_zero crit_is_zero cluster e ≡ ok e'
      → crit_is_zero e' ≡ false
  endpoint_set same e e' = elim (Bool-cases (crit_is_zero e)) [
    | inr t ↦ rw t (λ h. subst (λ x. crit_is_zero x ≡ false) (ok_injective e e' h) t)
    | inl t ↦ elim (Bool-cases (is_zero cluster.control_plane_endpoint)) [
      | inl u ↦ rw (t, u) (λ h. cc)
      | inr u ↦
          let v : crit_is_zero cluster.control_plane_endpoint ≡ false =
            same cluster.control_plane_endpoint ∙ u in
          rw (t, u)
            (λ h.
              subst (λ x. crit_is_zero x ≡ false) (ok_injective cluster.control_plane_endpoint e' h)
                v)
    ]
  ]

-- The values that a worker's configuration takes over from the Cluster and its owner are settled
-- after one run: a second run over them succeeds and changes nothing, and the endpoint is set.
pub default_worker_idem :
    (is_zero crit_is_zero : Endpoint → Bool) (cluster : Cluster) (owner : ConfigOwner)
    (cfg cfg' : WorkerConfiguration)
    → ((e : Endpoint) → crit_is_zero e ≡ is_zero e)
    → default_worker is_zero crit_is_zero cluster owner cfg ≡ ok cfg'
    → (default_worker is_zero crit_is_zero cluster owner cfg' ≡ ok cfg')
      × (crit_is_zero cfg'.control_plane_endpoint ≡ false)
unfolding default_worker
default_worker_idem is_zero crit_is_zero cluster owner cfg cfg' same h =
    let (e, set, rest) =
      >>=-eq-ok (worker_endpoint is_zero crit_is_zero cluster cfg.control_plane_endpoint) _ h in
    let (v, read, done) = >>=-eq-ok (owner_version owner) _ rest in
    let nonzero = endpoint_set is_zero crit_is_zero cluster same cfg.control_plane_endpoint e set in
    subst
      (λ c.
        (default_worker is_zero crit_is_zero cluster owner c ≡ ok c)
        × (crit_is_zero c.control_plane_endpoint ≡ false))
      (ok_injective _ cfg' done)
      (
        rw
            (
              nonzero,
              read,
              or_value_idem cfg.cluster_name cluster.name,
              or_service_domain_idem cfg.cluster_domain cluster.cluster_network,
              or_version_idem cfg.kubernetes_version v,
            )
            refl,
        nonzero,
      )

-- The values that a control plane's configuration takes over from the Cluster and its Machine are
-- settled after one run: a second run over them succeeds and changes nothing.
pub default_control_plane_idem :
    (is_zero crit_is_zero : Endpoint → Bool) (cluster : Cluster) (join : List String → String)
    (version : Result (Option String)) (cfg cfg' : ControlPlaneConfiguration)
    → default_control_plane is_zero crit_is_zero cluster join version cfg ≡ ok cfg'
    → default_control_plane is_zero crit_is_zero cluster join version cfg' ≡ ok cfg'
unfolding default_control_plane
default_control_plane_idem is_zero crit_is_zero cluster join version cfg cfg' h =
    let (v, read, done) = >>=-eq-ok (wrapped "cannot convert owner" version) _ h in
    subst (λ c. default_control_plane is_zero crit_is_zero cluster join version c ≡ ok c)
      (ok_injective _ cfg' done)
      (rw
        (
          read,
          with_cluster_host_idem is_zero crit_is_zero cluster cfg.extra_sans,
          or_cluster_endpoint_idem is_zero crit_is_zero cluster cfg.control_plane_endpoint,
          or_value_idem cfg.cluster_name cluster.name,
          or_service_domain_idem cfg.cluster_domain cluster.cluster_network,
          or_blocks_idem is_zero crit_is_zero cluster join cfg.service_subnet
              (services_of is_zero crit_is_zero cluster cluster.cluster_network),
          or_blocks_idem is_zero crit_is_zero cluster join cfg.pod_subnet
              (pods_of is_zero crit_is_zero cluster cluster.cluster_network),
          or_version_idem cfg.kubernetes_version v,
        )
        refl)
