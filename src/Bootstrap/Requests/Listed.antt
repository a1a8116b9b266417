-- ===== src/Bootstrap/Requests/Listed.antt =====
-- Which CritConfigs a change of a Cluster or of a Machine leads to.
use cluster_api_bootstrap_pr.Prelude.{
  String, Bool, true, false, Option, none, some, List, [], ◌∷◌, Result, ok, str_eq, ◌&&◌, ◌≡◌, refl,
  Bool-cases, inl, inr, ◌↔◌, Memᴰ, Memᴰ-append, append-Memᴰ, subst, eq_iff, arith,
}
use cluster_api_bootstrap_pr.Api.{Cluster, Machine, ObjectReference}
use cluster_api_bootstrap_pr.Secret.Store.{ObjectKey}
use cluster_api_bootstrap_pr.Bootstrap.Requests.{
  group, version, has_group_kind, request_when, machine_to_bootstrap, machine_requests,
  cluster_to_crit_configs,
}

abbrev pub request : String → ObjectReference → ObjectKey
request namespace_of ref = record { namespace_of = namespace_of; name = ref.name }

module _ (parse : String → String × String) where
  -- The Machine refers to a CritConfig of the key `k`, in any version of the API.
  abbrev pub RefersTo : Machine → ObjectKey → Type 0
  RefersTo m k =
      (ref : ObjectReference) × (m.config_ref ≡ some ref)
      × ((parse ref.api_version).0 ≡ "bootstrap.cluster.x-k8s.io")
      × (ref.kind ≡ "CritConfig")
      × (k ≡ record { namespace_of = m.namespace_of; name = ref.name })

  has_group_kind→eq :
      (ref : ObjectReference)
      → has_group_kind parse ref ≡ true
      → ((parse ref.api_version).0 ≡ "bootstrap.cluster.x-k8s.io") × (ref.kind ≡ "CritConfig")
  has_group_kind→eq ref t = (
    (ground (arith, eq_iff (parse ref.api_version).0 "bootstrap.cluster.x-k8s.io")),
    (ground (arith, eq_iff ref.kind "CritConfig")),
  )

  eq→has_group_kind :
      (ref : ObjectReference)
      → (parse ref.api_version).0 ≡ "bootstrap.cluster.x-k8s.io"
      → ref.kind ≡ "CritConfig"
      → has_group_kind parse ref ≡ true
  eq→has_group_kind ref g k = rw (g, k) refl

  Memᴰ-request :
      (m : Machine) (o : Option ObjectReference) (k : ObjectKey)
      → m.config_ref ≡ o
      → Memᴰ k (request_when parse (has_group_kind parse) m.namespace_of o)
      → RefersTo m k
  Memᴰ-request m none k e = λ h. elim h [ ]
  Memᴰ-request m (some ref) k e = elim (Bool-cases (has_group_kind parse ref)) [
    | inr t ↦ rw t (λ h. elim h [ ])
    | inl t ↦ rw t (λ h. elim h [
      | Memᴰ.head same ↦ (ref, e, (has_group_kind→eq ref t).0, (has_group_kind→eq ref t).1, same)
      | Memᴰ.tail rest ↦ elim rest [ ]
    ])
  ]

  request-Memᴰ :
      (m : Machine) (k : ObjectKey)
      → RefersTo m k
      → Memᴰ k (request_when parse (has_group_kind parse) m.namespace_of m.config_ref)
  request-Memᴰ m k (ref, e, g, kind, same) =
      rw e (rw (eq→has_group_kind ref g kind) (Memᴰ.head same))

  Memᴰ-machine_requests :
      (ms : List Machine) (k : ObjectKey)
      → Memᴰ k (machine_requests parse ms)
      → (m : Machine) × Memᴰ m ms × RefersTo m k
  Memᴰ-machine_requests [] k h = elim h [ ]
  Memᴰ-machine_requests (m ∷ ms) k h =
      elim (Memᴰ-append (request_when parse (has_group_kind parse) m.namespace_of m.config_ref)
        (machine_requests parse ms) k h) [
          | inl here ↦ (m, Memᴰ.head refl, Memᴰ-request m m.config_ref k refl here)
          | inr rest ↦
              let (m', there, refers) = Memᴰ-machine_requests ms k rest in
              (m', Memᴰ.tail there, refers)
        ]

  machine_requests-Memᴰ :
      (ms : List Machine) (k : ObjectKey) (m : Machine)
      → Memᴰ m ms
      → RefersTo m k
      → Memᴰ k (machine_requests parse ms)
  machine_requests-Memᴰ [] k m h refers = elim h [ ]
  machine_requests-Memᴰ (x ∷ ms) k m (Memᴰ.head e) refers =
      append-Memᴰ (request_when parse (has_group_kind parse) x.namespace_of x.config_ref)
        (machine_requests parse ms) k (inl (request-Memᴰ x k (subst (λ y. RefersTo y k) e refers)))
  machine_requests-Memᴰ (x ∷ ms) k m (Memᴰ.tail h) refers =
      append-Memᴰ (request_when parse (has_group_kind parse) x.namespace_of x.config_ref)
        (machine_requests parse ms) k (inr (machine_requests-Memᴰ ms k m h refers))

  -- A change of a Cluster whose Machines can be listed leads to a request for a key exactly when one of
  -- the Machines refers to the kind CritConfig of the group bootstrap.cluster.x-k8s.io with that key, in
  -- any version of the API.
  pub cluster_to_crit_configs-Memᴰ :
      (list : String → String → Result (List Machine)) (c : Cluster) (ms : List Machine)
      (k : ObjectKey)
      → list c.namespace_of c.name ≡ ok ms
      → Memᴰ k (cluster_to_crit_configs parse list (some c))
        ↔ ((m : Machine) × Memᴰ m ms × RefersTo m k)
  unfolding cluster_to_crit_configs
  cluster_to_crit_configs-Memᴰ list c ms k e =
      rw e (Memᴰ-machine_requests ms k, λ (m, h, refers). machine_requests-Memᴰ ms k m h refers)

  -- When a Machine refers to its CritConfig in another version of the API, a change of the Machine leads to
  -- no request, though a change of its Cluster, whose Machines can be listed, leads to one.
  pub machine_to_bootstrap-missed :
      (list : String → String → Result (List Machine)) (c : Cluster) (ms : List Machine)
      (m : Machine) (ref : ObjectReference)
      → list c.namespace_of c.name ≡ ok ms
      → Memᴰ m ms
      → m.config_ref ≡ some ref
      → has_group_kind parse ref ≡ true
      → str_eq (parse ref.api_version).1 version ≡ false
      → (machine_to_bootstrap parse (some m) ≡ [])
        × Memᴰ (request m.namespace_of ref) (cluster_to_crit_configs parse list (some c))
  unfolding machine_to_bootstrap
  machine_to_bootstrap-missed list c ms m ref e there refers same_kind other = (
    rw refers
        (rw (missed (str_eq (parse ref.api_version).0 group) (str_eq ref.kind "CritConfig")) refl),
    (cluster_to_crit_configs-Memᴰ list c ms (request m.namespace_of ref) e).1 (
      m,
      there,
      (ref, refers, (has_group_kind→eq ref same_kind).0, (has_group_kind→eq ref same_kind).1, refl),
    ),
  )
    where
      missed : (a b : Bool) → (a && str_eq (parse ref.api_version).1 version && b) ≡ false
      missed true b = rw other refl
      missed false b = refl
