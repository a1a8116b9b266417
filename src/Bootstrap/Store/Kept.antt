-- ===== src/Bootstrap/Store/Kept.antt =====
-- What storeBootstrapData leaves behind on each of its branches.
use cluster_api_bootstrap_pr.Prelude.{
  String, true, false, Option, none, some, [], ◌∷◌, ok, Error, is_already_exists, ◌≡◌, ◌≢◌, refl,
  ◌⊎◌, inl, inr, Bool-cases, Option-cases,
}
use cluster_api_bootstrap_pr.Api.{Cluster, CritConfig}
use cluster_api_bootstrap_pr.Secret.Store.{Secret, SecretClient}
use cluster_api_bootstrap_pr.Bootstrap.Store.{bootstrap_secret, store_bootstrap_data}

-- The Secret with the bootstrap data was created and the status names it and is ready; or a Secret of
-- its name was there and the configuration is left as it was; or the call failed and it is left too.
abbrev pub HasKept :
    {W : Type 0}
    → SecretClient W
    → String
    → CritConfig
    → Cluster
    → String
    → W
    → Option Error × CritConfig × W
    → Type 0
HasKept client version config cluster text w after =
    let secret : Secret = record {
      key = record { namespace_of = config.namespace_of; name = config.name };
      labels = ("cluster.x-k8s.io/cluster-name", cluster.name) ∷ [];
      owner_references =
          record {
            api_version = version;
            kind = "CritConfig";
            name = config.name;
            uid = config.uid;
            controller = true;
          }
          ∷ [];
      type_of = "";
      content = ("value", text) ∷ [];
    } in
    ((after.0 ≡ none)
      × ((client.create secret w).0 ≡ none)
      × (after.2 ≡ (client.create secret w).1)
      × (client.get (record { namespace_of = config.namespace_of; name = config.name }) after.2
          ≡ ok secret)
      × (after.1.status.ready ≡ true)
      × (after.1.status.data_secret_name ≡ some config.name)
      × (after.1.status.failure_reason ≡ config.status.failure_reason)
      × (after.1.status.failure_message ≡ config.status.failure_message)
      × (record after.1 { status = config.status } ≡ config))
    ⊎ ((e : Error) × ((client.create secret w).0 ≡ some e)
        × (is_already_exists e ≡ true)
        × (after ≡ (none, config, (client.create secret w).1)))
    ⊎ ((e : Error) × ((client.create secret w).0 ≡ some e)
        × (is_already_exists e ≡ false)
        × (after.0 ≢ none)
        × (after.1 ≡ config)
        × (after.2 ≡ (client.create secret w).1))

-- On every branch of storeBootstrapData: the Secret with the name and the namespace of the CritConfig,
-- the label of the cluster, the CritConfig as its controller and the text as its value was created
-- and can be read back, and the CritConfig names it, is ready and is otherwise as it was; or a Secret
-- of that name was there, whatever its data, the call reports no error and the CritConfig, its status
-- included, is as it was; or the creation failed in another way, the call reports an error and the
-- CritConfig is as it was.
pub store_bootstrap_data_lem :
    {W : Type 0} (client : SecretClient W) (version : String) (config : CritConfig)
    (cluster : Cluster) (text : String) (w : W)
    → HasKept client version config cluster text w
        (store_bootstrap_data client version config cluster text w)
unfolding store_bootstrap_data bootstrap_secret
store_bootstrap_data_lem client version config cluster text w =
    let secret = bootstrap_secret version config cluster text in
    elim (Option-cases (client.create secret w).0) [
      | inl t ↦
          let there = client.get_created secret w t in
          rw t (inl (refl, refl, refl, there, refl, refl, refl, refl, refl))
      | inr (e, t) ↦ elim (Bool-cases (is_already_exists e)) [
        | inl a ↦ rw (t, a) (inr (inl (e, refl, a, refl)))
        | inr a ↦ rw (t, a) (inr (inr (e, refl, a, (λ h. cc), refl, refl)))
      ]
    ]
