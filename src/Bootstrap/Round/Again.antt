-- ===== src/Bootstrap/Round/Again.antt =====
-- What the parts of a worker's round give when they run again.
use cluster_api_bootstrap_pr.Prelude.{
  String, Bool, true, false, not, List, ok, ◌≡◌, refl, ap, if◌then◌else◌, ok_injective, >>=-eq-ok,
}
use cluster_api_bootstrap_pr.Api.{Cluster, Endpoint}
use cluster_api_bootstrap_pr.Secret.Store.{ObjectKey, SecretClient}
use cluster_api_bootstrap_pr.Secret.Certificates.{
  cluster_ca, secret_key, lookup_certificates, lookup_certificate, new_certificates_for_worker,
}
use cluster_api_bootstrap_pr.Bootstrap.Defaults.{
  WorkerConfiguration, ConfigOwner, worker_endpoint, owner_version, default_worker,
}
use cluster_api_bootstrap_pr.Bootstrap.Worker.{reconcile_worker_certificates}

-- The owner, once the infrastructure has consumed the token.
abbrev pub consumed : ConfigOwner → ConfigOwner
consumed owner = record owner { infrastructure_ready = true }

module _ (is_zero crit_is_zero : Endpoint → Bool) (cluster : Cluster) (owner : ConfigOwner) where
  pub default_worker-token :
      (cfg cfg' : WorkerConfiguration) (token : String)
      → default_worker is_zero crit_is_zero cluster owner cfg ≡ ok cfg'
      → default_worker is_zero crit_is_zero cluster owner (record cfg { bootstrap_token = token })
        ≡ ok (record cfg' { bootstrap_token = token })
  unfolding default_worker
  default_worker-token cfg cfg' token h =
      let (e, set, rest) =
        >>=-eq-ok (worker_endpoint is_zero crit_is_zero cluster cfg.control_plane_endpoint) _ h in
      let (v, read, done) = >>=-eq-ok (owner_version owner) _ rest in
      rw (set, read)
        (ap (λ (c : WorkerConfiguration). ok (record c { bootstrap_token = token }))
          (ok_injective _ cfg' done))

  pub consumed_lem :
      (cfg cfg' : WorkerConfiguration)
      → default_worker is_zero crit_is_zero cluster owner cfg ≡ ok cfg'
      → default_worker is_zero crit_is_zero cluster (consumed owner) cfg ≡ ok cfg'
  unfolding default_worker
  consumed_lem cfg cfg' h = h

-- What one read of the CA's Secret decides.
pub certificates_same :
    {W : Type 0} (client : SecretClient W) (key : ObjectKey) (join : List String → String)
    (dir : String) (w w' : W)
    → client.get (secret_key key cluster_ca) w' ≡ client.get (secret_key key cluster_ca) w
    → reconcile_worker_certificates client key join dir w'
      ≡ reconcile_worker_certificates client key join dir w
unfolding reconcile_worker_certificates lookup_certificates lookup_certificate
    new_certificates_for_worker
certificates_same client key join dir w w' same =
    rw
      (
        same, reconcile_worker_certificates, lookup_certificates, lookup_certificate,
        new_certificates_for_worker,
      )
      refl

pub if_not : {A : Type 0} (b : Bool) (x y : A) → b ≡ true → (if not b then x else y) ≡ y
if_not true x y t = refl
if_not false x y t = absurd (cc t)
