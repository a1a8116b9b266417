-- ===== src/Controller/Reconcile/Kubeconfig.antt =====
-- controllers/controlplane/controlplane.go: the kubeconfig Secret of a new cluster.
use Prim.Native.String.{◌++◌ as concat}
use cluster_api_bootstrap_pr.Prelude.{
  Bool-cases, Option, inl, inr, none, some, ok, err, Error, Result, is_not_found, ◌≡◌, ◌≢◌, ◌↔◌,
  refl,
}
use cluster_api_bootstrap_pr.Api.{Cluster, CritControlPlane}
use cluster_api_bootstrap_pr.ControlPlane.Interface.{Library}
use cluster_api_bootstrap_pr.Secret.Store.{Secret}
use cluster_api_bootstrap_pr.Secret.Certificates.{secret_key, secret_name}
use cluster_api_bootstrap_pr.Controller.Environment.{Answers}
use cluster_api_bootstrap_pr.Controller.Reconcile.{
  Services, kubeconfig_created, kubeconfig_step, reconcile_control_plane_kubeconfig,
}

module _ {W : Type 0} (lib : Library) (answers : Answers) (services : Services W)
    (cluster : Cluster) where
  created_fails :
      (e : Error) (r : Option Error × W)
      → (kubeconfig_created lib answers services cluster e r).0 ≢ none
  created_fails e (none, w) = λ h. cc
  created_fails e (some f, w) = elim (Bool-cases (services.is_dependent_certificate_not_found f)) [
    | inl t ↦ rw t (λ h. cc)
    | inr t ↦ rw t (λ h. cc)
  ]

  missing_fails :
      (ccp : CritControlPlane) (e : Error) (w : W)
      → (kubeconfig_step lib answers services cluster ccp (err e) w).0 ≢ none
  missing_fails ccp e w = elim (Bool-cases (is_not_found e)) [
    | inl t ↦ rw t (created_fails e _)
    | inr t ↦ rw t (λ h. cc)
  ]

  step_iff :
      (ccp : CritControlPlane) (r : Result Secret) (w : W)
      → ((kubeconfig_step lib answers services cluster ccp r w).0 ≡ none) ↔ (
          (secret : Secret) × (r ≡ ok secret)
          × ((kubeconfig_step lib answers services cluster ccp r w).1 ≡ w))
  step_iff ccp (ok secret) w = (λ h. (secret, refl, refl), λ h. refl)
  step_iff ccp (err e) w =
      (λ h. absurd (missing_fails ccp e w h), λ (secret, same, left). absurd (cc same))

  -- A call of reconcileControlPlaneKubeconfig reports no error exactly when the Secret
  -- "<cluster>-kubeconfig" in the namespace of the cluster could be read before it, and then it leaves
  -- the store as it was. So a call that creates the Secret always reports an error, also when the
  -- creation succeeded.
  pub reconcile_control_plane_kubeconfig_iff :
      (ccp : CritControlPlane) (w : W)
      → ((reconcile_control_plane_kubeconfig lib answers services cluster ccp w).0 ≡ none) ↔ (
          (secret : Secret) × (services.secrets.get
              (record {
                namespace_of = cluster.namespace_of;
                name = concat cluster.name "-kubeconfig";
              })
              w
            ≡ ok secret)
          × ((reconcile_control_plane_kubeconfig lib answers services cluster ccp w).1 ≡ w))
  unfolding reconcile_control_plane_kubeconfig secret_key secret_name
  reconcile_control_plane_kubeconfig_iff ccp w = step_iff ccp _ w
