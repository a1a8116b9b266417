-- ===== src/Controller/Reconcile.antt =====
-- controllers/controlplane/controlplane.go. Cluster API's external, patch and kubeconfig packages, Go's
-- standard library and the secrets' store are parameters.
pub mod Kubeconfig
pub mod Deletions
use cluster_api_bootstrap_pr.Prelude.{
  ℕ, String, Bool, true, false, not, Option, none, some, List, [], ◌∷◌, Result, ok, err, Error,
  requeue_after, wrap, is_not_found, if◌then◌else◌, length, is_empty, ◌==◌,
}
use cluster_api_bootstrap_pr.Api.{
  Machine, Cluster, Endpoint, CritControlPlane, ObjectReference, OwnerReference,
}
use cluster_api_bootstrap_pr.Machines.Filters.{owned_control_plane_machines}
use cluster_api_bootstrap_pr.Machines.Collection.{Collection}
use cluster_api_bootstrap_pr.ControlPlane.{ControlPlane, machines_needing_upgrade}
use cluster_api_bootstrap_pr.ControlPlane.Interface.{Library}
use cluster_api_bootstrap_pr.Secret.Store.{ObjectKey, Secret, SecretClient}
use cluster_api_bootstrap_pr.Secret.Certificates.{
  Purpose, KeyPair, Certificates, kubeconfig, secret_key, new_certificates_for_control_plane,
  lookup_or_generate,
}
use cluster_api_bootstrap_pr.Management.Cluster.{get_machines_for_cluster}
use cluster_api_bootstrap_pr.Controller.Environment.{
  Call, Trace, then_call, Answers, Outcome, no_requeue, dependent_cert_requeue_after,
}
use cluster_api_bootstrap_pr.Controller.Deletion.{finalizer}
use cluster_api_bootstrap_pr.Controller.Ownership.{Owned, controller_reference, ensure_ownership}
use cluster_api_bootstrap_pr.Controller.Scaling.{upgrade_control_plane, initialize}

-- What reconcileControlPlane takes from other packages; `W` is the state of the Secrets.
pub record Services (W : Type 0) : Type 0 where
  pub secrets : SecretClient W
  pub ca_cert : Purpose → Result KeyPair
  pub service_account_keys : Purpose → Result KeyPair
  -- external.TemplateSuffix
  pub template_suffix : String
  -- filepath.Join and strings.HasSuffix
  pub join : List String → String
  pub has_suffix : String → String → Bool
  -- external.Get (the owner references of the object), patch.NewHelper, util.EnsureOwnerRef and Patch
  pub get_external : Trace → ObjectReference → Result (List OwnerReference)
  pub new_helper : Trace → ObjectReference → Option Error
  pub ensure_owner_ref : List OwnerReference → OwnerReference → List OwnerReference
  pub patch_external : Trace → ObjectReference → Option Error
  -- clusterv1.GroupVersion.String()
  pub cluster_version : String
  -- kubeconfig.CreateSecretWithOwner and ErrDependentCertificateNotFound
  pub create_kubeconfig : ObjectKey → String → OwnerReference → W → Option Error × W
  pub is_dependent_certificate_not_found : Error → Bool
  pub endpoint_is_zero : Endpoint → Bool
  pub endpoint_string : Endpoint → String
  -- controllerutil.AddFinalizer
  pub add_finalizer : String → List String → List String
  -- the machines of the cluster, and the nodes that GetWorkloadCluster and ClusterStatus count
  pub listed : Trace → Result (List Machine)
  pub cluster_nodes : Trace → Result ℕ

-- What one round leaves.
pub record Round (W : Type 0) : Type 0 where
  pub ccp : CritControlPlane
  pub store : W
  pub trace : Trace
  pub outcome : Outcome

abbrev pub object_key : Cluster → ObjectKey
object_key cluster = record { namespace_of = cluster.namespace_of; name = cluster.name }

module _ {W : Type 0} (lib : Library) (answers : Answers) (services : Services W)
    (cluster : Cluster) where
  abbrev pub cluster_reference : OwnerReference
  cluster_reference = record {
    api_version = services.cluster_version;
    kind = "Cluster";
    name = cluster.name;
    uid = cluster.uid;
    controller = false;
  }

  abbrev pub patch_step :
      ObjectReference → List OwnerReference → Option Error → Trace → Option Error × Trace
  patch_step ref owners (some e) tr = (some e, tr)
  patch_step ref owners none tr = (
    services.patch_external tr ref,
    then_call tr (Call.patch_template ref (services.ensure_owner_ref owners cluster_reference)),
  )

  abbrev pub external_step :
      ObjectReference → Result (List OwnerReference) → Trace → Option Error × Trace
  external_step ref (err e) tr = (some e, tr)
  external_step ref (ok owners) tr = patch_step ref owners (services.new_helper tr ref) tr

  -- reconcileExternalReference
  unfoldable pub reconcile_external_reference : ObjectReference → Trace → Option Error × Trace
  reconcile_external_reference ref tr =
      if not (services.has_suffix ref.kind services.template_suffix)
      then (none, tr)
      else external_step ref (services.get_external tr ref) tr

  -- the end of reconcileControlPlaneKubeconfig when the Secret was not found, with the error `e`
  abbrev pub kubeconfig_created : Error → Option Error × W → Option Error × W
  kubeconfig_created e (some f, w) =
      if services.is_dependent_certificate_not_found f
      then (
        some (wrap "could not find secret, requeuing" (requeue_after dependent_cert_requeue_after)),
        w,
      )
      else (some f, w)
  kubeconfig_created e (none, w) = (some (wrap "failed to retrieve Kubeconfig Secret" e), w)

  abbrev pub kubeconfig_step : CritControlPlane → Result Secret → W → Option Error × W
  kubeconfig_step ccp (ok secret) w = (none, w)
  kubeconfig_step ccp (err e) w =
      if is_not_found e
      then kubeconfig_created e (
          services.create_kubeconfig (object_key cluster)
            (services.endpoint_string cluster.control_plane_endpoint)
            (controller_reference answers ccp) w)
      else (some (wrap "failed to retrieve Kubeconfig Secret" e), w)

  -- reconcileControlPlaneKubeconfig
  unfoldable pub reconcile_control_plane_kubeconfig : CritControlPlane → W → Option Error × W
  reconcile_control_plane_kubeconfig ccp w =
      kubeconfig_step ccp (services.secrets.get (secret_key (object_key cluster) kubeconfig) w) w

  -- the end of reconcileControlPlane, when the machines are owned
  unfoldable pub decide : ControlPlane → Trace → Outcome × Trace
  decide c tr =
      if not (is_empty (machines_needing_upgrade lib c))
      then upgrade_control_plane lib answers c (services.cluster_nodes tr) tr
      else if length c.machines == c.ccp.spec.replicas
      then ((no_requeue, none), tr)
      else if length c.machines == 0
      then initialize lib answers c tr
      else ((no_requeue, none), tr)

  abbrev pub stop : CritControlPlane → W → Outcome × Trace → Round W
  stop ccp w (outcome, tr) = record { ccp = ccp; store = w; trace = tr; outcome = outcome }

  abbrev pub owned_step : CritControlPlane → W → Owned → Round W
  owned_step ccp w (some e, s, tr) = stop ccp w ((no_requeue, some e), tr)
  owned_step ccp w (none, s, tr) =
      stop ccp w (decide (record { ccp = ccp; cluster = cluster; machines = s }) tr)

  abbrev pub listed_step : CritControlPlane → W → Trace → Result Collection → Round W
  listed_step ccp w tr (err e) = stop ccp w ((no_requeue, some e), tr)
  listed_step ccp w tr (ok owned) = owned_step ccp w (ensure_ownership answers ccp owned tr)

  abbrev pub kube_step : CritControlPlane → Trace → Option Error × W → Round W
  kube_step ccp tr (some e, w) = stop ccp w ((no_requeue, some e), tr)
  kube_step ccp tr (none, w) =
      listed_step ccp w tr
        (get_machines_for_cluster (services.listed tr) (owned_control_plane_machines ccp.name ∷ []))

  abbrev pub certificates_step : CritControlPlane → Trace → Result Certificates × W → Round W
  certificates_step ccp tr (err e, w) = stop ccp w ((no_requeue, some e), tr)
  certificates_step ccp tr (ok cs, w) =
      if services.endpoint_is_zero cluster.control_plane_endpoint
      then stop ccp w ((no_requeue, none), tr)
      else kube_step ccp tr (reconcile_control_plane_kubeconfig ccp w)

  abbrev pub reference_step : CritControlPlane → String → W → Option Error × Trace → Round W
  reference_step ccp kube_dir w (some e, tr) = stop ccp w ((no_requeue, some e), tr)
  reference_step ccp kube_dir w (none, tr) = certificates_step ccp tr (
      lookup_or_generate services.secrets (object_key cluster) (controller_reference answers ccp)
        services.ca_cert services.service_account_keys
        (new_certificates_for_control_plane services.join (services.join (kube_dir ∷ "pki" ∷ [])))
        w)

  abbrev pub with_finalizer : CritControlPlane → CritControlPlane
  with_finalizer ccp = record ccp { finalizers = services.add_finalizer finalizer ccp.finalizers }

  -- reconcileControlPlane, with cfg.NodeConfiguration.KubeDir
  unfoldable pub reconcile_control_plane : CritControlPlane → String → W → Trace → Round W
  reconcile_control_plane ccp kube_dir w tr =
      reference_step (with_finalizer ccp) kube_dir w
        (reconcile_external_reference ccp.spec.infrastructure_template tr)
