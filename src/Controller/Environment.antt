-- ===== src/Controller/Environment.antt =====
-- What the reconciler of control planes meets: the calls that it makes, in order, and the answers
-- that the API server and the libraries give, which may depend on all the calls made before.
use cluster_api_bootstrap_pr.Prelude.{
  ℕ, String, Bool, false, true, Option, List, [], ◌∷◌, ◌++◌, Result, Error,
}
use cluster_api_bootstrap_pr.Api.{Machine, ObjectReference, OwnerReference, CritConfig}

-- the calls that write, and TargetClusterControlPlaneIsHealthy, whose answer may change from one
-- call to the next: the reconciler makes it through the interface ManagementCluster, of which
-- Management/Cluster models the implementation
pub data Call : Type 0 where
  check_health : Call
  delete_machine create_machine update_machine : Machine → Call
  clone_template : ObjectReference → Call
  create_config : CritConfig → Call
  delete_reference : ObjectReference → Call
  patch_template : ObjectReference → List OwnerReference → Call

-- the calls so far, the first one first
abbrev pub Trace : Type 0
Trace = List Call

abbrev pub then_call : Trace → Call → Trace
then_call tr call = tr ++ call ∷ []

-- The answers. external.CloneTemplate returns the reference of the clone, Create of a CritConfig
-- the uid that the server chose.
pub record Answers : Type 0 where
  pub health : Trace → Option Error
  pub delete_machine : Trace → Machine → Option Error
  pub create_machine : Trace → Machine → Option Error
  pub update_machine : Trace → Machine → Option Error
  pub clone_template : Trace → ObjectReference → Result ObjectReference
  pub create_config : Trace → CritConfig → Result String
  pub delete_reference : Trace → ObjectReference → Option Error
  -- names.SimpleNameGenerator.GenerateName
  pub generate_name : Trace → String → String
  -- metav1.GetControllerOf
  pub controller_of : Machine → Option OwnerReference
  -- the group versions of the two APIs, as text
  pub control_plane_version : String
  pub bootstrap_version : String

-- ctrl.Result, the time in seconds
pub record CtrlResult : Type 0 where
  pub requeue : Bool
  pub requeue_after : ℕ

abbrev pub no_requeue : CtrlResult
no_requeue = record { requeue = false; requeue_after = 0 }

abbrev pub requeue_now : CtrlResult
requeue_now = record { requeue = true; requeue_after = 0 }

-- what a reconciling function returns
abbrev pub Outcome : Type 0
Outcome = CtrlResult × Option Error

-- deleteRequeueAfter and healthCheckFailedRequeueAfter
abbrev pub delete_requeue_after : ℕ
delete_requeue_after = 30

abbrev pub health_check_failed_requeue_after : ℕ
health_check_failed_requeue_after = 20

-- DependentCertRequeueAfter
abbrev pub dependent_cert_requeue_after : ℕ
dependent_cert_requeue_after = 30
