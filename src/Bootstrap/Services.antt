-- ===== src/Bootstrap/Services.antt =====
-- What the reconciler of CritConfig resources takes from other code, and what a round of it leaves.
use cluster_api_bootstrap_pr.Prelude.{
  ℕ, String, Bool, false, none, some, List, Result, Error, requeue_cause,
}
use cluster_api_bootstrap_pr.Api.{Endpoint, CritConfig, Cluster}
use cluster_api_bootstrap_pr.Controller.Environment.{CtrlResult, Outcome, no_requeue}
use cluster_api_bootstrap_pr.Conversion.Codec.{Decoded}
use cluster_api_bootstrap_pr.Secret.Store.{ObjectKey, SecretClient}
use cluster_api_bootstrap_pr.Secret.Certificates.{Purpose, KeyPair}
use cluster_api_bootstrap_pr.Bootstrap.Defaults.{WorkerConfiguration, ControlPlaneConfiguration}
use cluster_api_bootstrap_pr.Bootstrap.Token.{TokenClient, BootstrapApi}

-- `W` is the state of the management cluster's Secrets and `V` that of the workload cluster's.
-- `marshal_worker`, `marshal_control_plane` and `unmarshal` are crit's configutil, `join` is
-- filepath.Join, `join_blocks` strings.Join with an empty separator, `split` strings.Split at
-- newlines, `quote` printf "%q", `version` the text of the API's group version, `expiration` the
-- time a token expires at.
pub record Services (W V : Type 0) : Type 0 where
  pub is_zero : Endpoint → Bool
  pub crit_is_zero : Endpoint → Bool
  pub marshal_worker : WorkerConfiguration → Result String
  pub marshal_control_plane : ControlPlaneConfiguration → Result String
  pub unmarshal : String → Result (Decoded ControlPlaneConfiguration WorkerConfiguration)
  pub join : List String → String
  pub join_blocks : List String → String
  pub has_suffix : String → String → Bool
  pub base64 : String → String
  pub split : String → List String
  pub quote : String → String
  pub version : String
  pub client : SecretClient W
  pub ca_cert : Purpose → Result KeyPair
  pub service_account_keys : Purpose → Result KeyPair
  pub remote_client : ObjectKey → Result (TokenClient V)
  pub token_api : BootstrapApi
  pub generate_token : Result String
  pub expiration : String

-- util.ObjectKey
abbrev pub cluster_key : Cluster → ObjectKey
cluster_key cluster = record { namespace_of = cluster.namespace_of; name = cluster.name }

-- what a round returns, the CritConfig as it is left, and the two clusters
pub record Round (W V : Type 0) : Type 0 where
  pub outcome : Outcome
  pub config : CritConfig
  pub store : W
  pub remote : V

abbrev pub after_seconds : ℕ → CtrlResult
after_seconds t = record { requeue = false; requeue_after = t }

-- `errors.Cause(err).(capierrors.HasRequeueAfterError)`
abbrev pub requeued : Error → Outcome
requeued e = elim (requeue_cause e) [
  | none ↦ (no_requeue, some e)
  | some t ↦ (after_seconds t, none)
]
