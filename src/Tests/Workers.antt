-- ===== src/Tests/Workers.antt =====
-- The theorems on rounds of the bootstrap reconciler, at concrete inputs.
use cluster_api_bootstrap_pr.Prelude.{
  String, Bool, true, false, none, some, List, [], ◌∷◌, Result, ok, err, panic, str_eq, eq_iff,
  if◌then◌else◌, ◌&&◌, ◌==◌, ◌≡◌, ◌≢◌, ◌⊎◌, ◌↔◌, refl, sym, ap, arith, Bool-cases, inl, inr,
  ok_injective, Memᴰ,
}
use cluster_api_bootstrap_pr.Prelude.Dict.{lookup}
use cluster_api_bootstrap_pr.Api.{Cluster, Machine, ObjectReference}
use cluster_api_bootstrap_pr.Controller.Environment.{no_requeue}
use cluster_api_bootstrap_pr.Conversion.Codec.{Decoded, worker as worker_object, other}
use cluster_api_bootstrap_pr.Secret.Store.{ObjectKey, Secret}
use cluster_api_bootstrap_pr.Secret.Certificates.{
  cluster_ca, secret_key, secret_name, secret_to_key_pair, lookup_certificates, lookup_certificate,
  ensure_all_exist, new_certificates_for_worker, get_by_purpose,
}
use cluster_api_bootstrap_pr.Secret.Files.{certificate_files, pair_files}
use cluster_api_bootstrap_pr.Bootstrap.Defaults.{
  WorkerConfiguration, ControlPlaneConfiguration, set_config, default_worker,
  reconcile_worker_cluster_configuration,
}
use cluster_api_bootstrap_pr.Bootstrap.Store.{bootstrap_secret, store_bootstrap_data}
use cluster_api_bootstrap_pr.Bootstrap.Worker.{reconcile_worker_certificates, worker_files}
use cluster_api_bootstrap_pr.Bootstrap.Token.{
  TokenClient, BootstrapApi, token_key, token_secret, create_token, refresh_token,
}
use cluster_api_bootstrap_pr.Bootstrap.Token.Fresh.{refreshed, refresh_token-create_token}
use cluster_api_bootstrap_pr.Bootstrap.Services.{Services, Round, cluster_key}
use cluster_api_bootstrap_pr.Bootstrap.CloudConfig.{reconcile_worker_cloud_config}
use cluster_api_bootstrap_pr.Bootstrap.Round.{
  TokenState, reconcile_worker_bootstrap_token, reconcile_worker,
}
use cluster_api_bootstrap_pr.Bootstrap.Round.Tokens.{
  IsWritten, IsCreated, IsSettled, reconcile_worker_bootstrap_token_lem,
}
use cluster_api_bootstrap_pr.Bootstrap.Round.Settled.{reconcile_worker-settled}
use cluster_api_bootstrap_pr.Bootstrap.Round.Again.{consumed}
use cluster_api_bootstrap_pr.Bootstrap.Dispatch.{ConfigRequests, reconcile_config}
use cluster_api_bootstrap_pr.Bootstrap.Dispatch.Guarded.{IsGuarded, reconcile_config-IsGuarded}
use cluster_api_bootstrap_pr.Bootstrap.Requests.{
  group, machine_to_bootstrap, cluster_to_crit_configs,
}
use cluster_api_bootstrap_pr.Bootstrap.Requests.Listed.{
  RefersTo, request, cluster_to_crit_configs-Memᴰ, machine_to_bootstrap-missed,
}
use cluster_api_bootstrap_pr.Tests.Samples.{cluster, m1}
use cluster_api_bootstrap_pr.Tests.Stores.{store, add_again}
use cluster_api_bootstrap_pr.Tests.Bootstraps.{
  owner, worker, defaulted_worker, is_zero, config, has_suffix, join, ca_secret, bootstrap_version,
}

abbrev running : Cluster
running = record cluster { control_plane_initialized = true }

abbrev token_worker : WorkerConfiguration
token_worker = record defaulted_worker { bootstrap_token = "abcdef.0123" }

abbrev same_worker : WorkerConfiguration → WorkerConfiguration → Bool
same_worker a b =
    str_eq a.control_plane_endpoint.host b.control_plane_endpoint.host
    && (a.control_plane_endpoint.port == b.control_plane_endpoint.port)
    && str_eq a.cluster_name b.cluster_name
    && str_eq a.kube_dir b.kube_dir
    && str_eq a.cluster_domain b.cluster_domain
    && str_eq a.kubernetes_version b.kubernetes_version
    && str_eq a.bootstrap_token b.bootstrap_token

same_worker-eq : (a b : WorkerConfiguration) → same_worker a b ≡ true → a ≡ b
same_worker-eq a b h =
    let h₀ : a.control_plane_endpoint.host ≡ b.control_plane_endpoint.host =
      (ground (arith, eq_iff a.control_plane_endpoint.host b.control_plane_endpoint.host)) in
    let h₁ : a.control_plane_endpoint.port ≡ b.control_plane_endpoint.port = (ground arith) in
    let h₂ : a.cluster_name ≡ b.cluster_name =
      (ground (arith, eq_iff a.cluster_name b.cluster_name)) in
    let h₃ : a.kube_dir ≡ b.kube_dir = (ground (arith, eq_iff a.kube_dir b.kube_dir)) in
    let h₄ : a.cluster_domain ≡ b.cluster_domain =
      (ground (arith, eq_iff a.cluster_domain b.cluster_domain)) in
    let h₅ : a.kubernetes_version ≡ b.kubernetes_version =
      (ground (arith, eq_iff a.kubernetes_version b.kubernetes_version)) in
    let h₆ : a.bootstrap_token ≡ b.bootstrap_token =
      (ground (arith, eq_iff a.bootstrap_token b.bootstrap_token)) in
    λ i. record {
      control_plane_endpoint = record { host = h₀ i; port = h₁ i };
      cluster_name = h₂ i;
      kube_dir = h₃ i;
      cluster_domain = h₄ i;
      kubernetes_version = h₅ i;
      bootstrap_token = h₆ i;
    }

-- two configurations that have a YAML
abbrev marshal : WorkerConfiguration → Result String
marshal c =
    if same_worker c defaulted_worker
    then ok "no token"
    else if same_worker c token_worker
    then ok "token"
    else err panic

abbrev unmarshal : String → Result (Decoded ControlPlaneConfiguration WorkerConfiguration)
unmarshal text =
    if str_eq text "no token"
    then ok (worker_object defaulted_worker)
    else if str_eq text "token"
    then ok (worker_object token_worker)
    else ok other

reads_back :
    (c : WorkerConfiguration) (text : String)
    → marshal c ≡ ok text
    → unmarshal text ≡ ok (worker_object c)
reads_back c text = elim (Bool-cases (same_worker c defaulted_worker)) [
  | inl t ↦ rw t (λ h.
      rw (sym (ok_injective "no token" text h))
        (ap (λ x. ok (worker_object x)) (sym (same_worker-eq c defaulted_worker t))))
  | inr t ↦ elim (Bool-cases (same_worker c token_worker)) [
    | inl u ↦
        rw (t, u)
          (λ h.
            rw (sym (ok_injective "token" text h))
              (ap (λ x. ok (worker_object x)) (sym (same_worker-eq c token_worker u))))
    | inr u ↦ rw (t, u) (λ h. cc)
  ]
]

abbrev api : BootstrapApi
api = record {
  find_submatch = λ t. some ("abcdef", "0123");
  secret_name = λ id. "bootstrap-token";
  namespace_system = "kube-system";
  secret_type = "bootstrap.kubernetes.io/token";
  id_key = "token-id";
  secret_key = "token-secret";
  expiration_key = "expiration";
  usage_signing_key = "usage-bootstrap-signing";
  usage_authentication = "usage-bootstrap-authentication";
  extra_groups_key = "auth-extra-groups";
  description_key = "description";
}

abbrev token_client : TokenClient (List Secret)
token_client = record { secrets = store; update = λ s v. (none, s ∷ v) }

abbrev pub services : Services (List Secret) (List Secret)
services = record {
  is_zero = is_zero;
  crit_is_zero = is_zero;
  marshal_worker = marshal;
  marshal_control_plane = λ c. err panic;
  unmarshal = unmarshal;
  join = join;
  join_blocks = join;
  has_suffix = has_suffix;
  base64 = λ text. text;
  split = λ text. text ∷ [];
  quote = λ text. text;
  version = bootstrap_version;
  client = store;
  ca_cert = λ p. err panic;
  service_account_keys = λ p. err panic;
  remote_client = λ k. ok token_client;
  token_api = api;
  generate_token = ok "abcdef.0123";
  expiration = "12:15";
}

abbrev waiting : TokenState (List Secret)
waiting = record { cfg = defaulted_worker; spec = config.spec; remote = [] }

abbrev joined : TokenState (List Secret)
joined = record {
  cfg = token_worker;
  spec = record config.spec { config = "token" };
  remote = token_secret api "12:15" "abcdef" "0123" ∷ [];
}

token_made : reconcile_worker_bootstrap_token services owner running false waiting ≡ (none, joined)
unfolding reconcile_worker_bootstrap_token create_token set_config
token_made = refl

reconcile_worker_bootstrap_token_lem_example :
    ((false ≡ true) × (joined ≡ waiting) × IsSettled services owner running waiting)
    ⊎ ((false ≡ false)
        × IsWritten services owner running waiting joined
        × (((str_eq waiting.cfg.bootstrap_token "" ≡ false)
              × (joined.cfg ≡ waiting.cfg)
              × (joined.remote ≡ waiting.remote))
            ⊎ IsCreated services owner running waiting joined))
reconcile_worker_bootstrap_token_lem_example =
    reconcile_worker_bootstrap_token_lem services owner running false waiting joined token_made

token_stored :
    create_token api token_client (ok "abcdef.0123") "12:15" []
    ≡ (ok "abcdef.0123", token_secret api "12:15" "abcdef" "0123" ∷ [])
unfolding create_token
token_stored = refl

refresh_token-create_token_example :
    (id : String) × (secret : String) × (let s = token_secret api "12:15" id secret in
      (api.find_submatch "abcdef.0123" ≡ some (id, secret))
      × (store.get (token_key api id) (token_secret api "12:15" "abcdef" "0123" ∷ []) ≡ ok s)
      × (refresh_token api token_client "abcdef.0123" "12:30"
            (token_secret api "12:15" "abcdef" "0123" ∷ [])
          ≡ token_client.update
              (refreshed api token_client "12:30" s)
              (token_secret api "12:15" "abcdef" "0123" ∷ []))
      × ((k : String)
          → lookup k (refreshed api token_client "12:30" s).content
            ≡ (if str_eq "expiration" k then some "12:30" else lookup k s.content)))
refresh_token-create_token_example =
    refresh_token-create_token api token_client (ok "abcdef.0123") "abcdef.0123" "12:15" "12:30" []
      (token_secret api "12:15" "abcdef" "0123" ∷ []) token_stored

abbrev round : Round (List Secret) (List Secret)
round = reconcile_worker services owner running config worker (ca_secret ∷ []) []

abbrev ca_key : ObjectKey
ca_key = secret_key (cluster_key running) cluster_ca

names_differ : ca_key ≢ record { namespace_of = "default"; name = "w-1" }
unfolding secret_key secret_name
names_differ = λ e. absurd (cc (ap (λ (k : ObjectKey). str_eq k.name "w-1") e))

became_ready : round.config.status.ready ≡ true
unfolding reconcile_worker reconcile_worker_cluster_configuration default_worker set_config
    reconcile_worker_bootstrap_token create_token reconcile_worker_certificates lookup_certificates
    lookup_certificate new_certificates_for_worker ensure_all_exist secret_key secret_name
    secret_to_key_pair lookup reconcile_worker_cloud_config worker_files get_by_purpose
    certificate_files pair_files store_bootstrap_data bootstrap_secret
became_ready = refl

reconcile_worker-settled_example :
    (cfg' : WorkerConfiguration) × (unmarshal round.config.spec.config ≡ ok (worker_object cfg'))
    × (round.outcome ≡ (no_requeue, none))
    × (reconcile_worker services (consumed owner) running round.config cfg' round.store round.remote
        ≡ round)
reconcile_worker-settled_example =
    reconcile_worker-settled services owner running (λ e. refl) add_again config worker
      (ca_secret ∷ []) [] round reads_back names_differ refl refl became_ready

abbrev requests : ConfigRequests
requests = record {
  get = ok (record config { spec = record config.spec { config = "no token" } });
  config_owner = λ c. ok (some owner);
  cluster = λ namespace_of name. ok running;
  is_no_cluster = λ e. false;
  new_patch_helper = λ c. none;
  patch = λ c. none;
}

reconcile_config-IsGuarded_example :
    IsGuarded services requests
      (ca_secret ∷ [])
      []
      (reconcile_config services requests (ca_secret ∷ []) [])
reconcile_config-IsGuarded_example =
    reconcile_config-IsGuarded services requests (ca_secret ∷ []) []

abbrev parse : String → String × String
parse api_version = if str_eq api_version "old" then (group, "v1alpha1") else (group, "v1alpha2")

abbrev old_ref : ObjectReference
old_ref = record {
  api_version = "old";
  kind = "CritConfig";
  namespace_of = "default";
  name = "w-1";
  uid = "9";
}

abbrev old_machine : Machine
old_machine = record m1 { config_ref = some old_ref }

abbrev list : String → String → Result (List Machine)
list namespace_of name = ok (old_machine ∷ [])

cluster_to_crit_configs-Memᴰ_example :
    Memᴰ
      (request old_machine.namespace_of old_ref)
      (cluster_to_crit_configs parse list (some cluster))
    ↔ ((m : Machine) × Memᴰ m (old_machine ∷ [])
        × RefersTo parse m (request old_machine.namespace_of old_ref))
cluster_to_crit_configs-Memᴰ_example =
    cluster_to_crit_configs-Memᴰ parse list cluster (old_machine ∷ [])
      (request old_machine.namespace_of old_ref) refl

machine_to_bootstrap-missed_example :
    (machine_to_bootstrap parse (some old_machine) ≡ [])
    × Memᴰ
        (request old_machine.namespace_of old_ref)
        (cluster_to_crit_configs parse list (some cluster))
machine_to_bootstrap-missed_example =
    machine_to_bootstrap-missed parse list cluster (old_machine ∷ []) old_machine old_ref refl
      (Memᴰ.head refl) refl refl refl
