-- ===== src/Secret/Certificates.antt =====
-- internal/secret/certificates.go, consts.go and secret.go. Key pairs are made by the parameters
-- `ca_cert` and `service_account_keys`, indexed by the purpose since each call makes its own; paths
-- are joined by filepath.Join, the parameter `join`.
use Prim.Native.String.{◌++◌ as concat}
use cluster_api_bootstrap_pr.Prelude.{
  String, Bool, true, false, Option, none, some, List, [], ◌∷◌, Result, ok, err, Error, panic,
  errorf, wrap, is_not_found, str_eq, if◌then◌else◌, ◌>>=◌,
}
use cluster_api_bootstrap_pr.Prelude.Dict.{lookup}
use cluster_api_bootstrap_pr.Api.{OwnerReference}
use cluster_api_bootstrap_pr.Machines.Filters.{cluster_label_name}
use cluster_api_bootstrap_pr.Secret.Store.{ObjectKey, Secret, SecretClient}

-- the purposes of consts.go
abbrev pub Purpose : Type 0
Purpose = String

abbrev pub kubeconfig : Purpose
kubeconfig = "kubeconfig"

abbrev pub cluster_ca : Purpose
cluster_ca = "ca"

abbrev pub etcd_ca : Purpose
etcd_ca = "etcd"

abbrev pub service_account : Purpose
service_account = "sa"

abbrev pub front_proxy_ca : Purpose
front_proxy_ca = "proxy"

abbrev pub auth_proxy_ca : Purpose
auth_proxy_ca = "auth-proxy"

abbrev pub apiserver_etcd_client : Purpose
apiserver_etcd_client = "apiserver-etcd-client"

abbrev pub tls_key_data_name : String
tls_key_data_name = "tls.key"

abbrev pub tls_crt_data_name : String
tls_crt_data_name = "tls.crt"

-- certs.KeyPair
pub record KeyPair : Type 0 where
  pub cert : String
  pub key : String

pub record Certificate : Type 0 where
  pub generated : Bool
  pub purpose : Purpose
  pub key_pair : Option KeyPair
  pub cert_file : String
  pub key_file : String

abbrev pub Certificates : Type 0
Certificates = List Certificate

abbrev pub new_certificate : Purpose → String → String → Certificate
new_certificate purpose cert_file key_file = record {
  generated = false;
  purpose = purpose;
  key_pair = none;
  cert_file = cert_file;
  key_file = key_file;
}

unfoldable pub new_certificates_for_control_plane : (List String → String) → String → Certificates
new_certificates_for_control_plane join dir =
    new_certificate cluster_ca (join (dir ∷ "ca.crt" ∷ [])) (join (dir ∷ "ca.key" ∷ []))
    ∷ new_certificate service_account (join (dir ∷ "sa.pub" ∷ [])) (join (dir ∷ "sa.key" ∷ []))
    ∷ new_certificate front_proxy_ca (join (dir ∷ "front-proxy-ca.crt" ∷ []))
        (join (dir ∷ "front-proxy-ca.key" ∷ []))
    ∷ new_certificate auth_proxy_ca (join (dir ∷ "auth-proxy-ca.crt" ∷ []))
        (join (dir ∷ "auth-proxy-ca.key" ∷ []))
    ∷ new_certificate etcd_ca (join (dir ∷ "etcd" ∷ "ca.crt" ∷ []))
        (join (dir ∷ "etcd" ∷ "ca.key" ∷ []))
    ∷ []

unfoldable pub new_certificates_for_worker : (List String → String) → String → Certificates
new_certificates_for_worker join dir =
    new_certificate cluster_ca (join (dir ∷ "ca.crt" ∷ [])) "" ∷ []

-- Name of secret.go: "%s-%s"
unfoldable pub secret_name : String → Purpose → String
secret_name cluster suffix = concat cluster (concat "-" suffix)

unfoldable pub secret_key : ObjectKey → Purpose → ObjectKey
secret_key cluster purpose = record {
  namespace_of = cluster.namespace_of;
  name = secret_name cluster.name purpose;
}

unfoldable pub get_by_purpose : Purpose → Certificates → Option Certificate
get_by_purpose purpose [] = none
get_by_purpose purpose (c ∷ cs) =
    if str_eq c.purpose purpose then some c else get_by_purpose purpose cs

-- secretToKeyPair: the certificate must be there, a missing key is empty
unfoldable pub secret_to_key_pair : Secret → Result KeyPair
unfolding lookup
secret_to_key_pair s = elim (lookup tls_crt_data_name s.content) [
  | none ↦ err (errorf "missing data for key tls.crt")
  | some c ↦ elim (lookup tls_key_data_name s.content) [
    | none ↦ ok (record { cert = c; key = "" })
    | some k ↦ ok (record { cert = c; key = k })
  ]
]

-- AsSecret, at the key pair that it dereferences
unfoldable pub as_secret : ObjectKey → OwnerReference → Certificate → KeyPair → Secret
as_secret cluster owner c kp = record {
  key = secret_key cluster c.purpose;
  labels = (cluster_label_name, cluster.name) ∷ [];
  owner_references = if c.generated then owner ∷ [] else [];
  type_of = "";
  content = (tls_key_data_name, kp.key) ∷ (tls_crt_data_name, kp.cert) ∷ [];
}

-- EnsureAllExist
unfoldable pub ensure_all_exist : Certificates → Option Error
ensure_all_exist [] = none
ensure_all_exist (c ∷ cs) = elim c.key_pair [
  | none ↦ some (errorf "missing certificate")
  | some kp ↦
      if str_eq kp.cert ""
      then some (wrap "for certificate" (errorf "missing crt data"))
      else if str_eq kp.key ""
      then some (wrap "for certificate" (errorf "missing key data"))
      else ensure_all_exist cs
]

module _ {W : Type 0} (client : SecretClient W) (cluster : ObjectKey) where
  -- one round of the loop of Lookup
  unfoldable pub lookup_certificate : W → Certificate → Result Certificate
  lookup_certificate w c = elim (client.get (secret_key cluster c.purpose) w) [
    | err e ↦ if is_not_found e then ok c else err e
    | ok s ↦ (do kp ← secret_to_key_pair s; ok (record c { key_pair = some kp }))
  ]

  -- Lookup
  unfoldable pub lookup_certificates : W → Certificates → Result Certificates
  lookup_certificates w [] = ok []
  lookup_certificates w (c ∷ cs) = do
    c' ← lookup_certificate w c
    cs' ← lookup_certificates w cs
    ok (c' ∷ cs')

module _ (ca_cert service_account_keys : Purpose → Result KeyPair) where
  -- one round of the loop of Generate
  unfoldable pub generate_certificate : Certificate → Result Certificate
  generate_certificate c = elim c.key_pair [
    | some kp ↦ ok c
    | none ↦ if str_eq c.purpose apiserver_etcd_client then ok c else (do
      kp ←
          if str_eq c.purpose service_account
          then service_account_keys c.purpose
          else ca_cert c.purpose
      ok (record c { key_pair = some kp; generated = true }))
  ]

  -- Generate
  unfoldable pub generate : Certificates → Result Certificates
  generate [] = ok []
  generate (c ∷ cs) = do c' ← generate_certificate c; cs' ← generate cs; ok (c' ∷ cs')

module _ {W : Type 0} (client : SecretClient W) (cluster : ObjectKey) (owner : OwnerReference) where
  abbrev pub save_pair : Certificate → Option KeyPair → W → Option Error × W
  save_pair c none w = (some panic, w)
  save_pair c (some kp) w = client.create (as_secret cluster owner c kp) w

  -- the body of the loop of SaveGenerated for a generated certificate
  unfoldable pub save_certificate : Certificate → W → Option Error × W
  save_certificate c w = save_pair c c.key_pair w

  abbrev pub next : Option Error × W → (W → Option Error × W) → Option Error × W
  next (none, w) rest = rest w
  next (some e, w) rest = (some e, w)

  -- SaveGenerated stops at the first error.
  unfoldable pub save_generated : Certificates → W → Option Error × W
  save_generated [] w = (none, w)
  save_generated (c ∷ cs) w =
      if c.generated then next (save_certificate c w) (save_generated cs) else save_generated cs w

  abbrev pub saved : Certificates → Option Error × W → Result Certificates × W
  saved cs (none, w) = (ok cs, w)
  saved cs (some e, w) = (err e, w)

  abbrev pub generated_then_saved : Result Certificates → W → Result Certificates × W
  generated_then_saved (ok cs) w = saved cs (save_generated cs w)
  generated_then_saved (err e) w = (err e, w)

  -- LookupOrGenerate, with the certificates that it leaves in place of the method's receiver
  unfoldable pub lookup_or_generate :
      (ca_cert service_account_keys : Purpose → Result KeyPair)
      → Certificates
      → W
      → Result Certificates × W
  lookup_or_generate ca_cert service_account_keys cs w =
      generated_then_saved
        (do
          found ← lookup_certificates client cluster w cs
          generate ca_cert service_account_keys found)
        w
