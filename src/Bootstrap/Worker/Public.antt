-- ===== src/Bootstrap/Worker/Public.antt =====
-- A worker gets the certificate of the cluster's CA and never its key.
use cluster_api_bootstrap_pr.Prelude.{
  String, Bool, true, false, some, List, [], ◌∷◌, ◌++◌, ok, ◌≡◌, refl, sym, Result-cases,
  ok_injective, Bool-cases, inl, inr, keep, is_not_found, str_eq,
}
use cluster_api_bootstrap_pr.Api.{File, CritConfigSpec}
use cluster_api_bootstrap_pr.Secret.Store.{ObjectKey, Secret, SecretClient}
use cluster_api_bootstrap_pr.Secret.Certificates.{
  KeyPair, Certificate, Certificates, cluster_ca, get_by_purpose, lookup_certificates,
  lookup_certificate, ensure_all_exist, new_certificates_for_worker, secret_key, secret_to_key_pair,
}
use cluster_api_bootstrap_pr.Secret.Files.{certificate_files, pair_files, root_owner}
use cluster_api_bootstrap_pr.Bootstrap.Worker.{reconcile_worker_certificates, worker_files}

-- the file of the CA's certificate
abbrev pub ca_file : String → KeyPair → File
ca_file path kp = record {
  path = path;
  owner = root_owner;
  permissions = "0640";
  encoding = "";
  content = kp.cert;
}

-- a certificate whose key pair is known and whose key has no path
kept_files :
    (has_suffix : String → String → Bool) (c : Certificate) (kp : KeyPair)
    → c.key_pair ≡ some kp
    → c.key_file ≡ ""
    → has_suffix "" "crt" ≡ false
    → has_suffix c.cert_file "crt" ≡ true
    → str_eq kp.cert "" ≡ false
    → keep (λ f. has_suffix f.path "crt") (pair_files c kp) ≡ ca_file c.cert_file kp ∷ []
unfolding pair_files
kept_files has_suffix c kp k n none_crt crt some_cert = elim (Bool-cases (str_eq kp.key "")) [
  | inl t ↦ rw (some_cert, t, crt) refl
  | inr t ↦ rw (some_cert, t, crt, n, none_crt) refl
]

module _ {W : Type 0} (client : SecretClient W) (cluster : ObjectKey) (join : List String → String)
    (kube_dir : String) (w : W) where
  abbrev pub ca_path : String
  ca_path = join (join (kube_dir ∷ "pki" ∷ []) ∷ "ca.crt" ∷ [])

  abbrev pub ca_certificate : KeyPair → Certificate
  ca_certificate kp = record {
    generated = false;
    purpose = cluster_ca;
    key_pair = some kp;
    cert_file = ca_path;
    key_file = "";
  }

  -- Success means that the Secret of the CA was read and has a certificate.
  read_ca :
      (cs : Certificates)
      → reconcile_worker_certificates client cluster join kube_dir w ≡ ok cs
      → (s : Secret) × (kp : KeyPair) × (client.get (secret_key cluster cluster_ca) w ≡ ok s)
        × (secret_to_key_pair s ≡ ok kp)
        × (cs ≡ ca_certificate kp ∷ [])
        × (str_eq kp.cert "" ≡ false)
  unfolding reconcile_worker_certificates lookup_certificates lookup_certificate
      new_certificates_for_worker ensure_all_exist
  read_ca cs = elim (Result-cases (client.get (secret_key cluster cluster_ca) w)) [
    | inl (e, q) ↦ elim (Bool-cases (is_not_found e)) [
      | inl t ↦
          rw
            (
              q, t, reconcile_worker_certificates, lookup_certificates, lookup_certificate,
              new_certificates_for_worker, ensure_all_exist,
            )
            (λ h. cc)
      | inr t ↦
          rw
            (
              q, t, reconcile_worker_certificates, lookup_certificates, lookup_certificate,
              new_certificates_for_worker, ensure_all_exist,
            )
            (λ h. cc)
    ]
    | inr (s, q) ↦ elim (Result-cases (secret_to_key_pair s)) [
      | inl (e, r) ↦
          rw
            (
              q, r, reconcile_worker_certificates, lookup_certificates, lookup_certificate,
              new_certificates_for_worker, ensure_all_exist,
            )
            (λ h. cc)
      | inr (kp, r) ↦ elim (Bool-cases (str_eq kp.cert "")) [
        | inl t ↦
            rw
              (
                q, r, t, reconcile_worker_certificates, lookup_certificates, lookup_certificate,
                new_certificates_for_worker, ensure_all_exist,
              )
              (λ h. cc)
        | inr t ↦ elim (Bool-cases (str_eq kp.key "")) [
          | inl u ↦
              rw
                (
                  q, r, t, u, reconcile_worker_certificates, lookup_certificates,
                  lookup_certificate, new_certificates_for_worker, ensure_all_exist,
                )
                (λ h. cc)
          | inr u ↦
              rw
                (
                  q, r, t, u, reconcile_worker_certificates, lookup_certificates,
                  lookup_certificate, new_certificates_for_worker, ensure_all_exist,
                )
                (λ h. (s, kp, refl, r, sym (ok_injective (ca_certificate kp ∷ []) cs h), t))
        ]
      ]
    ]
  ]

-- When reconcileWorkerCertificates succeeds, the files that reconcileWorkerCloudConfig adds to those of
-- the spec and the configuration are one file, with the certificate of the cluster's CA as the
-- management cluster has it: the CA's key is never among them.
pub worker_files_lem :
    {W : Type 0} (client : SecretClient W) (cluster : ObjectKey) (join : List String → String)
    (kube_dir : String) (w : W) (has_suffix : String → String → Bool) (spec : CritConfigSpec)
    (config_file : File) (cs : Certificates)
    → has_suffix "" "crt" ≡ false
    → has_suffix (ca_path client cluster join kube_dir w) "crt" ≡ true
    → reconcile_worker_certificates client cluster join kube_dir w ≡ ok cs
    → (s : Secret) × (kp : KeyPair) × (client.get (secret_key cluster cluster_ca) w ≡ ok s)
      × (secret_to_key_pair s ≡ ok kp)
      × (worker_files has_suffix spec config_file cs
          ≡ ok (
              (spec.files ++ config_file ∷ [])
              ++ ca_file (ca_path client cluster join kube_dir w) kp ∷ []))
unfolding worker_files get_by_purpose certificate_files
worker_files_lem client cluster join kube_dir w has_suffix spec config_file cs none_crt crt h =
    let (s, kp, found, decoded, one, some_cert) = read_ca client cluster join kube_dir w cs h in
    let files =
      kept_files has_suffix (ca_certificate client cluster join kube_dir w kp) kp refl refl none_crt
        crt some_cert in
    (s, kp, found, decoded, rw (one, files) refl)
