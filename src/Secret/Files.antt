-- ===== src/Secret/Files.antt =====
-- AsFiles of internal/secret/certificates.go: the files that a node gets. Reading the key pair of a
-- certificate that has none is a nil dereference, the error `panic`.
use cluster_api_bootstrap_pr.Prelude.{
  String, Option, none, some, List, [], ◌∷◌, ◌++◌, Result, ok, err, panic, str_eq, if◌then◌else◌,
  ◌>>=◌, ◌≡◌, refl, All, Bool-cases, inl, inr, arith,
}
use cluster_api_bootstrap_pr.Api.{File}
use cluster_api_bootstrap_pr.Secret.Certificates.{
  Purpose, KeyPair, Certificate, Certificates, get_by_purpose, cluster_ca, etcd_ca, front_proxy_ca,
  service_account, apiserver_etcd_client,
}

-- rootOwnerValue
abbrev pub root_owner : String
root_owner = "root:root"

unfoldable pub pair_files : Certificate → KeyPair → List File
pair_files c kp =
    (if str_eq kp.cert ""
      then []
      else record {
        path = c.cert_file;
        owner = root_owner;
        permissions = "0640";
        encoding = "";
        content = kp.cert;
      }
        ∷ [])
    ++ (if str_eq kp.key ""
        then []
        else record {
          path = c.key_file;
          owner = root_owner;
          permissions = "0600";
          encoding = "";
          content = kp.key;
        }
          ∷ [])

-- AsFiles of one certificate
unfoldable pub certificate_files : Certificate → Result (List File)
certificate_files c = elim c.key_pair [ none ↦ err panic | some kp ↦ ok (pair_files c kp) ]

abbrev pub optional_files : Option Certificate → Result (List File)
optional_files none = ok []
optional_files (some c) = certificate_files c

-- AsFiles of the certificates
unfoldable pub as_files : Certificates → Result (List File)
as_files cs = do
  cluster ← optional_files (get_by_purpose cluster_ca cs)
  etcd ← optional_files (get_by_purpose etcd_ca cs)
  front_proxy ← optional_files (get_by_purpose front_proxy_ca cs)
  service ← optional_files (get_by_purpose service_account cs)
  client ← optional_files (get_by_purpose apiserver_etcd_client cs)
  ok (cluster ++ (etcd ++ (front_proxy ++ (service ++ client))))

abbrev pub HasPair : Certificate → Type 0
HasPair c = (kp : KeyPair) × (c.key_pair ≡ some kp)

optional_files_lem :
    (p : Purpose) (cs : Certificates)
    → All HasPair cs
    → (fs : List File) × (optional_files (get_by_purpose p cs) ≡ ok fs)
unfolding get_by_purpose certificate_files
optional_files_lem p [] h = ([], refl)
optional_files_lem p (c ∷ cs) ((kp, k), h) = elim (Bool-cases (str_eq c.purpose p)) [
  | inl t ↦ (pair_files c kp, ground arith)
  | inr t ↦ let (fs, e) = optional_files_lem p cs h in (fs, ground arith)
]

-- Certificates that all have key pairs are written without a nil dereference.
pub as_files_total : (cs : Certificates) → All HasPair cs → (fs : List File) × (as_files cs ≡ ok fs)
unfolding as_files
as_files_total cs h =
    let (a, ea) = optional_files_lem cluster_ca cs h in
    let (b, eb) = optional_files_lem etcd_ca cs h in
    let (c, ec) = optional_files_lem front_proxy_ca cs h in
    let (d, ed) = optional_files_lem service_account cs h in
    let (e, ee) = optional_files_lem apiserver_etcd_client cs h in
    (a ++ (b ++ (c ++ (d ++ e))), rw (ea, eb, ec, ed, ee))
