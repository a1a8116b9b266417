-- ===== src/Bootstrap/Worker.antt =====
-- controllers/bootstrap/worker.go: the certificates and the files of a worker. strings.HasSuffix is a
-- parameter.
pub mod Public
use cluster_api_bootstrap_pr.Prelude.{
  String, Bool, Option, none, some, List, [], ◌∷◌, ◌++◌, Result, ok, err, Error, panic, wrap,
  if◌then◌else◌, ◌>>=◌, keep,
}
use cluster_api_bootstrap_pr.Api.{File, CritConfigSpec}
use cluster_api_bootstrap_pr.Management.Cluster.{wrapped}
use cluster_api_bootstrap_pr.Secret.Store.{ObjectKey, SecretClient}
use cluster_api_bootstrap_pr.Secret.Certificates.{
  Certificate, Certificates, cluster_ca, get_by_purpose, lookup_certificates, ensure_all_exist,
  new_certificates_for_worker,
}
use cluster_api_bootstrap_pr.Secret.Files.{certificate_files}

abbrev pub all_exist : Certificates → Option Error → Result Certificates
all_exist cs none = ok cs
all_exist cs (some e) = err (wrap "missing certificates" e)

-- reconcileWorkerCertificates
unfoldable pub reconcile_worker_certificates :
    {W : Type 0}
    → SecretClient W
    → ObjectKey
    → (List String → String)
    → String
    → W
    → Result Certificates
reconcile_worker_certificates client cluster join kube_dir w = do
  cs ← wrapped "unable to lookup cluster certificates" (
      lookup_certificates client cluster w
        (new_certificates_for_worker join (join (kube_dir ∷ "pki" ∷ []))))
  all_exist cs (ensure_all_exist cs)

-- AsFiles of what GetByPurpose returns: nil is dereferenced
abbrev pub files_of : Option Certificate → Result (List File)
files_of none = err panic
files_of (some c) = certificate_files c

module _ (has_suffix : String → String → Bool) where
  -- the files of reconcileWorkerCloudConfig: those of the spec, the configuration, and the
  -- certificates of the cluster's CA that the loop keeps
  unfoldable pub worker_files : CritConfigSpec → File → Certificates → Result (List File)
  worker_files spec config_file cs = do
    files ← files_of (get_by_purpose cluster_ca cs)
    ok ((spec.files ++ config_file ∷ []) ++ keep (λ f. has_suffix f.path "crt") files)
