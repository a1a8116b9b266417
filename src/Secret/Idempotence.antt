-- ===== src/Secret/Idempotence.antt =====
-- A second LookupOrGenerate finds what the first one left and creates nothing.
use cluster_api_bootstrap_pr.Prelude.{
  String, Option, none, some, List, [], ◌∷◌, Result, ok, err, Error, ◌≡◌, ◌≢◌, refl, sym, ap, arith,
  ◌>>=◌, All, map, subst, str_eq-ne,
}
use cluster_api_bootstrap_pr.Api.{OwnerReference, File}
use cluster_api_bootstrap_pr.Secret.Files.{as_files, HasPair, as_files_total}
use cluster_api_bootstrap_pr.Secret.Store.{ObjectKey, SecretClient}
use cluster_api_bootstrap_pr.Secret.Certificates.{
  Purpose, KeyPair, Certificate, Certificates, lookup_certificate, lookup_certificates,
  generate_certificate, generate, save_generated, lookup_or_generate, saved, generated_then_saved,
  new_certificates_for_control_plane,
}
use cluster_api_bootstrap_pr.Secret.Stored.{IsDistinct, reset, settled, IsStored, IsFresh, filled}
use cluster_api_bootstrap_pr.Secret.Saved.{All-IsStored}

module _ {W : Type 0} (client : SecretClient W) (cluster : ObjectKey) (w : W) where
  lookup_stored :
      (c : Certificate)
      → IsStored client cluster w c
      → lookup_certificate client cluster w (reset c) ≡ ok (settled c)
  unfolding lookup_certificate
  lookup_stored c (kp, s, k, read, decoded) =
      rw (read, lookup_certificate) (rw decoded (ground arith))

  lookup-All_stored :
      (cs : Certificates)
      → All (IsStored client cluster w) cs
      → lookup_certificates client cluster w (map reset cs) ≡ ok (map settled cs)
  unfolding lookup_certificates
  lookup-All_stored [] h = refl
  lookup-All_stored (c ∷ cs) h = rw (lookup_stored c h.0, lookup-All_stored cs h.1)

  generate_stored :
      (ca_cert service_account_keys : Purpose → Result KeyPair) (cs : Certificates)
      → All (IsStored client cluster w) cs
      → generate ca_cert service_account_keys (map settled cs) ≡ ok (map settled cs)
  unfolding generate generate_certificate
  generate_stored ca sa [] h = refl
  generate_stored ca sa (c ∷ cs) ((kp, s, k, read, decoded), h) =
      ground (arith, generate_stored ca sa cs h)

  save_settled :
      (owner : OwnerReference) (cs : Certificates)
      → save_generated client cluster owner (map settled cs) w ≡ (none, w)
  unfolding save_generated
  save_settled owner [] = refl
  save_settled owner (c ∷ cs) = save_settled owner cs

-- Distinct purposes stay distinct.
IsDistinct-reset : (cs : Certificates) → IsDistinct (map reset cs) → IsDistinct cs
IsDistinct-reset [] d = tt
IsDistinct-reset (c ∷ cs) d = (others cs d.0, IsDistinct-reset cs d.1)
  where
    others :
        (l : Certificates)
        → All (λ (x : Certificate). x.purpose ≢ c.purpose) (map reset l)
        → All (λ (x : Certificate). x.purpose ≢ c.purpose) l
    others [] h = tt
    others (x ∷ l) h = (h.0, others l h.1)

module _ {W : Type 0} (client : SecretClient W) (cluster : ObjectKey) (owner : OwnerReference)
    (ca_cert service_account_keys : Purpose → Result KeyPair) where
  -- The steps of a LookupOrGenerate that succeeds.
  steps :
      (cs cs' : Certificates) (w w' : W)
      → lookup_or_generate client cluster owner ca_cert service_account_keys cs w ≡ (ok cs', w')
      → (found : Certificates) × (lookup_certificates client cluster w cs ≡ ok found)
        × (generate ca_cert service_account_keys found ≡ ok cs')
        × (save_generated client cluster owner cs' w ≡ (none, w'))
  unfolding lookup_or_generate
  steps cs cs' w w' h = from_lookup (lookup_certificates client cluster w cs) refl h
    where
      from_save :
          (l : Certificates) (r : Option Error × W)
          → saved client cluster owner l r ≡ (ok cs', w')
          → (l ≡ cs') × (r ≡ (none, w'))
      from_save l (none, v) e = (ground arith, ground arith)
      from_save l (some x, v) e = absurd (ground arith)

      from_generate :
          (g : Result Certificates)
          → generated_then_saved client cluster owner g w ≡ (ok cs', w')
          → (g ≡ ok cs') × (save_generated client cluster owner cs' w ≡ (none, w'))
      from_generate (err e) q = absurd (ground arith)
      from_generate (ok l) q =
          let (same, done) = from_save l (save_generated client cluster owner l w) q in
          (ap ok same, subst (λ x. save_generated client cluster owner x w ≡ (none, w')) same done)

      from_lookup :
          (f : Result Certificates)
          → lookup_certificates client cluster w cs ≡ f
          → generated_then_saved client cluster owner
              (f >>= generate ca_cert service_account_keys)
              w
            ≡ (ok cs', w')
          → (found : Certificates) × (lookup_certificates client cluster w cs ≡ ok found)
            × (generate ca_cert service_account_keys found ≡ ok cs')
            × (save_generated client cluster owner cs' w ≡ (none, w'))
      from_lookup (err e) p q = absurd (ground arith)
      from_lookup (ok l) p q =
          let (made, done) = from_generate (generate ca_cert service_account_keys l) q in
          (l, p, made, done)

  -- Of fresh certificates with distinct purposes: what was returned is in the store, and a second
  -- run returns it again and writes nothing.
  pub again :
      (cs cs' : Certificates) (w w' : W)
      → All (IsFresh client cluster) cs
      → IsDistinct cs
      → lookup_or_generate client cluster owner ca_cert service_account_keys cs w ≡ (ok cs', w')
      → All (IsStored client cluster w') cs'
        × (lookup_or_generate client cluster owner ca_cert service_account_keys cs w'
            ≡ (ok (map settled cs'), w'))
  unfolding lookup_or_generate
  again cs cs' w w' f d h =
      let (found, looked, made, done) = steps cs cs' w w' h in
      let (same, ready) =
        filled client cluster ca_cert service_account_keys w cs found cs' f looked made in
      let d' = IsDistinct-reset cs' (subst IsDistinct (sym same) d) in
      let stored = All-IsStored client cluster owner cs' w w' d' ready done in
      let second = lookup-All_stored client cluster w' cs' stored in
      (
        stored,
        rw (
          ← same,
          second,
          generate_stored client cluster w' ca_cert service_account_keys cs' stored,
          save_settled client cluster w' owner cs',
        ),
      )

HasPair-of_IsStored :
    {W : Type 0} (client : SecretClient W) (cluster : ObjectKey) (w : W) (cs : Certificates)
    → All (IsStored client cluster w) cs
    → All HasPair cs
HasPair-of_IsStored client cluster w [] h = tt
HasPair-of_IsStored client cluster w (c ∷ cs) ((kp, s, k, read, decoded), h) =
    ((kp, k), HasPair-of_IsStored client cluster w cs h)

module _ {W : Type 0} (client : SecretClient W) (cluster : ObjectKey) (join : List String → String)
    (dir : String) where
  abbrev fresh : Certificates
  fresh = new_certificates_for_control_plane join dir

  fresh-IsFresh : All (IsFresh client cluster) fresh
  unfolding new_certificates_for_control_plane
  fresh-IsFresh = (
    (refl, refl, refl),
    ((refl, refl, refl), ((refl, refl, refl), ((refl, refl, refl), ((refl, refl, refl), tt)))),
  )

  fresh-IsDistinct : IsDistinct fresh
  unfolding new_certificates_for_control_plane
  fresh-IsDistinct = (
    (str_eq-ne _ _ refl, (str_eq-ne _ _ refl, (str_eq-ne _ _ refl, (str_eq-ne _ _ refl, tt)))),
    (
      (str_eq-ne _ _ refl, (str_eq-ne _ _ refl, (str_eq-ne _ _ refl, tt))),
      ((str_eq-ne _ _ refl, (str_eq-ne _ _ refl, tt)), ((str_eq-ne _ _ refl, tt), (tt, tt))),
    ),
  )

-- When LookupOrGenerate of a control plane's certificates succeeds, each certificate's key pair can
-- be read back from its Secret, AsFiles writes the files with no nil dereference, and a second
-- LookupOrGenerate returns the same key pairs, none of them generated, and changes nothing.
pub lookup_or_generate_again :
    {W : Type 0} (client : SecretClient W) (cluster : ObjectKey) (owner : OwnerReference)
    (ca_cert service_account_keys : Purpose → Result KeyPair) (join : List String → String)
    (dir : String) (cs : Certificates) (w w' : W)
    → lookup_or_generate client cluster owner ca_cert service_account_keys
        (new_certificates_for_control_plane join dir)
        w
      ≡ (ok cs, w')
    → All (IsStored client cluster w') cs
      × ((files : List File) × (as_files cs ≡ ok files))
      × (lookup_or_generate client cluster owner ca_cert service_account_keys
            (new_certificates_for_control_plane join dir)
            w'
          ≡ (ok (map settled cs), w'))
lookup_or_generate_again client cluster owner ca_cert service_account_keys join dir cs w w' h =
    let (stored, second) =
      again client cluster owner ca_cert service_account_keys (fresh client cluster join dir) cs w
        w' (fresh-IsFresh client cluster join dir) (fresh-IsDistinct client cluster join dir) h in
    (stored, as_files_total cs (HasPair-of_IsStored client cluster w' cs stored), second)
