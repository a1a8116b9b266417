-- ===== src/Secret/Stored.antt =====
-- What Lookup, Generate and SaveGenerated each leave behind: key pairs that the store holds.
use Prim.Native.String.{◌++◌ as concat}
use text.Mathlib.TextLemmas.{append_cancel_left}
use mathlib.Core.Path.{ap₂}
use cluster_api_bootstrap_pr.Prelude.{
  >>=-eq-ok, true, false, none, some, [], ◌∷◌, Result, ok, err, ◌≡◌, ◌≢◌, refl, sym, ap, ◌∙◌, arith,
  is_not_found, str_eq, if◌then◌else◌, ◌>>=◌, All, map, inl, inr, ◌⊎◌, subst,
}
use cluster_api_bootstrap_pr.Prelude.Dict.{lookup}
use cluster_api_bootstrap_pr.Api.{OwnerReference}
use cluster_api_bootstrap_pr.Secret.Store.{ObjectKey, Secret, SecretClient}
use cluster_api_bootstrap_pr.Secret.Certificates.{
  Purpose, KeyPair, Certificate, Certificates, secret_name, secret_key, secret_to_key_pair,
  as_secret, lookup_certificate, lookup_certificates, generate_certificate, generate,
  apiserver_etcd_client, service_account,
}

-- Reading back the Secret of a certificate gives its key pair.
pub secret_to_key_pair-as_secret :
    (cluster : ObjectKey) (owner : OwnerReference) (c : Certificate) (kp : KeyPair)
    → secret_to_key_pair (as_secret cluster owner c kp) ≡ ok kp
unfolding secret_to_key_pair as_secret lookup
secret_to_key_pair-as_secret cluster owner c kp = refl

pub secret_key_injective :
    (cluster : ObjectKey) (p q : Purpose) → secret_key cluster p ≡ secret_key cluster q → p ≡ q
unfolding secret_key secret_name
secret_key_injective cluster p q e = append_cancel_left "-" p q (
    append_cancel_left cluster.name (concat "-" p) (concat "-" q)
      (ap (λ (k : ObjectKey). k.name) e))

-- No two certificates have the same purpose.
abbrev pub IsDistinct : Certificates → Type 0
IsDistinct [] = Unit
IsDistinct (c ∷ cs) = All (λ (d : Certificate). d.purpose ≢ c.purpose) cs × IsDistinct cs

-- The certificate before Lookup and Generate have filled it in.
abbrev pub reset : Certificate → Certificate
reset c = record c { key_pair = none; generated = false }

-- The certificate as Lookup alone fills it in.
abbrev pub settled : Certificate → Certificate
settled c = record c { generated = false }

module _ {W : Type 0} (client : SecretClient W) (cluster : ObjectKey) where
  -- The store holds the certificate's key pair.
  abbrev pub IsStored : W → Certificate → Type 0
  IsStored w c =
      (kp : KeyPair) × (s : Secret) × (c.key_pair ≡ some kp)
      × (client.get (secret_key cluster c.purpose) w ≡ ok s)
      × (secret_to_key_pair s ≡ ok kp)

  -- The certificate is still to be saved, or the store holds it.
  abbrev pub IsReady : W → Certificate → Type 0
  IsReady w c =
      ((kp : KeyPair) × (c.key_pair ≡ some kp) × (c.generated ≡ true))
      ⊎ ((c.generated ≡ false) × IsStored w c)

  -- A certificate as the constructors make it, of a purpose that Generate serves.
  abbrev pub IsFresh : Certificate → Type 0
  IsFresh c =
      (c.generated ≡ false) × (c.key_pair ≡ none) × (str_eq c.purpose apiserver_etcd_client ≡ false)

  lookup_certificate_lem :
      (w : W) (c c' : Certificate)
      → IsFresh c
      → lookup_certificate client cluster w c ≡ ok c'
      → (c' ≡ c) ⊎ ((reset c' ≡ c) × (c'.generated ≡ false) × IsStored w c')
  unfolding lookup_certificate
  lookup_certificate_lem w c c' f h =
      from_reply (client.get (secret_key cluster c.purpose) w) refl h
    where
      from_reply :
          (r : Result Secret)
          → client.get (secret_key cluster c.purpose) w ≡ r
          → elim r [
            | err e ↦ if is_not_found e then ok c else err e
            | ok s ↦ (do kp ← secret_to_key_pair s; ok (record c { key_pair = some kp }))
          ]
            ≡ ok c'
          → (c' ≡ c) ⊎ ((reset c' ≡ c) × (c'.generated ≡ false) × IsStored w c')
      from_reply (err e) p q = inl (ground arith)
      from_reply (ok s) p q =
          let (kp, decoded, made) = >>=-eq-ok (secret_to_key_pair s) _ q in
          inr (ground arith, ground arith, (kp, s, (ground arith), (ground arith), decoded))

-- Inversion of the loops of Lookup and Generate.
pub cons-eq-ok :
    (m : Result Certificate) (n : Result Certificates) (l : Certificates)
    → (do c ← m; cs ← n; ok (c ∷ cs)) ≡ ok l
    → (c : Certificate) × (cs : Certificates) × (m ≡ ok c) × (n ≡ ok cs) × (l ≡ c ∷ cs)
cons-eq-ok (ok c) (ok cs) l h = (c, cs, refl, refl, (ground arith))
cons-eq-ok (ok c) (err e) l h = cc
cons-eq-ok (err e) n l h = cc

module _ {W : Type 0} (client : SecretClient W) (cluster : ObjectKey)
    (ca_cert service_account_keys : Purpose → Result KeyPair) (w : W) where
  abbrev made_for : Purpose → Result KeyPair
  made_for p = if str_eq p service_account then service_account_keys p else ca_cert p

  generate_fresh :
      (c c'' : Certificate)
      → IsFresh client cluster c
      → generate_certificate ca_cert service_account_keys c ≡ ok c''
      → (reset c'' ≡ c) × IsReady client cluster w c''
  unfolding generate_certificate
  generate_fresh c c'' (g, k, p) h =
      let h' : (made_for c.purpose >>= λ kp. ok (record c { key_pair = some kp; generated = true }))
          ≡ ok c'' =
        (ground arith) in
      let (kp, _, made) = >>=-eq-ok (made_for c.purpose) _ h' in
      (ground arith, inl (kp, (ground arith), (ground arith)))

  -- What one round of Generate makes of what one round of Lookup left.
  generate_certificate_lem :
      (c c' c'' : Certificate)
      → IsFresh client cluster c
      → (c' ≡ c) ⊎ ((reset c' ≡ c) × (c'.generated ≡ false) × IsStored client cluster w c')
      → generate_certificate ca_cert service_account_keys c' ≡ ok c''
      → (reset c'' ≡ c) × IsReady client cluster w c''
  unfolding generate_certificate
  generate_certificate_lem c c' c'' f (inl e) h =
      generate_fresh c c'' f (ap (generate_certificate ca_cert service_account_keys) (sym e) ∙ h)
  generate_certificate_lem c c' c'' f (inr (r, g, (kp, s, k, st, d))) h =
      let same : c' ≡ c'' = (ground arith) in
      subst (λ x. (reset x ≡ c) × IsReady client cluster w x) same (r, inr (g, (kp, s, k, st, d)))

  -- After Lookup and Generate every certificate has a key pair, which is in the store already or is
  -- marked to be saved.
  pub filled :
      (cs cs' cs'' : Certificates)
      → All (IsFresh client cluster) cs
      → lookup_certificates client cluster w cs ≡ ok cs'
      → generate ca_cert service_account_keys cs' ≡ ok cs''
      → (map reset cs'' ≡ cs) × All (IsReady client cluster w) cs''
  unfolding lookup_certificates generate
  filled [] cs' cs'' f p q =
      let e : [] ≡ cs' = (ground arith) in
      let q' = subst (λ l. generate ca_cert service_account_keys l ≡ ok cs'') (sym e) q in
      let e' : [] ≡ cs'' = (ground arith) in
      subst (λ l. (map reset l ≡ []) × All (IsReady client cluster w) l) e' (refl, tt)
  filled (c ∷ cs) cs' cs'' f p q =
      let (c₁, cs₁, looked, looked_on, e₁) =
        cons-eq-ok (lookup_certificate client cluster w c) (lookup_certificates client cluster w cs)
          cs' p in
      let q' = subst (λ l. generate ca_cert service_account_keys l ≡ ok cs'') e₁ q in
      let (c₂, cs₂, made, made_on, e₂) =
        cons-eq-ok (generate_certificate ca_cert service_account_keys c₁)
          (generate ca_cert service_account_keys cs₁) cs'' q' in
      let first =
        generate_certificate_lem c c₁ c₂ f.0
          (lookup_certificate_lem client cluster w c c₁ f.0 looked) made in
      let rest = filled cs cs₁ cs₂ f.1 looked_on made_on in
      subst (λ l. (map reset l ≡ c ∷ cs) × All (IsReady client cluster w) l) (sym e₂)
        (ap₂ ◌∷◌ first.0 rest.0, (first.1, rest.1))
