-- ===== src/Secret/Saved.antt =====
-- What SaveGenerated leaves in the store.
use mathlib.Core.Option.{none-ne-some}
use cluster_api_bootstrap_pr.Prelude.{
  true, false, Option, none, some, [], ◌∷◌, ok, Error, ◌≡◌, ◌≢◌, refl, sym, ap, ◌∙◌, arith,
  if◌then◌else◌, All, inl, inr, Bool-cases, subst,
}
use cluster_api_bootstrap_pr.Api.{OwnerReference}
use cluster_api_bootstrap_pr.Secret.Store.{ObjectKey, SecretClient}
use cluster_api_bootstrap_pr.Secret.Certificates.{
  Purpose, KeyPair, Certificate, Certificates, secret_key, as_secret, save_certificate, save_pair,
  save_generated, next,
}
use cluster_api_bootstrap_pr.Secret.Stored.{
  secret_to_key_pair-as_secret, secret_key_injective, IsDistinct, IsStored, IsReady,
}

module _ {W : Type 0} (client : SecretClient W) (cluster : ObjectKey) (owner : OwnerReference) where
  -- A successful save of a generated certificate is a successful creation.
  save_certificate_lem :
      (c : Certificate) (kp : KeyPair) (w w' : W)
      → c.key_pair ≡ some kp
      → save_certificate client cluster owner c w ≡ (none, w')
      → client.create (as_secret cluster owner c kp) w ≡ (none, w')
  unfolding save_certificate
  save_certificate_lem c kp w w' k h = ground arith

  -- A saved certificate is stored.
  save_certificate-IsStored :
      (c : Certificate) (kp : KeyPair) (w w' : W)
      → c.key_pair ≡ some kp
      → save_certificate client cluster owner c w ≡ (none, w')
      → IsStored client cluster w' c
  unfolding as_secret
  save_certificate-IsStored c kp w w' k h =
      let s = as_secret cluster owner c kp in
      let made = save_certificate_lem c kp w w' k h in
      let read = client.get_created s w (ap (λ x. x.0) made) in
      (
        kp,
        s,
        k,
        subst (λ x. client.get s.key x ≡ ok s) (ap (λ x. x.1) made) read,
        secret_to_key_pair-as_secret cluster owner c kp,
      )

  save_certificate_other :
      (c : Certificate) (p : Purpose) (w : W)
      → c.purpose ≢ p
      → client.get (secret_key cluster p) (save_certificate client cluster owner c w).1
        ≡ client.get (secret_key cluster p) w
  unfolding save_certificate as_secret
  save_certificate_other c p w h = from_pair c.key_pair
    where
      from_pair :
          (o : Option KeyPair)
          → client.get (secret_key cluster p) (save_pair client cluster owner c o w).1
            ≡ client.get (secret_key cluster p) w
      from_pair none = refl
      from_pair (some kp) =
          client.get_other (as_secret cluster owner c kp) w (secret_key cluster p)
            (λ e. h (sym (secret_key_injective cluster p c.purpose e)))

  next_other :
      (k : ObjectKey) (w : W) (r : Option Error × W) (rest : W → Option Error × W)
      → client.get k r.1 ≡ client.get k w
      → ((v : W) → client.get k (rest v).1 ≡ client.get k v)
      → client.get k (next client cluster owner r rest).1 ≡ client.get k w
  next_other k w (none, v) rest e f = f v ∙ e
  next_other k w (some x, v) rest e f = e

  save_generated-true :
      (c : Certificate) (cs : Certificates) (w : W)
      → c.generated ≡ true
      → save_generated client cluster owner (c ∷ cs) w
        ≡ next client cluster owner
            (save_certificate client cluster owner c w)
            (save_generated client cluster owner cs)
  unfolding save_generated
  save_generated-true c cs w g =
      ap
        (λ b.
          if b
          then next client cluster owner (save_certificate client cluster owner c w)
              (save_generated client cluster owner cs)
          else save_generated client cluster owner cs w)
        g

  save_generated-false :
      (c : Certificate) (cs : Certificates) (w : W)
      → c.generated ≡ false
      → save_generated client cluster owner (c ∷ cs) w ≡ save_generated client cluster owner cs w
  unfolding save_generated
  save_generated-false c cs w g =
      ap
        (λ b.
          if b
          then next client cluster owner (save_certificate client cluster owner c w)
              (save_generated client cluster owner cs)
          else save_generated client cluster owner cs w)
        g

  -- Saving certificates leaves the Secrets of other purposes as they are.
  save_generated_other :
      (cs : Certificates) (p : Purpose) (w : W)
      → All (λ (d : Certificate). d.purpose ≢ p) cs
      → client.get (secret_key cluster p) (save_generated client cluster owner cs w).1
        ≡ client.get (secret_key cluster p) w
  unfolding save_generated
  save_generated_other [] p w h = refl
  save_generated_other (c ∷ cs) p w h = elim (Bool-cases c.generated) [
    | inl g ↦ rw (save_generated-true c cs w g) (
        next_other (secret_key cluster p) w (save_certificate client cluster owner c w)
          (save_generated client cluster owner cs) (save_certificate_other c p w h.0)
          (λ v. save_generated_other cs p v h.1))
    | inr g ↦ rw (save_generated-false c cs w g) (save_generated_other cs p w h.1)
  ]

  next-eq-none :
      (r : Option Error × W) (rest : W → Option Error × W) (w' : W)
      → next client cluster owner r rest ≡ (none, w')
      → (v : W) × (r ≡ (none, v)) × (rest v ≡ (none, w'))
  next-eq-none (none, v) rest w' h = (v, refl, h)
  next-eq-none (some e, v) rest w' h = absurd (none-ne-some e (sym (ap (λ x. x.0) h)))

  move :
      (w w' : W) (c : Certificate)
      → client.get (secret_key cluster c.purpose) w' ≡ client.get (secret_key cluster c.purpose) w
      → IsStored client cluster w c
      → IsStored client cluster w' c
  move w w' c e (kp, s, k, read, decoded) = (kp, s, k, e ∙ read, decoded)

  still-IsReady :
      (c : Certificate) (w v : W) (cs : Certificates)
      → save_certificate client cluster owner c w ≡ (none, v)
      → All (λ (d : Certificate). d.purpose ≢ c.purpose) cs
      → All (IsReady client cluster w) cs
      → All (IsReady client cluster v) cs
  still-IsReady c w v [] e d r = tt
  still-IsReady c w v (x ∷ cs) e d (inl new, r) = (inl new, still-IsReady c w v cs e d.1 r)
  still-IsReady c w v (x ∷ cs) e d (inr (g, old), r) =
      let same = save_certificate_other c x.purpose w (λ q. d.0 (sym q)) in
      let same' =
        subst
          (λ y.
            client.get (secret_key cluster x.purpose) y.1
            ≡ client.get (secret_key cluster x.purpose) w)
          e same in
      (inr (g, move w v x same' old), still-IsReady c w v cs e d.1 r)

  -- When SaveGenerated returns no error, the store holds every certificate's key pair.
  pub All-IsStored :
      (cs : Certificates) (w w' : W)
      → IsDistinct cs
      → All (IsReady client cluster w) cs
      → save_generated client cluster owner cs w ≡ (none, w')
      → All (IsStored client cluster w') cs
  unfolding save_generated
  All-IsStored [] w w' d r h = tt
  All-IsStored (c ∷ cs) w w' d (inl (kp, k, g), r) h =
      let h' = sym (save_generated-true c cs w g) ∙ h in
      let (v, made, rest) =
        next-eq-none (save_certificate client cluster owner c w)
          (save_generated client cluster owner cs) w' h' in
      let stored = save_certificate-IsStored c kp w v k made in
      let kept = save_generated_other cs c.purpose v d.0 in
      let kept' =
        subst
          (λ y.
            client.get (secret_key cluster c.purpose) y.1
            ≡ client.get (secret_key cluster c.purpose) v)
          rest kept in
      (move v w' c kept' stored, All-IsStored cs v w' d.1 (still-IsReady c w v cs made d.0 r) rest)
  All-IsStored (c ∷ cs) w w' d (inr (g, stored), r) h =
      let rest = sym (save_generated-false c cs w g) ∙ h in
      let kept = save_generated_other cs c.purpose w d.0 in
      let kept' =
        subst
          (λ y.
            client.get (secret_key cluster c.purpose) y.1
            ≡ client.get (secret_key cluster c.purpose) w)
          rest kept in
      (move w w' c kept' stored, All-IsStored cs w w' d.1 r rest)
