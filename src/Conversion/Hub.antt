-- ===== src/Conversion/Hub.antt =====
-- Resources of version v1alpha2 that are served in version v1alpha1 and written back.
use cluster_api_bootstrap_pr.Prelude.{
  String, Option, none, some, ok, str_eq, >>=-eq-ok, ok_injective, ◌≡◌, refl, sym, ap, subst,
  Bool-cases, inl, inr,
}
use cluster_api_bootstrap_pr.Api.{Ntp, CritConfigSpec, CritConfig}
use cluster_api_bootstrap_pr.Api.V1alpha1
use cluster_api_bootstrap_pr.Conversion.Fields.{
  file_to_v1alpha2, user_to_v1alpha2, optional_ntp_to_v1alpha2, file_to_v1alpha1, user_to_v1alpha1,
  optional_ntp_to_v1alpha1, crit_config_status_to_v1alpha1,
}
use cluster_api_bootstrap_pr.Conversion.Fresh.{
  new_crit_config_spec, new_crit_config, new_v1alpha1_crit_config_spec, new_v1alpha1_crit_config,
}
use cluster_api_bootstrap_pr.Conversion.Codec.{Codec, other}
use cluster_api_bootstrap_pr.Conversion.ToV1alpha2.{
  crit_config_convert_to, config_text, crit_config_spec_to_v1alpha2, crit_config_to_v1alpha2,
}
use cluster_api_bootstrap_pr.Conversion.ToV1alpha1.{
  crit_config_convert_from, with_config, auto_crit_config_spec_to_v1alpha1,
  crit_config_spec_to_v1alpha1, crit_config_to_v1alpha1,
}
use cluster_api_bootstrap_pr.Conversion.RoundTrip.{map-inverse}

ntp-forth : (x : Option Ntp) → optional_ntp_to_v1alpha2 (optional_ntp_to_v1alpha1 x) ≡ x
ntp-forth none = refl
ntp-forth (some x) = refl

module _ {A B C D : Type 0} (codec : Codec A B C D) where
  spec-forth :
      (x z : CritConfigSpec) (y : V1alpha1.CritConfigSpec A B)
      → crit_config_spec_to_v1alpha1 codec x new_v1alpha1_crit_config_spec ≡ ok y
      → crit_config_spec_to_v1alpha2 codec y new_crit_config_spec ≡ ok z
      → record z { config = x.config } ≡ x
  unfolding crit_config_spec_to_v1alpha1 crit_config_spec_to_v1alpha2
  spec-forth x z y h g =
      let (out, read, h') =
        >>=-eq-ok (with_config codec x.config new_v1alpha1_crit_config_spec) _ h in
      let (text, written, g') =
        >>=-eq-ok (config_text codec y.control_plane_configuration y.worker_configuration "") _ g in
      rw (sym (ok_injective _ z g')) (
        rw (sym (ok_injective (auto_crit_config_spec_to_v1alpha1 x out) y h')) (
          rw
            (
              map-inverse file_to_v1alpha1 file_to_v1alpha2 (λ f. refl) x.files,
              map-inverse user_to_v1alpha1 user_to_v1alpha2 (λ u. refl) x.users,
              ntp-forth x.ntp,
            )
            refl))

  no_config :
      (text : String)
      → codec.unmarshal text ≡ ok other
      → with_config codec text new_v1alpha1_crit_config_spec ≡ ok new_v1alpha1_crit_config_spec
  no_config text u = elim (Bool-cases (str_eq text "")) [
    | inl t ↦ rw t refl
    | inr t ↦ rw (t, u) refl
  ]

  -- A CritConfig that is converted by ConvertFrom to v1alpha1 and by ConvertTo back to v1alpha2 differs
  -- from what it was in the text of its configuration at most.
  pub crit_config-forth :
      (x z : CritConfig) (y : V1alpha1.CritConfig A B)
      → crit_config_convert_from codec x new_v1alpha1_crit_config ≡ ok y
      → crit_config_convert_to codec y new_crit_config ≡ ok z
      → record z { spec = record z.spec { config = x.spec.config } } ≡ x
  unfolding crit_config_to_v1alpha1 crit_config_to_v1alpha2
  crit_config-forth x z y h g =
      let (s, there, h') =
        >>=-eq-ok (crit_config_spec_to_v1alpha1 codec x.spec new_v1alpha1_crit_config_spec) _ h in
      let (s', back, g') =
        >>=-eq-ok (crit_config_spec_to_v1alpha2 codec y.spec new_crit_config_spec) _ g in
      let e = ap (λ (c : V1alpha1.CritConfig A B). c.spec) (sym (ok_injective _ y h')) in
      let back' =
        subst (λ v. crit_config_spec_to_v1alpha2 codec v new_crit_config_spec ≡ ok s') e back in
      rw (sym (ok_injective _ z g'), sym (ok_injective _ y h'))
        (rw (spec-forth x.spec s' s there back') refl)

  -- When crit's YAML reads the text of a configuration as another kind than that of a control plane or
  -- a worker, which the reconciler refuses with an error, ConvertFrom drops it: it returns no error,
  -- ConvertTo returns none either, and the CritConfig has no configuration after it.
  pub other_config-lost :
      (x : CritConfig)
      → codec.unmarshal x.spec.config ≡ ok other
      → (y : V1alpha1.CritConfig A B) × (z : CritConfig) × (crit_config_convert_from codec x
            new_v1alpha1_crit_config
          ≡ ok y)
        × (crit_config_convert_to codec y new_crit_config ≡ ok z)
        × (z.spec.config ≡ "")
  unfolding crit_config_to_v1alpha1 crit_config_to_v1alpha2 crit_config_spec_to_v1alpha1
      crit_config_spec_to_v1alpha2
  other_config-lost x u =
      let y : V1alpha1.CritConfig A B = record {
        name = x.name;
        namespace_of = x.namespace_of;
        uid = x.uid;
        labels = x.labels;
        owner_references = x.owner_references;
        spec = auto_crit_config_spec_to_v1alpha1 x.spec new_v1alpha1_crit_config_spec;
        status = crit_config_status_to_v1alpha1 x.status;
      } in
      let there : crit_config_convert_from codec x new_v1alpha1_crit_config ≡ ok y =
        rw (no_config x.spec.config u) refl in
      (y, _, there, refl, refl)
