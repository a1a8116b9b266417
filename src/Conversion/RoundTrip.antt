-- ===== src/Conversion/RoundTrip.antt =====
-- Resources of version v1alpha1 survive the conversion to v1alpha2 and back.
use cluster_api_bootstrap_pr.Prelude.{
  String, Option, none, some, List, [], ◌∷◌, map, ok, >>=-eq-ok, ok_injective, ◌≡◌, refl, sym,
}
use cluster_api_bootstrap_pr.Api.{
  CritConfigSpec, CritConfig, CritConfigList, CritConfigTemplateResource, CritConfigTemplateSpec,
  CritControlPlaneSpec, CritConfigTemplate, CritConfigTemplateList, CritControlPlane,
  CritControlPlaneList,
}
use cluster_api_bootstrap_pr.Api.V1alpha1
use cluster_api_bootstrap_pr.Conversion.Fields.{
  file_to_v1alpha2, user_to_v1alpha2, optional_ntp_to_v1alpha2, file_to_v1alpha1, user_to_v1alpha1,
  optional_ntp_to_v1alpha1,
}
use cluster_api_bootstrap_pr.Conversion.Fresh.{
  new_crit_config_spec, new_crit_config, new_crit_config_template, new_crit_control_plane,
  new_v1alpha1_crit_config_spec, new_v1alpha1_crit_config, new_v1alpha1_crit_config_template,
  new_v1alpha1_crit_control_plane,
}
use cluster_api_bootstrap_pr.Conversion.Codec.{Codec, IsLossless, convert_items, convert_items-back}
use cluster_api_bootstrap_pr.Conversion.ToV1alpha2.{
  crit_config_convert_to, config_text, crit_config_spec_to_v1alpha2, crit_config_to_v1alpha2,
  crit_config_list_to_v1alpha2, crit_config_template_resource_to_v1alpha2,
  crit_config_template_spec_to_v1alpha2, crit_config_template_to_v1alpha2,
  crit_config_template_list_to_v1alpha2, crit_control_plane_spec_to_v1alpha2,
  crit_control_plane_to_v1alpha2, crit_control_plane_list_to_v1alpha2,
}
use cluster_api_bootstrap_pr.Conversion.ToV1alpha1.{
  crit_config_convert_from, with_config, crit_config_spec_to_v1alpha1, crit_config_to_v1alpha1,
  crit_config_list_to_v1alpha1, crit_config_template_resource_to_v1alpha1,
  crit_config_template_spec_to_v1alpha1, crit_config_template_to_v1alpha1,
  crit_config_template_list_to_v1alpha1, crit_control_plane_spec_to_v1alpha1,
  crit_control_plane_to_v1alpha1, crit_control_plane_list_to_v1alpha1,
}

pub map-inverse :
    {A B : Type 0} (f : A → B) (g : B → A)
    → ((x : A) → g (f x) ≡ x)
    → (xs : List A) → map g (map f xs) ≡ xs
map-inverse f g back [] = refl
map-inverse f g back (x ∷ xs) = rw (back x, map-inverse f g back xs) refl

ntp-back : (x : Option V1alpha1.Ntp) → optional_ntp_to_v1alpha1 (optional_ntp_to_v1alpha2 x) ≡ x
ntp-back none = refl
ntp-back (some x) = refl

module _ {A B : Type 0} where
  -- Of two configurations the one for workers is not converted.
  abbrev pub converted_worker : Option A → Option B → Option B
  converted_worker (some a) b = none
  converted_worker none b = b

  abbrev pub converted_spec : V1alpha1.CritConfigSpec A B → V1alpha1.CritConfigSpec A B
  converted_spec s = record s {
    worker_configuration = converted_worker s.control_plane_configuration s.worker_configuration;
  }

  abbrev pub converted_config : V1alpha1.CritConfig A B → V1alpha1.CritConfig A B
  converted_config c = record c { spec = converted_spec c.spec }

  abbrev pub converted_template : V1alpha1.CritConfigTemplate A B → V1alpha1.CritConfigTemplate A B
  converted_template t = record t {
    spec = record { template = record { spec = converted_spec t.spec.template.spec } };
  }

  abbrev pub converted_control_plane : V1alpha1.CritControlPlane A B → V1alpha1.CritControlPlane A B
  converted_control_plane c = record c {
    spec = record c.spec { crit_config_spec = converted_spec c.spec.crit_config_spec };
  }

module _ {A B C D : Type 0} (codec : Codec A B C D) (lossless : IsLossless codec) where
  config_text-back :
      (a : Option A) (b : Option B) (text : String)
      → config_text codec a b "" ≡ ok text
      → with_config codec text new_v1alpha1_crit_config_spec
        ≡ ok (record new_v1alpha1_crit_config_spec {
          control_plane_configuration = a;
          worker_configuration = converted_worker a b;
        })
  config_text-back (some a) b text h =
      let (present, c, read, back) = lossless.control_plane_back a text h in
      rw (present, read, back) refl
  config_text-back none (some b) text h =
      let (present, d, read, back) = lossless.worker_back b text h in rw (present, read, back) refl
  config_text-back none none text h = rw (sym (ok_injective "" text h)) refl

  spec-back :
      (s : V1alpha1.CritConfigSpec A B) (t : CritConfigSpec)
      → crit_config_spec_to_v1alpha2 codec s new_crit_config_spec ≡ ok t
      → crit_config_spec_to_v1alpha1 codec t new_v1alpha1_crit_config_spec ≡ ok (converted_spec s)
  unfolding crit_config_spec_to_v1alpha2 crit_config_spec_to_v1alpha1
  spec-back s t h =
      let (text, written, h') =
        >>=-eq-ok (config_text codec s.control_plane_configuration s.worker_configuration "") _ h in
      rw (sym (ok_injective _ t h')) (
        rw (config_text-back s.control_plane_configuration s.worker_configuration text written) (
          rw
            (
              map-inverse file_to_v1alpha2 file_to_v1alpha1 (λ f. refl) s.files,
              map-inverse user_to_v1alpha2 user_to_v1alpha1 (λ u. refl) s.users,
              ntp-back s.ntp,
            )
            refl))

  -- A CritConfig that is converted to v1alpha2 by ConvertTo and back by ConvertFrom is what it was; only
  -- a configuration for workers beside one for control planes is dropped. This rests on crit's YAML
  -- and its conversion, which give back every configuration that was written.
  pub crit_config-back :
      (x : V1alpha1.CritConfig A B) (y : CritConfig)
      → crit_config_convert_to codec x new_crit_config ≡ ok y
      → crit_config_convert_from codec y new_v1alpha1_crit_config ≡ ok (converted_config x)
  unfolding crit_config_to_v1alpha2 crit_config_to_v1alpha1
  crit_config-back x y h =
      let (spec, converted, h') =
        >>=-eq-ok (crit_config_spec_to_v1alpha2 codec x.spec new_crit_config_spec) _ h in
      rw (sym (ok_injective _ y h')) (rw (spec-back x.spec spec converted) refl)

  pub crit_config_list-back :
      (x : V1alpha1.CritConfigList A B) (y out : CritConfigList)
      (out' : V1alpha1.CritConfigList A B)
      → crit_config_list_to_v1alpha2 codec x out ≡ ok y
      → crit_config_list_to_v1alpha1 codec y out'
        ≡ ok (record { list_meta = x.list_meta; items = map converted_config x.items })
  unfolding crit_config_list_to_v1alpha2 crit_config_list_to_v1alpha1
  crit_config_list-back x y out out' h =
      let (items, converted, h') =
        >>=-eq-ok (convert_items (λ i. crit_config_to_v1alpha2 codec i new_crit_config) x.items) _
          h in
      let back =
        convert_items-back _ (λ i. crit_config_to_v1alpha1 codec i new_v1alpha1_crit_config)
          converted_config crit_config-back x.items items converted in
      rw (sym (ok_injective _ y h')) (rw back refl)

  resource-back :
      (x : V1alpha1.CritConfigTemplateResource A B) (y : CritConfigTemplateResource)
      → crit_config_template_resource_to_v1alpha2 codec x (record { spec = new_crit_config_spec })
        ≡ ok y
      → crit_config_template_resource_to_v1alpha1 codec y
          (record { spec = new_v1alpha1_crit_config_spec })
        ≡ ok (record { spec = converted_spec x.spec })
  unfolding crit_config_template_resource_to_v1alpha2 crit_config_template_resource_to_v1alpha1
  resource-back x y h =
      let (spec, converted, h') =
        >>=-eq-ok (crit_config_spec_to_v1alpha2 codec x.spec new_crit_config_spec) _ h in
      rw (sym (ok_injective _ y h')) (rw (spec-back x.spec spec converted) refl)

  template_spec-back :
      (x : V1alpha1.CritConfigTemplateSpec A B) (y : CritConfigTemplateSpec)
      → crit_config_template_spec_to_v1alpha2 codec x
          (record { template = record { spec = new_crit_config_spec } })
        ≡ ok y
      → crit_config_template_spec_to_v1alpha1 codec y
          (record { template = record { spec = new_v1alpha1_crit_config_spec } })
        ≡ ok (record { template = record { spec = converted_spec x.template.spec } })
  unfolding crit_config_template_spec_to_v1alpha2 crit_config_template_spec_to_v1alpha1
  template_spec-back x y h =
      let (r, converted, h') =
        >>=-eq-ok
          (crit_config_template_resource_to_v1alpha2 codec x.template
            (record { spec = new_crit_config_spec }))
          _ h in
      rw (sym (ok_injective _ y h')) (rw (resource-back x.template r converted) refl)

  template-back :
      (x : V1alpha1.CritConfigTemplate A B) (y : CritConfigTemplate)
      → crit_config_template_to_v1alpha2 codec x new_crit_config_template ≡ ok y
      → crit_config_template_to_v1alpha1 codec y new_v1alpha1_crit_config_template
        ≡ ok (converted_template x)
  unfolding crit_config_template_to_v1alpha2 crit_config_template_to_v1alpha1
  template-back x y h =
      let (r, converted, h') =
        >>=-eq-ok
          (crit_config_template_spec_to_v1alpha2 codec x.spec
            (record { template = record { spec = new_crit_config_spec } }))
          _ h in
      rw (sym (ok_injective _ y h')) (rw (template_spec-back x.spec r converted) refl)

  pub crit_config_template_list-back :
      (x : V1alpha1.CritConfigTemplateList A B) (y out : CritConfigTemplateList)
      (out' : V1alpha1.CritConfigTemplateList A B)
      → crit_config_template_list_to_v1alpha2 codec x out ≡ ok y
      → crit_config_template_list_to_v1alpha1 codec y out'
        ≡ ok (record { list_meta = x.list_meta; items = map converted_template x.items })
  unfolding crit_config_template_list_to_v1alpha2 crit_config_template_list_to_v1alpha1
  crit_config_template_list-back x y out out' h =
      let (items, converted, h') =
        >>=-eq-ok
          (convert_items (λ i. crit_config_template_to_v1alpha2 codec i new_crit_config_template)
            x.items)
          _ h in
      let back =
        convert_items-back _
          (λ i. crit_config_template_to_v1alpha1 codec i new_v1alpha1_crit_config_template)
          converted_template template-back x.items items converted in
      rw (sym (ok_injective _ y h')) (rw back refl)

  control_plane_spec-back :
      (x : V1alpha1.CritControlPlaneSpec A B) (y : CritControlPlaneSpec)
      → crit_control_plane_spec_to_v1alpha2 codec x new_crit_control_plane.spec ≡ ok y
      → crit_control_plane_spec_to_v1alpha1 codec y new_v1alpha1_crit_control_plane.spec
        ≡ ok (record x { crit_config_spec = converted_spec x.crit_config_spec })
  unfolding crit_control_plane_spec_to_v1alpha2 crit_control_plane_spec_to_v1alpha1
  control_plane_spec-back x y h =
      let (spec, converted, h') =
        >>=-eq-ok (crit_config_spec_to_v1alpha2 codec x.crit_config_spec new_crit_config_spec) _
          h in
      rw (sym (ok_injective _ y h')) (rw (spec-back x.crit_config_spec spec converted) refl)

  control_plane-back :
      (x : V1alpha1.CritControlPlane A B) (y : CritControlPlane)
      → crit_control_plane_to_v1alpha2 codec x new_crit_control_plane ≡ ok y
      → crit_control_plane_to_v1alpha1 codec y new_v1alpha1_crit_control_plane
        ≡ ok (converted_control_plane x)
  unfolding crit_control_plane_to_v1alpha2 crit_control_plane_to_v1alpha1
  control_plane-back x y h =
      let (spec, converted, h') =
        >>=-eq-ok (crit_control_plane_spec_to_v1alpha2 codec x.spec new_crit_control_plane.spec) _
          h in
      rw (sym (ok_injective _ y h')) (rw (control_plane_spec-back x.spec spec converted) refl)

  -- A CritControlPlaneList that is converted to v1alpha2 and back is what it was, each item with its
  -- metadata, spec and status; only a configuration for workers beside one for control planes is
  -- dropped. This rests on crit's YAML and its conversion, which give back every configuration that
  -- was written.
  pub crit_control_plane_list-back :
      (x : V1alpha1.CritControlPlaneList A B) (y out : CritControlPlaneList)
      (out' : V1alpha1.CritControlPlaneList A B)
      → crit_control_plane_list_to_v1alpha2 codec x out ≡ ok y
      → crit_control_plane_list_to_v1alpha1 codec y out'
        ≡ ok (record { list_meta = x.list_meta; items = map converted_control_plane x.items })
  unfolding crit_control_plane_list_to_v1alpha2 crit_control_plane_list_to_v1alpha1
  crit_control_plane_list-back x y out out' h =
      let (items, converted, h') =
        >>=-eq-ok
          (convert_items (λ i. crit_control_plane_to_v1alpha2 codec i new_crit_control_plane)
            x.items)
          _ h in
      let back =
        convert_items-back _
          (λ i. crit_control_plane_to_v1alpha1 codec i new_v1alpha1_crit_control_plane)
          converted_control_plane control_plane-back x.items items converted in
      rw (sym (ok_injective _ y h')) (rw back refl)
