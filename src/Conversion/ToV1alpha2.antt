-- ===== src/Conversion/ToV1alpha2.antt =====
-- apis/bootstrap/v1alpha1 and apis/controlplane/v1alpha1: conversion.go and zz_generated.conversion.go,
-- from v1alpha1 to v1alpha2. `out` is the value that a conversion writes into; when it fails, what it has
-- written is left out.
use cluster_api_bootstrap_pr.Prelude.{String, Option, none, some, map, Result, ok, ◌>>=◌}
use cluster_api_bootstrap_pr.Api.{
  CritConfigSpec, CritConfig, CritConfigList, CritConfigTemplateResource, CritConfigTemplateSpec,
  CritConfigTemplate, CritConfigTemplateList, CritControlPlaneSpec, CritControlPlane,
  CritControlPlaneList,
}
use cluster_api_bootstrap_pr.Api.V1alpha1
use cluster_api_bootstrap_pr.Conversion.Fields.{
  file_to_v1alpha2, user_to_v1alpha2, crit_config_status_to_v1alpha2,
  crit_control_plane_status_to_v1alpha2, optional_ntp_to_v1alpha2,
}
use cluster_api_bootstrap_pr.Conversion.Fresh.{
  new_crit_config, new_crit_config_template, new_crit_control_plane,
}
use cluster_api_bootstrap_pr.Conversion.Codec.{Codec, convert_items}

module _ {A B : Type 0} where
  -- autoConvert of CritConfigSpec: unsafe.Pointer reads a value as one of the other version, whose
  -- fields are the same in the same order
  abbrev pub auto_crit_config_spec_to_v1alpha2 :
      V1alpha1.CritConfigSpec A B → CritConfigSpec → CritConfigSpec
  auto_crit_config_spec_to_v1alpha2 x out = record out {
    files = map file_to_v1alpha2 x.files;
    pre_crit_commands = x.pre_crit_commands;
    post_crit_commands = x.post_crit_commands;
    users = map user_to_v1alpha2 x.users;
    ntp = optional_ntp_to_v1alpha2 x.ntp;
    format = x.format;
    verbosity = x.verbosity;
  }

  -- autoConvert of CritControlPlaneSpec, with the scope whose Convert does nothing
  abbrev pub auto_crit_control_plane_spec_to_v1alpha2 :
      V1alpha1.CritControlPlaneSpec A B → CritControlPlaneSpec → CritControlPlaneSpec
  auto_crit_control_plane_spec_to_v1alpha2 x out = record out {
    replicas = x.replicas;
    version = x.version;
    infrastructure_template = x.infrastructure_template;
  }

module _ {A B C D : Type 0} (codec : Codec A B C D) where
  -- the switch of the conversion of CritConfigSpec, with the text that was there
  abbrev pub config_text : Option A → Option B → String → Result String
  config_text (some a) b text = codec.marshal_control_plane a
  config_text none (some b) text = codec.marshal_worker b
  config_text none none text = ok text

  -- Convert_v1alpha1_CritConfigSpec_To_v1alpha2_CritConfigSpec
  unfoldable pub crit_config_spec_to_v1alpha2 :
      V1alpha1.CritConfigSpec A B → CritConfigSpec → Result (CritConfigSpec)
  crit_config_spec_to_v1alpha2 x out = do
    text ← config_text x.control_plane_configuration x.worker_configuration out.config
    ok (auto_crit_config_spec_to_v1alpha2 x (record out { config = text }))

  -- autoConvert of CritConfig, and ConvertTo or ConvertFrom
  unfoldable pub crit_config_to_v1alpha2 :
      V1alpha1.CritConfig A B → CritConfig → Result (CritConfig)
  crit_config_to_v1alpha2 x out = do
    spec ← crit_config_spec_to_v1alpha2 x.spec out.spec
    ok (record {
      name = x.name;
      namespace_of = x.namespace_of;
      uid = x.uid;
      labels = x.labels;
      owner_references = x.owner_references;
      spec = spec;
      status = crit_config_status_to_v1alpha2 x.status;
    })

  -- autoConvert of CritConfigList
  unfoldable pub crit_config_list_to_v1alpha2 :
      V1alpha1.CritConfigList A B → CritConfigList → Result (CritConfigList)
  crit_config_list_to_v1alpha2 x out = do
    items ← convert_items (λ i. crit_config_to_v1alpha2 i new_crit_config) x.items
    ok (record { list_meta = x.list_meta; items = items })

  -- autoConvert of CritConfigTemplateResource
  unfoldable pub crit_config_template_resource_to_v1alpha2 :
      V1alpha1.CritConfigTemplateResource A B
      → CritConfigTemplateResource
      → Result (CritConfigTemplateResource)
  crit_config_template_resource_to_v1alpha2 x out = do
    spec ← crit_config_spec_to_v1alpha2 x.spec out.spec
    ok (record { spec = spec })

  -- autoConvert of CritConfigTemplateSpec
  unfoldable pub crit_config_template_spec_to_v1alpha2 :
      V1alpha1.CritConfigTemplateSpec A B → CritConfigTemplateSpec → Result (CritConfigTemplateSpec)
  crit_config_template_spec_to_v1alpha2 x out = do
    template ← crit_config_template_resource_to_v1alpha2 x.template out.template
    ok (record { template = template })

  -- autoConvert of CritConfigTemplate, and ConvertTo or ConvertFrom
  unfoldable pub crit_config_template_to_v1alpha2 :
      V1alpha1.CritConfigTemplate A B → CritConfigTemplate → Result (CritConfigTemplate)
  crit_config_template_to_v1alpha2 x out = do
    spec ← crit_config_template_spec_to_v1alpha2 x.spec out.spec
    ok (record {
      name = x.name;
      namespace_of = x.namespace_of;
      uid = x.uid;
      labels = x.labels;
      owner_references = x.owner_references;
      spec = spec;
    })

  -- autoConvert of CritConfigTemplateList
  unfoldable pub crit_config_template_list_to_v1alpha2 :
      V1alpha1.CritConfigTemplateList A B → CritConfigTemplateList → Result (CritConfigTemplateList)
  crit_config_template_list_to_v1alpha2 x out = do
    items ← convert_items (λ i. crit_config_template_to_v1alpha2 i new_crit_config_template) x.items
    ok (record { list_meta = x.list_meta; items = items })

  -- the conversion of CritControlPlaneSpec
  unfoldable pub crit_control_plane_spec_to_v1alpha2 :
      V1alpha1.CritControlPlaneSpec A B → CritControlPlaneSpec → Result (CritControlPlaneSpec)
  crit_control_plane_spec_to_v1alpha2 x out = do
    let out' = auto_crit_control_plane_spec_to_v1alpha2 x out
    spec ← crit_config_spec_to_v1alpha2 x.crit_config_spec out'.crit_config_spec
    ok (record out' { crit_config_spec = spec })

  -- autoConvert of CritControlPlane, and ConvertTo or ConvertFrom
  unfoldable pub crit_control_plane_to_v1alpha2 :
      V1alpha1.CritControlPlane A B → CritControlPlane → Result (CritControlPlane)
  crit_control_plane_to_v1alpha2 x out = do
    spec ← crit_control_plane_spec_to_v1alpha2 x.spec out.spec
    ok (record {
      name = x.name;
      namespace_of = x.namespace_of;
      uid = x.uid;
      finalizers = x.finalizers;
      deletion_timestamp = x.deletion_timestamp;
      spec = spec;
      status = crit_control_plane_status_to_v1alpha2 x.status;
    })

  -- autoConvert of CritControlPlaneList
  unfoldable pub crit_control_plane_list_to_v1alpha2 :
      V1alpha1.CritControlPlaneList A B → CritControlPlaneList → Result (CritControlPlaneList)
  crit_control_plane_list_to_v1alpha2 x out = do
    items ← convert_items (λ i. crit_control_plane_to_v1alpha2 i new_crit_control_plane) x.items
    ok (record { list_meta = x.list_meta; items = items })

  -- ConvertTo of the three resources
  abbrev pub crit_config_convert_to : V1alpha1.CritConfig A B → CritConfig → Result (CritConfig)
  crit_config_convert_to src dst = crit_config_to_v1alpha2 src dst

  abbrev pub crit_config_template_convert_to :
      V1alpha1.CritConfigTemplate A B → CritConfigTemplate → Result (CritConfigTemplate)
  crit_config_template_convert_to src dst = crit_config_template_to_v1alpha2 src dst

  abbrev pub crit_control_plane_convert_to :
      V1alpha1.CritControlPlane A B → CritControlPlane → Result (CritControlPlane)
  crit_control_plane_convert_to src dst = crit_control_plane_to_v1alpha2 src dst
