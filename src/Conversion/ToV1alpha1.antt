-- ===== src/Conversion/ToV1alpha1.antt =====
-- apis/bootstrap/v1alpha1 and apis/controlplane/v1alpha1: conversion.go and zz_generated.conversion.go,
-- from v1alpha2 to v1alpha1. `out` is the value that a conversion writes into; when it fails, what it has
-- written is left out.
use cluster_api_bootstrap_pr.Prelude.{
  String, Option, none, some, map, Result, ok, str_eq, if◌then◌else◌, ◌>>=◌,
}
use cluster_api_bootstrap_pr.Api.{
  CritConfigSpec, CritConfig, CritConfigList, CritConfigTemplateResource, CritConfigTemplateSpec,
  CritConfigTemplate, CritConfigTemplateList, CritControlPlaneSpec, CritControlPlane,
  CritControlPlaneList,
}
use cluster_api_bootstrap_pr.Api.V1alpha1
use cluster_api_bootstrap_pr.Conversion.Fields.{
  file_to_v1alpha1, user_to_v1alpha1, crit_config_status_to_v1alpha1,
  crit_control_plane_status_to_v1alpha1, optional_ntp_to_v1alpha1,
}
use cluster_api_bootstrap_pr.Conversion.Fresh.{
  new_v1alpha1_crit_config, new_v1alpha1_crit_config_template, new_v1alpha1_crit_control_plane,
}
use cluster_api_bootstrap_pr.Conversion.Codec.{
  Codec, Decoded, control_plane, worker, other, convert_items,
}

module _ {A B : Type 0} where
  -- autoConvert of CritConfigSpec: unsafe.Pointer reads a value as one of the other version, whose
  -- fields are the same in the same order
  abbrev pub auto_crit_config_spec_to_v1alpha1 :
      CritConfigSpec → V1alpha1.CritConfigSpec A B → V1alpha1.CritConfigSpec A B
  auto_crit_config_spec_to_v1alpha1 x out = record out {
    files = map file_to_v1alpha1 x.files;
    pre_crit_commands = x.pre_crit_commands;
    post_crit_commands = x.post_crit_commands;
    users = map user_to_v1alpha1 x.users;
    ntp = optional_ntp_to_v1alpha1 x.ntp;
    format = x.format;
    verbosity = x.verbosity;
  }

  -- autoConvert of CritControlPlaneSpec, with the scope whose Convert does nothing
  abbrev pub auto_crit_control_plane_spec_to_v1alpha1 :
      CritControlPlaneSpec → V1alpha1.CritControlPlaneSpec A B → V1alpha1.CritControlPlaneSpec A B
  auto_crit_control_plane_spec_to_v1alpha1 x out = record out {
    replicas = x.replicas;
    version = x.version;
    infrastructure_template = x.infrastructure_template;
  }

module _ {A B C D : Type 0} (codec : Codec A B C D) where
  abbrev pub control_plane_or_new : Option A → A
  control_plane_or_new none = codec.empty_control_plane
  control_plane_or_new (some a) = a

  abbrev pub worker_or_new : Option B → B
  worker_or_new none = codec.empty_worker
  worker_or_new (some b) = b

  -- the switch on the type of what was read
  abbrev pub with_decoded :
      Decoded C D → V1alpha1.CritConfigSpec A B → Result (V1alpha1.CritConfigSpec A B)
  with_decoded (control_plane c) out = do
    a ← codec.convert_control_plane c (control_plane_or_new out.control_plane_configuration)
    ok (record out { control_plane_configuration = some a })
  with_decoded (worker d) out = do
    b ← codec.convert_worker d (worker_or_new out.worker_configuration)
    ok (record out { worker_configuration = some b })
  with_decoded other out = ok out

  abbrev pub with_config :
      String → V1alpha1.CritConfigSpec A B → Result (V1alpha1.CritConfigSpec A B)
  with_config text out =
      if str_eq text ""
      then ok out
      else (codec.unmarshal text >>= (λ decoded. with_decoded decoded out))

  -- Convert_v1alpha2_CritConfigSpec_To_v1alpha1_CritConfigSpec
  unfoldable pub crit_config_spec_to_v1alpha1 :
      CritConfigSpec → V1alpha1.CritConfigSpec A B → Result (V1alpha1.CritConfigSpec A B)
  crit_config_spec_to_v1alpha1 x out = do
    out' ← with_config x.config out
    ok (auto_crit_config_spec_to_v1alpha1 x out')

  -- autoConvert of CritConfig, and ConvertTo or ConvertFrom
  unfoldable pub crit_config_to_v1alpha1 :
      CritConfig → V1alpha1.CritConfig A B → Result (V1alpha1.CritConfig A B)
  crit_config_to_v1alpha1 x out = do
    spec ← crit_config_spec_to_v1alpha1 x.spec out.spec
    ok (record {
      name = x.name;
      namespace_of = x.namespace_of;
      uid = x.uid;
      labels = x.labels;
      owner_references = x.owner_references;
      spec = spec;
      status = crit_config_status_to_v1alpha1 x.status;
    })

  -- autoConvert of CritConfigList
  unfoldable pub crit_config_list_to_v1alpha1 :
      CritConfigList → V1alpha1.CritConfigList A B → Result (V1alpha1.CritConfigList A B)
  crit_config_list_to_v1alpha1 x out = do
    items ← convert_items (λ i. crit_config_to_v1alpha1 i new_v1alpha1_crit_config) x.items
    ok (record { list_meta = x.list_meta; items = items })

  -- autoConvert of CritConfigTemplateResource
  unfoldable pub crit_config_template_resource_to_v1alpha1 :
      CritConfigTemplateResource
      → V1alpha1.CritConfigTemplateResource A B
      → Result (V1alpha1.CritConfigTemplateResource A B)
  crit_config_template_resource_to_v1alpha1 x out = do
    spec ← crit_config_spec_to_v1alpha1 x.spec out.spec
    ok (record { spec = spec })

  -- autoConvert of CritConfigTemplateSpec
  unfoldable pub crit_config_template_spec_to_v1alpha1 :
      CritConfigTemplateSpec
      → V1alpha1.CritConfigTemplateSpec A B
      → Result (V1alpha1.CritConfigTemplateSpec A B)
  crit_config_template_spec_to_v1alpha1 x out = do
    template ← crit_config_template_resource_to_v1alpha1 x.template out.template
    ok (record { template = template })

  -- autoConvert of CritConfigTemplate, and ConvertTo or ConvertFrom
  unfoldable pub crit_config_template_to_v1alpha1 :
      CritConfigTemplate
      → V1alpha1.CritConfigTemplate A B
      → Result (V1alpha1.CritConfigTemplate A B)
  crit_config_template_to_v1alpha1 x out = do
    spec ← crit_config_template_spec_to_v1alpha1 x.spec out.spec
    ok (record {
      name = x.name;
      namespace_of = x.namespace_of;
      uid = x.uid;
      labels = x.labels;
      owner_references = x.owner_references;
      spec = spec;
    })

  -- autoConvert of CritConfigTemplateList
  unfoldable pub crit_config_template_list_to_v1alpha1 :
      CritConfigTemplateList
      → V1alpha1.CritConfigTemplateList A B
      → Result (V1alpha1.CritConfigTemplateList A B)
  crit_config_template_list_to_v1alpha1 x out = do
    items ←
        convert_items (λ i. crit_config_template_to_v1alpha1 i new_v1alpha1_crit_config_template)
          x.items
    ok (record { list_meta = x.list_meta; items = items })

  -- the conversion of CritControlPlaneSpec
  unfoldable pub crit_control_plane_spec_to_v1alpha1 :
      CritControlPlaneSpec
      → V1alpha1.CritControlPlaneSpec A B
      → Result (V1alpha1.CritControlPlaneSpec A B)
  crit_control_plane_spec_to_v1alpha1 x out = do
    let out' = auto_crit_control_plane_spec_to_v1alpha1 x out
    spec ← crit_config_spec_to_v1alpha1 x.crit_config_spec out'.crit_config_spec
    ok (record out' { crit_config_spec = spec })

  -- autoConvert of CritControlPlane, and ConvertTo or ConvertFrom
  unfoldable pub crit_control_plane_to_v1alpha1 :
      CritControlPlane → V1alpha1.CritControlPlane A B → Result (V1alpha1.CritControlPlane A B)
  crit_control_plane_to_v1alpha1 x out = do
    spec ← crit_control_plane_spec_to_v1alpha1 x.spec out.spec
    ok (record {
      name = x.name;
      namespace_of = x.namespace_of;
      uid = x.uid;
      finalizers = x.finalizers;
      deletion_timestamp = x.deletion_timestamp;
      spec = spec;
      status = crit_control_plane_status_to_v1alpha1 x.status;
    })

  -- autoConvert of CritControlPlaneList
  unfoldable pub crit_control_plane_list_to_v1alpha1 :
      CritControlPlaneList
      → V1alpha1.CritControlPlaneList A B
      → Result (V1alpha1.CritControlPlaneList A B)
  crit_control_plane_list_to_v1alpha1 x out = do
    items ←
        convert_items (λ i. crit_control_plane_to_v1alpha1 i new_v1alpha1_crit_control_plane)
          x.items
    ok (record { list_meta = x.list_meta; items = items })

  -- ConvertFrom of the three resources
  abbrev pub crit_config_convert_from :
      CritConfig → V1alpha1.CritConfig A B → Result (V1alpha1.CritConfig A B)
  crit_config_convert_from src dst = crit_config_to_v1alpha1 src dst

  abbrev pub crit_config_template_convert_from :
      CritConfigTemplate
      → V1alpha1.CritConfigTemplate A B
      → Result (V1alpha1.CritConfigTemplate A B)
  crit_config_template_convert_from src dst = crit_config_template_to_v1alpha1 src dst

  abbrev pub crit_control_plane_convert_from :
      CritControlPlane → V1alpha1.CritControlPlane A B → Result (V1alpha1.CritControlPlane A B)
  crit_control_plane_convert_from src dst = crit_control_plane_to_v1alpha1 src dst
