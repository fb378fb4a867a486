-- ===== src/Model/DynamicPlugins.antt =====
-- pkg/model/dynamic-plugins.go: the ConfigMap that the init container install-dynamic-plugins reads.
pub mod InitContainers
use janus_idp_operator.Prelude.{
  String, Bool, true, false, ◌||◌, Option, none, some, List, [], ◌∷◌, ◌==◌, ◌^◌, not, is_some,
  non_empty, if◌then◌else◌,
}
use janus_idp_operator.GoError.{Outcome, ok, err, errorf, panic, ◌>>=◌}
use janus_idp_operator.Kube.{Container, Workload, ConfigMap}
use janus_idp_operator.Api.{BackstageSpec}
use janus_idp_operator.Platform.{Platform}
use janus_idp_operator.Utils.{generate_runtime_object_name}
use janus_idp_operator.Utils.PodMutator.{config_map_object_kind}
use janus_idp_operator.Model.Objects.{RuntimeObject, dynamic_plugins, backstage_deployment}
use janus_idp_operator.Model.State.{ExternalConfig, BackstageModel, Ref, load, set_runtime_object}
use janus_idp_operator.Model.Pods.{pod_of, mount_in_first_init, backstage_image_env_var}

abbrev pub dynamic_plugin_init_container_name : String
dynamic_plugin_init_container_name = "install-dynamic-plugins"

abbrev pub dynamic_plugins_file : String
dynamic_plugins_file = "dynamic-plugins.yaml"

unfoldable pub dynamic_plugins_default_name : String → String
unfolding generate_runtime_object_name
dynamic_plugins_default_name backstage_name =
    generate_runtime_object_name backstage_name "backstage-dynamic-plugins"

-- The result is &ic, a pointer to the loop's variable: a copy of the container, not the element of
-- the slice.
unfoldable pub dynamic_plugins_init_container : List Container → Option Container
dynamic_plugins_init_container [] = none
dynamic_plugins_init_container (ic ∷ ics) =
    let rest = dynamic_plugins_init_container ics in
    if ic.name == dynamic_plugin_init_container_name then some ic else rest

-- spec.Application.DynamicPluginsConfigMapName, or "" with no application
abbrev pub plugins_name : BackstageSpec → String
plugins_name spec = elim spec.application [
  | none ↦ ""
  | some app ↦ app.dynamic_plugins_config_map_name
]

unfoldable pub add_to_model :
    Option ConfigMap → Ref → BackstageSpec → BackstageModel → Outcome (Bool × BackstageModel)
unfolding set_runtime_object
add_to_model b r spec m =
    if not (is_some b) || non_empty (plugins_name spec)
    then ok (false, m)
    else ok (true, set_runtime_object r (dynamic_plugins b) m)

unfoldable pub set_meta_info : Option ConfigMap → String → Outcome (Option ConfigMap)
unfolding dynamic_plugins_default_name
set_meta_info none backstage_name = panic
set_meta_info (some o) backstage_name = ok (
    some (record o { meta = record o.meta { name = dynamic_plugins_default_name backstage_name } }))

module _ (p : Platform) where
  unfoldable pub update_pod : Option ConfigMap → Workload → Outcome Workload
  unfolding dynamic_plugins_init_container mount_in_first_init
  update_pod b w = elim (dynamic_plugins_init_container (pod_of w).init_containers) [
    | none ↦ ok w
    | some ic ↦ elim b [
      | none ↦ panic
      | some cm ↦
          mount_in_first_init p config_map_object_kind cm.meta.name ic.working_dir
            dynamic_plugins_file cm.content (pod_of w).init_containers w
    ]
  ]

  unfoldable pub add_dynamic_plugins : BackstageSpec → Workload → ExternalConfig → Outcome Workload
  unfolding update_pod
  add_dynamic_plugins spec w external =
      if plugins_name spec == ""
      then ok w
      else if not (is_some (dynamic_plugins_init_container (pod_of w).init_containers))
      then err (
          errorf (
            "deployment validation failed, dynamic plugin name configured but no InitContainer "
            ^ dynamic_plugin_init_container_name ^ " defined"))
      else update_pod (some external.dynamic_plugins) w

  -- if os.Getenv(BackstageImageEnvVar) != "" { initContainer.Image = … }
  unfoldable pub override_copy : Container → Container
  override_copy ic =
      if non_empty (p.getenv backstage_image_env_var)
      then record ic { image = p.getenv backstage_image_env_var }
      else ic

  -- model.backstageDeployment.deployment
  abbrev pub deployment_of : RuntimeObject → Outcome Workload
  deployment_of (backstage_deployment (some w)) = ok w
  deployment_of _ = panic

  -- The overridden container is the copy, so no part of the model changes.
  unfoldable pub validate : BackstageModel → Outcome BackstageModel
  unfolding dynamic_plugins_init_container override_copy load
  validate m = elim m.backstage_deployment_ref [
    | none ↦ panic
    | some r ↦ do
      o ← load m r
      w ← deployment_of o
      elim (dynamic_plugins_init_container (pod_of w).init_containers) [
        | none ↦
            err
              (errorf ("failed to find initContainer named " ^ dynamic_plugin_init_container_name))
        | some ic ↦ let copy = override_copy ic in ok m
      ]
  ]
