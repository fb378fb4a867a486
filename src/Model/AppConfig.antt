-- ===== src/Model/AppConfig.antt =====
-- pkg/model/appconfig.go: app-config files, mounted and passed to the container as --config.
pub mod Arguments
use janus_idp_operator.Prelude.{
  String, Bool, true, false, ◌||◌, none, some, List, [], ◌∷◌, ◌++◌, ◌==◌, if◌then◌else◌,
}
use janus_idp_operator.Prelude.Counting.{length}
use janus_idp_operator.StringMap.{keys}
use janus_idp_operator.GoError.{Outcome, ok, panic, ◌>>=◌}
use janus_idp_operator.Kube.{Container, Workload, ConfigMap}
use janus_idp_operator.Api.{AppConfigSpec, BackstageSpec, ObjectKeyRef}
use janus_idp_operator.Platform.{Platform, arguments}
use janus_idp_operator.Utils.{generate_runtime_object_name}
use janus_idp_operator.Utils.PodMutator.{config_map_object_kind}
use janus_idp_operator.Model.Objects.{ConfigMapMount, app_config}
use janus_idp_operator.Model.State.{ExternalConfig, BackstageModel, Ref, set_runtime_object}
use janus_idp_operator.Model.Pods.{
  pod_of, change_container, mount_in_first, config_map_at, mount_path_or_default,
}

unfoldable pub app_config_default_name : String → String
unfolding generate_runtime_object_name
app_config_default_name backstage_name =
    generate_runtime_object_name backstage_name "backstage-appconfig"

unfoldable pub add_to_model :
    ConfigMapMount → Ref → BackstageModel → Outcome (Bool × BackstageModel)
unfolding set_runtime_object
add_to_model b r m = elim b.object [
  | some o ↦ ok (true, set_runtime_object r (app_config b) m)
  | none ↦ ok (false, m)
]

unfoldable pub set_meta_info : ConfigMapMount → String → Outcome ConfigMapMount
unfolding app_config_default_name
set_meta_info b backstage_name = elim b.object [
  | none ↦ panic
  | some o ↦ ok (record b {
    object =
        some (record o { meta = record o.meta { name = app_config_default_name backstage_name } });
  })
]

module _ (p : Platform) where
  -- for file := range b.ConfigMap.Data { … Args = append(Args, "--config", path) }
  unfoldable pub config_args : String → String → List String → List String
  config_args file_dir key [] = []
  config_args file_dir key (file ∷ files) =
      let rest = config_args file_dir key files in
      if key == "" || key == file then "--config" ∷ p.join (file_dir ∷ file ∷ []) ∷ rest else rest

  abbrev pub add_args : ConfigMapMount → ConfigMap → Container → Container
  add_args b cm c = elim cm.content [
    | none ↦ c
    | some m ↦ record c {
      args =
          c.args
          ++ config_args b.mount_path b.key (p.range_order arguments (length c.args) (keys m));
    }
  ]

  unfoldable pub update_pod : ConfigMapMount → Workload → Outcome Workload
  unfolding mount_in_first change_container config_args
  update_pod b w = elim b.object [
    | none ↦ panic
    | some cm ↦ do
      w' ←
          mount_in_first p config_map_object_kind cm.meta.name b.mount_path b.key cm.content
            (pod_of w).containers w
      change_container (add_args b cm) w'
  ]

  unfoldable pub add_each :
      AppConfigSpec → ExternalConfig → List ObjectKeyRef → Workload → Outcome Workload
  unfolding update_pod config_map_at
  add_each spec external [] w = ok w
  add_each spec external (ref ∷ refs) w = do
    w' ←
        update_pod
          (record {
            object = some (config_map_at ref.name external.app_configs);
            mount_path = mount_path_or_default spec.mount_path;
            key = ref.key;
          })
          w
    add_each spec external refs w'

  unfoldable pub add_app_configs : BackstageSpec → Workload → ExternalConfig → Outcome Workload
  unfolding add_each
  add_app_configs spec w external = elim spec.application [
    | none ↦ ok w
    | some app ↦ elim app.app_config [ none ↦ ok w | some s ↦ add_each s external s.config_maps w ]
  ]

-- validate has nothing to do.
abbrev pub validate : BackstageModel → Outcome BackstageModel
validate m = ok m
